-- ===== src/Base64/Bounds.antt =====
-- Sizes of what src/base64.c writes to its output buffers, and what the decoder skips.
use libplist.Prelude.{ℕ, ◌+◌, ◌≢◌, ap, ◌*◌, ◌/◌, ◌≡◌, ◌<◌, ◌≤◌, refl, arith}
use libplist.Prelude.{List, [], ◌∷◌, ◌++◌, some, true, false}
use libplist.Prelude.{◌==◌, length, length-append, get_or}
use libplist.Base64.{base64_table, base64encode, base64decode, Entry, invalid, padding, digit}
use libplist.Base64.{
  DecodeState, encode_group, emit, flush, push, is_space, feed, store_entry, decode_loop,
}

length-emit : (w1 w2 : Entry) (f : ℕ → ℕ → ℕ) → length (emit w1 w2 f) ≤ 1
unfolding emit
length-emit (digit u) (digit v) f = omega arith
length-emit w1 w2 f = omega arith

length-flush : (w1 w2 w3 w4 : Entry) → length (flush w1 w2 w3 w4) ≤ 3
unfolding flush
length-flush w1 w2 w3 w4 = simp length-append (omega (arith, length-emit))

-- Four times the bytes written and three times the entries stored.
abbrev room : DecodeState → ℕ
room s = length s.out * 4 + length s.tmpval * 3

push-room :
    (w : Entry) (t : List Entry) (out : List ℕ)
    → length t < 4
    → let s : DecodeState = push w (record { tmpval = t; out = out }) in
      (length s.tmpval < 4) × (room s ≤ length out * 4 + length t * 3 + 3)
unfolding push
push-room w [] out h = omega arith
push-room w (a ∷ []) out h = omega arith
push-room w (a ∷ b ∷ []) out h = omega arith
push-room w (a ∷ b ∷ c ∷ r) out h = rw length-append (omega (arith, length-flush a b c w))

store_entry-room :
    (w : Entry) (t : List Entry) (out : List ℕ)
    → length t < 4
    → let s : DecodeState = store_entry w (record { tmpval = t; out = out }) in
      (length s.tmpval < 4) × (room s ≤ length out * 4 + length t * 3 + 3)
unfolding store_entry
store_entry-room invalid t out h = omega arith
store_entry-room padding t out h = push-room padding t out h
store_entry-room (digit n) t out h = push-room (digit n) t out h

feed-room :
    (c : ℕ) (s : DecodeState)
    → length s.tmpval < 4
    → (length (feed c s).tmpval < 4) × (room (feed c s) ≤ room s + 3)
unfolding feed
feed-room c s h = ground (arith, store_entry-room (get_or base64_table c invalid) s.tmpval s.out h)

decode_loop-room :
    (r : List ℕ) (s : DecodeState)
    → length s.tmpval < 4
    → length (decode_loop r s) * 4 ≤ room s + length r * 3
unfolding decode_loop
decode_loop-room [] s h = omega arith
decode_loop-room (c ∷ r) s h =
    let (a, b) = feed-room c s h in ground (arith, decode_loop-room r (feed c s) a)

-- The bytes that base64decode writes and the final zero fit the (len / 4) * 3 + 3 bytes that it
-- allocates, whatever the text.
pub base64decode_fits :
    (text out : List ℕ) → base64decode text ≡ some out → length out + 1 ≤ length text / 4 * 3 + 3
unfolding base64decode
base64decode_fits [] out e = cc
base64decode_fits (c ∷ r) out e =
    ground (arith, decode_loop-room (c ∷ r) (record { tmpval = []; out = [] }) (omega arith))

-- base64encode writes four characters for each three bytes begun.
pub length-base64encode :
    (bytes : List ℕ) → length (base64encode bytes) ≡ (length bytes + 2) / 3 * 4
unfolding base64encode encode_group
length-base64encode [] = omega arith
length-base64encode (a ∷ []) = omega arith
length-base64encode (a ∷ b ∷ []) = omega arith
length-base64encode (a ∷ b ∷ c ∷ r) = omega (arith, length-base64encode r)

is_space-ne-zero : (c : ℕ) → is_space c ≡ true → (c == 0) ≡ false
unfolding is_space
is_space-ne-zero c h = ground arith

decode_loop-insert_space :
    (xs ys : List ℕ) (c : ℕ) (s : DecodeState)
    → is_space c ≡ true
    → decode_loop (xs ++ (c ∷ ys)) s ≡ decode_loop (xs ++ ys) s
unfolding decode_loop
decode_loop-insert_space [] ys c s h = rw (is_space-ne-zero c h, feed, h)
decode_loop-insert_space (x ∷ xs) ys c s h = rw (decode_loop-insert_space xs ys c (feed x s) h)

-- White space may stand anywhere in a text that is not empty without changing what is decoded.
pub base64decode-insert_space :
    (xs ys : List ℕ) (c : ℕ)
    → is_space c ≡ true
    → xs ++ ys ≢ []
    → base64decode (xs ++ (c ∷ ys)) ≡ base64decode (xs ++ ys)
unfolding base64decode
base64decode-insert_space [] [] c h ne = absurd (ne refl)
base64decode-insert_space [] (y ∷ ys) c h ne = ap some (decode_loop-insert_space [] (y ∷ ys) c _ h)
base64decode-insert_space (x ∷ xs) ys c h ne = ap some (decode_loop-insert_space (x ∷ xs) ys c _ h)
