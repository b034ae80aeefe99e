-- ===== src/Base64/RoundTrip.antt =====
-- Decoding what `base64encode` wrote.
use libplist.Prelude.{ℕ, ◌+◌, ◌*◌, ◌/◌, ◌%◌, ◌≡◌, ◌<◌, ◌≢◌, refl, sym, ap, ◌∙◌, arith}
use libplist.Prelude.{List, [], ◌∷◌, ◌++◌, none, some, Bool, true, false, ◌&&◌, not}
use libplist.Prelude.{◌==◌, All, append_assoc, append-nil, get_or, check_below, check_below-at}
use libplist.Base64.{base64_pad, base64_table, base64encode, base64decode}
use libplist.Base64.{Entry, invalid, padding, digit, DecodeState}
use libplist.Base64.{str, encode_group, emit, flush, push, is_space, feed, store_entry, decode_loop}

abbrev is_digit : Entry → ℕ → Bool
is_digit (digit n) i = n == i
is_digit _ i = false

is_coded : ℕ → Bool
is_coded i =
    not (str i == 0) && not (is_space (str i)) && is_digit (get_or base64_table (str i) invalid) i

digit_table : check_below is_coded 64 ≡ true
unfolding check_below is_coded str is_space base64_table
digit_table = refl

is_digit-eq : (w : Entry) (i : ℕ) → is_digit w i ≡ true → w ≡ digit i
is_digit-eq invalid i h = cc
is_digit-eq padding i h = cc
is_digit-eq (digit n) i h = ground arith

str_facts :
    (i : ℕ)
    → i < 64
    → ((str i == 0) ≡ false)
      × (is_space (str i) ≡ false)
      × (get_or base64_table (str i) invalid ≡ digit i)
unfolding is_coded
str_facts i h =
    let t = check_below-at is_coded 64 digit_table i h in
    ground (arith, t, is_digit-eq (get_or base64_table (str i) invalid) i)

-- A character of the alphabet is stored as its value.
pub decode_loop-str :
    (i : ℕ) (r : List ℕ) (s : DecodeState)
    → i < 64
    → decode_loop (str i ∷ r) s ≡ decode_loop r (push (digit i) s)
unfolding decode_loop
decode_loop-str i r s h =
    let (a, b, c) = str_facts i h in rw (decode_loop, a, feed, b, c, store_entry)

pub decode_loop-pad :
    (r : List ℕ) (s : DecodeState) → decode_loop (base64_pad ∷ r) s ≡ decode_loop r (push padding s)
unfolding decode_loop
decode_loop-pad r s = refl

abbrev empty_with : List ℕ → DecodeState
empty_with out = record { tmpval = []; out = out }

-- The three bytes that four full entries stand for.
group_bytes :
    (a b c : ℕ)
    → a < 256
    → b < 256
    → c < 256
    → ((a / 4 * 4 + (a % 4 * 16 + b / 16) / 16) % 256 ≡ a)
      × (((a % 4 * 16 + b / 16) * 16 + (b % 16 * 4 + c / 64) / 4) % 256 ≡ b)
      × (((b % 16 * 4 + c / 64) * 64 + c % 64) % 256 ≡ c)
group_bytes a b c ha hb hc = omega arith

module _ (a b c : ℕ) (ha : a < 256) (r out : List ℕ) where
  decode_group1 :
      decode_loop (encode_group a none none ++ r) (empty_with out)
      ≡ decode_loop r (empty_with (out ++ (a ∷ [])))
  unfolding encode_group push flush emit
  decode_group1 =
      let (e, _, _) = group_bytes a 0 0 ha (omega arith) (omega arith) in
      rw (
        decode_loop-str (a / 4) _ _ (omega arith),
        decode_loop-str (a % 4 * 16 + 0 / 16) _ _ (omega arith),
        decode_loop-pad,
        decode_loop-pad,
        e,
      )

  decode_group2 :
      b < 256
      → decode_loop (encode_group a (some b) none ++ r) (empty_with out)
        ≡ decode_loop r (empty_with (out ++ (a ∷ b ∷ [])))
  unfolding encode_group push flush emit
  decode_group2 hb =
      let (e, f, _) = group_bytes a b 0 ha hb (omega arith) in
      rw (
        decode_loop-str (a / 4) _ _ (omega arith),
        decode_loop-str (a % 4 * 16 + b / 16) _ _ (omega arith),
        decode_loop-str (b % 16 * 4 + 0 / 64) _ _ (omega arith),
        decode_loop-pad,
        e,
        f,
      )

  decode_group3 :
      b < 256
      → c < 256
      → decode_loop (encode_group a (some b) (some c) ++ r) (empty_with out)
        ≡ decode_loop r (empty_with (out ++ (a ∷ b ∷ c ∷ [])))
  unfolding encode_group push flush emit
  decode_group3 hb hc =
      let (e, f, g) = group_bytes a b c ha hb hc in
      rw (
        decode_loop-str (a / 4) _ _ (omega arith),
        decode_loop-str (a % 4 * 16 + b / 16) _ _ (omega arith),
        decode_loop-str (b % 16 * 4 + c / 64) _ _ (omega arith),
        decode_loop-str (c % 64) _ _ (omega arith),
        e,
        f,
        g,
      )

abbrev pub IsByte : ℕ → Type 0
IsByte b = b < 256

decode_loop-encode :
    (bytes out : List ℕ)
    → All IsByte bytes
    → decode_loop (base64encode bytes) (empty_with out) ≡ out ++ bytes
unfolding base64encode encode_group decode_loop
decode_loop-encode [] out h = sym (append-nil out)
decode_loop-encode (a ∷ []) out h = decode_group1 a 0 0 h.0 [] out
decode_loop-encode (a ∷ b ∷ []) out h = decode_group2 a b 0 h.0 [] out h.1.0
decode_loop-encode (a ∷ b ∷ c ∷ r) out h =
    decode_group3 a b c h.0 (base64encode r) out h.1.0 h.1.1.0
    ∙ decode_loop-encode r (out ++ (a ∷ b ∷ c ∷ [])) h.1.1.1
    ∙ append_assoc out (a ∷ b ∷ c ∷ []) r

-- base64decode reads back every non-empty sequence of bytes that base64encode wrote.
pub base64decode-base64encode :
    (bytes : List ℕ)
    → bytes ≢ []
    → All IsByte bytes
    → base64decode (base64encode bytes) ≡ some bytes
unfolding base64decode
base64decode-base64encode [] ne h = absurd (ne refl)
base64decode-base64encode (a ∷ []) ne h =
    unfold base64encode encode_group in ap some (decode_loop-encode (a ∷ []) [] h)
base64decode-base64encode (a ∷ b ∷ []) ne h =
    unfold base64encode encode_group in ap some (decode_loop-encode (a ∷ b ∷ []) [] h)
base64decode-base64encode (a ∷ b ∷ c ∷ r) ne h =
    unfold base64encode encode_group in ap some (decode_loop-encode (a ∷ b ∷ c ∷ r) [] h)
