-- ===== src/Bplist/Word/Values.antt =====
-- Integers in the byte order of the file: `uint_to_host` reads them.
use libplist.Prelude.{ℕ, zero, suc, ◌+◌, ◌*◌, ◌/◌, ◌%◌, ◌^◌, ◌<◌, ◌≤◌, ◌≡◌, ◌∙◌, refl, ap, arith}
use libplist.Prelude.{Bool, true, ◌&&◌, ltb}
use libplist.Prelude.{List, [], ◌∷◌, ◌++◌, All, get_or, length, take, drop, replicate}
use libplist.Bplist.Word.{
  le_value, byte_of, bswap16, bswap32, bswap64, be_n_toh, load_width, to_host,
}

-- The value of a sequence of bytes, highest first, behind those that make `acc`.
unfoldable pub be_value_from : ℕ → List ℕ → ℕ
be_value_from acc [] = acc
be_value_from acc (b ∷ r) = be_value_from (acc * 256 + b) r

unfoldable pub be_value : List ℕ → ℕ
unfolding be_value_from
be_value bs = be_value_from 0 bs

abbrev pub IsByte : ℕ → Type 0
IsByte b = b < 256

-- The same as a test.
unfoldable pub all_bytes : List ℕ → Bool
all_bytes [] = true
all_bytes (b ∷ r) = ltb b 256 && all_bytes r

pub all_bytes-IsByte : (bs : List ℕ) → all_bytes bs ≡ true → All IsByte bs
unfolding all_bytes
all_bytes-IsByte [] h = _
all_bytes-IsByte (b ∷ r) h = (ground arith, all_bytes-IsByte r (ground arith))

byte_of-le_value : (bs : List ℕ) → All IsByte bs → (i : ℕ) → byte_of (le_value bs) i ≡ get_or bs i 0
unfolding byte_of le_value
byte_of-le_value [] h zero = refl
byte_of-le_value [] h (suc i) = byte_of-le_value [] h i
byte_of-le_value (c ∷ r) (hc, hr) zero = omega arith
byte_of-le_value (c ∷ r) (hc, hr) (suc i) =
    let e : (c + 256 * le_value r) / 256 ≡ le_value r = omega arith in
    rw e (byte_of-le_value r hr i)

module _ (c0 c1 : ℕ) (h : All IsByte (c0 ∷ c1 ∷ [])) where
  bswap16-le_value : bswap16 (le_value (c0 ∷ c1 ∷ [])) ≡ be_value (c0 ∷ c1 ∷ [])
  unfolding bswap16 be_value be_value_from
  bswap16-le_value = let at = byte_of-le_value (c0 ∷ c1 ∷ []) h in omega (arith, at 0, at 1)

module _ (c0 c1 c2 c3 : ℕ) (h : All IsByte (c0 ∷ c1 ∷ c2 ∷ c3 ∷ [])) where
  bswap32-le_value : bswap32 (le_value (c0 ∷ c1 ∷ c2 ∷ c3 ∷ [])) ≡ be_value (c0 ∷ c1 ∷ c2 ∷ c3 ∷ [])
  unfolding bswap32 be_value be_value_from
  bswap32-le_value =
      let at = byte_of-le_value (c0 ∷ c1 ∷ c2 ∷ c3 ∷ []) h in omega (arith, at 0, at 1, at 2, at 3)

module _ (c0 c1 c2 c3 c4 c5 c6 c7 : ℕ) where
  abbrev eight : List ℕ
  eight = c0 ∷ c1 ∷ c2 ∷ c3 ∷ c4 ∷ c5 ∷ c6 ∷ c7 ∷ []

  bswap64-le_value : All IsByte eight → bswap64 (le_value eight) ≡ be_value eight
  unfolding bswap64 be_value be_value_from
  bswap64-le_value h =
      let at = byte_of-le_value eight h in
      omega (arith, at 0, at 1, at 2, at 3, at 4, at 5, at 6, at 7)

zeros-IsByte : (m : ℕ) (bs : List ℕ) → All IsByte bs → All IsByte (replicate m 0 ++ bs)
zeros-IsByte zero bs h = h
zeros-IsByte (suc m) bs h = (omega arith, zeros-IsByte m bs h)

pub All-take : (n : ℕ) (xs : List ℕ) → All IsByte xs → All IsByte (take n xs)
All-take zero xs h = _
All-take (suc n) [] h = _
All-take (suc n) (x ∷ xs) (hx, h) = (hx, All-take n xs h)

pub All-drop : (n : ℕ) (xs : List ℕ) → All IsByte xs → All IsByte (drop n xs)
All-drop zero xs h = h
All-drop (suc n) [] h = _
All-drop (suc n) (x ∷ xs) (hx, h) = All-drop n xs h

module _ (c0 c1 c2 c3 c4 c5 c6 c7 : ℕ) (r : List ℕ) where
  abbrev loaded : List ℕ
  loaded = c0 ∷ c1 ∷ c2 ∷ c3 ∷ c4 ∷ c5 ∷ c6 ∷ c7 ∷ r

  -- What is loaded for an integer of `n` bytes, in the machine's order.
  to_host-be_value :
      (n : ℕ)
      → All IsByte loaded
      → 0 < n
      → n ≤ 8
      → to_host n (le_value (take (load_width n) loaded)) ≡ be_value (take n loaded)
  unfolding to_host load_width be_n_toh be_value be_value_from le_value
  to_host-be_value zero h lo hi = absurd (omega arith)
  to_host-be_value (suc zero) h lo hi = omega arith
  to_host-be_value (suc (suc zero)) h lo hi = bswap16-le_value c0 c1 (All-take 2 loaded h)
  to_host-be_value (suc (suc (suc zero))) h lo hi =
      let e : le_value (take 8 loaded) * 2 ^ 40 % 2 ^ 64 ≡ le_value (eight 0 0 0 0 0 c0 c1 c2) =
        omega arith in
      ap bswap64 e
      ∙ bswap64-le_value 0 0 0 0 0 c0 c1 c2 (zeros-IsByte 5 (take 3 loaded) (All-take 3 loaded h))
  to_host-be_value (suc (suc (suc (suc zero)))) h lo hi =
      bswap32-le_value c0 c1 c2 c3 (All-take 4 loaded h)
  to_host-be_value (suc (suc (suc (suc (suc zero))))) h lo hi =
      let e : le_value (take 8 loaded) * 2 ^ 24 % 2 ^ 64 ≡ le_value (eight 0 0 0 c0 c1 c2 c3 c4) =
        omega arith in
      ap bswap64 e
      ∙ bswap64-le_value 0 0 0 c0 c1 c2 c3 c4 (zeros-IsByte 3 (take 5 loaded) (All-take 5 loaded h))
  to_host-be_value (suc (suc (suc (suc (suc (suc zero)))))) h lo hi =
      let e : le_value (take 8 loaded) * 2 ^ 16 % 2 ^ 64 ≡ le_value (eight 0 0 c0 c1 c2 c3 c4 c5) =
        omega arith in
      ap bswap64 e
      ∙ bswap64-le_value 0 0 c0 c1 c2 c3 c4 c5
          (zeros-IsByte 2 (take 6 loaded) (All-take 6 loaded h))
  to_host-be_value (suc (suc (suc (suc (suc (suc (suc zero))))))) h lo hi =
      let e : le_value (take 8 loaded) * 2 ^ 8 % 2 ^ 64 ≡ le_value (eight 0 c0 c1 c2 c3 c4 c5 c6) =
        omega arith in
      ap bswap64 e
      ∙ bswap64-le_value 0 c0 c1 c2 c3 c4 c5 c6
          (zeros-IsByte 1 (take 7 loaded) (All-take 7 loaded h))
  to_host-be_value (suc (suc (suc (suc (suc (suc (suc (suc zero)))))))) h lo hi =
      bswap64-le_value c0 c1 c2 c3 c4 c5 c6 c7 (All-take 8 loaded h)
  to_host-be_value (suc (suc (suc (suc (suc (suc (suc (suc (suc n))))))))) h lo hi =
      absurd (omega arith)

-- The same for any list that is long enough.
pub at_eight :
    (n : ℕ) (bs : List ℕ)
    → All IsByte bs
    → 0 < n
    → n ≤ 8
    → 8 ≤ length bs
    → to_host n (le_value (take (load_width n) bs)) ≡ be_value (take n bs)
at_eight n [] hb lo hi h = absurd (omega arith)
at_eight n (c0 ∷ []) hb lo hi h = absurd (omega arith)
at_eight n (c0 ∷ c1 ∷ []) hb lo hi h = absurd (omega arith)
at_eight n (c0 ∷ c1 ∷ c2 ∷ []) hb lo hi h = absurd (omega arith)
at_eight n (c0 ∷ c1 ∷ c2 ∷ c3 ∷ []) hb lo hi h = absurd (omega arith)
at_eight n (c0 ∷ c1 ∷ c2 ∷ c3 ∷ c4 ∷ []) hb lo hi h = absurd (omega arith)
at_eight n (c0 ∷ c1 ∷ c2 ∷ c3 ∷ c4 ∷ c5 ∷ []) hb lo hi h = absurd (omega arith)
at_eight n (c0 ∷ c1 ∷ c2 ∷ c3 ∷ c4 ∷ c5 ∷ c6 ∷ []) hb lo hi h = absurd (omega arith)
at_eight n (c0 ∷ c1 ∷ c2 ∷ c3 ∷ c4 ∷ c5 ∷ c6 ∷ c7 ∷ r) hb lo hi h =
    to_host-be_value c0 c1 c2 c3 c4 c5 c6 c7 r n hb lo hi
