-- ===== src/Bplist/Write/Held.antt =====
-- What the parser reads of bytes that a writer put into the buffer.
use libplist.Prelude.{
  ℕ, zero, suc, ◌+◌, ◌-◌, ◌*◌, ◌/◌, ◌%◌, ◌^◌, ◌<◌, ◌≤◌, ◌≡◌, refl, ap, ◌∙◌, sym, arith,
}
use libplist.Prelude.{
  true, false, List, [], ◌∷◌, ◌++◌, some, All, min, ltb, ◌==◌, length, take, drop, get_elem?,
}
use libplist.Run.{ok}
use libplist.Bplist.Word.{get_needed_bytes, uint_to_host}
use libplist.Bplist.Word.Values.{IsByte}
use libplist.Bplist.Parse.{
  BplistData, parse_header, long_size, has_long_size, data_outside, end_outside,
}
use libplist.Bplist.Parse.Valid.{IsValid}
use libplist.Bplist.Parse.Words.{uint_to_host-be_value}
use libplist.Bplist.Write.{log2, int_bytes, tail_bytes}
use libplist.Bplist.Write.Integers.{be_value-tail_bytes, length-tail_bytes}

-- The bytes `bs` stand at offset `at` of the buffer.
unfoldable pub Holds : List ℕ → ℕ → List ℕ → Type 0
Holds buf at [] = at ≤ length buf
Holds buf at (b ∷ r) = (get_elem? buf at ≡ some b) × Holds buf (at + 1) r

pub Holds-bound :
    (buf : List ℕ) (at : ℕ) (bs : List ℕ) → Holds buf at bs → at + length bs ≤ length buf
unfolding Holds
Holds-bound buf at [] h = omega arith
Holds-bound buf at (b ∷ r) (e, h) = omega (arith, Holds-bound buf (at + 1) r h)

pub Holds-cons :
    (x : ℕ) (buf : List ℕ) (at : ℕ) (bs : List ℕ) → Holds buf at bs → Holds (x ∷ buf) (suc at) bs
unfolding Holds
Holds-cons x buf at [] h = omega arith
Holds-cons x buf at (b ∷ r) (e, h) =
    let same : suc at + 1 ≡ suc (at + 1) = omega arith in
    (e, rw same (Holds-cons x buf (at + 1) r h))

pub Holds-behind : (pre bs rest : List ℕ) → Holds (pre ++ (bs ++ rest)) (length pre) bs
unfolding Holds
Holds-behind [] [] rest = omega arith
Holds-behind [] (b ∷ r) rest = (refl, Holds-cons b (r ++ rest) 0 r (Holds-behind [] r rest))
Holds-behind (x ∷ pre) bs rest = Holds-cons x _ (length pre) bs (Holds-behind pre bs rest)

pub Holds-append :
    (buf : List ℕ) (at : ℕ) (xs ys : List ℕ)
    → Holds buf at (xs ++ ys)
    → Holds buf at xs × Holds buf (at + length xs) ys
unfolding Holds
Holds-append buf at [] ys h =
    let same : at + 0 ≡ at = omega arith in (omega (arith, Holds-bound buf at ys h), rw same h)
Holds-append buf at (x ∷ xs) ys (e, h) =
    let (hx, hy) = Holds-append buf (at + 1) xs ys h in
    let same : at + suc (length xs) ≡ at + 1 + length xs = omega arith in ((e, hx), rw same hy)

take-drop :
    (buf : List ℕ) (at : ℕ) (b n : ℕ)
    → get_elem? buf at ≡ some b
    → take (suc n) (drop at buf) ≡ b ∷ take n (drop (at + 1) buf)
take-drop [] at b n e = cc
take-drop (x ∷ buf) zero b n e = cc
take-drop (x ∷ buf) (suc at) b n e =
    let same : suc at + 1 ≡ suc (at + 1) = omega arith in rw same (take-drop buf at b n e)

pub take-Holds :
    (buf : List ℕ) (at : ℕ) (bs : List ℕ) → Holds buf at bs → take (length bs) (drop at buf) ≡ bs
unfolding Holds
take-Holds buf at [] h = refl
take-Holds buf at (b ∷ r) (e, h) =
    take-drop buf at b (length r) e ∙ ap (λ t. b ∷ t) (take-Holds buf (at + 1) r h)

-- A number of `n` bytes is read back.
pub uint_to_host-Holds :
    (buf : List ℕ) (at n x : ℕ)
    → All IsByte buf
    → 0 < n
    → n ≤ 8
    → x < 2 ^ (8 * n)
    → at + 8 ≤ length buf
    → Holds buf at (tail_bytes n x)
    → uint_to_host buf at n ≡ ok x
uint_to_host-Holds buf at n x bytes lo hi small long h =
    let len = length-tail_bytes n x hi in
    let taken = take-Holds buf at (tail_bytes n x) h in
    let low : min n 8 ≡ n = omega arith in
    let start : at + (n - 8) ≡ at = omega arith in
    let got : take n (drop at buf) ≡ tail_bytes n x =
      ap (λ m. take m (drop at buf)) (sym len) ∙ taken in
    rw (
      uint_to_host-be_value buf at n bytes lo
          (omega (arith, len, Holds-bound buf at (tail_bytes n x) h)) long,
      low,
      start,
      got,
      be_value-tail_bytes n x lo hi small,
    )

-- A number of sixteen bytes is read back from the last eight.
pub uint_to_host-wide :
    (buf : List ℕ) (at x : ℕ)
    → All IsByte buf
    → x < 2 ^ 64
    → at + 16 ≤ length buf
    → Holds buf (at + 8) (tail_bytes 8 x)
    → uint_to_host buf at 16 ≡ ok x
uint_to_host-wide buf at x bytes small long h =
    let len = length-tail_bytes 8 x (omega arith) in
    let taken = take-Holds buf (at + 8) (tail_bytes 8 x) h in
    let got : take 8 (drop (at + 8) buf) ≡ tail_bytes 8 x =
      ap (λ m. take m (drop (at + 8) buf)) (sym len) ∙ taken in
    rw (
      uint_to_host-be_value buf at 16 bytes (omega arith) long (omega arith),
      got,
      be_value-tail_bytes 8 x (omega arith) (omega arith) small,
    )

-- The four widths that integers are written in, by the logarithm in the marker.
pub int_bytes-log2 :
    (x : ℕ)
    → x < 2 ^ 64
    → (log2 (int_bytes x) ≤ 3)
      × (2 ^ log2 (int_bytes x) ≡ int_bytes x)
      × (0 < int_bytes x)
      × (int_bytes x ≤ 8)
      × (x < 2 ^ (8 * int_bytes x))
unfolding int_bytes log2 get_needed_bytes
int_bytes-log2 x h = ground arith

module _ (s : BplistData) (v : IsValid s) (object n : ℕ) (h : object + n ≤ s.offset_table) where
  pub data_outside-Holds : data_outside s object n ≡ false
  unfolding data_outside
  data_outside-Holds = ground (arith, v.table, v.addresses)

  pub end_outside-Holds : end_outside s object n ≡ false
  unfolding end_outside
  end_outside-Holds = ground (arith, v.table, v.addresses)

-- The header of a node whose size stands in the marker.
pub parse_header-short :
    (s : BplistData) (p tag size : ℕ)
    → tag % 16 ≡ 0
    → size < 15
    → get_elem? s.buf p ≡ some (tag + size)
    → parse_header s p ≡ ok (some (record { tag = tag; size = size; object = p + 1 }))
unfolding parse_header
parse_header-short s p tag size low small e =
    let top : (tag + size) / 16 * 16 ≡ tag = omega arith in
    let bits : (tag + size) % 16 ≡ size = omega arith in
    let short : (size == 15) ≡ false = ground arith in rw (e, top, bits, short)

-- The header of a node whose size stands behind the marker, in a number of `int_bytes` bytes.
pub parse_header-long :
    (s : BplistData) (p tag size : ℕ)
    → IsValid s
    → All IsByte s.buf
    → tag % 16 ≡ 0
    → has_long_size tag ≡ true
    → size < 2 ^ 64
    → p + 2 + int_bytes size ≤ s.offset_table
    → Holds s.buf p ((tag + 15) ∷ (0x10 + log2 (int_bytes size)) ∷ tail_bytes (int_bytes size) size)
    → parse_header s p
      ≡ ok (some (record { tag = tag; size = size; object = p + 2 + int_bytes size }))
unfolding parse_header long_size Holds
parse_header-long s p tag size v bytes low has small inside (e1, (e2, h)) =
    let (k, pow, lo, hi, fits) = int_bytes-log2 size small in
    let top : (tag + 15) / 16 * 16 ≡ tag = omega arith in
    let bits : (tag + 15) % 16 ≡ 15 = omega arith in
    let top' : (0x10 + log2 (int_bytes size)) / 16 * 16 ≡ 0x10 = omega arith in
    let bits' : (0x10 + log2 (int_bytes size)) % 16 ≡ log2 (int_bytes size) = omega arith in
    let past : ltb s.offset_table (p + 1 + 1 + int_bytes size) ≡ false = ground arith in
    let same : p + 1 + 1 ≡ p + 2 = omega arith in
    let got : uint_to_host s.buf (p + 1 + 1) (int_bytes size) ≡ ok size =
      uint_to_host-Holds s.buf (p + 1 + 1) (int_bytes size) size bytes lo hi fits
        (omega (arith, v.table, v.sized)) h in
    rw (e1, top, bits, has, e2, top', bits', pow, past, got, same)
