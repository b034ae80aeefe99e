-- ===== src/Bplist/Parse/Words.antt =====
-- Reads of integers stay inside the buffer, and give what they should.
use libplist.Prelude.{ℕ, zero, suc, ◌+◌, ◌-◌, ◌/◌, ◌^◌, ◌<◌, ◌≤◌, ◌≡◌, ap, arith}
use libplist.Prelude.{List, All, min, leb, ltb, if◌then◌else◌, length, take, drop, length-drop}
use libplist.Prelude.{Bool-cases, inl, inr}
use libplist.Bplist.Word.Values.{IsByte, be_value, All-drop, at_eight}
use libplist.Run.{ok}
use libplist.Bplist.Word.{
  load, get_unaligned, uint_to_host, load_width, to_host, le_value, bswap16, bswap32, bswap64,
  be_n_toh, byte_of,
}

pub load-ok :
    (buf : List ℕ) (at n : ℕ) → at + n ≤ length buf → load buf at n ≡ ok (take n (drop at buf))
unfolding load
load-ok buf at n h = ground arith

pub get_unaligned-ok :
    (buf : List ℕ) (at n : ℕ)
    → at + n ≤ length buf
    → get_unaligned buf at n ≡ ok (le_value (take n (drop at buf)))
unfolding get_unaligned
get_unaligned-ok buf at n h = rw (load-ok buf at n h)

pub load_width_fits :
    (buf : List ℕ) (x n : ℕ)
    → x + n ≤ length buf
    → x + 8 ≤ length buf
    → (if ltb 8 n then x + (n - 8) else x) + load_width n ≤ length buf
unfolding load_width
load_width_fits buf x n h k = ground arith

pub byte_of-lt : (x i : ℕ) → byte_of x i < 256
unfolding byte_of
byte_of-lt x zero = omega arith
byte_of-lt x (suc i) = byte_of-lt (x / 256) i

bswap64-lt : (x : ℕ) → bswap64 x < 2 ^ 64
unfolding bswap64
bswap64-lt x = omega (
  arith,
  byte_of-lt x 0,
  byte_of-lt x 1,
  byte_of-lt x 2,
  byte_of-lt x 3,
  byte_of-lt x 4,
  byte_of-lt x 5,
  byte_of-lt x 6,
  byte_of-lt x 7,
)

bswap32-lt : (x : ℕ) → bswap32 x < 2 ^ 32
unfolding bswap32
bswap32-lt x = omega (arith, byte_of-lt x 0, byte_of-lt x 1, byte_of-lt x 2, byte_of-lt x 3)

bswap16-lt : (x : ℕ) → bswap16 x < 2 ^ 16
unfolding bswap16
bswap16-lt x = omega (arith, byte_of-lt x 0, byte_of-lt x 1)

be_n_toh-lt : (x n : ℕ) → be_n_toh x n < 2 ^ 64
unfolding be_n_toh
be_n_toh-lt x n = bswap64-lt _

pub to_host-lt : (n v : ℕ) → to_host n v < 2 ^ 64
unfolding to_host
to_host-lt n v = ground (arith, bswap64-lt v, bswap32-lt v, bswap16-lt v, be_n_toh-lt v n)

-- An integer of `n` bytes is read inside a buffer that has `n` bytes, and eight, from there.
pub uint_to_host_inside :
    (buf : List ℕ) (x n : ℕ)
    → x + n ≤ length buf
    → x + 8 ≤ length buf
    → (v : ℕ) × (uint_to_host buf x n ≡ ok v) × (v < 2 ^ 64)
unfolding uint_to_host
uint_to_host_inside buf x n h k =
    let at = if ltb 8 n then x + (n - 8) else x in
    (
      to_host n (le_value (take (load_width n) (drop at buf))),
      rw (get_unaligned-ok buf at (load_width n) (load_width_fits buf x n h k)),
      to_host-lt n _,
    )

load_width-le : (n : ℕ) → 8 ≤ n → load_width n ≡ 8
unfolding load_width
load_width-le n h = ground arith

to_host-le : (n v : ℕ) → 8 ≤ n → to_host n v ≡ to_host 8 v
unfolding to_host
to_host-le n v h = ground arith

load_width_max : (n : ℕ) → load_width n ≤ 8
unfolding load_width
load_width_max n = ground arith

to_host-min :
    (n : ℕ) (bs : List ℕ)
    → All IsByte bs
    → 0 < n
    → 8 ≤ length bs
    → to_host n (le_value (take (load_width n) bs)) ≡ be_value (take (min n 8) bs)
unfolding load_width
to_host-min n bs hb lo long = elim (Bool-cases (leb n 8)) [
  | inl e ↦
      let small : min n 8 ≡ n = ground arith in rw small (at_eight n bs hb lo (ground arith) long)
  | inr e ↦
      let big : min n 8 ≡ 8 = ground arith in
      rw (big, load_width-le n (ground arith), to_host-le n (le_value (take 8 bs)) (ground arith))
        (at_eight 8 bs hb (omega arith) (omega arith) long)
]

-- An integer of n bytes, inside a buffer of bytes that goes on for eight bytes at least, is read as
-- the big-endian value of these bytes, or of the last eight if there are more.
pub uint_to_host-be_value :
    (buf : List ℕ) (x n : ℕ)
    → All IsByte buf
    → 0 < n
    → x + n ≤ length buf
    → x + 8 ≤ length buf
    → uint_to_host buf x n ≡ ok (be_value (take (min n 8) (drop (x + (n - 8)) buf)))
unfolding uint_to_host
uint_to_host-be_value buf x n bytes lo h k =
    let at = x + (n - 8) in
    let start : (if ltb 8 n then x + (n - 8) else x) ≡ at = ground arith in
    let inside : at + load_width n ≤ length buf = omega (arith, load_width_max n) in
    let long : 8 ≤ length (drop at buf) = omega (arith, length-drop at buf) in
    rw (start, get_unaligned-ok buf at (load_width n) inside)
      (ap ok (to_host-min n (drop at buf) (All-drop at buf bytes) lo long))
