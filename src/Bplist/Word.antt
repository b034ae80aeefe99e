-- ===== src/Bplist/Word.antt =====
-- Byte order and sizes of integers (the macros at the top of src/bplist.c, on a little-endian
-- machine), and reads of the input buffer.
pub mod Values
use libplist.Prelude.{ℕ, zero, suc, ◌+◌, ◌-◌, ◌*◌, ◌/◌, ◌%◌, ◌^◌, List, [], ◌∷◌}
use libplist.Prelude.{◌==◌, ltb, leb, if◌then◌else◌, length, take, drop}
use libplist.Run.{Run, ok, fault, ◌>>=◌}

-- The number that a little-endian load of some bytes gives.
unfoldable pub le_value : List ℕ → ℕ
le_value [] = 0
le_value (b ∷ r) = b + 256 * le_value r

-- `(x >> 8 * i) & 0xFF`
unfoldable pub byte_of : ℕ → ℕ → ℕ
byte_of x zero = x % 256
byte_of x (suc i) = byte_of (x / 256) i

unfoldable pub bswap16 : ℕ → ℕ
unfolding byte_of
bswap16 x = byte_of x 1 + byte_of x 0 * 2 ^ 8

unfoldable pub bswap32 : ℕ → ℕ
unfolding byte_of
bswap32 x = byte_of x 3 + byte_of x 2 * 2 ^ 8 + byte_of x 1 * 2 ^ 16 + byte_of x 0 * 2 ^ 24

unfoldable pub bswap64 : ℕ → ℕ
unfolding byte_of
bswap64 x =
    byte_of x 7
    + byte_of x 6 * 2 ^ 8
    + byte_of x 5 * 2 ^ 16
    + byte_of x 4 * 2 ^ 24
    + byte_of x 3 * 2 ^ 32
    + byte_of x 2 * 2 ^ 40
    + byte_of x 1 * 2 ^ 48
    + byte_of x 0 * 2 ^ 56

-- The `n` bytes at offset `at` of a buffer; a fault if they are not all inside it.
unfoldable pub load : List ℕ → ℕ → ℕ → Run (List ℕ)
load buf at n = if leb (at + n) (length buf) then ok (take n (drop at buf)) else fault

-- `get_unaligned` of `n` bytes.
unfoldable pub get_unaligned : List ℕ → ℕ → ℕ → Run ℕ
get_unaligned buf at n = load buf at n >>= λ bs. ok (le_value bs)

-- `beNtoh(x, n)`: `be64toh((x) << ((8-(n)) << 3))`
unfoldable pub be_n_toh : ℕ → ℕ → ℕ
be_n_toh x n = bswap64 (x * 2 ^ (8 * (8 - n)) % 2 ^ 64)

-- How many bytes `UINT_TO_HOST(x, n)` loads, by the type of the pointer that it goes through.
unfoldable pub load_width : ℕ → ℕ
load_width n = if n == 4 then 4 else if n == 2 then 2 else if n == 1 then 1 else 8

-- What it makes of the number loaded.
unfoldable pub to_host : ℕ → ℕ → ℕ
to_host n v =
    if leb 8 n
    then bswap64 v
    else if n == 4
    then bswap32 v
    else if n == 2
    then bswap16 v
    else if n == 1
    then v % 2 ^ 8
    else be_n_toh v n

-- `UINT_TO_HOST(x, n)`, with `x` an offset into the buffer.
unfoldable pub uint_to_host : List ℕ → ℕ → ℕ → Run ℕ
uint_to_host buf x n =
    get_unaligned buf (if ltb 8 n then x + (n - 8) else x) (load_width n) >>= λ v. ok (to_host n v)

-- `get_needed_bytes`
unfoldable pub get_needed_bytes : ℕ → ℕ
get_needed_bytes x =
    if ltb x (2 ^ 8)
    then 1
    else if ltb x (2 ^ 16)
    then 2
    else if ltb x (2 ^ 24)
    then 3
    else if ltb x (2 ^ 32)
    then 4
    else 8
