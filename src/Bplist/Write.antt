-- ===== src/Bplist/Write.antt =====
-- The writers of single objects in src/bplist.c. `bplist` is what the byte array holds; a call of
-- `byte_array_append` puts bytes behind it.
pub mod Integers
pub mod Held
pub mod RoundTrip
pub mod Sized
pub mod Reals
pub mod Extends
pub mod File
use libplist.Prelude.{ℕ, zero, suc, ◌+◌, ◌-◌, ◌*◌, ◌/◌, ◌%◌, ◌^◌, List, [], ◌∷◌, ◌++◌, Option}
use libplist.Prelude.{none, some, ◌==◌, ltb, leb, if◌then◌else◌, length, take, drop}
use libplist.Run.{Run, ok, fault, access, ◌>>=◌}
use libplist.HashTable.{Key, Table, hash_table_lookup}
use libplist.Bplist.Word.{byte_of, bswap32, bswap64, get_needed_bytes}
use libplist.Bplist.Utf16.{plist_utf8_to_utf16be}

-- The `n` bytes of a number in memory, lowest first.
unfoldable pub le_bytes : ℕ → ℕ → List ℕ
le_bytes zero x = []
le_bytes (suc n) x = x % 256 ∷ le_bytes n (x / 256)

-- `val = be64toh(val)` and the `n` bytes at `(uint8_t*)&val + (8-n)`
unfoldable pub tail_bytes : ℕ → ℕ → List ℕ
tail_bytes n val = drop (8 - n) (le_bytes 8 (bswap64 val))

-- `Log2`
unfoldable pub log2 : ℕ → ℕ
log2 x = if x == 8 then 3 else if x == 4 then 2 else if x == 2 then 1 else 0

-- `get_needed_bytes`, and 4 where that is 3
unfoldable pub int_bytes : ℕ → ℕ
int_bytes val = if get_needed_bytes val == 3 then 4 else get_needed_bytes val

unfoldable pub write_int : List ℕ → ℕ → List ℕ
write_int bplist val =
    let size = int_bytes val in bplist ++ ((0x10 + log2 size) ∷ tail_bytes size val)

unfoldable pub write_uint : List ℕ → ℕ → List ℕ
write_uint bplist val = bplist ++ (0x14 ∷ (le_bytes 8 0 ++ le_bytes 8 (bswap64 val)))

unfoldable pub write_uid : List ℕ → ℕ → List ℕ
write_uid bplist val =
    let size = int_bytes (val % 2 ^ 32) in
    bplist ++ ((0x80 + (size - 1)) ∷ tail_bytes size (val % 2 ^ 32))

-- `narrow` gives the bits of the float that has the value of a double, if there is one: the
-- test of `get_real_bytes` and the conversion.
unfoldable pub write_real : (ℕ → Option ℕ) → List ℕ → ℕ → List ℕ
write_real narrow bplist val = elim (narrow val) [
  | some floatval ↦ bplist ++ ((0x20 + log2 4) ∷ le_bytes 4 (bswap32 floatval))
  | none ↦ bplist ++ ((0x20 + log2 8) ∷ le_bytes 8 (bswap64 val))
]

unfoldable pub write_date : List ℕ → ℕ → List ℕ
write_date bplist val = bplist ++ ((0x30 + 3) ∷ le_bytes 8 (bswap64 val))

-- The marker, and the size if the marker has no room for it.
unfoldable pub write_marker : List ℕ → ℕ → ℕ → List ℕ
write_marker bplist mark size =
    let marked = bplist ++ ((mark + (if ltb size 15 then size else 0xf)) ∷ []) in
    if leb 15 size then write_int marked size else marked

-- `val` is the memory at the pointer.
unfoldable pub write_raw_data : List ℕ → ℕ → List ℕ → ℕ → List ℕ
write_raw_data bplist mark val size =
    write_marker bplist mark size ++ take (if mark == 0x60 then size * 2 % 2 ^ 64 else size) val

unfoldable pub write_data : List ℕ → List ℕ → List ℕ
write_data bplist val = write_raw_data bplist 0x40 val (length val)

unfoldable pub write_string : List ℕ → List ℕ → List ℕ
write_string bplist val = write_raw_data bplist 0x50 val (length val)

-- The units of `outbuf` in memory, after `be16toh`.
unfoldable pub unit_bytes : List ℕ → List ℕ
unit_bytes [] = []
unit_bytes (u ∷ r) = u / 256 % 256 ∷ u % 256 ∷ unit_bytes r

unfoldable pub write_unicode : List ℕ → List ℕ → List ℕ
write_unicode bplist val =
    let unicodestr = plist_utf8_to_utf16be val in
    write_raw_data bplist 0x60 (unit_bytes unicodestr) (length unicodestr)

module _ {Node : Type 0} ⦃key : Key Node⦄ where
  -- The reference to a node: a read through NULL if `ref_table` has none.
  unfoldable pub write_ref : Table Node ℕ → ℕ → List ℕ → Node → Run (List ℕ)
  write_ref ref_table ref_size bplist cur =
      access (hash_table_lookup ref_table (some cur)) >>= λ idx.
      ok (bplist ++ tail_bytes ref_size idx)

  -- `children` are the children of the array, in order.
  unfoldable pub write_refs : Table Node ℕ → ℕ → List ℕ → List Node → Run (List ℕ)
  write_refs ref_table ref_size bplist [] = ok bplist
  write_refs ref_table ref_size bplist (cur ∷ r) =
      write_ref ref_table ref_size bplist cur >>= λ bplist'. write_refs ref_table ref_size bplist' r

  unfoldable pub write_array : List ℕ → List Node → Table Node ℕ → ℕ → Run (List ℕ)
  write_array bplist children ref_table ref_size =
      write_refs ref_table ref_size (write_marker bplist 0xA0 (length children)) children

  -- The children at even positions, and those at odd ones; a child without a partner is left
  -- out, as `i < size` ends the loops before it.
  unfoldable pub keys_of : List Node → List Node
  keys_of [] = []
  keys_of (k ∷ []) = []
  keys_of (k ∷ v ∷ r) = k ∷ keys_of r

  unfoldable pub values_of : List Node → List Node
  values_of [] = []
  values_of (k ∷ []) = []
  values_of (k ∷ v ∷ r) = v ∷ values_of r

  unfoldable pub write_dict : List ℕ → List Node → Table Node ℕ → ℕ → Run (List ℕ)
  write_dict bplist children ref_table ref_size =
      write_refs ref_table ref_size (write_marker bplist 0xD0 (length children / 2))
        (keys_of children)
      >>= λ bplist'. write_refs ref_table ref_size bplist' (values_of children)
