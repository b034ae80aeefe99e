-- ===== src/Bplist/Scalar.antt =====
-- The parsers of nodes without children in src/bplist.c. An offset into the buffer stands for
-- `*bnode`; its advance behind a node that is complete is not read again.
use libplist.Prelude.{ℕ, ◌+◌, ◌-◌, ◌*◌, ◌%◌, ◌^◌, List, [], ◌∷◌, Option, none, some}
use libplist.Prelude.{◌==◌, ltb, ◌||◌, if◌then◌else◌, length}
use libplist.Run.{Run, ok, fault, ◌>>=◌}
use libplist.Bplist.Word.{load, uint_to_host, get_unaligned, bswap32, bswap64}
use libplist.Bplist.Node.{boolean, int, real, string, date, bytes, uid, null}
use libplist.Bplist.Node.{no_value, boolval, intval, realval, strval, buff, PlistData}
use libplist.Bplist.Utf16.{plist_utf16be_to_utf8}

-- NULL, or the data of the node created.
abbrev pub Parsed : Type 0
Parsed = Run (Option PlistData)

-- `size = 1 << size` on a uint8_t
abbrev pub byte_size : ℕ → ℕ
byte_size size = 2 ^ size % 256

unfoldable pub parse_int_node : List ℕ → ℕ → ℕ → Parsed
parse_int_node buf bnode size =
    let n = byte_size size in
    if n == 1 || n == 2 || n == 4 || n == 8
    then (uint_to_host buf bnode n >>= λ v.
        ok (some (record { value = intval v; length = 8; kind = int })))
    else if n == 16
    then (uint_to_host buf bnode n >>= λ v.
        ok (some (record { value = intval v; length = n; kind = int })))
    else ok none

-- `widen` turns the bits of a float into those of the double with the same value.
unfoldable pub parse_real_node : (ℕ → ℕ) → List ℕ → ℕ → ℕ → Parsed
parse_real_node widen buf bnode size =
    let n = byte_size size in
    if n == 4
    then (get_unaligned buf bnode 4 >>= λ v.
        ok (some (record { value = realval (widen (bswap32 v)); length = 8; kind = real })))
    else if n == 8
    then (get_unaligned buf bnode 8 >>= λ v.
        ok (some (record { value = realval (bswap64 v); length = 8; kind = real })))
    else ok none

-- The write through `plist_get_data(node)` has no check that a node came back.
unfoldable pub parse_date_node : (ℕ → ℕ) → List ℕ → ℕ → ℕ → Parsed
parse_date_node widen buf bnode size = parse_real_node widen buf bnode size >>= λ r. elim r [
  | none ↦ fault
  | some d ↦ ok (some (record d { kind = date }))
]

-- The bytes before the first zero.
unfoldable pub c_string : List ℕ → List ℕ
c_string [] = []
c_string (c ∷ r) = if c == 0 then [] else c ∷ c_string r

unfoldable pub parse_string_node : List ℕ → ℕ → ℕ → Parsed
parse_string_node buf bnode size = load buf bnode size >>= λ s.
    ok (some (record { value = strval s; length = length (c_string s); kind = string }))

-- The big-endian 16-bit units in a sequence of bytes.
unfoldable pub units : List ℕ → List ℕ
units [] = []
units (b ∷ []) = []
units (hi ∷ lo ∷ r) = (hi * 256 + lo) ∷ units r

unfoldable pub parse_unicode_node : List ℕ → ℕ → ℕ → Parsed
parse_unicode_node buf bnode size = load buf bnode (2 * size) >>= λ s.
    ok (elim (plist_utf16be_to_utf8 (units s)) [
      | none ↦ none
      | some t ↦ some (record { value = strval t; length = length t; kind = string })
    ])

unfoldable pub parse_data_node : List ℕ → ℕ → ℕ → Parsed
parse_data_node buf bnode size =
    load buf bnode size >>= λ s. ok (some (record { value = buff s; length = size; kind = bytes }))

unfoldable pub parse_uid_node : List ℕ → ℕ → ℕ → Parsed
parse_uid_node buf bnode size = uint_to_host buf bnode (size + 1) >>= λ v. ok (
    if ltb (2 ^ 32 - 1) v then none else some (record { value = intval v; length = 8; kind = uid }))

-- The cases of `parse_bin_node` for BPLIST_NULL.
unfoldable pub parse_null_node : ℕ → Parsed
parse_null_node size =
    if size == 0x09
    then ok (some (record { value = boolval 1; length = 1; kind = boolean }))
    else if size == 0x08
    then ok (some (record { value = boolval 0; length = 1; kind = boolean }))
    else if size == 0x00
    then ok (some (record { value = no_value; length = 0; kind = null }))
    else ok none
