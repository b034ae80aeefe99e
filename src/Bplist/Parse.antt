-- ===== src/Bplist/Parse.antt =====
-- The parsers of containers and the node dispatch of src/bplist.c. Pointers into the input are
-- offsets from `bplist->data`; `address` is the number of `bplist->data` itself.
pub mod Document
pub mod Valid
pub mod Words
pub mod Leaves
pub mod Containers
pub mod Nodes
pub mod Dispatch
pub mod Total
pub mod FromBin
use libplist.Prelude.{ℕ, zero, suc, ◌+◌, ◌-◌, ◌*◌, ◌/◌, ◌%◌, ◌^◌, Bool, true, false, ◌||◌, ◌&&◌}
use libplist.Prelude.{List, Option, none, some, ℤ, pos}
use libplist.Prelude.{◌==◌, ltb, leb, if◌then◌else◌, get_elem?, not}
use libplist.PtrArray.{PtrArray, ptr_array_add, ptr_array_set, ptr_array_index, ptr_array_size}
use libplist.Run.{Run, ok, fault, out_of_fuel, access, ◌>>=◌}
use libplist.Bplist.Word.{uint_to_host}
use libplist.Bplist.Node.{PlistType, string, array, dict, key, Value, no_value, PlistData, Tree}
use libplist.Bplist.Node.{PlistErr, success, parse, circular_ref, max_nesting}
use libplist.Bplist.Scalar.{
  Parsed, parse_int_node, parse_real_node, parse_date_node, parse_string_node, parse_unicode_node,
  parse_data_node, parse_uid_node, parse_null_node,
}

-- `struct bplist_data`
pub record BplistData : Type 0 where
  pub buf : List ℕ
  pub address : ℕ
  pub size : ℕ
  pub num_objects : ℕ
  pub ref_size : ℕ
  pub offset_size : ℕ
  pub offset_table : ℕ
  pub level : ℕ
  pub used_indexes : PtrArray ℕ
  pub err : PlistErr

-- PLIST_MAX_NESTING_DEPTH
abbrev pub max_nesting_depth : ℕ
max_nesting_depth = 512

-- `p + n < p || p + n > poffset_table` on the numbers of pointers
unfoldable pub data_outside : BplistData → ℕ → ℕ → Bool
data_outside s object n =
    let pobject = (s.address + object) % 2 ^ 64 in
    let end = (pobject + n) % 2 ^ 64 in
    ltb end pobject || ltb ((s.address + s.offset_table) % 2 ^ 64) end

-- `p + n > poffset_table`, with no test for a wrap
unfoldable pub end_outside : BplistData → ℕ → ℕ → Bool
end_outside s object n =
    ltb ((s.address + s.offset_table) % 2 ^ 64) (((s.address + object) % 2 ^ 64 + n) % 2 ^ 64)

-- The two pointer tests before a reference is read.
unfoldable pub ref_outside : BplistData → ℕ → Bool
ref_outside s p = ltb s.offset_table (p + s.ref_size)

-- The while loop that appends to `used_indexes`, `n` rounds at most.
unfoldable pub fill_used : ℕ → PtrArray ℕ → ℕ → ℕ → Run (PtrArray ℕ)
fill_used zero used level index = ok used
fill_used (suc n) used level index =
    let more = access (ptr_array_add used index) >>= λ used'. fill_used n used' level index in
    if ltb (ptr_array_size used) (level + 1) then more else ok used

-- Storing the index of the current level.
unfoldable pub mark_used : PtrArray ℕ → ℕ → ℕ → Run (PtrArray ℕ)
mark_used used level index =
    if ltb (ptr_array_size used) (level + 1)
    then fill_used (level + 1) used level index
    else access (ptr_array_set used index (pos level))

-- The number that a pointer read from `used_indexes` stands for.
abbrev pub pointer_value : Option ℕ → ℕ
pointer_value none = 0
pointer_value (some i) = i

-- The recursion check, from index `n - 1` down to 0: is the current index among them?
unfoldable pub is_circular : PtrArray ℕ → ℕ → ℕ → Bool
is_circular used level zero = false
is_circular used level (suc i) =
    pointer_value (ptr_array_index used (pos i)) == pointer_value (ptr_array_index used (pos level))
    || is_circular used level i

-- The tag byte and the size behind it: type, size, and the offset of the content.
pub record Header : Type 0 where
  pub tag : ℕ
  pub size : ℕ
  pub object : ℕ

abbrev byte_at : BplistData → ℕ → Run ℕ
byte_at s p = access (get_elem? s.buf p)

-- The types whose size may stand in an integer node behind the tag.
unfoldable pub has_long_size : ℕ → Bool
has_long_size tag =
    tag == 0x40 || tag == 0x50 || tag == 0x60 || tag == 0xA0 || tag == 0xC0 || tag == 0xD0

unfoldable pub long_size : BplistData → ℕ → ℕ → Run (Option Header)
long_size s tag p = byte_at s p >>= λ c.
    let n = 2 ^ (c % 16) in
    if not (c / 16 * 16 == 0x10)
    then ok none
    else if ltb s.offset_table (p + 1 + n)
    then ok none
    else (uint_to_host s.buf (p + 1) n >>= λ size.
        ok (some (record { tag = tag; size = size; object = p + 1 + n })))

unfoldable pub parse_header : BplistData → ℕ → Run (Option Header)
parse_header s p = byte_at s p >>= λ c.
    let tag = c / 16 * 16 in
    if c % 16 == 15 && has_long_size tag
    then long_size s tag (p + 1)
    else ok (some (record { tag = tag; size = c % 16; object = p + 1 }))

-- The tests of `parse_bin_node_at_index` that end in PLIST_ERR_PARSE: the node's offset, if
-- all is well.
unfoldable pub node_offset : BplistData → ℕ → Run (Option ℕ)
node_offset s node_index =
    let idx_ptr = s.offset_table + node_index * s.offset_size % 2 ^ 32 in
    if leb s.num_objects node_index
      || ltb idx_ptr s.offset_table
      || leb (s.offset_table + s.num_objects * s.offset_size % 2 ^ 64) idx_ptr
    then ok none
    else (uint_to_host s.buf idx_ptr s.offset_size >>= λ offset. ok (
        if ltb s.size offset || ltb offset 8 || leb s.offset_table offset
        then none
        else some offset))

module _ (tree : Tree) (widen : ℕ → ℕ) where
  open tree use {Node, node_create, node_attach, get_data, set_data}

  -- The node or NULL, and the parser's data afterwards.
  abbrev pub Result : Type 0
  Result = Run (Option Node × BplistData)

  -- `parse_bin_node_at_index`, as the parsers of containers see it.
  abbrev pub AtIndex : Type 0
  AtIndex = BplistData → ℕ → Result

  -- A reference read and parsed: NULL if it is outside of the file or of the object table.
  unfoldable pub read_ref : BplistData → ℕ → Run (Option ℕ)
  read_ref s p = uint_to_host s.buf p s.ref_size >>= λ index.
      ok (if leb s.num_objects index then none else some index)

  unfoldable pub array_loop : AtIndex → BplistData → ℕ → ℕ → ℕ → Node → Result
  array_loop self s bnode j zero node = ok (some node, s)
  array_loop self s bnode j (suc n) node =
      if ref_outside s (bnode + j * s.ref_size % 2 ^ 64)
      then ok (none, s)
      else (read_ref s (bnode + j * s.ref_size % 2 ^ 64) >>= λ r. elim r [
        | none ↦ ok (none, s)
        | some index ↦ self s (index % 2 ^ 32) >>= λ q. elim q.0 [
          | none ↦ ok (none, q.1)
          | some val ↦ array_loop self q.1 bnode (j + 1) n (node_attach node val)
        ]
      ])

  unfoldable pub parse_array_node : AtIndex → BplistData → ℕ → ℕ → Result
  parse_array_node self s bnode size =
      array_loop self s bnode 0 size
        (node_create (record { value = no_value; length = size; kind = array }))

  -- `type != PLIST_STRING` on the key, and its new type.
  unfoldable pub as_key : Node → Option Node
  as_key n = elim (get_data n).kind [
    | string ↦ some (set_data n (record (get_data n) { kind = key }))
    | _ ↦ none
  ]

  unfoldable pub dict_entry : AtIndex → BplistData → ℕ → ℕ → Node → Result
  dict_entry self s index1 index2 node = self s (index1 % 2 ^ 32) >>= λ q. elim q.0 [
    | none ↦ ok (none, q.1)
    | some k ↦ elim (as_key k) [
      | none ↦ ok (none, q.1)
      | some k' ↦ self q.1 (index2 % 2 ^ 32) >>= λ q'. elim q'.0 [
        | none ↦ ok (none, q'.1)
        | some val ↦ ok (some (node_attach (node_attach node k') val), q'.1)
      ]
    ]
  ]

  unfoldable pub dict_loop : AtIndex → BplistData → ℕ → ℕ → ℕ → ℕ → Node → Result
  dict_loop self s bnode size j zero node = ok (some node, s)
  dict_loop self s bnode size j (suc n) node =
      let p1 = bnode + j * s.ref_size % 2 ^ 64 in
      let p2 = bnode + (j + size) * s.ref_size % 2 ^ 64 in
      if ref_outside s p1 || ref_outside s p2
      then ok (none, s)
      else (read_ref s p1 >>= λ r1. read_ref s p2 >>= λ r2. elim r1 [
        | none ↦ ok (none, s)
        | some index1 ↦ elim r2 [
          | none ↦ ok (none, s)
          | some index2 ↦ dict_entry self s index1 index2 node >>= λ q. elim q.0 [
            | none ↦ ok (none, q.1)
            | some node' ↦ dict_loop self q.1 bnode size (j + 1) n node'
          ]
        ]
      ])

  unfoldable pub parse_dict_node : AtIndex → BplistData → ℕ → ℕ → Result
  parse_dict_node self s bnode size =
      dict_loop self s bnode size 0 size
        (node_create (record { value = no_value; length = size; kind = dict }))

  -- A node without children.
  unfoldable pub leaf : BplistData → Parsed → Result
  leaf s r = r >>= λ d. ok (elim d [ none ↦ (none, s) | some d' ↦ (some (node_create d'), s) ])

  -- The second switch of `parse_bin_node`.
  unfoldable pub dispatch : AtIndex → BplistData → ℕ → ℕ → ℕ → Result
  dispatch self s tag size object =
      if tag == 0x00
      then leaf s (parse_null_node size)
      else if tag == 0x10
      then (if end_outside s object (2 ^ size)
          then ok (none, s)
          else leaf s (parse_int_node s.buf object size))
      else if tag == 0x20
      then (if end_outside s object (2 ^ size)
          then ok (none, s)
          else leaf s (parse_real_node widen s.buf object size))
      else if tag == 0x30
      then (if not (size == 3) || end_outside s object (2 ^ size)
          then ok (none, s)
          else leaf s (parse_date_node widen s.buf object size))
      else if tag == 0x40
      then (if data_outside s object size
          then ok (none, s)
          else leaf s (parse_data_node s.buf object size))
      else if tag == 0x50
      then (if data_outside s object size
          then ok (none, s)
          else leaf s (parse_string_node s.buf object size))
      else if tag == 0x60
      then (if ltb (size * 2 % 2 ^ 64) size || data_outside s object (size * 2 % 2 ^ 64)
          then ok (none, s)
          else leaf s (parse_unicode_node s.buf object size))
      else if tag == 0xA0 || tag == 0xC0
      then (if data_outside s object size
          then ok (none, s)
          else parse_array_node self s object size)
      else if tag == 0x80
      then (if end_outside s object (size + 1)
          then ok (none, s)
          else leaf s (parse_uid_node s.buf object size))
      else if tag == 0xD0
      then (if data_outside s object size then ok (none, s) else parse_dict_node self s object size)
      else ok (none, s)

  unfoldable pub parse_bin_node : AtIndex → BplistData → ℕ → Result
  parse_bin_node self s p = parse_header s p >>= λ r. elim r [
    | none ↦ ok (none, s)
    | some h ↦ dispatch self s h.tag h.size h.object
  ]

  unfoldable pub fail : BplistData → PlistErr → Result
  fail s e = ok (none, record s { err = e })

  -- The rest of `parse_bin_node_at_index`, from the check of the nesting depth on.
  unfoldable pub parse_entered : AtIndex → BplistData → ℕ → ℕ → Result
  parse_entered self s node_index p =
      if ltb max_nesting_depth s.level
      then fail s max_nesting
      else (mark_used s.used_indexes s.level node_index >>= λ used.
          let s' = record s { used_indexes = used } in
          if is_circular used s.level s.level
          then fail s' circular_ref
          else (parse_bin_node self (record s' { level = s.level + 1 }) p >>= λ q.
              ok (q.0, record q.1 { level = q.1.level - 1 })))

  -- The fuel bounds the nesting.
  unfoldable pub parse_bin_node_at_index : ℕ → AtIndex
  parse_bin_node_at_index zero s node_index = out_of_fuel
  parse_bin_node_at_index (suc fuel) s node_index = node_offset s node_index >>= λ r. elim r [
    | none ↦ fail s parse
    | some p ↦ parse_entered (parse_bin_node_at_index fuel) s node_index p
  ]
