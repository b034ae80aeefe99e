-- ===== src/Bplist/Write/File.antt =====
-- `plist_to_bin` of src/bplist.c: the objects behind the magic number, the offset table and the
-- trailer.
pub mod Tables
pub mod Layout
pub mod Leaves
pub mod Documents
pub mod Total
use libplist.Prelude.{
  ℕ, zero, suc, ◌+◌, ◌*◌, ◌%◌, ◌/◌, ◌^◌, Bool, true, false, List, [], ◌∷◌, ◌++◌, Option, none, some,
}
use libplist.Prelude.{◌==◌, ltb, leb, if◌then◌else◌, replicate, pos}
use libplist.Prelude
use libplist.PtrArray.{PtrArray, ptr_array_index, ptr_array_size}
use libplist.HashTable.{Table}
use libplist.Run.{Run, ok, fault, access, ◌>>=◌}
use libplist.Bplist.Word.{load, bswap64, get_needed_bytes}
use libplist.Bplist.Utf16.{is_ascii_string}
use libplist.Bplist.Node.{
  boolean, int, real, string, array, dict, date, bytes, key, uid, null, PlistData, PlistErr,
  success,
}
use libplist.Bplist.Parse.Document.{magic}
use libplist.Bplist.Write.{
  le_bytes, tail_bytes, write_int, write_uint, write_real, write_string, write_unicode, write_data,
  write_array, write_dict, write_date, write_uid,
}
use libplist.Bplist.Serialize.{
  Heap, data_key, Serialize, serialize_root, word_of, block_of, on_success,
}

-- The `length` bytes that `strval` or `buff` points to.
unfoldable pub content_of : PlistData → Run (List ℕ)
content_of d = elim (block_of d.value) [
  | none ↦ if d.length == 0 then ok [] else fault
  | some s ↦ load s 0 d.length
]

-- `write_string` or `write_unicode`.
unfoldable pub write_text : List ℕ → List ℕ → List ℕ
write_text bplist val =
    if is_ascii_string val then write_string bplist val else write_unicode bplist val

-- The six bytes `unused` and the fields of `bplist_trailer_t` in memory, the last three after
-- `be64toh`.
unfoldable pub trailer_bytes : ℕ → ℕ → ℕ → ℕ → ℕ → List ℕ
trailer_bytes offset_size ref_size num_objects root_object offset_table_index =
    replicate 6 0
    ++ (offset_size
        ∷ ref_size
        ∷ (le_bytes 8 (bswap64 num_objects)
            ++ (le_bytes 8 (bswap64 root_object) ++ le_bytes 8 (bswap64 offset_table_index))))

unfoldable pub write_offsets : ℕ → List ℕ → List ℕ → List ℕ
write_offsets offset_size bplist [] = bplist
write_offsets offset_size bplist (o ∷ r) =
    write_offsets offset_size (bplist ++ tail_bytes offset_size o) r

-- What follows the loop over the objects: the offset table and the trailer. The root is the first
-- object.
unfoldable pub write_tables : ℕ → ℕ → List ℕ → List ℕ → List ℕ
write_tables ref_size num_objects bplist offsets =
    let offset_table_index = Prelude.length bplist in
    let offset_size = get_needed_bytes offset_table_index in
    write_offsets offset_size bplist offsets
    ++ trailer_bytes offset_size ref_size num_objects 0 offset_table_index

module _ (m : Heap) (narrow : ℕ → Option ℕ) where
  -- One round of the loop over the objects, for a node with the data `d` and these children.
  unfoldable pub write_object : Table ℕ ℕ → ℕ → List ℕ → PlistData → List ℕ → Run (List ℕ)
  write_object ref_table ref_size bplist d children = elim d.kind [
    | null ↦ ok (bplist ++ (0x00 ∷ []))
    | boolean ↦ ok (bplist ++ ((if word_of d.value == 0 then 0x08 else 0x09) ∷ []))
    | int ↦ ok (
        if d.length == 16
        then write_uint bplist (word_of d.value)
        else write_int bplist (word_of d.value))
    | real ↦ ok (write_real narrow bplist (word_of d.value))
    | key ↦ content_of d >>= λ val. ok (write_text bplist val)
    | string ↦ content_of d >>= λ val. ok (write_text bplist val)
    | bytes ↦ content_of d >>= λ val. ok (write_data bplist val)
    | array ↦ write_array ⦃key = data_key m⦄ bplist children ref_table ref_size
    | dict ↦ write_dict ⦃key = data_key m⦄ bplist children ref_table ref_size
    | date ↦ ok (write_date bplist (word_of d.value))
    | uid ↦ ok (write_uid bplist (word_of d.value))
  ]

module _ (m : Heap) (narrow : ℕ → Option ℕ) where
  -- The loop over the objects, `n` rounds from index `i` on: the bytes, and the offsets.
  unfoldable pub write_objects :
      Table ℕ ℕ → ℕ → PtrArray ℕ → ℕ → ℕ → List ℕ → List ℕ → Run (List ℕ × List ℕ)
  write_objects ref_table ref_size objects zero i bplist offsets = ok (bplist, offsets)
  write_objects ref_table ref_size objects (suc n) i bplist offsets =
      access (ptr_array_index objects (pos i)) >>= λ node.
      write_object m narrow ref_table ref_size bplist (m.data_of node) (m.children node)
      >>= λ bplist'.
          write_objects ref_table ref_size objects n (i + 1) bplist'
            (offsets ++ (Prelude.length bplist ∷ []))

  -- What `plist_to_bin` does with the list of the objects and their indices.
  unfoldable pub write_file : Serialize → Run (List ℕ)
  write_file ser =
      let num_objects = ptr_array_size ser.objects in
      let ref_size = get_needed_bytes num_objects in
      write_objects ser.ref_table ref_size ser.objects num_objects 0 magic [] >>= λ q.
      ok (write_tables ref_size num_objects q.0 q.1)

  -- The error code, and on success `*plist_bin` and `*length`, which has 32 bits.
  unfoldable pub plist_to_bin : ℕ → Run (PlistErr × Option (List ℕ × ℕ))
  plist_to_bin plist = serialize_root m plist >>= λ q.
      on_success q.0
        (write_file q.1 >>= λ bplist. ok (success, some (bplist, Prelude.length bplist % 2 ^ 32)))
        (ok (q.0, none))
