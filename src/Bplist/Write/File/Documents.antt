-- ===== src/Bplist/Write/File/Documents.antt =====
-- `plist_from_bin` reads back what `plist_to_bin` wrote.
use libplist.Prelude.{ℕ, zero, suc, ◌+◌, ◌%◌, ◌^◌, ◌<◌, ◌≤◌, ◌≡◌, refl, ap, ◌∙◌, arith}
use libplist.Prelude.{
  true, false, not, List, [], ◌∷◌, ◌++◌, Option, some, All, All-append, length, get_elem?, leb,
  ◌==◌, append_assoc,
}
use libplist.Run.{ok, Ensures, returns}
use libplist.PtrArray.{ptr_array_new}
use libplist.PtrArray.Cells.{Models, new-Models}
use libplist.PtrArray.Operations.{ptr_array_add-Returns, ptr_array_index_lem, ptr_array_size_lem}
use libplist.HashTable.{hash_table_new, hash_table_lookup, lookup_loop}
use libplist.Bplist.Word.{get_needed_bytes}
use libplist.Bplist.Word.Values.{IsByte, all_bytes, all_bytes-IsByte}
use libplist.Bplist.Node.{Tree, PlistData, success}
use libplist.Bplist.Parse.{
  BplistData, AtIndex, is_circular, parse_bin_node, parse_entered, parse_bin_node_at_index,
}
use libplist.Bplist.Parse.Valid.{IsValid}
use libplist.Bplist.Parse.Total.{mark_used-Ensures, update-IsValid}
use libplist.Bplist.Parse.FromBin.{initial-IsValid}
use libplist.Bplist.Parse.Document.{magic, has_prefix, initial, parse_root, plist_from_bin}
use libplist.Bplist.Serialize.{
  Heap, Serialize, serialize_children, serialize_new, serialize_node, serialize_plist,
  serialize_root, on_success,
}
use libplist.Bplist.Write.Extends.{Extends}
use libplist.Bplist.Write.RoundTrip.{Wrote}
use libplist.Bplist.Write.File.{write_object, write_objects, write_tables, write_file, plist_to_bin}
use libplist.Bplist.Write.File.Tables.{get_needed_bytes-bounds}
use libplist.Bplist.Write.File.Layout.{
  IsBody, written_trailer, written_data, node_offset-written_data, bad_trailer-write_tables,
  length-write_tables, file-IsByte, write_tables-append, read_trailer-write_tables,
}
use libplist.Bplist.Write.File.Leaves.{
  Scalar, made, payload, IsStorable, ReadsBack, write_object-ReadsBack,
}

-- A root without children is the only object.
serialize_root-leaf :
    (m : Heap) (root : ℕ)
    → m.children root ≡ []
    → Ensures (λ q. (q.0 ≡ success) × Models (root ∷ []) q.1.objects) (serialize_root m root)
unfolding serialize_root serialize_plist serialize_node serialize_new serialize_children
    hash_table_new hash_table_lookup lookup_loop
serialize_root-leaf m root e =
    let (objects, added, listed) =
      ptr_array_add-Returns [] (ptr_array_new 4096) root (new-Models 4096 (omega arith)) in
    rw (added, e) (returns _ refl (refl, listed))

has_prefix-append : (ms rest : List ℕ) → has_prefix ms (ms ++ rest) ≡ true
unfolding has_prefix
has_prefix-append [] rest = refl
has_prefix-append (b ∷ ms) rest = ground (arith, has_prefix-append ms rest)

module _ (narrow : ℕ → Option ℕ) (widen : ℕ → ℕ) (m : Heap) (tree : Tree) where
  open tree use {Node, node_create}

  write_file-leaf :
      (ser : Serialize) (root : ℕ) (after : List ℕ)
      → Models (root ∷ []) ser.objects
      → write_object m narrow ser.ref_table 1 magic (m.data_of root) (m.children root) ≡ ok after
      → write_file m narrow ser ≡ ok (write_tables 1 1 after (8 ∷ []))
  unfolding write_file write_objects get_needed_bytes
  write_file-leaf ser root after listed e =
      rw
        (
          ptr_array_size_lem (root ∷ []) ser.objects listed,
          ptr_array_index_lem (root ∷ []) ser.objects 0 listed,
          e,
        )
        refl

  module _ (room : ℕ) (after : List ℕ) (x : Extends room magic after) where
    length_after : length after ≡ 8 + length x.added
    length_after = ap length x.appended ∙ omega arith

    only_offset : (i o : ℕ) → get_elem? (8 ∷ []) i ≡ some o → (8 ≤ o) × (o < length after)
    only_offset zero o e = let same : 8 ≡ o = cc in omega (arith, length_after, x.nonempty)
    only_offset (suc i) o e = cc

    magic-IsByte : All IsByte magic
    unfolding all_bytes
    magic-IsByte = all_bytes-IsByte magic refl

    one_object-IsBody : IsBody after (8 ∷ [])
    one_object-IsBody = record {
      objects = x.added;
      begins = x.appended;
      bytes = rw x.appended (All-append IsByte magic x.added magic-IsByte x.bytes);
      nonempty = omega arith;
      placed = only_offset;
    }

    abbrev file : List ℕ
    file = write_tables 1 1 after (8 ∷ [])

    one_byte : (0 < 1) × (1 < 256)
    one_byte = (omega arith, omega arith)

    file-parts : (rest : List ℕ) × (file ≡ after ++ rest)
    file-parts = (_, write_tables-append after (8 ∷ []) one_object-IsBody 1)

    module _ (address : ℕ) (sized : length file < 2 ^ 32)
        (high : address + length file + 2 ^ 16 ≤ 2 ^ 64) where
      abbrev start : BplistData
      start = written_data after (8 ∷ []) one_object-IsBody 1 sized one_byte address

      start-IsValid : IsValid start
      start-IsValid =
          initial-IsValid file address
            (written_trailer after (8 ∷ []) one_object-IsBody 1 sized one_byte)
            (omega (arith, length-write_tables after (8 ∷ []) one_object-IsBody 1)) sized high
            (bad_trailer-write_tables after (8 ∷ []) one_object-IsBody 1 sized one_byte)

      start-Wrote :
          (s : BplistData)
          → IsValid s
          → s.buf ≡ file
          → s.offset_table ≡ length after
          → Wrote after s
      start-Wrote s v same table =
          let (rest, parts) = file-parts in
          record {
            valid = v;
            bytes = rw same (file-IsByte after (8 ∷ []) one_object-IsBody 1 sized one_byte);
            rest = rest;
            contents = same ∙ parts;
            inside = rw table (omega arith);
          }

      -- The parser enters the only object, at level 1 then.
      parse_entered-only :
          (self : AtIndex tree widen) (d : PlistData)
          → ((s : BplistData)
              → Wrote after s
              → parse_bin_node tree widen self s 8 ≡ ok (some (node_create d), s))
          → Ensures (λ q. q.0 ≡ some (node_create d)) (parse_entered tree widen self start 0 8)
      unfolding parse_entered is_circular initial
      parse_entered-only self d reads =
          elim (mark_used-Ensures start.used_indexes 0 0 start-IsValid.path start-IsValid.used) [
            | returns used e (path, m, above) ↦
                let v =
                  update-IsValid start used 1 success path start-IsValid m (omega (arith, above)) in
                let inner : BplistData = record start { used_indexes = used; level = 1 } in
                let w = start-Wrote inner v refl refl in rw (e, reads inner w) (returns _ refl refl)
          ]

      plist_from_bin-only :
          (d : PlistData)
          → ((self : AtIndex tree widen) (s : BplistData)
              → Wrote after s
              → parse_bin_node tree widen self s 8 ≡ ok (some (node_create d), s))
          → plist_from_bin tree widen file address ≡ ok (success, some (node_create d))
      unfolding plist_from_bin parse_root parse_bin_node_at_index
      plist_from_bin-only d reads =
          let long = length-write_tables after (8 ∷ []) one_object-IsBody 1 in
          let filled : (length file == 0) ≡ false = ground (arith, long) in
          let wide : not (leb 40 (length file)) ≡ false = ground (arith, long, length_after) in
          let (rest, parts) = file-parts in
          let begins : has_prefix magic file ≡ true =
            rw (parts, x.appended, append_assoc magic x.added rest)
              (has_prefix-append magic (x.added ++ rest)) in
          let trailer =
            read_trailer-write_tables after (8 ∷ []) one_object-IsBody 1 sized one_byte
              (omega arith) in
          let good = bad_trailer-write_tables after (8 ∷ []) one_object-IsBody 1 sized one_byte in
          let offset =
            node_offset-written_data after (8 ∷ []) one_object-IsBody 1 sized one_byte address 0 8
              refl in
          rw (filled, wide, begins, trailer, good, offset)
            (elim (parse_entered-only (parse_bin_node_at_index tree widen 513) d (reads _)) [
              | returns q e p ↦ rw (e, p) refl
            ])

  -- A file that plist_to_bin wrote for a root without children, which one of the functions
  -- plist_new_* made, is read by plist_from_bin as the root's data, bit for bit: null, a Boolean 0
  -- or 1, an integer of 64 bits, a UID of 32 bits, a date, a real whose narrowing widening undoes,
  -- an ASCII text without a zero byte, and data that are not empty, both shorter than 2 GiB; the
  -- file is read at an address below 2^63.
  pub plist_from_bin-plist_to_bin :
      (root : ℕ) (n : Scalar) (address : ℕ)
      → m.data_of root ≡ made n
      → m.children root ≡ []
      → IsStorable narrow widen n
      → payload n < 2 ^ 31
      → address < 2 ^ 63
      → (bplist : List ℕ) × (plist_to_bin m narrow root
          ≡ ok (success, some (bplist, length bplist)))
        × (plist_from_bin tree widen bplist address ≡ ok (success, some (node_create (made n))))
  unfolding plist_to_bin on_success
  plist_from_bin-plist_to_bin root n address e leaf_root h small low =
      elim (serialize_root-leaf m root leaf_root) [
        | returns q done (ended, listed) ↦
            let back : ReadsBack narrow widen m tree (32 + payload n) q.1.ref_table 1 magic (made n)
                [] =
              write_object-ReadsBack narrow widen m tree q.1.ref_table 1 magic [] n h in
            let bplist = write_tables 1 1 back.after (8 ∷ []) in
            let written =
              write_file-leaf q.1 root back.after listed (rw (e, leaf_root) back.written) in
            let long =
              length-write_tables back.after (8 ∷ [])
                (one_object-IsBody (32 + payload n) back.after back.extends) 1 in
            let body = length_after (32 + payload n) back.after back.extends in
            let width = (get_needed_bytes-bounds (length back.after)).1 in
            let short : length bplist < 2 ^ 31 + 200 =
              omega (arith, long, body, width, back.extends.short) in
            let exact : length bplist % 2 ^ 32 ≡ length bplist = omega arith in
            (
              bplist,
              rw (done, ended, written, exact) refl,
              plist_from_bin-only (32 + payload n) back.after back.extends address (omega arith)
                  (omega arith) (made n) back.reads,
            )
      ]
