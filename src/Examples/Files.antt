-- ===== src/Examples/Files.antt =====
-- Whole binary files: what plist_to_bin writes, read by plist_from_bin.
use libplist.Prelude.{◌-◌, false}
use libplist.Prelude.{ℕ, ◌≡◌, refl, arith, ◌==◌, if◌then◌else◌, List, [], ◌∷◌, ◌++◌}
use libplist.Prelude.{none, some, length}
use libplist.Prelude.{if_intro, get_elem?, zero, suc, ◌≤◌, ◌<◌}
use libplist.Bplist.Word.{get_needed_bytes}
use libplist.Bplist.Word.Values.{all_bytes, all_bytes-IsByte}
use libplist.Bplist.Parse.{node_offset}
use libplist.Bplist.Parse.Document.{
  Trailer, trailer_size, read_trailer, bad_trailer, magic, initial,
}
use libplist.Bplist.Write.{tail_bytes, le_bytes}
use libplist.Bplist.Write.File.{write_tables, write_offsets, trailer_bytes}
use libplist.Bplist.Write.File.Layout.{IsBody, node_offset-write_tables}
use libplist.Run.{ok, Ensures, returns}
use libplist.Bplist.Word.{load}
use libplist.Bplist.Serialize.{class, block_of}
use libplist.Bplist.Write.File.{content_of}
use libplist.Bplist.Write.File.Total.{HasContent, IsReply, plist_to_bin-Ensures}
use libplist.Bplist.Node.{success}
use libplist.Bplist.Node.New.{plist_new_array, plist_new_string}
use libplist.Bplist.Parse.Document.{plist_from_bin}
use libplist.Bplist.Serialize.{Heap}
use libplist.Bplist.Write.File.{plist_to_bin}
use libplist.Bplist.Write.File.Leaves.{string_node, made, payload}
use libplist.Bplist.Write.File.Documents.{plist_from_bin-plist_to_bin}
use libplist.Examples.Binary.{value_tree, node, childless}

-- The text "plist" alone.
abbrev one_text : Heap
one_text = record {
  data_of = λ _. made (string_node (b'p' ∷ b'l' ∷ b'i' ∷ b's' ∷ b't' ∷ []));
  children = λ _. [];
}

plist_from_bin-plist_to_bin_example :
    (bplist : List ℕ) × (plist_to_bin one_text (λ _. none) 64
      ≡ ok (success, some (bplist, length bplist)))
    × (plist_from_bin value_tree (λ w. w) bplist 4096
        ≡ ok (
          success,
          some (node (made (string_node (b'p' ∷ b'l' ∷ b'i' ∷ b's' ∷ b't' ∷ []))) childless),
        ))
plist_from_bin-plist_to_bin_example =
    plist_from_bin-plist_to_bin (λ _. none) (λ w. w) one_text value_tree 64
      (string_node (b'p' ∷ b'l' ∷ b'i' ∷ b's' ∷ b't' ∷ [])) 4096 refl refl
      (
        (
          (omega arith, omega arith),
          (
            (omega arith, omega arith),
            (
              (omega arith, omega arith),
              ((omega arith, omega arith), ((omega arith, omega arith), _)),
            ),
          ),
        ),
        omega arith,
      )
      (unfold payload in omega arith) (omega arith)

-- An array of two texts, the second at another address but with the same data as the first.
abbrev two_texts : Heap
two_texts = record {
  data_of = λ n. if n == 64 then plist_new_array else plist_new_string (b'a' ∷ b'b' ∷ []);
  children = λ n. if n == 64 then 128 ∷ 192 ∷ [] else [];
}

two_texts-HasContent : (a : ℕ) → HasContent (two_texts.data_of a)
unfolding HasContent class plist_new_array plist_new_string content_of block_of load
two_texts-HasContent a = if_intro HasContent (a == 64) (λ _. _) (λ _. returns _ refl _)

plist_to_bin-Ensures_example : Ensures IsReply (plist_to_bin two_texts (λ _. none) 64)
plist_to_bin-Ensures_example = plist_to_bin-Ensures two_texts (λ _. none) 64 two_texts-HasContent

-- A file with a null and a true, and the offset of the second.
abbrev two_objects : List ℕ
two_objects = magic ++ (0 ∷ 9 ∷ [])

two_offsets : (i o : ℕ) → get_elem? (8 ∷ 9 ∷ []) i ≡ some o → (8 ≤ o) × (o < length two_objects)
two_offsets zero o e = let same : 8 ≡ o = cc in omega arith
two_offsets (suc zero) o e = let same : 9 ≡ o = cc in omega arith
two_offsets (suc (suc i)) o e = cc

two_objects-IsBody : IsBody two_objects (8 ∷ 9 ∷ [])
two_objects-IsBody = record {
  objects = 0 ∷ 9 ∷ [];
  begins = refl;
  bytes = all_bytes-IsByte two_objects (unfold all_bytes in refl);
  nonempty = omega arith;
  placed = two_offsets;
}

abbrev two_objects_file : List ℕ
two_objects_file = write_tables 1 2 two_objects (8 ∷ 9 ∷ [])

node_offset-write_tables_example :
    (t : Trailer) × (read_trailer two_objects_file (length two_objects_file - trailer_size) ≡ ok t)
    × (bad_trailer (length two_objects_file) t ≡ false)
    × ((i o : ℕ)
        → get_elem? (8 ∷ 9 ∷ []) i ≡ some o
        → node_offset (initial two_objects_file 4096 t) i ≡ ok (some o))
node_offset-write_tables_example =
    node_offset-write_tables two_objects (8 ∷ 9 ∷ []) two_objects-IsBody 1
      (unfold write_tables write_offsets trailer_bytes tail_bytes le_bytes get_needed_bytes in
        omega arith)
      (omega arith, omega arith) 4096
