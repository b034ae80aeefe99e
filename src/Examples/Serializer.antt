-- ===== src/Examples/Serializer.antt =====
-- The list of objects that plist_to_bin writes, on a small graph.
use libplist.Prelude.{◌==◌, ◌≡◌, refl, [], ◌∷◌, if◌then◌else◌, true, All}
use libplist.Run.{Ensures}
use libplist.Bplist.Node.{success, int, intval, array, no_value}
use libplist.Bplist.Write.{le_bytes}
use libplist.Bplist.Serialize.{
  Heap, type_number, class, word_of, hashed, hash_byte, hash_bytes, plist_data_hash,
  plist_data_compare, serialize_root,
}
use libplist.Bplist.Serialize.Grown
use libplist.Bplist.Serialize.Entered.{serialize_root-Ensures}

-- An array whose second element is the array itself.
abbrev cyclic : Heap
cyclic = record {
  data_of = λ n.
      if n == 64
      then record { value = no_value; length = 0; kind = array }
      else record { value = intval 7; length = 8; kind = int };
  children = λ n. if n == 64 then 128 ∷ 64 ∷ [] else [];
}

serialize_root-Ensures_example :
    Ensures
      (λ q.
        Grown.Entered cyclic 64 q
        × (v : Grown.IsValid cyclic q.1) × (q.0 ≡ success
            → All (λ a. All (Grown.HasRef cyclic q.1) (cyclic.children a)) v.nodes))
      (serialize_root cyclic 64)
serialize_root-Ensures_example = serialize_root-Ensures cyclic 64

-- Two nodes with equal data at different addresses.
plist_data_compare_test : plist_data_compare cyclic 128 129 ≡ true
unfolding plist_data_compare type_number class word_of
plist_data_compare_test = refl

plist_data_hash_test : plist_data_hash cyclic 128 ≡ plist_data_hash cyclic 129
unfolding plist_data_hash hashed hash_bytes hash_byte type_number class word_of le_bytes
plist_data_hash_test = refl
