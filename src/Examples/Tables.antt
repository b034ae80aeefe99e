-- ===== src/Examples/Tables.antt =====
-- The hash table with numbers as keys, equal if they are the same number.
use libplist.Prelude.{
  ℕ, ◌&&◌, false, ◌+◌, ◌≡◌, refl, arith, true, [], ◌∷◌, none, some, ◌==◌, if◌then◌else◌, length,
}
use libplist.Bplist.Node.New.{plist_new_data}
use libplist.Bplist.Write.{le_bytes}
use libplist.Bplist.Serialize.{
  Heap, data_key, plist_data_compare, plist_data_hash, hashed, hash_bytes, hash_byte, type_number,
  class, same_block, same_bytes, block_of,
}
use libplist.Bplist.Serialize.Equal.{data_key-IsEquivalence}
use libplist.HashTable.Chain.{matches}
use libplist.HashTable.{
  slot, IsEquivalence, Key, Table, hash_table_new, hash_table_insert, hash_table_lookup,
  hash_table_remove, hash_table_destroy,
}
use libplist.HashTable.Map.{
  IsValid, new-IsValid, insert-IsValid, remove-IsValid, lookup-insert, lookup-remove, remove_frees,
}
use libplist.HashTable.Count.{size, total, count-insert, count-remove, length-hash_table_destroy}

instance abbrev number_key : Key ℕ
number_key = record { hash_func = λ a. a; compare_func = λ a b. a == b }

instance abbrev number_key-IsEquivalence : IsEquivalence number_key
number_key-IsEquivalence = record {
  compare_refl = ground arith;
  compare_symm = ground arith;
  compare_trans = ground arith;
}

-- Nodes that all have the data `abc`.
abbrev twins : Heap
twins = record { data_of = λ _. plist_new_data (b'a' ∷ b'b' ∷ b'c' ∷ []); children = λ _. [] }

-- Two of them compare equal and have different hashes.
twins_compare_test : plist_data_compare twins 64 128 ≡ true
unfolding plist_data_compare plist_new_data type_number class same_block block_of same_bytes
twins_compare_test = refl

twins_hash_test : (plist_data_hash twins 64 == plist_data_hash twins 128) ≡ false
unfolding plist_data_hash plist_new_data hashed hash_bytes hash_byte type_number class le_bytes
twins_hash_test = refl

-- The reference table of `plist_to_bin` with one of them.
abbrev one_twin : Table ℕ ℕ
one_twin = hash_table_insert ⦃key = data_key twins⦄ (hash_table_new true) (some 64) 0

one_twin-IsValid : IsValid ⦃key = data_key twins⦄ one_twin
one_twin-IsValid =
    insert-IsValid ⦃key = data_key twins⦄ ⦃eq = data_key-IsEquivalence twins⦄ (hash_table_new true)
      64 0 (new-IsValid ⦃key = data_key twins⦄ true)

abbrev empty_table : Table ℕ ℕ
empty_table = hash_table_new true

-- 7 and 4103 share a slot.
abbrev filled : Table ℕ ℕ
filled = hash_table_insert (hash_table_insert empty_table (some 7) 70) (some 4103) 41

empty-IsValid : IsValid empty_table
empty-IsValid = new-IsValid true

filled-IsValid : IsValid filled
filled-IsValid =
    insert-IsValid (hash_table_insert empty_table (some 7) 70) 4103 41
      (insert-IsValid empty_table 7 70 empty-IsValid)

filled_lookup : hash_table_lookup filled (some 7) ≡ some 70
unfolding hash_table_lookup hash_table_insert hash_table_new
filled_lookup = refl

lookup-insert_example :
    hash_table_lookup ⦃key = data_key twins⦄
      (hash_table_insert ⦃key = data_key twins⦄ one_twin (some 128) 1)
      (some 64)
    ≡ (if plist_data_compare twins 128 64
          && slot ⦃key = data_key twins⦄ 128 == slot ⦃key = data_key twins⦄ 64
        then some 1
        else hash_table_lookup ⦃key = data_key twins⦄ one_twin (some 64))
lookup-insert_example =
    lookup-insert ⦃key = data_key twins⦄ ⦃eq = data_key-IsEquivalence twins⦄ one_twin 128 64 1

lookup-remove_example :
    hash_table_lookup ⦃key = data_key twins⦄
      (hash_table_remove ⦃key = data_key twins⦄ one_twin (some 64)).0
      (some 128)
    ≡ (if plist_data_compare twins 64 128
          && slot ⦃key = data_key twins⦄ 64 == slot ⦃key = data_key twins⦄ 128
        then none
        else hash_table_lookup ⦃key = data_key twins⦄ one_twin (some 128))
lookup-remove_example =
    lookup-remove ⦃key = data_key twins⦄ ⦃eq = data_key-IsEquivalence twins⦄ one_twin 64 128
      one_twin-IsValid

remove_frees_example :
    (hash_table_remove filled (some 7)).1
    ≡ elim (hash_table_lookup filled (some 7)) [ some v ↦ v ∷ [] | none ↦ [] ]
unfolding hash_table_new hash_table_insert
remove_frees_example = remove_frees filled 7 refl

insert-IsValid_example :
    IsValid ⦃key = data_key twins⦄ (hash_table_insert ⦃key = data_key twins⦄ one_twin (some 128) 1)
insert-IsValid_example =
    insert-IsValid ⦃key = data_key twins⦄ ⦃eq = data_key-IsEquivalence twins⦄ one_twin 128 1
      one_twin-IsValid

remove-IsValid_example :
    IsValid (hash_table_remove filled (some 7)).0
    × (matches 7 ((hash_table_remove filled (some 7)).0.entries (slot {K = ℕ} 7)) ≡ 0)
remove-IsValid_example = remove-IsValid filled 7 filled-IsValid

empty_size : empty_table.count ≡ size empty_table
unfolding hash_table_new size total
empty_size = refl

count-insert_example :
    (hash_table_insert empty_table (some 7) 70).count
    ≡ size (hash_table_insert empty_table (some 7) 70)
count-insert_example = count-insert empty_table 7 70 empty_size

count-remove_example :
    ((hash_table_remove filled (some 7)).0.count ≡ filled.count)
    × (size (hash_table_remove filled (some 7)).0 + 1 ≡ size filled)
count-remove_example = count-remove filled 7 70 filled_lookup

length-hash_table_destroy_example : length (hash_table_destroy filled) ≡ size filled
unfolding hash_table_new hash_table_insert
length-hash_table_destroy_example = length-hash_table_destroy filled refl
