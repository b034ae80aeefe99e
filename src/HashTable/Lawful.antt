-- ===== src/HashTable/Lawful.antt =====
-- The table as a map, where the comparison is an equivalence and equal keys have equal hashes.
use libplist.Prelude.{ℕ, ◌%◌, ◌≡◌, true, arith, ◌∙◌}
use libplist.Prelude.{none, some, if◌then◌else◌, ap}
use libplist.HashTable.{
  Key, IsEquivalence, Table, slot, hash_table_lookup, hash_table_insert, hash_table_remove,
}
use libplist.HashTable.Map.{IsValid, lookup-insert, lookup-remove}

pub record IsLawful {K : Type 0} (key : Key K) : Type 0 where
  pub equivalence : IsEquivalence key
  pub hash-compare : (a b : K) → key.compare_func a b ≡ true → key.hash_func a ≡ key.hash_func b

module _ {K : Type 0} ⦃key : Key K⦄ ⦃laws : IsLawful key⦄ where
  slot_congr : (a b : K) → key.compare_func a b ≡ true → slot a ≡ slot b
  unfolding slot
  slot_congr a b e = ap (λ (h : ℕ). h % 4096) (laws.hash-compare a b e)

module _ {K V : Type 0} ⦃key : Key K⦄ ⦃laws : IsLawful key⦄ where
  -- After an insertion a key equal to the inserted one has the value.
  pub lookup-insert_lawful :
      (t : Table K V) (k q : K) (v : V)
      → hash_table_lookup (hash_table_insert t (some k) v) (some q)
        ≡ (if key.compare_func k q then some v else hash_table_lookup t (some q))
  lookup-insert_lawful t k q v =
      lookup-insert ⦃eq = laws.equivalence⦄ t k q v ∙ ground (arith, slot_congr k q)

  -- After a removal no key equal to the removed one is found.
  pub lookup-remove_lawful :
      (t : Table K V) (k q : K)
      → IsValid t
      → hash_table_lookup (hash_table_remove t (some k)).0 (some q)
        ≡ (if key.compare_func k q then none else hash_table_lookup t (some q))
  lookup-remove_lawful t k q h =
      lookup-remove ⦃eq = laws.equivalence⦄ t k q h ∙ ground (arith, slot_congr k q)
