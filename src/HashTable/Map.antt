-- ===== src/HashTable/Map.antt =====
-- The table as a map from keys to values.
use libplist.Prelude.{◌≤◌, ◌≡◌, Bool, ◌&&◌, true, [], ◌∷◌, arith}
use libplist.Prelude.{Option, none, some, if◌then◌else◌, ◌==◌, Option-cases, inl, inr, refl}
use libplist.HashTable.{Entries, lookup_loop}
use libplist.HashTable.{Key, IsEquivalence, Table, slot, insert_loop, remove_loop}
use libplist.HashTable.{hash_table_new, hash_table_lookup, hash_table_insert, hash_table_remove}
use libplist.HashTable.Chain.{
  matches, lookup_loop-insert_loop, lookup_loop-remove_loop, matches-insert_loop,
  matches-insert_loop-none, matches-remove_loop_le, matches-remove_loop, matches-remove_loop-none,
  remove_loop-eq-none, remove_loop_value,
}

module _ {K V : Type 0} ⦃key : Key K⦄ where
  -- No key matches two entries of its chain.
  pub record IsValid (t : Table K V) : Type 0 where
    pub unique : (q : K) → matches q (t.entries (slot q)) ≤ 1

  -- What the table says of each key.
  unfoldable pub view : Table K V → K → Option V
  view t q = hash_table_lookup t (some q)

  module _ ⦃eq : IsEquivalence key⦄ where
    -- After an insertion a key has the new value if it compares equal to the inserted one and lies
    -- on the same slot, and any other key has what it had, whether the inserted key was there
    -- before or not; if the comparison is an equivalence, whatever the hash function is.
    pub lookup-insert :
        (t : Table K V) (k q : K) (v : V)
        → hash_table_lookup (hash_table_insert t (some k) v) (some q) ≡ (
            if key.compare_func k q && slot k == slot q
            then some v
            else hash_table_lookup t (some q))
    unfolding hash_table_lookup hash_table_insert
    lookup-insert t k q v = elim (Option-cases (insert_loop k v (t.entries (slot k)))) [
      | inl n ↦ ground arith
      | inr (c, s) ↦ ground (arith, lookup_loop-insert_loop k q v (t.entries (slot k)) c s)
    ]

    -- In a table where no key matches two entries of its chain, after a removal no key is found
    -- that compares equal to the removed one and lies on the same slot, and any other key has what
    -- it had; if the comparison is an equivalence, whatever the hash function is.
    pub lookup-remove :
        (t : Table K V) (k q : K)
        → IsValid t
        → hash_table_lookup (hash_table_remove t (some k)).0 (some q) ≡ (
            if key.compare_func k q && slot k == slot q then none else hash_table_lookup t (some q))
    unfolding hash_table_lookup hash_table_remove
    lookup-remove t k q h = elim (Option-cases (remove_loop k (t.entries (slot k)))) [
      | inl n ↦ ground (arith, remove_loop-eq-none k q (t.entries (slot k)) n)
      | inr ((v, c), s) ↦
          ground (arith, h.unique q, lookup_loop-remove_loop k q v (t.entries (slot k)) c s)
    ]

    -- An insertion keeps the invariant that no key matches two entries of its chain; if the
    -- comparison is an equivalence, whatever the hash function is.
    pub insert-IsValid :
        (t : Table K V) (k : K) (v : V) → IsValid t → IsValid (hash_table_insert t (some k) v)
    unfolding hash_table_insert
    insert-IsValid t k v h = elim (Option-cases (insert_loop k v (t.entries (slot k)))) [
      | inl n ↦ record {
        unique = λ q.
            unfold matches in
            ground (arith, h.unique q, matches-insert_loop-none k q v (t.entries (slot k)) n);
      }
      | inr (c, s) ↦ record {
        unique =
            λ q. ground (arith, h.unique q, matches-insert_loop k q v (t.entries (slot k)) c s);
      }
    ]

    lookup_loop_congr :
        (a b : K) (c : Entries K V)
        → key.compare_func a b ≡ true
        → lookup_loop a c ≡ lookup_loop b c
    unfolding lookup_loop
    lookup_loop_congr a b [] h = refl
    lookup_loop_congr a b (e ∷ c) h = ground (
      arith,
      lookup_loop_congr a b c h,
      eq.compare_trans e.0 a b,
      eq.compare_trans e.0 b a,
      eq.compare_symm a b,
    )

    -- Keys on one slot that compare equal are looked up alike.
    pub lookup_congr :
        (t : Table K V) (a b : K)
        → key.compare_func a b ≡ true
        → slot a ≡ slot b
        → hash_table_lookup t (some a) ≡ hash_table_lookup t (some b)
    unfolding hash_table_lookup
    lookup_congr t a b h same = rw same (lookup_loop_congr a b (t.entries (slot b)) h)

  -- Where free_func is set, a removal hands it the value that a lookup of the key finds, and
  -- nothing if there is none.
  pub remove_frees :
      (t : Table K V) (k : K)
      → t.has_free ≡ true
      → (hash_table_remove t (some k)).1
        ≡ elim (hash_table_lookup t (some k)) [ some v ↦ v ∷ [] | none ↦ [] ]
  unfolding hash_table_lookup hash_table_remove
  remove_frees t k h = elim (Option-cases (remove_loop k (t.entries (slot k)))) [
    | inl n ↦ ground (arith, remove_loop_value k (t.entries (slot k)))
    | inr ((v, c), s) ↦ ground (arith, remove_loop_value k (t.entries (slot k)))
  ]

  pub new-IsValid : (has_free : Bool) → IsValid (hash_table_new has_free)
  unfolding hash_table_new matches
  new-IsValid has_free = record { unique = λ q. omega arith }

  -- A removal keeps the invariant that no key matches two entries of its chain, and leaves no entry
  -- in the chain of the removed key that matches it, whatever the hash and comparison functions
  -- are.
  pub remove-IsValid :
      (t : Table K V) (k : K)
      → IsValid t
      → IsValid (hash_table_remove t (some k)).0
        × (matches k ((hash_table_remove t (some k)).0.entries (slot k)) ≡ 0)
  unfolding hash_table_remove
  remove-IsValid t k h =
      let old = t.entries (slot k) in
      elim (Option-cases (remove_loop k old)) [
        | inl n ↦ (
          record { unique = λ q. ground (arith, h.unique q) },
          ground (arith, matches-remove_loop-none k old n),
        )
        | inr ((v, c), s) ↦ (
          record { unique = λ q. ground (arith, h.unique q, matches-remove_loop_le k q v old c s) },
          ground (arith, h.unique k, matches-remove_loop k v old c s),
        )
      ]
