-- ===== src/HashTable/Chain.antt =====
-- One chain: what the loops of the operations do to a later search.
use libplist.Prelude.{ℕ, ◌+◌, ◌≤◌, ◌≡◌, refl, Bool, true, false, [], ◌∷◌, arith}
use libplist.Prelude.{none, some, if◌then◌else◌, Option-cases, length, inl, inr}
use libplist.HashTable.{Key, IsEquivalence, Entries, lookup_loop, insert_loop, remove_loop}
use mathlib.Core.Option

abbrev pub to_nat : Bool → ℕ
to_nat true = 1
to_nat false = 0

module _ {K : Type 0} ⦃key : Key K⦄ ⦃eq : IsEquivalence key⦄ where
  -- Keys that are equal to one another compare alike with a third.
  pub compare_left :
      (a b c : K) → key.compare_func a b ≡ true → key.compare_func a c ≡ key.compare_func b c
  compare_left a b c e =
      ground (arith, eq.compare_symm a b, eq.compare_trans a b c, eq.compare_trans b a c)

  pub compare_right :
      (a b c : K) → key.compare_func a b ≡ true → key.compare_func c a ≡ key.compare_func c b
  compare_right a b c e =
      ground (arith, eq.compare_symm c a, eq.compare_symm c b, compare_left a b c)

module _ {K V : Type 0} ⦃key : Key K⦄ where
  -- How many entries of a chain match a key.
  unfoldable pub matches : K → Entries K V → ℕ
  matches k [] = 0
  matches k (e ∷ c) = to_nat (key.compare_func e.0 k) + matches k c

  pub matches_zero : (k : K) (c : Entries K V) → matches k c ≡ 0 → lookup_loop k c ≡ none
  unfolding matches lookup_loop
  matches_zero k [] h = refl
  matches_zero k (e ∷ c) h = ground (arith, matches_zero k c)

  module _ ⦃eq : IsEquivalence key⦄ (k q : K) where
    pub lookup_loop-insert_loop :
        (v : V) (c c' : Entries K V)
        → insert_loop k v c ≡ some c'
        → lookup_loop q c' ≡ (if key.compare_func k q then some v else lookup_loop q c)
    unfolding lookup_loop insert_loop
    lookup_loop-insert_loop v [] c' h = cc
    lookup_loop-insert_loop v (e ∷ c) c' h = elim (Option-cases (insert_loop k v c)) [
      | inl n ↦ ground (arith, compare_left e.0 k q)
      | inr (r, s) ↦
          ground
            (arith, compare_left e.0 k q, compare_right k q e.0, lookup_loop-insert_loop v c r s)
    ]

    pub lookup_loop-remove_loop :
        (v : V) (c c' : Entries K V)
        → remove_loop k c ≡ some (v, c')
        → matches q c ≤ 1
        → lookup_loop q c' ≡ (if key.compare_func k q then none else lookup_loop q c)
    unfolding lookup_loop remove_loop matches
    lookup_loop-remove_loop v [] c' h m = cc
    lookup_loop-remove_loop v (e ∷ c) c' h m = elim (Option-cases (remove_loop k c)) [
      | inl n ↦ ground (arith, compare_left e.0 k q, matches_zero q c)
      | inr ((w, r), s) ↦ ground (
        arith,
        compare_left e.0 k q,
        compare_right k q e.0,
        matches_zero q c,
        lookup_loop-remove_loop w c r s,
      )
    ]

    pub matches-insert_loop :
        (v : V) (c c' : Entries K V) → insert_loop k v c ≡ some c' → matches q c' ≡ matches q c
    unfolding insert_loop matches
    matches-insert_loop v [] c' h = cc
    matches-insert_loop v (e ∷ c) c' h = elim (Option-cases (insert_loop k v c)) [
      | inl n ↦ ground arith
      | inr (r, s) ↦ ground (arith, matches-insert_loop v c r s)
    ]

    pub matches-insert_loop-none :
        (v : V) (c : Entries K V)
        → insert_loop k v c ≡ none
        → key.compare_func k q ≡ true
        → matches q c ≡ 0
    unfolding insert_loop matches
    matches-insert_loop-none v [] h e = refl
    matches-insert_loop-none v (x ∷ c) h e = elim (Option-cases (insert_loop k v c)) [
      | inl n ↦ ground (arith, compare_right k q x.0, matches-insert_loop-none v c n)
      | inr (r, s) ↦ ground arith
    ]

    pub remove_loop-eq-none :
        (c : Entries K V)
        → remove_loop k c ≡ none
        → key.compare_func k q ≡ true
        → lookup_loop q c ≡ none
    unfolding remove_loop lookup_loop
    remove_loop-eq-none [] h e = refl
    remove_loop-eq-none (x ∷ c) h e = elim (Option-cases (remove_loop k c)) [
      | inl n ↦ ground (arith, compare_right k q x.0, remove_loop-eq-none c n)
      | inr (p, s) ↦ ground arith
    ]

  -- A removal takes at most one match of any key, and one of the key removed.
  pub matches-remove_loop_le :
      (k q : K) (v : V) (c c' : Entries K V)
      → remove_loop k c ≡ some (v, c')
      → matches q c' ≤ matches q c
  unfolding remove_loop matches
  matches-remove_loop_le k q v [] c' h = cc
  matches-remove_loop_le k q v (e ∷ c) c' h = elim (Option-cases (remove_loop k c)) [
    | inl n ↦ ground arith
    | inr ((w, r), s) ↦ ground (arith, matches-remove_loop_le k q w c r s)
  ]

  pub matches-remove_loop :
      (k : K) (v : V) (c c' : Entries K V)
      → remove_loop k c ≡ some (v, c')
      → matches k c ≡ matches k c' + 1
  unfolding remove_loop matches
  matches-remove_loop k v [] c' h = cc
  matches-remove_loop k v (e ∷ c) c' h = elim (Option-cases (remove_loop k c)) [
    | inl n ↦ ground arith
    | inr ((w, r), s) ↦ ground (arith, matches-remove_loop k w c r s)
  ]

  pub matches-remove_loop-none :
      (k : K) (c : Entries K V) → remove_loop k c ≡ none → matches k c ≡ 0
  unfolding remove_loop matches
  matches-remove_loop-none k [] h = refl
  matches-remove_loop-none k (e ∷ c) h = elim (Option-cases (remove_loop k c)) [
    | inl n ↦ ground (arith, matches-remove_loop-none k c n)
    | inr (p, s) ↦ ground arith
  ]

  -- `hash_table_remove` finds the value that `hash_table_lookup` finds.
  pub remove_loop_value :
      (k : K) (c : Entries K V)
      → Option.map (λ (p : V × Entries K V). p.0) (remove_loop k c) ≡ lookup_loop k c
  unfolding remove_loop lookup_loop
  remove_loop_value k [] = refl
  remove_loop_value k (e ∷ c) = elim (Option-cases (remove_loop k c)) [
    | inl n ↦ ground (arith, remove_loop_value k c)
    | inr (p, s) ↦ ground (arith, remove_loop_value k c)
  ]

  pub length-insert_loop :
      (k : K) (v : V) (c c' : Entries K V) → insert_loop k v c ≡ some c' → length c' ≡ length c
  unfolding insert_loop
  length-insert_loop k v [] c' h = cc
  length-insert_loop k v (e ∷ c) c' h = elim (Option-cases (insert_loop k v c)) [
    | inl n ↦ ground arith
    | inr (r, s) ↦ ground (arith, length-insert_loop k v c r s)
  ]

  pub length-remove_loop :
      (k : K) (v : V) (c c' : Entries K V)
      → remove_loop k c ≡ some (v, c')
      → length c ≡ length c' + 1
  unfolding remove_loop
  length-remove_loop k v [] c' h = cc
  length-remove_loop k v (e ∷ c) c' h = elim (Option-cases (remove_loop k c)) [
    | inl n ↦ ground arith
    | inr ((w, r), s) ↦ ground (arith, length-remove_loop k w c r s)
  ]
