-- ===== src/HashTable/Count.antt =====
-- The field `count` against the number of entries in the chains, and what is freed at the end.
use libplist.Prelude.{ℕ, zero, suc, ◌+◌, ◌<◌, ◌≤◌, ◌≡◌, refl, Bool, true, false, [], ◌∷◌, arith}
use libplist.Prelude.{
  some, Option-cases, inl, inr, length, length-append, length-map, if◌then◌else◌, ap,
}
use native.Mathlib.Nat.{add-zero}
use native.Mathlib.Numerals.{add-one}
use libplist.HashTable.{Key, Entries, Table, slot, insert_loop, remove_loop, write, table_size}
use libplist.HashTable.{hash_table_lookup, hash_table_insert, hash_table_remove}
use libplist.HashTable.{destroy_loop, hash_table_destroy}
use libplist.HashTable.Chain.{length-insert_loop, length-remove_loop, remove_loop_value}

-- The entries on the slots below `n`.
unfoldable pub total {ℓ} : {K V : Type ℓ} → (ℕ → Entries K V) → ℕ → ℕ
total f zero = 0
total f (suc n) = total f n + length (f n)

unfoldable pub size {ℓ} : {K V : Type ℓ} → Table K V → ℕ
size t = total t.entries table_size

total-write_above :
    {K V : Type 0} (f : ℕ → Entries K V) (i n : ℕ) (c : Entries K V)
    → n ≤ i
    → total (write f i c) n ≡ total f n
unfolding total
total-write_above f i zero c h = refl
total-write_above f i (suc n) c h = ground (arith, total-write_above f i n c)

total-write :
    {K V : Type 0} (f : ℕ → Entries K V) (i n : ℕ) (c : Entries K V)
    → i < n
    → total (write f i c) n + length (f i) ≡ total f n + length c
unfolding total
total-write f i zero c h = absurd (omega arith)
total-write f i (suc n) c h = ground (arith, total-write f i n c, total-write_above f i n c)

slot-lt : {K : Type 0} ⦃key : Key K⦄ (k : K) → slot k < table_size
unfolding slot
slot-lt k = omega arith

total_0 : {K V : Type 0} (f : ℕ → Entries K V) → total f 0 ≡ 0
unfolding total
total_0 f = refl

length-destroy_loop :
    {K V : Type 0} (f : ℕ → Entries K V) (i n m : ℕ)
    → m ≡ i + n
    → length (destroy_loop f i n) + total f i ≡ total f m
unfolding destroy_loop total
length-destroy_loop f i zero m h = omega (arith, ap (total f) h, ap (total f) (add-zero i))
length-destroy_loop f i (suc n) m h =
    simp (length-append, length-map)
      (omega (arith, length-destroy_loop f (i + 1) n m (omega arith), ap (total f) (add-one i)))

length-freed :
    {K V : Type 0} (b : Bool) (f : ℕ → Entries K V) (n : ℕ)
    → b ≡ true
    → length (if b then destroy_loop f 0 n else []) ≡ total f n
length-freed true f n h = omega (arith, length-destroy_loop f 0 n n (omega arith), total_0 f)
length-freed false f n h = cc

-- Where free_func is set, hash_table_destroy passes it as many values as the table has entries.
pub length-hash_table_destroy :
    {K V : Type 0} (t : Table K V) → t.has_free ≡ true → length (hash_table_destroy t) ≡ size t
unfolding hash_table_destroy size
length-hash_table_destroy t h = length-freed t.has_free t.entries table_size h

module _ {K V : Type 0} ⦃key : Key K⦄ where
  -- An insertion keeps the field count equal to the number of entries in the chains.
  pub count-insert :
      (t : Table K V) (k : K) (v : V)
      → t.count ≡ size t
      → (hash_table_insert t (some k) v).count ≡ size (hash_table_insert t (some k) v)
  unfolding hash_table_insert size
  count-insert t k v h =
      let old = t.entries (slot k) in
      elim (Option-cases (insert_loop k v old)) [
        | inl n ↦
            rw (n, hash_table_insert)
              (omega (arith, total-write t.entries (slot k) 4096 ((k, v) ∷ old) (slot-lt k)))
        | inr (c, s) ↦
            rw (s, hash_table_insert)
              (omega (
                arith,
                length-insert_loop k v old c s,
                total-write t.entries (slot k) 4096 c (slot-lt k),
              ))
      ]

  -- A removal of a key that is found leaves one entry less in the chains, and the field count as it
  -- was.
  pub count-remove :
      (t : Table K V) (k : K) (v : V)
      → hash_table_lookup t (some k) ≡ some v
      → ((hash_table_remove t (some k)).0.count ≡ t.count)
        × (size (hash_table_remove t (some k)).0 + 1 ≡ size t)
  unfolding hash_table_remove hash_table_lookup size
  count-remove t k v h =
      let old = t.entries (slot k) in
      elim (Option-cases (remove_loop k old)) [
        | inl n ↦ absurd (cc (n, remove_loop_value k old))
        | inr ((w, c), s) ↦
            rw (s, hash_table_remove)
              (omega (
                arith,
                length-remove_loop k w old c s,
                total-write t.entries (slot k) 4096 c (slot-lt k),
              ))
      ]
