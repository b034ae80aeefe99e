-- ===== src/HashTable.antt =====
-- src/hashtable.c: a table of 4096 chains over a caller's hash and comparison functions.
pub mod Chain
pub mod Map
pub mod Lawful
pub mod Count
use libplist.Prelude.{ℕ, zero, suc, ◌+◌, ◌%◌, ◌≡◌, Bool, true, List, [], ◌∷◌, ◌++◌}
use libplist.Prelude.{Option, none, some, ◌==◌, if◌then◌else◌, map}
use mathlib.Core.Option

-- `hash_func` and `compare_func`, two functions of the caller.
pub record Key {ℓ} (K : Type ℓ) : Type ℓ where
  pub hash_func : K → ℕ
  pub compare_func : K → K → Bool

-- The comparison is an equivalence.
pub record IsEquivalence {ℓ} {K : Type ℓ} (key : Key K) : Type ℓ where
  pub compare_refl : (a : K) → key.compare_func a a ≡ true
  pub compare_symm : (a b : K) → key.compare_func a b ≡ key.compare_func b a
  pub compare_trans :
      (a b c : K)
      → key.compare_func a b ≡ true
      → key.compare_func b c ≡ true
      → key.compare_func a c ≡ true

-- The entries that hang on one slot, in the order of their `next` pointers.
abbrev pub Entries {ℓ} : Type ℓ → Type ℓ → Type ℓ
Entries K V = List (K × V)

-- `entries` is read and written at indices below 4096 only. `has_free` says whether `free_func`
-- is set.
pub record Table {ℓ} (K V : Type ℓ) : Type ℓ where
  pub entries : ℕ → Entries K V
  pub count : ℕ
  pub has_free : Bool

abbrev pub table_size : ℕ
table_size = 4096

-- `ht->entries[i] = c`
abbrev pub write {ℓ} : {A : Type ℓ} → (ℕ → A) → ℕ → A → ℕ → A
write f i c j = if j == i then c else f j

unfoldable pub hash_table_new {ℓ} : {K V : Type ℓ} → Bool → Table K V
hash_table_new has_free = record { entries = λ _. []; count = 0; has_free = has_free }

-- `hash & 0xFFF`
unfoldable pub slot {ℓ} : {K : Type ℓ} ⦃key : Key K⦄ → K → ℕ
slot ⦃key⦄ k = key.hash_func k % table_size

module _ {ℓ} {K V : Type ℓ} ⦃key : Key K⦄ where
  -- The loop of `hash_table_lookup`.
  unfoldable pub lookup_loop : K → Entries K V → Option V
  lookup_loop k [] = none
  lookup_loop k (e ∷ c) = if key.compare_func e.0 k then some e.1 else lookup_loop k c

  -- The loop of `hash_table_insert`: the chain with the value replaced, if the key is there.
  unfoldable pub insert_loop : K → V → Entries K V → Option (Entries K V)
  insert_loop k v [] = none
  insert_loop k v (e ∷ c) =
      if key.compare_func e.0 k
      then some ((e.0, v) ∷ c)
      else Option.map (λ r. e ∷ r) (insert_loop k v c)

  -- The loop of `hash_table_remove`: the value of the entry unlinked and the chain without it.
  unfoldable pub remove_loop : K → Entries K V → Option (V × Entries K V)
  remove_loop k [] = none
  remove_loop k (e ∷ c) =
      if key.compare_func e.0 k
      then some (e.1, c)
      else Option.map (λ p. (p.0, e ∷ p.1)) (remove_loop k c)

  -- A NULL key is `none`.
  unfoldable pub hash_table_lookup : Table K V → Option K → Option V
  unfolding slot lookup_loop
  hash_table_lookup t none = none
  hash_table_lookup t (some k) = lookup_loop k (t.entries (slot k))

  unfoldable pub hash_table_insert : Table K V → Option K → V → Table K V
  unfolding slot insert_loop
  hash_table_insert t none v = t
  hash_table_insert t (some k) v =
      let idx0 = slot k in
      elim (insert_loop k v (t.entries idx0)) [
        | some c ↦ record t { entries = write t.entries idx0 c }
        | none ↦ record t {
          entries = write t.entries idx0 ((k, v) ∷ t.entries idx0);
          count = t.count + 1;
        }
      ]

  -- The table, and the values handed to `free_func`. `count` stays as it was.
  unfoldable pub hash_table_remove : Table K V → Option K → Table K V × List V
  unfolding slot remove_loop
  hash_table_remove t none = (t, [])
  hash_table_remove t (some k) =
      let idx0 = slot k in
      elim (remove_loop k (t.entries idx0)) [
        | some (v, c) ↦
            (record t { entries = write t.entries idx0 c }, if t.has_free then v ∷ [] else [])
        | none ↦ (t, [])
      ]

-- The values that `hash_table_destroy` hands to `free_func`, from slot `i` on, `n` slots.
unfoldable pub destroy_loop {ℓ} : {K V : Type ℓ} → (ℕ → Entries K V) → ℕ → ℕ → List V
destroy_loop entries i zero = []
destroy_loop entries i (suc n) = map (λ e. e.1) (entries i) ++ destroy_loop entries (i + 1) n

unfoldable pub hash_table_destroy {ℓ} : {K V : Type ℓ} → Table K V → List V
unfolding destroy_loop
hash_table_destroy t = if t.has_free then destroy_loop t.entries 0 table_size else []
