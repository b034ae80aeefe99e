-- ===== src/Bplist/Serialize/Grown.antt =====
-- What `serialize_plist` keeps of its tables, and the loop over the children.
use libplist.Prelude.{ℕ, ◌+◌, ◌<◌, ◌≡◌, refl, ◌≢◌, ◌⊎◌, Bool}
use libplist.Prelude.{All}
use libplist.Prelude.{true, List, [], ◌∷◌, Option, some, length}
use libplist.PtrArray.Cells.{Models}
use libplist.Run.{Ensures, returns, Ensures-bind, Ensures-map}
use libplist.HashTable.{hash_table_lookup}
use libplist.Bplist.Node.{PlistErr, success, invalid_arg, parse, no_mem, circular_ref, max_nesting}
use libplist.Bplist.Serialize.Equal.{data_key-IsEquivalence}
use libplist.Bplist.Serialize.{
  Heap, Serialize, Serializer, serialize_children, on_success, data_key,
}

-- A property of both continuations.
pub on_success_intro {ℓ κ} :
    {A : Type ℓ} (P : A → Type κ) (e : PlistErr) {a b : A}
    → (e ≡ success → P a)
    → (e ≢ success → P b)
    → P (on_success e a b)
unfolding on_success
on_success_intro P success x y = x refl
on_success_intro P invalid_arg x y = y (λ e. cc)
on_success_intro P parse x y = y (λ e. cc)
on_success_intro P no_mem x y = y (λ e. cc)
on_success_intro P circular_ref x y = y (λ e. cc)
on_success_intro P max_nesting x y = y (λ e. cc)

module _ (m : Heap) where
  -- The index that the reference table has for a node.
  abbrev pub ref_of : Serialize → ℕ → Option ℕ
  ref_of ser node = hash_table_lookup ⦃key = data_key m⦄ ser.ref_table (some node)

  -- The object list holds some nodes, and the table has indices into it only.
  pub record IsValid (ser : Serialize) : Type 0 where
    pub nodes : List ℕ
    pub listed : Models nodes ser.objects
    pub inside : (node index : ℕ) → ref_of ser node ≡ some index → index < length nodes

  -- What was in the table stays there.
  abbrev pub Grows : Serialize → Serialize → Type 0
  Grows ser ser' = (node index : ℕ) → ref_of ser node ≡ some index → ref_of ser' node ≡ some index

  -- The table has an index for the node.
  abbrev pub HasRef : Serialize → ℕ → Type 0
  HasRef ser node = (index : ℕ) × (ref_of ser node ≡ some index)

  -- A call that reports success has entered the node.
  abbrev pub Entered : ℕ → PlistErr × Serialize → Type 0
  Entered node q = q.0 ≡ success → HasRef q.1 node

  -- The children of the listed nodes are in the table, other than those of pending nodes.
  abbrev pub Closed : (ℕ → Bool) → Serialize → List ℕ → Type 0
  Closed pending ser nodes = All (λ a. (pending a ≡ true) ⊎ All (HasRef ser) (m.children a)) nodes

  abbrev pub After : (ℕ → Bool) → Serialize → PlistErr × Serialize → Type 0
  After pending ser q =
      (v : IsValid q.1) × Grows ser q.1 × (q.0 ≡ success → Closed pending q.1 v.nodes)

  abbrev pub Serializes : Serializer m → ℕ → Type 0
  Serializes self depth =
      (pending : ℕ → Bool) (node : ℕ) (ser : Serialize) (v : IsValid ser)
      → Closed pending ser v.nodes
      → Ensures (λ q. After pending ser q × Entered node q) (self node ser depth)

  pub HasRef-grow : (ser ser' : Serialize) → Grows ser ser' → (a : ℕ) → HasRef ser a → HasRef ser' a
  HasRef-grow ser ser' g a (i, e) = (i, g a i e)

  -- The loop has entered all children, if it reports success.
  abbrev pub Looped : (ℕ → Bool) → Serialize → List ℕ → PlistErr × Serialize → Type 0
  Looped pending ser nodes q = After pending ser q × (q.0 ≡ success → All (HasRef q.1) nodes)

  pub Looped-cons :
      (pending : ℕ → Bool) (ser : Serialize) (ch : ℕ) (r : List ℕ) (q : PlistErr × Serialize)
      → After pending ser q
      → HasRef q.1 ch
      → (p : PlistErr × Serialize) → Looped pending q.1 r p
      → Looped pending ser (ch ∷ r) p
  Looped-cons pending ser ch r q (v, g, c) there p ((v', g', c'), all) =
      ((v', λ n i h. g' n i (g n i h), c'), λ done. (HasRef-grow q.1 p.1 g' ch there, all done))

  pub serialize_children-Ensures :
      (self : Serializer m) (depth : ℕ)
      → Serializes self (depth + 1)
      → (pending : ℕ → Bool) (nodes : List ℕ) (ser : Serialize) (v : IsValid ser)
      → Closed pending ser v.nodes
      → Ensures (Looped pending ser nodes) (serialize_children m self nodes ser depth)
  unfolding serialize_children
  serialize_children-Ensures self depth h pending [] ser v c =
      returns _ refl ((v, λ n i e. e, λ _. c), λ _. _)
  serialize_children-Ensures self depth h pending (ch ∷ r) ser v c =
      Ensures-bind (h pending ch ser v c) (λ q t.
        on_success_intro (Ensures (Looped pending ser (ch ∷ r))) q.0
          (λ done.
            Ensures-map (serialize_children-Ensures self depth h pending r q.1 t.0.0 (t.0.2 done))
              (Looped-cons pending ser ch r q t.0 (t.1 done)))
          (λ failed. returns q refl (t.0, λ done. absurd (failed done))))
