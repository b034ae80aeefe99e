-- ===== src/Bplist/Serialize/Entered.antt =====
-- `serialize_plist` on any nodes, cycles included: it ends, it stays inside the object list, and
-- what it enters in the reference table are indices of that list.
use libplist.Prelude.{
  ℕ, zero, suc, ◌+◌, ◌<◌, ◌≤◌, ◌≡◌, refl, sym, subst, ◌∙◌, arith, Bool, ◌==◌, ◌||◌, ◌&&◌,
}
use libplist.Prelude.{All, All-append, All-mono}
use libplist.Prelude.{true, false, List, [], ◌∷◌, ◌++◌, none, some, length, length-append}
use libplist.Prelude.{ltb, if◌then◌else◌, Bool-cases, if_intro, Option-cases, inl, inr}
use libplist.PtrArray.{PtrArray, ptr_array_new, ptr_array_size}
use libplist.PtrArray.Cells.{Models, new-Models}
use libplist.PtrArray.Operations.{ptr_array_add-Returns}
use libplist.Run.{Run, Ensures, returns, Ensures-bind}
use libplist.HashTable.{slot, lookup_loop, hash_table_new, hash_table_lookup, hash_table_insert}
use libplist.HashTable.Map.{lookup-insert, lookup_congr}
use libplist.Bplist.Node.{PlistErr, success}
use libplist.Bplist.Parse.{max_nesting_depth}
use libplist.Bplist.Serialize.Equal.{compare_refl, data_key-IsEquivalence}
use libplist.Bplist.Serialize.{
  Heap, Serialize, Serializer, serialize_new, serialize_node, serialize_plist, serialize_root,
  ptr_key, data_key, plist_data_compare,
}
use libplist.Bplist.Serialize.Grown.{
  ref_of, IsValid, Grows, HasRef, Entered, Closed, After, Serializes, HasRef-grow,
  serialize_children-Ensures,
}

module _ (m : Heap) where
  -- A node entered in the reference table takes the place of these.
  abbrev replaces : ℕ → ℕ → Bool
  replaces node n =
      plist_data_compare m node n && slot ⦃key = data_key m⦄ node == slot ⦃key = data_key m⦄ n

  module _ (node : ℕ) (ser : Serialize) (v : IsValid m ser) where
    -- The tables when the loop over the children begins.
    abbrev started : PtrArray ℕ → Serialize
    started objects = record {
      objects = objects;
      ref_table =
          hash_table_insert ⦃key = data_key m⦄ ser.ref_table (some node)
            (ptr_array_size ser.objects);
      in_stack = hash_table_insert ⦃key = ptr_key⦄ ser.in_stack (some node) true;
    }

    module _ (objects : PtrArray ℕ) (listed : Models (v.nodes ++ (node ∷ [])) objects) where
      ref_of-started :
          (n : ℕ)
          → ref_of m (started objects) n
            ≡ (if replaces node n then some ser.objects.len else ref_of m ser n)
      unfolding ptr_array_size
      ref_of-started n =
          lookup-insert ⦃key = data_key m⦄ ⦃eq = data_key-IsEquivalence m⦄ ser.ref_table node n
            ser.objects.len

      inside_started :
          (n index : ℕ)
          → (if replaces node n then some ser.objects.len else ref_of m ser n) ≡ some index
          → index < length (v.nodes ++ (node ∷ []))
      inside_started n index e = elim (Bool-cases (replaces node n)) [
        | inl c ↦
            let same : ser.objects.len ≡ index = cc in
            omega (arith, v.listed.counted, length-append v.nodes (node ∷ []))
        | inr c ↦
            let old : ref_of m ser n ≡ some index = cc in
            omega (arith, v.inside n index old, length-append v.nodes (node ∷ []))
      ]

      started-IsValid : IsValid m (started objects)
      started-IsValid = record {
        nodes = v.nodes ++ (node ∷ []);
        listed = listed;
        inside = λ n index e. inside_started n index (sym (ref_of-started n) ∙ e);
      }

      started-Grows : ref_of m ser node ≡ none → Grows m ser (started objects)
      started-Grows absent n index e = elim (Bool-cases (replaces node n)) [
        | inl c ↦
            let near : plist_data_compare m node n ≡ true = ground arith in
            let on_slot : slot ⦃key = data_key m⦄ node ≡ slot ⦃key = data_key m⦄ n = ground arith in
            let same =
              lookup_congr ⦃key = data_key m⦄ ⦃eq = data_key-IsEquivalence m⦄ ser.ref_table node n
                near on_slot in
            let bad : none ≡ some index = sym absent ∙ same ∙ e in cc
        | inr c ↦ ref_of-started n ∙ rw c e
      ]

      started-Entered : ref_of m (started objects) node ≡ some ser.objects.len
      started-Entered = let near = compare_refl m node in ref_of-started node ∙ ground (arith, near)

    -- While the loop runs, the node is pending.
    abbrev and_this : (ℕ → Bool) → ℕ → Bool
    and_this pending a = a == node || pending a

    started-Closed :
        (pending : ℕ → Bool) (objects : PtrArray ℕ)
        → Models (v.nodes ++ (node ∷ [])) objects
        → ref_of m ser node ≡ none
        → Closed m pending ser v.nodes
        → Closed m (and_this pending) (started objects) (v.nodes ++ (node ∷ []))
    started-Closed pending objects listed absent c =
        All-append _ v.nodes (node ∷ [])
          (All-mono v.nodes
            (λ a p. elim p [
              | inl waits ↦ inl (ground (arith, waits))
              | inr refs ↦ inr (
                  All-mono (m.children a)
                    (HasRef-grow m ser (started objects) (started-Grows objects listed absent))
                    refs)
            ])
            c)
          (inl (ground arith), _)

    -- The node's children are entered, so it is pending no longer.
    settle :
        (pending : ℕ → Bool) (ser' : Serialize) (nodes : List ℕ)
        → Closed m (and_this pending) ser' nodes
        → All (HasRef m ser') (m.children node)
        → Closed m pending ser' nodes
    settle pending ser' nodes c refs =
        All-mono nodes
          (λ a p. elim p [
            | inr there ↦ inr there
            | inl waits ↦ elim (Bool-cases (a == node)) [
              | inl e ↦
                  let same : node ≡ a = ground arith in
                  inr (subst (λ b. All (HasRef m ser') (m.children b)) same refs)
              | inr e ↦ inl (ground (arith, waits, e))
            ]
          ])
          c

    serialize_new-Ensures :
        (self : Serializer m) (depth : ℕ) (pending : ℕ → Bool)
        → Serializes m self (depth + 1)
        → ref_of m ser node ≡ none
        → Closed m pending ser v.nodes
        → Ensures
            (λ q. After m pending ser q × Entered m node q)
            (serialize_new m self node ser depth)
    unfolding serialize_new started-IsValid
    serialize_new-Ensures self depth pending h absent c =
        let (objects, e, listed) = ptr_array_add-Returns v.nodes ser.objects node v.listed in
        rw e (
          Ensures-bind
            (serialize_children-Ensures m self depth h (and_this pending) (m.children node)
              (started objects) (started-IsValid objects listed)
              (started-Closed pending objects listed absent c))
            (λ q t.
              let ((v', g, closed), refs) = t in
              let at : ref_of m q.1 node ≡ some ser.objects.len =
                g node ser.objects.len (started-Entered objects listed) in
              returns _ refl (
                (
                  record { nodes = v'.nodes; listed = v'.listed; inside = v'.inside },
                  λ n i k. g n i (started-Grows objects listed absent n i k),
                  λ done. settle pending q.1 v'.nodes (closed done) (refs done),
                ),
                λ done. (ser.objects.len, at),
              )))

    serialize_node-Ensures :
        (self : Serializer m) (depth : ℕ) (pending : ℕ → Bool)
        → (depth ≤ max_nesting_depth → Serializes m self (depth + 1))
        → Closed m pending ser v.nodes
        → Ensures
            (λ q. After m pending ser q × Entered m node q)
            (serialize_node m self node ser depth)
    unfolding serialize_node
    serialize_node-Ensures self depth pending h c =
        let After_entered : Run (PlistErr × Serialize) → Type 0 =
          Ensures (λ q. After m pending ser q × Entered m node q) in
        if_intro After_entered (ltb max_nesting_depth depth)
          (λ e. returns _ refl ((v, λ n i k. k, λ _. c), λ bad. cc))
          (λ e. elim (Option-cases (hash_table_lookup ⦃key = ptr_key⦄ ser.in_stack (some node))) [
            | inr (a, there) ↦ rw there (returns _ refl ((v, λ n i k. k, λ _. c), λ bad. cc))
            | inl clear ↦ rw clear (elim (Option-cases (ref_of m ser node)) [
              | inr (index, known) ↦
                  rw known (returns _ refl ((v, λ n i k. k, λ _. c), λ done. (index, known)))
              | inl absent ↦
                  rw absent (serialize_new-Ensures self depth pending (h (ground arith)) absent c)
            ])
          ])

  -- The fuel that is left covers the nesting that is left.
  serialize_plist-Serializes :
      (fuel depth : ℕ)
      → max_nesting_depth + 2 ≤ fuel + depth
      → depth ≤ max_nesting_depth + 1
      → Serializes m (serialize_plist m fuel) depth
  unfolding serialize_plist
  serialize_plist-Serializes zero depth enough deep pending node ser v c = absurd (omega arith)
  serialize_plist-Serializes (suc fuel) depth enough deep pending node ser v c =
      serialize_node-Ensures node ser v (serialize_plist m fuel) depth pending
        (λ low. serialize_plist-Serializes fuel (depth + 1) (omega arith) (omega arith)) c

  -- serialize_plist, called on a root with empty tables as plist_to_bin calls it, with
  -- plist_data_hash and plist_data_compare for the nodes, always returns, on cyclic nodes too, and
  -- stays inside the object list; all indices in the reference table are then below the length of
  -- the list, and on success the root has one and so have the children of all listed nodes.
  pub serialize_root-Ensures :
      (root : ℕ)
      → Ensures
          (λ q.
            Entered m root q
            × (v : IsValid m q.1) × (q.0 ≡ success
                → All (λ a. All (HasRef m q.1) (m.children a)) v.nodes))
          (serialize_root m root)
  unfolding serialize_root hash_table_new hash_table_lookup lookup_loop
  serialize_root-Ensures root =
      let empty : Serialize = record {
        objects = ptr_array_new 4096;
        ref_table = hash_table_new true;
        in_stack = hash_table_new false;
      } in
      let start : IsValid m empty = record {
        nodes = [];
        listed = new-Models 4096 (omega arith);
        inside = λ n i e. cc;
      } in
      elim (serialize_plist-Serializes (max_nesting_depth + 2) 0 (omega arith) (omega arith)
        (λ _. false) root empty start _) [
          | returns q e ((v, _, c), entered) ↦ returns q e (
            entered,
            v,
            λ done. All-mono v.nodes (λ a p. elim p [ inl f ↦ absurd (cc f) | inr r ↦ r ]) (c done),
          )
        ]
