-- ===== src/Plist/Array/Laws.antt =====
-- The array operations on a node whose children are a list: what the list is afterwards, and that
-- the lookup array keeps agreeing with it.
use libplist.Prelude.{ℕ, ◌<◌, ◌≡◌, refl, sym, subst, ◌∙◌, arith, true}
use libplist.Prelude.{List, [], ◌∷◌, ◌++◌, append_assoc, append-nil, none, some, ℤ, negsuc}
use libplist.Prelude.{ltb, ◌==◌, if_intro, Option-cases, inl, inr, length, get_elem?}
use libplist.PtrArray.{PtrArray, ptr_array_new}
use libplist.PtrArray.Cells.{Models, new-Models, insert_at}
use libplist.PtrArray.Operations.{
  position, insert_at-end, ptr_array_add-Returns, ptr_array_insert-Returns, ptr_array_index_lem,
}
use libplist.Run.{Ensures, returns, Ensures-bind}
use libplist.Plist.Nodes.{NodeLib, IsNodeLib, Store, int_max, is_array, node_n_children}
use libplist.Plist.Array.{
  add_children, plist_array_get_item, set_array_cache, new_lookup_array, plist_array_post_insert,
  accepts, plist_array_append_item,
}

pub add_children-Models :
    (xs ys : List ℕ) (pa : PtrArray ℕ)
    → Models xs pa
    → Ensures (Models (xs ++ ys)) (add_children pa ys)
unfolding add_children
add_children-Models xs [] pa m = returns pa refl (rw (append-nil xs) m)
add_children-Models xs (y ∷ ys) pa m =
    let (pa', e, m') = ptr_array_add-Returns xs pa y m in
    rw (e, sym (append_assoc xs (y ∷ []) ys)) (add_children-Models (xs ++ (y ∷ [])) ys pa' m')

module _ (lib : NodeLib) (node : ℕ) where
  -- The node is an array whose children are `xs`, and so is its lookup array, if it has one.
  pub record IsArray (xs : List ℕ) (s : Store lib) : Type 0 where
    pub kind : is_array (s.data_of node).kind ≡ true
    pub listed : lib.children s.mem node ≡ xs
    pub cached : (pa : PtrArray ℕ) → s.array_cache node ≡ some pa → Models xs pa

  -- The state with a new tree, before the cache follows.
  abbrev pub Moved : List ℕ → List ℕ → Store lib → Type 0
  Moved xs ys s =
      (is_array (s.data_of node).kind ≡ true)
      × (lib.children s.mem node ≡ ys)
      × ((pa : PtrArray ℕ) → s.array_cache node ≡ some pa → Models xs pa)

  pub set_array_cache-Models :
      (ys : List ℕ) (s : Store lib) (pa pa' : PtrArray ℕ)
      → Models ys pa
      → (set_array_cache lib s node pa).array_cache node ≡ some pa'
      → Models ys pa'
  set_array_cache-Models ys s pa pa' m e =
      let same : (node == node) ≡ true = ground arith in
      let stored : some pa ≡ some pa' = rw same at e in
      let kept : pa ≡ pa' = cc in subst (Models ys) kept m

  pub cache-IsArray :
      (xs ys : List ℕ) (s : Store lib) (pa : PtrArray ℕ)
      → Moved xs ys s
      → Models ys pa
      → IsArray ys (set_array_cache lib s node pa)
  cache-IsArray xs ys s pa (k, l, c) m = record {
    kind = k;
    listed = l;
    cached = λ pa' e. set_array_cache-Models ys s pa pa' m e;
  }

  pub uncached :
      (xs ys : List ℕ) (s : Store lib) → Moved xs ys s → s.array_cache node ≡ none → IsArray ys s
  uncached xs ys s (k, l, c) e = record {
    kind = k;
    listed = l;
    cached = λ pa e'. let bad : none ≡ some pa = sym e ∙ e' in cc;
  }

  new_lookup_array-Ensures :
      (xs ys : List ℕ) (s : Store lib)
      → Moved xs ys s
      → s.array_cache node ≡ none
      → Ensures (IsArray ys) (new_lookup_array lib s node)
  unfolding new_lookup_array
  new_lookup_array-Ensures xs ys s (k, l, c) e =
      if_intro (Ensures (IsArray ys)) (ltb 100 (node_n_children lib s node))
        (λ _.
          Ensures-bind
            (rw l (add_children-Models [] ys (ptr_array_new 128) (new-Models 128 (omega arith))))
            (λ pa m. returns _ refl (cache-IsArray xs ys s pa (k, l, c) m)))
        (λ _. returns s refl (uncached xs ys s (k, l, c) e))

  post_insert-Ensures :
      (xs : List ℕ) (s : Store lib) (item : ℕ) (n : ℤ)
      → Moved xs (insert_at (position xs n) item xs) s
      → Ensures
          (IsArray (insert_at (position xs n) item xs))
          (plist_array_post_insert lib s node item n)
  unfolding plist_array_post_insert
  post_insert-Ensures xs s item n v = elim (Option-cases (s.array_cache node)) [
    | inl e ↦
        rw (plist_array_post_insert, e)
          (new_lookup_array-Ensures xs (insert_at (position xs n) item xs) s v e)
    | inr (pa, e) ↦
        let (pa', e', m) = ptr_array_insert-Returns xs pa item n (v.2 pa e) in
        rw (plist_array_post_insert, e, e') (returns _ refl (cache-IsArray xs _ s pa' v m))
  ]

  plain : (xs : List ℕ) (s : Store lib) → IsArray xs s → Moved xs xs s
  plain xs s a = (a.kind, a.listed, a.cached)

  module _ (laws : IsNodeLib lib) (xs : List ℕ) (s : Store lib) (a : IsArray xs s) where
    -- On an array whose children are a list, with a lookup array that agrees or without one,
    -- plist_array_get_item reads the list, and gives NULL behind its end, for an index below
    -- INT_MAX and a tree library that behaves as documented.
    pub plist_array_get_item_lem :
        (n : ℕ) → n < int_max → plist_array_get_item lib s node n ≡ get_elem? xs n
    unfolding plist_array_get_item
    plist_array_get_item_lem n h =
        let low : ltb n int_max ≡ true = ground arith in
        elim (Option-cases (s.array_cache node)) [
          | inl e ↦ rw (a.kind, low, plist_array_get_item, e, laws.nth s.mem node n, a.listed)
          | inr (pa, e) ↦
              rw (a.kind, low, plist_array_get_item, e, ptr_array_index_lem xs pa n (a.cached pa e))
        ]

    -- On an array whose children are a list, plist_array_append_item of an item without a parent
    -- adds it at the end, or changes nothing if the tree library refuses it; the lookup array
    -- agrees with the children afterwards, also where it is made anew, and no write leaves its
    -- block; for a tree library that behaves as documented.
    pub plist_array_append_item-Ensures :
        (item : ℕ)
        → lib.parent s.mem item ≡ none
        → Ensures
            (IsArray
              (elim (lib.node_attach s.mem node item) [ none ↦ xs | some _ ↦ xs ++ (item ∷ []) ]))
            (plist_array_append_item lib s node item)
    unfolding plist_array_append_item accepts
    plist_array_append_item-Ensures item free =
        elim (Option-cases (lib.node_attach s.mem node item)) [
          | inl e ↦ rw (plist_array_append_item, accepts, a.kind, free, e) (returns s refl a)
          | inr (mem, e) ↦
              let end = insert_at-end item (length xs) xs (omega arith) in
              let grown : lib.children mem node ≡ xs ++ (item ∷ []) =
                rw (laws.attached s.mem mem node item e, a.listed) in
              rw (plist_array_append_item, accepts, a.kind, free, e)
                (rw end at (
                  post_insert-Ensures xs (record s { mem = mem }) item (negsuc 0)
                    (a.kind, grown ∙ sym end, a.cached)))
        ]
