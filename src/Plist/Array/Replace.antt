-- ===== src/Plist/Array/Replace.antt =====
-- Replacing and removing items of an array.
use libplist.Prelude.{ℕ, ◌<◌, ◌≡◌, ◌≢◌, refl, sym, ap, subst, ◌∙◌, arith, true, false}
use libplist.Prelude.{List, [], none, some, pos}
use libplist.Prelude.{
  ltb, leb, Bool-cases, if_intro, Option-cases, inl, inr, length, get_elem?, set, get_elem?_beyond,
  get_elem?-inside,
}
use libplist.PtrArray.{ptr_array_new}
use libplist.PtrArray.Cells.{Models, new-Models, insert_at, remove_at}
use libplist.PtrArray.Operations.{removed, ptr_array_set-Returns, ptr_array_remove-Returns}
use libplist.Run.{Run, ok, Ensures, returns, Ensures-bind, Ensures-map, ◌>>=◌}
use libplist.Plist.Nodes.{NodeLib, IsNodeLib, Store, int_max, plist_free, node_n_children}
use libplist.Plist.Children.{insert_at-remove_at, set_present, set-set, present-lt, free_orphan}
use libplist.Plist.Array.{
  add_children, plist_array_get_item, plist_array_post_set, accepts, replace_item,
  plist_array_set_item, uncache_item, plist_array_remove_item, plist_array_item_remove,
}
use libplist.Plist.Array.Laws.{
  IsArray, Moved, set_array_cache-Models, cache-IsArray, uncached, add_children-Models,
  plist_array_get_item_lem,
}

module _ (lib : NodeLib) (node : ℕ) where
  -- The list of an array, and the same tree as before.
  abbrev Settles : List ℕ → Store lib → Run (Store lib) → Type 0
  Settles ys s r = Ensures (λ s'. IsArray lib node ys s' × (s'.mem ≡ s.mem)) r

  post_set-Ensures :
      (xs : List ℕ) (s : Store lib) (item n : ℕ)
      → n < length xs
      → Moved lib node xs (set xs n item) s
      → Settles (set xs n item) s (plist_array_post_set lib s node item n)
  unfolding plist_array_post_set
  post_set-Ensures xs s item n h v = elim (Option-cases (s.array_cache node)) [
    | inr (pa, e) ↦
        let m = v.2 pa e in
        let (pa', e', m') = ptr_array_set-Returns xs pa item n m in
        let low : leb pa.len n ≡ false = ground (arith, m.counted) in
        rw (plist_array_post_set, e, low, e')
          (returns _ refl (cache-IsArray lib node xs _ s pa' v m', refl))
    | inl e ↦
        rw (plist_array_post_set, e)
          (let filled : Ensures (Models (set xs n item))
                (add_children (ptr_array_new 128) (lib.children s.mem node)) =
              rw v.1 (
                add_children-Models [] (set xs n item) (ptr_array_new 128)
                  (new-Models 128 (omega arith))) in
            if_intro (Settles (set xs n item) s) (ltb 100 (node_n_children lib s node))
              (λ _. Ensures-bind filled (λ pa m.
                let (pa', e', m') = ptr_array_set-Returns (set xs n item) pa item n m in
                rw e' (
                  returns _ refl (
                    cache-IsArray lib node xs _ s pa' v
                        (subst (λ l. Models l pa') (set-set n item xs) m'),
                    refl,
                  ))))
              (λ _. returns s refl (uncached lib node xs _ s v e, refl)))
  ]

  module _ (laws : IsNodeLib lib) (xs : List ℕ) (s : Store lib) (a : IsArray lib node xs s) where
    detached_item :
        (n old_item : ℕ) (mem : lib.Mem)
        → get_elem? xs n ≡ some old_item
        → lib.node_detach s.mem node old_item ≡ some (n, mem)
        → (lib.children mem node ≡ remove_at n xs)
          × (lib.parent mem old_item ≡ none)
          × ((back : lib.Mem) × (lib.node_insert mem node n old_item ≡ some back))
    detached_item n old_item mem there gone =
        let child : get_elem? (lib.children s.mem node) n ≡ some old_item = rw a.listed there in
        let (mem', e, left, orphan, back) = laws.detached s.mem node n old_item child in
        let same : mem' ≡ mem = cc in
        subst
          (λ m.
            (lib.children m node ≡ remove_at n xs)
            × (lib.parent m old_item ≡ none)
            × ((b : lib.Mem) × (lib.node_insert m node n old_item ≡ some b)))
          same (left ∙ ap (remove_at n) a.listed, orphan, back)

    replace_item-Ensures :
        (item n old_item : ℕ) (mem : lib.Mem)
        → lib.parent s.mem item ≡ none
        → get_elem? xs n ≡ some old_item
        → lib.node_detach s.mem node old_item ≡ some (n, mem)
        → Ensures
            (IsArray lib node
              (elim (lib.node_insert mem node n item) [ none ↦ xs | some _ ↦ set xs n item ]))
            (replace_item lib s node item old_item n mem)
    unfolding replace_item
    replace_item-Ensures item n old_item mem free there gone =
        let (left, orphan, (back, put_back)) = detached_item n old_item mem there gone in
        let inside = present-lt xs n old_item there in
        let rejoined : (c : ℕ) → insert_at n c (lib.children mem node) ≡ set xs n c =
          λ c. rw left (insert_at-remove_at n c xs inside) in
        elim (Option-cases (lib.node_insert mem node n item)) [
          | inl e ↦
              let whole = set_present n old_item xs there in
              let moved : Moved lib node xs (set xs n old_item) (record s { mem = back }) = (
                a.kind,
                (laws.inserted mem back node n old_item put_back).0 ∙ rejoined old_item,
                a.cached,
              ) in
              rw (replace_item, e, put_back)
                (Ensures-map (post_set-Ensures xs (record s { mem = back }) old_item n inside moved)
                  (λ s' t. subst (λ l. IsArray lib node l s') whole t.0))
          | inr (mem', e) ↦
              let moved : Moved lib node xs (set xs n item) (record s { mem = mem' }) =
                (a.kind, (laws.inserted mem mem' node n item e).0 ∙ rejoined item, a.cached) in
              let differ : old_item ≢ item =
                λ same. let below = laws.below s.mem node n old_item (rw a.listed there) in cc in
              let alone : lib.parent mem' old_item ≡ none =
                (laws.inserted mem mem' node n item e).1 old_item differ ∙ orphan in
              rw (replace_item, e)
                (Ensures-bind (post_set-Ensures xs (record s { mem = mem' }) item n inside moved)
                  (λ s' t.
                    let unowned : lib.parent s'.mem old_item ≡ none = rw t.1 alone in
                    returns s' (ap ok (free_orphan lib s' old_item unowned)) t.0))
        ]

    -- On an array whose children are a list, plist_array_set_item of an item without a parent
    -- replaces the item at an index in range below INT_MAX, and if the tree library refuses the new
    -- item, the old one is put back; the lookup array agrees with the children afterwards; for a
    -- tree library that behaves as documented.
    pub plist_array_set_item-Ensures :
        (item n old_item : ℕ) (mem : lib.Mem)
        → lib.parent s.mem item ≡ none
        → n < int_max
        → get_elem? xs n ≡ some old_item
        → lib.node_detach s.mem node old_item ≡ some (n, mem)
        → Ensures
            (IsArray lib node
              (elim (lib.node_insert mem node n item) [ none ↦ xs | some _ ↦ set xs n item ]))
            (plist_array_set_item lib s node item n)
    unfolding plist_array_set_item accepts
    plist_array_set_item-Ensures item n old_item mem free h there gone =
        let low : ltb n int_max ≡ true = ground arith in
        let found : plist_array_get_item lib s node n ≡ some old_item =
          plist_array_get_item_lem lib node laws xs s a n h ∙ there in
        rw (plist_array_set_item, accepts, a.kind, free, low, found, gone)
          (replace_item-Ensures item n old_item mem free there gone)

    -- The cache follows a removal, before the tree does.
    uncache_item-Ensures :
        (n : ℕ)
        → Ensures
            (λ s'. (s'.mem ≡ s.mem) × Moved lib node (removed xs (pos n)) xs s')
            (uncache_item lib s node n)
    unfolding uncache_item
    uncache_item-Ensures n = elim (Option-cases (s.array_cache node)) [
      | inl e ↦
          rw (uncache_item, e)
            (returns s refl
              (refl, (a.kind, a.listed, λ pa e'. let bad : none ≡ some pa = sym e ∙ e' in cc)))
      | inr (pa, e) ↦
          let (pa', e', m) = ptr_array_remove-Returns xs pa (pos n) (a.cached pa e) in
          rw (uncache_item, e, e')
            (returns _ refl
              (refl, (a.kind, a.listed, λ q k. set_array_cache-Models lib node _ s pa' q m k)))
    ]

    -- The item at index `n` leaves the cache and the tree.
    dropped :
        (n c : ℕ)
        → get_elem? xs n ≡ some c
        → Ensures
            (IsArray lib node (remove_at n xs))
            (uncache_item lib s node n >>= λ s'. ok (plist_free lib s' c))
    unfolding plist_free
    dropped n c there =
        let child : get_elem? (lib.children s.mem node) n ≡ some c = rw a.listed there in
        let below = laws.below s.mem node n c child in
        let (mem, e, left, orphan, back) = laws.detached s.mem node n c child in
        let inside : leb (length xs) n ≡ false = ground (arith, present-lt xs n c there) in
        Ensures-bind (uncache_item-Ensures n) (λ s' t.
          returns (record s' { mem = mem }) (rw (plist_free, t.0, below, t.0, e))
            (record {
              kind = t.1.0;
              listed = left ∙ ap (remove_at n) a.listed;
              cached = rw inside at t.1.2;
            }))

    -- On an array whose children are a list, plist_array_remove_item takes out the item at an index
    -- in range, and changes nothing for a larger index below INT_MAX, where the documentation says
    -- that it asserts; the lookup array agrees with the children afterwards; for a tree library
    -- that behaves as documented.
    pub plist_array_remove_item-Ensures :
        (n : ℕ)
        → n < int_max
        → Ensures (IsArray lib node (removed xs (pos n))) (plist_array_remove_item lib s node n)
    unfolding plist_array_remove_item
    plist_array_remove_item-Ensures n h =
        let low : ltb n int_max ≡ true = ground arith in
        let item = plist_array_get_item_lem lib node laws xs s a n h in
        elim (Bool-cases (leb (length xs) n)) [
          | inl e ↦
              let absent = get_elem?_beyond xs n (ground arith) in
              rw (plist_array_remove_item, a.kind, low, item, absent, e) (returns s refl a)
          | inr e ↦
              let (c, there) = get_elem?-inside xs n (ground arith) in
              rw (plist_array_remove_item, a.kind, low, item, there, e) (dropped n c there)
        ]

    -- plist_array_item_remove takes a child of an array out of the list of its children, and the
    -- lookup array agrees with the children afterwards; for a tree library that behaves as
    -- documented.
    pub plist_array_item_remove-Ensures :
        (n c : ℕ)
        → get_elem? xs n ≡ some c
        → Ensures (IsArray lib node (remove_at n xs)) (plist_array_item_remove lib s c)
    unfolding plist_array_item_remove
    plist_array_item_remove-Ensures n c there =
        let child : get_elem? (lib.children s.mem node) n ≡ some c = rw a.listed there in
        rw
          (
            plist_array_item_remove,
            laws.below s.mem node n c child,
            a.kind,
            laws.position s.mem node n c child,
          )
          (dropped n c there)
