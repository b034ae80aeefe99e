-- ===== src/Plist/Dict/SetItem.antt =====
-- `plist_dict_set_item` on a dictionary with a list of pairs.
use libplist.Prelude.{ℕ, suc, ◌≡◌, ◌≢◌, refl, ap, ◌∙◌, arith, true, false}
use libplist.Prelude.{List, [], ◌∷◌, ◌++◌, append_assoc, none, some}
use libplist.Prelude.{◌==◌, Option-cases, inl, inr, length, get_elem?, set}
use libplist.PtrArray.Cells.{insert_at, remove_at}
use libplist.Bplist.Scalar.{c_string}
use libplist.Plist.Nodes.{NodeLib, IsNodeLib, Store}
use libplist.Plist.Children.{insert_at-remove_at, present-lt, free_orphan}
use libplist.Plist.Key.{key_data}
use libplist.Plist.Dict.{
  is_key, cache_value, plist_new_key, insert_pair, replace_value, plist_dict_set_item,
}
use libplist.Plist.Dict.Pairs.{
  Pairs, find, put, IsKeyOf, put-IsUnique, Place, find-Place, append-Lies, Lies-change,
}
use libplist.Plist.Dict.Lookup.{IsDict, plist_dict_get_item_lem}
use libplist.Plist.Dict.Update.{put_present, Moved, cache_value-IsDict, cache_new_pair-IsDict}

cache_value-mem :
    (lib : NodeLib) (node kn item : ℕ) (s : Store lib)
    → (cache_value lib s node kn item).mem ≡ s.mem
unfolding cache_value
cache_value-mem lib node kn item s = elim (Option-cases (s.dict_cache node)) [
  | inl e ↦ rw (cache_value, e)
  | inr (ht, e) ↦ rw (cache_value, e)
]

last_there : (xs : List ℕ) (c : ℕ) → get_elem? (xs ++ (c ∷ [])) (length xs) ≡ some c
last_there [] c = refl
last_there (x ∷ xs) c = last_there xs c

remove_last : (xs : List ℕ) (c : ℕ) → remove_at (length xs) (xs ++ (c ∷ [])) ≡ xs
unfolding remove_at
remove_last [] c = refl
remove_last (x ∷ xs) c = ap (λ r. x ∷ r) (remove_last xs c)

module _ (lib : NodeLib) (node : ℕ) (laws : IsNodeLib lib) (ps : Pairs) (s : Store lib)
    (a : IsDict lib node ps s) (k : List ℕ) (item : ℕ) (whole : c_string k ≡ k)
    (free : lib.parent s.mem item ≡ none) where
  -- The pairs after a replacement: the tree library may refuse the item.
  abbrev replaced_pairs : ℕ → Pairs
  replaced_pairs old_item = elim (lib.node_detach s.mem node old_item) [
    | none ↦ ps
    | some (idx, mem) ↦ elim (lib.node_insert mem node idx item) [
      | none ↦ ps
      | some _ ↦ put k item ps
    ]
  ]

  moved :
      (old_item i kn : ℕ) (mem mem' : lib.Mem) (c : ℕ)
      → Place s.data_of (lib.children s.mem node) k ps old_item i kn
      → lib.children mem node ≡ remove_at (suc i) (lib.children s.mem node)
      → lib.node_insert mem node (suc i) c ≡ some mem'
      → Moved lib node ps (put k c ps) (record s { mem = mem' })
  moved old_item i kn mem mem' c p left e =
      let inside = present-lt (lib.children s.mem node) (suc i) old_item p.value_there in
      let there : lib.children mem' node ≡ set (lib.children s.mem node) (suc i) c =
        (laws.inserted mem mem' node (suc i) c e).0
        ∙ ap (insert_at (suc i) c) left
        ∙ insert_at-remove_at (suc i) c (lib.children s.mem node) inside in
      record {
        kind = a.kind;
        listed = rw there (p.replaced c);
        unique = put-IsUnique k c ps a.unique;
        cached = a.cached;
      }

  replace_value-IsDict :
      (old_item i kn : ℕ)
      → find k ps ≡ some old_item
      → Place s.data_of (lib.children s.mem node) k ps old_item i kn
      → IsDict lib node (replaced_pairs old_item) (replace_value lib s node old_item item)
  unfolding replace_value
  replace_value-IsDict old_item i kn found p =
      let (mem, gone, left, orphan, (back, put_back)) =
        laws.detached s.mem node (suc i) old_item p.value_there in
      let key_there : lib.node_prev_sibling s.mem old_item ≡ some kn =
        laws.before s.mem node i old_item p.value_there ∙ p.key_there in
      elim (Option-cases (lib.node_insert mem node (suc i) item)) [
        | inl e ↦
            let m = moved old_item i kn mem back old_item p left put_back in
            let same = put_present k old_item ps found in
            rw
              (
                replaced_pairs, gone, e, replace_value, key_there, p.is_key_of.kind, gone, e,
                put_back,
              )
              (rw same at (cache_value-IsDict lib node k old_item kn ps _ whole m p.is_key_of))
        | inr (mem', e) ↦
            let m = moved old_item i kn mem mem' item p left e in
            let differ : old_item ≢ item =
              λ same. let below = laws.below s.mem node (suc i) old_item p.value_there in cc in
            let alone : lib.parent mem' old_item ≡ none =
              (laws.inserted mem mem' node (suc i) item e).1 old_item differ ∙ orphan in
            rw (replaced_pairs, gone, e, replace_value, key_there, p.is_key_of.kind, gone, e)
              (rw
                (free_orphan lib (cache_value lib (record s { mem = mem' }) node kn item) old_item (
                  ap (λ m. lib.parent m old_item)
                    (cache_value-mem lib node kn item (record s { mem = mem' }))
                  ∙ alone))
                (cache_value-IsDict lib node k item kn ps _ whole m p.is_key_of))
      ]

  -- The key that a new pair gets.
  abbrev new_key : ℕ
  new_key = (lib.node_create s.mem).0

  -- The store with it.
  abbrev with_key : Store lib
  with_key = (plist_new_key lib s k).1

  -- The pairs after an insertion: the tree library may refuse the key or the item.
  abbrev inserted_pairs : Pairs
  inserted_pairs = elim (lib.node_attach (lib.node_create s.mem).1 node new_key) [
    | none ↦ ps
    | some mem ↦ elim (lib.node_attach mem node item) [ none ↦ ps | some _ ↦ put k item ps ]
  ]

  module _ (fresh : node ≢ new_key) where
    with_key-IsKeyOf : IsKeyOf k (with_key.data_of new_key)
    unfolding plist_new_key key_data is_key
    with_key-IsKeyOf =
        let same : (new_key == new_key) ≡ true = ground arith in
        rw same (record { kind = refl; value = refl; sized = refl; whole = whole })

    with_key-IsDict :
        (mem : lib.Mem)
        → lib.children mem node ≡ lib.children s.mem node
        → IsDict lib node ps (record with_key { mem = mem })
    unfolding plist_new_key
    with_key-IsDict mem e =
        let other : (node == new_key) ≡ false = ground arith in
        record {
          kind = rw other a.kind;
          listed = rw e (
              Lies-change s.data_of _ ps new_key (key_data k) (laws.created s.mem node).2 a.listed);
          unique = a.unique;
          cached = a.cached;
        }

    insert_pair-IsDict :
        find k ps ≡ none → IsDict lib node inserted_pairs (insert_pair lib s node k item)
    unfolding insert_pair plist_new_key
    insert_pair-IsDict absent =
        let (kept, alone, _) = laws.created s.mem node in
        let mem = (lib.node_create s.mem).1 in
        elim (Option-cases (lib.node_attach mem node new_key)) [
          | inl e ↦
              rw (inserted_pairs, e, insert_pair)
                (rw (free_orphan lib with_key new_key alone) (with_key-IsDict mem kept))
          | inr (mem1, e) ↦
              let one : lib.children mem1 node ≡ lib.children s.mem node ++ (new_key ∷ []) =
                laws.attached mem mem1 node new_key e ∙ ap (λ l. l ++ (new_key ∷ [])) kept in
              elim (Option-cases (lib.node_attach mem1 node item)) [
                | inl e1 ↦
                    let (mem2, gone, left, orphan, _) =
                      laws.detached mem1 node (length (lib.children s.mem node)) new_key
                        (rw one (last_there (lib.children s.mem node) new_key)) in
                    let back : lib.children mem2 node ≡ lib.children s.mem node =
                      left
                      ∙ ap (remove_at (length (lib.children s.mem node))) one
                      ∙ remove_last (lib.children s.mem node) new_key in
                    rw (inserted_pairs, e, insert_pair, e1, gone)
                      (rw (free_orphan lib (record with_key { mem = mem2 }) new_key orphan)
                        (with_key-IsDict mem2 back))
                | inr (mem2, e2) ↦
                    let two : lib.children mem2 node
                        ≡ lib.children s.mem node ++ (new_key ∷ item ∷ []) =
                      laws.attached mem1 mem2 node item e2
                      ∙ ap (λ l. l ++ (item ∷ [])) one
                      ∙ append_assoc (lib.children s.mem node) (new_key ∷ []) (item ∷ []) in
                    let a' = with_key-IsDict mem kept in
                    rw (inserted_pairs, e, insert_pair, e2)
                      (cache_new_pair-IsDict lib node k item new_key ps _ whole
                        (record {
                          kind = a'.kind;
                          listed = rw two (
                              append-Lies with_key.data_of (lib.children s.mem node) k ps new_key
                                item (rw kept at a'.listed) absent with_key-IsKeyOf);
                          unique = put-IsUnique k item ps a.unique;
                          cached = a.cached;
                        })
                        with_key-IsKeyOf)
              ]
        ]

    -- On a dictionary with a list of pairs, plist_dict_set_item of a key that is not there and has
    -- no zero byte, and an item without a parent, adds the pair at the end, or changes no pair if
    -- the tree library refuses the key or the item; the table has the same pairs afterwards, also
    -- where it is made anew; for a tree library that behaves as documented, whose new node is not
    -- the dictionary.
    pub plist_dict_set_item-absent :
        find k ps ≡ none → IsDict lib node inserted_pairs (plist_dict_set_item lib s node k item)
    unfolding plist_dict_set_item
    plist_dict_set_item-absent absent =
        let missing = plist_dict_get_item_lem lib node ps s a k whole ∙ absent in
        rw (plist_dict_set_item, a.kind, free, missing) (insert_pair-IsDict absent)

  -- On a dictionary with a list of pairs, plist_dict_set_item of a key that is there, and an item
  -- without a parent, puts the item in the place of the old value, and if the tree library refuses
  -- the item, the old value is put back; the table has the same pairs afterwards; for a tree
  -- library that behaves as documented.
  pub plist_dict_set_item-present :
      (old_item : ℕ)
      → find k ps ≡ some old_item
      → IsDict lib node (replaced_pairs old_item) (plist_dict_set_item lib s node k item)
  unfolding plist_dict_set_item
  plist_dict_set_item-present old_item found =
      let there = plist_dict_get_item_lem lib node ps s a k whole ∙ found in
      let (i, kn, p) =
        find-Place s.data_of (lib.children s.mem node) k ps old_item a.listed found in
      rw (plist_dict_set_item, a.kind, free, there) (replace_value-IsDict old_item i kn found p)
