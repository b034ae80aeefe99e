-- ===== src/Plist/Dict/Iterate.antt =====
-- The iterator of dictionaries: plist_dict_new_iter and plist_dict_next_item.
use libplist.Prelude.{ℕ, zero, suc, ◌+◌, ◌<◌, ◌≡◌, ap, ◌∙◌, arith, true, not}
use libplist.Prelude.{List, [], ◌∷◌, Option, none, some, if◌then◌else◌, length, get_elem?}
use libplist.Run.{Run, out_of_fuel, ok, ◌>>=◌}
use libplist.Bplist.Scalar.{c_string}
use libplist.Plist.Nodes.{NodeLib, IsNodeLib, Store, is_dict, node_type}
use libplist.Plist.Key.{text_of}
use libplist.Plist.Dict.{is_key}
use libplist.Plist.Dict.Pairs.{Pairs, Lies}
use libplist.Plist.Dict.Lookup.{IsDict, key_text}

module _ (lib : NodeLib) where
  -- The iterator, if there is one, is its field `cur`.
  unfoldable pub plist_dict_new_iter : Store lib → ℕ → Option (Option ℕ)
  plist_dict_new_iter s node =
      if is_dict (node_type lib s node) then some (lib.node_first_child s.mem node) else none

  -- `cur` afterwards, and the key and the value, which are NULL together.
  unfoldable pub plist_dict_next_item : Store lib → ℕ → Option ℕ → Option ℕ × Option (List ℕ × ℕ)
  plist_dict_next_item s node cur =
      if not (is_dict (node_type lib s node)) then (cur, none) else elim cur [
        | none ↦ (none, none)
        | some k ↦
            if not (is_key (node_type lib s k))
            then (none, none)
            else elim (lib.node_next_sibling s.mem k) [
              | none ↦ (none, none)
              | some v ↦ (lib.node_next_sibling s.mem v, some (c_string (text_of (s.data_of k)), v))
            ]
      ]

  -- The loop over a dictionary, as in plist_dict_merge: the keys and values up to the first NULL.
  unfoldable pub items : ℕ → Store lib → ℕ → Option ℕ → Run Pairs
  items zero s node cur = out_of_fuel
  items (suc fuel) s node cur =
      let (cur', item) = plist_dict_next_item s node cur in
      let rest = items fuel s node cur' in
      elim item [ none ↦ ok [] | some p ↦ rest >>= λ ps. ok (p ∷ ps) ]

  -- The loop with the iterator made before it.
  unfoldable pub all_items : ℕ → Store lib → ℕ → Run Pairs
  all_items fuel s node = elim (plist_dict_new_iter s node) [
    | none ↦ ok []
    | some cur ↦ items fuel s node cur
  ]

module _ (lib : NodeLib) (node : ℕ) (laws : IsNodeLib lib) (s : Store lib) where
  items_lem :
      (fuel i : ℕ) (rest : List ℕ) (ps : Pairs)
      → is_dict (s.data_of node).kind ≡ true
      → Lies s.data_of rest ps
      → ((n j : ℕ) → n ≡ i + j → get_elem? (lib.children s.mem node) n ≡ get_elem? rest j)
      → length ps < fuel
      → items lib fuel s node (get_elem? (lib.children s.mem node) i) ≡ ok ps
  unfolding items plist_dict_next_item
  items_lem zero i rest ps d l at h = absurd (omega arith)
  items_lem (suc fuel) i [] [] d l at h =
      let here = at i 0 (omega arith) in rw (here, items, plist_dict_next_item, d)
  items_lem (suc fuel) i [] (p ∷ ps) d l at h = absurd l
  items_lem (suc fuel) i (kn ∷ []) ps d l at h = absurd l
  items_lem (suc fuel) i (kn ∷ v ∷ r) [] d l at h = absurd l
  items_lem (suc fuel) i (kn ∷ v ∷ r) ((t, w) ∷ ps) d (is_key_of, same, l) at h =
      let here : get_elem? (lib.children s.mem node) i ≡ some kn = at i 0 (omega arith) in
      let there : get_elem? (lib.children s.mem node) (suc i) ≡ some v =
        at (suc i) 1 (omega arith) in
      let to_value = laws.next s.mem node i kn here ∙ there in
      let to_key = laws.next s.mem node (suc i) v there in
      let text : c_string (text_of (s.data_of kn)) ≡ t =
        ap c_string (key_text t (s.data_of kn) is_key_of) ∙ is_key_of.whole in
      let behind =
        items_lem fuel (suc (suc i)) r ps d l (λ n j e. at n (suc (suc j)) (omega arith))
          (omega arith) in
      let step : plist_dict_next_item lib s node (get_elem? (lib.children s.mem node) i)
          ≡ (get_elem? (lib.children s.mem node) (suc (suc i)), some (t, v)) =
        rw (here, plist_dict_next_item, d, is_key_of.kind, to_value, to_key, text) in
      rw (items, step, step, behind, same)

  -- The loop over a dictionary with a list of pairs ends after as many calls of
  -- plist_dict_next_item as there are pairs and one more, and gives the pairs in their order; for a
  -- tree library that behaves as documented.
  pub all_items_lem :
      (ps : Pairs) → IsDict lib node ps s → all_items lib (length ps + 1) s node ≡ ok ps
  unfolding all_items plist_dict_new_iter
  all_items_lem ps a =
      rw (all_items, plist_dict_new_iter, a.kind, laws.first s.mem node)
        (items_lem (length ps + 1) 0 (lib.children s.mem node) ps a.kind a.listed
          (λ n j e. ap (get_elem? (lib.children s.mem node)) (omega arith)) (omega arith))
