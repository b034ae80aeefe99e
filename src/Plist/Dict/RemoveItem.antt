-- ===== src/Plist/Dict/RemoveItem.antt =====
-- `plist_dict_remove_item` on a dictionary with a list of pairs.
use libplist.Prelude.{ℕ, zero, suc, ◌≡◌, refl, sym, ◌∙◌, arith, true}
use libplist.Prelude.{List, [], ◌∷◌, none, some, Option-cases, inl, inr, get_elem?}
use libplist.PtrArray.Cells.{remove_at}
use libplist.HashTable.{Table, hash_table_remove}
use libplist.Bplist.Scalar.{c_string}
use libplist.Plist.Nodes.{NodeLib, IsNodeLib, Store, is_dict, plist_free}
use libplist.Plist.Key.{text_key}
use libplist.Plist.Dict.{uncache_key, set_dict_cache, plist_dict_remove_item}
use libplist.Plist.Dict.Pairs.{
  Pairs, find, delete, IsUnique, Lies, delete-IsUnique, Place, find-Place,
}
use libplist.Plist.Dict.Lookup.{Agrees, remove-Agrees, key_text, IsDict, plist_dict_get_item_lem}
use libplist.Plist.Dict.Update.{set_dict_cache-Agrees}

after_removed :
    (xs : List ℕ) (i v : ℕ) → get_elem? xs (suc i) ≡ some v → get_elem? (remove_at i xs) i ≡ some v
unfolding remove_at
after_removed [] i v h = cc
after_removed (x ∷ []) i v h = cc
after_removed (x ∷ y ∷ xs) zero v h = h
after_removed (x ∷ y ∷ xs) (suc i) v h = after_removed (y ∷ xs) i v h

delete_absent : (k : List ℕ) (ps : Pairs) → find k ps ≡ none → delete k ps ≡ ps
unfolding delete find
delete_absent k [] h = refl
delete_absent k ((t, w) ∷ ps) h = ground (arith, delete_absent k ps)

module _ (lib : NodeLib) (node : ℕ) where
  -- A child that is freed leaves the children, and nothing else changes.
  free_child :
      (laws : IsNodeLib lib) (s : Store lib) (i c : ℕ)
      → get_elem? (lib.children s.mem node) i ≡ some c
      → (mem : lib.Mem) × (plist_free lib s c ≡ record s { mem = mem })
        × (lib.children mem node ≡ remove_at i (lib.children s.mem node))
  unfolding plist_free
  free_child laws s i c there =
      let (mem, e, left, _, _) = laws.detached s.mem node i c there in
      (mem, rw (plist_free, laws.below s.mem node i c there, e), left)

  -- The key and the value leave the children, when the table has no such key any more.
  freed :
      (laws : IsNodeLib lib) (ps : Pairs) (s : Store lib) (i kn old_item : ℕ)
      → is_dict (s.data_of node).kind ≡ true
      → get_elem? (lib.children s.mem node) i ≡ some kn
      → get_elem? (lib.children s.mem node) (suc i) ≡ some old_item
      → Lies s.data_of (remove_at i (remove_at i (lib.children s.mem node))) ps
      → IsUnique ps
      → ((ht : Table (List ℕ) ℕ) → s.dict_cache node ≡ some ht → Agrees ht ps)
      → IsDict lib node ps (plist_free lib (plist_free lib s kn) old_item)
  freed laws ps s i kn old_item kind first second lies unique cached =
      let (mem, e, left) = free_child laws s i kn first in
      let next : get_elem? (lib.children mem node) i ≡ some old_item =
        rw left (after_removed (lib.children s.mem node) i old_item second) in
      let (mem', e', left') = free_child laws (record s { mem = mem }) i old_item next in
      rw (e, e')
        (record { kind = kind; listed = rw (left', left) lies; unique = unique; cached = cached })

  module _ (laws : IsNodeLib lib) (ps : Pairs) (s : Store lib) (a : IsDict lib node ps s)
      (k : List ℕ) (whole : c_string k ≡ k) where
    removed_pair :
        (i kn old_item : ℕ)
        → Place s.data_of (lib.children s.mem node) k ps old_item i kn
        → IsDict lib node
            (delete k ps)
            (plist_free lib (plist_free lib (uncache_key lib s node kn) kn) old_item)
    unfolding uncache_key
    removed_pair i kn old_item p =
        let unique = delete-IsUnique k ps a.unique in
        elim (Option-cases (s.dict_cache node)) [
          | inl e ↦
              rw (uncache_key, e)
                (freed laws (delete k ps) s i kn old_item a.kind p.key_there p.value_there p.deleted
                  unique (λ ht e'. let bad : none ≡ some ht = sym e ∙ e' in cc))
          | inr (ht, e) ↦
              let text = key_text k (s.data_of kn) p.is_key_of in
              let agrees = remove-Agrees ht ps k whole a.unique (a.cached ht e) in
              rw (uncache_key, e, text)
                (freed laws (delete k ps)
                  (set_dict_cache lib s node (hash_table_remove ht (some k)).0) i kn old_item a.kind
                  p.key_there p.value_there p.deleted unique
                  (λ ht' e'. set_dict_cache-Agrees lib node (delete k ps) s _ ht' agrees e'))
        ]

    -- On a dictionary with a list of pairs, plist_dict_remove_item of a key without a zero byte
    -- takes its pair out, key and value, and changes nothing if the key is not there, where the
    -- documentation says that it asserts; the table has the same pairs afterwards; for a tree
    -- library that behaves as documented.
    pub plist_dict_remove_item_lem :
        IsDict lib node (delete k ps) (plist_dict_remove_item lib s node k)
    unfolding plist_dict_remove_item
    plist_dict_remove_item_lem =
        let item = plist_dict_get_item_lem lib node ps s a k whole in
        elim (Option-cases (find k ps)) [
          | inl e ↦ rw (plist_dict_remove_item, a.kind, item, e, delete_absent k ps e) a
          | inr (old_item, e) ↦
              let (i, kn, p) =
                find-Place s.data_of (lib.children s.mem node) k ps old_item a.listed e in
              let key_there = laws.before s.mem node i old_item p.value_there ∙ p.key_there in
              rw (plist_dict_remove_item, a.kind, item, e, key_there) (removed_pair i kn old_item p)
        ]
