-- ===== src/Plist/Dict.antt =====
-- The dictionary operations of src/plist.c. The children of a dictionary are keys and values in
-- turn. An `assert` is taken to be compiled out: the test behind it returns. A key given by the
-- caller is its bytes before the zero.
pub mod Pairs
pub mod Lookup
pub mod Update
pub mod SetItem
pub mod RemoveItem
pub mod Iterate
use libplist.Prelude.{
  ℕ, ◌+◌, ◌/◌, Bool, true, false, ◌&&◌, not, List, [], ◌∷◌, ◌++◌, Option, none, some,
}
use libplist.Prelude.{ltb, ◌==◌, if◌then◌else◌, length, take}
use libplist.HashTable.{
  Table, hash_table_new, hash_table_lookup, hash_table_insert, hash_table_remove,
}
use libplist.Bplist.Node.{PlistType, key, PlistData}
use libplist.Bplist.Scalar.{c_string}
use libplist.Bplist.Serialize.{block_of, same_bytes}
use libplist.Plist.Nodes.{NodeLib, Store, is_dict, plist_free, node_type, node_n_children}
use libplist.Plist.Key.{text_of, key_data, text_key}

unfoldable pub is_key : PlistType → Bool
is_key key = true
is_key _ = false

-- `data->length == keylen && !memcmp(key, data->strval, keylen+1)`; both texts have a zero behind
-- them.
unfoldable pub key_matches : PlistData → List ℕ → Bool
key_matches d k =
    d.length == length k && same_bytes (k ++ (0 ∷ [])) (take (length k + 1) (text_of d ++ (0 ∷ [])))

module _ (lib : NodeLib) where
  unfoldable pub plist_dict_get_size : Store lib → ℕ → ℕ
  plist_dict_get_size s node =
      if is_dict (node_type lib s node) then node_n_children lib s node / 2 else 0

  -- The search through the children.
  unfoldable pub search_children : Store lib → List ℕ → List ℕ → Option ℕ
  search_children s [] k = none
  search_children s (kn ∷ []) k = none
  search_children s (kn ∷ v ∷ r) k =
      if not (is_key (s.data_of kn).kind) then none else elim (block_of (s.data_of kn).value) [
        | none ↦ none
        | some text ↦ if key_matches (s.data_of kn) k then some v else search_children s r k
      ]

  unfoldable pub plist_dict_get_item : Store lib → ℕ → List ℕ → Option ℕ
  plist_dict_get_item s node k =
      if not (is_dict (node_type lib s node)) then none else elim (s.dict_cache node) [
        | some ht ↦ hash_table_lookup ht (some k)
        | none ↦ search_children s (lib.children s.mem node) k
      ]

  -- `ht` with a value for the data of a key node.
  unfoldable pub enter : Store lib → Table (List ℕ) ℕ → ℕ → ℕ → Table (List ℕ) ℕ
  enter s ht key_node item = hash_table_insert ht (some (text_of (s.data_of key_node))) item

  -- The loop that enters all children in a new table.
  unfoldable pub enter_children : Store lib → List ℕ → Table (List ℕ) ℕ → Table (List ℕ) ℕ
  enter_children s [] ht = ht
  enter_children s (kn ∷ []) ht = ht
  enter_children s (kn ∷ v ∷ r) ht = enter_children s r (enter s ht kn v)

  -- `node->data->hashtable = ht`
  abbrev pub set_dict_cache : Store lib → ℕ → Table (List ℕ) ℕ → Store lib
  set_dict_cache s node ht = record s {
    dict_cache = λ j. if j == node then some ht else s.dict_cache j;
  }

  -- The table follows the new pair, or is made anew above 500 children.
  unfoldable pub cache_new_pair : Store lib → ℕ → ℕ → ℕ → Store lib
  cache_new_pair s node key_node item = elim (s.dict_cache node) [
    | some ht ↦ set_dict_cache s node (enter s ht key_node item)
    | none ↦
        if ltb 500 (node_n_children lib s node)
        then set_dict_cache s node
            (enter_children s (lib.children s.mem node) (hash_table_new false))
        else s
  ]

  -- `plist_new_key`: the node and the store with it.
  unfoldable pub plist_new_key : Store lib → List ℕ → ℕ × Store lib
  plist_new_key s k =
      let (kn, mem) = lib.node_create s.mem in
      (kn, record s { mem = mem; data_of = λ j. if j == kn then key_data k else s.data_of j })

  -- The branch for a key that is not there.
  unfoldable pub insert_pair : Store lib → ℕ → List ℕ → ℕ → Store lib
  insert_pair s node k item =
      let (kn, s') = plist_new_key s k in
      elim (lib.node_attach s'.mem node kn) [
        | none ↦ plist_free lib s' kn
        | some mem ↦ elim (lib.node_attach mem node item) [
          | some mem' ↦ cache_new_pair (record s' { mem = mem' }) node kn item
          | none ↦ elim (lib.node_detach mem node kn) [
            | none ↦ plist_free lib (record s' { mem = mem }) kn
            | some (i, mem') ↦ plist_free lib (record s' { mem = mem' }) kn
          ]
        ]
      ]

  -- The table follows the new value of a key.
  unfoldable pub cache_value : Store lib → ℕ → ℕ → ℕ → Store lib
  cache_value s node key_node item = elim (s.dict_cache node) [
    | none ↦ s
    | some ht ↦ set_dict_cache s node (enter s ht key_node item)
  ]

  -- The branch for a key that is there.
  unfoldable pub replace_value : Store lib → ℕ → ℕ → ℕ → Store lib
  replace_value s node old_val item = elim (lib.node_prev_sibling s.mem old_val) [
    | none ↦ s
    | some old_key ↦
        if not (is_key (node_type lib s old_key))
        then s
        else elim (lib.node_detach s.mem node old_val) [
          | none ↦ s
          | some (idx, mem) ↦ elim (lib.node_insert mem node idx item) [
            | some mem' ↦
                plist_free lib (cache_value (record s { mem = mem' }) node old_key item) old_val
            | none ↦ elim (lib.node_insert mem node idx old_val) [
              | some mem' ↦ cache_value (record s { mem = mem' }) node old_key old_val
              | none ↦ record s { mem = mem }
            ]
          ]
        ]
  ]

  unfoldable pub plist_dict_set_item : Store lib → ℕ → List ℕ → ℕ → Store lib
  plist_dict_set_item s node k item =
      if not (is_dict (node_type lib s node)) then s else elim (lib.parent s.mem item) [
        | some p ↦ s
        | none ↦ elim (plist_dict_get_item s node k) [
          | some old_item ↦ replace_value s node old_item item
          | none ↦ insert_pair s node k item
        ]
      ]

  unfoldable pub uncache_key : Store lib → ℕ → ℕ → Store lib
  uncache_key s node key_node = elim (s.dict_cache node) [
    | none ↦ s
    | some ht ↦ set_dict_cache s node (hash_table_remove ht (some (text_of (s.data_of key_node)))).0
  ]

  -- A value whose key is missing is not met: `old_item` comes behind its key.
  unfoldable pub plist_dict_remove_item : Store lib → ℕ → List ℕ → Store lib
  plist_dict_remove_item s node k =
      if is_dict (node_type lib s node)
      then elim (plist_dict_get_item s node k) [
        | none ↦ s
        | some old_item ↦ elim (lib.node_prev_sibling s.mem old_item) [
          | none ↦ plist_free lib s old_item
          | some key_node ↦
              plist_free lib (plist_free lib (uncache_key s node key_node) key_node) old_item
        ]
      ]
      else s
