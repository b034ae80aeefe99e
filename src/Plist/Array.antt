-- ===== src/Plist/Array.antt =====
-- The array operations of src/plist.c. An `assert` is taken to be compiled out: the test behind
-- it returns. A node or an item is not NULL.
pub mod Laws
pub mod Replace
use libplist.Prelude.{
  ℕ, ◌+◌, ◌-◌, ◌&&◌, Bool, true, false, ◌==◌, List, [], ◌∷◌, Option, none, some, ℤ, pos, negsuc,
}
use libplist.Prelude.{ltb, leb, if◌then◌else◌, not}
use libplist.PtrArray.{
  PtrArray, ptr_array_new, ptr_array_add, ptr_array_insert, ptr_array_set, ptr_array_remove,
  ptr_array_index,
}
use libplist.Run.{Run, ok, access, ◌>>=◌}
use libplist.Plist.Nodes.{NodeLib, Store, int_max, is_array, plist_free, node_type, node_n_children}

-- The loop that fills a new lookup array with the children of a node.
unfoldable pub add_children : PtrArray ℕ → List ℕ → Run (PtrArray ℕ)
add_children pa [] = ok pa
add_children pa (current ∷ r) = access (ptr_array_add pa current) >>= λ pa'. add_children pa' r

module _ (lib : NodeLib) where
  unfoldable pub plist_array_get_size : Store lib → ℕ → ℕ
  plist_array_get_size s node =
      if is_array (node_type lib s node) then node_n_children lib s node else 0

  unfoldable pub plist_array_get_item : Store lib → ℕ → ℕ → Option ℕ
  plist_array_get_item s node n =
      if is_array (node_type lib s node) && ltb n int_max
      then elim (s.array_cache node) [
        | some pa ↦ ptr_array_index pa (pos n)
        | none ↦ lib.node_nth_child s.mem node n
      ]
      else none

  -- `node->data->hashtable = pa`
  abbrev pub set_array_cache : Store lib → ℕ → PtrArray ℕ → Store lib
  set_array_cache s node pa = record s {
    array_cache = λ j. if j == node then some pa else s.array_cache j;
  }

  -- A new lookup array, if the node has more than 100 children.
  unfoldable pub new_lookup_array : Store lib → ℕ → Run (Store lib)
  new_lookup_array s node =
      if ltb 100 (node_n_children lib s node)
      then (add_children (ptr_array_new 128) (lib.children s.mem node) >>= λ pa.
          ok (set_array_cache s node pa))
      else ok s

  unfoldable pub plist_array_post_insert : Store lib → ℕ → ℕ → ℤ → Run (Store lib)
  plist_array_post_insert s node item n = elim (s.array_cache node) [
    | some pa ↦ access (ptr_array_insert pa item n) >>= λ pa'. ok (set_array_cache s node pa')
    | none ↦ new_lookup_array s node
  ]

  -- `n` is an index that `node_detach` gave.
  unfoldable pub plist_array_post_set : Store lib → ℕ → ℕ → ℕ → Run (Store lib)
  plist_array_post_set s node item n = elim (s.array_cache node) [
    | some pa ↦
        if leb pa.len n
        then ok s
        else (access (ptr_array_set pa item (pos n)) >>= λ pa'. ok (set_array_cache s node pa'))
    | none ↦
        if ltb 100 (node_n_children lib s node)
        then (add_children (ptr_array_new 128) (lib.children s.mem node) >>= λ pa.
            access (ptr_array_set pa item (pos n)) >>= λ pa'. ok (set_array_cache s node pa'))
        else ok s
  ]

  -- The tests before an item is put into an array.
  unfoldable pub accepts : Store lib → ℕ → ℕ → Bool
  accepts s node item =
      is_array (node_type lib s node)
      && elim (lib.parent s.mem item) [ none ↦ true | some p ↦ false ]

  unfoldable pub plist_array_append_item : Store lib → ℕ → ℕ → Run (Store lib)
  plist_array_append_item s node item =
      if not (accepts s node item) then ok s else elim (lib.node_attach s.mem node item) [
        | none ↦ ok s
        | some mem ↦ plist_array_post_insert (record s { mem = mem }) node item (negsuc 0)
      ]

  unfoldable pub plist_array_insert_item : Store lib → ℕ → ℕ → ℕ → Run (Store lib)
  plist_array_insert_item s node item n =
      if not (accepts s node item && ltb n int_max)
      then ok s
      else elim (lib.node_insert s.mem node n item) [
        | none ↦ ok s
        | some mem ↦ plist_array_post_insert (record s { mem = mem }) node item (pos n)
      ]

  -- From the detached old item on: `mem` is the tree without it.
  unfoldable pub replace_item : Store lib → ℕ → ℕ → ℕ → ℕ → lib.Mem → Run (Store lib)
  replace_item s node item old_item idx mem = elim (lib.node_insert mem node idx item) [
    | some mem' ↦ plist_array_post_set (record s { mem = mem' }) node item idx >>= λ s'.
        ok (plist_free lib s' old_item)
    | none ↦ elim (lib.node_insert mem node idx old_item) [
      | some mem' ↦ plist_array_post_set (record s { mem = mem' }) node old_item idx
      | none ↦ ok (record s { mem = mem })
    ]
  ]

  unfoldable pub plist_array_set_item : Store lib → ℕ → ℕ → ℕ → Run (Store lib)
  plist_array_set_item s node item n =
      if not (accepts s node item && ltb n int_max)
      then ok s
      else elim (plist_array_get_item s node n) [
        | none ↦ ok s
        | some old_item ↦ elim (lib.node_detach s.mem node old_item) [
          | none ↦ ok s
          | some (idx, mem) ↦ replace_item s node item old_item idx mem
        ]
      ]

  -- `ptr_array_remove` on the cache, if there is one.
  unfoldable pub uncache_item : Store lib → ℕ → ℕ → Run (Store lib)
  uncache_item s node n = elim (s.array_cache node) [
    | some pa ↦ access (ptr_array_remove pa (pos n)) >>= λ pa'. ok (set_array_cache s node pa')
    | none ↦ ok s
  ]

  unfoldable pub plist_array_remove_item : Store lib → ℕ → ℕ → Run (Store lib)
  plist_array_remove_item s node n =
      if is_array (node_type lib s node) && ltb n int_max
      then elim (plist_array_get_item s node n) [
        | none ↦ ok s
        | some old_item ↦ uncache_item s node n >>= λ s'. ok (plist_free lib s' old_item)
      ]
      else ok s

  unfoldable pub plist_array_item_remove : Store lib → ℕ → Run (Store lib)
  plist_array_item_remove s node = elim (lib.parent s.mem node) [
    | none ↦ ok s
    | some father ↦
        if is_array (node_type lib s father)
        then elim (lib.node_child_position s.mem father node) [
          | none ↦ ok s
          | some n ↦ uncache_item s father n >>= λ s'. ok (plist_free lib s' node)
        ]
        else ok s
  ]

  unfoldable pub plist_array_get_item_index : Store lib → ℕ → Option ℕ
  plist_array_get_item_index s node = elim (lib.parent s.mem node) [
    | none ↦ none
    | some father ↦
        if is_array (node_type lib s father)
        then lib.node_child_position s.mem father node
        else none
  ]
