-- ===== src/Plist/Dict/Update.antt =====
-- Storing in a dictionary: the pairs afterwards, and that the table keeps agreeing with them.
use libplist.Prelude.{ℕ, ◌≡◌, sym, subst, ◌∙◌, arith, true}
use libplist.Prelude.{List, [], ◌∷◌, none, some}
use libplist.Prelude.{ltb, ◌==◌, if_intro, Option-cases, inl, inr}
use libplist.HashTable.{Table}
use libplist.Bplist.Scalar.{c_string}
use libplist.Plist.Nodes.{NodeLib, Store, is_dict, node_n_children}
use libplist.Plist.Key.{text_key}
use libplist.Plist.Dict.{enter, set_dict_cache, cache_new_pair, cache_value}
use libplist.Plist.Dict.Pairs.{Pairs, find, put, IsUnique, IsKeyOf, Lies}
use libplist.Plist.Dict.Lookup.{Agrees, insert-Agrees, key_text, enter_children-Agrees, IsDict}

pub put_present : (k : List ℕ) (v : ℕ) (ps : Pairs) → find k ps ≡ some v → put k v ps ≡ ps
unfolding put find
put_present k v [] h = cc
put_present k v ((t, w) ∷ ps) h = ground (arith, put_present k v ps)

module _ (lib : NodeLib) (node : ℕ) where
  -- The children with new pairs, before the table follows.
  pub record Moved (ps ps' : Pairs) (s : Store lib) : Type 0 where
    pub kind : is_dict (s.data_of node).kind ≡ true
    pub listed : Lies s.data_of (lib.children s.mem node) ps'
    pub unique : IsUnique ps'
    pub cached : (ht : Table (List ℕ) ℕ) → s.dict_cache node ≡ some ht → Agrees ht ps

  pub set_dict_cache-Agrees :
      (ps : Pairs) (s : Store lib) (ht ht' : Table (List ℕ) ℕ)
      → Agrees ht ps
      → (set_dict_cache lib s node ht).dict_cache node ≡ some ht'
      → Agrees ht' ps
  set_dict_cache-Agrees ps s ht ht' a e =
      let same : (node == node) ≡ true = ground arith in
      let stored : some ht ≡ some ht' = rw same at e in
      let kept : ht ≡ ht' = cc in subst (λ t. Agrees t ps) kept a

  pub cache-IsDict :
      (ps ps' : Pairs) (s : Store lib) (ht : Table (List ℕ) ℕ)
      → Moved ps ps' s
      → Agrees ht ps'
      → IsDict lib node ps' (set_dict_cache lib s node ht)
  cache-IsDict ps ps' s ht m a = record {
    kind = m.kind;
    listed = m.listed;
    unique = m.unique;
    cached = λ ht' e. set_dict_cache-Agrees ps' s ht ht' a e;
  }

  pub uncached :
      (ps ps' : Pairs) (s : Store lib)
      → Moved ps ps' s
      → s.dict_cache node ≡ none
      → IsDict lib node ps' s
  uncached ps ps' s m e = record {
    kind = m.kind;
    listed = m.listed;
    unique = m.unique;
    cached = λ ht e'. let bad : none ≡ some ht = sym e ∙ e' in cc;
  }

  module _ (k : List ℕ) (item kn : ℕ) (ps : Pairs) (s : Store lib) (whole : c_string k ≡ k)
      (m : Moved ps (put k item ps) s) (i : IsKeyOf k (s.data_of kn)) where
    entered :
        (ht : Table (List ℕ) ℕ) → Agrees ht ps → Agrees (enter lib s ht kn item) (put k item ps)
    unfolding enter
    entered ht a = rw (enter, key_text k (s.data_of kn) i) (insert-Agrees ht ps k item whole a)

    pub cache_value-IsDict : IsDict lib node (put k item ps) (cache_value lib s node kn item)
    unfolding cache_value
    cache_value-IsDict = elim (Option-cases (s.dict_cache node)) [
      | inl e ↦ rw (cache_value, e) (uncached ps (put k item ps) s m e)
      | inr (ht, e) ↦
          rw (cache_value, e) (cache-IsDict ps (put k item ps) s _ m (entered ht (m.cached ht e)))
    ]

    pub cache_new_pair-IsDict : IsDict lib node (put k item ps) (cache_new_pair lib s node kn item)
    unfolding cache_new_pair
    cache_new_pair-IsDict = elim (Option-cases (s.dict_cache node)) [
      | inl e ↦
          rw (cache_new_pair, e)
            (if_intro (IsDict lib node (put k item ps)) (ltb 500 (node_n_children lib s node))
              (λ _.
                cache-IsDict ps (put k item ps) s _ m
                  (enter_children-Agrees lib s _ (put k item ps) m.unique m.listed))
              (λ _. uncached ps (put k item ps) s m e))
      | inr (ht, e) ↦
          rw (cache_new_pair, e)
            (cache-IsDict ps (put k item ps) s _ m (entered ht (m.cached ht e)))
    ]
