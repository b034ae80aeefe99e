-- ===== src/Plist/Dict/Lookup.antt =====
-- Reading a dictionary: the search through the children, and the table that holds the same pairs.
use libplist.Prelude.{ℕ, ◌+◌, ◌≡◌, refl, sym, ap, ◌∙◌, arith, true, false, ◌&&◌}
use libplist.Prelude.{List, [], ◌∷◌, ◌++◌, Option, none, some, inl, inr}
use libplist.Prelude.{◌==◌, if◌then◌else◌, length, take, Bool-cases, Option-cases}
use libplist.HashTable.{
  Table, hash_table_new, hash_table_lookup, hash_table_insert, hash_table_remove, lookup_loop,
}
use libplist.HashTable.Lawful.{lookup-insert_lawful, lookup-remove_lawful}
use libplist.Plist.Key.{text_key-IsEquivalence, text_key-IsLawful}
use libplist.HashTable.Map.{IsValid, new-IsValid, insert-IsValid, remove-IsValid}
use libplist.Bplist.Node.{PlistData}
use libplist.Bplist.Scalar.{c_string}
use libplist.Bplist.Serialize.{block_of, same_bytes}
use libplist.Plist.Nodes.{NodeLib, Store, is_dict}
use libplist.Plist.Key.{same_bytes_iff, text_of, compare_texts, compare_texts_iff, text_key}
use libplist.Plist.Dict.{key_matches, search_children, plist_dict_get_item, enter, enter_children}
use libplist.Plist.Dict.Pairs.{
  Pairs, find, put, delete, IsUnique, IsKeyOf, Lies, find-put, find-delete,
}

-- The table has the pairs.
pub record Agrees (ht : Table (List ℕ) ℕ) (ps : Pairs) : Type 0 where
  pub valid : IsValid ht
  pub lookup : (q : List ℕ) → hash_table_lookup ht (some q) ≡ find (c_string q) ps

compare_text : (k q : List ℕ) → c_string k ≡ k → compare_texts k q ≡ same_bytes k (c_string q)
compare_text k q whole = elim (Bool-cases (compare_texts k q)) [
  | inl e ↦
      let same = sym whole ∙ (compare_texts_iff k q).0 e in
      e ∙ sym ((same_bytes_iff k (c_string q)).1 same)
  | inr e ↦ elim (Bool-cases (same_bytes k (c_string q))) [
    | inl e' ↦
        let same = (same_bytes_iff k (c_string q)).0 e' in
        let back = (compare_texts_iff k q).1 (whole ∙ same) in cc
    | inr e' ↦ e ∙ sym e'
  ]
]

pub new-Agrees : Agrees (hash_table_new false) []
unfolding hash_table_lookup lookup_loop hash_table_new find
new-Agrees = record { valid = new-IsValid false; lookup = λ q. refl }

pub insert-Agrees :
    (ht : Table (List ℕ) ℕ) (ps : Pairs) (k : List ℕ) (v : ℕ)
    → c_string k ≡ k
    → Agrees ht ps
    → Agrees (hash_table_insert ht (some k) v) (put k v ps)
insert-Agrees ht ps k v whole a = record {
  valid = insert-IsValid ht k v a.valid;
  lookup = λ q.
      lookup-insert_lawful ht k q v
      ∙ rw (compare_text k q whole, a.lookup q) (sym (find-put k (c_string q) v ps));
}

pub remove-Agrees :
    (ht : Table (List ℕ) ℕ) (ps : Pairs) (k : List ℕ)
    → c_string k ≡ k
    → IsUnique ps
    → Agrees ht ps
    → Agrees (hash_table_remove ht (some k)).0 (delete k ps)
remove-Agrees ht ps k whole u a = record {
  valid = (remove-IsValid ht k a.valid).0;
  lookup = λ q.
      lookup-remove_lawful ht k q a.valid
      ∙ rw (compare_text k q whole, a.lookup q) (sym (find-delete k (c_string q) ps u));
}

pub key_text : (t : List ℕ) (d : PlistData) → IsKeyOf t d → text_of d ≡ t
unfolding text_of block_of
key_text t d i = rw i.value

-- A value that is found among the pairs, or else the one given.
abbrev or_else : Option ℕ → Option ℕ → Option ℕ
or_else (some v) d = some v
or_else none d = d

or_none : (o : Option ℕ) → or_else o none ≡ o
or_none none = refl
or_none (some v) = refl

found_or :
    (t q : List ℕ) (w : ℕ) (ps : Pairs) (now old : Option ℕ)
    → find t ps ≡ none
    → now ≡ (if same_bytes t q then some w else old)
    → or_else (find q ps) now ≡ or_else (find q ((t, w) ∷ ps)) old
unfolding find
found_or t q w ps now old absent e = elim (Bool-cases (same_bytes t q)) [
  | inl same ↦
      let text : t ≡ q = (same_bytes_iff t q).0 same in
      let absent' : find q ps ≡ none = sym (ap (λ a. find a ps) text) ∙ absent in
      let now' : now ≡ some w = ground arith in rw (same, absent', now')
  | inr other ↦ let now' : now ≡ old = ground arith in rw (other, now')
]

module _ (lib : NodeLib) where
  -- The loop adds the pairs to those that the table has.
  enter_children-lookup :
      (s : Store lib) (xs : List ℕ) (ps : Pairs) (ht : Table (List ℕ) ℕ)
      → IsUnique ps
      → Lies s.data_of xs ps
      → IsValid ht
      → IsValid (enter_children lib s xs ht)
        × ((q : List ℕ)
            → hash_table_lookup (enter_children lib s xs ht) (some q)
              ≡ or_else (find (c_string q) ps) (hash_table_lookup ht (some q)))
  unfolding enter_children find enter
  enter_children-lookup s [] [] ht u l h = (h, λ q. refl)
  enter_children-lookup s [] (p ∷ ps) ht u l h = absurd l
  enter_children-lookup s (kn ∷ []) ps ht u l h = absurd l
  enter_children-lookup s (kn ∷ v ∷ r) [] ht u l h = absurd l
  enter_children-lookup s (kn ∷ v ∷ r) ((t, w) ∷ ps) ht (absent, u) (is_key_of, same, l) h =
      let text = key_text t (s.data_of kn) is_key_of in
      let (h', looked) =
        enter_children-lookup s r ps (enter lib s ht kn v) u l
          (insert-IsValid ht (text_of (s.data_of kn)) v h) in
      (
        h',
        λ q.
            let entered : hash_table_lookup (enter lib s ht kn v) (some q)
                ≡ (if same_bytes t (c_string q) then some w else hash_table_lookup ht (some q)) =
              rw (
                enter,
                text,
                lookup-insert_lawful ht t q v,
                compare_text t q is_key_of.whole,
                same,
              ) in
            looked q ∙ found_or t (c_string q) w ps _ _ absent entered,
      )

  pub enter_children-Agrees :
      (s : Store lib) (xs : List ℕ) (ps : Pairs)
      → IsUnique ps
      → Lies s.data_of xs ps
      → Agrees (enter_children lib s xs (hash_table_new false)) ps
  unfolding hash_table_lookup lookup_loop hash_table_new
  enter_children-Agrees s xs ps u l =
      let (valid, looked) =
        enter_children-lookup s xs ps (hash_table_new false) u l (new-IsValid false) in
      record { valid = valid; lookup = λ q. looked q ∙ or_none (find (c_string q) ps) }

same_with_zero :
    (t k : List ℕ)
    → (length t == length k && same_bytes (k ++ (0 ∷ [])) (take (length k + 1) (t ++ (0 ∷ []))))
      ≡ same_bytes t k
unfolding same_bytes
same_with_zero [] [] = refl
same_with_zero [] (x ∷ k) = ground arith
same_with_zero (x ∷ t) [] = ground arith
same_with_zero (x ∷ t) (y ∷ k) = ground (arith, same_with_zero t k)

pub key_matches_lem :
    (d : PlistData) (t k : List ℕ) → IsKeyOf t d → key_matches d k ≡ same_bytes t k
unfolding key_matches
key_matches_lem d t k i = rw (key_text t d i, i.sized) (same_with_zero t k)

module _ (lib : NodeLib) where
  search_children_lem :
      (s : Store lib) (xs k : List ℕ) (ps : Pairs)
      → Lies s.data_of xs ps
      → search_children lib s xs k ≡ find k ps
  unfolding search_children find block_of
  search_children_lem s [] k [] l = refl
  search_children_lem s [] k (p ∷ ps) l = absurd l
  search_children_lem s (kn ∷ []) k ps l = absurd l
  search_children_lem s (kn ∷ v ∷ r) k [] l = absurd l
  search_children_lem s (kn ∷ v ∷ r) k ((t, w) ∷ ps) (i, same, l) = rw (
    search_children,
    i.kind,
    i.value,
    key_matches_lem (s.data_of kn) t k i,
    same,
    search_children_lem s r k ps l,
  )

module _ (lib : NodeLib) (node : ℕ) where
  -- The node is a dictionary with the pairs, and so is its table, if it has one.
  pub record IsDict (ps : Pairs) (s : Store lib) : Type 0 where
    pub kind : is_dict (s.data_of node).kind ≡ true
    pub listed : Lies s.data_of (lib.children s.mem node) ps
    pub unique : IsUnique ps
    pub cached : (ht : Table (List ℕ) ℕ) → s.dict_cache node ≡ some ht → Agrees ht ps

  -- On a dictionary whose children are the keys and values of a list of pairs, no text twice, with
  -- a table that agrees or without one, plist_dict_get_item finds the value of a key that has no
  -- zero byte in the list, and NULL if it is not there.
  pub plist_dict_get_item_lem :
      (ps : Pairs) (s : Store lib)
      → IsDict ps s
      → (k : List ℕ) → c_string k ≡ k
      → plist_dict_get_item lib s node k ≡ find k ps
  unfolding plist_dict_get_item
  plist_dict_get_item_lem ps s a k whole = elim (Option-cases (s.dict_cache node)) [
    | inl e ↦ rw (plist_dict_get_item, a.kind, e) (search_children_lem lib s _ k ps a.listed)
    | inr (ht, e) ↦
        rw (plist_dict_get_item, a.kind, e) ((a.cached ht e).lookup k ∙ ap (λ t. find t ps) whole)
  ]
