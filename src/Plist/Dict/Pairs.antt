-- ===== src/Plist/Dict/Pairs.antt =====
-- A dictionary as a list of texts with value nodes, and how such a list lies in the children.
use libplist.Prelude.{ℕ, suc, ◌≡◌, ◌≢◌, refl, ap, subst, arith, true, false}
use libplist.Prelude.{List, [], ◌∷◌, ◌++◌, Option, none, some, inl, inr}
use libplist.Prelude.{◌==◌, if◌then◌else◌, length, get_elem?, set, All, Bool-cases}
use libplist.PtrArray.Cells.{remove_at}
use libplist.Bplist.Node.{PlistData, strval}
use libplist.Bplist.Scalar.{c_string}
use libplist.Bplist.Serialize.{same_bytes}
use libplist.Plist.Key.{same_bytes_iff}
use libplist.Plist.Dict.{is_key}

abbrev pub Pairs : Type 0
Pairs = List (List ℕ × ℕ)

-- The value of the first pair with a text.
unfoldable pub find : List ℕ → Pairs → Option ℕ
find k [] = none
find k ((t, v) ∷ ps) = if same_bytes t k then some v else find k ps

-- The pairs with a value for a text: in its place, or at the end.
unfoldable pub put : List ℕ → ℕ → Pairs → Pairs
put k v [] = (k, v) ∷ []
put k v ((t, w) ∷ ps) = if same_bytes t k then (t, v) ∷ ps else (t, w) ∷ put k v ps

-- The pairs without the first one with a text.
unfoldable pub delete : List ℕ → Pairs → Pairs
delete k [] = []
delete k ((t, w) ∷ ps) = if same_bytes t k then ps else (t, w) ∷ delete k ps

-- No text stands twice.
abbrev pub IsUnique : Pairs → Type 0
IsUnique [] = Unit {0}
IsUnique ((t, v) ∷ ps) = (find t ps ≡ none) × IsUnique ps

-- The data are those of a key with a text that has no zero byte.
pub record IsKeyOf (t : List ℕ) (d : PlistData) : Type 0 where
  pub kind : is_key d.kind ≡ true
  pub value : d.value ≡ strval t
  pub sized : d.length ≡ length t
  pub whole : c_string t ≡ t

-- The children are the keys and values of the pairs in turn.
abbrev pub Lies : (ℕ → PlistData) → List ℕ → Pairs → Type 0
Lies f [] [] = Unit {0}
Lies f [] (p ∷ ps) = ⊥
Lies f (kn ∷ []) ps = ⊥
Lies f (kn ∷ v ∷ r) [] = ⊥
Lies f (kn ∷ v ∷ r) ((t, w) ∷ ps) = IsKeyOf t (f kn) × (v ≡ w) × Lies f r ps

find-same : (k q : List ℕ) (ps : Pairs) → same_bytes k q ≡ true → find k ps ≡ find q ps
find-same k q ps h = ap (λ t. find t ps) ((same_bytes_iff k q).0 h)

same_bytes_symm : (a b : List ℕ) → same_bytes a b ≡ same_bytes b a
unfolding same_bytes
same_bytes_symm [] [] = refl
same_bytes_symm [] (y ∷ b) = refl
same_bytes_symm (x ∷ a) [] = refl
same_bytes_symm (x ∷ a) (y ∷ b) = ground (arith, same_bytes_symm a b)

-- Texts that agree are the same to a third one.
pub same_bytes_left : (a b c : List ℕ) → same_bytes a b ≡ true → same_bytes a c ≡ same_bytes b c
same_bytes_left a b c h = ap (λ t. same_bytes t c) ((same_bytes_iff a b).0 h)

pub same_bytes_right : (a b c : List ℕ) → same_bytes a b ≡ true → same_bytes c a ≡ same_bytes c b
same_bytes_right a b c h = ap (same_bytes c) ((same_bytes_iff a b).0 h)

pub find-put :
    (k q : List ℕ) (v : ℕ) (ps : Pairs)
    → find q (put k v ps) ≡ (if same_bytes k q then some v else find q ps)
unfolding find put
find-put k q v [] = refl
find-put k q v ((t, w) ∷ ps) =
    ground (arith, find-put k q v ps, same_bytes_left t k q, same_bytes_right k q t)

pub find-delete :
    (k q : List ℕ) (ps : Pairs)
    → IsUnique ps
    → find q (delete k ps) ≡ (if same_bytes k q then none else find q ps)
unfolding find delete
find-delete k q [] u = ground arith
find-delete k q ((t, w) ∷ ps) (absent, u) =
    ground
      (arith, find-delete k q ps u, same_bytes_left t k q, same_bytes_right k q t, find-same t q ps)

pub put-IsUnique : (k : List ℕ) (v : ℕ) (ps : Pairs) → IsUnique ps → IsUnique (put k v ps)
unfolding put find
put-IsUnique k v [] u = (refl, tt)
put-IsUnique k v ((t, w) ∷ ps) (absent, u) = elim (Bool-cases (same_bytes t k)) [
  | inl e ↦ rw e (absent, u)
  | inr e ↦ rw e (ground (arith, find-put k t v ps, same_bytes_symm t k), put-IsUnique k v ps u)
]

pub delete-IsUnique : (k : List ℕ) (ps : Pairs) → IsUnique ps → IsUnique (delete k ps)
unfolding delete
delete-IsUnique k [] u = tt
delete-IsUnique k ((t, w) ∷ ps) (absent, u) = elim (Bool-cases (same_bytes t k)) [
  | inl e ↦ rw e u
  | inr e ↦ rw e (ground (arith, find-delete k t ps u, same_bytes_symm t k), delete-IsUnique k ps u)
]

-- A pair that is found lies somewhere: its key and its value are neighbours, and replacing or
-- removing them does so to the pairs.
pub record Place (f : ℕ → PlistData) (xs : List ℕ) (k : List ℕ) (ps : Pairs) (v i kn : ℕ)
    : Type 0 where
  pub key_there : get_elem? xs i ≡ some kn
  pub value_there : get_elem? xs (suc i) ≡ some v
  pub is_key_of : IsKeyOf k (f kn)
  pub replaced : (item : ℕ) → Lies f (set xs (suc i) item) (put k item ps)
  pub deleted : Lies f (remove_at i (remove_at i xs)) (delete k ps)

pub find-Place :
    (f : ℕ → PlistData) (xs k : List ℕ) (ps : Pairs) (v : ℕ)
    → Lies f xs ps
    → find k ps ≡ some v
    → (i : ℕ) × (kn : ℕ) × Place f xs k ps v i kn
unfolding find put delete remove_at
find-Place f [] k [] v l h = cc
find-Place f [] k (p ∷ ps) v l h = absurd l
find-Place f (kn ∷ []) k ps v l h = absurd l
find-Place f (kn ∷ w ∷ r) k [] v l h = absurd l
find-Place f (kn ∷ w ∷ r) k ((t, u) ∷ ps) v (is_key_of, same, l) h =
    elim (Bool-cases (same_bytes t k)) [
      | inl e ↦
          let text : t ≡ k = (same_bytes_iff t k).0 e in
          (
            0,
            kn,
            record {
              key_there = refl;
              value_there = ground arith;
              is_key_of = subst (λ a. IsKeyOf a (f kn)) text is_key_of;
              replaced = λ item. rw e (is_key_of, refl, l);
              deleted = rw e l;
            },
          )
      | inr e ↦
          let found : find k ps ≡ some v = ground arith in
          let (i, j, p) = find-Place f r k ps v l found in
          (
            suc (suc i),
            j,
            record {
              key_there = p.key_there;
              value_there = p.value_there;
              is_key_of = p.is_key_of;
              replaced = λ item. rw e (is_key_of, same, p.replaced item);
              deleted = rw e (is_key_of, same, p.deleted);
            },
          )
    ]

-- New pairs at the end.
pub append-Lies :
    (f : ℕ → PlistData) (xs k : List ℕ) (ps : Pairs) (kn v : ℕ)
    → Lies f xs ps
    → find k ps ≡ none
    → IsKeyOf k (f kn)
    → Lies f (xs ++ (kn ∷ v ∷ [])) (put k v ps)
unfolding find put
append-Lies f [] k [] kn v l h i = (i, refl, tt)
append-Lies f [] k (p ∷ ps) kn v l h i = absurd l
append-Lies f (x ∷ []) k ps kn v l h i = absurd l
append-Lies f (x ∷ w ∷ r) k [] kn v l h i = absurd l
append-Lies f (x ∷ w ∷ r) k ((t, u) ∷ ps) kn v (is_key_of, same, l) h i =
    let differ : same_bytes t k ≡ false = ground arith in
    let absent : find k ps ≡ none = ground arith in
    rw differ (is_key_of, same, append-Lies f r k ps kn v l absent i)

-- Data of other nodes may change.
pub Lies-change :
    (f : ℕ → PlistData) (xs : List ℕ) (ps : Pairs) (n : ℕ) (d : PlistData)
    → All (λ c. c ≢ n) xs
    → Lies f xs ps
    → Lies (λ j. if j == n then d else f j) xs ps
Lies-change f [] [] n d a l = tt
Lies-change f [] (p ∷ ps) n d a l = absurd l
Lies-change f (x ∷ []) ps n d a l = absurd l
Lies-change f (x ∷ w ∷ r) [] n d a l = absurd l
Lies-change f (x ∷ w ∷ r) ((t, u) ∷ ps) n d (h, (_, a)) (is_key_of, same, l) =
    let other : (x == n) ≡ false = ground arith in
    rw other (is_key_of, same, Lies-change f r ps n d a l)
