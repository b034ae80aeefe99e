-- ===== src/Examples/NodeTree.antt =====
-- A tree library for a root with one child at most, and the operations of src/plist.c over it.
use libplist.Prelude.{ℕ, zero, suc, ◌≡◌, ◌≢◌, refl, arith, List, [], ◌∷◌, ◌++◌, Option, none, some}
use libplist.Prelude.{◌==◌, if◌then◌else◌, get_elem?, ◌&&◌}
use libplist.Prelude.{false, subst, ◌+◌, All, Bool-cases, inl, inr}
use libplist.PtrArray.{PtrArray}
use libplist.PtrArray.Cells.{Models, insert_at, remove_at}
use libplist.Run.{Ensures}
use libplist.Bplist.Node.{array, no_value}
use libplist.Plist.Array.{
  plist_array_get_item, plist_array_append_item, plist_array_set_item, plist_array_remove_item,
  plist_array_item_remove,
}
use libplist.Plist.Array.Laws.{IsArray, plist_array_get_item_lem, plist_array_append_item-Ensures}
use libplist.Plist.Array.Replace.{
  plist_array_set_item-Ensures, plist_array_remove_item-Ensures, plist_array_item_remove-Ensures,
}
use libplist.Plist.Nodes.{NodeLib, IsNodeLib, Store, is_array}

-- The child of node 0, which is the only one that may have a child.
abbrev only : Option ℕ → List ℕ
only none = []
only (some c) = c ∷ []

abbrev join : Option ℕ → ℕ → ℕ → Option (Option ℕ)
join none p c = if p == 0 then some (some c) else none
join (some c') p c = none

abbrev taken : Option ℕ → ℕ → ℕ → Option (ℕ × Option ℕ)
taken none p c = none
taken (some c') p c = if p == 0 && c' == c then some (0, none) else none

abbrev owner : Option ℕ → ℕ → Option ℕ
owner none c = none
owner (some c') c = if c' == c then some 0 else none

abbrev place : Option ℕ → ℕ → ℕ → Option ℕ
place none p c = none
place (some c') p c = if p == 0 && c' == c then some 0 else none

-- A node that is not in the tree.
abbrev next : Option ℕ → ℕ
next none = 1
next (some c) = c + 1

abbrev pub one_child : NodeLib
one_child = record {
  Mem = Option ℕ;
  children = λ m p. if p == 0 then only m else [];
  parent = owner;
  node_attach = join;
  node_insert = λ m p i c. join m p c;
  node_detach = taken;
  node_nth_child = λ m p n. get_elem? (if p == 0 then only m else []) n;
  node_child_position = place;
  node_prev_sibling = λ m c. none;
  node_first_child = λ m p. get_elem? (if p == 0 then only m else []) 0;
  node_next_sibling = λ m c. none;
  node_create = λ m. (next m, m);
}

attached_one :
    (m m' : Option ℕ) (p c : ℕ)
    → join m p c ≡ some m'
    → one_child.children m' p ≡ one_child.children m p ++ (c ∷ [])
attached_one none m' p c e = ground arith
attached_one (some c') m' p c e = cc

inserted_one :
    (m m' : Option ℕ) (p i c : ℕ)
    → join m p c ≡ some m'
    → (one_child.children m' p ≡ insert_at i c (one_child.children m p))
      × ((q : ℕ) → q ≢ c → owner m' q ≡ owner m q)
unfolding insert_at
inserted_one none m' p i c e = (
  ground arith,
  λ q h.
      let made : m' ≡ some c = ground arith in
      rw made (let other : (c == q) ≡ false = ground arith in rw other),
)
inserted_one (some c') m' p i c e = cc

detached_one :
    (m : Option ℕ) (p i c : ℕ)
    → get_elem? (one_child.children m p) i ≡ some c
    → (m' : Option ℕ) × (taken m p c ≡ some (i, m'))
      × (one_child.children m' p ≡ remove_at i (one_child.children m p))
      × (owner m' c ≡ none)
      × ((m'' : Option ℕ) × (join m' p c ≡ some m''))
unfolding remove_at
detached_one none p i c e = ground arith
detached_one (some c') p zero c e = (none, ground arith, ground arith, refl, (some c, ground arith))
detached_one (some c') p (suc i) c e = ground arith

below_one :
    (m : Option ℕ) (p i c : ℕ)
    → get_elem? (one_child.children m p) i ≡ some c
    → (owner m c ≡ some p) × (place m p c ≡ some i)
below_one none p i c e = ground arith
below_one (some c') p zero c e = (ground arith, ground arith)
below_one (some c') p (suc i) c e = ground arith

before_one :
    (m : Option ℕ) (p i c : ℕ)
    → get_elem? (one_child.children m p) (suc i) ≡ some c
    → none ≡ get_elem? (one_child.children m p) i
before_one none p i c e = ground arith
before_one (some c') p i c e = ground arith

next_one :
    (m : Option ℕ) (p i c : ℕ)
    → get_elem? (one_child.children m p) i ≡ some c
    → none ≡ get_elem? (one_child.children m p) (suc i)
next_one none p i c e = ground arith
next_one (some c') p zero c e = ground arith
next_one (some c') p (suc i) c e = ground arith

created_one :
    (m : Option ℕ) (p : ℕ)
    → (one_child.children m p ≡ one_child.children m p)
      × (owner m (next m) ≡ none)
      × All (λ c. c ≢ next m) (one_child.children m p)
created_one none p = elim (Bool-cases (p == 0)) [
  | inl e ↦ (refl, refl, rw e tt)
  | inr e ↦ (refl, refl, rw e tt)
]
created_one (some c) p = elim (Bool-cases (p == 0)) [
  | inl e ↦ (refl, ground arith, rw e (λ h. omega arith, tt))
  | inr e ↦ (refl, ground arith, rw e tt)
]

pub one_child-IsNodeLib : IsNodeLib one_child
one_child-IsNodeLib = record {
  attached = attached_one;
  inserted = inserted_one;
  detached = detached_one;
  below = λ m p i c e. (below_one m p i c e).0;
  nth = λ m p n. refl;
  position = λ m p i c e. (below_one m p i c e).1;
  before = before_one;
  first = λ m p. refl;
  next = next_one;
  created = created_one;
}

-- Node 0 is an array with the item 7, which its lookup array has too.
abbrev lookup : PtrArray ℕ
lookup = record { pdata = some 7 ∷ none ∷ []; len = 1; capacity = 2; capacity_step = 2 }

lookup-Models : Models (7 ∷ []) lookup
lookup-Models = record {
  spare = none ∷ [];
  cells = refl;
  counted = refl;
  block = omega arith;
  step = omega arith;
}

abbrev one_item : Store one_child
one_item = record {
  mem = some 7;
  data_of = λ _. record { value = no_value; length = 0; kind = array };
  array_cache = λ _. some lookup;
  dict_cache = λ _. none;
}

one_item-IsArray : IsArray one_child 0 (7 ∷ []) one_item
unfolding is_array
one_item-IsArray = record {
  kind = refl;
  listed = refl;
  cached = λ pa e. let same : lookup ≡ pa = cc in subst (Models (7 ∷ [])) same lookup-Models;
}

-- An empty array without a lookup array.
abbrev no_item : Store one_child
no_item = record one_item { mem = none; array_cache = λ _. none }

no_item-IsArray : IsArray one_child 0 [] no_item
unfolding is_array
no_item-IsArray = record { kind = refl; listed = refl; cached = λ pa e. cc }

plist_array_get_item_example : plist_array_get_item one_child one_item 0 0 ≡ some 7
plist_array_get_item_example =
    plist_array_get_item_lem one_child 0 one_child-IsNodeLib (7 ∷ []) one_item one_item-IsArray 0
      (omega arith)

plist_array_append_item-Ensures_example :
    Ensures (IsArray one_child 0 (9 ∷ [])) (plist_array_append_item one_child no_item 0 9)
plist_array_append_item-Ensures_example =
    plist_array_append_item-Ensures one_child 0 one_child-IsNodeLib [] no_item no_item-IsArray 9
      refl

plist_array_set_item-Ensures_example :
    Ensures (IsArray one_child 0 (9 ∷ [])) (plist_array_set_item one_child one_item 0 9 0)
plist_array_set_item-Ensures_example =
    plist_array_set_item-Ensures one_child 0 one_child-IsNodeLib (7 ∷ []) one_item one_item-IsArray
      9 0 7 none refl (omega arith) refl refl

plist_array_remove_item-Ensures_example :
    Ensures (IsArray one_child 0 []) (plist_array_remove_item one_child one_item 0 0)
unfolding remove_at
plist_array_remove_item-Ensures_example =
    plist_array_remove_item-Ensures one_child 0 one_child-IsNodeLib (7 ∷ []) one_item
      one_item-IsArray 0 (omega arith)

plist_array_item_remove-Ensures_example :
    Ensures (IsArray one_child 0 []) (plist_array_item_remove one_child one_item 7)
unfolding remove_at
plist_array_item_remove-Ensures_example =
    plist_array_item_remove-Ensures one_child 0 one_child-IsNodeLib (7 ∷ []) one_item
      one_item-IsArray 0 7 refl
