-- ===== src/Examples/PairTree.antt =====
-- A tree library for a root with two children at most.
use libplist.Prelude.{
  ℕ, zero, suc, ◌+◌, ◌≡◌, ◌≢◌, refl, arith, List, [], ◌∷◌, ◌++◌, Option, none, some,
}
use libplist.Prelude.{◌==◌, if◌then◌else◌, get_elem?, ◌&&◌, not, All, Bool-cases, inl, inr}
use libplist.PtrArray.Cells.{insert_at, remove_at}
use libplist.Plist.Nodes.{NodeLib, IsNodeLib}

-- The children of node 0, which is the only one that may have children. A child that is given
-- twice stands once.
pub data Children : Type 0 where
  nobody : Children
  one : ℕ → Children
  two : ℕ → ℕ → Children

abbrev listed : Children → List ℕ
listed nobody = []
listed (one a) = a ∷ []
listed (two a b) = if a == b then a ∷ [] else a ∷ b ∷ []

abbrev list_of : Children → ℕ → List ℕ
list_of m p = if p == 0 then listed m else []

abbrev place : Children → ℕ → Option ℕ
place nobody c = none
place (one a) c = if a == c then some 0 else none
place (two a b) c = if a == c then some 0 else if b == c then some 1 else none

abbrev without : Children → ℕ → Option (ℕ × Children)
without nobody c = none
without (one a) c = if a == c then some (0, nobody) else none
without (two a b) c =
    if a == c
    then some (0, if a == b then nobody else one b)
    else if b == c
    then some (1, one a)
    else none

abbrev with_child : Children → ℕ → ℕ → Option Children
with_child nobody i c = some (one c)
with_child (one a) i c = if a == c then none else if i == 0 then some (two c a) else some (two a c)
with_child (two a b) i c =
    if a == b && not (a == c) then (if i == 0 then some (two c a) else some (two a c)) else none

abbrev next : Children → ℕ
next nobody = 1
next (one a) = a + 1
next (two a b) = a + b + 1

abbrev pub two_children : NodeLib
two_children = record {
  Mem = Children;
  children = list_of;
  parent = λ m c. elim (place m c) [ none ↦ none | some i ↦ some 0 ];
  node_attach = λ m p c. if p == 0 then with_child m 1 c else none;
  node_insert = λ m p i c. if p == 0 then with_child m i c else none;
  node_detach = λ m p c. if p == 0 then without m c else none;
  node_nth_child = λ m p n. get_elem? (list_of m p) n;
  node_child_position = λ m p c. if p == 0 then place m c else none;
  node_prev_sibling = λ m c. elim (place m c) [
    | none ↦ none
    | some i ↦ if i == 0 then none else get_elem? (listed m) 0
  ];
  node_first_child = λ m p. get_elem? (list_of m p) 0;
  node_next_sibling = λ m c. elim (place m c) [
    | none ↦ none
    | some i ↦ if i == 0 then get_elem? (listed m) 1 else none
  ];
  node_create = λ m. (next m, m);
}

attached_two :
    (m m' : Children) (p c : ℕ)
    → two_children.node_attach m p c ≡ some m'
    → list_of m' p ≡ list_of m p ++ (c ∷ [])
attached_two nobody m' p c e = ground arith
attached_two (one a) m' p c e = ground arith
attached_two (two a b) m' p c e = ground arith

inserted_two :
    (m m' : Children) (p i c : ℕ)
    → two_children.node_insert m p i c ≡ some m'
    → list_of m' p ≡ insert_at i c (list_of m p)
unfolding insert_at
inserted_two nobody m' p i c e = ground arith
inserted_two (one a) m' p zero c e = ground arith
inserted_two (one a) m' p (suc i) c e = ground arith
inserted_two (two a b) m' p zero c e = ground arith
inserted_two (two a b) m' p (suc i) c e = ground arith

inserted_parent :
    (m m' : Children) (p i c q : ℕ)
    → two_children.node_insert m p i c ≡ some m'
    → q ≢ c
    → two_children.parent m' q ≡ two_children.parent m q
inserted_parent nobody m' p i c q e h = ground arith
inserted_parent (one a) m' p i c q e h = ground arith
inserted_parent (two a b) m' p i c q e h = ground arith

detached_two :
    (m : Children) (p i c : ℕ)
    → get_elem? (list_of m p) i ≡ some c
    → (m' : Children) × (two_children.node_detach m p c ≡ some (i, m'))
      × (list_of m' p ≡ remove_at i (list_of m p))
      × (two_children.parent m' c ≡ none)
      × ((m'' : Children) × (two_children.node_insert m' p i c ≡ some m''))
unfolding remove_at
detached_two nobody p i c e = ground arith
detached_two (one a) p zero c e =
    (nobody, ground arith, ground arith, ground arith, (one c, ground arith))
detached_two (one a) p (suc i) c e = ground arith
detached_two (two a b) p zero c e = elim (Bool-cases (a == b)) [
  | inl same ↦ (nobody, ground arith, ground arith, ground arith, (one c, ground arith))
  | inr other ↦ (one b, ground arith, ground arith, ground arith, (two c b, ground arith))
]
detached_two (two a b) p (suc zero) c e =
    (one a, ground arith, ground arith, ground arith, (two a c, ground arith))
detached_two (two a b) p (suc (suc i)) c e = ground arith

-- Where a child stands, by its index.
below_two :
    (m : Children) (p i c : ℕ)
    → get_elem? (list_of m p) i ≡ some c
    → (two_children.parent m c ≡ some p) × (two_children.node_child_position m p c ≡ some i)
below_two nobody p i c e = ground arith
below_two (one a) p zero c e = (ground arith, ground arith)
below_two (one a) p (suc i) c e = ground arith
below_two (two a b) p zero c e = (ground arith, ground arith)
below_two (two a b) p (suc zero) c e = (ground arith, ground arith)
below_two (two a b) p (suc (suc i)) c e = ground arith

before_two :
    (m : Children) (p i c : ℕ)
    → get_elem? (list_of m p) (suc i) ≡ some c
    → two_children.node_prev_sibling m c ≡ get_elem? (list_of m p) i
before_two nobody p i c e = ground arith
before_two (one a) p i c e = ground arith
before_two (two a b) p zero c e = ground arith
before_two (two a b) p (suc i) c e = ground arith

next_two :
    (m : Children) (p i c : ℕ)
    → get_elem? (list_of m p) i ≡ some c
    → two_children.node_next_sibling m c ≡ get_elem? (list_of m p) (suc i)
next_two nobody p i c e = ground arith
next_two (one a) p zero c e = ground arith
next_two (one a) p (suc i) c e = ground arith
next_two (two a b) p zero c e = ground arith
next_two (two a b) p (suc zero) c e = ground arith
next_two (two a b) p (suc (suc i)) c e = ground arith

created_two :
    (m : Children) (p : ℕ)
    → (list_of m p ≡ list_of m p)
      × (two_children.parent m (next m) ≡ none)
      × All (λ c. c ≢ next m) (list_of m p)
created_two nobody p = elim (Bool-cases (p == 0)) [
  | inl e ↦ (refl, refl, rw e tt)
  | inr e ↦ (refl, refl, rw e tt)
]
created_two (one a) p = elim (Bool-cases (p == 0)) [
  | inl e ↦ (refl, ground arith, rw e (λ h. omega arith, tt))
  | inr e ↦ (refl, ground arith, rw e tt)
]
created_two (two a b) p = elim (Bool-cases (p == 0)) [
  | inr e ↦ (refl, ground arith, rw e tt)
  | inl e ↦ (
    refl,
    ground arith,
    elim (Bool-cases (a == b)) [
      | inl same ↦ rw (e, same) (λ h. omega arith, tt)
      | inr other ↦ rw (e, other) (λ h. omega arith, (λ h. omega arith, tt))
    ],
  )
]

pub two_children-IsNodeLib : IsNodeLib two_children
two_children-IsNodeLib = record {
  attached = attached_two;
  inserted = λ m m' p i c e. (inserted_two m m' p i c e, λ q h. inserted_parent m m' p i c q e h);
  detached = detached_two;
  below = λ m p i c e. (below_two m p i c e).0;
  nth = λ m p n. refl;
  position = λ m p i c e. (below_two m p i c e).1;
  before = before_two;
  first = λ m p. refl;
  next = next_two;
  created = created_two;
}
