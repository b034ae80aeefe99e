-- ===== src/Plist/Nodes.antt =====
-- The state of src/plist.c: the tree that libcnary/ keeps, the data of the nodes, and the caches
-- behind the field `hashtable`. A node is the number of its address.
use libplist.Prelude.{
  ℕ, ◌+◌, ◌≡◌, ◌==◌, ◌≢◌, List, [], ◌∷◌, ◌++◌, Option, none, some, if◌then◌else◌, get_elem?,
}
use libplist.Prelude
use libplist.Prelude.{suc, All, ◌^◌, ◌-◌, Bool, true, false}
use libplist.PtrArray.{PtrArray}
use libplist.PtrArray.Cells.{insert_at, remove_at}
use libplist.HashTable.{Table}
use libplist.Bplist.Node.{PlistType, array, dict, PlistData}

-- What src/plist.c calls of libcnary/. `children m p` are the nodes from `node_first_child` on,
-- by `node_next_sibling`; `none` is an error code, and then nothing has changed.
pub record NodeLib : Type 1 where
  pub Mem : Type 0
  pub children : Mem → ℕ → List ℕ
  pub parent : Mem → ℕ → Option ℕ
  pub node_attach : Mem → ℕ → ℕ → Option Mem
  pub node_insert : Mem → ℕ → ℕ → ℕ → Option Mem
  pub node_detach : Mem → ℕ → ℕ → Option (ℕ × Mem)
  pub node_nth_child : Mem → ℕ → ℕ → Option ℕ
  pub node_child_position : Mem → ℕ → ℕ → Option ℕ
  pub node_prev_sibling : Mem → ℕ → Option ℕ
  pub node_first_child : Mem → ℕ → Option ℕ
  pub node_next_sibling : Mem → ℕ → Option ℕ
  pub node_create : Mem → ℕ × Mem

-- The documented behaviour of these calls: a child stands once, below one parent; attaching
-- appends, and inserting puts a child before an index, or at the end; detaching takes the child
-- out and gives its index, and it has no parent then and can be put back there; a node created is
-- new, has no parent, and leaves the others as they are.
pub record IsNodeLib (lib : NodeLib) : Type 0 where
  pub attached :
      (m m' : lib.Mem) (p c : ℕ)
      → lib.node_attach m p c ≡ some m'
      → lib.children m' p ≡ lib.children m p ++ (c ∷ [])
  pub inserted :
      (m m' : lib.Mem) (p i c : ℕ)
      → lib.node_insert m p i c ≡ some m'
      → (lib.children m' p ≡ insert_at i c (lib.children m p))
        × ((q : ℕ) → q ≢ c → lib.parent m' q ≡ lib.parent m q)
  pub detached :
      (m : lib.Mem) (p i c : ℕ)
      → get_elem? (lib.children m p) i ≡ some c
      → (m' : lib.Mem) × (lib.node_detach m p c ≡ some (i, m'))
        × (lib.children m' p ≡ remove_at i (lib.children m p))
        × (lib.parent m' c ≡ none)
        × ((m'' : lib.Mem) × (lib.node_insert m' p i c ≡ some m''))
  pub below :
      (m : lib.Mem) (p i c : ℕ) → get_elem? (lib.children m p) i ≡ some c → lib.parent m c ≡ some p
  pub nth : (m : lib.Mem) (p n : ℕ) → lib.node_nth_child m p n ≡ get_elem? (lib.children m p) n
  pub position :
      (m : lib.Mem) (p i c : ℕ)
      → get_elem? (lib.children m p) i ≡ some c
      → lib.node_child_position m p c ≡ some i
  pub before :
      (m : lib.Mem) (p i c : ℕ)
      → get_elem? (lib.children m p) (suc i) ≡ some c
      → lib.node_prev_sibling m c ≡ get_elem? (lib.children m p) i
  pub first : (m : lib.Mem) (p : ℕ) → lib.node_first_child m p ≡ get_elem? (lib.children m p) 0
  pub next :
      (m : lib.Mem) (p i c : ℕ)
      → get_elem? (lib.children m p) i ≡ some c
      → lib.node_next_sibling m c ≡ get_elem? (lib.children m p) (suc i)
  pub created :
      (m : lib.Mem) (p : ℕ)
      → (lib.children (lib.node_create m).1 p ≡ lib.children m p)
        × (lib.parent (lib.node_create m).1 (lib.node_create m).0 ≡ none)
        × All (λ c. c ≢ (lib.node_create m).0) (lib.children m p)

-- The store: the tree, each node's data, and the lookup array or table that the field
-- `hashtable` of an array or a dictionary points to.
pub record Store (lib : NodeLib) : Type 0 where
  pub mem : lib.Mem
  pub data_of : ℕ → PlistData
  pub array_cache : ℕ → Option (PtrArray ℕ)
  -- A key of the table stands for the data with that text.
  pub dict_cache : ℕ → Option (Table (List ℕ) ℕ)

abbrev pub int_max : ℕ
int_max = 2 ^ 31 - 1

unfoldable pub is_array : PlistType → Bool
is_array array = true
is_array _ = false

unfoldable pub is_dict : PlistType → Bool
is_dict dict = true
is_dict _ = false

-- `plist_free` of a node: it leaves its parent, and its memory is released, which is not
-- modelled. A refusal of the tree library ends it.
module _ (lib : NodeLib) where
  unfoldable pub plist_free : Store lib → ℕ → Store lib
  plist_free s node = elim (lib.parent s.mem node) [
    | none ↦ s
    | some p ↦ elim (lib.node_detach s.mem p node) [
      | none ↦ s
      | some (i, mem) ↦ record s { mem = mem }
    ]
  ]

  abbrev pub node_type : Store lib → ℕ → PlistType
  node_type s node = (s.data_of node).kind

  -- The field `count` of a node.
  abbrev pub node_n_children : Store lib → ℕ → ℕ
  node_n_children s node = Prelude.length (lib.children s.mem node)
