-- ===== src/Examples/Binary.antt =====
-- Binary property lists: the parser on whole files.
use libplist.Prelude.{ℕ, arith, List, [], ◌∷◌, ◌++◌, replicate}
use libplist.Run.{Ensures}
use libplist.Bplist.Node.{Tree, PlistData}
use libplist.Bplist.Parse.Document.{magic, plist_from_bin}
use libplist.Bplist.Parse.FromBin.{IsAnswer, plist_from_bin-Ensures}

-- The tree library's nodes as values, the last child first.
mutual
  pub data PlistNode : Type 0 where
    node : PlistData → Children → PlistNode

  pub data Children : Type 0 where
    childless : Children
    behind : Children → PlistNode → Children

abbrev pub data_of : PlistNode → PlistData
data_of (node d cs) = d

abbrev pub with_data : PlistNode → PlistData → PlistNode
with_data (node d cs) d' = node d' cs

abbrev pub attach : PlistNode → PlistNode → PlistNode
attach (node d cs) c = node d (behind cs c)

abbrev pub value_tree : Tree
value_tree = record {
  Node = PlistNode;
  node_create = λ d. node d childless;
  node_attach = attach;
  get_data = data_of;
  set_data = with_data;
}

-- A number below 256 as eight bytes.
abbrev be64 : ℕ → List ℕ
be64 n = 0 ∷ 0 ∷ 0 ∷ 0 ∷ 0 ∷ 0 ∷ 0 ∷ n ∷ []

abbrev trailer : ℕ → ℕ → List ℕ
trailer objects table = replicate 6 0 ++ (1 ∷ 1 ∷ []) ++ be64 objects ++ be64 0 ++ be64 table

-- A dictionary with the key "a" for true.
abbrev small_dict : List ℕ
small_dict = magic ++ (0xD1 ∷ 1 ∷ 2 ∷ 0x51 ∷ b'a' ∷ 0x09 ∷ []) ++ (8 ∷ 11 ∷ 13 ∷ []) ++ trailer 3 14

-- An array that contains itself.
abbrev loop_array : List ℕ
loop_array = magic ++ (0xA1 ∷ 0 ∷ []) ++ (8 ∷ []) ++ trailer 1 10

plist_from_bin-Ensures_example :
    Ensures IsAnswer (plist_from_bin value_tree (λ w. w) small_dict 4096)
plist_from_bin-Ensures_example =
    plist_from_bin-Ensures value_tree (λ w. w) small_dict 4096 (omega arith) (omega arith)
