-- ===== src/Bplist/Node.antt =====
-- The data of a node (`struct plist_data_s` of src/plist.h) and what src/bplist.c asks of the
-- tree library under libcnary/.
pub mod New
use libplist.Prelude.{ℕ, List}

-- `plist_type`, less PLIST_NONE
pub data PlistType : Type 0 where
  boolean int real string array dict date bytes key uid null : PlistType

-- The union of `struct plist_data_s`. A double is its bit pattern.
pub data Value : Type 0 where
  no_value : Value
  boolval : ℕ → Value
  intval : ℕ → Value
  realval : ℕ → Value
  strval : List ℕ → Value
  buff : List ℕ → Value

pub record PlistData : Type 0 where
  pub value : Value
  pub length : ℕ
  pub kind : PlistType

-- The calls that src/bplist.c makes of the tree library. `node_attach parent child` is `parent`
-- after the call, whose result the callers ignore.
pub record Tree : Type 1 where
  pub Node : Type 0
  pub node_create : PlistData → Node
  pub node_attach : Node → Node → Node
  pub get_data : Node → PlistData
  pub set_data : Node → PlistData → Node

-- `plist_err_t`
pub data PlistErr : Type 0 where
  success invalid_arg parse no_mem circular_ref max_nesting : PlistErr
