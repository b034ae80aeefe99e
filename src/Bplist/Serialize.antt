-- ===== src/Bplist/Serialize.antt =====
-- `serialize_plist` of src/bplist.c: the list of the objects to write, each once, with the table
-- of their indices. A node is the number of its address.
pub mod Entered
pub mod Equal
pub mod Grown
use libplist.Prelude.{
  ℕ, zero, suc, bit_xor, ◌≡◌, ap, arith, ◌+◌, ◌-◌, ◌*◌, ◌/◌, ◌%◌, ◌^◌, Bool, true, false, ◌&&◌, not,
}
use libplist.Prelude.{List, [], ◌∷◌, Option, none, some, ◌==◌, ltb, if◌then◌else◌, take}
use libplist.Run.{Run, ok, out_of_fuel, access, ◌>>=◌}
use libplist.PtrArray.{PtrArray, ptr_array_new, ptr_array_add, ptr_array_size}
use libplist.HashTable.{Key, Table, hash_table_new, hash_table_lookup, hash_table_insert}
use libplist.HashTable.{hash_table_remove}
use libplist.Bplist.Node.{
  PlistType, boolean, int, real, string, array, dict, date, bytes, key, uid, null, Value, no_value,
  boolval, intval, realval, strval, buff, PlistData, PlistErr, success, invalid_arg, parse, no_mem,
  circular_ref, max_nesting,
}
use libplist.Bplist.Scalar.{c_string}
use libplist.Bplist.Parse.{max_nesting_depth}
use libplist.Bplist.Write.{le_bytes}

-- The nodes in memory: their data, and their children in order.
pub record Heap : Type 0 where
  pub data_of : ℕ → PlistData
  pub children : ℕ → List ℕ

-- The number of an enumerator of `plist_type`.
unfoldable pub type_number : PlistType → ℕ
type_number boolean = 0
type_number int = 1
type_number real = 2
type_number string = 3
type_number array = 4
type_number dict = 5
type_number date = 6
type_number bytes = 7
type_number key = 8
type_number uid = 9
type_number null = 10

-- `intval` of the union, whatever number was stored in it.
unfoldable pub word_of : Value → ℕ
word_of no_value = 0
word_of (boolval b) = b
word_of (intval v) = v
word_of (realval v) = v
word_of (strval s) = 0
word_of (buff s) = 0

-- What `strval` or `buff` points to; `none` is NULL.
unfoldable pub block_of : Value → Option (List ℕ)
block_of no_value = none
block_of (boolval b) = none
block_of (intval v) = none
block_of (realval v) = none
block_of (strval s) = some s
block_of (buff s) = some s

-- How `plist_data_hash` and `plist_data_compare` treat a type.
pub data Class : Type 0 where
  scalar text raw container : Class

unfoldable pub class : PlistType → Class
class boolean = scalar
class null = scalar
class int = scalar
class real = scalar
class date = scalar
class uid = scalar
class key = text
class string = text
class bytes = raw
class array = container
class dict = container

-- `hash = ((hash << 5) + hash) + *buff` on 32 bits, with a `char` that has a sign.
unfoldable pub hash_byte : ℕ → ℕ → ℕ
hash_byte hash c = (hash * 33 + (if ltb c 128 then c else 2 ^ 32 - 256 + c)) % 2 ^ 32

unfoldable pub hash_bytes : ℕ → List ℕ → ℕ
hash_bytes hash [] = hash
hash_bytes hash (c ∷ r) = hash_bytes (hash_byte hash c) r

-- The bytes that are hashed: a text whose pointer is NULL has no bytes here.
unfoldable pub hashed : Heap → ℕ → List ℕ
hashed m k = elim (class (m.data_of k).kind) [
  | scalar ↦ le_bytes 8 (word_of (m.data_of k).value)
  | text ↦ elim (block_of (m.data_of k).value) [ none ↦ [] | some s ↦ take (m.data_of k).length s ]
  | raw ↦ le_bytes 8 k
  | container ↦ le_bytes 8 k
]

unfoldable pub plist_data_hash : Heap → ℕ → ℕ
plist_data_hash m k = hash_bytes (type_number (m.data_of k).kind + 5381) (hashed m k)

unfoldable pub same_bytes : List ℕ → List ℕ → Bool
same_bytes [] [] = true
same_bytes [] (y ∷ ys) = false
same_bytes (x ∷ xs) [] = false
same_bytes (x ∷ xs) (y ∷ ys) = x == y && same_bytes xs ys

-- `strcmp`, unless a pointer is NULL.
unfoldable pub same_text : Option (List ℕ) → Option (List ℕ) → Bool
same_text none none = true
same_text none (some t) = false
same_text (some s) none = false
same_text (some s) (some t) = same_bytes (c_string s) (c_string t)

-- `memcmp` of `n` bytes.
unfoldable pub same_block : ℕ → Option (List ℕ) → Option (List ℕ) → Bool
same_block n none b = n == 0
same_block n (some s) none = n == 0
same_block n (some s) (some t) = same_bytes (take n s) (take n t)

-- `plist_data_compare` of two nodes, which are not NULL and have data.
unfoldable pub plist_data_compare : Heap → ℕ → ℕ → Bool
plist_data_compare m a b =
    let val_a = m.data_of a in
    let val_b = m.data_of b in
    if a == b
    then true
    else if not (type_number val_a.kind == type_number val_b.kind)
    then false
    else elim (class val_a.kind) [
      | scalar ↦ val_a.length == val_b.length && word_of val_a.value == word_of val_b.value
      | text ↦ same_text (block_of val_a.value) (block_of val_b.value)
      | raw ↦
          val_a.length == val_b.length
          && same_block val_a.length (block_of val_a.value) (block_of val_b.value)
      | container ↦ a == b
    ]

-- The test of an error code: what follows on PLIST_ERR_SUCCESS, and on any other code.
unfoldable pub on_success {ℓ} : {A : Type ℓ} → PlistErr → A → A → A
on_success success a b = a
on_success _ a b = b

-- `struct serialize_s`. In `in_stack` a node stands for itself.
pub record Serialize : Type 0 where
  pub objects : PtrArray ℕ
  pub ref_table : Table ℕ ℕ
  pub in_stack : Table ℕ Bool

unfoldable pub plist_node_ptr_hash : ℕ → ℕ
plist_node_ptr_hash ptr = bit_xor ptr (ptr / 2 ^ 16) * 0x85ebca6b % 2 ^ 32

-- `plist_node_ptr_hash` and `plist_node_ptr_compare`
abbrev pub ptr_key : Key ℕ
ptr_key = record { hash_func = plist_node_ptr_hash; compare_func = λ a b. a == b }

-- `plist_data_hash` and `plist_data_compare`, with which `ref_table` is made.
abbrev pub data_key : Heap → Key ℕ
data_key m = record { hash_func = plist_data_hash m; compare_func = plist_data_compare m }

module _ (m : Heap) where
  -- `serialize_plist`, as the loop over the children sees it.
  abbrev pub Serializer : Type 0
  Serializer = ℕ → Serialize → ℕ → Run (PlistErr × Serialize)

  unfoldable pub serialize_children :
      Serializer → List ℕ → Serialize → ℕ → Run (PlistErr × Serialize)
  serialize_children self [] ser depth = ok (success, ser)
  serialize_children self (ch ∷ r) ser depth =
      self ch ser (depth + 1) >>= λ q. on_success q.0 (serialize_children self r q.1 depth) (ok q)

  -- A node that is in neither table, from the mark in `in_stack` on.
  unfoldable pub serialize_new : Serializer → ℕ → Serialize → ℕ → Run (PlistErr × Serialize)
  serialize_new self node ser depth =
      let index_val = ptr_array_size ser.objects in
      access (ptr_array_add ser.objects node) >>= λ objects.
      serialize_children self (m.children node)
        (record {
          objects = objects;
          ref_table = hash_table_insert ⦃key = data_key m⦄ ser.ref_table (some node) index_val;
          in_stack = hash_table_insert ⦃key = ptr_key⦄ ser.in_stack (some node) true;
        })
        depth
      >>= λ q. ok (
        q.0,
        record q.1 { in_stack = (hash_table_remove ⦃key = ptr_key⦄ q.1.in_stack (some node)).0 },
      )

  unfoldable pub serialize_node : Serializer → ℕ → Serialize → ℕ → Run (PlistErr × Serialize)
  serialize_node self node ser depth =
      if ltb max_nesting_depth depth
      then ok (max_nesting, ser)
      else elim (hash_table_lookup ⦃key = ptr_key⦄ ser.in_stack (some node)) [
        | some _ ↦ ok (circular_ref, ser)
        | none ↦ elim (hash_table_lookup ⦃key = data_key m⦄ ser.ref_table (some node)) [
          | some val ↦ ok (success, ser)
          | none ↦ serialize_new self node ser depth
        ]
      ]

  -- The fuel bounds the nesting.
  unfoldable pub serialize_plist : ℕ → Serializer
  serialize_plist zero node ser depth = out_of_fuel
  serialize_plist (suc fuel) node ser depth = serialize_node (serialize_plist fuel) node ser depth

  -- What `plist_to_bin` does before it writes: empty tables, and the root at depth 0.
  unfoldable pub serialize_root : ℕ → Run (PlistErr × Serialize)
  serialize_root plist =
      serialize_plist (max_nesting_depth + 2) plist
        (record {
          objects = ptr_array_new 4096;
          ref_table = hash_table_new true;
          in_stack = hash_table_new false;
        })
        0
