-- ===== src/Examples/Dictionary.antt =====
-- The dictionary operations of src/plist.c on a dictionary of one pair at most.
use libplist.Prelude.{ℕ, zero, suc, ◌≡◌, refl, subst, arith, List, [], ◌∷◌, none, some, false}
use libplist.HashTable.{Table, hash_table_new, hash_table_insert}
use libplist.Bplist.Node.{dict, no_value, PlistData}
use libplist.Bplist.Scalar.{c_string}
use libplist.Bplist.Serialize.{same_bytes}
use libplist.Plist.Nodes.{Store, is_dict}
use libplist.Plist.Key.{key_data, text_key}
use libplist.Plist.Dict.{is_key, plist_dict_get_item, plist_dict_set_item, plist_dict_remove_item}
use libplist.Plist.Dict.Pairs.{Pairs, find, put, delete}
use libplist.Plist.Dict.Lookup.{Agrees, new-Agrees, insert-Agrees, IsDict, plist_dict_get_item_lem}
use libplist.Plist.Dict.SetItem.{plist_dict_set_item-present, plist_dict_set_item-absent}
use libplist.Plist.Dict.RemoveItem.{plist_dict_remove_item_lem}
use libplist.Plist.Dict.Iterate.{all_items, all_items_lem}
use libplist.Run.{ok}
use libplist.Examples.PairTree.{two_children, two_children-IsNodeLib, nobody, two}

-- The key "a".
abbrev a_key : List ℕ
a_key = 97 ∷ []

whole_a : c_string a_key ≡ a_key
unfolding c_string
whole_a = refl

-- Node 0 is a dictionary whose key node 1 has the value node 2, and nodes above are free.
abbrev one_pair : Pairs
one_pair = (a_key, 2) ∷ []

abbrev node_data : ℕ → PlistData
node_data zero = record { value = no_value; length = 0; kind = dict }
node_data (suc i) = key_data a_key

abbrev pair_table : Table (List ℕ) ℕ
pair_table = hash_table_insert (hash_table_new false) (some a_key) 2

abbrev pair_store : Store two_children
pair_store = record {
  mem = two 1 2;
  data_of = node_data;
  array_cache = λ _. none;
  dict_cache = λ _. some pair_table;
}

abbrev empty_store : Store two_children
empty_store = record pair_store { mem = nobody; dict_cache = λ _. none }

pair_store-IsDict : IsDict two_children 0 one_pair pair_store
unfolding is_dict find is_key key_data put
pair_store-IsDict = record {
  kind = refl;
  listed = (record { kind = refl; value = refl; sized = refl; whole = whole_a }, refl, tt);
  unique = (refl, tt);
  cached = λ ht e.
      let same : pair_table ≡ ht = cc in
      subst (λ t. Agrees t one_pair) same
        (insert-Agrees (hash_table_new false) [] a_key 2 whole_a new-Agrees);
}

empty_store-IsDict : IsDict two_children 0 [] empty_store
unfolding is_dict
empty_store-IsDict = record { kind = refl; listed = tt; unique = tt; cached = λ ht e. cc }

plist_dict_get_item_example : plist_dict_get_item two_children pair_store 0 a_key ≡ some 2
unfolding find same_bytes
plist_dict_get_item_example =
    plist_dict_get_item_lem two_children 0 one_pair pair_store pair_store-IsDict a_key whole_a

plist_dict_set_item-present_example :
    IsDict two_children 0 ((a_key, 3) ∷ []) (plist_dict_set_item two_children pair_store 0 a_key 3)
unfolding find put same_bytes
plist_dict_set_item-present_example =
    plist_dict_set_item-present two_children 0 two_children-IsNodeLib one_pair pair_store
      pair_store-IsDict a_key 3 whole_a refl 2 refl

plist_dict_set_item-absent_example :
    IsDict two_children 0 ((a_key, 3) ∷ []) (plist_dict_set_item two_children empty_store 0 a_key 3)
unfolding find put same_bytes
plist_dict_set_item-absent_example =
    plist_dict_set_item-absent two_children 0 two_children-IsNodeLib [] empty_store
      empty_store-IsDict a_key 3 whole_a refl (λ e. omega arith) refl

plist_dict_remove_item_example :
    IsDict two_children 0 [] (plist_dict_remove_item two_children pair_store 0 a_key)
unfolding delete same_bytes
plist_dict_remove_item_example =
    plist_dict_remove_item_lem two_children 0 two_children-IsNodeLib one_pair pair_store
      pair_store-IsDict a_key whole_a

all_items_example : all_items two_children 2 pair_store 0 ≡ ok one_pair
all_items_example =
    all_items_lem two_children 0 two_children-IsNodeLib pair_store one_pair pair_store-IsDict
