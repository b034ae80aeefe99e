-- ===== src/Examples/Numbers.antt =====
-- Numbers in nodes: setters and comparisons.
use libplist.Prelude.{◌≡◌, ◌-◌, ◌^◌, refl, arith, true, false, pos, negsuc}
use libplist.Bplist.Node.New.{plist_new_uint}
use libplist.Bplist.Serialize.{type_number, word_of}
use libplist.Jplist.Primitive.{int64_bits}
use libplist.Plist.Values.{
  has_type, plist_set_bool_val, plist_set_uint_val, plist_set_int_val, plist_set_uid_val,
  get_number, signed_less, compare_with, plist_int_val_compare, plist_uint_val_compare,
  plist_uid_val_compare, plist_bool_val_is_true, plist_int_val_is_negative, sign_of_difference,
  below_zero, plist_int_val_compare_lem, plist_uint_val_compare_lem,
}

plist_int_val_compare_example :
    (plist_int_val_compare (plist_set_int_val (int64_bits (negsuc 4))) (int64_bits (pos 3))
      ≡ sign_of_difference (negsuc 4) (pos 3))
    × (plist_int_val_is_negative (plist_set_int_val (int64_bits (negsuc 4)))
        ≡ below_zero (negsuc 4))
plist_int_val_compare_example =
    plist_int_val_compare_lem (negsuc 4) (pos 3) (omega arith) (omega arith)

plist_uint_val_compare_example :
    (plist_uint_val_compare (plist_set_uint_val (2 ^ 64 - 1)) 3
      ≡ sign_of_difference (pos (2 ^ 64 - 1)) (pos 3))
    × (plist_int_val_is_negative (plist_set_uint_val (2 ^ 64 - 1)) ≡ false)
plist_uint_val_compare_example = plist_uint_val_compare_lem (2 ^ 64 - 1) 3 (omega arith)

-- An unsigned value of 2^63 or more compares less than a positive number.
unsigned_as_signed_test : plist_int_val_compare (plist_set_uint_val (2 ^ 63)) 3 ≡ negsuc 0
unfolding plist_int_val_compare plist_set_uint_val has_type type_number get_number word_of
    compare_with signed_less
unsigned_as_signed_test = refl

-- The same number has another length when plist_new_uint makes the node.
new_uint_test : (plist_new_uint (2 ^ 31)).length ≡ 16
unfolding plist_new_uint
new_uint_test = refl

set_uint_test : (plist_set_uint_val (2 ^ 31)).length ≡ 8
unfolding plist_set_uint_val
set_uint_test = refl

true_test : plist_bool_val_is_true (plist_set_bool_val 1) ≡ true
unfolding plist_bool_val_is_true plist_set_bool_val has_type type_number get_number word_of
true_test = refl

uid_test : plist_uid_val_compare (plist_set_uid_val 7) 9 ≡ negsuc 0
unfolding plist_uid_val_compare plist_set_uid_val has_type type_number get_number word_of
    compare_with
uid_test = refl
