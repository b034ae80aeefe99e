-- ===== src/Plist/Values.antt =====
-- The setters, getters and comparisons of numbers in src/plist.c, on the data of a node.
use libplist.Prelude.{ℕ, ◌+◌, ◌-◌, ◌%◌, ◌^◌, ◌<◌, ◌≡◌, refl, arith, Bool, true, false, not}
use libplist.Prelude.{ltb, ◌==◌, if◌then◌else◌, Bool-cases, inl, inr, ℤ, pos, negsuc}
use libplist.Bplist.Node.{PlistType, int, uid, boolean, PlistData, intval, boolval}
use libplist.Bplist.Serialize.{type_number, word_of}
use libplist.Jplist.Primitive.{int64_bits}

-- `PLIST_IS_INT` and its kin.
unfoldable pub has_type : PlistType → PlistData → Bool
has_type type d = type_number d.kind == type_number type

-- The data that `plist_set_element_val` leaves, for the types whose value is a number.
unfoldable pub plist_set_bool_val : ℕ → PlistData
plist_set_bool_val val = record { value = boolval val; length = 1; kind = boolean }

unfoldable pub plist_set_uint_val : ℕ → PlistData
plist_set_uint_val val = record {
  value = intval val;
  length = if ltb (2 ^ 63 - 1) val then 16 else 8;
  kind = int;
}

-- An int64_t is its 64 bits.
unfoldable pub plist_set_int_val : ℕ → PlistData
plist_set_int_val val = record { value = intval val; length = 8; kind = int }

unfoldable pub plist_set_uid_val : ℕ → PlistData
plist_set_uid_val val = record { value = intval val; length = 8; kind = uid }

-- What the getters of numbers store in `*val`, which was `before`; a node of another type leaves
-- it as it is.
unfoldable pub get_number : PlistType → PlistData → ℕ → ℕ
get_number type d before = if has_type type d then word_of d.value else before

-- `<` on int64_t.
unfoldable pub signed_less : ℕ → ℕ → Bool
signed_less a b = ltb ((a + 2 ^ 63) % 2 ^ 64) ((b + 2 ^ 63) % 2 ^ 64)

-- The three tests of a comparison.
unfoldable pub compare_with : (ℕ → ℕ → Bool) → ℕ → ℕ → ℤ
compare_with less val cmpval =
    if val == cmpval then pos 0 else if less val cmpval then negsuc 0 else pos 1

unfoldable pub plist_int_val_compare : PlistData → ℕ → ℤ
plist_int_val_compare d cmpval =
    if not (has_type int d) then negsuc 0 else compare_with signed_less (get_number int d 0) cmpval

unfoldable pub plist_uint_val_compare : PlistData → ℕ → ℤ
plist_uint_val_compare d cmpval =
    if not (has_type int d) then negsuc 0 else compare_with ltb (get_number int d 0) cmpval

unfoldable pub plist_uid_val_compare : PlistData → ℕ → ℤ
plist_uid_val_compare d cmpval =
    if not (has_type uid d) then negsuc 0 else compare_with ltb (get_number uid d 0) cmpval

unfoldable pub plist_bool_val_is_true : PlistData → Bool
plist_bool_val_is_true d =
    if not (has_type boolean d) then false else get_number boolean d 0 % 2 ^ 8 == 1

unfoldable pub plist_int_val_is_negative : PlistData → Bool
plist_int_val_is_negative d =
    if not (has_type int d)
    then false
    else if d.length == 16
    then false
    else signed_less (word_of d.value) 0

-- The order of the integers: the sign of the difference.
unfoldable pub sign_of_difference : ℤ → ℤ → ℤ
sign_of_difference (pos m) (pos n) = if m == n then pos 0 else if ltb m n then negsuc 0 else pos 1
sign_of_difference (pos m) (negsuc n) = pos 1
sign_of_difference (negsuc m) (pos n) = negsuc 0
sign_of_difference (negsuc m) (negsuc n) =
    if m == n then pos 0 else if ltb n m then negsuc 0 else pos 1

unfoldable pub below_zero : ℤ → Bool
below_zero (pos n) = false
below_zero (negsuc n) = true

-- The range of int64_t.
abbrev pub IsInt64 : ℤ → Type 0
IsInt64 (pos n) = n < 2 ^ 63
IsInt64 (negsuc n) = n < 2 ^ 63

compare_with-signed :
    (z w : ℤ)
    → IsInt64 z
    → IsInt64 w
    → compare_with signed_less (int64_bits z) (int64_bits w) ≡ sign_of_difference z w
unfolding compare_with signed_less int64_bits sign_of_difference
compare_with-signed (pos m) (pos n) h k = ground arith
compare_with-signed (pos m) (negsuc n) h k = ground arith
compare_with-signed (negsuc m) (pos n) h k = ground arith
compare_with-signed (negsuc m) (negsuc n) h k = ground arith

negative-signed : (z : ℤ) → IsInt64 z → signed_less (int64_bits z) 0 ≡ below_zero z
unfolding signed_less int64_bits below_zero
negative-signed (pos n) h = ground arith
negative-signed (negsuc n) h = ground arith

-- After plist_set_int_val of a number in the range of int64_t, plist_int_val_compare with another
-- one gives the sign of their difference, and plist_int_val_is_negative says whether it is below
-- zero.
pub plist_int_val_compare_lem :
    (z w : ℤ)
    → IsInt64 z
    → IsInt64 w
    → (plist_int_val_compare (plist_set_int_val (int64_bits z)) (int64_bits w)
        ≡ sign_of_difference z w)
      × (plist_int_val_is_negative (plist_set_int_val (int64_bits z)) ≡ below_zero z)
unfolding plist_int_val_compare plist_set_int_val plist_int_val_is_negative has_type type_number
    get_number word_of
plist_int_val_compare_lem z w h k = (compare_with-signed z w h k, negative-signed z h)

-- After plist_set_uint_val of a number of 64 bits, plist_uint_val_compare with another number gives
-- the sign of their difference, and plist_int_val_is_negative is false.
pub plist_uint_val_compare_lem :
    (x y : ℕ)
    → x < 2 ^ 64
    → (plist_uint_val_compare (plist_set_uint_val x) y ≡ sign_of_difference (pos x) (pos y))
      × (plist_int_val_is_negative (plist_set_uint_val x) ≡ false)
unfolding plist_uint_val_compare plist_set_uint_val plist_int_val_is_negative has_type type_number
    get_number word_of compare_with sign_of_difference signed_less
plist_uint_val_compare_lem x y h = (
  refl,
  elim (Bool-cases (ltb (2 ^ 63 - 1) x)) [
    | inl big ↦ rw big refl
    | inr low ↦ rw low (ground arith)
  ],
)
