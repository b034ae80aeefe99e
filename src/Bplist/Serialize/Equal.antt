-- ===== src/Bplist/Serialize/Equal.antt =====
-- `plist_data_compare` is an equivalence, though `plist_data_hash` does not agree with it: data are
-- compared by their bytes and hashed by their address.
use libplist.Prelude.{◌||◌, ℕ, ◌≡◌, refl, sym, ◌∙◌, ap, arith, Bool, true, false, ◌&&◌}
use libplist.Prelude.{
  List, [], ◌∷◌, Option, none, some, ◌==◌, if◌then◌else◌, take, Bool-cases, inl, inr,
}
use libplist.HashTable.{IsEquivalence}
use libplist.Bplist.Node.{
  PlistType, boolean, int, real, string, array, dict, date, bytes, key, uid, null, PlistData,
}
use libplist.Bplist.Scalar.{c_string}
use libplist.Bplist.Serialize.{
  Heap, type_number, word_of, block_of, Class, scalar, text, raw, container, class, same_bytes,
  same_text, same_block, plist_data_compare, data_key,
}

same_bytes_symm : (a b : List ℕ) → same_bytes a b ≡ same_bytes b a
unfolding same_bytes
same_bytes_symm [] [] = refl
same_bytes_symm [] (y ∷ b) = refl
same_bytes_symm (x ∷ a) [] = refl
same_bytes_symm (x ∷ a) (y ∷ b) = ground (arith, same_bytes_symm a b)

same_bytes_trans :
    (a b c : List ℕ) → same_bytes a b ≡ true → same_bytes b c ≡ true → same_bytes a c ≡ true
unfolding same_bytes
same_bytes_trans [] [] [] h k = refl
same_bytes_trans [] [] (z ∷ c) h k = k
same_bytes_trans [] (y ∷ b) c h k = cc
same_bytes_trans (x ∷ a) [] c h k = cc
same_bytes_trans (x ∷ a) (y ∷ b) [] h k = cc
same_bytes_trans (x ∷ a) (y ∷ b) (z ∷ c) h k = ground (arith, same_bytes_trans a b c)

same_text_symm : (a b : Option (List ℕ)) → same_text a b ≡ same_text b a
unfolding same_text
same_text_symm none none = refl
same_text_symm none (some t) = refl
same_text_symm (some s) none = refl
same_text_symm (some s) (some t) = same_bytes_symm (c_string s) (c_string t)

same_text_trans :
    (a b c : Option (List ℕ)) → same_text a b ≡ true → same_text b c ≡ true → same_text a c ≡ true
unfolding same_text
same_text_trans none none c h k = k
same_text_trans none (some t) c h k = cc
same_text_trans (some s) none c h k = cc
same_text_trans (some s) (some t) none h k = cc
same_text_trans (some s) (some t) (some u) h k =
    same_bytes_trans (c_string s) (c_string t) (c_string u) h k

same_block_symm : (n : ℕ) (a b : Option (List ℕ)) → same_block n a b ≡ same_block n b a
unfolding same_block
same_block_symm n none none = refl
same_block_symm n none (some t) = refl
same_block_symm n (some s) none = refl
same_block_symm n (some s) (some t) = same_bytes_symm (take n s) (take n t)

no_bytes : (n : ℕ) (a c : Option (List ℕ)) → (n == 0) ≡ true → same_block n a c ≡ true
unfolding same_block same_bytes
no_bytes n none c h = h
no_bytes n (some s) none h = h
no_bytes n (some s) (some t) h =
    let zero_bytes : n ≡ 0 = ground arith in rw (same_block, zero_bytes) refl

same_block_trans :
    (n : ℕ) (a b c : Option (List ℕ))
    → same_block n a b ≡ true
    → same_block n b c ≡ true
    → same_block n a c ≡ true
unfolding same_block
same_block_trans n none b c h k = h
same_block_trans n (some s) none c h k = no_bytes n (some s) c h
same_block_trans n (some s) (some t) none h k = k
same_block_trans n (some s) (some t) (some u) h k =
    same_bytes_trans (take n s) (take n t) (take n u) h k

-- What is compared of the data of two nodes that are not the same, but of one class.
unfoldable similar : Class → PlistData → PlistData → Bool
similar scalar a b = a.length == b.length && word_of a.value == word_of b.value
similar text a b = same_text (block_of a.value) (block_of b.value)
similar raw a b = a.length == b.length && same_block a.length (block_of a.value) (block_of b.value)
similar container a b = false

similar_symm : (c : Class) (a b : PlistData) → similar c a b ≡ similar c b a
unfolding similar
similar_symm scalar a b = ground arith
similar_symm text a b = same_text_symm (block_of a.value) (block_of b.value)
similar_symm raw a b = elim (Bool-cases (a.length == b.length)) [
  | inl e ↦
      let same : a.length ≡ b.length = ground arith in
      rw same (
        ap (λ t. (b.length == b.length) && t)
          (same_block_symm b.length (block_of a.value) (block_of b.value)))
  | inr e ↦ ground arith
]
similar_symm container a b = refl

similar_trans :
    (c : Class) (x y z : PlistData)
    → similar c x y ≡ true
    → similar c y z ≡ true
    → similar c x z ≡ true
unfolding similar
similar_trans scalar x y z h k = ground arith
similar_trans text x y z h k =
    same_text_trans (block_of x.value) (block_of y.value) (block_of z.value) h k
similar_trans raw x y z h k =
    let same : x.length ≡ y.length = ground arith in
    let near : same_block x.length (block_of x.value) (block_of y.value) ≡ true = ground arith in
    let far : same_block x.length (block_of y.value) (block_of z.value) ≡ true =
      rw same (ground arith) in
    ground (
      arith,
      same_block_trans x.length (block_of x.value) (block_of y.value) (block_of z.value) near far,
    )
similar_trans container x y z h k = h

-- The class of the type with a number.
class_of : ℕ → Class
class_of n =
    if n == 3 || n == 8
    then text
    else if n == 7
    then raw
    else if n == 4 || n == 5
    then container
    else scalar

class_of-type_number : (k : PlistType) → class k ≡ class_of (type_number k)
unfolding class type_number class_of
class_of-type_number boolean = refl
class_of-type_number int = refl
class_of-type_number real = refl
class_of-type_number string = refl
class_of-type_number array = refl
class_of-type_number dict = refl
class_of-type_number date = refl
class_of-type_number bytes = refl
class_of-type_number key = refl
class_of-type_number uid = refl
class_of-type_number null = refl

class_congr : (k l : PlistType) → type_number k ≡ type_number l → class k ≡ class l
class_congr k l e = class_of-type_number k ∙ ap class_of e ∙ sym (class_of-type_number l)

alike : PlistData → PlistData → Bool
alike a b = type_number a.kind == type_number b.kind && similar (class a.kind) a b

alike_symm : (a b : PlistData) → alike a b ≡ alike b a
unfolding alike
alike_symm a b = elim (Bool-cases (type_number a.kind == type_number b.kind)) [
  | inl e ↦
      let same : type_number a.kind ≡ type_number b.kind = ground arith in
      ground (arith, similar_symm (class b.kind) a b, class_congr a.kind b.kind same)
  | inr e ↦ ground arith
]

alike_trans : (x y z : PlistData) → alike x y ≡ true → alike y z ≡ true → alike x z ≡ true
unfolding alike
alike_trans x y z h k =
    let same : type_number x.kind ≡ type_number y.kind = ground arith in
    ground (arith, similar_trans (class x.kind) x y z, class_congr x.kind y.kind same)

module _ (m : Heap) where
  -- Two nodes that are not the same.
  compare_other :
      (a b : ℕ) → (a == b) ≡ false → plist_data_compare m a b ≡ alike (m.data_of a) (m.data_of b)
  unfolding plist_data_compare similar alike
  compare_other a b e = ground arith

  pub compare_refl : (a : ℕ) → plist_data_compare m a a ≡ true
  unfolding plist_data_compare
  compare_refl a = let same : (a == a) ≡ true = ground arith in rw same

  pub compare_symm : (a b : ℕ) → plist_data_compare m a b ≡ plist_data_compare m b a
  compare_symm a b = elim (Bool-cases (a == b)) [
    | inl e ↦ let same : a ≡ b = ground arith in rw same
    | inr e ↦
        compare_other a b e
        ∙ alike_symm (m.data_of a) (m.data_of b)
        ∙ sym (compare_other b a (ground arith))
  ]

  pub compare_trans :
      (a b c : ℕ)
      → plist_data_compare m a b ≡ true
      → plist_data_compare m b c ≡ true
      → plist_data_compare m a c ≡ true
  compare_trans a b c h k = elim (Bool-cases (a == b)) [
    | inl e ↦ let same : a ≡ b = ground arith in rw same k
    | inr e ↦ elim (Bool-cases (b == c)) [
      | inl e' ↦ let same : b ≡ c = ground arith in rw (← same) h
      | inr e' ↦ elim (Bool-cases (a == c)) [
        | inl e'' ↦ let same : a ≡ c = ground arith in rw same (compare_refl c)
        | inr e'' ↦
            compare_other a c e''
            ∙ alike_trans (m.data_of a) (m.data_of b) (m.data_of c) (sym (compare_other a b e) ∙ h)
                (sym (compare_other b c e') ∙ k)
      ]
    ]
  ]

  instance abbrev pub data_key-IsEquivalence : IsEquivalence (data_key m)
  data_key-IsEquivalence = record {
    compare_refl = compare_refl;
    compare_symm = compare_symm;
    compare_trans = compare_trans;
  }
