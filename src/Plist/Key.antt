-- ===== src/Plist/Key.antt =====
-- `dict_key_hash` and `dict_key_compare` of src/plist.c, and what the hash table relies on.
use libplist.Prelude.{ℕ, ◌≡◌, ◌↔◌, refl, sym, ap, subst, ◌∙◌, arith, Bool, true, false, ◌&&◌, not}
use libplist.Prelude.{
  List, [], ◌∷◌, Option, none, some, ◌==◌, length, take, take-length, Bool-cases, inl, inr,
}
use libplist.HashTable.{Key, IsEquivalence}
use libplist.HashTable.Lawful.{IsLawful}
use libplist.Bplist.Node.{PlistData, key, strval}
use libplist.Bplist.Scalar.{c_string}
use libplist.Bplist.Serialize.{block_of, hash_bytes, same_bytes}

-- The bytes that `strval` points to; a text whose pointer is NULL has none.
unfoldable pub text_of : PlistData → List ℕ
text_of d = elim (block_of d.value) [ none ↦ [] | some s ↦ s ]

unfoldable pub is_null : Option (List ℕ) → Bool
is_null none = true
is_null (some s) = false

unfoldable pub dict_key_hash : PlistData → ℕ
dict_key_hash d = hash_bytes 5381 (take d.length (text_of d))

unfoldable pub dict_key_compare : PlistData → PlistData → Bool
dict_key_compare a b =
    not (is_null (block_of a.value))
    && not (is_null (block_of b.value))
    && a.length == b.length
    && same_bytes (c_string (text_of a)) (c_string (text_of b))

-- The data of a key, as `plist_new_key` makes it.
unfoldable pub key_data : List ℕ → PlistData
key_data t = record { value = strval t; length = length t; kind = key }

same_bytes-eq : (a b : List ℕ) → same_bytes a b ≡ true → a ≡ b
unfolding same_bytes
same_bytes-eq [] [] h = refl
same_bytes-eq [] (y ∷ b) h = cc
same_bytes-eq (x ∷ a) [] h = cc
same_bytes-eq (x ∷ a) (y ∷ b) h = ground (arith, same_bytes-eq a b)

same_bytes_refl : (a : List ℕ) → same_bytes a a ≡ true
unfolding same_bytes
same_bytes_refl [] = refl
same_bytes_refl (x ∷ a) = ground (arith, same_bytes_refl a)

pub same_bytes_iff : (a b : List ℕ) → (same_bytes a b ≡ true) ↔ (a ≡ b)
same_bytes_iff a b =
    (same_bytes-eq a b, λ e. subst (λ l. same_bytes a l ≡ true) e (same_bytes_refl a))

pub c_string_idem : (a : List ℕ) → c_string (c_string a) ≡ c_string a
unfolding c_string
c_string_idem [] = refl
c_string_idem (x ∷ a) = ground (arith, c_string_idem a)

-- A key of the table is a text, which ends at its first zero byte.
unfoldable pub compare_texts : List ℕ → List ℕ → Bool
compare_texts a b = dict_key_compare (key_data (c_string a)) (key_data (c_string b))

pub compare_texts_iff : (a b : List ℕ) → (compare_texts a b ≡ true) ↔ (c_string a ≡ c_string b)
unfolding compare_texts dict_key_compare key_data block_of is_null text_of
compare_texts_iff a b = (
  λ h.
      let same : same_bytes (c_string (c_string a)) (c_string (c_string b)) ≡ true = ground arith in
      sym (c_string_idem a) ∙ same_bytes-eq _ _ same ∙ c_string_idem b,
  λ e. rw e (let same = same_bytes_refl (c_string (c_string b)) in ground arith),
)

unfoldable pub hash_text : List ℕ → ℕ
hash_text a = dict_key_hash (key_data (c_string a))

-- The hash of a text is that of its bytes.
pub hash_text_lem : (a : List ℕ) → hash_text a ≡ hash_bytes 5381 (c_string a)
unfolding hash_text dict_key_hash key_data text_of block_of
hash_text_lem a = ap (hash_bytes 5381) (take-length (c_string a))

pub compare_texts_symm : (a b : List ℕ) → compare_texts a b ≡ compare_texts b a
compare_texts_symm a b = elim (Bool-cases (compare_texts a b)) [
  | inl e ↦ e ∙ sym ((compare_texts_iff b a).1 (sym ((compare_texts_iff a b).0 e)))
  | inr e ↦ elim (Bool-cases (compare_texts b a)) [
    | inl e' ↦ let back = (compare_texts_iff a b).1 (sym ((compare_texts_iff b a).0 e')) in cc
    | inr e' ↦ e ∙ sym e'
  ]
]

instance abbrev pub text_key : Key (List ℕ)
text_key = record { hash_func = hash_text; compare_func = compare_texts }

pub compare_texts_trans :
    (a b c : List ℕ)
    → compare_texts a b ≡ true
    → compare_texts b c ≡ true
    → compare_texts a c ≡ true
compare_texts_trans a b c h k =
    (compare_texts_iff a c).1 ((compare_texts_iff a b).0 h ∙ (compare_texts_iff b c).0 k)

pub hash_text-compare_texts : (a b : List ℕ) → compare_texts a b ≡ true → hash_text a ≡ hash_text b
hash_text-compare_texts a b h =
    hash_text_lem a ∙ ap (hash_bytes 5381) ((compare_texts_iff a b).0 h) ∙ sym (hash_text_lem b)

instance abbrev pub text_key-IsEquivalence : IsEquivalence text_key
text_key-IsEquivalence = record {
  compare_refl = λ a. (compare_texts_iff a a).1 refl;
  compare_symm = compare_texts_symm;
  compare_trans = compare_texts_trans;
}

instance abbrev pub text_key-IsLawful : IsLawful text_key
text_key-IsLawful = record {
  equivalence = text_key-IsEquivalence;
  hash-compare = hash_text-compare_texts;
}
