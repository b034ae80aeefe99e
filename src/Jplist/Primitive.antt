-- ===== src/Jplist/Primitive.antt =====
-- `parse_primitive` of src/jplist.c, on the text of the token.
use libplist.Prelude.{
  ℕ, ◌-◌, ◌^◌, Bool, false, ◌&&◌, ◌||◌, List, [], ◌∷◌, Option, none, some, ◌==◌, if◌then◌else◌, ℤ,
  pos, negsuc,
}
use libplist.Bplist.Node.{PlistData}
use libplist.Bplist.Node.New.{plist_new_bool, plist_new_null, plist_new_int, plist_new_real}
use libplist.Bplist.Parse.Document.{has_prefix}
use libplist.Jplist.{isdigit, parse_decimal}

-- The operations on doubles that the code uses; `bits` is the pattern that is stored.
pub record Doubles : Type 1 where
  pub D : Type 0
  pub of_int : ℤ → D
  pub add : D → D → D
  pub sub : D → D → D
  pub mul : D → D → D
  pub pow10 : D → D
  pub tenth : D
  pub is_inf : D → Bool
  pub is_nan : D → Bool
  pub bits : D → ℕ

-- The 64 bits of an int64_t.
unfoldable pub int64_bits : ℤ → ℕ
int64_bits (pos n) = n
int64_bits (negsuc n) = 2 ^ 64 - 1 - n

unfoldable pub starts_digit : List ℕ → Bool
starts_digit [] = false
starts_digit (c ∷ r) = isdigit c

unfoldable pub starts_sign : List ℕ → Bool
starts_sign [] = false
starts_sign (c ∷ r) = (c == 45 || c == 43) && starts_digit r

-- The test for an exponent: `e` or `E`, and a digit behind it or behind a sign.
unfoldable pub starts_exponent : List ℕ → Bool
starts_exponent [] = false
starts_exponent (c ∷ r) = (c == b'e' || c == b'E') && (starts_digit r || starts_sign r)

-- The test for a fraction: a dot and a digit.
unfoldable pub starts_fraction : List ℕ → Bool
starts_fraction [] = false
starts_fraction (c ∷ r) = c == 46 && starts_digit r

abbrev pub tail : List ℕ → List ℕ
tail [] = []
tail (c ∷ r) = r

module _ (doubles : Doubles) where
  open doubles use {D, of_int, add, sub, mul, pow10, tenth, is_inf, is_nan, bits}

  -- The digits behind the dot: `frac`, and the text from `fendp` on.
  unfoldable pub fraction_loop : D → D → List ℕ → D × List ℕ
  fraction_loop frac p [] = (frac, [])
  fraction_loop frac p (c ∷ r) =
      if isdigit c
      then fraction_loop (add frac (mul (of_int (pos (c - 48))) p)) (mul p tenth) r
      else (frac, c ∷ r)

  -- `dval` behind the fraction, and the text from `fendp` on; `t` is the text from `endp` on.
  unfoldable pub with_fraction : Bool → D → List ℕ → D × List ℕ
  with_fraction is_neg dval t =
      if starts_fraction t
      then (let q = fraction_loop (of_int (pos 0)) tenth (tail t) in
          (if is_neg then sub dval q.0 else add dval q.0, q.1))
      else (dval, t)

  -- The exponent, if there is one. What follows it is not looked at.
  unfoldable pub with_exponent : D → List ℕ → Option D
  with_exponent dval [] = some dval
  with_exponent dval (c ∷ r) =
      if starts_exponent (c ∷ r) then some (mul dval (pow10 (of_int (parse_decimal r).0))) else none

  -- The branch for a floating point number.
  unfoldable pub parse_float : Bool → ℤ → List ℕ → Option PlistData
  parse_float is_neg intpart t =
      let q = with_fraction is_neg (of_int intpart) t in
      elim (with_exponent q.0 q.1) [
        | none ↦ none
        | some dval ↦ if is_inf dval || is_nan dval then none else some (plist_new_real (bits dval))
      ]

  -- The branch for numbers. `intpart <= INT64_MAX` holds for every int64_t.
  unfoldable pub parse_number : Bool → List ℕ → Option PlistData
  parse_number is_neg text =
      let q = parse_decimal text in
      elim q.1 [
        | [] ↦ some (plist_new_int (int64_bits q.0))
        | c ∷ r ↦
            if starts_fraction (c ∷ r) || starts_exponent (c ∷ r)
            then parse_float is_neg q.0 (c ∷ r)
            else none
      ]

  unfoldable pub is_negative : List ℕ → Bool
  is_negative [] = false
  is_negative (c ∷ r) = c == 45

  -- The data of the node, or `none` for NULL. `strncmp` with the length of the text asks whether
  -- the text is a prefix of the word.
  unfoldable pub parse_primitive : List ℕ → Option PlistData
  parse_primitive text =
      if has_prefix text (b'f' ∷ b'a' ∷ b'l' ∷ b's' ∷ b'e' ∷ [])
      then some (plist_new_bool 0)
      else if has_prefix text (b't' ∷ b'r' ∷ b'u' ∷ b'e' ∷ [])
      then some (plist_new_bool 1)
      else if has_prefix text (b'n' ∷ b'u' ∷ b'l' ∷ b'l' ∷ [])
      then some plist_new_null
      else if starts_digit text || (is_negative text && starts_digit (tail text))
      then parse_number (is_negative text) text
      else none
