-- ===== src/Jplist/Decimal.antt =====
-- `parse_decimal` reads a number and clamps it.
use libplist.Prelude.{
  ℕ, ◌+◌, ◌-◌, ◌*◌, ◌≤◌, ◌≡◌, refl, ap, min, arith, true, false, List, [], ◌∷◌, ◌++◌,
}
use libplist.Prelude.{◌%◌, ◌^◌, All, ltb, ◌==◌, Bool-cases, inl, inr, pos}
use libplist.Jplist.{
  isdigit, int64_max, po10i_limit, decimal_loop, skip_digits, negated, parse_decimal,
}

abbrev pub IsDigit : ℕ → Type 0
IsDigit c = isdigit c ≡ true

-- The value of digits behind those that make `acc`.
unfoldable pub value_from : ℕ → List ℕ → ℕ
value_from acc [] = acc
value_from acc (c ∷ r) = value_from (acc * 10 + (c - 48)) r

-- The text does not go on with a digit.
abbrev pub Stops : List ℕ → Type 0
Stops [] = Unit {0}
Stops (c ∷ r) = isdigit c ≡ false

value_from-le : (x : ℕ) (ds : List ℕ) → x ≤ value_from x ds
unfolding value_from
value_from-le x [] = omega arith
value_from-le x (c ∷ r) = omega (arith, value_from-le (x * 10 + (c - 48)) r)

skip_digits-append :
    (ds rest : List ℕ) → All IsDigit ds → Stops rest → skip_digits (ds ++ rest) ≡ rest
unfolding skip_digits
skip_digits-append [] [] h s = refl
skip_digits-append [] (c ∷ r) h s = rw s
skip_digits-append (d ∷ ds) rest (hd, h) s = rw hd (skip_digits-append ds rest h s)

-- The two loops.
abbrev scanned : ℕ → ℕ → List ℕ → ℕ × List ℕ
scanned most x ds = let q = decimal_loop most x ds in (q.0, skip_digits q.1)

scanned_lem :
    (most x : ℕ) (ds rest : List ℕ)
    → int64_max ≤ most
    → most ≤ int64_max + 1
    → x ≤ most
    → All IsDigit ds
    → Stops rest
    → scanned most x (ds ++ rest) ≡ (min most (value_from x ds), rest)
unfolding decimal_loop skip_digits value_from
scanned_lem most x [] [] lo hi small h s = ap (λ n. (n, [])) (omega arith)
scanned_lem most x [] (c ∷ r) lo hi small h s =
    rw (decimal_loop, s, skip_digits, s) (ap (λ n. (n, c ∷ r)) (omega arith))
scanned_lem most x (d ∷ ds) rest lo hi small (hd, h) s =
    let y = x * 10 + (d - 48) in
    let grows = value_from-le y ds in
    let skipped : skip_digits (d ∷ (ds ++ rest)) ≡ rest = rw hd (skip_digits-append ds rest h s) in
    elim (Bool-cases (ltb po10i_limit x)) [
      | inl big ↦
          let clamped : most ≡ min most (value_from y ds) = ground (arith, grows) in
          rw (decimal_loop, hd, big, skipped) (ap (λ n. (n, rest)) clamped)
      | inr e ↦
          let plain : x * 10 % 2 ^ 64 ≡ x * 10 = ground arith in
          elim (Bool-cases (ltb most y)) [
            | inl over ↦
                let clamped : most ≡ min most (value_from y ds) = ground (arith, grows) in
                rw (decimal_loop, hd, e, plain, over, skipped) (ap (λ n. (n, rest)) clamped)
            | inr fits ↦
                rw (decimal_loop, hd, e, plain, fits)
                  (scanned_lem most y ds rest lo hi (ground arith) h s)
          ]
    ]

-- parse_decimal reads the digits up to the first character that is none and gives their value, with
-- the sign if there is a minus, clamped to the range of int64_t.
pub parse_decimal_lem :
    (d : ℕ) (ds rest : List ℕ)
    → All IsDigit (d ∷ ds)
    → Stops rest
    → (parse_decimal (d ∷ (ds ++ rest)) ≡ (pos (min int64_max (value_from 0 (d ∷ ds))), rest))
      × (parse_decimal (45 ∷ d ∷ (ds ++ rest))
          ≡ (negated (min (int64_max + 1) (value_from 0 (d ∷ ds))), rest))
unfolding parse_decimal
parse_decimal_lem d ds rest (hd, h) s =
    let digit : (48 ≤ d) × (d ≤ 57) = unfold isdigit in ground arith in
    let plain : (d == 45) ≡ false = ground arith in
    let plain' : (d == 43) ≡ false = ground arith in
    let up =
      scanned_lem int64_max 0 (d ∷ ds) rest (omega arith) (omega arith) (omega arith) (hd, h) s in
    let down =
      scanned_lem (int64_max + 1) 0 (d ∷ ds) rest (omega arith) (omega arith) (omega arith) (hd, h)
        s in
    (rw (plain, plain') (ap (λ q. (pos q.0, q.1)) up), ap (λ q. (negated q.0, q.1)) down)
