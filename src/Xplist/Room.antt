-- ===== src/Xplist/Room.antt =====
-- The room that the bytes of an entity have.
use libplist.Prelude.{ℕ, ◌+◌, ◌^◌, ◌<◌, ◌≤◌, ◌≡◌, ◌⊎◌, inl, inr, ap, refl, arith}
use libplist.Prelude.{◌&&◌, ◌||◌, List, ◌++◌, some}
use libplist.Prelude.{leb, ◌==◌, length, drop, get_or, Bool-cases}
use libplist.Xplist.{utf8_of, checked, reference, entity}

-- The documented behaviour of `strtoull`: `n` characters that are digits of a base make a number
-- below its `n`th power, or with a sign before them the negation of one in 64 bits.
abbrev pub IsStrtoull : (List ℕ → ℕ → ℕ × ℕ) → Type 0
IsStrtoull f =
    (text : List ℕ) (base : ℕ)
    → (base ≡ 10) ⊎ (base ≡ 16)
    → ((f text base).0 < base ^ (f text base).1)
      ⊎ (2 ^ 64 ≤ (f text base).0 + base ^ (f text base).1)

utf8_of-le : (val : ℕ) → (length (utf8_of val) ≤ 4) × (val < 0x10000 → length (utf8_of val) ≤ 3)
unfolding utf8_of
utf8_of-le val = (ground arith, ground arith)

checked-le :
    (entlen val used : ℕ) (bs : List ℕ)
    → checked entlen val used ≡ some bs
    → (length bs ≤ 4) × (val < 0x110000) × (used ≡ entlen) × (val < 0x10000 → length bs ≤ 3)
unfolding checked
checked-le entlen val used bs h =
    (ground (arith, utf8_of-le val), ground arith, ground arith, ground (arith, utf8_of-le val))

module _ (strtoull : List ℕ → ℕ → ℕ × ℕ) (documented : IsStrtoull strtoull) where
  -- One decimal digit is less than four bytes.
  one_digit :
      (text : List ℕ)
      → (strtoull text 10).1 ≡ 1
      → (strtoull text 10).0 < 0x110000
      → (strtoull text 10).0 < 0x10000
  one_digit text one small =
      let ten : 10 ^ (strtoull text 10).1 ≡ 10 = ap (λ n. 10 ^ n) one in
      elim (documented text 10 (inl refl)) [
        | inl below ↦ omega arith
        | inr negative ↦ absurd (omega arith)
      ]

  reference-le :
      (ent rest bs : List ℕ) → reference strtoull ent rest ≡ some bs → length bs ≤ length ent + 1
  unfolding reference
  reference-le ent rest bs h =
      elim (Bool-cases (leb 2 (length ent) && (get_or ent 1 0 == 120 || get_or ent 1 0 == 88))) [
        | inl hex ↦
            let long : 3 ≤ length ent = ground arith in
            let (val, n) = strtoull (drop 2 ent ++ rest) 16 in
            let made : checked (length ent) val (n + 2) ≡ some bs = ground arith in
            let (four, _, _, _) = checked-le (length ent) val (n + 2) bs made in omega arith
        | inr decimal ↦
            let long : 2 ≤ length ent = ground arith in
            let text = drop 1 ent ++ rest in
            let (val, n) = strtoull text 10 in
            let made : checked (length ent) val (n + 1) ≡ some bs = ground arith in
            let (four, small, used, three) = checked-le (length ent) val (n + 1) bs made in
            elim (Bool-cases (leb 3 (length ent))) [
              | inl e ↦ ground arith
              | inr e ↦
                  let two : length ent ≡ 2 = ground arith in
                  omega (arith, three (one_digit text (omega arith) small))
            ]
      ]

  -- What unescape_entities writes in the place of an entity is not longer than its name with the
  -- character before it, so the test for an underflow behind the move always passes, if strtoull
  -- behaves as documented for the bases 10 and 16.
  pub entity-le :
      (ent rest bs : List ℕ) → entity strtoull ent rest ≡ some bs → length bs ≤ length ent + 1
  unfolding entity
  entity-le ent rest bs h = ground (arith, reference-le ent rest bs)
