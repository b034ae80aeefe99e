-- ===== src/Examples/XmlText.antt =====
-- The escaping of src/xplist.c on small texts, with a `strtoull` for digits.
use libplist.Prelude.{not, true, drop, if◌then◌else◌}
use libplist.Prelude.{ℕ, ◌+◌, ◌-◌, ◌*◌, ◌^◌, ◌<◌, ◌≤◌, ◌≡◌, refl, inl, arith, min}
use libplist.Prelude.{
  List, [], ◌∷◌, ◌++◌, some, ltb, leb, ◌&&◌, if◌then◌else◌, length, Bool-cases, inr,
}
use libplist.Escaping.{escape_loop}
use libplist.Xplist.{
  append_text, entity_for, entity, unescape_loop, unescape_entities, reference, checked, utf8_of,
}
use libplist.Run.{ok}
use libplist.Xplist.Scan.{close_tag, read_text}
use libplist.Xplist.Element.{read_text-append_text}
use libplist.Xplist.Room.{IsStrtoull, entity-le}
use libplist.Bplist.Serialize.{same_bytes}
use native.Mathlib.Nat.{mul-le-mul_right, pow-suc, pow-zero}
use native.Mathlib.Numerals.{add-one}
use libplist.Prelude.{ap, ◌∙◌}

-- The value of a digit; 99 for any other character.
abbrev digit : ℕ → ℕ
digit c =
    if leb 48 c && leb c 57
    then c - 48
    else if leb 97 c && leb c 102
    then c - 87
    else if leb 65 c && leb c 70
    then c - 55
    else 99

unfoldable digits : ℕ → ℕ → ℕ → List ℕ → ℕ × ℕ
digits base val n [] = (val, n)
digits base val n (c ∷ r) =
    let more = digits base (val * base + digit c) (n + 1) r in
    if ltb (digit c) base then more else (val, n)

-- A value too large for 64 bits becomes the largest one.
abbrev strtoull : List ℕ → ℕ → ℕ × ℕ
strtoull text base = let (val, n) = digits base 0 0 text in (min val (2 ^ 64 - 1), n)

next_digit : (val base n d : ℕ) → val < base ^ n → d < base → val * base + d < base ^ (n + 1)
next_digit val base n d h k =
    let room : (val + 1) * base ≤ base ^ n * base = mul-le-mul_right base h' in
    let next : base ^ (n + 1) ≡ base ^ n * base = ap (λ i. base ^ i) (add-one n) ∙ pow-suc base n in
    omega (arith, k, room, next)
  where
    h' : val + 1 ≤ base ^ n
    h' = omega (arith, h)

digits-lt :
    (base val n : ℕ) (text : List ℕ)
    → val < base ^ n
    → (digits base val n text).0 < base ^ (digits base val n text).1
unfolding digits
digits-lt base val n [] h = h
digits-lt base val n (c ∷ r) h = elim (Bool-cases (ltb (digit c) base)) [
  | inl e ↦ rw e (
      digits-lt base (val * base + digit c) (n + 1) r
        (next_digit val base n (digit c) h (ground arith)))
  | inr e ↦ rw e h
]

strtoull-IsStrtoull : IsStrtoull strtoull
strtoull-IsStrtoull text base ten_or_sixteen =
    inl (omega (arith, digits-lt base 0 0 text (omega (arith, pow-zero base))))

-- `a<&>`
abbrev marked : List ℕ
marked = 97 ∷ 60 ∷ 38 ∷ 62 ∷ []

append_text_test :
    append_text [] marked
    ≡ (62 ∷ 97 ∷ 38 ∷ 108 ∷ 116 ∷ 59 ∷ 38 ∷ 97 ∷ 109 ∷ 112 ∷ 59 ∷ 38 ∷ 103 ∷ 116 ∷ 59 ∷ [], true)
unfolding append_text escape_loop entity_for
append_text_test = refl

-- `&#x20AC;` is the euro sign.
unescape_entities_test :
    unescape_entities strtoull (38 ∷ 35 ∷ 120 ∷ 50 ∷ 48 ∷ 65 ∷ 67 ∷ 59 ∷ [])
    ≡ some (0xE2 ∷ 0x82 ∷ 0xAC ∷ [])
unfolding unescape_entities unescape_loop entity same_bytes reference checked utf8_of digits
unescape_entities_test = refl

read_text-append_text_example :
    let tag_open = (append_text [] marked).1 in
    read_text strtoull
      (107 ∷ [])
      (not tag_open)
      (drop (if tag_open then 1 else 2) (close_tag (append_text [] marked) (107 ∷ []) ++ (10 ∷ [])))
    ≡ ok (some (marked, 10 ∷ []))
read_text-append_text_example = read_text-append_text strtoull (107 ∷ []) marked (10 ∷ [])

-- `#x20AC`
abbrev euro_name : List ℕ
euro_name = 35 ∷ 120 ∷ 50 ∷ 48 ∷ 65 ∷ 67 ∷ []

abbrev euro : List ℕ
euro = 0xE2 ∷ 0x82 ∷ 0xAC ∷ []

entity_example : length euro ≤ length euro_name + 1
unfolding entity same_bytes reference checked utf8_of digits
entity_example = entity-le strtoull strtoull-IsStrtoull euro_name (59 ∷ []) euro refl
