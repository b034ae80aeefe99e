-- ===== src/Jplist/Unescape.antt =====
-- Strings that node_to_json wrote, read by unescape_string.
use libplist.Prelude.{ℕ, ◌+◌, ◌*◌, ◌/◌, ◌%◌, ◌<◌, ◌≡◌, ◌≢◌, refl, ap, ◌∙◌, arith, true, false}
use libplist.Prelude.{
  List, [], ◌∷◌, ◌++◌, some, All, ltb, leb, ◌==◌, length, Bool-cases, Option-cases, inl, inr,
}
use libplist.Escaping.{escape, escape_loop_lem}
use libplist.Jplist.{
  hex, charmap, escape_for, append_string, simple_escape, xdigit, scan_hex, unicode_bytes,
  escape_sequence, unescape_step, unescape_chars, unescape_string,
}
use mathlib.Core.Option

pub append_string_lem :
    (outbuf s : List ℕ)
    → append_string outbuf s ≡ ((outbuf ++ (34 ∷ [])) ++ escape escape_for s) ++ (34 ∷ [])
unfolding append_string
append_string_lem outbuf s =
    ap (λ l. l ++ (34 ∷ []))
      (escape_loop_lem escape_for s [] [] s 0 0 (outbuf ++ (34 ∷ [])) refl refl refl)

pub xdigit-hex : (d : ℕ) → d < 16 → xdigit (hex d) ≡ some d
unfolding xdigit hex
xdigit-hex d h = ground arith

-- A character that node_to_json copies.
plain :
    (c : ℕ) (t : List ℕ)
    → c ≢ 92
    → unescape_chars 0 (c ∷ t) ≡ Option.map (λ u. c ∷ u) (unescape_chars 0 t)
unfolding unescape_chars unescape_step
plain c t h =
    let other : (c == 92) ≡ false = ground arith in rw (unescape_chars, unescape_step, other) refl

-- An escape, whatever stands in its place.
escaped :
    (d : ℕ) (r bytes : List ℕ) (k : ℕ)
    → escape_sequence d r ≡ some (bytes, k)
    → unescape_chars 0 (92 ∷ d ∷ r) ≡ Option.map (λ u. bytes ++ u) (unescape_chars k (d ∷ r))
unfolding unescape_chars unescape_step
escaped d r bytes k h = rw (unescape_chars, unescape_step, h) refl

-- An escape of two characters.
short_escape :
    (d c : ℕ) (t : List ℕ)
    → simple_escape d ≡ some c
    → unescape_chars 0 (92 ∷ d ∷ t) ≡ Option.map (λ u. c ∷ u) (unescape_chars 0 t)
unfolding escape_sequence unescape_chars
short_escape d c t h = escaped d t (c ∷ []) 1 (rw (escape_sequence, h) refl)

one_byte : (c : ℕ) → c < 32 → unicode_bytes c ≡ c ∷ []
unfolding unicode_bytes
one_byte c h =
    let low : leb 0x800 c ≡ false = ground arith in
    let low' : leb 0x80 c ≡ false = ground arith in
    let same : c % 128 ≡ c = omega arith in rw (low, low', same)

scan_hex-hex :
    (a b : ℕ) → a < 16 → b < 16 → scan_hex 0 (48 ∷ 48 ∷ hex a ∷ hex b ∷ []) ≡ some (a * 16 + b)
unfolding scan_hex
scan_hex-hex a b ha hb =
    let nought : xdigit 48 ≡ some 0 = unfold xdigit in refl in
    rw (scan_hex, nought, scan_hex, nought, scan_hex, xdigit-hex a ha, scan_hex, xdigit-hex b hb)
      (ap some (omega arith))

control_sequence :
    (c : ℕ) (t : List ℕ)
    → c < 32
    → escape_sequence 117 (48 ∷ 48 ∷ hex (c / 16) ∷ hex (c % 16) ∷ t) ≡ some (c ∷ [], 5)
unfolding escape_sequence simple_escape
control_sequence c t h =
    let value : c / 16 * 16 + c % 16 ≡ c = omega arith in
    let long : ltb (length (48 ∷ 48 ∷ hex (c / 16) ∷ hex (c % 16) ∷ t)) 4 ≡ false = ground arith in
    rw (long, scan_hex-hex (c / 16) (c % 16) (omega arith) (omega arith), value)
      (ap (λ l. some (l, 5)) (one_byte c h))

-- The escape of a control character that has none of its own.
long_escape :
    (c : ℕ) (t : List ℕ)
    → c < 32
    → unescape_chars 0 (92 ∷ 117 ∷ 48 ∷ 48 ∷ hex (c / 16) ∷ hex (c % 16) ∷ t)
      ≡ Option.map (λ u. c ∷ u) (unescape_chars 0 t)
unfolding unescape_chars
long_escape c t h =
    escaped 117 (48 ∷ 48 ∷ hex (c / 16) ∷ hex (c % 16) ∷ t) (c ∷ []) 5 (control_sequence c t h)

-- The short escapes of control characters.
short_control :
    (c d n : ℕ) (t : List ℕ)
    → (c == n) ≡ true
    → simple_escape d ≡ some n
    → unescape_chars 0 (92 ∷ d ∷ t) ≡ Option.map (λ u. c ∷ u) (unescape_chars 0 t)
short_control c d n t e h = let same : n ≡ c = ground arith in short_escape d c t (h ∙ ap some same)

control :
    (c : ℕ) (t : List ℕ)
    → c < 32
    → unescape_chars 0 (charmap c ++ t) ≡ Option.map (λ u. c ∷ u) (unescape_chars 0 t)
unfolding charmap simple_escape
control c t h = elim (Bool-cases (c == 8)) [
  | inl e ↦ rw (charmap, e) (short_control c b'b' 8 t e refl)
  | inr n8 ↦ elim (Bool-cases (c == 9)) [
    | inl e ↦ rw (charmap, n8, e) (short_control c b't' 9 t e refl)
    | inr n9 ↦ elim (Bool-cases (c == 10)) [
      | inl e ↦ rw (charmap, n8, n9, e) (short_control c b'n' 10 t e refl)
      | inr n10 ↦ elim (Bool-cases (c == 12)) [
        | inl e ↦ rw (charmap, n8, n9, n10, e) (short_control c b'f' 12 t e refl)
        | inr n12 ↦ elim (Bool-cases (c == 13)) [
          | inl e ↦ rw (charmap, n8, n9, n10, n12, e) (short_control c b'r' 13 t e refl)
          | inr n13 ↦ rw (charmap, n8, n9, n10, n12, n13) (long_escape c t h)
        ]
      ]
    ]
  ]
]

-- What node_to_json writes for a character that it does not copy stands for the character.
replaced :
    (c : ℕ) (e t : List ℕ)
    → escape_for c ≡ some e
    → unescape_chars 0 (e ++ t) ≡ Option.map (λ u. c ∷ u) (unescape_chars 0 t)
unfolding escape_for simple_escape
replaced c e t h = elim (Bool-cases (ltb c 0x20)) [
  | inl low ↦ let same : charmap c ≡ e = ground arith in rw (← same) (control c t (ground arith))
  | inr high ↦
      let quote : (c == 34) ≡ true = ground arith in
      let same : 92 ∷ 34 ∷ [] ≡ e = ground arith in rw (← same) (short_control c 34 34 t quote refl)
]

unescape-escape :
    (s : List ℕ) → All (λ c. c ≢ 92) s → unescape_chars 0 (escape escape_for s) ≡ some s
unfolding escape unescape_chars
unescape-escape [] h = refl
unescape-escape (c ∷ r) (hc, h) = elim (Option-cases (escape_for c)) [
  | inl e ↦ rw (escape, e, plain c (escape escape_for r) hc, unescape-escape r h)
  | inr (t, e) ↦ rw (escape, e, replaced c t (escape escape_for r) e, unescape-escape r h)
]

-- A text without a backslash that node_to_json wrote is read by unescape_string as the text again.
pub unescape_string-append_string :
    (s : List ℕ)
    → All (λ c. c ≢ 92) s
    → (written : List ℕ) × (append_string [] s ≡ 34 ∷ (written ++ (34 ∷ [])))
      × (unescape_string written ≡ some s)
unfolding unescape_string
unescape_string-append_string s h =
    (escape escape_for s, append_string_lem [] s, unescape-escape s h)
