-- ===== src/Bplist/Utf16.antt =====
-- `plist_utf16be_to_utf8`, `plist_utf8_to_utf16be` and `is_ascii_string` of src/bplist.c.
use libplist.Prelude.{ℕ, zero, suc, ◌+◌, ◌-◌, ◌*◌, ◌/◌, ◌%◌, ◌^◌, Bool, true, ◌&&◌, ◌||◌}
use libplist.Prelude.{
  List, [], ◌∷◌, ◌++◌, Option, none, some, ◌==◌, ltb, leb, if◌then◌else◌, length,
}

abbrev pub in_range : ℕ → ℕ → ℕ → Bool
in_range lo hi x = leb lo x && leb x hi

-- `read_lead_surrogate` and, while it is set, `w`.
abbrev pub Lead : Type 0
Lead = Option ℕ

-- The bytes of one code unit outside the surrogates.
unfoldable pub utf8_of_unit : ℕ → List ℕ
utf8_of_unit wc =
    if leb 0x800 wc
    then (0xE0 + wc / 2 ^ 12 % 16) ∷ (0x80 + wc / 2 ^ 6 % 64) ∷ (0x80 + wc % 64) ∷ []
    else if leb 0x80 wc
    then (0xC0 + wc / 2 ^ 6 % 32) ∷ (0x80 + wc % 64) ∷ []
    else wc % 128 ∷ []

-- The four bytes of a code point above the units.
unfoldable pub utf8_of_pair : ℕ → List ℕ
utf8_of_pair w =
    (0xF0 + w / 2 ^ 18 % 8)
    ∷ (0x80 + w / 2 ^ 12 % 64)
    ∷ (0x80 + w / 2 ^ 6 % 64)
    ∷ (0x80 + w % 64)
    ∷ []

-- One round of the loop of `plist_utf16be_to_utf8`: the bytes written and the new state.
unfoldable pub utf16_step : ℕ → Lead → List ℕ × Lead
unfolding utf8_of_unit utf8_of_pair
utf16_step wc lead =
    if in_range 0xD800 0xDBFF wc
    then elim lead [ none ↦ ([], some (0x010000 + wc % 0x400 * 2 ^ 10)) | some w ↦ ([], none) ]
    else if in_range 0xDC00 0xDFFF wc
    then elim lead [ some w ↦ (utf8_of_pair (w + wc % 0x400), none) | none ↦ ([], none) ]
    else (utf8_of_unit wc, lead)

unfoldable pub utf16_loop : List ℕ → Lead → List ℕ
unfolding utf16_step
utf16_loop [] lead = []
utf16_loop (wc ∷ r) lead = (utf16_step wc lead).0 ++ utf16_loop r (utf16_step wc lead).1

-- `plist_utf16be_to_utf8` on the units read from the input: NULL if there are none.
unfoldable pub plist_utf16be_to_utf8 : List ℕ → Option (List ℕ)
unfolding utf16_loop
plist_utf16be_to_utf8 [] = none
plist_utf16be_to_utf8 (wc ∷ r) = some (utf16_loop (wc ∷ r) none)

-- `(c & 0xC0) == 0x80`
unfoldable pub is_trail : ℕ → Bool
is_trail c = c / 64 == 2

-- What the loop of `plist_utf8_to_utf16be` does with the bytes at its position: the units it
-- writes and the number of bytes it passes; `none` is a `break`.
unfoldable pub four_bytes : ℕ → ℕ → ℕ → ℕ → Option (List ℕ × ℕ)
four_bytes c0 c1 c2 c3 =
    let w = c3 % 64 + c2 % 64 * 2 ^ 6 + c1 % 64 * 2 ^ 12 + c0 % 8 * 2 ^ 18 in
    if (c0 == 0xF0 && ltb c1 0x90) || (c0 == 0xF4 && ltb 0x8F c1)
    then none
    else if ltb w 0x10000 || ltb 0x10FFFF w
    then none
    else some ((0xD800 + (w - 0x10000) / 2 ^ 10) ∷ (0xDC00 + (w - 0x10000) % 0x400) ∷ [], 4)

unfoldable pub three_bytes : ℕ → ℕ → ℕ → Option (List ℕ × ℕ)
three_bytes c0 c1 c2 =
    let w = c2 % 64 + c1 % 64 * 2 ^ 6 + c0 % 16 * 2 ^ 12 in
    if (c0 == 0xE0 && ltb c1 0xA0) || (c0 == 0xED && ltb 0x9F c1)
    then none
    else if ltb w 0x800
    then none
    else if in_range 0xD800 0xDFFF w
    then none
    else some (w ∷ [], 3)

unfoldable pub two_bytes : ℕ → ℕ → Option (List ℕ × ℕ)
two_bytes c0 c1 = some ((c1 % 64 + c0 % 32 * 2 ^ 6) ∷ [], 2)

-- `rest` is what follows `c0`; a byte behind the end reads as 0.
abbrev pub at_or_zero : List ℕ → ℕ → ℕ
at_or_zero [] i = 0
at_or_zero (x ∷ xs) zero = x
at_or_zero (x ∷ xs) (suc i) = at_or_zero xs i

unfoldable pub utf8_step : ℕ → List ℕ → Option (List ℕ × ℕ)
unfolding four_bytes three_bytes two_bytes is_trail
utf8_step c0 rest =
    let c1 = at_or_zero rest 0 in
    let c2 = at_or_zero rest 1 in
    let c3 = at_or_zero rest 2 in
    let n = length rest in
    if in_range 0xF0 0xF4 c0 && leb 3 n && is_trail c1 && is_trail c2 && is_trail c3
    then four_bytes c0 c1 c2 c3
    else if c0 / 16 == 14 && leb 2 n && is_trail c1 && is_trail c2
    then three_bytes c0 c1 c2
    else if in_range 0xC2 0xDF c0 && leb 1 n && is_trail c1
    then two_bytes c0 c1
    else if ltb c0 0x80
    then some (c0 ∷ [], 1)
    else none

-- The loop; `skip` bytes are still to be passed. The units are those of `outbuf`, in the
-- machine's order.
unfoldable pub utf8_loop : List ℕ → ℕ → List ℕ
unfolding utf8_step
utf8_loop [] skip = []
utf8_loop (c ∷ r) (suc skip) = utf8_loop r skip
utf8_loop (c ∷ r) zero = elim (utf8_step c r) [
  | none ↦ []
  | some (units, n) ↦ units ++ utf8_loop r (n - 1)
]

unfoldable pub plist_utf8_to_utf16be : List ℕ → List ℕ
unfolding utf8_loop
plist_utf8_to_utf16be text = utf8_loop text 0

unfoldable pub is_ascii_string : List ℕ → Bool
is_ascii_string [] = true
is_ascii_string (c ∷ r) = ltb c 0x80 && is_ascii_string r
