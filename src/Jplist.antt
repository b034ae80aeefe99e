-- ===== src/Jplist.antt =====
-- src/jplist.c: the text of strings and numbers in JSON. A text is the list of its bytes; a
-- pointer into one is the list from there on.
pub mod Unescape
pub mod Decimal
pub mod Room
pub mod Primitive
pub mod Parse
use libplist.Prelude.{
  ℕ, zero, suc, ◌+◌, ◌-◌, ◌*◌, ◌/◌, ◌%◌, ◌^◌, Bool, true, false, ◌&&◌, ◌||◌, List, [], ◌∷◌, ◌++◌,
}
use libplist.Prelude.{
  Option, none, some, ltb, leb, ◌==◌, if◌then◌else◌, length, take, ℤ, pos, negsuc,
}
use libplist.Escaping.{escape_loop}
use mathlib.Core.Option

-- The character of a hexadecimal digit.
unfoldable pub hex : ℕ → ℕ
hex d = if ltb d 10 then 48 + d else 87 + d

-- `charmap` of node_to_json.
unfoldable pub charmap : ℕ → List ℕ
charmap c =
    if c == 8
    then 92 ∷ b'b' ∷ []
    else if c == 9
    then 92 ∷ b't' ∷ []
    else if c == 10
    then 92 ∷ b'n' ∷ []
    else if c == 12
    then 92 ∷ b'f' ∷ []
    else if c == 13
    then 92 ∷ b'r' ∷ []
    else 92 ∷ b'u' ∷ 48 ∷ 48 ∷ hex (c / 16) ∷ hex (c % 16) ∷ []

-- What node_to_json writes for a character that it does not copy.
unfoldable pub escape_for : ℕ → Option (List ℕ)
escape_for c =
    if ltb c 0x20 then some (charmap c) else if c == 34 then some (92 ∷ 34 ∷ []) else none

-- The branch of node_to_json for a string or a key.
unfoldable pub append_string : List ℕ → List ℕ → List ℕ
append_string outbuf strval =
    escape_loop escape_for strval strval 0 0 (outbuf ++ (34 ∷ [])) ++ (34 ∷ [])

-- The escapes of one character.
unfoldable pub simple_escape : ℕ → Option ℕ
simple_escape d =
    if d == 34 || d == 47 || d == 92
    then some d
    else if d == b'b'
    then some 8
    else if d == b'f'
    then some 12
    else if d == b'r'
    then some 13
    else if d == b'n'
    then some 10
    else if d == b't'
    then some 9
    else none

-- The value of a digit, if `isxdigit`.
unfoldable pub xdigit : ℕ → Option ℕ
xdigit c =
    if leb 48 c && leb c 57
    then some (c - 48)
    else if leb 97 c && leb c 102
    then some (c - 87)
    else if leb 65 c && leb c 70
    then some (c - 55)
    else none

-- `sscanf(s, "%04x", &val)` of four digits, from the value `acc` on.
unfoldable pub scan_hex : ℕ → List ℕ → Option ℕ
scan_hex acc [] = some acc
scan_hex acc (c ∷ r) = elim (xdigit c) [ none ↦ none | some d ↦ scan_hex (acc * 16 + d) r ]

-- The bytes that stand for `\uXXXX`.
unfoldable pub unicode_bytes : ℕ → List ℕ
unicode_bytes val =
    if leb 0x800 val
    then (0xE0 + val / 2 ^ 12 % 16) ∷ (0x80 + val / 2 ^ 6 % 64) ∷ (0x80 + val % 64) ∷ []
    else if leb 0x80 val
    then (0xC0 + val / 2 ^ 6 % 32) ∷ (0x80 + val % 64) ∷ []
    else (val % 128) ∷ []

-- A backslash with `d` and then `r` behind it: the bytes in its place, and how many characters
-- behind the backslash are used up; `none` is an invalid escape.
unfoldable pub escape_sequence : ℕ → List ℕ → Option (List ℕ × ℕ)
escape_sequence d r = elim (simple_escape d) [
  | some c ↦ some (c ∷ [], 1)
  | none ↦
      if d == b'u'
      then if ltb (length r) 4
        then none
        else Option.map (λ val. (unicode_bytes val, 5)) (scan_hex 0 (take 4 r))
      else none
]

-- One round of unescape_string. A backslash at the end stands for itself. What is put in the place
-- of an escape is looked at again, but holds no backslash that begins one.
unfoldable pub unescape_step : ℕ → List ℕ → Option (List ℕ × ℕ)
unescape_step c r =
    if c == 92
    then elim r [ [] ↦ some (c ∷ [], 0) | d ∷ t ↦ escape_sequence d t ]
    else some (c ∷ [], 0)

-- The loop, with `k` characters that are used up already.
unfoldable pub unescape_chars : ℕ → List ℕ → Option (List ℕ)
unescape_chars k [] = some []
unescape_chars (suc k) (c ∷ r) = unescape_chars k r
unescape_chars zero (c ∷ r) = elim (unescape_step c r) [
  | none ↦ none
  | some (bytes, k) ↦ Option.map (λ t. bytes ++ t) (unescape_chars k r)
]

unfoldable pub unescape_string : List ℕ → Option (List ℕ)
unescape_string str_val = unescape_chars 0 str_val

unfoldable pub isdigit : ℕ → Bool
isdigit c = leb 48 c && leb c 57

-- INT64_MAX and PO10i_LIMIT
abbrev pub int64_max : ℕ
int64_max = 2 ^ 63 - 1

abbrev pub po10i_limit : ℕ
po10i_limit = int64_max / 10

-- The first loop of parse_decimal: `x`, and the text from `endp` on.
unfoldable pub decimal_loop : ℕ → ℕ → List ℕ → ℕ × List ℕ
decimal_loop most x [] = (x, [])
decimal_loop most x (c ∷ r) =
    if isdigit c
    then if ltb po10i_limit x
      then (most, c ∷ r)
      else if ltb most (x * 10 % 2 ^ 64 + (c - 48))
      then (most, c ∷ r)
      else decimal_loop most (x * 10 % 2 ^ 64 + (c - 48)) r
    else (x, c ∷ r)

-- The second loop.
unfoldable pub skip_digits : List ℕ → List ℕ
skip_digits [] = []
skip_digits (c ∷ r) = if isdigit c then skip_digits r else c ∷ r

-- `-(int64_t)x`, and INT64_MIN for the largest `x`.
unfoldable pub negated : ℕ → ℤ
negated zero = pos 0
negated (suc n) = negsuc n

-- The result, and the text from `endp` on.
unfoldable pub parse_decimal : List ℕ → ℤ × List ℕ
parse_decimal [] = (pos 0, [])
parse_decimal (c ∷ r) =
    if c == 45
    then (let q = decimal_loop (int64_max + 1) 0 r in (negated q.0, skip_digits q.1))
    else if c == 43
    then (let q = decimal_loop int64_max 0 r in (pos q.0, skip_digits q.1))
    else (let q = decimal_loop int64_max 0 (c ∷ r) in (pos q.0, skip_digits q.1))
