-- ===== src/Oplist.antt =====
-- src/oplist.c: data in the OpenStep format, and the white space and comments between its bytes. The
-- digits are those of src/jplist.c: `%02x` and `isxdigit` with `HEX_DIGIT`.
pub mod RoundTrip
use libplist.Prelude.{
  ℕ, zero, suc, ◌+◌, ◌*◌, ◌/◌, ◌%◌, Bool, ◌&&◌, ◌||◌, not, List, [], ◌∷◌, ◌++◌, Option, none, some,
}
use libplist.Prelude.{◌==◌, if◌then◌else◌, length}
use libplist.Jplist.{hex, xdigit}
use mathlib.Core.Option

-- The loop of node_to_openstep over the bytes of data, from index `j` on: `%02x` for each, and with
-- `prettify` a space after every four.
unfoldable pub data_loop : Bool → ℕ → List ℕ → List ℕ
data_loop prettify j [] = []
data_loop prettify j (b ∷ r) =
    (if prettify && not (j == 0) && j % 4 == 0 then 32 ∷ [] else [])
    ++ (hex (b / 16) ∷ hex (b % 16) ∷ data_loop prettify (j + 1) r)

-- The branch for data.
unfoldable pub append_data : Bool → List ℕ → List ℕ → List ℕ
append_data prettify outbuf buff = outbuf ++ (60 ∷ (data_loop prettify 0 buff ++ (62 ∷ [])))

-- The two loops over a comment: up to the end of the line, and behind its end.
unfoldable pub line_comment : List ℕ → List ℕ
line_comment [] = []
line_comment (c ∷ r) = if c == 10 || c == 13 then c ∷ r else line_comment r

unfoldable pub block_comment : List ℕ → List ℕ
block_comment [] = []
block_comment (c ∷ []) = []
block_comment (c ∷ d ∷ r) = if c == 42 && d == 47 then r else block_comment (d ∷ r)

-- What is left of the text behind a comment that it begins with. The second character is looked at
-- again.
unfoldable pub skip_comment : List ℕ → List ℕ
skip_comment [] = []
skip_comment (c ∷ []) = c ∷ []
skip_comment (c ∷ d ∷ r) =
    if c == 47 && d == 47
    then line_comment (d ∷ r)
    else if c == 47 && d == 42
    then block_comment (d ∷ r)
    else c ∷ d ∷ r

unfoldable pub is_white : ℕ → Bool
is_white c = c == 32 || c == 9 || c == 13 || c == 10

-- The loop of parse_skip_ws; each round takes a character of the text, so that as many rounds as
-- it has characters are enough.
unfoldable pub skip_rounds : ℕ → List ℕ → List ℕ
skip_rounds zero t = t
skip_rounds (suc n) t = elim (skip_comment t) [
  | [] ↦ []
  | c ∷ r ↦ if is_white c then skip_rounds n r else c ∷ r
]

unfoldable pub parse_skip_ws : List ℕ → List ℕ
parse_skip_ws t = skip_rounds (length t) t

-- The loop of node_from_openstep behind the `<`, with the bytes that it has so far: all bytes, and
-- the text behind the `>`; `none` is PLIST_ERR_PARSE. Each round takes two characters.
unfoldable pub read_rounds : ℕ → List ℕ → List ℕ → Option (List ℕ × List ℕ)
read_rounds zero bytes t = none
read_rounds (suc n) bytes t = elim (parse_skip_ws t) [
  | [] ↦ none
  | c ∷ r ↦ if c == 62 then some (bytes, r) else elim (xdigit c) [
    | none ↦ none
    | some hi ↦ elim r [
      | [] ↦ none
      | d ∷ s ↦ elim (xdigit d) [
        | none ↦ none
        | some lo ↦ read_rounds n (bytes ++ ((hi * 16 + lo) ∷ [])) s
      ]
    ]
  ]
]

-- The branch for data behind its `<`, with the white space that it skips at its end.
unfoldable pub read_data : List ℕ → Option (List ℕ × List ℕ)
read_data t = Option.map (λ p. (p.0, parse_skip_ws p.1)) (read_rounds (length t + 1) [] t)
