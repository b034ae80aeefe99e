-- ===== src/Xplist/Scan.antt =====
-- src/xplist.c: get_text_parts, which finds the parts of the text of an element, and the scanner
-- that it uses. The context is the text from `pos` on.
use libplist.Prelude.{ℕ, zero, suc, ◌-◌, Bool, true, false, ◌&&◌, ◌||◌, not}
use libplist.Prelude.{List, [], ◌∷◌, ◌++◌, Option, none, some}
use libplist.Prelude.{ltb, leb, ◌==◌, if◌then◌else◌, length, take, drop}
use libplist.Run.{Run, out_of_fuel, ok, ◌>>=◌}
use libplist.Xplist.{is_xml_ws, TextPart, text_parts_get_content}

unfoldable pub parse_skip_ws : List ℕ → List ℕ
parse_skip_ws [] = []
parse_skip_ws (x ∷ r) = let rest = parse_skip_ws r in if is_xml_ws x then rest else x ∷ r

-- The loop of find_char; `quoted` is the search for the second of two double quotes.
unfoldable pub scan_char : Bool → ℕ → Bool → List ℕ → List ℕ
scan_char quoted c skip_quotes [] = []
scan_char true c skip_quotes (x ∷ r) =
    let inside = scan_char true c skip_quotes r in
    let behind = scan_char false c skip_quotes r in if x == 34 then behind else inside
scan_char false c skip_quotes (x ∷ r) =
    let inside = scan_char true c skip_quotes r in
    let behind = scan_char false c skip_quotes r in
    if x == c then x ∷ r else if skip_quotes && not (c == 34) && x == 34 then inside else behind

unfoldable pub find_char : ℕ → Bool → List ℕ → List ℕ
find_char c skip_quotes pos = scan_char false c skip_quotes pos

-- `!strncmp(pos, str, len)`, for a `str` of `len` characters
unfoldable pub starts_with : List ℕ → List ℕ → Bool
starts_with [] text = true
starts_with (c ∷ str) [] = false
starts_with (c ∷ str) (x ∷ text) = x == c && starts_with str text

-- The loop of find_str, which does not look at the last `len` characters.
unfoldable pub scan_str : Bool → List ℕ → Bool → List ℕ → List ℕ
scan_str quoted str skip_quotes [] = []
scan_str true str skip_quotes (x ∷ r) =
    let inside = scan_str true str skip_quotes r in
    let behind = scan_str false str skip_quotes r in if x == 34 then behind else inside
scan_str false str skip_quotes (x ∷ r) =
    let inside = scan_str true str skip_quotes r in
    let behind = scan_str false str skip_quotes r in
    if leb (length (x ∷ r)) (length str) || starts_with str (x ∷ r)
    then x ∷ r
    else if skip_quotes && x == 34
    then inside
    else behind

unfoldable pub find_str : List ℕ → Bool → List ℕ → List ℕ
find_str str skip_quotes pos = scan_str false str skip_quotes pos

-- The characters from `p` up to `q`, which stands behind it in the same text.
unfoldable pub between : List ℕ → List ℕ → List ℕ
between p q = take (length p - length q) p

abbrev pub part : Bool → List ℕ → TextPart
part is_cdata text = record { begin = some text; is_cdata = is_cdata }

-- How a turn of the loop ends: with an error, with the parts so far and the text that it goes on
-- with, or at a closing tag, with the text before it and what follows its `/`.
pub data Turn : Type 0 where
  failed : Turn
  again : List TextPart → List ℕ → Turn
  closing : List TextPart → List ℕ → List ℕ → Turn

-- `<!--` up to `-->`; `pos` is behind the second `-`.
unfoldable pub comment : List TextPart → List ℕ → List ℕ → Turn
comment parts text pos =
    let q = find_str (45 ∷ 45 ∷ 62 ∷ []) false pos in
    if starts_with (45 ∷ 45 ∷ 62 ∷ []) q
    then again (parts ++ (part false text ∷ [])) (drop 3 q)
    else failed

-- `<![CDATA[` up to `]]>`; `pos` is behind the first `[`.
unfoldable pub cdata : List TextPart → List ℕ → List ℕ → Turn
cdata parts text pos =
    if leb (length pos) 8 || not (starts_with (67 ∷ 68 ∷ 65 ∷ 84 ∷ 65 ∷ 91 ∷ []) pos)
    then failed
    else (let before = if ltb 0 (length text) then parts ++ (part false text ∷ []) else parts in
        let p = drop 6 pos in
        let q = find_str (93 ∷ 93 ∷ 62 ∷ []) false p in
        if starts_with (93 ∷ 93 ∷ 62 ∷ []) q
        then again (before ++ (part true (between p q) ∷ [])) (drop 3 q)
        else failed)

-- `<!`; `pos` is behind it.
unfoldable pub special : List TextPart → List ℕ → List ℕ → Turn
special parts text [] = failed
special parts text (x ∷ []) = failed
special parts text (x ∷ y ∷ pos) =
    if x == 45 && y == 45
    then comment parts text pos
    else if x == 91
    then cdata parts text (y ∷ pos)
    else failed

-- The text `p` up to the `<` that `q` begins with.
unfoldable pub turn_at : List TextPart → List ℕ → List ℕ → Turn
turn_at parts p [] = failed
turn_at parts p (c ∷ []) = failed
turn_at parts p (c ∷ x ∷ pos) =
    let text = between p (c ∷ x ∷ pos) in
    if x == 33 then special parts text pos else if x == 47 then closing parts text pos else failed

unfoldable pub turn : List TextPart → List ℕ → Turn
turn parts p = turn_at parts p (find_char 60 false p)

-- Behind the `/`: the tag, white space and `>`. What follows, if that is there.
unfoldable pub end_tag : List ℕ → List ℕ → Option (List ℕ)
end_tag tag pos =
    if leb (length pos) (length tag) || not (starts_with tag pos)
    then none
    else elim (parse_skip_ws (drop (length tag) pos)) [
      | [] ↦ none
      | x ∷ r ↦ if x == 62 then some r else none
    ]

-- The parts, of which the first one is there in any case, and the text behind the element.
unfoldable pub finish : List ℕ → List TextPart → List ℕ → List ℕ → Option (List TextPart × List ℕ)
finish tag parts text pos = elim (end_tag tag pos) [
  | none ↦ none
  | some r ↦
      let all = if ltb 0 (length text) then parts ++ (part false text ∷ []) else parts in
      some (elim all [ [] ↦ record { begin = none; is_cdata = false } ∷ [] | t ∷ ts ↦ t ∷ ts ], r)
]

unfoldable pub parts_loop :
    ℕ → List ℕ → List TextPart → List ℕ → Run (Option (List TextPart × List ℕ))
parts_loop zero tag parts p = out_of_fuel
parts_loop (suc fuel) tag parts p = elim (turn parts p) [
  | failed ↦ ok none
  | again parts' p' ↦ parts_loop fuel tag parts' p'
  | closing parts' text pos ↦ ok (finish tag parts' text pos)
]

-- A turn that goes on makes the text shorter, so its length is fuel enough.
unfoldable pub get_text_parts : List ℕ → Bool → List ℕ → Run (Option (List TextPart × List ℕ))
get_text_parts tag skip_ws pos =
    let start = if skip_ws then parse_skip_ws pos else pos in
    parts_loop (suc (length start)) tag [] start

-- The closing tag that node_to_xml writes, if the tag is open.
unfoldable pub close_tag : List ℕ × Bool → List ℕ → List ℕ
close_tag (outbuf, tag_open) tag =
    if tag_open then ((outbuf ++ (60 ∷ 47 ∷ [])) ++ tag) ++ (62 ∷ []) else outbuf

-- The content of the parts found, with what follows the element.
unfoldable pub parts_text :
    (List ℕ → ℕ → ℕ × ℕ) → Option (List TextPart × List ℕ) → Option (List ℕ × List ℕ)
parts_text strtoull none = none
parts_text strtoull (some (parts, rest)) = elim (text_parts_get_content strtoull parts true false) [
  | none ↦ none
  | some str ↦ some (str, rest)
]

-- The branch of node_from_xml for the text of a string or a key.
unfoldable pub read_text :
    (List ℕ → ℕ → ℕ × ℕ) → List ℕ → Bool → List ℕ → Run (Option (List ℕ × List ℕ))
read_text strtoull tag is_empty pos =
    if is_empty
    then ok (some ([], pos))
    else (get_text_parts tag false pos >>= λ found. ok (parts_text strtoull found))
