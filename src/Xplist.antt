-- ===== src/Xplist.antt =====
-- src/xplist.c: the text of strings and keys in XML. An array of bytes is a list; a pointer into
-- one is the list from there on.
pub mod Escape
pub mod Room
pub mod Scan
pub mod Element
pub mod Turns
use libplist.Prelude.{
  ℕ, zero, suc, ◌+◌, ◌-◌, ◌*◌, ◌/◌, ◌%◌, ◌^◌, Bool, true, false, ◌&&◌, ◌||◌, not,
}
use libplist.Prelude.{List, [], ◌∷◌, ◌++◌, map, Option, none, some}
use libplist.Prelude.{ltb, leb, ◌==◌, if◌then◌else◌, length, take, drop, get_or}
use libplist.Escaping.{escape_loop}
use libplist.Bplist.Serialize.{same_bytes}
use mathlib.Core.Option

-- `&lt;`, `&gt;` and `&amp;` for the characters that stand for themselves in no text.
unfoldable pub entity_for : ℕ → Option (List ℕ)
entity_for c =
    if c == 60
    then some (38 ∷ 108 ∷ 116 ∷ 59 ∷ [])
    else if c == 62
    then some (38 ∷ 103 ∷ 116 ∷ 59 ∷ [])
    else if c == 38
    then some (38 ∷ 97 ∷ 109 ∷ 112 ∷ 59 ∷ [])
    else none

-- The branch of node_to_xml for an element without content, with `tagOpen`.
unfoldable pub end_empty : List ℕ → List ℕ × Bool
end_empty outbuf = (outbuf ++ (47 ∷ 62 ∷ []), false)

-- What node_to_xml writes behind the tag of a string or a key, and `tagOpen`.
unfoldable pub append_text : List ℕ → List ℕ → List ℕ × Bool
append_text outbuf strval =
    if ltb 0 (length strval)
    then (escape_loop entity_for strval strval 0 0 (outbuf ++ (62 ∷ [])), true)
    else end_empty outbuf

-- The bytes of a character in UTF-8, as unescape_entities writes them.
unfoldable pub utf8_of : ℕ → List ℕ
utf8_of val =
    if leb 0x10000 val
    then ((0xF0 + val / 2 ^ 18 % 8)
        ∷ (0x80 + val / 2 ^ 12 % 64)
        ∷ (0x80 + val / 2 ^ 6 % 64)
        ∷ (0x80 + val % 64)
        ∷ [])
    else if leb 0x800 val
    then (0xE0 + val / 2 ^ 12 % 16) ∷ (0x80 + val / 2 ^ 6 % 64) ∷ (0x80 + val % 64) ∷ []
    else if leb 0x80 val
    then (0xC0 + val / 2 ^ 6 % 32) ∷ (0x80 + val % 64) ∷ []
    else (val % 128) ∷ []

-- The tests of the value `val` of a reference that ends `used` characters behind its `#`.
unfoldable pub checked : ℕ → ℕ → ℕ → Option (List ℕ)
checked entlen val used =
    if val == 0 || ltb 0x10FFFF val || not (used == entlen)
    then none
    else if leb 0xD800 val && leb val 0xDFFF
    then none
    else some (utf8_of val)

-- `strtoull` gives the value and how many characters it has read.
module _ (strtoull : List ℕ → ℕ → ℕ × ℕ) where
  -- The branch for a numerical character reference; `rest` is the text from the `;` on.
  unfoldable pub reference : List ℕ → List ℕ → Option (List ℕ)
  reference ent rest =
      let entlen = length ent in
      if ltb 8 entlen
      then none
      else if leb 2 entlen && (get_or ent 1 0 == 120 || get_or ent 1 0 == 88)
      then if ltb entlen 3
        then none
        else (let (val, n) = strtoull (drop 2 ent ++ rest) 16 in checked entlen val (n + 2))
      else if ltb entlen 2
      then none
      else (let (val, n) = strtoull (drop 1 ent ++ rest) 10 in checked entlen val (n + 1))

  -- What stands in the place of the entity with this name; `none` is the result -1.
  unfoldable pub entity : List ℕ → List ℕ → Option (List ℕ)
  entity ent rest =
      if length ent == 0 || ltb 256 (length ent)
      then none
      else if same_bytes ent (97 ∷ 109 ∷ 112 ∷ [])
      then some (38 ∷ [])
      else if same_bytes ent (97 ∷ 112 ∷ 111 ∷ 115 ∷ [])
      then some (39 ∷ [])
      else if same_bytes ent (113 ∷ 117 ∷ 111 ∷ 116 ∷ [])
      then some (34 ∷ [])
      else if same_bytes ent (108 ∷ 116 ∷ [])
      then some (60 ∷ [])
      else if same_bytes ent (103 ∷ 116 ∷ [])
      then some (62 ∷ [])
      else if get_or ent 0 0 == 35
      then reference ent rest
      else none

  -- The loops of unescape_entities on `str` from `i` on; what is before `i` is never touched
  -- again. With `some ent` it is in the inner loop, behind an `&` and the characters `ent`. The
  -- outer loop leaves the last character alone. The bytes that take the place of an entity must
  -- not be longer than it is, or the test for an underflow fails.
  unfoldable pub unescape_loop : Option (List ℕ) → List ℕ → Option (List ℕ)
  unescape_loop none [] = some []
  unescape_loop none (c ∷ []) = some (c ∷ [])
  unescape_loop none (c ∷ d ∷ r) =
      let found = unescape_loop (some []) (d ∷ r) in
      let rest = unescape_loop none (d ∷ r) in
      if c == 38 then found else Option.map (λ t. c ∷ t) rest
  unescape_loop (some ent) [] = none
  unescape_loop (some ent) (c ∷ r) =
      let rest = unescape_loop none r in
      let longer = unescape_loop (some (ent ++ (c ∷ []))) r in
      if c == 59
      then elim (entity ent (59 ∷ r)) [
        | none ↦ none
        | some bs ↦
            if ltb (length ent + 1) (length bs) then none else Option.map (λ t. bs ++ t) rest
      ]
      else longer

  unfoldable pub unescape_entities : List ℕ → Option (List ℕ)
  unescape_entities str = unescape_loop none str

unfoldable pub is_xml_ws : ℕ → Bool
is_xml_ws c = c == 32 || c == 9 || c == 13 || c == 10

-- `while (start < end && is_xml_ws(start[0])) start++`
unfoldable pub skip_start : List ℕ → List ℕ
skip_start [] = []
skip_start (c ∷ r) = let rest = skip_start r in if is_xml_ws c then rest else c ∷ r

-- `while (end > start && is_xml_ws(end[-1])) end--`, with `end` as the offset from `start`.
unfoldable pub skip_end : List ℕ → ℕ → ℕ
skip_end text zero = zero
skip_end text (suc n) =
    let rest = skip_end text n in if is_xml_ws (get_or text n 0) then rest else suc n

unfoldable pub trim : List ℕ → List ℕ
trim str = let text = skip_start str in take (skip_end text (length text)) text

-- A part of the text of an element; a part whose `begin` is NULL ends the list.
pub record TextPart : Type 0 where
  pub begin : Option (List ℕ)
  pub is_cdata : Bool

module _ (strtoull : List ℕ → ℕ → ℕ × ℕ) where
  -- One part as it is copied into the block.
  unfoldable pub part_content : Bool → List ℕ → Bool → Option (List ℕ)
  part_content unesc_entities text is_cdata =
      if not is_cdata && unesc_entities then unescape_entities strtoull text else some text

  -- The loop that copies the parts.
  unfoldable pub copy_parts : Bool → List TextPart → Option (List ℕ)
  copy_parts unesc_entities [] = some []
  copy_parts unesc_entities (tp ∷ next) =
      let rest = copy_parts unesc_entities next in
      elim tp.begin [
        | none ↦ some []
        | some text ↦ elim (part_content unesc_entities text tp.is_cdata) [
          | none ↦ none
          | some t ↦ Option.map (λ u. t ++ u) rest
        ]
      ]

  -- The text, or no text where the result is NULL. A part that is given as it is, without a copy,
  -- is the same text.
  unfoldable pub text_parts_get_content : List TextPart → Bool → Bool → Option (List ℕ)
  text_parts_get_content [] unesc_entities trim_ws = none
  text_parts_get_content (tp ∷ next) unesc_entities trim_ws =
      elim (copy_parts unesc_entities (tp ∷ next)) [
        | none ↦ none
        | some str ↦ some (if trim_ws then trim str else str)
      ]
