-- ===== src/Xplist/Element.antt =====
-- The text of an element, from the scanner to its content: what node_to_xml writes is read back.
use libplist.Prelude.{not, if◌then◌else◌}
use libplist.Prelude.{ℕ, ◌-◌, ◌≡◌, refl, ap, ◌∙◌, arith, true, false}
use libplist.Prelude.{List, [], ◌∷◌, ◌++◌, append_assoc, none, some, ◌==◌, ltb, leb, if◌then◌else◌}
use libplist.Prelude.{length, length-append, drop, Bool-cases, inl, inr}
use libplist.Run.{ok}
use libplist.Xplist.{
  is_xml_ws, entity_for, append_text, end_empty, TextPart, copy_parts, text_parts_get_content,
}
use libplist.Escaping.{slice, escape}
use libplist.Xplist.Escape.{append_text_lem, content-escape}
use libplist.Xplist.Scan.{
  parse_skip_ws, scan_char, find_char, starts_with, between, part, closing, turn_at, turn, end_tag,
  finish, parts_loop, get_text_parts, close_tag, parts_text, read_text,
}

-- No `<` is left in an escaped text.
find_char-escape :
    (s rest : List ℕ) → find_char 60 false (escape entity_for s ++ (60 ∷ rest)) ≡ 60 ∷ rest
unfolding find_char scan_char escape entity_for
find_char-escape [] rest = refl
find_char-escape (c ∷ s) rest = elim (Bool-cases (c == 60)) [
  | inl lt ↦ rw (escape, entity_for, lt, find_char-escape s rest)
  | inr a ↦ elim (Bool-cases (c == 62)) [
    | inl gt ↦ rw (escape, entity_for, a, gt, find_char-escape s rest)
    | inr b ↦ elim (Bool-cases (c == 38)) [
      | inl amp ↦ rw (escape, entity_for, a, b, amp, find_char-escape s rest)
      | inr other ↦
          rw (escape, entity_for, a, b, other, find_char, scan_char, a, find_char-escape s rest)
    ]
  ]
]

between-append : (s rest : List ℕ) → between (s ++ rest) rest ≡ s
unfolding between
between-append s rest =
    let count : length (s ++ rest) - length rest ≡ length s = omega (arith, length-append s rest) in
    rw count (slice [] s rest)

starts_with-append : (tag rest : List ℕ) → starts_with tag (tag ++ rest) ≡ true
unfolding starts_with
starts_with-append [] rest = refl
starts_with-append (c ∷ tag) rest = ground (arith, starts_with-append tag rest)

drop-append : (s rest : List ℕ) → drop (length s) (s ++ rest) ≡ rest
drop-append [] rest = refl
drop-append (c ∷ s) rest = drop-append s rest

end_tag_lem : (tag rest : List ℕ) → end_tag tag (tag ++ (62 ∷ rest)) ≡ some rest
unfolding end_tag parse_skip_ws is_xml_ws
end_tag_lem tag rest =
    let long : leb (length (tag ++ (62 ∷ rest))) (length tag) ≡ false =
      ground (arith, length-append tag (62 ∷ rest)) in
    rw (long, starts_with-append tag (62 ∷ rest), drop-append tag (62 ∷ rest))

-- The parts of an escaped text: one, or none with a pointer.
parts_of : List ℕ → List TextPart
parts_of s =
    if ltb 0 (length (escape entity_for s))
    then part false (escape entity_for s) ∷ []
    else record { begin = none; is_cdata = false } ∷ []

turn-escape :
    (s rest : List ℕ)
    → turn [] (escape entity_for s ++ (60 ∷ 47 ∷ rest)) ≡ closing [] (escape entity_for s) rest
unfolding turn turn_at
turn-escape s rest =
    rw (turn, find_char-escape s (47 ∷ rest), between-append (escape entity_for s) (60 ∷ 47 ∷ rest))

finish-escape :
    (tag s rest : List ℕ)
    → finish tag [] (escape entity_for s) (tag ++ (62 ∷ rest)) ≡ some (parts_of s, rest)
unfolding finish parts_of
finish-escape tag s rest = elim (Bool-cases (ltb 0 (length (escape entity_for s)))) [
  | inl e ↦ rw (finish, end_tag_lem tag rest, parts_of, e)
  | inr e ↦ rw (finish, end_tag_lem tag rest, parts_of, e)
]

get_text_parts-escape :
    (tag s rest : List ℕ)
    → get_text_parts tag false (escape entity_for s ++ (60 ∷ 47 ∷ (tag ++ (62 ∷ rest))))
      ≡ ok (some (parts_of s, rest))
unfolding get_text_parts parts_loop
get_text_parts-escape tag s rest =
    rw (get_text_parts, parts_loop, turn-escape s (tag ++ (62 ∷ rest)), finish-escape tag s rest)

escape-long : (c : ℕ) (r : List ℕ) → ltb 0 (length (escape entity_for (c ∷ r))) ≡ true
unfolding escape entity_for
escape-long c r = ground arith

module _ (strtoull : List ℕ → ℕ → ℕ × ℕ) where
  parts_of-content : (s : List ℕ) → text_parts_get_content strtoull (parts_of s) true false ≡ some s
  unfolding parts_of escape text_parts_get_content copy_parts
  parts_of-content [] = refl
  parts_of-content (c ∷ r) = rw (parts_of, escape-long c r) (content-escape strtoull (c ∷ r))

  -- For every sequence of bytes and every tag, what node_to_xml writes behind the tag of a text,
  -- the escaped text with the closing tag, or the end of an empty element for an empty one, is read
  -- by node_from_xml, from behind the `>` or the `/>`, as the sequence again, up to what follows
  -- the element, whatever strtoull does.
  pub read_text-append_text :
      (tag s rest : List ℕ)
      → let tag_open = (append_text [] s).1 in
        read_text strtoull tag
          (not tag_open)
          (drop (if tag_open then 1 else 2) (close_tag (append_text [] s) tag ++ rest))
        ≡ ok (some (s, rest))
  unfolding read_text close_tag parts_text append_text end_empty
  read_text-append_text tag [] rest = refl
  read_text-append_text tag (c ∷ r) rest =
      let s = c ∷ r in
      let written : drop 1
            ((((62 ∷ escape entity_for s) ++ (60 ∷ 47 ∷ [])) ++ tag) ++ (62 ∷ []) ++ rest)
          ≡ escape entity_for s ++ (60 ∷ 47 ∷ (tag ++ (62 ∷ rest))) =
        append_assoc ((escape entity_for s ++ (60 ∷ 47 ∷ [])) ++ tag) (62 ∷ []) rest
        ∙ append_assoc (escape entity_for s ++ (60 ∷ 47 ∷ [])) tag (62 ∷ rest)
        ∙ append_assoc (escape entity_for s) (60 ∷ 47 ∷ []) (tag ++ (62 ∷ rest)) in
      let content : parts_text strtoull (some (parts_of s, rest)) ≡ some (s, rest) =
        rw (parts_text, parts_of-content s) in
      rw (append_text_lem [] c r)
        (rw (written, read_text, get_text_parts-escape tag s rest) (ap ok content))
