-- ===== src/Xplist/Escape.antt =====
-- Escaped text and its unescaping.
use libplist.Prelude.{ltb, length, ap}
use libplist.Prelude.{ℕ, ◌≡◌, refl, sym, arith, true, false}
use libplist.Prelude.{List, [], ◌∷◌, ◌++◌, append-nil, none, some, inl, inr}
use libplist.Prelude.{◌==◌, Bool-cases}
use libplist.Prelude.{Option-cases}
use libplist.Escaping.{escape, escape_loop_lem}
use libplist.Bplist.Serialize.{same_bytes}
use libplist.Xplist.{
  entity_for, append_text, entity, unescape_loop, unescape_entities, part_content, copy_parts,
  text_parts_get_content,
}
use mathlib.Core.Option

not_amp : (c : ℕ) → entity_for c ≡ none → (c == 38) ≡ false
unfolding entity_for
not_amp c h = ground arith

module _ (strtoull : List ℕ → ℕ → ℕ × ℕ) where
  plain :
      (c : ℕ) (t : List ℕ)
      → (c == 38) ≡ false
      → unescape_loop strtoull none (c ∷ t)
        ≡ Option.map (λ u. c ∷ u) (unescape_loop strtoull none t)
  unfolding unescape_loop
  plain c [] h = refl
  plain c (d ∷ t) h = rw h

  -- The entities that are written.
  known :
      (t : List ℕ)
      → (unescape_loop strtoull none (38 ∷ 108 ∷ 116 ∷ 59 ∷ t)
          ≡ Option.map (λ u. 60 ∷ u) (unescape_loop strtoull none t))
        × (unescape_loop strtoull none (38 ∷ 103 ∷ 116 ∷ 59 ∷ t)
            ≡ Option.map (λ u. 62 ∷ u) (unescape_loop strtoull none t))
        × (unescape_loop strtoull none (38 ∷ 97 ∷ 109 ∷ 112 ∷ 59 ∷ t)
            ≡ Option.map (λ u. 38 ∷ u) (unescape_loop strtoull none t))
  unfolding unescape_loop entity same_bytes
  known t = (refl, refl, refl)

  -- An entity stands for its character.
  replaced :
      (c : ℕ) (e t : List ℕ)
      → entity_for c ≡ some e
      → unescape_loop strtoull none (e ++ t)
        ≡ Option.map (λ u. c ∷ u) (unescape_loop strtoull none t)
  unfolding entity_for
  replaced c e t h = elim (Bool-cases (c == 60)) [
    | inl lt ↦
        let char : c ≡ 60 = ground arith in
        let name : (38 ∷ 108 ∷ 116 ∷ 59 ∷ []) ≡ e = ground arith in rw (char, sym name) (known t).0
    | inr other ↦ elim (Bool-cases (c == 62)) [
      | inl gt ↦
          let char : c ≡ 62 = ground arith in
          let name : (38 ∷ 103 ∷ 116 ∷ 59 ∷ []) ≡ e = ground arith in
          rw (char, sym name) (known t).1
      | inr other' ↦
          let char : c ≡ 38 = ground arith in
          let name : (38 ∷ 97 ∷ 109 ∷ 112 ∷ 59 ∷ []) ≡ e = ground arith in
          rw (char, sym name) (known t).2
    ]
  ]

  unescape-escape : (s : List ℕ) → unescape_loop strtoull none (escape entity_for s) ≡ some s
  unfolding escape unescape_loop
  unescape-escape [] = refl
  unescape-escape (c ∷ r) = elim (Option-cases (entity_for c)) [
    | inl e ↦ rw (escape, e, plain c (escape entity_for r) (not_amp c e), unescape-escape r)
    | inr (t, e) ↦ rw (escape, e, replaced c t (escape entity_for r) e, unescape-escape r)
  ]

  pub content-escape :
      (s : List ℕ)
      → text_parts_get_content strtoull
          (record { begin = some (escape entity_for s); is_cdata = false } ∷ [])
          true
          false
        ≡ some s
  unfolding text_parts_get_content copy_parts part_content unescape_entities
  content-escape s = rw (
    text_parts_get_content,
    copy_parts,
    part_content,
    unescape_entities,
    unescape-escape s,
    append-nil s,
  )

pub append_text_lem :
    (outbuf : List ℕ) (c : ℕ) (r : List ℕ)
    → append_text outbuf (c ∷ r) ≡ ((outbuf ++ (62 ∷ [])) ++ escape entity_for (c ∷ r), true)
unfolding append_text
append_text_lem outbuf c r =
    let long : ltb 0 (length (c ∷ r)) ≡ true = ground arith in
    rw (append_text, long)
      (ap (λ l. (l, true))
        (escape_loop_lem entity_for (c ∷ r) [] [] (c ∷ r) 0 0 (outbuf ++ (62 ∷ [])) refl refl refl))
