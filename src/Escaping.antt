-- ===== src/Escaping.antt =====
-- The loop that src/xplist.c and src/jplist.c write text with: runs of characters are copied, and
-- others are replaced.
use libplist.Prelude.{ℕ, ◌+◌, ◌-◌, ◌≡◌, refl, sym, ap, ◌∙◌, arith}
use libplist.Prelude.{List, [], ◌∷◌, ◌++◌, append_assoc, append-nil, Option, none, some, inl, inr}
use libplist.Prelude.{length, length-append, take, drop, Option-cases}

-- The loop of node_to_xml, and that of node_to_json, over the characters from `cur` on, and the
-- append behind it: what stands in the buffer afterwards. `escaped` is what is written for a
-- character that is not copied.
unfoldable pub escape_loop : (ℕ → Option (List ℕ)) → List ℕ → List ℕ → ℕ → ℕ → List ℕ → List ℕ
escape_loop escaped strval [] start cur outbuf = outbuf ++ take (cur - start) (drop start strval)
escape_loop escaped strval (c ∷ r) start cur outbuf = elim (escaped c) [
  | none ↦ escape_loop escaped strval r start (cur + 1) outbuf
  | some e ↦
      escape_loop escaped strval r (cur + 1) (cur + 1)
        ((outbuf ++ take (cur - start) (drop start strval)) ++ e)
]

-- Each character by itself: the specification of the loop.
unfoldable pub escape : (ℕ → Option (List ℕ)) → List ℕ → List ℕ
escape escaped [] = []
escape escaped (c ∷ r) = elim (escaped c) [
  | none ↦ c ∷ escape escaped r
  | some e ↦ e ++ escape escaped r
]

pub slice :
    (before mid rest : List ℕ)
    → take (length mid) (drop (length before) (before ++ (mid ++ rest))) ≡ mid
slice [] [] rest = refl
slice [] (c ∷ mid) rest = ap (λ r. c ∷ r) (slice [] mid rest)
slice (c ∷ before) mid rest = slice before mid rest

-- `before` is in the buffer, and `mid` is not yet.
pub escape_loop_lem :
    (escaped : ℕ → Option (List ℕ)) (strval before mid rest : List ℕ) (start cur : ℕ)
    (outbuf : List ℕ)
    → strval ≡ before ++ (mid ++ rest)
    → start ≡ length before
    → cur ≡ length before + length mid
    → escape_loop escaped strval rest start cur outbuf ≡ outbuf ++ (mid ++ escape escaped rest)
unfolding escape_loop escape
escape_loop_lem escaped strval before mid [] start cur outbuf whole s c =
    let count : cur - start ≡ length mid = omega arith in
    rw (whole, count, s, slice before mid [], append-nil mid)
escape_loop_lem escaped strval before mid (x ∷ rest) start cur outbuf whole s c =
    let count : cur - start ≡ length mid = omega arith in
    let one : mid ++ (x ∷ rest) ≡ (mid ++ (x ∷ [])) ++ rest =
      sym (append_assoc mid (x ∷ []) rest) in
    elim (Option-cases (escaped x)) [
      | inl e ↦
          rw (escape_loop, escape, e)
            (escape_loop_lem escaped strval before (mid ++ (x ∷ [])) rest start (cur + 1) outbuf
                (whole ∙ ap (λ l. before ++ l) one) s (omega (arith, length-append mid (x ∷ [])))
              ∙ ap (λ l. outbuf ++ l) (append_assoc mid (x ∷ []) (escape escaped rest)))
      | inr (t, e) ↦
          let copied : take (cur - start) (drop start strval) ≡ mid =
            rw (whole, count, s) (slice before mid (x ∷ rest)) in
          let moved : strval ≡ (before ++ (mid ++ (x ∷ []))) ++ rest =
            whole ∙ ap (λ l. before ++ l) one ∙ sym (append_assoc before (mid ++ (x ∷ [])) rest) in
          let reached : cur + 1 ≡ length (before ++ (mid ++ (x ∷ []))) =
            omega (arith, length-append before (mid ++ (x ∷ [])), length-append mid (x ∷ [])) in
          rw (escape_loop, escape, e, copied)
            (escape_loop_lem escaped strval (before ++ (mid ++ (x ∷ []))) [] rest (cur + 1)
                (cur + 1) ((outbuf ++ mid) ++ t) moved reached (omega arith)
              ∙ append_assoc (outbuf ++ mid) t (escape escaped rest)
              ∙ append_assoc outbuf mid (t ++ escape escaped rest))
    ]
