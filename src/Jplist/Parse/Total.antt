-- ===== src/Jplist/Parse/Total.antt =====
-- `plist_from_json` on any input: it ends, and stays inside the text and the tokens.
use libplist.Prelude.{
  ℕ, zero, suc, ◌+◌, ◌-◌, ◌^◌, ◌<◌, ◌≤◌, ◌≡◌, refl, ap, ◌∙◌, arith, List, Option, none, some,
}
use libplist.Prelude.{length, ltb, ◌==◌, if_intro, option_intro}
use libplist.Run.{Run, Ensures, returns, Ensures-bind}
use libplist.Bplist.Node.{PlistErr, success}
use libplist.Bplist.Parse.Document.{nesting_fuel, final_err}
use libplist.Bplist.Parse.FromBin.{IsAnswer, final_err-ne-success}
use libplist.Jplist.Primitive.{Doubles}
use libplist.Jplist.Parse.{
  JsmnType, primitive, object, array, string, Token, Containers, JsmnCode, error_nomem, error_inval,
  error_part, error_limit, parsed, Jsmn,
}
use libplist.Jplist.Parse
use libplist.Jplist.Parse.Tokens.{IsTokens, parse_token-Ends}

parsed_intro :
    {A : Type 0} {P : A → Type 0} (c : JsmnCode) {x y : Run A}
    → Ensures P x
    → (c ≡ parsed → Ensures P y)
    → Ensures P (elim c [ parsed ↦ y | _ ↦ x ])
parsed_intro error_nomem x y = x
parsed_intro error_inval x y = x
parsed_intro error_part x y = x
parsed_intro error_limit x y = x
parsed_intro parsed x y = y refl

-- The documented behaviour of the tokenizer, called with no less room than before: it asks for more
-- tokens only while it has fewer than there are characters, and if it has parsed the text, the
-- texts of its tokens lie inside it, and it counts no more tokens than it was given room for, of
-- which there is at least one. Of the tokens that it leaves with an error nothing is said. The
-- predicate is about a parser that was last called with room for `maxtoks` tokens.
pub record IsJsmn (jsmn : Jsmn) (json : List ℕ) : Type 1 where
  pub IsParser : ℕ → jsmn.Parser → Type 0
  pub starts : IsParser 0 jsmn.jsmn_init
  pub called :
      (room maxtoks : ℕ) (p : jsmn.Parser)
      → IsParser room p
      → room ≤ maxtoks
      → IsParser maxtoks (jsmn.jsmn_parse json maxtoks p).1
  pub asks :
      (room maxtoks : ℕ) (p : jsmn.Parser)
      → IsParser room p
      → room ≤ maxtoks
      → (jsmn.jsmn_parse json maxtoks p).0 ≡ error_nomem
      → maxtoks < length json
  pub gives :
      (room maxtoks : ℕ) (p : jsmn.Parser)
      → IsParser room p
      → room ≤ maxtoks
      → 0 < maxtoks
      → (jsmn.jsmn_parse json maxtoks p).0 ≡ parsed
      → let q = (jsmn.jsmn_parse json maxtoks p).1 in
        IsTokens json (jsmn.tokens q) (jsmn.toknext q) × (0 < length (jsmn.tokens q))

module _ (doubles : Doubles) (lib : Containers) where
  module _ (jsmn : Jsmn) (json : List ℕ) (j : IsJsmn jsmn json) where
    abbrev HasTokens : jsmn.Parser → Type 0
    HasTokens p = IsTokens json (jsmn.tokens p) (jsmn.toknext p) × (0 < length (jsmn.tokens p))

    -- What the loop leaves: if the text is parsed, there are tokens.
    abbrev Left : Option JsmnCode × jsmn.Parser → Type 0
    Left q = q.0 ≡ some parsed → HasTokens q.1

    code_intro :
        {A : Type 0} (P : Run A → Type 0) (c : JsmnCode) {x : Run A} {f : JsmnCode → Run A}
        → (c ≡ error_nomem → P x)
        → ((d : JsmnCode) → c ≡ d → P (f d))
        → P (elim c [ error_nomem ↦ x | d ↦ f d ])
    code_intro P error_nomem x f = x refl
    code_intro P error_inval x f = f error_inval refl
    code_intro P error_part x f = f error_part refl
    code_intro P error_limit x f = f error_limit refl
    code_intro P parsed x f = f parsed refl

    is_parsed : (c d : JsmnCode) → c ≡ d → some d ≡ some parsed → c ≡ parsed
    is_parsed c d e same = cc

    token_loop-Ensures :
        (fuel room maxtoks : ℕ) (p : jsmn.Parser)
        → j.IsParser room p
        → room ≤ maxtoks
        → 0 < maxtoks
        → length json < fuel + maxtoks
        → 0 < fuel
        → Ensures Left (Parse.token_loop doubles lib jsmn json fuel maxtoks p)
    unfolding Parse.token_loop
    token_loop-Ensures zero room maxtoks p is more lo enough some_fuel = absurd (omega arith)
    token_loop-Ensures (suc fuel) room maxtoks p is more lo enough some_fuel =
        code_intro (Ensures Left) (jsmn.jsmn_parse json maxtoks p).0
          (λ full.
            if_intro (Ensures Left) (ltb (2 ^ 31 - 1 - 16) maxtoks) (λ _. returns _ refl (λ e. cc))
              (λ _.
                let short = j.asks room maxtoks p is more full in
                token_loop-Ensures fuel maxtoks (maxtoks + 16) (jsmn.jsmn_parse json maxtoks p).1
                  (j.called room maxtoks p is more) (omega arith) (omega arith) (omega arith)
                  (omega arith)))
          (λ d e.
            returns (some d, (jsmn.jsmn_parse json maxtoks p).1) refl
              (λ same. j.gives room maxtoks p is more lo (is_parsed _ d e same)))

    answer :
        (o : Option (lib.Node × ℕ)) (e : PlistErr)
        → IsAnswer {N = lib.Node}
            (elim o [ none ↦ (final_err e, none) | some (n, k) ↦ (success, some n) ])
    answer none e = final_err-ne-success e
    answer (some (n, k)) e = refl

    parse_first_token-Ensures :
        (p : jsmn.Parser)
        → HasTokens p
        → Ensures IsAnswer (Parse.parse_first_token doubles lib jsmn json p)
    unfolding Parse.parse_first_token
    parse_first_token-Ensures p (v, inside) =
        Ensures-bind
          (parse_token-Ends doubles lib json (jsmn.tokens p) (jsmn.toknext p) v nesting_fuel 0 0
            success (omega arith) (omega arith) inside)
          (λ q _. returns _ refl (answer q.0 q.1))

    -- plist_from_json always returns, for every text and every nesting, with a node exactly when it
    -- reports success, and never reads a token or a character out of range, if the tokenizer, given
    -- more and more room, asks for more tokens only while it has fewer than there are characters,
    -- and, when it reports that it has parsed the text, has one token at least, all of them with
    -- texts inside the text, and counts no more than it has.
    pub plist_from_json-Ensures : Ensures IsAnswer (Parse.plist_from_json doubles lib jsmn json)
    unfolding Parse.plist_from_json
    plist_from_json-Ensures =
        if_intro (Ensures IsAnswer) (length json == 0) (λ _. returns _ refl (λ e. cc))
          (λ _.
            Ensures-bind
              (token_loop-Ensures (length json + 1) 0 256 jsmn.jsmn_init j.starts (omega arith)
                (omega arith) (omega arith) (omega arith))
              (λ q left.
                option_intro (Ensures IsAnswer) q.0 (λ _. returns _ refl (λ e. cc))
                  (λ c e.
                    parsed_intro c (returns _ refl (λ e. cc))
                      (λ done. parse_first_token-Ensures q.1 (left (e ∙ ap some done))))))
