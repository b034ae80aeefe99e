-- ===== src/Jplist/Parse/Tokens.antt =====
-- The parsers of tokens end, and stay inside the text and the tokens.
use libplist.Prelude.{
  ℕ, zero, suc, ◌+◌, ◌-◌, ◌/◌, ◌%◌, ◌<◌, ◌≤◌, refl, arith, List, Option, none, some,
}
use libplist.Prelude.{
  All, All-at, get_elem?-inside, length, ltb, leb, ◌==◌, not, if_intro, option_intro,
}
use libplist.Run.{Run, returns, Ensures-bind, Ends}
use libplist.Bplist.Node.{PlistData, PlistErr}
use libplist.Bplist.Parse.{max_nesting_depth}
use libplist.Bplist.Parse.Words.{load-ok}
use libplist.Jplist.{unescape_string}
use libplist.Jplist.Primitive.{Doubles}
use libplist.Jplist.Parse.{
  JsmnType, primitive, object, array, string, Token, Containers, JsmnCode, error_nomem, error_inval,
  error_part, error_limit, parsed, Jsmn,
}
use libplist.Jplist.Parse

-- The text of each token lies inside the JSON text, and there are as many tokens as are counted.
pub record IsTokens (js : List ℕ) (tokens : List Token) (count : ℕ) : Type 0 where
  pub texts : All (λ t. (t.start ≤ t.end) × (t.end ≤ length js)) tokens
  pub counted : count ≤ length tokens

-- The switches over the type of a token.
kinds_intro :
    {A : Type 0} (k : JsmnType) {x y z w : Run A}
    → Ends x
    → Ends y
    → Ends z
    → Ends w
    → Ends (elim k [ primitive ↦ x | object ↦ y | array ↦ z | string ↦ w ])
kinds_intro primitive x y z w = x
kinds_intro object x y z w = y
kinds_intro array x y z w = z
kinds_intro string x y z w = w

kind_intro :
    {A : Type 0} (k : JsmnType) {x y : Run A}
    → Ends x
    → Ends y
    → Ends (elim k [ string ↦ y | _ ↦ x ])
kind_intro primitive x y = x
kind_intro object x y = x
kind_intro array x y = x
kind_intro string x y = y

module _ (doubles : Doubles) (lib : Containers) where
  module _ (js : List ℕ) (tokens : List Token) (count : ℕ) (v : IsTokens js tokens count) where
    token_text-Ends :
        (t : Token)
        → (t.start ≤ t.end) × (t.end ≤ length js)
        → Ends (Parse.token_text doubles lib js tokens count t)
    token_text-Ends t (lo, hi) =
        let e = load-ok js t.start (t.end - t.start) (omega arith) in rw e (returns _ refl _)

    give-Ends :
        (index : ℕ) (err : PlistErr) (d : Option PlistData)
        → Ends (Parse.give doubles lib js tokens count index err d)
    unfolding Parse.give
    give-Ends index err none = returns _ refl _
    give-Ends index err (some d) = returns _ refl _

    module _ (self : Parse.TokenParser doubles lib js tokens count) (depth : ℕ) where
      -- The tokens below are parsed without a bad access.
      abbrev Below : Type 0
      Below = (j : ℕ) (err : PlistErr) → j < count → Ends (self j (depth + 1) err)

      array_items-Ends :
          Below
          → (n j : ℕ) (arr : lib.Node) (err : PlistErr)
          → Ends (Parse.array_items doubles lib js tokens count self depth n j arr err)
      unfolding Parse.array_items
      array_items-Ends h zero j arr err = returns _ refl _
      array_items-Ends h (suc n) j arr err =
          if_intro Ends (leb count j) (λ _. returns _ refl _)
            (λ e. Ensures-bind (h j err (ground arith)) (λ q _.
              option_intro Ends q.0 (λ _. returns _ refl _)
                (λ r _.
                  option_intro Ends (lib.append_item arr r.0) (λ _. returns _ refl _)
                    (λ arr' _. array_items-Ends h n r.1 arr' q.1))))

      object_value-Ends :
          Below
          → (j : ℕ) (obj : lib.Node) (key : List ℕ) (err : PlistErr) → j < count
          → Ends (Parse.object_value doubles lib js tokens count self depth j obj key err)
      unfolding Parse.object_value
      object_value-Ends h j obj key err inside = Ensures-bind (h j err inside) (λ q _.
          option_intro Ends q.0 (λ _. returns _ refl _)
            (λ r _.
              option_intro Ends (lib.set_item obj key r.0) (λ _. returns _ refl _)
                (λ obj' _. returns _ refl _)))

      object_pair-Ends :
          Below
          → (j : ℕ) (obj : lib.Node) (err : PlistErr) → j + 1 < count
          → Ends (Parse.object_pair doubles lib js tokens count self depth j obj err)
      unfolding Parse.object_pair
      object_pair-Ends h j obj err inside =
          let (t, e) = get_elem?-inside tokens j (omega (arith, v.counted)) in
          let text = All-at (λ t. (t.start ≤ t.end) × (t.end ≤ length js)) tokens j t v.texts e in
          rw e (
            kind_intro t.kind (returns _ refl _) (
              Ensures-bind (token_text-Ends t text) (λ s _.
                option_intro Ends (unescape_string s) (λ _. returns _ refl _)
                  (λ key _. object_value-Ends h (j + 1) obj key err inside))))

      object_loop-Ends :
          Below
          → (n j : ℕ) (obj : lib.Node) (err : PlistErr)
          → Ends (Parse.object_loop doubles lib js tokens count self depth n j obj err)
      unfolding Parse.object_loop
      object_loop-Ends h zero j obj err = returns _ refl _
      object_loop-Ends h (suc n) j obj err =
          if_intro Ends (leb count (j + 1)) (λ _. returns _ refl _)
            (λ e. Ensures-bind (object_pair-Ends h j obj err (ground arith)) (λ q _.
              option_intro Ends q.0 (λ _. returns _ refl _)
                (λ r _. object_loop-Ends h n r.1 r.0 q.1)))

      parse_array-Ends :
          (depth ≤ max_nesting_depth → Below)
          → (t : Token) (index : ℕ) (err : PlistErr)
          → Ends (Parse.parse_array doubles lib js tokens count self t index depth err)
      unfolding Parse.parse_array
      parse_array-Ends h t index err =
          if_intro Ends (ltb max_nesting_depth depth) (λ _. returns _ refl _)
            (λ e. array_items-Ends (h (ground arith)) t.size (index + 1) _ err)

      parse_object-Ends :
          (depth ≤ max_nesting_depth → Below)
          → (t : Token) (index : ℕ) (err : PlistErr)
          → Ends (Parse.parse_object doubles lib js tokens count self t index depth err)
      unfolding Parse.parse_object
      parse_object-Ends h t index err =
          if_intro Ends (ltb max_nesting_depth depth) (λ _. returns _ refl _)
            (λ e.
              if_intro Ends (not (t.size % 2 == 0)) (λ _. returns _ refl _)
                (λ _. object_loop-Ends (h (ground arith)) (t.size / 2) (index + 1) _ err))

    -- The fuel that is left covers the nesting that is left.
    pub parse_token-Ends :
        (fuel index depth : ℕ) (err : PlistErr)
        → max_nesting_depth + 2 ≤ fuel + depth
        → depth ≤ max_nesting_depth + 1
        → index < length tokens
        → Ends (Parse.parse_token doubles lib js tokens count fuel index depth err)
    unfolding Parse.parse_token
    parse_token-Ends zero index depth err enough deep inside = absurd (omega arith)
    parse_token-Ends (suc fuel) index depth err enough deep inside =
        let (t, e) = get_elem?-inside tokens index inside in
        let text = All-at (λ t. (t.start ≤ t.end) × (t.end ≤ length js)) tokens index t v.texts e in
        let below : depth ≤ max_nesting_depth
            → Below (Parse.parse_token doubles lib js tokens count fuel) depth =
          λ low j err' h.
            parse_token-Ends fuel j (depth + 1) err' (omega arith) (omega arith)
              (omega (arith, v.counted)) in
        rw e (
          kinds_intro t.kind (Ensures-bind (token_text-Ends t text) (λ s _. give-Ends index err _))
            (parse_object-Ends (Parse.parse_token doubles lib js tokens count fuel) depth below t
              index err)
            (parse_array-Ends (Parse.parse_token doubles lib js tokens count fuel) depth below t
              index err)
            (Ensures-bind (token_text-Ends t text) (λ s _. give-Ends index err _)))
