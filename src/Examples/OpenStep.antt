-- ===== src/Examples/OpenStep.antt =====
-- The OpenStep format: data, white space and comments.
use libplist.Prelude.{ℕ, ◌≡◌, refl, arith, true, List, [], ◌∷◌, ◌++◌, some, drop}
use libplist.Oplist.{
  data_loop, append_data, line_comment, block_comment, skip_comment, is_white, skip_rounds,
  parse_skip_ws, read_data,
}
use libplist.Jplist.{hex}
use libplist.Oplist.RoundTrip.{read_data-append_data}

-- Six bytes, so that the writer puts a space behind four of them.
abbrev six : List ℕ
six = 0 ∷ 18 ∷ 255 ∷ 160 ∷ 7 ∷ 9 ∷ []

read_data-append_data_example :
    read_data (drop 1 (append_data true [] six ++ (32 ∷ 59 ∷ [])))
    ≡ some (six, parse_skip_ws (32 ∷ 59 ∷ []))
read_data-append_data_example =
    read_data-append_data true six (32 ∷ 59 ∷ [])
      (omega arith, (omega arith, (omega arith, (omega arith, (omega arith, (omega arith, _))))))

-- `<01 ab>`, with two bytes only.
append_data_test : append_data true [] (1 ∷ 171 ∷ []) ≡ 60 ∷ b'0' ∷ b'1' ∷ b'a' ∷ b'b' ∷ 62 ∷ []
unfolding append_data data_loop hex
append_data_test = refl

-- A star and a slash that share the star with the beginning end a comment.
comment_test : parse_skip_ws (47 ∷ 42 ∷ 47 ∷ b'x' ∷ []) ≡ b'x' ∷ []
unfolding parse_skip_ws skip_rounds skip_comment block_comment is_white
comment_test = refl

-- Of two comments without white space between them, the second stays.
two_comments_test : parse_skip_ws (47 ∷ 42 ∷ 42 ∷ 47 ∷ 47 ∷ 47 ∷ b'x' ∷ []) ≡ 47 ∷ 47 ∷ b'x' ∷ []
unfolding parse_skip_ws skip_rounds skip_comment block_comment line_comment is_white
two_comments_test = refl
