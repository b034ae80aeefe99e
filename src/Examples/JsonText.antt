-- ===== src/Examples/JsonText.antt =====
-- JSON: strings, numbers and tokens.
use libplist.Prelude.{
  ℕ, zero, suc, ◌+◌, ◌*◌, ◌-◌, ◌^◌, ◌<◌, ◌≤◌, ◌≡◌, refl, min, arith, List, [], ◌∷◌, ◌++◌, some,
  false, pos,
}
use libplist.Prelude.{length, ltb, if◌then◌else◌, All, Bool-cases, inl, inr}
use libplist.Run.{Ensures}
use libplist.Escaping.{escape_loop}
use libplist.Bplist.Parse.FromBin.{IsAnswer}
use libplist.Jplist.{
  escape_for, append_string, simple_escape, xdigit, scan_hex, unicode_bytes, escape_sequence,
  unescape_step, unescape_chars, unescape_string, isdigit, int64_max, negated, parse_decimal,
}
use libplist.Jplist.Unescape.{unescape_string-append_string}
use libplist.Jplist.Decimal.{parse_decimal_lem, value_from}
use libplist.Jplist.Room.{length-unescape_string}
use libplist.Jplist.Primitive.{Doubles}
use libplist.Jplist.Parse.{
  array, primitive, Token, Containers, error_nomem, parsed, Jsmn, plist_from_json,
}
use libplist.Jplist.Parse.Tokens.{IsTokens}
use libplist.Jplist.Parse.Total.{IsJsmn, plist_from_json-Ensures}
use libplist.Examples.Binary.{PlistNode, node, childless, attach}

-- A text with a quote, a newline and a control character.
abbrev quoted : List ℕ
quoted = b'a' ∷ 34 ∷ 10 ∷ 1 ∷ []

unescape_string-append_string_example :
    (written : List ℕ) × (append_string [] quoted ≡ 34 ∷ (written ++ (34 ∷ [])))
    × (unescape_string written ≡ some quoted)
unescape_string-append_string_example =
    unescape_string-append_string quoted
      (omega arith, (omega arith, (omega arith, (omega arith, _))))

-- A backslash is written as it is, so the two characters `\n` are read as a newline.
backslash_test : append_string [] (92 ∷ b'n' ∷ []) ≡ 34 ∷ 92 ∷ b'n' ∷ 34 ∷ []
unfolding append_string escape_loop escape_for
backslash_test = refl

backslash_read_test : unescape_string (92 ∷ b'n' ∷ []) ≡ some (10 ∷ [])
unfolding unescape_string unescape_chars unescape_step escape_sequence simple_escape
backslash_read_test = refl

parse_decimal_example :
    (parse_decimal (b'4' ∷ b'2' ∷ b'.' ∷ [])
      ≡ (pos (min int64_max (value_from 0 (b'4' ∷ b'2' ∷ []))), b'.' ∷ []))
    × (parse_decimal (45 ∷ b'4' ∷ b'2' ∷ b'.' ∷ [])
        ≡ (negated (min (int64_max + 1) (value_from 0 (b'4' ∷ b'2' ∷ []))), b'.' ∷ []))
parse_decimal_example =
    parse_decimal_lem b'4' (b'2' ∷ []) (b'.' ∷ []) (unfold isdigit in (refl, (refl, _)))
      (unfold isdigit in refl)

-- Natural numbers in the place of doubles.
abbrev whole_numbers : Doubles
whole_numbers = record {
  D = ℕ;
  of_int = λ z. 0;
  add = λ a b. a + b;
  sub = λ a b. a - b;
  mul = λ a b. a * b;
  pow10 = λ a. a;
  tenth = 0;
  is_inf = λ a. false;
  is_nan = λ a. false;
  bits = λ a. a;
}

abbrev value_containers : Containers
value_containers = record {
  Node = PlistNode;
  new_node = λ d. node d childless;
  append_item = λ a c. some (attach a c);
  set_item = λ a k c. some (attach a c);
}

-- The text `[1,1,...]` with 300 numbers, and what follows its bracket.
abbrev numbers : ℕ → List ℕ
numbers zero = b']' ∷ []
numbers (suc n) = b'1' ∷ b',' ∷ numbers n

abbrev many_numbers : List ℕ
many_numbers = b'[' ∷ numbers 300

length-numbers : (n : ℕ) → length (numbers n) ≡ 2 * n + 1
length-numbers zero = omega arith
length-numbers (suc n) = omega (arith, length-numbers n)

-- The tokens of the numbers from a position on.
abbrev number_tokens : ℕ → ℕ → List Token
number_tokens zero at = []
number_tokens (suc n) at =
    record { kind = primitive; start = at; end = at + 1; size = 0 } ∷ number_tokens n (at + 2)

number_tokens-inside :
    (n at room : ℕ)
    → at + 2 * n ≤ room
    → All (λ t. (t.start ≤ t.end) × (t.end ≤ room)) (number_tokens n at)
number_tokens-inside zero at room h = _
number_tokens-inside (suc n) at room h =
    ((omega arith, omega arith), number_tokens-inside n (at + 2) room (omega arith))

length-number_tokens : (n at : ℕ) → length (number_tokens n at) ≡ n
length-number_tokens zero at = omega arith
length-number_tokens (suc n) at = omega (arith, length-number_tokens n (at + 2))

-- The array's token has no end as long as the tokenizer has less room than 301 tokens.
abbrev array_token : ℕ → Token
array_token room = record {
  kind = array;
  start = 0;
  end = if ltb room 301 then 2 ^ 64 - 1 else 602;
  size = if ltb room 301 then room - 1 else 300;
}

-- A tokenizer of this text. Its parser is the number of tokens that it had room for.
abbrev numbers_jsmn : Jsmn
numbers_jsmn = record {
  Parser = ℕ;
  jsmn_init = 0;
  jsmn_parse = λ json maxtoks p. (if ltb maxtoks 301 then error_nomem else parsed, maxtoks);
  toknext = λ p. if ltb p 301 then p else 301;
  tokens = λ p. array_token p ∷ number_tokens (if ltb p 301 then p - 1 else 300) 1;
}

numbers_jsmn-IsTokens :
    (room : ℕ)
    → ltb room 301 ≡ false
    → IsTokens many_numbers (numbers_jsmn.tokens room) (numbers_jsmn.toknext room)
numbers_jsmn-IsTokens room e =
    let all : length many_numbers ≡ 602 = omega (arith, length-numbers 300) in
    record {
      texts = rw e (
        (omega arith, omega (arith, all)),
        number_tokens-inside 300 1 (length many_numbers) (omega (arith, all)),
      );
      counted = rw e (omega (arith, length-number_tokens 300 1));
    }

numbers_jsmn-full :
    (maxtoks : ℕ)
    → (if ltb maxtoks 301 then error_nomem else parsed) ≡ error_nomem
    → maxtoks < length many_numbers
numbers_jsmn-full maxtoks e = elim (Bool-cases (ltb maxtoks 301)) [
  | inl small ↦ let few : maxtoks < 301 = ground arith in omega (arith, length-numbers 300)
  | inr large ↦ let bad : parsed ≡ error_nomem = cc in cc
]

numbers_jsmn-enough :
    (maxtoks : ℕ)
    → (if ltb maxtoks 301 then error_nomem else parsed) ≡ parsed
    → ltb maxtoks 301 ≡ false
numbers_jsmn-enough maxtoks e = elim (Bool-cases (ltb maxtoks 301)) [
  | inl small ↦ let bad : error_nomem ≡ parsed = cc in cc
  | inr large ↦ large
]

numbers_jsmn-IsJsmn : IsJsmn numbers_jsmn many_numbers
numbers_jsmn-IsJsmn = record {
  IsParser = λ room p. p ≡ room;
  starts = refl;
  called = λ room maxtoks p h le. refl;
  asks = λ room maxtoks p h le e. numbers_jsmn-full maxtoks e;
  gives = λ room maxtoks p h le lo e.
      (numbers_jsmn-IsTokens maxtoks (numbers_jsmn-enough maxtoks e), omega arith);
}

plist_from_json-Ensures_example :
    Ensures IsAnswer (plist_from_json whole_numbers value_containers numbers_jsmn many_numbers)
plist_from_json-Ensures_example =
    plist_from_json-Ensures whole_numbers value_containers numbers_jsmn many_numbers
      numbers_jsmn-IsJsmn

-- An escape of six characters for two bytes.
length-unescape_string_example : length {A = ℕ} (0xC3 ∷ 0xA9 ∷ b'!' ∷ []) ≤ 7
length-unescape_string_example =
    length-unescape_string (92 ∷ b'u' ∷ b'0' ∷ b'0' ∷ b'E' ∷ b'9' ∷ b'!' ∷ [])
      (0xC3 ∷ 0xA9 ∷ b'!' ∷ [])
      (unfold unescape_string unescape_chars unescape_step escape_sequence simple_escape scan_hex
          xdigit unicode_bytes in
        refl)
