-- ===== src/Jplist/Parse.antt =====
-- The parsers of tokens and `plist_from_json` of src/jplist.c. The tokens come from src/jsmn.c,
-- which is a copy of a separate library; the calls of src/plist.c that put a node into a container
-- are the fields of `Containers`.
pub mod Tokens
pub mod Total
use libplist.Prelude.{
  ℕ, zero, suc, ◌+◌, ◌-◌, ◌/◌, ◌%◌, ◌^◌, List, [], Option, none, some, ◌==◌, ltb, leb,
  if◌then◌else◌, get_elem?, not,
}
use libplist.Prelude
use libplist.Run.{Run, ok, out_of_fuel, access, ◌>>=◌}
use libplist.Bplist.Word.{load}
use libplist.Bplist.Node.{
  PlistData, strval, PlistErr, success, invalid_arg, parse, no_mem, max_nesting,
}
use libplist.Bplist.Node.{PlistType}
use libplist.Bplist.Node.New.{plist_new_array, plist_new_dict}
use libplist.Bplist.Parse.{max_nesting_depth}
use libplist.Bplist.Parse.Document.{nesting_fuel, final_err}
use libplist.Jplist.{unescape_string}
use libplist.Jplist.Primitive.{Doubles, parse_primitive}

-- `jsmntype_t`
pub data JsmnType : Type 0 where
  primitive object array string : JsmnType

-- `jsmntok_t`
pub record Token : Type 0 where
  pub kind : JsmnType
  pub start : ℕ
  pub end : ℕ
  pub size : ℕ

-- `plist_new_node`, `plist_array_append_item` and `plist_dict_set_item`; `none` leaves the value
-- without a parent.
pub record Containers : Type 1 where
  pub Node : Type 0
  pub new_node : PlistData → Node
  pub append_item : Node → Node → Option Node
  pub set_item : Node → List ℕ → Node → Option Node

-- What `jsmn_parse` returns.
pub data JsmnCode : Type 0 where
  error_nomem error_inval error_part error_limit : JsmnCode
  parsed : JsmnCode

-- The tokenizer: `jsmn_parse json maxtoks` on a parser with its tokens, after `realloc` to
-- `maxtoks` of these.
pub record Jsmn : Type 1 where
  pub Parser : Type 0
  pub jsmn_init : Parser
  pub jsmn_parse : List ℕ → ℕ → Parser → JsmnCode × Parser
  pub toknext : Parser → ℕ
  pub tokens : Parser → List Token

module _ (doubles : Doubles) (lib : Containers) where
  open lib use {Node, new_node, append_item, set_item}

  -- The node with the index behind it, or NULL, and `ti->err`.
  abbrev pub JsonResult : Type 0
  JsonResult = Run (Option (Node × ℕ) × PlistErr)

  module _ (js : List ℕ) (tokens : List Token) (count : ℕ) where
    -- A parser of the token at an index, at a depth.
    abbrev pub TokenParser : Type 0
    TokenParser = ℕ → ℕ → PlistErr → JsonResult

    abbrev pub token_text : Token → Run (List ℕ)
    token_text t = load js t.start (t.end - t.start)

    unfoldable pub give : ℕ → PlistErr → Option PlistData → JsonResult
    give index err none = ok (none, err)
    give index err (some d) = ok (some (new_node d, index + 1), err)

    unfoldable pub string_data : List ℕ → Option PlistData
    string_data text = elim (unescape_string text) [
      | none ↦ none
      | some t ↦
          some (record { value = strval t; length = Prelude.length t; kind = PlistType.string })
    ]

    unfoldable pub array_items : TokenParser → ℕ → ℕ → ℕ → Node → PlistErr → JsonResult
    array_items self depth zero j arr err = ok (some (arr, j), err)
    array_items self depth (suc n) j arr err =
        if leb count j
        then ok (none, parse)
        else (self j (depth + 1) err >>= λ q. elim q.0 [
          | none ↦ ok (none, parse)
          | some (val, j') ↦ elim (append_item arr val) [
            | none ↦ ok (none, no_mem)
            | some arr' ↦ array_items self depth n j' arr' q.1
          ]
        ])

    unfoldable pub parse_array : TokenParser → Token → ℕ → ℕ → PlistErr → JsonResult
    parse_array self t index depth err =
        if ltb max_nesting_depth depth
        then ok (none, max_nesting)
        else array_items self depth t.size (index + 1) (new_node plist_new_array) err

    -- The value of a pair, whose key is known.
    unfoldable pub object_value : TokenParser → ℕ → ℕ → Node → List ℕ → PlistErr → JsonResult
    object_value self depth j obj key err = self j (depth + 1) err >>= λ q. elim q.0 [
      | none ↦ ok (none, parse)
      | some (val, j') ↦ elim (set_item obj key val) [
        | none ↦ ok (none, no_mem)
        | some obj' ↦ ok (some (obj', j'), q.1)
      ]
    ]

    -- One round: a key and its value.
    unfoldable pub object_pair : TokenParser → ℕ → ℕ → Node → PlistErr → JsonResult
    object_pair self depth j obj err = access (get_elem? tokens j) >>= λ t. elim t.kind [
      | string ↦ token_text t >>= λ text. elim (unescape_string text) [
        | none ↦ ok (none, parse)
        | some key ↦ object_value self depth (j + 1) obj key err
      ]
      | _ ↦ ok (none, parse)
    ]

    -- Each round takes two of the children.
    unfoldable pub object_loop : TokenParser → ℕ → ℕ → ℕ → Node → PlistErr → JsonResult
    object_loop self depth zero j obj err = ok (some (obj, j), err)
    object_loop self depth (suc n) j obj err =
        if leb count (j + 1)
        then ok (none, parse)
        else (object_pair self depth j obj err >>= λ q. elim q.0 [
          | none ↦ ok (none, q.1)
          | some (obj', j') ↦ object_loop self depth n j' obj' q.1
        ])

    unfoldable pub parse_object : TokenParser → Token → ℕ → ℕ → PlistErr → JsonResult
    parse_object self t index depth err =
        if ltb max_nesting_depth depth
        then ok (none, max_nesting)
        else if not (t.size % 2 == 0)
        then ok (none, parse)
        else object_loop self depth (t.size / 2) (index + 1) (new_node plist_new_dict) err

    -- The switch over the type of a token. The fuel bounds the nesting.
    unfoldable pub parse_token : ℕ → TokenParser
    parse_token zero index depth err = out_of_fuel
    parse_token (suc fuel) index depth err = access (get_elem? tokens index) >>= λ t. elim t.kind [
      | object ↦ parse_object (parse_token fuel) t index depth err
      | array ↦ parse_array (parse_token fuel) t index depth err
      | string ↦ token_text t >>= λ text. give index err (string_data text)
      | primitive ↦ token_text t >>= λ text. give index err (parse_primitive doubles text)
    ]

  module _ (jsmn : Jsmn) (json : List ℕ) where
    -- The loop that calls jsmn_parse with more and more tokens, `fuel` rounds at most: the code,
    -- or `none` where there are more tokens than an int counts, and the parser.
    unfoldable pub token_loop : ℕ → ℕ → jsmn.Parser → Run (Option JsmnCode × jsmn.Parser)
    token_loop zero maxtoks p = out_of_fuel
    token_loop (suc fuel) maxtoks p =
        let q = jsmn.jsmn_parse json maxtoks p in
        elim q.0 [
          | error_nomem ↦
              if ltb (2 ^ 31 - 1 - 16) maxtoks
              then ok (none, q.1)
              else token_loop fuel (maxtoks + 16) q.1
          | c ↦ ok (some c, q.1)
        ]

    -- The code and the root, once there are tokens.
    unfoldable pub parse_first_token : jsmn.Parser → Run (PlistErr × Option Node)
    parse_first_token p =
        parse_token json (jsmn.tokens p) (jsmn.toknext p) nesting_fuel 0 0 success >>= λ q.
        ok (elim q.0 [ none ↦ (final_err q.1, none) | some (n, j) ↦ (success, some n) ])

    -- Each round adds 16 tokens to the first 256.
    unfoldable pub plist_from_json : Run (PlistErr × Option Node)
    plist_from_json =
        if Prelude.length json == 0
        then ok (invalid_arg, none)
        else (token_loop (Prelude.length json + 1) 256 jsmn.jsmn_init >>= λ q. elim q.0 [
          | none ↦ ok (no_mem, none)
          | some c ↦ elim c [ parsed ↦ parse_first_token q.1 | _ ↦ ok (parse, none) ]
        ])
