-- ===== src/Base64.antt =====
-- src/base64.c: encoding of bytes to base64 text and the tolerant decoder.
pub mod RoundTrip
pub mod Bounds
use libplist.Prelude.{ℕ, ◌+◌, ◌*◌, ◌/◌, ◌%◌, Bool, ◌||◌, List, [], ◌∷◌, ◌++◌, Option, none, some}
use libplist.Prelude.{◌==◌, if◌then◌else◌, get_or, replicate, zero, suc}

-- `base64_str`
abbrev pub base64_str : List ℕ
base64_str =
    65 ∷ 66 ∷ 67 ∷ 68 ∷ 69 ∷ 70 ∷ 71 ∷ 72 ∷ 73 ∷ 74 ∷ 75 ∷ 76 ∷ 77 ∷ 78 ∷ 79 ∷ 80 ∷ 81 ∷ 82 ∷ 83
    ∷ 84 ∷ 85 ∷ 86 ∷ 87 ∷ 88 ∷ 89 ∷ 90 ∷ 97 ∷ 98 ∷ 99 ∷ 100 ∷ 101 ∷ 102 ∷ 103 ∷ 104 ∷ 105 ∷ 106
    ∷ 107 ∷ 108 ∷ 109 ∷ 110 ∷ 111 ∷ 112 ∷ 113 ∷ 114 ∷ 115 ∷ 116 ∷ 117 ∷ 118 ∷ 119 ∷ 120 ∷ 121 ∷ 122
    ∷ 48 ∷ 49 ∷ 50 ∷ 51 ∷ 52 ∷ 53 ∷ 54 ∷ 55 ∷ 56 ∷ 57 ∷ 43 ∷ 47 ∷ []

-- `base64_pad`
abbrev pub base64_pad : ℕ
base64_pad = b'='

-- An entry of `base64_table`: -1, -2, or a value from 0 to 63.
pub data Entry : Type 0 where
  invalid : Entry
  padding : Entry
  digit : ℕ → Entry

digits_from : ℕ → ℕ → List Entry
digits_from zero first = []
digits_from (suc n) first = digit first ∷ digits_from n (first + 1)

-- `base64_table`, its runs of equal or consecutive entries shortened.
unfoldable pub base64_table : List Entry
unfolding digits_from
base64_table =
    replicate 43 invalid
    ++ (digit 62 ∷ replicate 3 invalid)
    ++ (digit 63 ∷ digits_from 10 52)
    ++ replicate 3 invalid
    ++ (padding ∷ replicate 3 invalid)
    ++ digits_from 26 0
    ++ replicate 6 invalid
    ++ digits_from 26 26
    ++ replicate 133 invalid

unfoldable pub str : ℕ → ℕ
str i = get_or base64_str i 0

-- One round of the loop of `base64encode`; `none` is a byte behind the end.
unfoldable pub encode_group : ℕ → Option ℕ → Option ℕ → List ℕ
unfolding str
encode_group a b c =
    let b' : ℕ = elim b [ some x ↦ x | none ↦ 0 ] in
    let c' : ℕ = elim c [ some x ↦ x | none ↦ 0 ] in
    str (a / 4)
    ∷ str (a % 4 * 16 + b' / 16)
    ∷ elim b [ some _ ↦ str (b' % 16 * 4 + c' / 64) | none ↦ base64_pad ]
    ∷ elim c [ some _ ↦ str (c' % 64) | none ↦ base64_pad ]
    ∷ []

-- `base64encode`: what is written to `outbuf`, without the final zero.
unfoldable pub base64encode : List ℕ → List ℕ
base64encode [] = []
base64encode (a ∷ []) = encode_group a none none
base64encode (a ∷ b ∷ []) = encode_group a (some b) none
base64encode (a ∷ b ∷ c ∷ r) = encode_group a (some b) (some c) ++ base64encode r

-- The three conditional writes to `outbuf` for a full `tmpval`.
unfoldable pub emit : Entry → Entry → (ℕ → ℕ → ℕ) → List ℕ
emit (digit u) (digit v) f = f u v ∷ []
emit _ _ f = []

unfoldable pub flush : Entry → Entry → Entry → Entry → List ℕ
unfolding emit
flush w1 w2 w3 w4 =
    emit w1 w2 (λ u v. (u * 4 + v / 16) % 256)
    ++ emit w2 w3 (λ u v. (u * 16 + v / 4) % 256)
    ++ emit w3 w4 (λ u v. (u * 64 + v) % 256)

-- `tmpval[0 .. tmpcnt]`, oldest entry first, and what is in `outbuf`.
pub record DecodeState : Type 0 where
  pub tmpval : List Entry
  pub out : List ℕ

-- Storing one entry, and emptying `tmpval` when it holds four.
unfoldable pub push : Entry → DecodeState → DecodeState
unfolding flush
push w s = elim s.tmpval [
  | w1 ∷ r ↦ elim r [
    | w2 ∷ r' ↦ elim r' [
      | w3 ∷ _ ↦ record { tmpval = []; out = s.out ++ flush w1 w2 w3 w }
      | [] ↦ record s { tmpval = w1 ∷ w2 ∷ w ∷ [] }
    ]
    | [] ↦ record s { tmpval = w1 ∷ w ∷ [] }
  ]
  | [] ↦ record s { tmpval = w ∷ [] }
]

unfoldable pub is_space : ℕ → Bool
is_space c = c == 0x20 || c == 0x09 || c == 0x0A || c == 0x0D

-- `continue` on -1, else one more entry of `tmpval`.
unfoldable pub store_entry : Entry → DecodeState → DecodeState
store_entry invalid s = s
store_entry padding s = push padding s
store_entry (digit n) s = push (digit n) s

-- One character that is not the end of the text.
unfoldable pub feed : ℕ → DecodeState → DecodeState
unfolding is_space base64_table store_entry
feed c s = if is_space c then s else store_entry (get_or base64_table c invalid) s

-- The `do` loop; a zero byte ends it like the end of the buffer.
unfoldable pub decode_loop : List ℕ → DecodeState → List ℕ
unfolding feed
decode_loop [] s = s.out
decode_loop (c ∷ r) s = let rest = decode_loop r (feed c s) in if c == 0 then s.out else rest

-- `base64decode` with `*size` the length of the text: NULL if that is 0, else the bytes.
unfoldable pub base64decode : List ℕ → Option (List ℕ)
unfolding decode_loop
base64decode [] = none
base64decode (c ∷ r) = some (decode_loop (c ∷ r) (record { tmpval = []; out = [] }))
