-- ===== src/Oplist/RoundTrip.antt =====
-- Data that node_to_openstep wrote, read by node_from_openstep.
use libplist.Prelude.{
  ℕ, zero, suc, ◌+◌, ◌*◌, ◌/◌, ◌%◌, ◌<◌, ◌≤◌, ◌≡◌, refl, arith, Bool, true, false, ◌&&◌, not, List,
  [], ◌∷◌, ◌++◌, some,
}
use libplist.Prelude.{
  All, ◌==◌, if◌then◌else◌, length, length-append, append_assoc, append-nil, drop,
}
use libplist.Bplist.Word.Values.{IsByte}
use libplist.Jplist.{hex}
use libplist.Jplist.Unescape.{xdigit-hex}
use libplist.Oplist.{
  data_loop, append_data, skip_comment, is_white, skip_rounds, parse_skip_ws, read_rounds,
  read_data,
}

-- A character that parse_skip_ws stops at.
abbrev Stops : ℕ → Type 0
Stops c = (is_white c ≡ false) × ((c == 47) ≡ false)

hex-Stops : (d : ℕ) → d < 16 → Stops (hex d) × ((hex d == 62) ≡ false)
unfolding hex is_white
hex-Stops d h = ((ground arith, ground arith), ground arith)

skip_rounds-Stops : (n c : ℕ) (r : List ℕ) → Stops c → skip_rounds n (c ∷ r) ≡ c ∷ r
unfolding skip_rounds skip_comment
skip_rounds-Stops zero c r h = refl
skip_rounds-Stops (suc n) c [] (plain, other) = rw (skip_rounds, skip_comment, plain) refl
skip_rounds-Stops (suc n) c (d ∷ r) (plain, other) =
    rw (skip_rounds, skip_comment, other, plain) refl

-- With a space in front of it, or none.
spaced :
    (b : Bool) (c : ℕ) (r : List ℕ)
    → Stops c
    → parse_skip_ws ((if b then 32 ∷ [] else []) ++ (c ∷ r)) ≡ c ∷ r
unfolding parse_skip_ws skip_rounds skip_comment is_white
spaced true c r h = skip_rounds-Stops (suc (length r)) c r h
spaced false c r h = skip_rounds-Stops (suc (length r)) c r h

pair-read :
    (n : ℕ) (acc : List ℕ) (c : Bool) (x : ℕ) (r : List ℕ)
    → x < 256
    → read_rounds (suc n) acc ((if c then 32 ∷ [] else []) ++ (hex (x / 16) ∷ hex (x % 16) ∷ r))
      ≡ read_rounds n (acc ++ (x ∷ [])) r
unfolding read_rounds
pair-read n acc c x r h =
    let hi : x / 16 < 16 = omega arith in
    let lo : x % 16 < 16 = omega arith in
    let s = hex-Stops (x / 16) hi in
    let e : x / 16 * 16 + x % 16 ≡ x = omega arith in
    rw
      (
        read_rounds,
        spaced c (hex (x / 16)) (hex (x % 16) ∷ r) s.0,
        s.1,
        xdigit-hex (x / 16) hi,
        xdigit-hex (x % 16) lo,
        e,
      )
      refl

end-read : (n : ℕ) (acc r : List ℕ) → read_rounds (suc n) acc (62 ∷ r) ≡ some (acc, r)
unfolding read_rounds
end-read n acc r =
    let stop : Stops 62 = (unfold is_white in refl, refl) in
    rw (read_rounds, spaced false 62 r stop) refl

data_loop-cons :
    (p : Bool) (j b : ℕ) (bs rest : List ℕ)
    → data_loop p j (b ∷ bs) ++ rest
      ≡ (if p && not (j == 0) && j % 4 == 0 then 32 ∷ [] else [])
        ++ (hex (b / 16) ∷ hex (b % 16) ∷ (data_loop p (j + 1) bs ++ rest))
unfolding data_loop
data_loop-cons p j b bs rest = append_assoc _ _ rest

rounds-data_loop :
    (bs : List ℕ) (n : ℕ) (acc : List ℕ) (p : Bool) (j : ℕ) (rest : List ℕ)
    → All IsByte bs
    → length bs < n
    → read_rounds n acc (data_loop p j bs ++ (62 ∷ rest)) ≡ some (acc ++ bs, rest)
rounds-data_loop bs zero acc p j rest hb hn = absurd (omega arith)
rounds-data_loop [] (suc n) acc p j rest hb hn =
    unfold data_loop in rw (end-read n acc rest, append-nil acc) refl
rounds-data_loop (b ∷ bs) (suc n) acc p j rest (hx, hb) hn =
    rw
      (
        data_loop-cons p j b bs (62 ∷ rest),
        pair-read n acc (p && not (j == 0) && j % 4 == 0) b (data_loop p (j + 1) bs ++ (62 ∷ rest))
            hx,
        rounds-data_loop bs n (acc ++ (b ∷ [])) p (j + 1) rest hb (omega arith),
        append_assoc acc (b ∷ []) bs,
      )
      refl

length-data_loop : (bs : List ℕ) (p : Bool) (j : ℕ) → length bs ≤ length (data_loop p j bs)
unfolding data_loop
length-data_loop [] p j = omega arith
length-data_loop (b ∷ bs) p j =
    let e =
      length-append (if p && not (j == 0) && j % 4 == 0 then 32 ∷ [] else [])
        (hex (b / 16) ∷ hex (b % 16) ∷ data_loop p (j + 1) bs) in
    omega (arith, e, length-data_loop bs p (j + 1))

-- Data of bytes comes back from the text that node_to_openstep wrote, with or without the spaces of
-- `prettify`: node_from_openstep reads it from behind the `<`, and goes on behind the `>` and the
-- white space and comments that parse_skip_ws skips there.
pub read_data-append_data :
    (p : Bool) (bs rest : List ℕ)
    → All IsByte bs
    → read_data (drop 1 (append_data p [] bs ++ rest)) ≡ some (bs, parse_skip_ws rest)
unfolding read_data append_data
read_data-append_data p bs rest h =
    let e = length-append (data_loop p 0 bs) (62 ∷ rest) in
    let t = data_loop p 0 bs ++ (62 ∷ rest) in
    let read : read_rounds (length t + 1) [] t ≡ some (bs, rest) =
      rounds-data_loop bs (length t + 1) [] p 0 rest h
        (omega (arith, e, length-data_loop bs p 0)) in
    rw (append_assoc (data_loop p 0 bs) (62 ∷ []) rest, read) refl
