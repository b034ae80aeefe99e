-- ===== src/Jplist/Room.antt =====
-- unescape_string works in place: what it writes is not longer than what it read.
use libplist.Prelude.{
  ℕ, zero, suc, ◌+◌, ◌-◌, ◌≤◌, ◌≡◌, arith, List, [], ◌∷◌, ◌++◌, Option, none, some,
}
use libplist.Prelude.{if_intro, option_intro, subst}
use libplist.Prelude.{ltb, ◌==◌, length, take, length-append}
use libplist.Jplist.{
  simple_escape, scan_hex, unicode_bytes, escape_sequence, unescape_step, unescape_chars,
  unescape_string,
}
use mathlib.Core.Option

unicode_bytes-le : (val : ℕ) → length (unicode_bytes val) ≤ 3
unfolding unicode_bytes
unicode_bytes-le val = ground arith

-- What is put in the place of some characters has no more bytes than these, which there are.
abbrev Fits : List ℕ → Option (List ℕ × ℕ) → Type 0
Fits r none = Unit {0}
Fits r (some (bytes, k)) = (length bytes ≤ 1 + k) × (k ≤ length r)

unicode-Fits :
    (d : ℕ) (r : List ℕ) (o : Option ℕ)
    → 4 ≤ length r
    → Fits (d ∷ r) (Option.map (λ val. (unicode_bytes val, 5)) o)
unicode-Fits d r none h = _
unicode-Fits d r (some val) h = (omega (arith, unicode_bytes-le val), omega arith)

escape_sequence-Fits : (d : ℕ) (r : List ℕ) → Fits (d ∷ r) (escape_sequence d r)
unfolding escape_sequence
escape_sequence-Fits d r =
    option_intro (Fits (d ∷ r)) (simple_escape d)
      (λ _.
        if_intro (Fits (d ∷ r)) (d == b'u')
          (λ _.
            if_intro (Fits (d ∷ r)) (ltb (length r) 4) (λ _. _)
              (λ e. unicode-Fits d r (scan_hex 0 (take 4 r)) (ground arith)))
          (λ _. _))
      (λ c _. (omega arith, omega arith))

unescape_step-Fits : (c : ℕ) (r : List ℕ) → Fits r (unescape_step c r)
unfolding unescape_step
unescape_step-Fits c [] =
    if_intro (Fits []) (c == 92) (λ _. (omega arith, omega arith)) (λ _. (omega arith, omega arith))
unescape_step-Fits c (d ∷ r) =
    if_intro (Fits (d ∷ r)) (c == 92) (λ _. escape_sequence-Fits d r)
      (λ _. (omega arith, omega arith))

-- Not more than what is left.
abbrev Within : ℕ → Option (List ℕ) → Type 0
Within n none = Unit {0}
Within n (some t) = length t ≤ n

appended :
    (bytes : List ℕ) (n m : ℕ) (o : Option (List ℕ))
    → Within n o
    → length bytes + n ≤ m
    → Within m (Option.map (λ t. bytes ++ t) o)
appended bytes n m none h le = _
appended bytes n m (some t) h le = omega (arith, h, length-append bytes t)

-- What one round writes, and the rest of the loop behind it.
round-Within :
    (r : List ℕ) (o : Option (List ℕ × ℕ))
    → ((k n : ℕ) → k ≤ length r → length r ≤ n + k → Within n (unescape_chars k r))
    → Fits r o
    → (m : ℕ) → suc (length r) ≤ m
    → Within m (elim o [
      | none ↦ none
      | some (bytes, k) ↦ Option.map (λ t. bytes ++ t) (unescape_chars k r)
    ])
round-Within r none rest f m h = _
round-Within r (some (bytes, k)) rest (few, there) m h =
    appended bytes (length r - k) m (unescape_chars k r) (rest k (length r - k) there (omega arith))
      (omega arith)

unescape_chars-Within :
    (s : List ℕ) (k n : ℕ) → k ≤ length s → length s ≤ n + k → Within n (unescape_chars k s)
unfolding unescape_chars
unescape_chars-Within [] k n h le = omega arith
unescape_chars-Within (c ∷ r) (suc k) n h le =
    unescape_chars-Within r k n (omega arith) (omega arith)
unescape_chars-Within (c ∷ r) zero n h le =
    round-Within r (unescape_step c r) (unescape_chars-Within r) (unescape_step-Fits c r) n
      (omega arith)

-- unescape_string never makes a text longer, so that it can replace the escapes in place.
pub length-unescape_string :
    (str_val strval : List ℕ)
    → unescape_string str_val ≡ some strval
    → length strval ≤ length str_val
unfolding unescape_string
length-unescape_string str_val strval h =
    subst (Within (length str_val)) h
      (unescape_chars-Within str_val 0 (length str_val) (omega arith) (omega arith))
