-- ===== src/Xplist/Turns.antt =====
-- Each turn of get_text_parts that goes on makes the text shorter, so the loop ends.
use libplist.Prelude.{ℕ, zero, suc, ◌<◌, ◌≤◌, ◌≡◌, refl, arith, Bool, true, false}
use libplist.Prelude.{List, [], ◌∷◌, Option, none, ◌==◌, leb, if◌then◌else◌, not, ◌||◌}
use libplist.Prelude.{length, length-drop, drop, if_intro, ◌&&◌}
use libplist.Run.{ok}
use libplist.Xplist.{TextPart}
use libplist.Xplist.Scan.{
  parse_skip_ws, scan_char, scan_str, find_char, starts_with, find_str, Turn, failed, again,
  closing, comment, cdata, special, turn_at, turn, finish, parts_loop, get_text_parts,
}

scan_char-le :
    (quoted : Bool) (c : ℕ) (skip_quotes : Bool) (text : List ℕ)
    → length (scan_char quoted c skip_quotes text) ≤ length text
unfolding scan_char
scan_char-le quoted c skip_quotes [] = omega arith
scan_char-le true c skip_quotes (x ∷ r) =
    ground (arith, scan_char-le true c skip_quotes r, scan_char-le false c skip_quotes r)
scan_char-le false c skip_quotes (x ∷ r) =
    ground (arith, scan_char-le true c skip_quotes r, scan_char-le false c skip_quotes r)

find_char-le : (c : ℕ) (text : List ℕ) → length (find_char c false text) ≤ length text
unfolding find_char
find_char-le c text = scan_char-le false c false text

scan_str-le :
    (quoted : Bool) (str : List ℕ) (skip_quotes : Bool) (text : List ℕ)
    → length (scan_str quoted str skip_quotes text) ≤ length text
unfolding scan_str
scan_str-le quoted str skip_quotes [] = omega arith
scan_str-le true str skip_quotes (x ∷ r) =
    ground (arith, scan_str-le true str skip_quotes r, scan_str-le false str skip_quotes r)
scan_str-le false str skip_quotes (x ∷ r) =
    ground (arith, scan_str-le true str skip_quotes r, scan_str-le false str skip_quotes r)

find_str-le : (str text : List ℕ) → length (find_str str false text) ≤ length text
unfolding find_str
find_str-le str text = scan_str-le false str false text

starts_with-le : (str text : List ℕ) → starts_with str text ≡ true → length str ≤ length text
unfolding starts_with
starts_with-le [] text h = omega arith
starts_with-le (c ∷ str) [] h = cc
starts_with-le (c ∷ str) (x ∷ text) h = ground (arith, starts_with-le str text)

-- The text that a turn goes on with.
Shorter : ℕ → Turn → Type 0
Shorter n failed = Unit {0}
Shorter n (again parts p) = length p < n
Shorter n (closing parts text pos) = Unit {0}

comment-Shorter :
    (parts : List TextPart) (text pos : List ℕ)
    → Shorter (suc (length pos)) (comment parts text pos)
unfolding comment Shorter
comment-Shorter parts text pos =
    let q = find_str (45 ∷ 45 ∷ 62 ∷ []) false pos in
    if_intro (Shorter (suc (length pos))) (starts_with (45 ∷ 45 ∷ 62 ∷ []) q)
      (λ _. omega (arith, length-drop 3 q, find_str-le (45 ∷ 45 ∷ 62 ∷ []) pos)) (λ _. tt)

cdata-Shorter :
    (parts : List TextPart) (text pos : List ℕ) → Shorter (suc (length pos)) (cdata parts text pos)
unfolding cdata Shorter
cdata-Shorter parts text pos =
    if_intro (Shorter (suc (length pos)))
      (leb (length pos) 8 || not (starts_with (67 ∷ 68 ∷ 65 ∷ 84 ∷ 65 ∷ 91 ∷ []) pos)) (λ _. tt)
      (λ _.
        let q = find_str (93 ∷ 93 ∷ 62 ∷ []) false (drop 6 pos) in
        if_intro (Shorter (suc (length pos))) (starts_with (93 ∷ 93 ∷ 62 ∷ []) q)
          (λ _. omega (
            arith,
            length-drop 3 q,
            length-drop 6 pos,
            find_str-le (93 ∷ 93 ∷ 62 ∷ []) (drop 6 pos),
          ))
          (λ _. tt))

Shorter-le : (n m : ℕ) (t : Turn) → n ≤ m → Shorter n t → Shorter m t
unfolding Shorter
Shorter-le n m failed h k = tt
Shorter-le n m (again parts p) h k = omega (arith, h, k)
Shorter-le n m (closing parts text pos) h k = tt

special-Shorter :
    (parts : List TextPart) (text pos : List ℕ)
    → Shorter (suc (length pos)) (special parts text pos)
unfolding special
special-Shorter parts text [] = unfold Shorter in tt
special-Shorter parts text (x ∷ []) = unfold Shorter in tt
special-Shorter parts text (x ∷ y ∷ pos) =
    if_intro (Shorter (suc (suc (suc (length pos))))) (x == 45 && y == 45)
      (λ _. Shorter-le (suc (length pos)) _ _ (omega arith) (comment-Shorter parts text pos))
      (λ _.
        if_intro (Shorter (suc (suc (suc (length pos))))) (x == 91)
          (λ _.
            Shorter-le (suc (length (y ∷ pos))) _ _ (omega arith)
              (cdata-Shorter parts text (y ∷ pos)))
          (λ _. unfold Shorter in tt))

turn_at-Shorter : (parts : List TextPart) (p q : List ℕ) → Shorter (length q) (turn_at parts p q)
unfolding turn_at
turn_at-Shorter parts p [] = unfold Shorter in tt
turn_at-Shorter parts p (c ∷ []) = unfold Shorter in tt
turn_at-Shorter parts p (c ∷ x ∷ pos) =
    if_intro (Shorter (suc (suc (length pos)))) (x == 33)
      (λ _. Shorter-le (suc (length pos)) _ _ (omega arith) (special-Shorter parts _ pos))
      (λ _.
        if_intro (Shorter (suc (suc (length pos)))) (x == 47) (λ _. unfold Shorter in tt)
          (λ _. unfold Shorter in tt))

turn-Shorter : (parts : List TextPart) (p : List ℕ) → Shorter (length p) (turn parts p)
unfolding turn
turn-Shorter parts p =
    Shorter-le _ _ _ (find_char-le 60 p) (turn_at-Shorter parts p (find_char 60 false p))

-- The loop returns a result with this fuel.
Returns : ℕ → List ℕ → List TextPart → List ℕ → Type 0
Returns fuel tag parts p =
    (r : Option (List TextPart × List ℕ)) × (parts_loop fuel tag parts p ≡ ok r)

after_turn :
    (fuel : ℕ) (tag : List ℕ) (parts : List TextPart) (p : List ℕ) (t : Turn)
    → length p < suc fuel
    → turn parts p ≡ t
    → Shorter (length p) t
    → ((parts' : List TextPart) (p' : List ℕ) → length p' < fuel → Returns fuel tag parts' p')
    → Returns (suc fuel) tag parts p
unfolding parts_loop Shorter Returns
after_turn fuel tag parts p failed h e k next = (none, rw (parts_loop, e))
after_turn fuel tag parts p (closing parts' text pos) h e k next =
    (finish tag parts' text pos, rw (parts_loop, e))
after_turn fuel tag parts p (again parts' p') h e k next =
    let (r, done) = next parts' p' (omega arith) in (r, rw (parts_loop, e, done))

-- Fuel for each character is enough.
parts_loop-Returns :
    (fuel : ℕ) (tag : List ℕ) (parts : List TextPart) (p : List ℕ)
    → length p < fuel
    → Returns fuel tag parts p
parts_loop-Returns zero tag parts p h = absurd (omega arith)
parts_loop-Returns (suc fuel) tag parts p h =
    after_turn fuel tag parts p (turn parts p) h refl (turn-Shorter parts p)
      (λ parts' p' k. parts_loop-Returns fuel tag parts' p' k)

-- get_text_parts always returns.
pub get_text_parts-Returns :
    (tag : List ℕ) (skip_ws : Bool) (pos : List ℕ)
    → (r : Option (List TextPart × List ℕ)) × (get_text_parts tag skip_ws pos ≡ ok r)
unfolding get_text_parts Returns
get_text_parts-Returns tag skip_ws pos =
    let start = if skip_ws then parse_skip_ws pos else pos in
    parts_loop-Returns (suc (length start)) tag [] start (omega arith)
