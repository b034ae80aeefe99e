-- ===== src/PtrArray/Cells.antt =====
-- The cells of a block that holds a list of pointers, under the moves of the operations.
use libplist.Prelude.{ℕ, zero, suc, ◌+◌, ◌-◌, ◌<◌, ◌≤◌, ◌≡◌, refl, ap, arith}
use libplist.Prelude.{List, [], ◌∷◌, ◌++◌, map, append_assoc, Option, none, some}
use libplist.Prelude.{
  ◌==◌, Bool-cases, inl, inr, length, get_elem?, set, take, drop, replicate, length-append,
  length-replicate,
}
use libplist.PtrArray.{PtrArray, ptr_array_new, store, memmove, grow}
use mathlib.Core.Option
use native.Mathlib.Nat.{suc-add}

pub store_inside :
    {B : Type 0} (cells : List B) (i : ℕ) (v : B)
    → i < length cells
    → store cells i v ≡ some (set cells i v)
unfolding store
store_inside cells i v h = ground arith

pub memmove_inside :
    {B : Type 0} (cells : List B) (to from n : ℕ)
    → from + n ≤ length cells
    → to + n ≤ length cells
    → memmove cells to from n
      ≡ some (take to cells ++ (take n (drop from cells) ++ drop (to + n) cells))
unfolding memmove
memmove_inside cells to from n h k = ground arith

module _ {A : Type 0} where
  -- The array holds the pointers `xs`; the cells behind them are arbitrary.
  pub record Models (xs : List A) (pa : PtrArray A) : Type 0 where
    pub spare : List (Option A)
    pub cells : pa.pdata ≡ map some xs ++ spare
    pub counted : pa.len ≡ length xs
    pub block : pa.capacity ≡ length xs + length spare
    pub step : 0 < pa.capacity_step

  -- `xs` with `a` before position `i`.
  unfoldable pub insert_at : ℕ → A → List A → List A
  insert_at i a [] = a ∷ []
  insert_at zero a (x ∷ xs) = a ∷ x ∷ xs
  insert_at (suc i) a (x ∷ xs) = x ∷ insert_at i a xs

  unfoldable pub remove_at : ℕ → List A → List A
  remove_at i [] = []
  remove_at zero (x ∷ xs) = xs
  remove_at (suc i) (x ∷ xs) = x ∷ remove_at i xs

  pub new-Models : (capacity : ℕ) → 0 < capacity → Models [] (ptr_array_new capacity)
  unfolding ptr_array_new
  new-Models capacity h = record {
    spare = replicate capacity none;
    cells = refl;
    counted = refl;
    block = omega (arith, length-replicate {A = Option A} capacity none);
    step = ground arith;
  }

  abbrev pub pointers : List A → List (Option A) → List (Option A)
  pointers xs spare = map some xs ++ spare

  pub length-pointers :
      (xs : List A) (spare : List (Option A))
      → length (pointers xs spare) ≡ length xs + length spare
  length-pointers [] spare = omega arith
  length-pointers (x ∷ xs) spare = omega (arith, length-pointers xs spare)

  pub take-pointers :
      (xs : List A) (spare : List (Option A)) (n : ℕ)
      → n ≡ length xs
      → take n (pointers xs spare) ≡ map some xs
  take-pointers xs spare n h = rw h (go xs)
    where
      go : (ys : List A) → take (length ys) (pointers ys spare) ≡ map some ys
      go [] = refl
      go (y ∷ ys) = ap (λ r. some y ∷ r) (go ys)

  pub drop-pointers :
      (xs : List A) (spare : List (Option A)) (n : ℕ)
      → n ≡ length xs
      → drop n (pointers xs spare) ≡ spare
  drop-pointers xs spare n h = rw h (go xs)
    where
      go : (ys : List A) → drop (length ys) (pointers ys spare) ≡ spare
      go [] = refl
      go (y ∷ ys) = go ys

  -- The write behind the last pointer.
  pub set-pointers_end :
      (xs : List A) (c : Option A) (spare : List (Option A)) (a : A)
      → set (pointers xs (c ∷ spare)) (length xs) (some a) ≡ pointers (xs ++ (a ∷ [])) spare
  set-pointers_end [] c spare a = refl
  set-pointers_end (x ∷ xs) c spare a = ap (λ r. some x ∷ r) (set-pointers_end xs c spare a)

  pub set-pointers :
      (xs : List A) (spare : List (Option A)) (i : ℕ) (a : A)
      → i < length xs
      → set (pointers xs spare) i (some a) ≡ pointers (set xs i a) spare
  set-pointers [] spare i a h = absurd (omega arith)
  set-pointers (x ∷ xs) spare zero a h = refl
  set-pointers (x ∷ xs) spare (suc i) a h =
      ap (λ r. some x ∷ r) (set-pointers xs spare i a (omega arith))

  pub get_elem?-pointers :
      (xs : List A) (spare : List (Option A)) (i : ℕ)
      → i < length xs
      → get_elem? (pointers xs spare) i ≡ Option.map some (get_elem? xs i)
  get_elem?-pointers [] spare i h = absurd (omega arith)
  get_elem?-pointers (x ∷ xs) spare zero h = refl
  get_elem?-pointers (x ∷ xs) spare (suc i) h = get_elem?-pointers xs spare i (omega arith)

  -- The shift by one cell towards the end, and the write into the gap.
  pub shift_up :
      (xs : List A) (c : Option A) (spare : List (Option A)) (a : A) (i n : ℕ)
      → i < length xs
      → n + i ≡ length xs
      → let ys = pointers xs (c ∷ spare) in
        set (take (suc i) ys ++ (take n (drop i ys) ++ drop (suc (length xs)) ys)) i (some a)
        ≡ pointers (insert_at i a xs) spare
  unfolding insert_at
  shift_up [] c spare a i n h e = absurd (omega arith)
  shift_up (x ∷ xs) c spare a zero n h e =
      rw (take-pointers (x ∷ xs) (c ∷ spare) n (omega arith))
        (ap (λ r. some a ∷ some x ∷ (map some xs ++ r)) (drop_one xs))
    where
      drop_one : (ys : List A) → drop (suc (length ys)) (pointers ys (c ∷ spare)) ≡ spare
      drop_one [] = refl
      drop_one (y ∷ ys) = drop_one ys
  shift_up (x ∷ xs) c spare a (suc i) n h e =
      ap (λ r. some x ∷ r) (shift_up xs c spare a i n (omega arith) (omega arith))

  drop-last :
      (x : A) (xs : List A) (spare : List (Option A))
      → (last : Option A) × (drop (length xs) (pointers (x ∷ xs) spare) ≡ last ∷ spare)
  drop-last x [] spare = (some x, refl)
  drop-last x (y ∷ ys) spare = drop-last y ys spare

  -- The shift by one cell towards the start, over the pointer removed.
  pub shift_down :
      (xs : List A) (spare : List (Option A)) (i n : ℕ)
      → i < length xs
      → n + suc i ≡ length xs
      → let ys = pointers xs spare in
        (last : Option A) × (take i ys ++ (take n (drop (suc i) ys) ++ drop (i + n) ys)
          ≡ pointers (remove_at i xs) (last ∷ spare))
  unfolding remove_at
  shift_down [] spare i n h e = absurd (omega arith)
  shift_down (x ∷ xs) spare zero n h e =
      let m : n ≡ length xs = omega arith in
      let m' : 0 + n ≡ length xs = omega arith in
      let (last, p) = drop-last x xs spare in
      (last, rw (m', take-pointers xs spare n m) (ap (λ r. map some xs ++ r) p))
  shift_down (x ∷ xs) spare (suc i) n h e =
      let (last, p) = shift_down xs spare i n (omega arith) (omega arith) in
      (last, rw (suc-add i n) (ap (λ r. some x ∷ r) p))

  pub length-insert_at : (i : ℕ) (a : A) (xs : List A) → length (insert_at i a xs) ≡ length xs + 1
  unfolding insert_at
  length-insert_at i a [] = omega arith
  length-insert_at zero a (x ∷ xs) = omega arith
  length-insert_at (suc i) a (x ∷ xs) = omega (arith, length-insert_at i a xs)

  pub length-remove_at :
      (i : ℕ) (xs : List A) → i < length xs → length (remove_at i xs) + 1 ≡ length xs
  unfolding remove_at
  length-remove_at i [] h = absurd (omega arith)
  length-remove_at zero (x ∷ xs) h = omega arith
  length-remove_at (suc i) (x ∷ xs) h = omega (arith, length-remove_at i xs (omega arith))

  -- The room that `grow` makes.
  pub grow-Models :
      (xs : List A) (pa : PtrArray A)
      → Models xs pa
      → (m : Models xs (grow pa)) × (0 < length m.spare) × ((grow pa).len ≡ pa.len)
  unfolding grow
  grow-Models xs pa m = elim (Bool-cases (pa.capacity - pa.len == 0)) [
    | inl full ↦ rw full (
      record {
        spare = m.spare ++ replicate pa.capacity_step none;
        cells = rw m.cells (append_assoc (map some xs) m.spare (replicate pa.capacity_step none));
        counted = m.counted;
        block = simp (length-append, length-replicate, m.block) (omega arith);
        step = m.step;
      },
      simp (length-append, length-replicate) (omega (arith, m.step)),
      refl,
    )
    | inr free ↦ rw free (m, ground (arith, m.block, m.counted), refl)
  ]
