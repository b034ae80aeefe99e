-- ===== src/PtrArray/Operations.antt =====
-- The array as a list: every operation stays inside the block and acts as on a list.
use libplist.Prelude.{ℕ, zero, suc, ◌+◌, ◌-◌, ◌<◌, ◌≤◌, ◌≡◌, refl, ap, false, arith}
use libplist.Prelude.{List, [], ◌∷◌, ◌++◌, Option, none, some, ℤ, pos, negsuc}
use libplist.Prelude.{
  if◌then◌else◌, ◌==◌, Bool-cases, ◌||◌, inl, inr, leb, length, get_elem?, set, take, drop,
  length-append, length-take, length-set, set_beyond, get_elem?_beyond,
}
use libplist.PtrArray.{PtrArray, grow, write_last, write_inside, ptr_array_insert}
use libplist.PtrArray.{
  ptr_array_add, unlink, ptr_array_remove, ptr_array_set, ptr_array_index, ptr_array_size,
}
use libplist.PtrArray.Cells.{Models, insert_at, remove_at, pointers, length-pointers}
use libplist.PtrArray.Cells.{
  set-pointers_end, set-pointers, get_elem?-pointers, shift_up, shift_down, length-insert_at,
  length-remove_at, grow-Models, store_inside, memmove_inside,
}
use mathlib.Core.Option
use native.Mathlib.Numerals.{add-one}

module _ {A : Type 0} where
  -- The operation stays inside the block, and what it leaves holds `xs`.
  abbrev pub Returns : Option (PtrArray A) → List A → Type 0
  Returns r xs = (pa : PtrArray A) × (r ≡ some pa) × Models xs pa

  -- The position that an index names: behind the end for a negative one.
  abbrev pub position : List A → ℤ → ℕ
  position xs (pos i) = i
  position xs (negsuc _) = length xs

  pub insert_at-end :
      (a : A) (i : ℕ) (xs : List A) → length xs ≤ i → insert_at i a xs ≡ xs ++ (a ∷ [])
  unfolding insert_at
  insert_at-end a i [] h = refl
  insert_at-end a zero (x ∷ xs) h = absurd (omega arith)
  insert_at-end a (suc i) (x ∷ xs) h = ap (λ r. x ∷ r) (insert_at-end a i xs (omega arith))

  write_last-Returns :
      (xs : List A) (pa : PtrArray A) (a : A) (spare : List (Option A)) (m : Models xs pa)
      → m.spare ≡ spare
      → 0 < length spare
      → Returns (write_last pa a) (xs ++ (a ∷ []))
  unfolding write_last
  write_last-Returns xs pa a [] m e h = absurd (omega arith)
  write_last-Returns xs pa a (c ∷ spare) m e h =
      let inside : length xs < length (pointers xs (c ∷ spare)) =
        omega (arith, length-pointers xs (c ∷ spare)) in
      (
        record pa { pdata = pointers (xs ++ (a ∷ [])) spare; len = pa.len + 1 },
        rw (
          m.cells,
          m.counted,
          e,
          store_inside (pointers xs (c ∷ spare)) (length xs) (some a) inside,
          set-pointers_end xs c spare a,
        ),
        record {
          spare = spare;
          cells = refl;
          counted = omega (arith, m.counted, length-append xs (a ∷ []));
          block = omega (arith, m.block, length-append xs (a ∷ []), ap length e);
          step = m.step;
        },
      )

  write_inside-Returns :
      (xs : List A) (pa : PtrArray A) (a : A) (i : ℕ) (spare : List (Option A)) (m : Models xs pa)
      → m.spare ≡ spare
      → 0 < length spare
      → i < length xs
      → Returns (write_inside pa a i) (insert_at i a xs)
  unfolding write_inside
  write_inside-Returns xs pa a i [] m e h k = absurd (omega arith)
  write_inside-Returns xs pa a i (c ∷ spare) m e h k =
      let ys = pointers xs (c ∷ spare) in
      let n = length xs - i in
      let wide : length ys ≡ length xs + length spare + 1 =
        omega (arith, length-pointers xs (c ∷ spare)) in
      let top : suc i + n ≡ suc (length xs) = omega arith in
      let moved = take (suc i) ys ++ (take n (drop i ys) ++ drop (suc (length xs)) ys) in
      (
        record pa { pdata = pointers (insert_at i a xs) spare; len = pa.len + 1 },
        rw
            (
              write_inside,
              m.cells,
              m.counted,
              e,
              add-one i,
              memmove_inside ys (suc i) i n (omega arith) (omega arith),
              top,
              store_inside moved i (some a) (
                  omega (
                    arith,
                    length-append (take (suc i) ys)
                        (take n (drop i ys) ++ drop (suc (length xs)) ys),
                    length-take (suc i) ys,
                  )),
              shift_up xs c spare a i n k (omega arith),
            )
            (ground (arith, m.counted)),
        record {
          spare = spare;
          cells = refl;
          counted = omega (arith, m.counted, length-insert_at i a xs);
          block = omega (arith, m.block, length-insert_at i a xs, ap length e);
          step = m.step;
        },
      )

  -- On an array that holds a list of pointers and grows by a positive number of cells, as one that
  -- was made with a positive capacity does, ptr_array_insert stays inside the block, growing it
  -- when it is full, and puts the pointer before the position that the index names, at the end for
  -- an index that is negative or too large.
  pub ptr_array_insert-Returns :
      (xs : List A) (pa : PtrArray A) (a : A) (i : ℤ)
      → Models xs pa
      → Returns (ptr_array_insert pa a i) (insert_at (position xs i) a xs)
  unfolding ptr_array_insert
  ptr_array_insert-Returns xs pa a (negsuc j) m =
      let (g, roomy, kept) = grow-Models xs pa m in
      rw (insert_at-end a (length xs) xs (omega arith))
        (write_last-Returns xs (grow pa) a g.spare g refl roomy)
  ptr_array_insert-Returns xs pa a (pos i) m =
      let (g, roomy, kept) = grow-Models xs pa m in
      elim (Bool-cases (leb (grow pa).len i)) [
        | inl e ↦
            rw (e, insert_at-end a i xs (ground (arith, g.counted)))
              (write_last-Returns xs (grow pa) a g.spare g refl roomy)
        | inr e ↦
            rw e (
              write_inside-Returns xs (grow pa) a i g.spare g refl roomy
                (ground (arith, g.counted)))
      ]

  pub ptr_array_add-Returns :
      (xs : List A) (pa : PtrArray A) (a : A)
      → Models xs pa
      → Returns (ptr_array_add pa a) (xs ++ (a ∷ []))
  unfolding ptr_array_add
  ptr_array_add-Returns xs pa a m =
      rw (insert_at-end a (length xs) xs (omega arith)) at
        (ptr_array_insert-Returns xs pa a (negsuc 0) m)

  -- A pointer removed, or none for an index out of range.
  abbrev pub removed : List A → ℤ → List A
  removed xs (pos i) = if leb (length xs) i then xs else remove_at i xs
  removed xs (negsuc _) = xs

  unlink_many :
      (xs : List A) (pa : PtrArray A) (i : ℕ) (m : Models xs pa)
      → i < length xs
      → 1 < length xs
      → (last : Option A) × (unlink pa i ≡ some (pointers (remove_at i xs) (last ∷ m.spare)))
  unfolding unlink
  unlink_many xs pa i m h two =
      let ys = pointers xs m.spare in
      let n = length xs - i - 1 in
      let wide = length-pointers xs m.spare in
      let many : (length xs == 1) ≡ false = ground arith in
      let (last, p) = shift_down xs m.spare i n h (omega arith) in
      (
        last,
        rw
            (
              m.counted,
              m.cells,
              many,
              add-one i,
              memmove_inside ys i (suc i) n (omega arith) (omega arith),
            )
            (ap some p),
      )

  unlink-Models :
      (xs : List A) (pa : PtrArray A) (i : ℕ) (m : Models xs pa)
      → i < length xs
      → (last : Option A) × (unlink pa i ≡ some (pointers (remove_at i xs) (last ∷ m.spare)))
  unlink-Models [] pa i m h = absurd (omega arith)
  unlink-Models (x ∷ []) pa zero m h = (
    none,
    unfold unlink remove_at in
        rw (m.counted, m.cells, store_inside (some x ∷ m.spare) 0 none (omega arith)),
  )
  unlink-Models (x ∷ []) pa (suc i) m h = absurd (omega arith)
  unlink-Models (x ∷ y ∷ zs) pa i m h = unlink_many (x ∷ y ∷ zs) pa i m h (omega arith)

  -- On an array that holds a list of pointers and grows by a positive number of cells,
  -- ptr_array_remove takes out the pointer at an index in range, does nothing for any other index,
  -- and stays inside the block.
  pub ptr_array_remove-Returns :
      (xs : List A) (pa : PtrArray A) (i : ℤ)
      → Models xs pa
      → Returns (ptr_array_remove pa i) (removed xs i)
  unfolding ptr_array_remove
  ptr_array_remove-Returns xs pa (negsuc j) m = (pa, refl, m)
  ptr_array_remove-Returns xs pa (pos i) m = elim (Bool-cases (leb (length xs) i)) [
    | inl e ↦ (pa, rw m.counted (ground arith), rw e m)
    | inr e ↦
        let inside : i < length xs = ground arith in
        let (last, p) = unlink-Models xs pa i m inside in
        let busy : (pa.len == 0 || leb pa.len i) ≡ false = ground (arith, m.counted) in
        rw e (
          record pa { pdata = pointers (remove_at i xs) (last ∷ m.spare); len = pa.len - 1 },
          rw (busy, p),
          record {
            spare = last ∷ m.spare;
            cells = refl;
            counted = omega (arith, m.counted, length-remove_at i xs inside);
            block = omega (arith, m.block, length-remove_at i xs inside);
            step = m.step;
          },
        )
  ]

  -- On an array that holds a list of pointers, ptr_array_set overwrites the pointer at an index in
  -- range, does nothing for a larger one, and stays inside the block.
  pub ptr_array_set-Returns :
      (xs : List A) (pa : PtrArray A) (a : A) (i : ℕ)
      → Models xs pa
      → Returns (ptr_array_set pa a (pos i)) (set xs i a)
  unfolding ptr_array_set
  ptr_array_set-Returns xs pa a i m = elim (Bool-cases (leb (length xs) i)) [
    | inl e ↦ (pa, rw m.counted (ground arith), rw (set_beyond xs i a (ground arith)) m)
    | inr e ↦
        let inside : i < length xs = ground arith in
        let wide = length-pointers xs m.spare in
        (
          record pa { pdata = pointers (set xs i a) m.spare },
          rw
              (
                m.counted,
                m.cells,
                store_inside (pointers xs m.spare) i (some a) (omega arith),
                set-pointers xs m.spare i a inside,
              )
              (ground arith),
          record {
            spare = m.spare;
            cells = refl;
            counted = omega (arith, m.counted, length-set xs i a);
            block = omega (arith, m.block, length-set xs i a);
            step = m.step;
          },
        )
  ]

  unwrap :
      (o : Option A) → elim (Option.map some o) as (λ _. Option A) [ some c ↦ c | none ↦ none ] ≡ o
  unwrap none = refl
  unwrap (some a) = refl

  -- On an array that holds a list of pointers, ptr_array_index reads the list, and gives NULL for
  -- an index that is too large.
  pub ptr_array_index_lem :
      (xs : List A) (pa : PtrArray A) (i : ℕ)
      → Models xs pa
      → ptr_array_index pa (pos i) ≡ get_elem? xs i
  unfolding ptr_array_index
  ptr_array_index_lem xs pa i m = elim (Bool-cases (leb pa.len i)) [
    | inl e ↦ rw (e, get_elem?_beyond xs i (ground (arith, m.counted)))
    | inr e ↦
        let inside : i < length xs = ground (arith, m.counted) in
        rw (e, m.cells, get_elem?-pointers xs m.spare i inside) (unwrap (get_elem? xs i))
  ]

  pub ptr_array_size_lem :
      (xs : List A) (pa : PtrArray A) → Models xs pa → ptr_array_size pa ≡ length xs
  unfolding ptr_array_size
  ptr_array_size_lem xs pa m = m.counted
