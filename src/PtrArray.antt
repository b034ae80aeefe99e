-- ===== src/PtrArray.antt =====
-- src/ptrarray.c: a growing array of pointers in a heap block.
pub mod Cells
pub mod Operations
use libplist.Prelude.{ℕ, ◌+◌, ◌-◌, Bool, ◌||◌, ◌&&◌, List, ◌++◌, Option, none, some, ℤ, pos, negsuc}
use libplist.Prelude.{◌==◌, ltb, leb, if◌then◌else◌, length, get_elem?, set, take, drop, replicate}
use mathlib.Core.Option

-- A cell is `none` while it is not initialised, and when it holds NULL.
pub record PtrArray {ℓ} (A : Type ℓ) : Type ℓ where
  pub pdata : List (Option A)
  pub len : ℕ
  pub capacity : ℕ
  pub capacity_step : ℕ

-- `ptr_array_new` for a capacity that is not negative.
unfoldable pub ptr_array_new {ℓ} : {A : Type ℓ} → ℕ → PtrArray A
ptr_array_new capacity = record {
  pdata = replicate capacity none;
  len = 0;
  capacity = capacity;
  capacity_step = if ltb 4096 capacity then 4096 else capacity;
}

module _ {ℓ} {A : Type ℓ} where
  -- `cells[i] = v`; `none` is a write outside the block.
  unfoldable pub store : List A → ℕ → A → Option (List A)
  store cells i v = if ltb i (length cells) then some (set cells i v) else none

  -- `memmove(&cells[to], &cells[from], n)` in units of cells; `none` if it leaves the block.
  unfoldable pub memmove : List A → ℕ → ℕ → ℕ → Option (List A)
  memmove cells to from n =
      if leb (from + n) (length cells) && leb (to + n) (length cells)
      then some (take to cells ++ (take n (drop from cells) ++ drop (to + n) cells))
      else none

module _ {ℓ} {A : Type ℓ} where
  -- The `realloc` of `ptr_array_insert`, when no cell is left.
  unfoldable pub grow : PtrArray A → PtrArray A
  grow pa =
      if pa.capacity - pa.len == 0
      then record pa {
        pdata = pa.pdata ++ replicate pa.capacity_step none;
        capacity = pa.capacity + pa.capacity_step;
      }
      else pa

  -- The write of `ptr_array_insert` at the end of the array.
  unfoldable pub write_last : PtrArray A → A → Option (PtrArray A)
  write_last pa a =
      Option.map (λ cells. record pa { pdata = cells; len = pa.len + 1 })
        (store pa.pdata pa.len (some a))

  -- The shift and the write of `ptr_array_insert` inside the array.
  unfoldable pub write_inside : PtrArray A → A → ℕ → Option (PtrArray A)
  write_inside pa a i = elim (memmove pa.pdata (i + 1) i (pa.len - i)) [
    | none ↦ none
    | some cells ↦
        Option.map (λ cells'. record pa { pdata = cells'; len = pa.len + 1 })
          (store cells i (some a))
  ]

  unfoldable pub ptr_array_insert : PtrArray A → A → ℤ → Option (PtrArray A)
  ptr_array_insert pa a (negsuc _) = write_last (grow pa) a
  ptr_array_insert pa a (pos i) =
      if leb (grow pa).len i then write_last (grow pa) a else write_inside (grow pa) a i

  unfoldable pub ptr_array_add : PtrArray A → A → Option (PtrArray A)
  ptr_array_add pa a = ptr_array_insert pa a (negsuc 0)

  -- The cells that `ptr_array_remove` leaves.
  unfoldable pub unlink : PtrArray A → ℕ → Option (List (Option A))
  unlink pa i =
      if pa.len == 1 then store pa.pdata 0 none else memmove pa.pdata i (i + 1) (pa.len - i - 1)

  unfoldable pub ptr_array_remove : PtrArray A → ℤ → Option (PtrArray A)
  ptr_array_remove pa (negsuc _) = some pa
  ptr_array_remove pa (pos i) =
      if pa.len == 0 || leb pa.len i
      then some pa
      else Option.map (λ cells. record pa { pdata = cells; len = pa.len - 1 }) (unlink pa i)

  unfoldable pub ptr_array_set : PtrArray A → A → ℤ → Option (PtrArray A)
  ptr_array_set pa a (negsuc _) = some pa
  ptr_array_set pa a (pos i) =
      if pa.len == 0 || leb pa.len i
      then some pa
      else Option.map (λ cells. record pa { pdata = cells }) (store pa.pdata i (some a))

  -- The pointer read; `none` is NULL.
  unfoldable pub ptr_array_index : PtrArray A → ℤ → Option A
  ptr_array_index pa (negsuc _) = none
  ptr_array_index pa (pos i) =
      if leb pa.len i then none else elim (get_elem? pa.pdata i) [ some c ↦ c | none ↦ none ]

  unfoldable pub ptr_array_size : PtrArray A → ℕ
  ptr_array_size pa = pa.len
