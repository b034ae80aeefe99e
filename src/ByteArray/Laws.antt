-- ===== src/ByteArray/Laws.antt =====
-- The buffer as the list of the bytes appended so far.
use libplist.Prelude.{ℕ, suc, ◌+◌, ◌-◌, ◌%◌, ◌^◌, ◌<◌, ◌≤◌, ◌≡◌, refl, ap, arith, false}
use libplist.Prelude.{
  List, [], ◌∷◌, ◌++◌, append_assoc, Option, some, ltb, ◌==◌, Bool-cases, inl, inr,
}
use libplist.Prelude.{length, take, take-length, drop, length-append, length-drop, append-nil}
use native.Mathlib.Nat.{zero-add, suc-add, mod-eq_of_lt}
use libplist.ByteArray.{ByteArray, Storage, block, stream, page_size, page_up, byte_array_new}
use libplist.ByteArray.{byte_array_grow, realloc, memcpy_at, copy_in, byte_array_append}

-- The array holds the bytes `bs`, in a block with room left behind them or in a stream.
pub data Contents (bs : List ℕ) : Storage → ℕ → ℕ → Type 0 where
  in_block :
      (spare : List ℕ) {s : Storage} {len capacity : ℕ}
      → s ≡ block (bs ++ spare)
      → len ≡ length bs
      → capacity ≡ length bs + length spare
      → Contents bs s len capacity
  in_stream :
      {s : Storage} {len capacity : ℕ}
      → s ≡ stream bs
      → len ≡ length bs
      → Contents bs s len capacity

abbrev pub Holds : List ℕ → ByteArray → Type 0
Holds bs ba = Contents bs ba.storage ba.len ba.capacity

-- A size that is not near the top of the address space rounds up to whole pages.
pub page_up-le :
    (x : ℕ) → 0 < x → x + page_size ≤ 2 ^ 64 → (x ≤ page_up x) × (page_up x < x + page_size)
unfolding page_up
page_up-le x lo h = ground arith

-- The allocator returns as many bytes as were asked for.
abbrev pub IsAllocator : (ℕ → List ℕ) → Type 0
IsAllocator fresh = (n : ℕ) → length (fresh n) ≡ n

take-all : (xs ys : List ℕ) → take (length xs) (xs ++ ys) ≡ xs
take-all [] ys = refl
take-all (x ∷ xs) ys = ap (λ r. x ∷ r) (take-all xs ys)

drop-all : (xs ys : List ℕ) (n : ℕ) → drop (length xs + n) (xs ++ ys) ≡ drop n ys
drop-all [] ys n = rw zero-add
drop-all (x ∷ xs) ys n = rw suc-add (drop-all xs ys n)

-- The array that an operation leaves, and what it holds.
abbrev pub Returns : Option ByteArray → List ℕ → Type 0
Returns r bs = (ba : ByteArray) × (r ≡ some ba) × Holds bs ba

memcpy_at_inside :
    (bs buf spare : List ℕ)
    → length buf ≤ length spare
    → memcpy_at (bs ++ spare) (length bs) buf ≡ some (bs ++ (buf ++ drop (length buf) spare))
unfolding memcpy_at
memcpy_at_inside bs buf spare h =
    let fits : ltb (length (bs ++ spare)) (length bs + length buf) ≡ false =
      ground (arith, length-append bs spare) in
    rw (fits, take-all bs spare, drop-all bs spare (length buf))

copy_in-Returns :
    (bs buf spare : List ℕ) (ba : ByteArray)
    → ba.storage ≡ block (bs ++ spare)
    → ba.len ≡ length bs
    → ba.capacity ≡ length bs + length spare
    → length buf ≤ length spare
    → length bs + length buf < 2 ^ 64
    → Returns (copy_in ba buf) (bs ++ buf)
unfolding copy_in
copy_in-Returns bs buf spare ba es el ec h small = (
  record ba {
    storage = block (bs ++ (buf ++ drop (length buf) spare));
    len = (ba.len + length buf) % 2 ^ 64;
  },
  rw (copy_in, es, el, memcpy_at_inside bs buf spare h) (ground (arith, el)),
  in_block (drop (length buf) spare) (rw append_assoc) (omega (arith, el, length-append bs buf))
      (omega (arith, ec, length-append bs buf, length-drop (length buf) spare)),
)

some_bytes : (buf : List ℕ) → (suc (length buf) == 0) ≡ false
some_bytes buf = ground arith

-- A block that grows keeps its bytes, with new ones behind them.
grown-storage :
    (fresh : ℕ → List ℕ) (ba : ByteArray) (bs spare : List ℕ) (n : ℕ)
    → ba.storage ≡ block (bs ++ spare)
    → length (bs ++ spare) ≡ ba.capacity
    → (ba.capacity + page_up n) % 2 ^ 64 ≡ ba.capacity + page_up n
    → (byte_array_grow fresh ba n).storage ≡ block (bs ++ (spare ++ fresh (page_up n)))
unfolding byte_array_grow realloc
grown-storage fresh ba bs spare n es held room =
    let keeps : ltb (ba.capacity + page_up n) (length (bs ++ spare)) ≡ false =
      ground (arith, held) in
    let new_bytes : ba.capacity + page_up n - length (bs ++ spare) ≡ page_up n =
      omega (arith, held) in
    rw (byte_array_grow, es, room, realloc, keeps, new_bytes, append_assoc) refl

-- byte_array_append never writes outside the block, and what the array then holds is what it held
-- before followed by the new bytes, whether it has to grow or not, and for a stream too; if the
-- allocator gives as many bytes as asked for, a stream takes all bytes that are written to it, and
-- what the array then holds fits 64 bits with a page behind it.
pub byte_array_append-Returns :
    (fresh : ℕ → List ℕ) (fwrite : List ℕ → List ℕ → ℕ) (ba : ByteArray) (bs buf : List ℕ)
    → IsAllocator fresh
    → ((written : List ℕ) → fwrite written buf ≡ length buf)
    → length bs + length buf + page_size ≤ 2 ^ 64
    → Holds bs ba
    → Returns (byte_array_append fresh fwrite ba buf) (bs ++ buf)
unfolding byte_array_append
byte_array_append-Returns fresh fwrite ba bs [] alloc takes small h = (ba, refl, rw append-nil h)
byte_array_append-Returns fresh fwrite ba bs (b ∷ buf) alloc takes small (in_stream es el) = (
  record ba { storage = stream (bs ++ (b ∷ buf)); len = (ba.len + length (b ∷ buf)) % 2 ^ 64 },
  rw (byte_array_append, some_bytes buf, es, takes bs, take-length (b ∷ buf)),
  in_stream refl (omega (arith, el, length-append bs (b ∷ buf))),
)
byte_array_append-Returns fresh fwrite ba bs (b ∷ buf) alloc takes small (in_block spare es el ec) =
    let missing = length (b ∷ buf) - (ba.capacity - ba.len) in
    let more = page_up missing in
    elim (Bool-cases (ltb (ba.capacity - ba.len) (length (b ∷ buf)))) [
      | inl full ↦
          let lack : 0 < missing = ground arith in
          let (enough, near) = page_up-le missing lack (omega arith) in
          let held : length (bs ++ spare) ≡ ba.capacity =
            omega (arith, ec, length-append bs spare) in
          let room : (ba.capacity + more) % 2 ^ 64 ≡ ba.capacity + more =
            mod-eq_of_lt (omega (arith, ec, el)) in
          let wider : length (spare ++ fresh more) ≡ length spare + more =
            rw length-append (omega (arith, alloc more)) in
          rw (byte_array_append, some_bytes buf, es, full)
            (copy_in-Returns bs (b ∷ buf) (spare ++ fresh more) (byte_array_grow fresh ba missing)
              (grown-storage fresh ba bs spare missing es held room)
              (unfold byte_array_grow in rw es el)
              (unfold byte_array_grow in rw (es, room) (omega (arith, ec, wider)))
              (omega (arith, wider, el, ec)) (omega arith))
      | inr free ↦
          rw (byte_array_append, some_bytes buf, es, free)
            (copy_in-Returns bs (b ∷ buf) spare ba es el ec (ground (arith, el, ec)) (omega arith))
    ]

-- A new array holds nothing.
pub byte_array_new-Holds :
    (initial : ℕ) (fresh : ℕ → List ℕ) → IsAllocator fresh → Holds [] (byte_array_new initial fresh)
unfolding byte_array_new
byte_array_new-Holds initial fresh alloc =
    in_block (fresh (page_up initial)) refl refl (omega (arith, alloc (page_up initial)))
