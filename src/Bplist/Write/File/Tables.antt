-- ===== src/Bplist/Write/File/Tables.antt =====
-- The offset table and the trailer as sequences of bytes, and what the parser reads of them.
use libplist.Prelude.{ℕ, zero, suc, ◌+◌, ◌*◌, ◌^◌, ◌<◌, ◌≤◌, ◌≡◌, sym, ◌∙◌, arith}
use libplist.Prelude.{
  false, List, [], ◌∷◌, ◌++◌, some, All, length, replicate, length-append, append_assoc, append-nil,
  get_elem?,
}
use libplist.Run.{ok}
use libplist.Bplist.Word.{bswap64, get_needed_bytes}
use libplist.Bplist.Word.Values.{IsByte}
use libplist.Bplist.Parse.Document.{Trailer, be64_at, read_trailer, bad_trailer}
use libplist.Bplist.Write.{le_bytes, tail_bytes}
use libplist.Bplist.Write.Integers.{length-tail_bytes}
use libplist.Bplist.Write.Held.{Holds, Holds-bound, Holds-append}
use libplist.Bplist.Write.Reals.{swapped64}
use libplist.Bplist.Write.File.{write_offsets, trailer_bytes}

-- The offset table as one sequence of bytes.
unfoldable pub table_bytes : ℕ → List ℕ → List ℕ
table_bytes n [] = []
table_bytes n (o ∷ r) = tail_bytes n o ++ table_bytes n r

pub write_offsets-append :
    (n : ℕ) (bplist offsets : List ℕ)
    → write_offsets n bplist offsets ≡ bplist ++ table_bytes n offsets
unfolding write_offsets table_bytes
write_offsets-append n bplist [] = sym (append-nil bplist)
write_offsets-append n bplist (o ∷ r) =
    write_offsets-append n (bplist ++ tail_bytes n o) r
    ∙ append_assoc bplist (tail_bytes n o) (table_bytes n r)

pub length-table_bytes :
    (n : ℕ) (offsets : List ℕ) → n ≤ 8 → length (table_bytes n offsets) ≡ length offsets * n
unfolding table_bytes
length-table_bytes n [] h = omega arith
length-table_bytes n (o ∷ r) h = omega (
  arith,
  length-append (tail_bytes n o) (table_bytes n r),
  length-tail_bytes n o h,
  length-table_bytes n r h,
)

-- Entry `i` stands `i` widths into the table.
pub table_bytes-Holds :
    (n : ℕ) (buf : List ℕ) (at : ℕ) (offsets : List ℕ) (i o : ℕ)
    → n ≤ 8
    → Holds buf at (table_bytes n offsets)
    → get_elem? offsets i ≡ some o
    → Holds buf (at + i * n) (tail_bytes n o)
unfolding table_bytes
table_bytes-Holds n buf at [] i o hi h e = cc
table_bytes-Holds n buf at (p ∷ r) zero o hi h e =
    let same : at + 0 * n ≡ at = omega arith in
    let eq : p ≡ o = cc in
    rw (same, ← eq) (Holds-append buf at (tail_bytes n p) (table_bytes n r) h).0
table_bytes-Holds n buf at (p ∷ r) (suc i) o hi h e =
    let rest = (Holds-append buf at (tail_bytes n p) (table_bytes n r) h).1 in
    let step : at + suc i * n ≡ at + length (tail_bytes n p) + i * n =
      omega (arith, length-tail_bytes n p hi) in
    rw step (table_bytes-Holds n buf (at + length (tail_bytes n p)) r i o hi rest e)

pub be64_at-Holds :
    (buf : List ℕ) (at x : ℕ)
    → All IsByte buf
    → x < 2 ^ 64
    → Holds buf at (le_bytes 8 (bswap64 x))
    → at + 8 ≤ length buf
    → be64_at buf at ≡ ok x
unfolding be64_at tail_bytes
be64_at-Holds buf at x bytes small h long =
    let (w, e, value) = swapped64 buf at x bytes long small h in rw (e, value)

pub get_needed_bytes-bounds : (x : ℕ) → (0 < get_needed_bytes x) × (get_needed_bytes x ≤ 8)
unfolding get_needed_bytes
get_needed_bytes-bounds x = ground arith

pub get_needed_bytes-fits : (x : ℕ) → x < 2 ^ 64 → x < 2 ^ (8 * get_needed_bytes x)
unfolding get_needed_bytes
get_needed_bytes-fits x h = ground arith

-- A trailer that stands in the buffer is read.
pub read_trailer-Holds :
    (buf : List ℕ) (p offset_size ref_size num root table : ℕ)
    → All IsByte buf
    → num < 2 ^ 64
    → root < 2 ^ 64
    → table < 2 ^ 64
    → Holds buf p (trailer_bytes offset_size ref_size num root table)
    → read_trailer buf p
      ≡ ok (record {
        offset_size = offset_size;
        ref_size = ref_size;
        num_objects = num;
        root_object = root;
        offset_table_offset = table;
      })
unfolding read_trailer trailer_bytes Holds le_bytes
read_trailer-Holds buf p offset_size ref_size num root table bytes hn hr ht h =
    let word : ℕ → List ℕ = λ x. le_bytes 8 (bswap64 x) in
    let (_, (e6, (e7, h'))) =
      Holds-append buf p (replicate 6 0)
        (offset_size ∷ ref_size ∷ (word num ++ (word root ++ word table))) h in
    let (h8, h'') = Holds-append buf (p + 6 + 1 + 1) (word num) (word root ++ word table) h' in
    let (h16, h24) = Holds-append buf (p + 6 + 1 + 1 + 8) (word root) (word table) h'' in
    let long = Holds-bound buf (p + 6 + 1 + 1 + 8 + 8) (word table) h24 in
    let p7 : p + 6 + 1 ≡ p + 7 = omega arith in
    let p8 : p + 6 + 1 + 1 ≡ p + 8 = omega arith in
    let p16 : p + 6 + 1 + 1 + 8 ≡ p + 16 = omega arith in
    let p24 : p + 6 + 1 + 1 + 8 + 8 ≡ p + 24 = omega arith in
    let at7 : get_elem? buf (p + 7) ≡ some ref_size = rw (← p7) e7 in
    let n = be64_at-Holds buf (p + 8) num bytes hn (rw (← p8) h8) (omega arith) in
    let r = be64_at-Holds buf (p + 16) root bytes hr (rw (← p16) h16) (omega arith) in
    let t = be64_at-Holds buf (p + 24) table bytes ht (rw (← p24) h24) (omega arith) in
    rw (e6, at7, n, r, t)

-- A trailer whose table lies between the header and the trailer passes the tests.
pub fitting_trailer :
    (n : ℕ) (t : Trailer)
    → 0 < t.num_objects
    → 0 < t.offset_size
    → 0 < t.ref_size
    → t.root_object < t.num_objects
    → 8 ≤ t.offset_table_offset
    → 0 < t.num_objects * t.offset_size
    → t.offset_table_offset + t.num_objects * t.offset_size + 32 ≤ n
    → n < 2 ^ 64
    → bad_trailer n t ≡ false
unfolding bad_trailer
fitting_trailer n t objects width refs root start whole inside small = ground arith

pub get_elem?-lt : (xs : List ℕ) (i a : ℕ) → get_elem? xs i ≡ some a → i < length xs
get_elem?-lt [] i a e = cc
get_elem?-lt (x ∷ xs) zero a e = omega arith
get_elem?-lt (x ∷ xs) (suc i) a e = omega (arith, get_elem?-lt xs i a e)
