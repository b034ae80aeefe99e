-- ===== src/Bplist/Write/File/Layout.antt =====
-- The parser finds the offset table and the trailer that `write_tables` put out.
use libplist.Prelude.{ℕ, ◌+◌, ◌-◌, ◌*◌, ◌%◌, ◌^◌, ◌<◌, ◌≤◌, ◌≡◌, refl, ap, sym, subst, ◌∙◌, arith}
use libplist.Prelude.{All-append}
use libplist.Prelude.{
  false, ◌||◌, ltb, leb, List, [], ◌∷◌, ◌++◌, some, All, length, length-append, append_assoc,
  append-nil, get_elem?,
}
use native.Mathlib.Nat.{mod-eq_of_lt}
use libplist.Run.{ok}
use libplist.Bplist.Word.{bswap64, get_needed_bytes, uint_to_host}
use libplist.Bplist.Word.Values.{IsByte}
use libplist.Bplist.Parse.{BplistData, node_offset}
use libplist.Bplist.Parse.Document.{
  magic, Trailer, trailer_size, read_trailer, bad_trailer, initial,
}
use libplist.Bplist.Parse.Total.{entry_inside}
use libplist.Bplist.Write.{le_bytes, tail_bytes}
use libplist.Bplist.Write.Integers.{tail_bytes-IsByte}
use libplist.Bplist.Write.Held.{Holds, Holds-behind, uint_to_host-Holds}
use libplist.Bplist.Write.File.{trailer_bytes, write_tables}
use libplist.Bplist.Write.File.Tables.{
  table_bytes, write_offsets-append, length-table_bytes, table_bytes-Holds, get_needed_bytes-bounds,
  get_needed_bytes-fits, read_trailer-Holds, fitting_trailer, get_elem?-lt,
}

-- The objects of a file behind the magic number, and where each begins.
pub record IsBody (body offsets : List ℕ) : Type 0 where
  pub objects : List ℕ
  pub begins : body ≡ magic ++ objects
  pub bytes : All IsByte body
  pub nonempty : 0 < length offsets
  pub placed : (i o : ℕ) → get_elem? offsets i ≡ some o → (8 ≤ o) × (o < length body)

module _ (body offsets : List ℕ) (v : IsBody body offsets) (ref_size : ℕ) where
  abbrev pub offset_width : ℕ
  offset_width = get_needed_bytes (length body)

  abbrev pub num_objects : ℕ
  num_objects = length offsets

  abbrev table : List ℕ
  table = table_bytes offset_width offsets

  abbrev trailer : List ℕ
  trailer = trailer_bytes offset_width ref_size num_objects 0 (length body)

  abbrev file : List ℕ
  file = write_tables ref_size num_objects body offsets

  file-parts : file ≡ (body ++ table) ++ trailer
  unfolding write_tables
  file-parts = ap (λ l. l ++ trailer) (write_offsets-append offset_width body offsets)

  -- The file begins with the body.
  pub write_tables-append : file ≡ body ++ (table ++ trailer)
  write_tables-append = file-parts ∙ append_assoc body table trailer

  length-trailer : length trailer ≡ 32
  unfolding trailer_bytes le_bytes
  length-trailer = refl

  length-front : length (body ++ table) ≡ length body + length offsets * offset_width
  length-front = omega (
    arith,
    length-append body table,
    length-table_bytes offset_width offsets (get_needed_bytes-bounds (length body)).1,
  )

  -- The file has 32 bytes behind the body and the table.
  pub length-write_tables : length file ≡ length body + length offsets * offset_width + 32
  length-write_tables =
      ap length file-parts
      ∙ omega (arith, length-append (body ++ table) trailer, length-trailer, length-front)

  trailer-Holds : Holds file (length (body ++ table)) trailer
  trailer-Holds =
      let end : (body ++ table) ++ trailer ≡ (body ++ table) ++ (trailer ++ []) =
        ap (λ l. (body ++ table) ++ l) (sym (append-nil trailer)) in
      rw (file-parts, end) (Holds-behind (body ++ table) trailer [])

  table-Holds : Holds file (length body) table
  table-Holds = rw (file-parts, append_assoc body table trailer) (Holds-behind body table trailer)

  module _ (sized : length file < 2 ^ 32) (widths : (0 < ref_size) × (ref_size < 256)) where
    table_bytes-IsByte : (n : ℕ) (os : List ℕ) → All IsByte (table_bytes n os)
    unfolding table_bytes
    table_bytes-IsByte n [] = _
    table_bytes-IsByte n (o ∷ r) =
        All-append IsByte (tail_bytes n o) (table_bytes n r) (tail_bytes-IsByte n o)
          (table_bytes-IsByte n r)

    trailer-IsByte : All IsByte trailer
    unfolding trailer_bytes tail_bytes
    trailer-IsByte =
        let eight : (x : ℕ) → All IsByte (tail_bytes 8 x) = tail_bytes-IsByte 8 in
        let width = get_needed_bytes-bounds (length body) in
        let num : All IsByte (le_bytes 8 (bswap64 num_objects)) = eight num_objects in
        let root : All IsByte (le_bytes 8 (bswap64 0)) = eight 0 in
        let at : All IsByte (le_bytes 8 (bswap64 (length body))) = eight (length body) in
        let zero_byte : 0 < 256 = omega arith in
        (
          zero_byte,
          (
            zero_byte,
            (
              zero_byte,
              (
                zero_byte,
                (
                  zero_byte,
                  (
                    zero_byte,
                    (
                      omega (arith, width.1),
                      (
                        widths.1,
                        All-append IsByte (le_bytes 8 (bswap64 num_objects)) _ num
                            (All-append IsByte (le_bytes 8 (bswap64 0)) _ root at),
                      ),
                    ),
                  ),
                ),
              ),
            ),
          ),
        )

    pub file-IsByte : All IsByte file
    file-IsByte = subst (All IsByte) (sym file-parts) (
        All-append IsByte (body ++ table) trailer
          (All-append IsByte body table v.bytes (table_bytes-IsByte offset_width offsets))
          trailer-IsByte)

    pub read_trailer-write_tables :
        num_objects < 2 ^ 64
        → read_trailer file (length file - trailer_size)
          ≡ ok (record {
            offset_size = offset_width;
            ref_size = ref_size;
            num_objects = num_objects;
            root_object = 0;
            offset_table_offset = length body;
          })
    read_trailer-write_tables small =
        let p = length (body ++ table) in
        let start : length file - trailer_size ≡ p =
          omega (arith, length-write_tables, length-front) in
        rw start (
          read_trailer-Holds file p offset_width ref_size num_objects 0 (length body) file-IsByte
            small (omega arith) (omega (arith, length-write_tables)) trailer-Holds)

    counted-bounds :
        (0 < offset_width)
        × (offset_width ≤ 8)
        × (0 < num_objects * offset_width)
        × (length file ≡ length body + num_objects * offset_width + 32)
    counted-bounds =
        let (lo, hi) = get_needed_bytes-bounds (length body) in
        let some_bytes : 0 < num_objects * offset_width = grind (arith, v.nonempty) in
        (lo, hi, some_bytes, length-write_tables)

    abbrev pub written_trailer : Trailer
    written_trailer = record {
      offset_size = offset_width;
      ref_size = ref_size;
      num_objects = num_objects;
      root_object = 0;
      offset_table_offset = length body;
    }

    length-body-ge : 8 ≤ length body
    length-body-ge = rw v.begins (omega arith)

    pub bad_trailer-write_tables : bad_trailer (length file) written_trailer ≡ false
    bad_trailer-write_tables =
        let (lo, hi, wide, whole) = counted-bounds in
        fitting_trailer (length file) written_trailer v.nonempty lo widths.0 v.nonempty
          length-body-ge wide (omega arith) (omega arith)

    abbrev pub written_data : ℕ → BplistData
    written_data address = initial file address written_trailer

    pub node_offset-written_data :
        (address i o : ℕ)
        → get_elem? offsets i ≡ some o
        → node_offset (written_data address) i ≡ ok (some o)
    unfolding node_offset initial
    node_offset-written_data address i o e =
        let (lo, hi, wide, whole) = counted-bounds in
        let (above, below) = v.placed i o e in
        let inside : i < num_objects = get_elem?-lt offsets i o e in
        let room : i * offset_width + offset_width ≤ num_objects * offset_width =
          entry_inside i num_objects offset_width inside in
        let plain : i * offset_width % 2 ^ 32 ≡ i * offset_width = mod-eq_of_lt (omega arith) in
        let all : num_objects * offset_width % 2 ^ 64 ≡ num_objects * offset_width =
          mod-eq_of_lt (omega arith) in
        let fits : o < 2 ^ (8 * offset_width) =
          omega (arith, get_needed_bytes-fits (length body) (omega arith)) in
        let got : uint_to_host file (length body + i * offset_width) offset_width ≡ ok o =
          uint_to_host-Holds file (length body + i * offset_width) offset_width o file-IsByte lo hi
            fits (omega arith)
            (table_bytes-Holds offset_width file (length body) offsets i o hi table-Holds e) in
        let in_table : (leb num_objects i
              || ltb (length body + i * offset_width) (length body)
              || leb (length body + num_objects * offset_width) (length body + i * offset_width))
            ≡ false =
          ground arith in
        let in_body : (ltb (length file) o || ltb o 8 || leb (length body) o) ≡ false =
          ground arith in
        rw (plain, all, in_table, got, in_body)

    -- In a file of less than 4 GiB that write_tables completed, whatever the objects in it, the
    -- parser reads a trailer that passes its tests, and with it finds for each index the offset
    -- that plist_to_bin recorded for the object, if the width of the references is not zero and
    -- fits a byte, and the offsets, of which there is one at least, lie behind the header and
    -- before the offset table.
    pub node_offset-write_tables :
        (address : ℕ)
        → (t : Trailer) × (read_trailer file (length file - trailer_size) ≡ ok t)
          × (bad_trailer (length file) t ≡ false)
          × ((i o : ℕ)
              → get_elem? offsets i ≡ some o
              → node_offset (initial file address t) i ≡ ok (some o))
    node_offset-write_tables address =
        let (lo, hi, wide, whole) = counted-bounds in
        let small : num_objects < 2 ^ 64 = grind (arith, lo, whole, sized) in
        (
          written_trailer,
          read_trailer-write_tables small,
          bad_trailer-write_tables,
          node_offset-written_data address,
        )
