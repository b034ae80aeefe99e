-- ===== src/Examples/Writer.antt =====
-- Binary property lists: what the writers put out, read again.
use libplist.Prelude.{
  ℕ, arith, ◌^◌, ◌≡◌, ◌+◌, refl, List, [], ◌∷◌, ◌++◌, true, ◌≤◌, length-append, length-replicate,
  none, some, replicate, length,
}
use libplist.PtrArray.{ptr_array_new}
use libplist.PtrArray.Cells.{new-Models}
use libplist.Run.{ok}
use libplist.Bplist.Node.{success, int, uid, string, date, bytes, intval, realval, strval, buff}
use libplist.Bplist.Word.{bswap64, byte_of, get_needed_bytes, uint_to_host}
use libplist.Bplist.Word.Values.{all_bytes, all_bytes-IsByte, be_value, be_value_from}
use libplist.Bplist.Parse.{AtIndex, BplistData, parse_bin_node}
use libplist.Bplist.Parse.Document.{magic}
use libplist.Bplist.Parse.Words.{uint_to_host-be_value}
use libplist.Bplist.Write.{
  le_bytes, tail_bytes, log2, int_bytes, write_int, write_uint, write_uid, write_date, write_marker,
  write_raw_data, write_data, write_string, unit_bytes, write_unicode,
}
use libplist.Bplist.Write.RoundTrip.{
  Wrote, parse_bin_node-write_int, parse_bin_node-write_uint, parse_bin_node-write_uid,
}
use libplist.Bplist.Write.Reals.{parse_bin_node-write_date}
use libplist.Bplist.Write.Sized.{parse_bin_node-write_data, parse_bin_node-write_string}
use libplist.Bplist.Utf16.{plist_utf8_to_utf16be, utf8_loop, utf8_step, four_bytes, is_trail}
use libplist.Examples.Binary.{node, childless, value_tree}

write_int_test : write_int [] 300 ≡ 0x11 ∷ 1 ∷ 44 ∷ []
unfolding write_int tail_bytes le_bytes bswap64 byte_of int_bytes get_needed_bytes log2
write_int_test = refl

write_uint_test : length (write_uint magic 5) ≡ 25
unfolding write_uint le_bytes bswap64 byte_of
write_uint_test = refl

-- The parser's data for a file of one object behind the magic number.
abbrev one_object : List ℕ → BplistData
one_object obj = record {
  buf = (magic ++ obj) ++ (8 ∷ replicate 32 0);
  address = 4096;
  size = length magic + length obj + 33;
  num_objects = 1;
  ref_size = 1;
  offset_size = 1;
  offset_table = length magic + length obj;
  level = 0;
  used_indexes = ptr_array_new 16;
  err = success;
}

one_object-Wrote :
    (obj : List ℕ)
    → length obj ≤ 100
    → all_bytes (one_object obj).buf ≡ true
    → Wrote (magic ++ obj) (one_object obj)
one_object-Wrote obj h small = record {
  valid = record {
    sized = omega (
      arith,
      length-append (magic ++ obj) (8 ∷ replicate 32 0),
      length-append magic obj,
      length-replicate {A = ℕ} 32 0,
    );
    start = omega arith;
    table = omega arith;
    small = omega arith;
    offsets = omega arith;
    refs = omega arith;
    addresses = omega arith;
    path = [];
    used = new-Models 16 (omega arith);
    deep = omega arith;
  };
  bytes = all_bytes-IsByte (one_object obj).buf small;
  rest = 8 ∷ replicate 32 0;
  contents = refl;
  inside = omega (arith, length-append magic obj);
}

abbrev no_references : AtIndex value_tree (λ w. w)
no_references s index = ok (none, s)

abbrev int_file : BplistData
int_file = one_object (0x11 ∷ 1 ∷ 44 ∷ [])

parse_bin_node-write_int_example :
    parse_bin_node value_tree (λ w. w) no_references int_file 8
    ≡ ok (some (node (record { value = intval 300; length = 8; kind = int }) childless), int_file)
unfolding write_int tail_bytes le_bytes bswap64 byte_of int_bytes get_needed_bytes log2 all_bytes
parse_bin_node-write_int_example =
    parse_bin_node-write_int value_tree (λ w. w) no_references magic 300 int_file (omega arith)
      (one_object-Wrote (0x11 ∷ 1 ∷ 44 ∷ []) (omega arith) refl)

abbrev uint_file : BplistData
uint_file = one_object (0x14 ∷ (replicate 8 0 ++ (replicate 7 0 ++ (5 ∷ []))))

parse_bin_node-write_uint_example :
    parse_bin_node value_tree (λ w. w) no_references uint_file 8
    ≡ ok (some (node (record { value = intval 5; length = 16; kind = int }) childless), uint_file)
unfolding write_uint le_bytes bswap64 byte_of all_bytes
parse_bin_node-write_uint_example =
    parse_bin_node-write_uint value_tree (λ w. w) no_references magic 5 uint_file (omega arith)
      (one_object-Wrote (0x14 ∷ (replicate 8 0 ++ (replicate 7 0 ++ (5 ∷ [])))) (omega arith) refl)

abbrev uid_file : BplistData
uid_file = one_object (0x81 ∷ 1 ∷ 44 ∷ [])

parse_bin_node-write_uid_example :
    parse_bin_node value_tree (λ w. w) no_references uid_file 8
    ≡ ok (some (node (record { value = intval 300; length = 8; kind = uid }) childless), uid_file)
unfolding write_uid tail_bytes le_bytes bswap64 byte_of int_bytes get_needed_bytes all_bytes
parse_bin_node-write_uid_example =
    parse_bin_node-write_uid value_tree (λ w. w) no_references magic 300 uid_file
      (one_object-Wrote (0x81 ∷ 1 ∷ 44 ∷ []) (omega arith) refl)

abbrev date_file : BplistData
date_file = one_object (0x33 ∷ 0x40 ∷ replicate 7 0)

-- The date of two seconds.
parse_bin_node-write_date_example :
    parse_bin_node value_tree (λ w. w) no_references date_file 8
    ≡ ok (
      some (node (record { value = realval (2 ^ 62); length = 8; kind = date }) childless),
      date_file,
    )
unfolding write_date le_bytes bswap64 byte_of all_bytes
parse_bin_node-write_date_example =
    parse_bin_node-write_date value_tree (λ w. w) no_references magic (2 ^ 62) date_file
      (omega arith) (one_object-Wrote (0x33 ∷ 0x40 ∷ replicate 7 0) (omega arith) refl)

-- Twenty bytes, so the size has a node of its own.
abbrev data_file : BplistData
data_file = one_object (0x4F ∷ 0x10 ∷ 20 ∷ replicate 20 7)

parse_bin_node-write_data_example :
    parse_bin_node value_tree (λ w. w) no_references data_file 8
    ≡ ok (
      some (node (record { value = buff (replicate 20 7); length = 20; kind = bytes }) childless),
      data_file,
    )
unfolding write_data write_raw_data write_marker write_int log2 tail_bytes le_bytes bswap64 byte_of
    int_bytes get_needed_bytes all_bytes
parse_bin_node-write_data_example =
    parse_bin_node-write_data value_tree (λ w. w) no_references magic (replicate 20 7) data_file
      (omega arith) (one_object-Wrote (0x4F ∷ 0x10 ∷ 20 ∷ replicate 20 7) (omega arith) refl)

abbrev string_file : BplistData
string_file = one_object (0x52 ∷ b'o' ∷ b'k' ∷ [])

parse_bin_node-write_string_example :
    parse_bin_node value_tree (λ w. w) no_references string_file 8
    ≡ ok (
      some (
          node (record { value = strval (b'o' ∷ b'k' ∷ []); length = 2; kind = string }) childless),
      string_file,
    )
unfolding write_string write_raw_data write_marker all_bytes
parse_bin_node-write_string_example =
    parse_bin_node-write_string value_tree (λ w. w) no_references magic (b'o' ∷ b'k' ∷ [])
      string_file (omega arith) (omega arith, (omega arith, _))
      (one_object-Wrote (0x52 ∷ b'o' ∷ b'k' ∷ []) (omega arith) refl)

all_bytes_nine : all_bytes (9 ∷ 1 ∷ 2 ∷ 3 ∷ 4 ∷ 5 ∷ 6 ∷ 7 ∷ 8 ∷ []) ≡ true
unfolding all_bytes
all_bytes_nine = refl

-- Three bytes: the first three of the eight that are loaded.
uint_to_host-be_value_example :
    uint_to_host (9 ∷ 1 ∷ 2 ∷ 3 ∷ 4 ∷ 5 ∷ 6 ∷ 7 ∷ 8 ∷ []) 1 3 ≡ ok 0x010203
unfolding be_value be_value_from
uint_to_host-be_value_example =
    uint_to_host-be_value (9 ∷ 1 ∷ 2 ∷ 3 ∷ 4 ∷ 5 ∷ 6 ∷ 7 ∷ 8 ∷ []) 1 3
      (all_bytes-IsByte (9 ∷ 1 ∷ 2 ∷ 3 ∷ 4 ∷ 5 ∷ 6 ∷ 7 ∷ 8 ∷ []) all_bytes_nine) (omega arith)
      (omega arith) (omega arith)

-- The two units of a text with one character above the units.
write_unicode_test :
    write_unicode [] (0xF0 ∷ 0x9F ∷ 0x98 ∷ 0x80 ∷ []) ≡ 0x62 ∷ 0xD8 ∷ 0x3D ∷ 0xDE ∷ 0x00 ∷ []
unfolding write_unicode plist_utf8_to_utf16be utf8_loop utf8_step four_bytes is_trail write_raw_data
    write_marker unit_bytes
write_unicode_test = refl

-- Text that is not UTF-8 is cut off, here to nothing.
write_unicode_invalid_test : write_unicode [] (0xFF ∷ []) ≡ 0x60 ∷ []
unfolding write_unicode plist_utf8_to_utf16be utf8_loop utf8_step is_trail write_raw_data
    write_marker unit_bytes
write_unicode_invalid_test = refl
