-- ===== src/Bplist/Parse/Document.antt =====
-- `plist_from_bin` of src/bplist.c: the header, the trailer, and the root node.
use libplist.Prelude.{ℕ, ◌+◌, ◌-◌, ◌*◌, ◌%◌, ◌^◌, Bool, true, false, not, ◌||◌, ◌&&◌}
use libplist.Prelude.{
  List, [], ◌∷◌, Option, none, some, ◌==◌, ltb, leb, if◌then◌else◌, length, get_elem?,
}
use libplist.PtrArray.{ptr_array_new}
use libplist.Run.{Run, ok, access, ◌>>=◌}
use libplist.Bplist.Word.{get_unaligned, bswap64}
use libplist.Bplist.Node.{Tree, PlistErr, success, invalid_arg, parse}
use libplist.Bplist.Parse.{BplistData, max_nesting_depth, parse_bin_node_at_index}

-- BPLIST_MAGIC and BPLIST_VERSION
abbrev pub magic : List ℕ
magic = b'b' ∷ b'p' ∷ b'l' ∷ b'i' ∷ b's' ∷ b't' ∷ b'0' ∷ b'0' ∷ []

-- The two `memcmp`.
unfoldable pub has_prefix : List ℕ → List ℕ → Bool
has_prefix [] buf = true
has_prefix (m ∷ ms) [] = false
has_prefix (m ∷ ms) (b ∷ buf) = m == b && has_prefix ms buf

-- The fields of `bplist_trailer_t` in the machine's byte order.
pub record Trailer : Type 0 where
  pub offset_size : ℕ
  pub ref_size : ℕ
  pub num_objects : ℕ
  pub root_object : ℕ
  pub offset_table_offset : ℕ

abbrev pub trailer_size : ℕ
trailer_size = 32

unfoldable pub be64_at : List ℕ → ℕ → Run ℕ
be64_at buf at = get_unaligned buf at 8 >>= λ v. ok (bswap64 v)

unfoldable pub read_trailer : List ℕ → ℕ → Run Trailer
read_trailer buf at = access (get_elem? buf (at + 6)) >>= λ offset_size.
    access (get_elem? buf (at + 7)) >>= λ ref_size. be64_at buf (at + 8) >>= λ num_objects.
    be64_at buf (at + 16) >>= λ root_object. be64_at buf (at + 24) >>= λ offset_table_offset.
    ok (record {
      offset_size = offset_size;
      ref_size = ref_size;
      num_objects = num_objects;
      root_object = root_object;
      offset_table_offset = offset_table_offset;
    })

-- The tests of the trailer that end in PLIST_ERR_PARSE, for a file of `n` bytes.
unfoldable pub bad_trailer : ℕ → Trailer → Bool
bad_trailer n t =
    let end_data = n - trailer_size in
    ltb end_data t.offset_table_offset
    || t.num_objects == 0
    || t.offset_size == 0
    || t.ref_size == 0
    || leb t.num_objects t.root_object
    || ltb t.offset_table_offset 8
    || leb end_data t.offset_table_offset
    || leb (2 ^ 64) (t.num_objects * t.offset_size)
    || ltb (end_data - t.offset_table_offset) (t.num_objects * t.offset_size)

unfoldable pub initial : List ℕ → ℕ → Trailer → BplistData
initial buf address t = record {
  buf = buf;
  address = address;
  size = length buf;
  num_objects = t.num_objects;
  ref_size = t.ref_size;
  offset_size = t.offset_size;
  offset_table = t.offset_table_offset;
  level = 0;
  used_indexes = ptr_array_new 16;
  err = success;
}

-- Enough for the nesting that the code allows.
abbrev pub nesting_fuel : ℕ
nesting_fuel = max_nesting_depth + 2

-- PLIST_ERR_PARSE where no other error is recorded.
unfoldable pub final_err : PlistErr → PlistErr
final_err success = parse
final_err e = e

module _ (tree : Tree) (widen : ℕ → ℕ) where
  open tree use {Node}

  unfoldable pub parse_root : BplistData → ℕ → Run (PlistErr × Option Node)
  parse_root s root = parse_bin_node_at_index tree widen nesting_fuel s (root % 2 ^ 32) >>= λ q.
      ok (elim q.0 [ none ↦ (final_err q.1.err, none) | some n ↦ (success, some n) ])

  -- The error code and `*plist`, for the `length` bytes at the number `address`.
  unfoldable pub plist_from_bin : List ℕ → ℕ → Run (PlistErr × Option Node)
  plist_from_bin buf address =
      if length buf == 0
      then ok (invalid_arg, none)
      else if not (leb (8 + trailer_size) (length buf))
      then ok (parse, none)
      else if not (has_prefix magic buf)
      then ok (parse, none)
      else (read_trailer buf (length buf - trailer_size) >>= λ t.
          if bad_trailer (length buf) t
          then ok (parse, none)
          else parse_root (initial buf address t) t.root_object)
