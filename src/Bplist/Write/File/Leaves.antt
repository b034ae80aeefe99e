-- ===== src/Bplist/Write/File/Leaves.antt =====
-- What `write_object` puts out for a node without children, and that the parser reads it back.
use libplist.Prelude.{ℕ, zero, suc, ◌+◌, ◌-◌, ◌%◌, ◌^◌, ◌<◌, ◌≤◌, ◌≡◌, refl, ap, subst, ◌∙◌, arith}
use libplist.Prelude.{
  true, false, List, [], ◌∷◌, ◌++◌, Option, some, All, length, get_elem?, ltb, ◌==◌, Bool-cases,
  inl, inr, take-length,
}
use libplist.Run.{ok}
use libplist.HashTable.{Table}
use libplist.Bplist.Serialize.{Heap}
use libplist.Bplist.Word.{load}
use libplist.Bplist.Word.Values.{IsByte}
use libplist.Bplist.Node.{Tree, PlistData}
use libplist.Bplist.Node.New.{
  plist_new_string, plist_new_bool, plist_new_uint, plist_new_int, plist_new_uid, plist_new_real,
  plist_new_data, new_date, plist_new_null,
}
use libplist.Bplist.Utf16.{is_ascii_string}
use libplist.Bplist.Scalar.{parse_null_node}
use libplist.Bplist.Parse.{BplistData, AtIndex, leaf, dispatch, parse_bin_node}
use libplist.Bplist.Parse.Words.{load-ok}
use libplist.Bplist.Write.{
  write_int, write_uint, write_uid, write_real, write_date, write_data, write_string,
}
use libplist.Bplist.Write.Held.{Holds, parse_header-short}
use libplist.Bplist.Write.RoundTrip.{
  Wrote, Wrote-Holds, parse_bin_node-write_int, parse_bin_node-write_uint, parse_bin_node-write_uid,
}
use libplist.Bplist.Write.Reals.{parse_bin_node-write_real, parse_bin_node-write_date}
use libplist.Bplist.Write.Sized.{parse_bin_node-write_data, parse_bin_node-write_string}
use libplist.Bplist.Write.Extends.{
  Extends, Extends-weaken, write_int-Extends, write_uint-Extends, write_uid-Extends,
  write_date-Extends, write_real-Extends, write_raw_data-Extends,
}
use libplist.Bplist.Serialize.{word_of, block_of}
use libplist.Bplist.Write.File.{content_of, write_text, write_object}

-- A node made by one of the functions `plist_new_*`, other than the containers.
pub data Scalar : Type 0 where
  null_node : Scalar
  bool_node uint_node int_node uid_node real_node date_node : ℕ → Scalar
  string_node data_node : List ℕ → Scalar

unfoldable pub made : Scalar → PlistData
made null_node = plist_new_null
made (bool_node v) = plist_new_bool v
made (uint_node v) = plist_new_uint v
made (int_node v) = plist_new_int v
made (uid_node v) = plist_new_uid v
made (real_node v) = plist_new_real v
made (date_node v) = new_date v
made (string_node s) = plist_new_string s
made (data_node s) = plist_new_data s

content_whole : (l : List ℕ) → load l 0 (length l) ≡ ok l
content_whole l = load-ok l 0 (length l) (omega arith) ∙ ap ok (take-length l)

ascii_text :
    (l : List ℕ)
    → All (λ c. (0 < c) × (c < 128)) l
    → All (λ c. 0 < c) l × (is_ascii_string l ≡ true) × All IsByte l
unfolding is_ascii_string
ascii_text [] h = (_, refl, _)
ascii_text (c ∷ r) ((lo, hi), h) =
    let (above, ascii, bytes) = ascii_text r h in
    ((lo, above), ground (arith, ascii), (omega arith, bytes))

-- The bytes of a text or of data.
unfoldable pub payload : Scalar → ℕ
payload (string_node s) = length s
payload (data_node s) = length s
payload _ = 0

module _ (narrow : ℕ → Option ℕ) (widen : ℕ → ℕ) where
  -- The values that the file format has: a number of 64 bits, a UID of 32, a double whose
  -- narrowing widening undoes, an ASCII text without a zero byte, and some bytes.
  abbrev pub IsStorable : Scalar → Type 0
  IsStorable null_node = Unit {0}
  IsStorable (bool_node v) = v ≤ 1
  IsStorable (uint_node v) = v < 2 ^ 64
  IsStorable (int_node v) = v < 2 ^ 64
  IsStorable (uid_node v) = v < 2 ^ 32
  IsStorable (real_node v) =
      (v < 2 ^ 64) × ((f : ℕ) → narrow v ≡ some f → (f < 2 ^ 32) × (widen f ≡ v))
  IsStorable (date_node v) = v < 2 ^ 64
  IsStorable (string_node s) = All (λ c. (0 < c) × (c < 128)) s × (length s < 2 ^ 64)
  IsStorable (data_node s) = All IsByte s × (0 < length s) × (length s < 2 ^ 64)

  module _ (m : Heap) (tree : Tree) where
    -- The object that `write_object` puts behind `bplist` for some data is read back as `d`, and
    -- has at most `room` bytes.
    pub record ReadsBack (room : ℕ) (t : Table ℕ ℕ) (ref_size : ℕ) (bplist : List ℕ) (d : PlistData)
        (children : List ℕ) : Type 0 where
      pub after : List ℕ
      pub written : write_object m narrow t ref_size bplist d children ≡ ok after
      pub extends : Extends room bplist after
      pub reads :
          (self : AtIndex tree widen) (s : BplistData)
          → Wrote after s
          → parse_bin_node tree widen self s (length bplist) ≡ ok (some (tree.node_create d), s)

    module _ (t : Table ℕ ℕ) (ref_size : ℕ) (bplist : List ℕ) (children : List ℕ) where
      reads_as :
          (room : ℕ) (d : PlistData) (after : List ℕ)
          → write_object m narrow t ref_size bplist d children ≡ ok after
          → (n : ℕ) → n ≤ room
          → Extends n bplist after
          → ((self : AtIndex tree widen) (s : BplistData)
              → Wrote after s
              → parse_bin_node tree widen self s (length bplist)
                ≡ ok (some (tree.node_create d), s))
          → ReadsBack room t ref_size bplist d children
      reads_as room d after e n h x r = record {
        after = after;
        written = e;
        extends = Extends-weaken n room bplist after h x;
        reads = r;
      }

      -- The marker of a node that it stands for alone.
      reads_marker :
          (size : ℕ) (d : PlistData)
          → size < 15
          → write_object m narrow t ref_size bplist d children ≡ ok (bplist ++ (size ∷ []))
          → parse_null_node size ≡ ok (some d)
          → ReadsBack 32 t ref_size bplist d children
      unfolding parse_bin_node dispatch leaf Holds
      reads_marker size d small e p =
          reads_as 32 d (bplist ++ (size ∷ [])) e 1 (omega arith)
            (record {
              added = size ∷ [];
              appended = refl;
              bytes = (omega arith, _);
              nonempty = omega arith;
              short = omega arith;
            })
            (λ self s w.
              let ((at, _), _) = Wrote-Holds bplist (size ∷ []) s w in
              let same : get_elem? s.buf (length bplist) ≡ some (0 + size) =
                at ∙ ap some (omega arith) in
              rw (parse_header-short s (length bplist) 0 size refl small same, p))

      -- Each node that a function `plist_new_*` makes is read back, if its value is one that the
      -- format has.
      pub write_object-ReadsBack :
          (n : Scalar)
          → IsStorable n
          → ReadsBack (32 + payload n) t ref_size bplist (made n) children
      unfolding made write_object word_of plist_new_int plist_new_uid plist_new_real new_date
          plist_new_null plist_new_bool parse_null_node plist_new_uint plist_new_string
          plist_new_data payload content_of block_of write_text write_string write_data
      write_object-ReadsBack null_node h = reads_marker 0 (made null_node) (omega arith) refl refl
      write_object-ReadsBack (bool_node zero) h =
          reads_marker 8 (made (bool_node 0)) (omega arith) refl refl
      write_object-ReadsBack (bool_node (suc zero)) h =
          reads_marker 9 (made (bool_node 1)) (omega arith) refl refl
      write_object-ReadsBack (bool_node (suc (suc v))) h = absurd (omega arith)
      write_object-ReadsBack (int_node v) small =
          reads_as 32 (made (int_node v)) (write_int bplist v) refl 9 (omega arith)
            (write_int-Extends bplist v)
            (λ self s w. parse_bin_node-write_int tree widen self bplist v s small w)
      write_object-ReadsBack (uint_node v) small = elim (Bool-cases (ltb (2 ^ 31 - 1) v)) [
        | inl big ↦
            reads_as 32 (made (uint_node v)) (write_uint bplist v) (rw (big) refl) 17 (omega arith)
              (write_uint-Extends bplist v)
              (λ self s w. rw big (parse_bin_node-write_uint tree widen self bplist v s small w))
        | inr low ↦
            reads_as 32 (made (uint_node v)) (write_int bplist v) (rw (low) refl) 9 (omega arith)
              (write_int-Extends bplist v)
              (λ self s w. rw low (parse_bin_node-write_int tree widen self bplist v s small w))
      ]
      write_object-ReadsBack (uid_node v) small =
          let word : v % 2 ^ 32 ≡ v = omega arith in
          reads_as 32 (made (uid_node v)) (write_uid bplist v) refl 9 (omega arith)
            (write_uid-Extends bplist v)
            (λ self s w.
              subst
                (λ x.
                  parse_bin_node tree widen self s (length bplist)
                  ≡ ok (some (tree.node_create (made (uid_node x))), s))
                word (parse_bin_node-write_uid tree widen self bplist v s w))
      write_object-ReadsBack (real_node v) (small, exact) =
          reads_as 32 (made (real_node v)) (write_real narrow bplist v) refl 9 (omega arith)
            (write_real-Extends narrow bplist v)
            (λ self s w. parse_bin_node-write_real tree widen self narrow bplist v s small exact w)
      write_object-ReadsBack (date_node v) small =
          reads_as 32 (made (date_node v)) (write_date bplist v) refl 9 (omega arith)
            (write_date-Extends bplist v)
            (λ self s w. parse_bin_node-write_date tree widen self bplist v s small w)
      write_object-ReadsBack (string_node l) (text, small) =
          let (above, ascii, bytes) = ascii_text l text in
          reads_as (32 + length l) (made (string_node l)) (write_string bplist l)
            (rw (content_whole l, ascii) refl) (10 + length l) (omega arith)
            (write_raw_data-Extends bplist 0x50 l refl (omega arith) bytes)
            (λ self s w. parse_bin_node-write_string tree widen self bplist l s small above w)
      write_object-ReadsBack (data_node l) (bytes, some_bytes, small) =
          let filled : (length l == 0) ≡ false = ground arith in
          reads_as (32 + length l) (made (data_node l)) (write_data bplist l)
            (rw (filled, content_whole l) refl) (10 + length l) (omega arith)
            (write_raw_data-Extends bplist 0x40 l refl (omega arith) bytes)
            (λ self s w. rw filled (parse_bin_node-write_data tree widen self bplist l s small w))
