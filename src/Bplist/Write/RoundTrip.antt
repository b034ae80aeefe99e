-- ===== src/Bplist/Write/RoundTrip.antt =====
-- The parser reads back the objects without children that the writers put out.
use libplist.Prelude.{ℕ, ◌+◌, ◌-◌, ◌%◌, ◌^◌, ◌<◌, ◌≤◌, ◌≡◌, refl, ◌∙◌, arith}
use libplist.Prelude.{true, false, ◌||◌, List, ◌∷◌, ◌++◌, some, All, ◌==◌, ltb, length}
use libplist.Prelude.{append_assoc, length-append}
use libplist.Run.{ok}
use libplist.Bplist.Word.{get_needed_bytes}
use libplist.Bplist.Word.Values.{IsByte}
use libplist.Bplist.Node.{Tree, int, uid, intval}
use libplist.Bplist.Scalar.{parse_int_node, parse_uid_node}
use libplist.Bplist.Parse.{BplistData, AtIndex, leaf, dispatch, parse_bin_node}
use libplist.Bplist.Parse.Valid.{IsValid}
use libplist.Bplist.Write.{log2, int_bytes, le_bytes, tail_bytes, write_int, write_uint, write_uid}
use libplist.Bplist.Write.Integers.{length-tail_bytes}
use libplist.Bplist.Write.Held.{
  Holds, Holds-behind, Holds-append, uint_to_host-wide, uint_to_host-Holds, int_bytes-log2,
  end_outside-Holds, parse_header-short,
}

-- The parser's data are valid, and the buffer begins with what was written, which ends before
-- the offset table.
pub record Wrote (written : List ℕ) (s : BplistData) : Type 0 where
  pub valid : IsValid s
  pub bytes : All IsByte s.buf
  pub rest : List ℕ
  pub contents : s.buf ≡ written ++ rest
  pub inside : length written ≤ s.offset_table

pub Wrote-Holds :
    (bplist obj : List ℕ) (s : BplistData)
    → Wrote (bplist ++ obj) s
    → Holds s.buf (length bplist) obj × (length bplist + length obj ≤ s.offset_table)
Wrote-Holds bplist obj s w =
    let split : s.buf ≡ bplist ++ (obj ++ w.rest) = w.contents ∙ append_assoc bplist obj w.rest in
    (rw split (Holds-behind bplist obj w.rest), omega (arith, w.inside, length-append bplist obj))

int_bytes-width :
    (x : ℕ) → (int_bytes x == 1 || int_bytes x == 2 || int_bytes x == 4 || int_bytes x == 8) ≡ true
unfolding int_bytes get_needed_bytes
int_bytes-width x = ground arith

module _ (tree : Tree) (widen : ℕ → ℕ) (self : AtIndex tree widen) where
  open tree use {Node, node_create}

  -- An integer of 64 bits that write_int put into a valid file of bytes, before the offset table,
  -- is read back by parse_bin_node.
  pub parse_bin_node-write_int :
      (bplist : List ℕ) (val : ℕ) (s : BplistData)
      → val < 2 ^ 64
      → Wrote (write_int bplist val) s
      → parse_bin_node tree widen self s (length bplist)
        ≡ ok (some (node_create (record { value = intval val; length = 8; kind = int })), s)
  unfolding write_int Holds parse_bin_node dispatch leaf parse_int_node
  parse_bin_node-write_int bplist val s small w =
      let n = int_bytes val in
      let p = length bplist in
      let ((e, h), inside) = Wrote-Holds bplist ((0x10 + log2 n) ∷ tail_bytes n val) s w in
      let (k, pow, lo, hi, fits) = int_bytes-log2 val small in
      let end : p + 1 + n ≤ s.offset_table = omega (arith, inside, length-tail_bytes n val hi) in
      let size : n % 256 ≡ n = omega arith in
      let out = end_outside-Holds s w.valid (p + 1) n end in
      let got =
        uint_to_host-Holds s.buf (p + 1) n val w.bytes lo hi fits
          (omega (arith, w.valid.table, w.valid.sized)) h in
      rw (
        parse_header-short s p 0x10 (log2 n) refl (omega arith) e,
        pow,
        out,
        size,
        int_bytes-width val,
        got,
      )

  -- An integer of 64 bits that write_uint put into a valid file of bytes, before the offset table,
  -- is read back, with its length of 16 bytes.
  pub parse_bin_node-write_uint :
      (bplist : List ℕ) (val : ℕ) (s : BplistData)
      → val < 2 ^ 64
      → Wrote (write_uint bplist val) s
      → parse_bin_node tree widen self s (length bplist)
        ≡ ok (some (node_create (record { value = intval val; length = 16; kind = int })), s)
  unfolding write_uint tail_bytes le_bytes Holds parse_bin_node dispatch leaf parse_int_node
  parse_bin_node-write_uint bplist val s small w =
      let p = length bplist in
      let ((e, h), inside) = Wrote-Holds bplist (0x14 ∷ (le_bytes 8 0 ++ tail_bytes 8 val)) s w in
      let (_, h') = Holds-append s.buf (p + 1) (le_bytes 8 0) (tail_bytes 8 val) h in
      let end : p + 1 + 16 ≤ s.offset_table = omega (
        arith,
        inside,
        length-append (le_bytes 8 0) (tail_bytes 8 val),
        length-tail_bytes 8 val (omega arith),
      ) in
      let out = end_outside-Holds s w.valid (p + 1) 16 end in
      let got =
        uint_to_host-wide s.buf (p + 1) val w.bytes small
          (omega (arith, w.valid.table, w.valid.sized)) h' in
      rw (parse_header-short s p 0x10 4 refl (omega arith) e, out, got)

  -- A UID that write_uid put into a valid file of bytes, before the offset table, is read back as
  -- the low 32 bits of the value.
  pub parse_bin_node-write_uid :
      (bplist : List ℕ) (val : ℕ) (s : BplistData)
      → Wrote (write_uid bplist val) s
      → parse_bin_node tree widen self s (length bplist)
        ≡ ok (
          some (node_create (record { value = intval (val % 2 ^ 32); length = 8; kind = uid })),
          s,
        )
  unfolding write_uid Holds parse_bin_node dispatch leaf parse_uid_node
  parse_bin_node-write_uid bplist val s w =
      let v = val % 2 ^ 32 in
      let n = int_bytes v in
      let p = length bplist in
      let ((e, h), inside) = Wrote-Holds bplist ((0x80 + (n - 1)) ∷ tail_bytes n v) s w in
      let (k, pow, lo, hi, fits) = int_bytes-log2 v (omega arith) in
      let end : p + 1 + n ≤ s.offset_table = omega (arith, inside, length-tail_bytes n v hi) in
      let size : n - 1 + 1 ≡ n = omega arith in
      let out = end_outside-Holds s w.valid (p + 1) n end in
      let got =
        uint_to_host-Holds s.buf (p + 1) n v w.bytes lo hi fits
          (omega (arith, w.valid.table, w.valid.sized)) h in
      let word : ltb (2 ^ 32 - 1) v ≡ false = ground arith in
      rw (parse_header-short s p 0x80 (n - 1) refl (omega arith) e, size, out, got, word)
