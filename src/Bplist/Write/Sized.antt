-- ===== src/Bplist/Write/Sized.antt =====
-- The parser reads back the objects that have their size in the header.
use libplist.Prelude.{ℕ, ◌+◌, ◌%◌, ◌^◌, ◌<◌, ◌≤◌, ◌≡◌, refl, ap, ◌∙◌, subst, arith}
use libplist.Prelude.{true, false, List, [], ◌∷◌, ◌++◌, some, All, ◌==◌, ltb, leb, length}
use libplist.Prelude.{append_assoc, length-append, Bool-cases, inl, inr}
use libplist.Prelude.{take-length}
use libplist.Run.{ok}
use libplist.Bplist.Word.{load}
use libplist.Bplist.Node.{Tree, string, bytes, strval, buff}
use libplist.Bplist.Scalar.{c_string, parse_string_node, parse_data_node}
use libplist.Bplist.Parse.{
  BplistData, AtIndex, has_long_size, parse_header, leaf, dispatch, parse_bin_node,
}
use libplist.Bplist.Parse.Words.{load-ok}
use libplist.Bplist.Write.{
  log2, int_bytes, tail_bytes, write_int, write_marker, write_raw_data, write_data, write_string,
}
use libplist.Bplist.Write.Integers.{length-tail_bytes}
use libplist.Bplist.Write.Held.{
  Holds, Holds-bound, take-Holds, int_bytes-log2, data_outside-Holds, parse_header-short,
  parse_header-long,
}
use libplist.Bplist.Write.RoundTrip.{Wrote, Wrote-Holds}

c_string-All : (xs : List ℕ) → All (λ c. 0 < c) xs → c_string xs ≡ xs
unfolding c_string
c_string-All [] h = refl
c_string-All (c ∷ r) (hc, h) =
    let other : (c == 0) ≡ false = ground arith in rw other (ap (λ r. c ∷ r) (c_string-All r h))

load-Holds :
    (buf : List ℕ) (at : ℕ) (bs : List ℕ) → Holds buf at bs → load buf at (length bs) ≡ ok bs
load-Holds buf at bs h =
    rw (load-ok buf at (length bs) (Holds-bound buf at bs h), take-Holds buf at bs h)

pub write_marker-short :
    (bplist : List ℕ) (mark size : ℕ)
    → size < 15
    → write_marker bplist mark size ≡ bplist ++ ((mark + size) ∷ [])
unfolding write_marker
write_marker-short bplist mark size h =
    let small : ltb size 15 ≡ true = ground arith in
    let fits : leb 15 size ≡ false = ground arith in rw (small, fits)

abbrev pub long_marker : ℕ → ℕ → List ℕ
long_marker mark size =
    (mark + 15) ∷ (0x10 + log2 (int_bytes size)) ∷ tail_bytes (int_bytes size) size

pub write_marker-long :
    (bplist : List ℕ) (mark size : ℕ)
    → 15 ≤ size
    → write_marker bplist mark size ≡ bplist ++ long_marker mark size
unfolding write_marker write_int
write_marker-long bplist mark size h =
    let small : ltb size 15 ≡ false = ground arith in
    let fits : leb 15 size ≡ true = ground arith in
    rw (small, fits)
      (append_assoc bplist ((mark + 15) ∷ [])
        ((0x10 + log2 (int_bytes size)) ∷ tail_bytes (int_bytes size) size))

-- The first part of what was written.
Wrote-prefix : (xs ys : List ℕ) (s : BplistData) → Wrote (xs ++ ys) s → Wrote xs s
Wrote-prefix xs ys s w = record {
  valid = w.valid;
  bytes = w.bytes;
  rest = ys ++ w.rest;
  contents = w.contents ∙ append_assoc xs ys w.rest;
  inside = omega (arith, w.inside, length-append xs ys);
}

module _ (bplist : List ℕ) (tag size : ℕ) (s : BplistData) (low : tag % 16 ≡ 0) where
  module _ (w : Wrote (write_marker bplist tag size) s) where
    header-short :
        size < 15
        → parse_header s (length bplist)
          ≡ ok (
              some
                (record { tag = tag; size = size; object = length (write_marker bplist tag size) }))
    unfolding Holds
    header-short small =
        let e = write_marker-short bplist tag size small in
        let w' : Wrote (bplist ++ ((tag + size) ∷ [])) s = rw (← e) w in
        let ((at, _), _) = Wrote-Holds bplist ((tag + size) ∷ []) s w' in
        let end : length (write_marker bplist tag size) ≡ length bplist + 1 =
          rw e (length-append bplist ((tag + size) ∷ [])) in
        rw (end, parse_header-short s (length bplist) tag size low small at)

    header-long :
        has_long_size tag ≡ true
        → size < 2 ^ 64
        → 15 ≤ size
        → parse_header s (length bplist)
          ≡ ok (
              some
                (record { tag = tag; size = size; object = length (write_marker bplist tag size) }))
    header-long has small large =
        let e = write_marker-long bplist tag size large in
        let w' : Wrote (bplist ++ long_marker tag size) s = rw (← e) w in
        let (h, inside) = Wrote-Holds bplist (long_marker tag size) s w' in
        let n = int_bytes size in
        let (_, _, _, hi, _) = int_bytes-log2 size small in
        let len = length-tail_bytes n size hi in
        let end : length (write_marker bplist tag size) ≡ length bplist + 2 + n =
          rw e (omega (arith, len, length-append bplist (long_marker tag size))) in
        rw (
          end,
          parse_header-long s (length bplist) tag size w.valid w.bytes low has small
              (omega (arith, inside, len)) h,
        )

    -- The header that `write_marker` put out is read back, and the object follows it.
    pub parse_header-write_marker :
        has_long_size tag ≡ true
        → size < 2 ^ 64
        → parse_header s (length bplist)
          ≡ ok (
              some
                (record { tag = tag; size = size; object = length (write_marker bplist tag size) }))
    parse_header-write_marker has small = elim (Bool-cases (ltb size 15)) [
      | inl e ↦ header-short (ground arith)
      | inr e ↦ header-long has small (ground arith)
    ]

module _ (tree : Tree) (widen : ℕ → ℕ) (self : AtIndex tree widen) where
  open tree use {Node, node_create}

  -- The bytes that write_data put into a valid file of bytes, before the offset table, are read
  -- back, whatever their number.
  pub parse_bin_node-write_data :
      (bplist val : List ℕ) (s : BplistData)
      → length val < 2 ^ 64
      → Wrote (write_data bplist val) s
      → parse_bin_node tree widen self s (length bplist)
        ≡ ok
            (some (node_create (record { value = buff val; length = length val; kind = bytes })), s)
  unfolding write_data write_raw_data parse_bin_node dispatch leaf parse_data_node has_long_size
  parse_bin_node-write_data bplist val s small w =
      let marked = write_marker bplist 0x40 (length val) in
      let w' : Wrote (marked ++ val) s = subst (λ l. Wrote (marked ++ l) s) (take-length val) w in
      let head =
        parse_header-write_marker bplist 0x40 (length val) s refl (Wrote-prefix marked val s w')
          refl small in
      let (h, inside) = Wrote-Holds marked val s w' in
      let out = data_outside-Holds s w.valid (length marked) (length val) inside in
      let got = load-Holds s.buf (length marked) val h in rw (head, out, got)

  -- A text without a zero byte that write_string put into a valid file of bytes, before the offset
  -- table, is read back, whatever its length.
  pub parse_bin_node-write_string :
      (bplist val : List ℕ) (s : BplistData)
      → length val < 2 ^ 64
      → All (λ c. 0 < c) val
      → Wrote (write_string bplist val) s
      → parse_bin_node tree widen self s (length bplist)
        ≡ ok (
          some (node_create (record { value = strval val; length = length val; kind = string })),
          s,
        )
  unfolding write_string write_raw_data parse_bin_node dispatch leaf parse_string_node has_long_size
  parse_bin_node-write_string bplist val s small text w =
      let marked = write_marker bplist 0x50 (length val) in
      let w' : Wrote (marked ++ val) s = subst (λ l. Wrote (marked ++ l) s) (take-length val) w in
      let head =
        parse_header-write_marker bplist 0x50 (length val) s refl (Wrote-prefix marked val s w')
          refl small in
      let (h, inside) = Wrote-Holds marked val s w' in
      let out = data_outside-Holds s w.valid (length marked) (length val) inside in
      let got = load-Holds s.buf (length marked) val h in rw (head, out, got, c_string-All val text)
