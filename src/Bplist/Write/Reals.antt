-- ===== src/Bplist/Write/Reals.antt =====
-- The parser reads back the reals and dates that the writers put out.
use libplist.Prelude.{ℕ, ◌+◌, ◌^◌, ◌<◌, ◌≤◌, ◌≡◌, refl, ap, subst, arith}
use libplist.Prelude.{
  List, ◌∷◌, ◌++◌, Option, none, some, All, take, drop, length, Option-cases, inl, inr,
}
use libplist.Run.{ok}
use libplist.Bplist.Word.{
  bswap32, bswap64, get_unaligned, le_value, uint_to_host, load_width, to_host,
}
use libplist.Bplist.Word.Values.{IsByte}
use libplist.Bplist.Node.{Tree, real, date, realval}
use libplist.Bplist.Scalar.{parse_real_node, parse_date_node}
use libplist.Bplist.Parse.{AtIndex, BplistData, leaf, dispatch, parse_bin_node}
use libplist.Bplist.Parse.Words.{get_unaligned-ok}
use libplist.Bplist.Write.{log2, tail_bytes, write_real, write_date}
use libplist.Bplist.Write.Integers.{length-tail_bytes, le_bytes-bswap32}
use libplist.Bplist.Write.Held.{Holds, uint_to_host-Holds, end_outside-Holds, parse_header-short}
use libplist.Bplist.Write.RoundTrip.{Wrote, Wrote-Holds}

module _ (buf : List ℕ) (at x : ℕ) (bytes : All IsByte buf) (long : at + 8 ≤ length buf) where
  -- The two swaps that reals are read with.
  pub swapped64 :
      x < 2 ^ 64
      → Holds buf at (tail_bytes 8 x)
      → (w : ℕ) × (get_unaligned buf at 8 ≡ ok w) × (bswap64 w ≡ x)
  unfolding uint_to_host load_width to_host
  swapped64 small h =
      let w = le_value (take 8 (drop at buf)) in
      let e = get_unaligned-ok buf at 8 long in
      let got : uint_to_host buf at 8 ≡ ok x =
        uint_to_host-Holds buf at 8 x bytes (omega arith) (omega arith) small long h in
      let value : ok (bswap64 w) ≡ ok x = rw (← got, e) in (w, e, cc)

  swapped32 :
      x < 2 ^ 32
      → Holds buf at (tail_bytes 4 x)
      → (w : ℕ) × (get_unaligned buf at 4 ≡ ok w) × (bswap32 w ≡ x)
  unfolding uint_to_host load_width to_host
  swapped32 small h =
      let w = le_value (take 4 (drop at buf)) in
      let e = get_unaligned-ok buf at 4 (omega arith) in
      let got : uint_to_host buf at 4 ≡ ok x =
        uint_to_host-Holds buf at 4 x bytes (omega arith) (omega arith) small long h in
      let value : ok (bswap32 w) ≡ ok x = rw (← got, e) in (w, e, cc)

module _ (narrow : ℕ → Option ℕ) (bplist : List ℕ) (val : ℕ) where
  write_real-double :
      narrow val ≡ none → write_real narrow bplist val ≡ bplist ++ (0x23 ∷ tail_bytes 8 val)
  unfolding write_real log2 tail_bytes
  write_real-double e = rw (write_real, e)

  write_real-float :
      (f : ℕ)
      → narrow val ≡ some f
      → write_real narrow bplist val ≡ bplist ++ (0x22 ∷ tail_bytes 4 f)
  unfolding write_real log2
  write_real-float f e = rw (write_real, e) (ap (λ l. bplist ++ (0x22 ∷ l)) (le_bytes-bswap32 f))

module _ (tree : Tree) (widen : ℕ → ℕ) (self : AtIndex tree widen) where
  open tree use {Node, node_create}

  -- A date that write_date put into a valid file of bytes, before the offset table, is read back
  -- bit for bit.
  pub parse_bin_node-write_date :
      (bplist : List ℕ) (val : ℕ) (s : BplistData)
      → val < 2 ^ 64
      → Wrote (write_date bplist val) s
      → parse_bin_node tree widen self s (length bplist)
        ≡ ok (some (node_create (record { value = realval val; length = 8; kind = date })), s)
  unfolding write_date tail_bytes Holds parse_bin_node dispatch leaf parse_date_node parse_real_node
  parse_bin_node-write_date bplist val s small w =
      let p = length bplist in
      let ((e, h), inside) = Wrote-Holds bplist (0x33 ∷ tail_bytes 8 val) s w in
      let end : p + 1 + 8 ≤ s.offset_table =
        omega (arith, inside, length-tail_bytes 8 val (omega arith)) in
      let out = end_outside-Holds s w.valid (p + 1) 8 end in
      let (v, got, value) =
        swapped64 s.buf (p + 1) val w.bytes (omega (arith, w.valid.table, w.valid.sized)) small h in
      rw (parse_header-short s p 0x30 3 refl (omega arith) e, out, got, value)

  reads_double :
      (bplist : List ℕ) (val : ℕ) (s : BplistData)
      → val < 2 ^ 64
      → Wrote (bplist ++ (0x23 ∷ tail_bytes 8 val)) s
      → parse_bin_node tree widen self s (length bplist)
        ≡ ok (some (node_create (record { value = realval val; length = 8; kind = real })), s)
  unfolding Holds parse_bin_node dispatch leaf parse_real_node
  reads_double bplist val s small w =
      let p = length bplist in
      let ((e, h), inside) = Wrote-Holds bplist (0x23 ∷ tail_bytes 8 val) s w in
      let end : p + 1 + 8 ≤ s.offset_table =
        omega (arith, inside, length-tail_bytes 8 val (omega arith)) in
      let out = end_outside-Holds s w.valid (p + 1) 8 end in
      let (v, got, value) =
        swapped64 s.buf (p + 1) val w.bytes (omega (arith, w.valid.table, w.valid.sized)) small h in
      rw (parse_header-short s p 0x20 3 refl (omega arith) e, out, got, value)

  reads_float :
      (bplist : List ℕ) (f : ℕ) (s : BplistData)
      → f < 2 ^ 32
      → Wrote (bplist ++ (0x22 ∷ tail_bytes 4 f)) s
      → parse_bin_node tree widen self s (length bplist)
        ≡ ok (some (node_create (record { value = realval (widen f); length = 8; kind = real })), s)
  unfolding Holds parse_bin_node dispatch leaf parse_real_node
  reads_float bplist f s small w =
      let p = length bplist in
      let ((e, h), inside) = Wrote-Holds bplist (0x22 ∷ tail_bytes 4 f) s w in
      let end : p + 1 + 4 ≤ s.offset_table =
        omega (arith, inside, length-tail_bytes 4 f (omega arith)) in
      let out = end_outside-Holds s w.valid (p + 1) 4 end in
      let (v, got, value) =
        swapped32 s.buf (p + 1) f w.bytes (omega (arith, w.valid.table, w.valid.sized)) small h in
      rw (parse_header-short s p 0x20 2 refl (omega arith) e, out, got, value)

  -- A real that write_real put into a valid file of bytes, before the offset table, is read back
  -- bit for bit: as a double, or as the float that it was narrowed to, if widening undoes the
  -- narrowing.
  pub parse_bin_node-write_real :
      (narrow : ℕ → Option ℕ) (bplist : List ℕ) (val : ℕ) (s : BplistData)
      → val < 2 ^ 64
      → ((f : ℕ) → narrow val ≡ some f → (f < 2 ^ 32) × (widen f ≡ val))
      → Wrote (write_real narrow bplist val) s
      → parse_bin_node tree widen self s (length bplist)
        ≡ ok (some (node_create (record { value = realval val; length = 8; kind = real })), s)
  parse_bin_node-write_real narrow bplist val s small exact w = elim (Option-cases (narrow val)) [
    | inl e ↦
        reads_double bplist val s small
          (subst (λ l. Wrote l s) (write_real-double narrow bplist val e) w)
    | inr (f, e) ↦
        let (low, same) = exact f e in
        let w' = subst (λ l. Wrote l s) (write_real-float narrow bplist val f e) w in
        rw (← same) (reads_float bplist f s low w')
  ]
