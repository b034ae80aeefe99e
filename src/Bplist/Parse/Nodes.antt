-- ===== src/Bplist/Parse/Nodes.antt =====
-- The node dispatch stays inside the buffer, if the parser of a reference does.
use libplist.Prelude.{
  ℕ, ◌+◌, ◌*◌, ◌/◌, ◌%◌, ◌^◌, ◌<◌, ◌≤◌, ◌≡◌, refl, arith, true, false, ◌&&◌, not,
}
use libplist.Prelude.{Option, none, some, ◌==◌, ltb, if_intro}
use libplist.Prelude.{get_elem?-inside}
use libplist.Run.{Ensures, returns}
use libplist.Bplist.Parse.{
  BplistData, data_outside, end_outside, Header, has_long_size, long_size, parse_header,
}
use libplist.Bplist.Parse.Valid.{IsValid}
use libplist.Bplist.Parse.Words.{uint_to_host_inside}

-- What the pointer tests let through lies inside the buffer.
pub data_outside-inside :
    (s : BplistData) (object n : ℕ)
    → IsValid s
    → object ≤ s.size
    → n < 2 ^ 64
    → data_outside s object n ≡ false
    → object + n ≤ s.offset_table
unfolding data_outside
data_outside-inside s object n v h k e = ground (arith, v.table, v.addresses)

pub end_outside-inside :
    (s : BplistData) (object n : ℕ)
    → IsValid s
    → object ≤ s.size
    → n ≤ 2 ^ 15
    → end_outside s object n ≡ false
    → object + n ≤ s.offset_table
unfolding end_outside
end_outside-inside s object n v h k e = ground (arith, v.table, v.addresses)

-- A header read inside the buffer: the content begins at the start of the offset table at the
-- latest, and a size that does not stand in a node of its own has four bits.
abbrev pub IsHeader : BplistData → Option Header → Type 0
IsHeader s none = Unit {0}
IsHeader s (some h) =
    (h.object ≤ s.offset_table) × (h.size < 2 ^ 64) × (has_long_size h.tag ≡ false → h.size ≤ 15)

long_size-Ensures :
    (s : BplistData) (tag p : ℕ)
    → IsValid s
    → p ≤ s.offset_table
    → has_long_size tag ≡ true
    → Ensures (IsHeader s) (long_size s tag p)
unfolding long_size
long_size-Ensures s tag p v h t =
    let (c, e) = get_elem?-inside s.buf p (omega (arith, v.sized, v.table)) in
    let n = 2 ^ (c % 16) in
    rw e (
      if_intro (Ensures (IsHeader s)) (not (c / 16 * 16 == 0x10)) (λ _. returns none refl tt)
        (λ _.
          if_intro (Ensures (IsHeader s)) (ltb s.offset_table (p + 1 + n))
            (λ _. returns none refl tt)
            (λ inside.
              let fits : p + 1 + n ≤ s.offset_table = ground arith in
              let (size, e', lt) =
                uint_to_host_inside s.buf (p + 1) n (omega (arith, v.sized, v.table))
                  (omega (arith, v.sized, v.table)) in
              rw e' (
                returns (some (record { tag = tag; size = size; object = p + 1 + n })) refl
                  (fits, lt, λ f. absurd (cc (t, f)))))))

pub parse_header-Ensures :
    (s : BplistData) (p : ℕ)
    → IsValid s
    → p < s.offset_table
    → Ensures (IsHeader s) (parse_header s p)
unfolding parse_header
parse_header-Ensures s p v h =
    let (c, e) = get_elem?-inside s.buf p (omega (arith, v.sized, v.table)) in
    rw e (
      if_intro (Ensures (IsHeader s)) (c % 16 == 15 && has_long_size (c / 16 * 16))
        (λ long. long_size-Ensures s (c / 16 * 16) (p + 1) v (omega arith) (ground arith))
        (λ short.
          returns (some (record { tag = c / 16 * 16; size = c % 16; object = p + 1 })) refl
            (omega arith, omega arith, λ f. omega arith)))
