-- ===== src/Bplist/Write/Extends.antt =====
-- What the writers put behind the bytes that they are given, all of them bytes.
use libplist.Prelude.{
  ℕ, ◌+◌, ◌-◌, ◌%◌, ◌^◌, ◌<◌, ◌≤◌, ◌≡◌, refl, ap, ◌∙◌, arith, false, List, [], ◌∷◌, ◌++◌, Option,
}
use libplist.Prelude.{
  All, All-append, length, ltb, ◌==◌, length-append, append_assoc, Bool-cases, Option-cases, inl,
  inr, take-length,
}
use libplist.Bplist.Word.{bswap64, bswap32}
use libplist.Bplist.Word.Values.{IsByte}
use libplist.Bplist.Write.{
  log2, int_bytes, le_bytes, tail_bytes, write_int, write_uint, write_uid, write_real, write_date,
  write_marker, write_raw_data,
}
use libplist.Bplist.Word.{get_needed_bytes}
use libplist.Bplist.Write.Integers.{length-tail_bytes, tail_bytes-IsByte, le_bytes-bswap32}
use libplist.Bplist.Write.Held.{int_bytes-log2}
use libplist.Bplist.Write.Sized.{long_marker, write_marker-short, write_marker-long}

-- The bytes that follow what was there before, at most `room` of them.
pub record Extends (room : ℕ) (before after : List ℕ) : Type 0 where
  pub added : List ℕ
  pub appended : after ≡ before ++ added
  pub bytes : All IsByte added
  pub nonempty : 0 < length added
  pub short : length added ≤ room

int_bytes-le : (x : ℕ) → int_bytes x ≤ 8
unfolding int_bytes get_needed_bytes
int_bytes-le x = ground arith

int_bytes-small : (x : ℕ) → 0x10 + log2 (int_bytes x) < 256
unfolding log2
int_bytes-small x = ground arith

tail_bytes-short : (x : ℕ) → length (tail_bytes (int_bytes x) x) ≤ 8
tail_bytes-short x =
    omega (arith, int_bytes-le x, length-tail_bytes (int_bytes x) x (int_bytes-le x))

-- More room does as well.
pub Extends-weaken :
    (n k : ℕ) (before after : List ℕ) → n ≤ k → Extends n before after → Extends k before after
Extends-weaken n k before after h x = record {
  added = x.added;
  appended = x.appended;
  bytes = x.bytes;
  nonempty = x.nonempty;
  short = omega (arith, x.short);
}

pub write_int-Extends : (bplist : List ℕ) (val : ℕ) → Extends 9 bplist (write_int bplist val)
unfolding write_int
write_int-Extends bplist val = record {
  added = (0x10 + log2 (int_bytes val)) ∷ tail_bytes (int_bytes val) val;
  appended = refl;
  bytes = (int_bytes-small val, tail_bytes-IsByte (int_bytes val) val);
  nonempty = omega arith;
  short = omega (arith, tail_bytes-short val);
}

zeros-IsByte : All IsByte (le_bytes 8 0)
unfolding tail_bytes le_bytes bswap64
zeros-IsByte = tail_bytes-IsByte 8 0

length-zeros : length (le_bytes 8 0) ≡ 8
unfolding le_bytes
length-zeros = refl

uid_marker-small : (val : ℕ) → 0x80 + (int_bytes (val % 2 ^ 32) - 1) < 256
uid_marker-small val =
    let (_, _, _, hi, _) = int_bytes-log2 (val % 2 ^ 32) (omega arith) in omega arith

pub write_uint-Extends : (bplist : List ℕ) (val : ℕ) → Extends 17 bplist (write_uint bplist val)
unfolding write_uint tail_bytes
write_uint-Extends bplist val = record {
  added = 0x14 ∷ (le_bytes 8 0 ++ le_bytes 8 (bswap64 val));
  appended = refl;
  bytes = (omega arith, All-append IsByte (le_bytes 8 0) _ zeros-IsByte (tail_bytes-IsByte 8 val));
  nonempty = omega arith;
  short = omega (
    arith,
    length-append (le_bytes 8 0) (le_bytes 8 (bswap64 val)),
    length-tail_bytes 8 0 (omega arith),
    length-tail_bytes 8 val (omega arith),
    length-zeros,
  );
}

pub write_uid-Extends : (bplist : List ℕ) (val : ℕ) → Extends 9 bplist (write_uid bplist val)
unfolding write_uid
write_uid-Extends bplist val = record {
  added =
      (0x80 + (int_bytes (val % 2 ^ 32) - 1))
      ∷ tail_bytes (int_bytes (val % 2 ^ 32)) (val % 2 ^ 32);
  appended = refl;
  bytes = (uid_marker-small val, tail_bytes-IsByte (int_bytes (val % 2 ^ 32)) (val % 2 ^ 32));
  nonempty = omega arith;
  short = omega (arith, tail_bytes-short (val % 2 ^ 32));
}

pub write_date-Extends : (bplist : List ℕ) (val : ℕ) → Extends 9 bplist (write_date bplist val)
unfolding write_date tail_bytes
write_date-Extends bplist val = record {
  added = 0x33 ∷ le_bytes 8 (bswap64 val);
  appended = refl;
  bytes = (omega arith, tail_bytes-IsByte 8 val);
  nonempty = omega arith;
  short = omega (arith, length-tail_bytes 8 val (omega arith));
}

pub write_real-Extends :
    (narrow : ℕ → Option ℕ) (bplist : List ℕ) (val : ℕ)
    → Extends 9 bplist (write_real narrow bplist val)
unfolding write_real tail_bytes log2
write_real-Extends narrow bplist val = elim (Option-cases (narrow val)) [
  | inl e ↦ record {
    added = 0x23 ∷ le_bytes 8 (bswap64 val);
    appended = rw (write_real, e) refl;
    bytes = (omega arith, tail_bytes-IsByte 8 val);
    nonempty = omega arith;
    short = omega (arith, length-tail_bytes 8 val (omega arith));
  }
  | inr (f, e) ↦ record {
    added = 0x22 ∷ le_bytes 4 (bswap32 f);
    appended = rw (write_real, e) refl;
    bytes = (omega arith, rw (le_bytes-bswap32 f) (tail_bytes-IsByte 4 f));
    nonempty = omega arith;
    short = rw (le_bytes-bswap32 f) (omega (arith, length-tail_bytes 4 f (omega arith)));
  }
]

pub write_marker-Extends :
    (bplist : List ℕ) (mark size : ℕ)
    → mark + 15 < 256
    → Extends 10 bplist (write_marker bplist mark size)
write_marker-Extends bplist mark size h = elim (Bool-cases (ltb size 15)) [
  | inl e ↦ record {
    added = (mark + size) ∷ [];
    appended = write_marker-short bplist mark size (ground arith);
    bytes = (ground arith, _);
    nonempty = omega arith;
    short = omega arith;
  }
  | inr e ↦ record {
    added = long_marker mark size;
    appended = write_marker-long bplist mark size (ground arith);
    bytes = (omega arith, (int_bytes-small size, tail_bytes-IsByte (int_bytes size) size));
    nonempty = omega arith;
    short = omega (arith, tail_bytes-short size);
  }
]

-- A marker, and as many bytes as it says.
pub write_raw_data-Extends :
    (bplist : List ℕ) (mark : ℕ) (val : List ℕ)
    → (mark == 0x60) ≡ false
    → mark + 15 < 256
    → All IsByte val
    → Extends (10 + length val) bplist (write_raw_data bplist mark val (length val))
unfolding write_raw_data
write_raw_data-Extends bplist mark val other small bytes =
    let e = write_marker-Extends bplist mark (length val) small in
    record {
      added = e.added ++ val;
      appended =
          rw (other, take-length val)
            (ap (λ l. l ++ val) e.appended ∙ append_assoc bplist e.added val);
      bytes = All-append IsByte e.added val e.bytes bytes;
      nonempty = omega (arith, e.nonempty, length-append e.added val);
      short = omega (arith, e.short, length-append e.added val);
    }
