-- ===== src/Bplist/Parse/FromBin.antt =====
-- `plist_from_bin` on any input.
use libplist.Prelude.{ℕ, ◌+◌, ◌-◌, ◌^◌, ◌<◌, ◌≤◌, ◌≡◌, ◌≢◌, refl, arith, false, not}
use libplist.Prelude.{List, [], Option, none, some, ◌==◌, leb, length, take, drop, if_intro}
use libplist.PtrArray.Cells.{new-Models}
use libplist.Run.{ok, Ensures, returns, Ensures-bind}
use libplist.Bplist.Node.{
  Tree, PlistErr, success, invalid_arg, parse, no_mem, circular_ref, max_nesting,
}
use libplist.Bplist.Word.{bswap64, le_value}
use libplist.Bplist.Parse.Document.{
  magic, has_prefix, Trailer, trailer_size, be64_at, read_trailer, bad_trailer, initial,
  nesting_fuel, final_err, parse_root, plist_from_bin,
}
use libplist.Bplist.Parse.Valid.{IsValid}
use libplist.Bplist.Parse.Words.{get_unaligned-ok}
use libplist.Prelude.{get_elem?-inside}
use libplist.Bplist.Parse.Total.{at_index-Keeps}

be64_at-ok : (buf : List ℕ) (at : ℕ) → at + 8 ≤ length buf → (v : ℕ) × (be64_at buf at ≡ ok v)
unfolding be64_at
be64_at-ok buf at h = (bswap64 (le_value (take 8 (drop at buf))), rw (get_unaligned-ok buf at 8 h))

read_trailer-ok :
    (buf : List ℕ) (at : ℕ)
    → at + trailer_size ≤ length buf
    → (t : Trailer) × (read_trailer buf at ≡ ok t)
unfolding read_trailer
read_trailer-ok buf at h =
    let (o, e1) = get_elem?-inside buf (at + 6) (omega arith) in
    let (r, e2) = get_elem?-inside buf (at + 7) (omega arith) in
    let (n, e3) = be64_at-ok buf (at + 8) (omega arith) in
    let (i, e4) = be64_at-ok buf (at + 16) (omega arith) in
    let (t, e5) = be64_at-ok buf (at + 24) (omega arith) in
    (
      record {
        offset_size = o;
        ref_size = r;
        num_objects = n;
        root_object = i;
        offset_table_offset = t;
      },
      rw (e1, e2, e3, e4, e5),
    )

-- A trailer that passes all tests describes tables inside the file.
pub initial-IsValid :
    (buf : List ℕ) (address : ℕ) (t : Trailer)
    → trailer_size ≤ length buf
    → length buf < 2 ^ 32
    → address + length buf + 2 ^ 16 ≤ 2 ^ 64
    → bad_trailer (length buf) t ≡ false
    → IsValid (initial buf address t)
unfolding initial bad_trailer
initial-IsValid buf address t long small high good = record {
  sized = refl;
  start = ground arith;
  table = ground arith;
  small = small;
  offsets = ground arith;
  refs = ground arith;
  addresses = high;
  path = [];
  used = new-Models 16 (omega arith);
  deep = omega arith;
}

pub final_err-ne-success : (e : PlistErr) → final_err e ≢ success
unfolding final_err
final_err-ne-success success = λ e. cc
final_err-ne-success invalid_arg = λ e. cc
final_err-ne-success parse = λ e. cc
final_err-ne-success no_mem = λ e. cc
final_err-ne-success circular_ref = λ e. cc
final_err-ne-success max_nesting = λ e. cc

-- The answer's two parts agree: a node with PLIST_ERR_SUCCESS, and NULL with any other code.
abbrev pub IsAnswer : {N : Type 0} → PlistErr × Option N → Type 0
IsAnswer (e, none) = e ≢ success
IsAnswer (e, some n) = e ≡ success

answer :
    {N : Type 0} (o : Option N) (e : PlistErr)
    → IsAnswer {N = N} (elim o [ none ↦ (final_err e, none) | some n ↦ (success, some n) ])
answer none e = final_err-ne-success e
answer (some n) e = refl

module _ (tree : Tree) (widen : ℕ → ℕ) where
  -- plist_from_bin never reads outside the file and always returns, with a node exactly when it
  -- reports success: for every content of the buffer, if that has less than 4 GiB and lies at least
  -- 64 KiB below the top of the address space.
  pub plist_from_bin-Ensures :
      (buf : List ℕ) (address : ℕ)
      → length buf < 2 ^ 32
      → address + length buf + 2 ^ 16 ≤ 2 ^ 64
      → Ensures IsAnswer (plist_from_bin tree widen buf address)
  unfolding plist_from_bin parse_root
  plist_from_bin-Ensures buf address small high =
      if_intro (Ensures IsAnswer) (length buf == 0) (λ _. returns _ refl (λ e. cc))
        (λ _.
          if_intro (Ensures IsAnswer) (not (leb (8 + trailer_size) (length buf)))
            (λ _. returns _ refl (λ e. cc))
            (λ long.
              if_intro (Ensures IsAnswer) (not (has_prefix magic buf))
                (λ _. returns _ refl (λ e. cc))
                (λ _.
                  let wide : trailer_size ≤ length buf = ground arith in
                  let (t, et) = read_trailer-ok buf (length buf - trailer_size) (omega arith) in
                  rw et (
                    if_intro (Ensures IsAnswer) (bad_trailer (length buf) t)
                      (λ _. returns _ refl (λ e. cc))
                      (λ good.
                        Ensures-bind
                          (at_index-Keeps tree widen nesting_fuel 0 (initial buf address t) _
                            (omega arith) (omega arith)
                            (initial-IsValid buf address t wide small high good)
                            (unfold initial in refl))
                          (λ q _. returns _ refl (answer q.0 q.1.err)))))))
