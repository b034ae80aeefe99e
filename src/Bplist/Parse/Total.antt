-- ===== src/Bplist/Parse/Total.antt =====
-- `plist_from_bin` stays inside the file and ends, whatever the bytes.
use libplist.Prelude.{ℕ, zero, suc, ◌+◌, ◌-◌, ◌*◌, ◌%◌, ◌^◌, ◌<◌, ◌≤◌, ◌≡◌, refl, arith, ◌||◌}
use libplist.Prelude.{
  List, [], ◌∷◌, ◌++◌, Option, none, some, ltb, leb, length, if_intro, set, length-append,
  length-set,
}
use native.Mathlib.Nat.{mod-eq_of_lt}
use libplist.PtrArray.{PtrArray, ptr_array_size}
use libplist.PtrArray.Cells.{Models}
use libplist.PtrArray.Operations.{ptr_array_size_lem, ptr_array_add-Returns, ptr_array_set-Returns}
use libplist.Run.{ok, Ensures, returns, Ensures-bind}
use libplist.Bplist.Node.{Tree, PlistErr, parse}
use libplist.Bplist.Parse.{
  BplistData, AtIndex, max_nesting_depth, fill_used, mark_used, is_circular, node_offset, fail,
}
use libplist.Bplist.Parse.{parse_entered, parse_bin_node_at_index}
use libplist.Bplist.Parse.Valid.{IsValid, Keeps}
use libplist.Bplist.Parse.Words.{uint_to_host_inside}
use libplist.Bplist.Parse.Dispatch.{parse_bin_node-Keeps}

-- `used_indexes` holds indices for all levels up to and including `level`.
abbrev pub Covers : ℕ → PtrArray ℕ → Type 0
Covers level used = (path : List ℕ) × Models path used × (level < length path)

fill_used-Ensures :
    (n : ℕ) (used : PtrArray ℕ) (level index : ℕ) (path : List ℕ)
    → Models path used
    → level + 1 ≤ length path + n
    → Ensures (Covers level) (fill_used n used level index)
unfolding fill_used
fill_used-Ensures zero used level index path m h = returns used refl (path, m, omega arith)
fill_used-Ensures (suc n) used level index path m h =
    if_intro (Ensures (Covers level)) (ltb (ptr_array_size used) (level + 1))
      (λ _.
        let (used', e, m') = ptr_array_add-Returns path used index m in
        rw e (
          fill_used-Ensures n used' level index (path ++ (index ∷ [])) m'
            (omega (arith, length-append path (index ∷ [])))))
      (λ e. returns used refl (path, m, ground (arith, ptr_array_size_lem path used m)))

pub mark_used-Ensures :
    (used : PtrArray ℕ) (level index : ℕ) (path : List ℕ)
    → Models path used
    → Ensures (Covers level) (mark_used used level index)
unfolding mark_used
mark_used-Ensures used level index path m =
    if_intro (Ensures (Covers level)) (ltb (ptr_array_size used) (level + 1))
      (λ _. fill_used-Ensures (level + 1) used level index path m (omega arith))
      (λ e.
        let (used', e', m') = ptr_array_set-Returns path used index level m in
        rw e' (
          returns used' refl (
            set path level index,
            m',
            ground (arith, ptr_array_size_lem path used m, length-set path level index),
          )))

abbrev IsNodeOffset : BplistData → Option ℕ → Type 0
IsNodeOffset s none = Unit {0}
IsNodeOffset s (some p) = p < s.offset_table

pub entry_inside : (i n o : ℕ) → i < n → i * o + o ≤ n * o
entry_inside i n o h = grind arith

-- The offset table is read inside the file.
node_offset-Ensures :
    (s : BplistData) (i : ℕ) → IsValid s → Ensures (IsNodeOffset s) (node_offset s i)
unfolding node_offset
node_offset-Ensures s i v =
    let idx_ptr = s.offset_table + i * s.offset_size % 2 ^ 32 in
    if_intro (Ensures (IsNodeOffset s))
      (leb s.num_objects i
        || ltb idx_ptr s.offset_table
        || leb (s.offset_table + s.num_objects * s.offset_size % 2 ^ 64) idx_ptr)
      (λ _. returns none refl tt)
      (λ e.
        let whole = entry_inside i s.num_objects s.offset_size (ground arith) in
        let plain : i * s.offset_size % 2 ^ 32 ≡ i * s.offset_size =
          mod-eq_of_lt (omega (arith, whole, v.table, v.small, v.offsets)) in
        let inside : idx_ptr + s.offset_size ≤ length s.buf =
          omega (arith, whole, plain, v.table, v.sized) in
        let near : idx_ptr + 8 ≤ length s.buf = omega (arith, whole, plain, v.table, v.sized) in
        let (offset, e', _) = uint_to_host_inside s.buf idx_ptr s.offset_size inside near in
        rw e' (
          if_intro (λ (o : Option ℕ). Ensures (IsNodeOffset s) (ok o))
            (ltb s.size offset || ltb offset 8 || leb s.offset_table offset)
            (λ _. returns none refl tt) (λ f. returns (some offset) refl (ground arith))))

-- Only the level, the indices and the error change while the parser runs.
pub update-IsValid :
    (s : BplistData) (used : PtrArray ℕ) (level : ℕ) (err : PlistErr) (path : List ℕ)
    → IsValid s
    → Models path used
    → level ≤ length path
    → IsValid (record s { used_indexes = used; level = level; err = err })
update-IsValid s used level err path v m h = record {
  sized = v.sized;
  start = v.start;
  table = v.table;
  small = v.small;
  offsets = v.offsets;
  refs = v.refs;
  addresses = v.addresses;
  path = path;
  used = m;
  deep = h;
}

module _ (tree : Tree) (widen : ℕ → ℕ) where
  parse_entered-Keeps :
      (self : AtIndex tree widen) (level : ℕ) (s : BplistData) (i p : ℕ)
      → (level ≤ max_nesting_depth
          → (s' : BplistData) (j : ℕ) → IsValid s'
          → s'.level ≡ level + 1
          → Keeps (level + 1) (self s' j))
      → IsValid s
      → s.level ≡ level
      → p < s.offset_table
      → Keeps level (parse_entered tree widen self s i p)
  unfolding parse_entered fail
  parse_entered-Keeps self level s i p keeps v e h =
      if_intro (Keeps level) (ltb max_nesting_depth s.level)
        (λ _. returns _ refl (update-IsValid s s.used_indexes s.level _ v.path v v.used v.deep, e))
        (λ d.
          Ensures-bind (mark_used-Ensures s.used_indexes s.level i v.path v.used)
            (λ used (path, m, above).
              if_intro (Keeps level) (is_circular used s.level s.level)
                (λ _. returns _ refl (update-IsValid s used s.level _ path v m (omega arith), e))
                (λ _.
                  Ensures-bind
                    (parse_bin_node-Keeps tree widen (level + 1)
                      (record s { used_indexes = used; level = s.level + 1 }) self p
                      (keeps (ground arith))
                      (update-IsValid s used (s.level + 1) s.err path v m (omega arith))
                      (omega arith) h)
                    (λ q vq. returns _ refl (
                      update-IsValid q.1 q.1.used_indexes (q.1.level - 1) q.1.err vq.0.path vq.0
                          vq.0.used (omega (arith, vq.0.deep)),
                      omega (arith, vq.1),
                    )))))

  offset-Keeps :
      (self : AtIndex tree widen) (level : ℕ) (s : BplistData) (i : ℕ)
      → (level ≤ max_nesting_depth
          → (s' : BplistData) (j : ℕ) → IsValid s'
          → s'.level ≡ level + 1
          → Keeps (level + 1) (self s' j))
      → IsValid s
      → s.level ≡ level
      → (r : Option ℕ) → IsNodeOffset s r
      → Keeps level
          (elim r [ none ↦ fail tree widen s parse | some p ↦ parse_entered tree widen self s i p ])
  unfolding fail
  offset-Keeps self level s i keeps v e none _ =
      returns _ refl (update-IsValid s s.used_indexes s.level _ v.path v v.used v.deep, e)
  offset-Keeps self level s i keeps v e (some p) h =
      parse_entered-Keeps self level s i p keeps v e h

  -- The recursion ends before the fuel does.
  pub at_index-Keeps :
      (fuel : ℕ) (level : ℕ) (s : BplistData) (i : ℕ)
      → max_nesting_depth + 2 ≤ fuel + level
      → level ≤ max_nesting_depth + 1
      → IsValid s
      → s.level ≡ level
      → Keeps level (parse_bin_node_at_index tree widen fuel s i)
  unfolding parse_bin_node_at_index
  at_index-Keeps zero level s i enough deep v e = absurd (omega arith)
  at_index-Keeps (suc fuel) level s i enough deep v e = Ensures-bind (node_offset-Ensures s i v) (
      offset-Keeps (parse_bin_node_at_index tree widen fuel) level s i
        (λ below s' j v' e'. at_index-Keeps fuel (level + 1) s' j (omega arith) (omega arith) v' e')
        v e)
