-- ===== src/Bplist/Parse/Valid.antt =====
-- What holds of the parser's data from `plist_from_bin` on.
use libplist.Prelude.{ℕ, ◌+◌, ◌*◌, ◌^◌, ◌<◌, ◌≤◌, ◌≡◌, List, length, Option}
use libplist.PtrArray.Cells.{Models}
use libplist.Run.{Run, Ensures}
use libplist.Bplist.Parse.{BplistData}

-- The trailer's numbers fit the file, the buffer lies at least 64 KiB below the top of the
-- address space, and `used_indexes` has an entry for each level above the current one.
pub record IsValid (s : BplistData) : Type 0 where
  pub sized : length s.buf ≡ s.size
  pub start : 8 ≤ s.offset_table
  pub table : s.offset_table + s.num_objects * s.offset_size + 32 ≤ s.size
  pub small : s.size < 2 ^ 32
  pub offsets : 0 < s.offset_size
  pub refs : 0 < s.ref_size
  pub addresses : s.address + s.size + 2 ^ 16 ≤ 2 ^ 64
  pub path : List ℕ
  pub used : Models path s.used_indexes
  pub deep : s.level ≤ length path

-- A parser ran on valid data of some level, without a bad access, and left data that are valid
-- and of the same level.
abbrev pub Keeps : {N : Type 0} → ℕ → Run (Option N × BplistData) → Type 0
Keeps level r = Ensures (λ q. IsValid q.1 × (q.1.level ≡ level)) r
