-- ===== src/Examples/Arrays.antt =====
-- The pointer array and the byte array.
use libplist.Prelude.{ℕ, ◌≡◌, refl, arith, List, [], ◌∷◌, some, pos, replicate, length-replicate}
use libplist.PtrArray.{PtrArray, ptr_array_insert, ptr_array_remove, ptr_array_set, ptr_array_index}
use libplist.PtrArray.Cells.{Models, insert_at}
use libplist.PtrArray.Operations.{
  Returns, removed, ptr_array_insert-Returns, ptr_array_remove-Returns, ptr_array_set-Returns,
  ptr_array_index_lem,
}
use libplist.Prelude.{length}
use libplist.ByteArray.{byte_array_new, byte_array_append}
use libplist.ByteArray.Laws
use libplist.ByteArray.Laws.{Holds, IsAllocator, in_block, byte_array_append-Returns}

-- Two cells, both in use.
abbrev full : PtrArray ℕ
full = record { pdata = some 5 ∷ some 6 ∷ []; len = 2; capacity = 2; capacity_step = 2 }

full-Models : Models (5 ∷ 6 ∷ []) full
full-Models = record {
  spare = [];
  cells = refl;
  counted = refl;
  block = omega arith;
  step = omega arith;
}

ptr_array_insert-Returns_example :
    Returns (ptr_array_insert full 9 (pos 1)) (insert_at 1 9 (5 ∷ 6 ∷ []))
ptr_array_insert-Returns_example = ptr_array_insert-Returns (5 ∷ 6 ∷ []) full 9 (pos 1) full-Models

ptr_array_remove-Returns_example :
    Returns (ptr_array_remove full (pos 0)) (removed (5 ∷ 6 ∷ []) (pos 0))
ptr_array_remove-Returns_example = ptr_array_remove-Returns (5 ∷ 6 ∷ []) full (pos 0) full-Models

ptr_array_set-Returns_example : Returns (ptr_array_set full 9 (pos 1)) (5 ∷ 9 ∷ [])
ptr_array_set-Returns_example = ptr_array_set-Returns (5 ∷ 6 ∷ []) full 9 1 full-Models

ptr_array_index_example : ptr_array_index full (pos 1) ≡ some 6
ptr_array_index_example = ptr_array_index_lem (5 ∷ 6 ∷ []) full 1 full-Models

abbrev zeros : ℕ → List ℕ
zeros n = replicate n 0

zeros-IsAllocator : IsAllocator zeros
zeros-IsAllocator n = length-replicate n 0

-- A stream that takes all bytes.
abbrev takes_all : List ℕ → List ℕ → ℕ
takes_all written buf = length buf

byte_array_append-Returns_example :
    Laws.Returns
      (byte_array_append zeros takes_all (byte_array_new 10 zeros) (1 ∷ 2 ∷ []))
      (1 ∷ 2 ∷ [])
byte_array_append-Returns_example =
    byte_array_append-Returns zeros takes_all (byte_array_new 10 zeros) [] (1 ∷ 2 ∷ [])
      zeros-IsAllocator (λ written. refl) (omega arith)
      (Laws.byte_array_new-Holds 10 zeros zeros-IsAllocator)
