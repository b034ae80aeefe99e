-- ===== src/ByteArray.antt =====
-- src/bytearray.c: a growing byte buffer, or a stream that counts the bytes written to it.
pub mod Laws
use libplist.Prelude.{ℕ, ◌+◌, ◌-◌, ◌*◌, ◌/◌, ◌%◌, ◌^◌, Bool, List, [], ◌++◌, Option, none, some}
use libplist.Prelude.{◌==◌, ltb, if◌then◌else◌, length, take, drop}

abbrev pub page_size : ℕ
page_size = 4096

-- Either a block of `capacity` bytes whose first `len` are in use, or a stream with what was
-- written to it so far.
pub data Storage : Type 0 where
  block : List ℕ → Storage
  stream : List ℕ → Storage

pub record ByteArray : Type 0 where
  pub storage : Storage
  pub len : ℕ
  pub capacity : ℕ

-- `(x > PAGE_SIZE) ? (x + (PAGE_SIZE-1)) & (~(PAGE_SIZE-1)) : PAGE_SIZE` on 64 bits.
unfoldable pub page_up : ℕ → ℕ
page_up x =
    if ltb page_size x then (x + (page_size - 1)) % 2 ^ 64 / page_size * page_size else page_size

-- `fresh` is what the new block holds.
unfoldable pub byte_array_new : ℕ → (ℕ → List ℕ) → ByteArray
byte_array_new initial fresh = record {
  storage = block (fresh (page_up initial));
  len = 0;
  capacity = page_up initial;
}

unfoldable pub byte_array_new_for_stream : ByteArray
byte_array_new_for_stream = record { storage = stream []; len = 0; capacity = 2 ^ 64 - 1 }

-- `realloc` of a block to `n` bytes; `fresh k` is what `k` new bytes hold.
unfoldable pub realloc : (ℕ → List ℕ) → List ℕ → ℕ → List ℕ
realloc fresh bytes n =
    if ltb n (length bytes) then take n bytes else bytes ++ fresh (n - length bytes)

-- `capacity + increase` is a size_t.
unfoldable pub byte_array_grow : (ℕ → List ℕ) → ByteArray → ℕ → ByteArray
byte_array_grow fresh ba amount = elim ba.storage [
  | stream written ↦ ba
  | block bytes ↦
      let capacity = (ba.capacity + page_up amount) % 2 ^ 64 in
      record { storage = block (realloc fresh bytes capacity); len = ba.len; capacity = capacity }
]

-- `memcpy(&bytes[at], buf, len)`; `none` if that leaves the block.
unfoldable pub memcpy_at : List ℕ → ℕ → List ℕ → Option (List ℕ)
memcpy_at bytes at buf =
    if ltb (length bytes) (at + length buf)
    then none
    else some (take at bytes ++ (buf ++ drop (at + length buf) bytes))

-- The copy behind the bytes in use.
unfoldable pub copy_in : ByteArray → List ℕ → Option ByteArray
copy_in ba buf = elim ba.storage [
  | stream written ↦ some ba
  | block bytes ↦ elim (memcpy_at bytes ba.len buf) [
    | none ↦ none
    | some bytes' ↦
        some (record ba { storage = block bytes'; len = (ba.len + length buf) % 2 ^ 64 })
  ]
]

-- `byte_array_append`; `none` is a write outside the block. `fwrite` says how many bytes a stream
-- takes, by what was written to it before; `len` counts the others too.
unfoldable pub byte_array_append :
    (ℕ → List ℕ) → (List ℕ → List ℕ → ℕ) → ByteArray → List ℕ → Option ByteArray
byte_array_append fresh fwrite ba buf = if length buf == 0 then some ba else elim ba.storage [
  | stream written ↦ some (record ba {
    storage = stream (written ++ take (fwrite written buf) buf);
    len = (ba.len + length buf) % 2 ^ 64;
  })
  | block bytes ↦
      copy_in
        (if ltb (ba.capacity - ba.len) (length buf)
          then byte_array_grow fresh ba (length buf - (ba.capacity - ba.len))
          else ba)
        buf
]
