-- ===== src/Bplist/Write/Integers.antt =====
-- The bytes that the writers put out for an integer.
use libplist.Prelude.{
  ℕ, zero, suc, ◌+◌, ◌-◌, ◌*◌, ◌/◌, ◌%◌, ◌^◌, ◌<◌, ◌≤◌, ◌≡◌, refl, ap, sym, ◌∙◌, arith,
}
use libplist.Prelude.{List, [], ◌∷◌, All, length, drop, length-drop}
use libplist.Bplist.Word.{byte_of, bswap32, bswap64, le_value}
use libplist.Bplist.Word.Values.{IsByte, be_value, be_value_from, All-drop}
use libplist.Bplist.Parse.Words.{byte_of-lt}
use libplist.Bplist.Write.{le_bytes, tail_bytes}

le_bytes-le_value : (bs : List ℕ) → All IsByte bs → le_bytes (length bs) (le_value bs) ≡ bs
unfolding le_bytes le_value
le_bytes-le_value [] h = refl
le_bytes-le_value (b ∷ r) (hb, h) =
    let low : (b + 256 * le_value r) % 256 ≡ b = omega arith in
    let high : (b + 256 * le_value r) / 256 ≡ le_value r = omega arith in
    rw (low, high, le_bytes-le_value r h)

-- The bytes of a number of 64 bits, highest first.
abbrev be_bytes : ℕ → List ℕ
be_bytes x =
    byte_of x 7
    ∷ byte_of x 6
    ∷ byte_of x 5
    ∷ byte_of x 4
    ∷ byte_of x 3
    ∷ byte_of x 2
    ∷ byte_of x 1
    ∷ byte_of x 0
    ∷ []

be_bytes-IsByte : (x : ℕ) → All IsByte (be_bytes x)
be_bytes-IsByte x =
    let lt = byte_of-lt x in (lt 7, (lt 6, (lt 5, (lt 4, (lt 3, (lt 2, (lt 1, (lt 0, _))))))))

pub le_bytes-bswap64 : (x : ℕ) → le_bytes 8 (bswap64 x) ≡ be_bytes x
unfolding bswap64
le_bytes-bswap64 x =
    let swapped : bswap64 x ≡ le_value (be_bytes x) = unfold le_value in omega arith in
    ap (le_bytes 8) swapped ∙ le_bytes-le_value (be_bytes x) (be_bytes-IsByte x)

be_value-drop :
    (n x : ℕ) → 0 < n → n ≤ 8 → x < 2 ^ (8 * n) → be_value (drop (8 - n) (be_bytes x)) ≡ x
unfolding be_value be_value_from byte_of
be_value-drop zero x lo hi h = absurd (omega arith)
be_value-drop (suc zero) x lo hi h = omega arith
be_value-drop (suc (suc zero)) x lo hi h = omega arith
be_value-drop (suc (suc (suc zero))) x lo hi h = omega arith
be_value-drop (suc (suc (suc (suc zero)))) x lo hi h = omega arith
be_value-drop (suc (suc (suc (suc (suc zero))))) x lo hi h = omega arith
be_value-drop (suc (suc (suc (suc (suc (suc zero)))))) x lo hi h = omega arith
be_value-drop (suc (suc (suc (suc (suc (suc (suc zero))))))) x lo hi h = omega arith
be_value-drop (suc (suc (suc (suc (suc (suc (suc (suc zero)))))))) x lo hi h = omega arith
be_value-drop (suc (suc (suc (suc (suc (suc (suc (suc (suc n))))))))) x lo hi h =
    absurd (omega arith)

-- What a writer puts out for a number of `n` bytes has that value.
pub be_value-tail_bytes :
    (n x : ℕ) → 0 < n → n ≤ 8 → x < 2 ^ (8 * n) → be_value (tail_bytes n x) ≡ x
unfolding tail_bytes
be_value-tail_bytes n x lo hi h = rw (le_bytes-bswap64 x) (be_value-drop n x lo hi h)

pub length-tail_bytes : (n x : ℕ) → n ≤ 8 → length (tail_bytes n x) ≡ n
unfolding tail_bytes
length-tail_bytes n x h = rw (le_bytes-bswap64 x) (omega (arith, length-drop (8 - n) (be_bytes x)))

pub tail_bytes-IsByte : (n x : ℕ) → All IsByte (tail_bytes n x)
unfolding tail_bytes
tail_bytes-IsByte n x = rw (le_bytes-bswap64 x) (All-drop (8 - n) (be_bytes x) (be_bytes-IsByte x))

-- The 32-bit swap of `write_real` gives the same bytes.
pub le_bytes-bswap32 : (x : ℕ) → le_bytes 4 (bswap32 x) ≡ tail_bytes 4 x
unfolding bswap32 tail_bytes
le_bytes-bswap32 x =
    let low = drop 4 (be_bytes x) in
    let swapped : bswap32 x ≡ le_value low = unfold le_value in omega arith in
    ap (le_bytes 4) swapped
    ∙ le_bytes-le_value low (All-drop 4 (be_bytes x) (be_bytes-IsByte x))
    ∙ sym (ap (drop 4) (le_bytes-bswap64 x))
