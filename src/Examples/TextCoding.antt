-- ===== src/Examples/TextCoding.antt =====
-- Base64 on small inputs.
use libplist.Prelude.{ℕ, ◌+◌, ◌*◌, ◌/◌, ◌≤◌, ◌≡◌, refl, arith, List, [], ◌∷◌, some, length}
use libplist.Base64.{base64encode, base64decode, encode_group, push, is_space}
use libplist.Base64.RoundTrip.{base64decode-base64encode}
use libplist.Base64.Bounds.{base64decode_fits, length-base64encode, base64decode-insert_space}

-- "Ma" and its encoding "TWE=".
abbrev plain : List ℕ
plain = b'M' ∷ b'a' ∷ []

abbrev coded : List ℕ
coded = b'T' ∷ b'W' ∷ b'E' ∷ b'=' ∷ []

encode_plain : base64encode plain ≡ coded
unfolding base64encode encode_group
encode_plain = refl

decode_coded : base64decode coded ≡ some plain
unfolding base64decode push
decode_coded = refl

base64decode-base64encode_example : base64decode (base64encode plain) ≡ some plain
base64decode-base64encode_example = base64decode-base64encode plain (λ e. cc) (omega arith)

base64decode_fits_example : 2 + 1 ≤ 4 / 4 * 3 + 3
base64decode_fits_example = base64decode_fits coded plain decode_coded

length-base64encode_example : length (base64encode plain) ≡ (length plain + 2) / 3 * 4
length-base64encode_example = length-base64encode plain

base64decode-insert_space_example :
    base64decode (b'T' ∷ 0x0A ∷ b'W' ∷ b'E' ∷ b'=' ∷ []) ≡ base64decode coded
unfolding is_space
base64decode-insert_space_example =
    base64decode-insert_space (b'T' ∷ []) (b'W' ∷ b'E' ∷ b'=' ∷ []) 0x0A refl (λ e. cc)
