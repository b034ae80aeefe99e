-- ===== src/Bplist/Parse/Leaves.antt =====
-- The parsers of nodes without children stay inside the buffer.
use libplist.Prelude.{ℕ, ◌+◌, ◌*◌, ◌^◌, ◌≤◌, ◌≡◌, refl, arith, ◌||◌}
use libplist.Prelude.{List, Option, none, ◌==◌, length, if_intro}
use libplist.Run.{Run, ok, ◌>>=◌}
use libplist.Bplist.Node.{PlistData}
use libplist.Bplist.Scalar.{
  Parsed, byte_size, parse_int_node, parse_real_node, parse_date_node, parse_string_node,
  parse_unicode_node, parse_data_node, parse_uid_node, parse_null_node,
}
use libplist.Bplist.Parse.Words.{load-ok, get_unaligned-ok, uint_to_host_inside}

abbrev pub Returns : Parsed → Type 0
Returns r = (d : Option PlistData) × (r ≡ ok d)

bind-Returns :
    {A : Type 0} {m : Run A} {f : A → Parsed}
    → (a : A) × (m ≡ ok a)
    → ((a : A) → Returns (f a))
    → Returns (m >>= f)
bind-Returns (a, e) k = rw e (k a)

module _ (buf : List ℕ) (bnode size : ℕ) (near : bnode + 8 ≤ length buf) where
  pub parse_int_node-Returns :
      bnode + 2 ^ size ≤ length buf → Returns (parse_int_node buf bnode size)
  unfolding parse_int_node
  parse_int_node-Returns h =
      let (v, e, _) = uint_to_host_inside buf bnode (byte_size size) (omega arith) near in
      let n = byte_size size in
      if_intro Returns (n == 1 || n == 2 || n == 4 || n == 8)
        (λ _. bind-Returns (v, e) (λ v. (_, refl)))
        (λ _.
          if_intro Returns (n == 16) (λ _. bind-Returns (v, e) (λ v. (_, refl)))
            (λ _. (none, refl)))

  pub parse_real_node-Returns : (widen : ℕ → ℕ) → Returns (parse_real_node widen buf bnode size)
  unfolding parse_real_node
  parse_real_node-Returns widen =
      let n = byte_size size in
      if_intro Returns (n == 4)
        (λ _. bind-Returns (_, get_unaligned-ok buf bnode 4 (omega arith)) (λ v. (_, refl)))
        (λ _.
          if_intro Returns (n == 8)
            (λ _. bind-Returns (_, get_unaligned-ok buf bnode 8 (omega arith)) (λ v. (_, refl)))
            (λ _. (none, refl)))

  -- A date has eight bytes, so the real parsed for it is not NULL.
  pub parse_date_node-Returns :
      (widen : ℕ → ℕ) → size ≡ 3 → Returns (parse_date_node widen buf bnode size)
  unfolding parse_date_node parse_real_node
  parse_date_node-Returns widen three = rw (three, get_unaligned-ok buf bnode 8 near) (_, refl)

  pub parse_string_node-Returns :
      bnode + size ≤ length buf → Returns (parse_string_node buf bnode size)
  unfolding parse_string_node
  parse_string_node-Returns h = bind-Returns (_, load-ok buf bnode size h) (λ s. (_, refl))

  pub parse_unicode_node-Returns :
      bnode + 2 * size ≤ length buf → Returns (parse_unicode_node buf bnode size)
  unfolding parse_unicode_node
  parse_unicode_node-Returns h = bind-Returns (_, load-ok buf bnode (2 * size) h) (λ s. (_, refl))

  pub parse_data_node-Returns : bnode + size ≤ length buf → Returns (parse_data_node buf bnode size)
  unfolding parse_data_node
  parse_data_node-Returns h = bind-Returns (_, load-ok buf bnode size h) (λ s. (_, refl))

  pub parse_uid_node-Returns :
      bnode + (size + 1) ≤ length buf → Returns (parse_uid_node buf bnode size)
  unfolding parse_uid_node
  parse_uid_node-Returns h =
      let (v, e, _) = uint_to_host_inside buf bnode (size + 1) h near in
      bind-Returns (v, e) (λ w. (_, refl))

pub parse_null_node-Returns : (size : ℕ) → Returns (parse_null_node size)
unfolding parse_null_node
parse_null_node-Returns size =
    if_intro Returns (size == 9) (λ _. (_, refl))
      (λ _.
        if_intro Returns (size == 8) (λ _. (_, refl))
          (λ _. if_intro Returns (size == 0) (λ _. (_, refl)) (λ _. (_, refl))))
