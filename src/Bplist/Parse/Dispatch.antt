-- ===== src/Bplist/Parse/Dispatch.antt =====
-- Every case of `parse_bin_node` stays inside the buffer, if the parser of a reference does.
use libplist.Prelude.{ℕ, ◌+◌, ◌*◌, ◌%◌, ◌^◌, ◌<◌, ◌≤◌, ◌≡◌, refl, arith, true, false, ◌||◌, not}
use libplist.Prelude.{
  Option, none, some, ◌==◌, ==_iff, ltb, if◌then◌else◌, length, if_intro, option_intro,
}
use native.Mathlib.Nat.{pow-le-pow_right}
use libplist.Run.{ok, returns, Ensures-bind}
use libplist.Bplist.Node.{Tree}
use libplist.Bplist.Scalar.{Parsed}
use libplist.Bplist.Parse.{BplistData, AtIndex, Header, data_outside, end_outside, has_long_size}
use libplist.Bplist.Parse.{leaf, dispatch, parse_bin_node}
use libplist.Bplist.Parse.Valid.{IsValid, Keeps}
use libplist.Bplist.Parse.Leaves.{
  Returns, parse_int_node-Returns, parse_real_node-Returns, parse_date_node-Returns,
  parse_string_node-Returns, parse_unicode_node-Returns, parse_data_node-Returns,
  parse_uid_node-Returns, parse_null_node-Returns,
}
use libplist.Bplist.Parse.Containers.{parse_array_node-Keeps, parse_dict_node-Keeps}
use libplist.Bplist.Parse.Nodes.{
  data_outside-inside, end_outside-inside, IsHeader, parse_header-Ensures,
}

pow-le : (i : ℕ) → i ≤ 15 → 2 ^ i ≤ 2 ^ 15
pow-le i h = pow-le-pow_right {n = 2} (omega arith) h

module _ (tree : Tree) (widen : ℕ → ℕ) (level : ℕ) (s : BplistData) (v : IsValid s)
    (at : s.level ≡ level) where
  leaf-Keeps : (r : Parsed) → Returns r → Keeps level (leaf tree widen s r)
  unfolding leaf
  leaf-Keeps r (d, e) = rw e (
      returns (elim d [ none ↦ (none, s) | some d' ↦ (some (tree.node_create d'), s) ]) refl
        (option_intro (λ (q : Option tree.Node × BplistData). IsValid q.1 × (q.1.level ≡ level)) d
          (λ _. (v, at)) (λ d' _. (v, at))))

  module _ (tag size object : ℕ) (ho : object ≤ s.offset_table) (hs : size < 2 ^ 64)
      (short : has_long_size tag ≡ false → size ≤ 15) where
    near : object + 8 ≤ length s.buf
    near = omega (arith, v.sized, v.table)

    -- A test `end_outside` before a leaf of at most 2 ^ 15 bytes.
    end-Keeps :
        (n : ℕ) (r : Parsed)
        → n ≤ 2 ^ 15
        → (object + n ≤ length s.buf → Returns r)
        → Keeps level (if end_outside s object n then ok (none, s) else leaf tree widen s r)
    end-Keeps n r small f =
        if_intro (Keeps level) (end_outside s object n) (λ _. returns _ refl (v, at))
          (λ e. leaf-Keeps r (
            f (
              omega (
                arith,
                v.sized,
                v.table,
                end_outside-inside s object n v (omega (arith, v.table)) small e,
              ))))

    data-Keeps :
        (n : ℕ) (r : Parsed)
        → n < 2 ^ 64
        → (object + n ≤ length s.buf → Returns r)
        → Keeps level (if data_outside s object n then ok (none, s) else leaf tree widen s r)
    data-Keeps n r small f =
        if_intro (Keeps level) (data_outside s object n) (λ _. returns _ refl (v, at))
          (λ e. leaf-Keeps r (
            f (
              omega (
                arith,
                v.sized,
                v.table,
                data_outside-inside s object n v (omega (arith, v.table)) small e,
              ))))

    -- The size of a node whose size does not stand in a node of its own.
    few : (t : ℕ) → (tag == t) ≡ true → has_long_size t ≡ false → size ≤ 15
    few t e f = short (rw ((==_iff tag t).0 e) f)

    unicode_fits :
        (ltb (size * 2 % 2 ^ 64) size || data_outside s object (size * 2 % 2 ^ 64)) ≡ false
        → object + 2 * size ≤ length s.buf
    unicode_fits e =
        let n = size * 2 % 2 ^ 64 in
        let whole : n ≡ size * 2 = ground arith in
        omega (
          arith,
          v.sized,
          v.table,
          whole,
          data_outside-inside s object n v (omega (arith, v.table)) (omega arith) (ground arith),
        )

    module _ (self : AtIndex tree widen)
        (keeps : (s' : BplistData) (i : ℕ)
          → IsValid s'
          → s'.level ≡ level
          → Keeps level (self s' i)) where
      dispatch-Keeps : Keeps level (dispatch tree widen self s tag size object)
      unfolding dispatch has_long_size
      dispatch-Keeps =
          if_intro (Keeps level) (tag == 0x00) (λ _. leaf-Keeps _ (parse_null_node-Returns size))
            (λ _.
              if_intro (Keeps level) (tag == 0x10)
                (λ t.
                  end-Keeps (2 ^ size) _ (pow-le size (few 0x10 t refl))
                    (parse_int_node-Returns s.buf object size near))
                (λ _.
                  if_intro (Keeps level) (tag == 0x20)
                    (λ t.
                      end-Keeps (2 ^ size) _ (pow-le size (few 0x20 t refl))
                        (λ _. parse_real_node-Returns s.buf object size near widen))
                    (λ _.
                      if_intro (Keeps level) (tag == 0x30)
                        (λ t.
                          if_intro (Keeps level)
                            (not (size == 3) || end_outside s object (2 ^ size))
                            (λ _. returns _ refl (v, at))
                            (λ e. leaf-Keeps _ (
                              parse_date_node-Returns s.buf object size near widen (ground arith))))
                        (λ _.
                          if_intro (Keeps level) (tag == 0x40)
                            (λ t.
                              data-Keeps size _ hs (parse_data_node-Returns s.buf object size near))
                            (λ _.
                              if_intro (Keeps level) (tag == 0x50)
                                (λ t.
                                  data-Keeps size _ hs
                                    (parse_string_node-Returns s.buf object size near))
                                (λ _.
                                  if_intro (Keeps level) (tag == 0x60)
                                    (λ t.
                                      if_intro (Keeps level)
                                        (ltb (size * 2 % 2 ^ 64) size
                                          || data_outside s object (size * 2 % 2 ^ 64))
                                        (λ _. returns _ refl (v, at))
                                        (λ e. leaf-Keeps _ (
                                          parse_unicode_node-Returns s.buf object size near
                                            (unicode_fits e))))
                                    (λ _.
                                      if_intro (Keeps level) (tag == 0xA0 || tag == 0xC0)
                                        (λ t.
                                          if_intro (Keeps level) (data_outside s object size)
                                            (λ _. returns _ refl (v, at))
                                            (λ _.
                                              parse_array_node-Keeps tree widen self level keeps s
                                                object size v at))
                                        (λ _.
                                          if_intro (Keeps level) (tag == 0x80)
                                            (λ t.
                                              end-Keeps (size + 1) _
                                                (omega (arith, few 0x80 t refl))
                                                (parse_uid_node-Returns s.buf object size near))
                                            (λ _.
                                              if_intro (Keeps level) (tag == 0xD0)
                                                (λ t.
                                                  if_intro (Keeps level)
                                                    (data_outside s object size)
                                                    (λ _. returns _ refl (v, at))
                                                    (λ _.
                                                      parse_dict_node-Keeps tree widen self level
                                                        keeps s object size v at))
                                                (λ _. returns _ refl (v, at)))))))))))

-- A node parsed at an offset between the header and the offset table.
pub parse_bin_node-Keeps :
    (tree : Tree) (widen : ℕ → ℕ) (level : ℕ) (s : BplistData) (self : AtIndex tree widen) (p : ℕ)
    → ((s' : BplistData) (i : ℕ) → IsValid s' → s'.level ≡ level → Keeps level (self s' i))
    → IsValid s
    → s.level ≡ level
    → p < s.offset_table
    → Keeps level (parse_bin_node tree widen self s p)
unfolding parse_bin_node
parse_bin_node-Keeps tree widen level s self p keeps v at h =
    Ensures-bind (parse_header-Ensures s p v h) after
  where
    after :
        (r : Option Header)
        → IsHeader s r
        → Keeps level (elim r [
          | none ↦ ok (none, s)
          | some h' ↦ dispatch tree widen self s h'.tag h'.size h'.object
        ])
    after none _ = returns _ refl (v, at)
    after (some h') (ho, hs, short) =
        dispatch-Keeps tree widen level s v at h'.tag h'.size h'.object ho hs short self keeps
