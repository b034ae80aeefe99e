-- ===== src/Bplist/Parse/Containers.antt =====
-- The parsers of arrays and dictionaries stay inside the buffer, if the parser of a node does.
use libplist.Prelude.{ℕ, zero, suc, ◌+◌, ◌*◌, ◌%◌, ◌^◌, ◌≡◌, refl, arith, false, ◌||◌}
use libplist.Prelude.{Option, none, some, leb, if◌then◌else◌, if_intro, option_intro}
use libplist.Run.{ok, returns, Ensures-bind}
use libplist.Bplist.Node.{Tree}
use libplist.Bplist.Parse.{BplistData, AtIndex, ref_outside, read_ref, array_loop, parse_array_node}
use libplist.Bplist.Parse.{as_key, dict_entry, dict_loop, parse_dict_node}
use libplist.Bplist.Parse.Valid.{IsValid, Keeps}
use libplist.Bplist.Parse.Words.{uint_to_host_inside}

module _ (tree : Tree) (widen : ℕ → ℕ) where
  read_ref-ok :
      (s : BplistData) (p : ℕ)
      → IsValid s
      → ref_outside s p ≡ false
      → (r : Option ℕ) × (read_ref tree widen s p ≡ ok r)
  unfolding ref_outside read_ref
  read_ref-ok s p v h =
      let (index, e, _) =
        uint_to_host_inside s.buf p s.ref_size (ground (arith, v.sized, v.table, v.refs))
          (ground (arith, v.sized, v.table, v.refs)) in
      (if leb s.num_objects index then none else some index, rw e)

  module _ (self : AtIndex tree widen) (level : ℕ)
      (keeps : (s : BplistData) (i : ℕ)
        → IsValid s
        → s.level ≡ level
        → Keeps level (self s i)) where
    array_loop-Keeps :
        (s : BplistData) (bnode j n : ℕ) (node : tree.Node)
        → IsValid s
        → s.level ≡ level
        → Keeps level (array_loop tree widen self s bnode j n node)
    unfolding array_loop
    array_loop-Keeps s bnode j zero node v e = returns _ refl (v, e)
    array_loop-Keeps s bnode j (suc n) node v e =
        let p = bnode + j * s.ref_size % 2 ^ 64 in
        if_intro (Keeps level) (ref_outside s p) (λ _. returns _ refl (v, e))
          (λ inside.
            let (r, er) = read_ref-ok s p v inside in
            rw er (
              option_intro (Keeps level) r (λ _. returns _ refl (v, e))
                (λ index _. Ensures-bind (keeps s (index % 2 ^ 32) v e) (λ q vq.
                  option_intro (Keeps level) q.0 (λ _. returns _ refl vq)
                    (λ val _.
                      array_loop-Keeps q.1 bnode (j + 1) n (tree.node_attach node val) vq.0
                        vq.1)))))

    pub parse_array_node-Keeps :
        (s : BplistData) (bnode size : ℕ)
        → IsValid s
        → s.level ≡ level
        → Keeps level (parse_array_node tree widen self s bnode size)
    unfolding parse_array_node
    parse_array_node-Keeps s bnode size v e = array_loop-Keeps s bnode 0 size _ v e

    dict_entry-Keeps :
        (s : BplistData) (index1 index2 : ℕ) (node : tree.Node)
        → IsValid s
        → s.level ≡ level
        → Keeps level (dict_entry tree widen self s index1 index2 node)
    unfolding dict_entry
    dict_entry-Keeps s index1 index2 node v e =
        Ensures-bind (keeps s (index1 % 2 ^ 32) v e) (λ q vq.
          option_intro (Keeps level) q.0 (λ _. returns _ refl vq)
            (λ k _.
              option_intro (Keeps level) (as_key tree widen k) (λ _. returns _ refl vq)
                (λ k' _. Ensures-bind (keeps q.1 (index2 % 2 ^ 32) vq.0 vq.1) (λ q' vq'.
                  option_intro (Keeps level) q'.0 (λ _. returns _ refl vq')
                    (λ val _. returns _ refl vq')))))

    dict_loop-Keeps :
        (s : BplistData) (bnode size j n : ℕ) (node : tree.Node)
        → IsValid s
        → s.level ≡ level
        → Keeps level (dict_loop tree widen self s bnode size j n node)
    unfolding dict_loop
    dict_loop-Keeps s bnode size j zero node v e = returns _ refl (v, e)
    dict_loop-Keeps s bnode size j (suc n) node v e =
        let p1 = bnode + j * s.ref_size % 2 ^ 64 in
        let p2 = bnode + (j + size) * s.ref_size % 2 ^ 64 in
        if_intro (Keeps level) (ref_outside s p1 || ref_outside s p2) (λ _. returns _ refl (v, e))
          (λ inside.
            let (r1, e1) = read_ref-ok s p1 v (ground arith) in
            let (r2, e2) = read_ref-ok s p2 v (ground arith) in
            rw (e1, e2)
              (option_intro (Keeps level) r1 (λ _. returns _ refl (v, e))
                (λ index1 _.
                  option_intro (Keeps level) r2 (λ _. returns _ refl (v, e))
                    (λ index2 _. Ensures-bind (dict_entry-Keeps s index1 index2 node v e) (λ q vq.
                      option_intro (Keeps level) q.0 (λ _. returns _ refl vq)
                        (λ node' _. dict_loop-Keeps q.1 bnode size (j + 1) n node' vq.0 vq.1))))))

    pub parse_dict_node-Keeps :
        (s : BplistData) (bnode size : ℕ)
        → IsValid s
        → s.level ≡ level
        → Keeps level (parse_dict_node tree widen self s bnode size)
    unfolding parse_dict_node
    parse_dict_node-Keeps s bnode size v e = dict_loop-Keeps s bnode size 0 size _ v e
