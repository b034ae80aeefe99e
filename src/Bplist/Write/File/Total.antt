-- ===== src/Bplist/Write/File/Total.antt =====
-- `plist_to_bin` ends on any nodes, and finds an index for each reference that it writes.
use libplist.Prelude.{
  ℕ, zero, suc, ◌+◌, ◌≤◌, ◌≡◌, ◌≢◌, refl, ap, subst, arith, List, [], ◌∷◌, ◌++◌, Option, none, some,
}
use libplist.Prelude.{All, All-at, get_elem?-inside, length}
use libplist.PtrArray.Cells.{Models}
use libplist.PtrArray.Operations.{ptr_array_index_lem, ptr_array_size_lem}
use libplist.Run.{Ensures, Ends, returns, Ensures-bind}
use libplist.Bplist.Node.{
  boolean, int, real, string, array, dict, date, bytes, key, uid, null, PlistType, PlistData,
  PlistErr, success,
}
use libplist.Bplist.Parse.Document.{magic}
use libplist.Bplist.Serialize.{
  data_key, Heap, Serialize, Class, class, scalar, text, raw, container,
}
use libplist.Bplist.Serialize.Grown.{HasRef, on_success_intro}
use libplist.Bplist.Serialize.Entered.{serialize_root-Ensures}
use libplist.Bplist.Write.{write_ref, write_refs, write_array, keys_of, values_of, write_dict}
use libplist.Bplist.Write.File.{content_of, write_object, write_objects, write_file, plist_to_bin}

abbrev ClassContent : PlistData → Class → Type 0
ClassContent d c = elim c [
  | scalar ↦ Unit {0}
  | container ↦ Unit {0}
  | text ↦ Ends (content_of d)
  | raw ↦ Ends (content_of d)
]

-- A text or data has the bytes that its length says.
unfoldable pub HasContent : PlistData → Type 0
HasContent d = ClassContent d (class d.kind)

text_content : (d : PlistData) → class d.kind ≡ text → HasContent d → Ends (content_of d)
unfolding HasContent
text_content d e h = subst (ClassContent d) e h

raw_content : (d : PlistData) → class d.kind ≡ raw → HasContent d → Ends (content_of d)
unfolding HasContent
raw_content d e h = subst (ClassContent d) e h

module _ (m : Heap) (narrow : ℕ → Option ℕ) (ser : Serialize) where
  -- All of some nodes are in the reference table.
  abbrev Known : List ℕ → Type 0
  Known nodes = All (HasRef m ser) nodes

  write_refs-Ends :
      (ref_size : ℕ) (nodes : List ℕ) (bplist : List ℕ)
      → Known nodes
      → Ends (write_refs ⦃key = data_key m⦄ ser.ref_table ref_size bplist nodes)
  unfolding write_refs write_ref
  write_refs-Ends ref_size [] bplist h = returns _ refl _
  write_refs-Ends ref_size (c ∷ r) bplist ((index, e), h) = rw e (write_refs-Ends ref_size r _ h)

  Known-keys_of : (nodes : List ℕ) → Known nodes → Known (keys_of ⦃key = data_key m⦄ nodes)
  unfolding keys_of
  Known-keys_of [] h = _
  Known-keys_of (k ∷ []) h = _
  Known-keys_of (k ∷ v ∷ r) (hk, (hv, h)) = (hk, Known-keys_of r h)

  Known-values_of : (nodes : List ℕ) → Known nodes → Known (values_of ⦃key = data_key m⦄ nodes)
  unfolding values_of
  Known-values_of [] h = _
  Known-values_of (k ∷ []) h = _
  Known-values_of (k ∷ v ∷ r) (hk, (hv, h)) = (hv, Known-values_of r h)

  module _ (ref_size : ℕ) (bplist children : List ℕ) (known : Known children) where
    write_array-Ends : Ends (write_array ⦃key = data_key m⦄ bplist children ser.ref_table ref_size)
    unfolding write_array
    write_array-Ends = write_refs-Ends ref_size children _ known

    write_dict-Ends : Ends (write_dict ⦃key = data_key m⦄ bplist children ser.ref_table ref_size)
    unfolding write_dict
    write_dict-Ends =
        Ensures-bind
          (write_refs-Ends ref_size (keys_of ⦃key = data_key m⦄ children) _
            (Known-keys_of children known))
          (λ bplist' _.
            write_refs-Ends ref_size (values_of ⦃key = data_key m⦄ children) bplist'
              (Known-values_of children known))

    -- One clause for each type of node.
    write_kind-Ends :
        (kind : PlistType) (d : PlistData)
        → d.kind ≡ kind
        → HasContent d
        → Ends (write_object m narrow ser.ref_table ref_size bplist d children)
    unfolding write_object HasContent class
    write_kind-Ends null d e h = rw (write_object, e) (returns _ refl _)
    write_kind-Ends boolean d e h = rw (write_object, e) (returns _ refl _)
    write_kind-Ends int d e h = rw (write_object, e) (returns _ refl _)
    write_kind-Ends real d e h = rw (write_object, e) (returns _ refl _)
    write_kind-Ends date d e h = rw (write_object, e) (returns _ refl _)
    write_kind-Ends uid d e h = rw (write_object, e) (returns _ refl _)
    write_kind-Ends array d e h = rw (write_object, e) write_array-Ends
    write_kind-Ends dict d e h = rw (write_object, e) write_dict-Ends
    write_kind-Ends key d e h =
        rw (write_object, e)
          (Ensures-bind (text_content d (ap class e) h) (λ val _. returns _ refl _))
    write_kind-Ends string d e h =
        rw (write_object, e)
          (Ensures-bind (text_content d (ap class e) h) (λ val _. returns _ refl _))
    write_kind-Ends bytes d e h =
        rw (write_object, e)
          (Ensures-bind (raw_content d (ap class e) h) (λ val _. returns _ refl _))

  -- The loop over the objects, from index `i` on.
  write_objects-Ends :
      (nodes : List ℕ)
      → Models nodes ser.objects
      → All (λ a. Known (m.children a)) nodes
      → ((a : ℕ) → HasContent (m.data_of a))
      → (ref_size n i : ℕ) (bplist offsets : List ℕ) → i + n ≤ length nodes
      → Ends (write_objects m narrow ser.ref_table ref_size ser.objects n i bplist offsets)
  unfolding write_objects
  write_objects-Ends nodes listed closed content ref_size zero i bplist offsets h = returns _ refl _
  write_objects-Ends nodes listed closed content ref_size (suc n) i bplist offsets h =
      let (node, e) = get_elem?-inside nodes i (omega arith) in
      rw (ptr_array_index_lem nodes ser.objects i listed, e)
        (Ensures-bind
          (write_kind-Ends ref_size bplist (m.children node)
            (All-at (λ a. Known (m.children a)) nodes i node closed e) (m.data_of node).kind
            (m.data_of node) refl (content node))
          (λ bplist' _.
            write_objects-Ends nodes listed closed content ref_size n (i + 1) bplist'
              (offsets ++ (length bplist ∷ [])) (omega arith)))

  write_file-Ends :
      (nodes : List ℕ)
      → Models nodes ser.objects
      → All (λ a. Known (m.children a)) nodes
      → ((a : ℕ) → HasContent (m.data_of a))
      → Ends (write_file m narrow ser)
  unfolding write_file
  write_file-Ends nodes listed closed content =
      Ensures-bind
        (write_objects-Ends nodes listed closed content _ _ 0 magic []
          (omega (arith, ptr_array_size_lem nodes ser.objects listed)))
        (λ p _. returns _ refl _)

-- The answer's two parts agree: a file with PLIST_ERR_SUCCESS, and none with any other code.
abbrev pub IsReply : {F : Type 0} → PlistErr × Option F → Type 0
IsReply (e, none) = e ≢ success
IsReply (e, some f) = e ≡ success

module _ (m : Heap) (narrow : ℕ → Option ℕ) where
  -- plist_to_bin always returns, on cyclic nodes and any depth too, and has a file exactly when it
  -- reports success; each reference that it writes is in the table of indices, which compares nodes
  -- with plist_data_compare and hashes them with plist_data_hash, so it never reads through NULL;
  -- if the texts and data of all nodes have the bytes that their lengths say.
  pub plist_to_bin-Ensures :
      (root : ℕ)
      → ((a : ℕ) → HasContent (m.data_of a))
      → Ensures IsReply (plist_to_bin m narrow root)
  unfolding plist_to_bin write_file
  plist_to_bin-Ensures root content =
      Ensures-bind (serialize_root-Ensures m root) (λ q (_, v, closed).
        on_success_intro (Ensures IsReply) q.0
          (λ done.
            Ensures-bind (write_file-Ends m narrow q.1 v.nodes v.listed (closed done) content)
              (λ bplist _. returns _ refl refl))
          (λ failed. returns _ refl failed))
