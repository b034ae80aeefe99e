-- ===== src/Plist/Children.antt =====
-- The lists of children that the tree library keeps: replacing an item where another was taken out.
use libplist.Prelude.{ℕ, zero, suc, ◌<◌, ◌≡◌, refl, ap, arith, List, [], ◌∷◌, none, some}
use libplist.Prelude.{length, get_elem?, set}
use libplist.PtrArray.Cells.{insert_at, remove_at}
use libplist.Plist.Nodes.{NodeLib, Store, plist_free}

pub insert_at-remove_at :
    (i a : ℕ) (xs : List ℕ) → i < length xs → insert_at i a (remove_at i xs) ≡ set xs i a
unfolding insert_at remove_at
insert_at-remove_at i a [] h = absurd (omega arith)
insert_at-remove_at zero a (x ∷ []) h = refl
insert_at-remove_at zero a (x ∷ y ∷ xs) h = refl
insert_at-remove_at (suc i) a (x ∷ xs) h =
    ap (λ r. x ∷ r) (insert_at-remove_at i a xs (omega arith))

pub set_present : (i a : ℕ) (xs : List ℕ) → get_elem? xs i ≡ some a → set xs i a ≡ xs
set_present i a [] h = refl
set_present zero a (x ∷ xs) h = cc
set_present (suc i) a (x ∷ xs) h = ap (λ r. x ∷ r) (set_present i a xs h)

pub set-set : (i a : ℕ) (xs : List ℕ) → set (set xs i a) i a ≡ set xs i a
set-set i a [] = refl
set-set zero a (x ∷ xs) = refl
set-set (suc i) a (x ∷ xs) = ap (λ r. x ∷ r) (set-set i a xs)

pub present-lt : (xs : List ℕ) (i a : ℕ) → get_elem? xs i ≡ some a → i < length xs
present-lt [] i a h = cc
present-lt (x ∷ xs) zero a h = omega arith
present-lt (x ∷ xs) (suc i) a h = omega (arith, present-lt xs i a h)

pub free_orphan :
    (lib : NodeLib) (s : Store lib) (c : ℕ) → lib.parent s.mem c ≡ none → plist_free lib s c ≡ s
unfolding plist_free
free_orphan lib s c e = rw (plist_free, e)
