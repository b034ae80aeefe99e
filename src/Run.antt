-- ===== src/Run.antt =====
-- Results of code that reads memory: a value, a read or write outside the block, or no result
-- because the fuel of the model ran out.
use libplist.Prelude.{Option, none, some, ◌≡◌}

pub data Run {ℓ} (A : Type ℓ) : Type ℓ where
  out_of_fuel : Run A
  fault : Run A
  ok : A → Run A

infixl 5 ◌>>=◌
abbrev pub ◌>>=◌ {ℓ κ} : {A : Type ℓ} {B : Type κ} → Run A → (A → Run B) → Run B
out_of_fuel >>= rest = out_of_fuel
fault >>= rest = fault
ok value >>= rest = rest value

-- An access that stays inside its block.
abbrev pub access {ℓ} : {A : Type ℓ} → Option A → Run A
access none = fault
access (some a) = ok a

-- The code returns a value, and the value satisfies `P`.
pub data Ensures {A : Type 0} (P : A → Type 0) : Run A → Type 0 where
  returns : {r : Run A} (a : A) → r ≡ ok a → P a → Ensures P r

pub Ensures-bind :
    {A B : Type 0} {P : A → Type 0} {Q : B → Type 0} {m : Run A} {f : A → Run B}
    → Ensures P m
    → ((a : A) → P a → Ensures Q (f a))
    → Ensures Q (m >>= f)
Ensures-bind (returns a e p) k = rw e (k a p)

pub Ensures-map :
    {A : Type 0} {P Q : A → Type 0} {r : Run A} → Ensures P r → ((a : A) → P a → Q a) → Ensures Q r
Ensures-map (returns a e p) f = returns a e (f a p)

-- The code returns a value.
abbrev pub Ends : {A : Type 0} → Run A → Type 0
Ends r = Ensures (λ _. Unit {0}) r
