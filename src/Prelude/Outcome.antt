-- ===== src/Prelude/Outcome.antt =====
-- The result of running a piece of the C++ code.
use mathlib.Core.Bool.{Bool, true, false}
use mathlib.Core.Path.{◌≡◌, refl}
use mathlib.Core.Option.{Option, none, some}

-- `fault` is undefined behaviour, such as an access out of bounds or an overflow of an `int`;
-- `uncaught` is a C++ exception that leaves the code modelled; `stuck` is no C++ result: the fuel of
-- a loop ran out.
pub data Outcome {ℓ} (A : Type ℓ) : Type ℓ where
  ok : A → Outcome A
  fault uncaught stuck : Outcome A

infixl 5 ◌>>=◌ ◌>>◌
abbrev pub ◌>>=◌ {ℓ κ} : {A : Type ℓ} {B : Type κ} → Outcome A → (A → Outcome B) → Outcome B
ok a >>= f = f a
fault >>= f = fault
uncaught >>= f = uncaught
stuck >>= f = stuck

abbrev pub ◌>>◌ {ℓ} : {B : Type ℓ} → Outcome (Unit {0}) → Outcome B → Outcome B
m >> k = m >>= λ _. k

-- What the code takes for granted: undefined behaviour where it fails.
abbrev pub require : Bool → Outcome (Unit {0})
require true = ok tt
require false = fault

-- What is not there cannot be read.
abbrev pub or_fault {ℓ} : {A : Type ℓ} → Option A → Outcome A
or_fault none = fault
or_fault (some a) = ok a

-- A run of two steps that succeeds has a state between them.
pub bind-ok {ℓ κ} :
    {A : Type ℓ} {B : Type κ} (m : Outcome A) (f : A → Outcome B) (b : B)
    → (m >>= f) ≡ ok b
    → (a : A) × (m ≡ ok a) × (f a ≡ ok b)
bind-ok (ok a) f b e = (a, refl, e)
bind-ok fault f b e = cc
bind-ok uncaught f b e = cc
bind-ok stuck f b e = cc
