-- ===== src/Prelude/Text.antt =====
-- Text as bytes.
use Prim.Native.Nat.{ℕ, zero, suc, ◌<◌}
use Prim.Native.Char.{code}
use Prim.Native.String.{String}
use mathlib.Core.Path.{◌≡◌, refl, ap}
use mathlib.Core.Bool.{Bool, true, false, ◌&&◌, ◌||◌}
use mathlib.Core.List.{List, [], ◌∷◌, ◌++◌}
use mathlib.Core.Option
use mathlib.Core.Option.{Option, none, some}
use mathlib.Core.Logic.{◌↔◌, ◌≢◌, ◌⊎◌, inl, inr}
use native.Mathlib.Omega.{arith}
use talon_rpc.Prelude.Tests.{◌==◌, ltb, if◌then◌else◌, Bool-cases, ==_iff}
use talon_rpc.Prelude.Lists.{All, length, take, drop}

-- The bytes of an ASCII literal. `String` has its own `[]` and `∷`.
abbrev pub codes : String → List ℕ
codes String.[] = []
codes (String.◌∷◌ c s) = code c ∷ codes s

-- `==` of two `std::string`s.
unfoldable pub str_eq : List ℕ → List ℕ → Bool
str_eq [] [] = true
str_eq [] (y ∷ ys) = false
str_eq (x ∷ xs) [] = false
str_eq (x ∷ xs) (y ∷ ys) = (x == y) && str_eq xs ys

pub str_eq_refl : (xs : List ℕ) → str_eq xs xs ≡ true
unfolding str_eq
str_eq_refl [] = refl
str_eq_refl (x ∷ xs) = ground (arith, str_eq_refl xs)

pub str_eq_iff : (xs ys : List ℕ) → (str_eq xs ys ≡ true) ↔ (xs ≡ ys)
unfolding str_eq
str_eq_iff [] [] = ground arith
str_eq_iff [] (y ∷ ys) = ground arith
str_eq_iff (x ∷ xs) [] = ground arith
str_eq_iff (x ∷ xs) (y ∷ ys) = ground (arith, str_eq_iff xs ys)

-- `s.find_first_of(c)`; none is npos.
unfoldable pub find_first_of : ℕ → List ℕ → Option ℕ
find_first_of c [] = none
find_first_of c (x ∷ s) = if x == c then some 0 else Option.map suc (find_first_of c s)

-- Bytes without the byte c.
abbrev pub Without : ℕ → List ℕ → Type 0
Without c = All (λ x. x ≢ c)

pub find_first_of-append :
    (c : ℕ) (s r : List ℕ) → Without c s → find_first_of c (s ++ c ∷ r) ≡ some (length s)
unfolding find_first_of
find_first_of-append c [] r h = ground arith
find_first_of-append c (x ∷ s) r h =
    let other : (x == c) ≡ false = ground (arith, h.0) in rw (other, find_first_of-append c s r h.1)

pub find_first_of-Without : (c : ℕ) (s : List ℕ) → Without c s → find_first_of c s ≡ none
unfolding find_first_of
find_first_of-Without c [] h = refl
find_first_of-Without c (x ∷ s) h =
    let other : (x == c) ≡ false = ground (arith, h.0) in rw (other, find_first_of-Without c s h.1)

-- A text with the byte is cut at its first place.
pub find_first_of-cases :
    (c : ℕ) (s : List ℕ)
    → ((find_first_of c s ≡ none) × Without c s)
      ⊎ ((i : ℕ) × (find_first_of c s ≡ some i)
          × Without c (take i s)
          × (s ≡ take i s ++ c ∷ drop (suc i) s))
unfolding find_first_of
find_first_of-cases c [] = inl (refl, tt)
find_first_of-cases c (x ∷ s) = elim (Bool-cases (x == c)) [
  | inl e ↦ inr (0, rw e, tt, rw ((==_iff x c).0 e))
  | inr e ↦ elim (find_first_of-cases c s) [
    | inl (f, w) ↦ inl (rw (e, f), (λ t. ground arith, w))
    | inr (i, f, w, cut) ↦ inr (suc i, rw (e, f), (λ t. ground arith, w), ap (◌∷◌ x) cut)
  ]
]

-- `std::string(buffer)`: the bytes before the first 0.
unfoldable pub c_prefix : List ℕ → List ℕ
c_prefix [] = []
c_prefix (zero ∷ s) = []
c_prefix (suc c ∷ s) = suc c ∷ c_prefix s

pub c_prefix-NoNul : (s : List ℕ) → All (λ c. 0 < c) s → c_prefix s ≡ s
unfolding c_prefix
c_prefix-NoNul [] h = refl
c_prefix-NoNul (zero ∷ s) h = absurd (omega arith)
c_prefix-NoNul (suc c ∷ s) h = ap (◌∷◌ (suc c)) (c_prefix-NoNul s h.1)

-- `<` of two std::strings: by their bytes.
unfoldable pub str_lt : List ℕ → List ℕ → Bool
str_lt xs [] = false
str_lt [] (y ∷ ys) = true
str_lt (x ∷ xs) (y ∷ ys) = ltb x y || ((x == y) && str_lt xs ys)
