-- ===== src/Prelude/Dict.antt =====
-- std::map with std::string keys: an association list, in the order of the keys where `assign` and
-- `insert` make it.
use Prim.Native.Nat.{ℕ}
use mathlib.Core.Path.{◌≡◌, refl, ◌∙◌}
use mathlib.Core.List.{List, [], ◌∷◌}
use mathlib.Core.Option.{Option, none, some}
use native.Mathlib.Omega.{arith}
use talon_rpc.Prelude.Tests.{if◌then◌else◌}
use talon_rpc.Prelude.Text.{str_eq, str_lt, str_eq_iff, str_eq_refl}

abbrev pub Dict {ℓ} : Type ℓ → Type ℓ
Dict V = List (List ℕ × V)

module _ {ℓ} {V : Type ℓ} where
  -- find
  unfoldable pub lookup : List ℕ → Dict V → Option V
  lookup k [] = none
  lookup k ((j, v) ∷ m) = if str_eq j k then some v else lookup k m

  -- m[k] = v
  unfoldable pub assign : List ℕ → V → Dict V → Dict V
  assign k v [] = (k, v) ∷ []
  assign k v ((j, w) ∷ m) =
      let rest = assign k v m in
      if str_eq j k then (k, v) ∷ m else if str_lt k j then (k, v) ∷ (j, w) ∷ m else (j, w) ∷ rest

  -- insert, which keeps the value that a key has.
  unfoldable pub insert : List ℕ → V → Dict V → Dict V
  insert k v m = elim (lookup k m) [ none ↦ assign k v m | some w ↦ m ]

  -- erase by key
  unfoldable pub erase : List ℕ → Dict V → Dict V
  erase k [] = []
  erase k ((j, w) ∷ m) = if str_eq j k then erase k m else (j, w) ∷ erase k m

  pub lookup-assign :
      (k j : List ℕ) (v : V) (m : Dict V)
      → lookup j (assign k v m) ≡ (if str_eq k j then some v else lookup j m)
  unfolding lookup assign
  lookup-assign k j v [] = refl
  lookup-assign k j v ((i, w) ∷ m) =
      ground (arith, str_eq_iff k j, str_eq_iff i k, str_eq_iff i j, lookup-assign k j v m)

  pub lookup-erase :
      (k j : List ℕ) (m : Dict V) → lookup j (erase k m) ≡ (if str_eq k j then none else lookup j m)
  unfolding lookup erase
  lookup-erase k j [] = ground arith
  lookup-erase k j ((i, w) ∷ m) =
      ground (arith, str_eq_iff k j, str_eq_iff i k, str_eq_iff i j, lookup-erase k j m)

  pub lookup-insert :
      (k : List ℕ) (v : V) (m : Dict V) → lookup k m ≡ none → lookup k (insert k v m) ≡ some v
  unfolding insert
  lookup-insert k v m e = rw (insert, e) (lookup-assign k k v m ∙ rw (str_eq_refl k))
