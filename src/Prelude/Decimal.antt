-- ===== src/Prelude/Decimal.antt =====
-- std::to_string and atoi.
use talon_rpc.Prelude.Tests.{ltb, leb, ◌==◌, if◌then◌else◌, Bool-cases}
use talon_rpc.Prelude.Lists.{length, All, length-append}
use talon_rpc.Prelude.Int.{ℤ, pos, negsuc, fits_int32, sub_ℕ}
use talon_rpc.Prelude.Outcome.{Outcome, ok, require, ◌>>◌}
use Prim.Native.Nat.{ℕ, zero, suc, ◌+◌, ◌-◌, ◌*◌, ◌/◌, ◌%◌, ◌<◌, ◌≤◌}
use mathlib.Core.Path.{◌≡◌, refl, ap, ◌∙◌}
use mathlib.Core.Bool.{Bool, true, false, ◌&&◌, ◌||◌}
use mathlib.Core.List.{List, [], ◌∷◌, ◌++◌}
use mathlib.Core.Logic.{inl, inr}
use native.Mathlib.Omega.{arith}

unfoldable pub digits : ℕ → ℕ → List ℕ
digits zero n = []
digits (suc fuel) n =
    let more = digits fuel (n / 10) in
    if ltb n 10 then (b'0' + n) ∷ [] else (more ++ ((b'0' + n % 10) ∷ []))

-- std::to_string of an int: n has at most n + 1 digits.
unfoldable pub to_string : ℤ → List ℕ
unfolding digits
to_string (pos n) = digits (suc n) n
to_string (negsuc n) = b'-' ∷ digits (suc (suc n)) (suc n)

abbrev pub is_digit : ℕ → Bool
is_digit c = leb b'0' c && leb c b'9'

abbrev is_space : ℕ → Bool
is_space c = (c == 32) || (leb 9 c && leb c 13)

-- The value of the digits in front.
atoi_digits : ℕ → List ℕ → ℕ
atoi_digits acc [] = acc
atoi_digits acc (c ∷ s) =
    let rest = atoi_digits (acc * 10 + (c - b'0')) s in if is_digit c then rest else acc

atoi_sign : List ℕ → ℤ
unfolding atoi_digits
atoi_sign [] = pos 0
atoi_sign (c ∷ s) =
    if c == b'-'
    then sub_ℕ 0 (atoi_digits 0 s)
    else if c == b'+'
    then pos (atoi_digits 0 s)
    else pos (atoi_digits 0 (c ∷ s))

skip_spaces : List ℕ → List ℕ
skip_spaces [] = []
skip_spaces (c ∷ s) = let rest = skip_spaces s in if is_space c then rest else c ∷ s

-- A value that is no int is undefined behaviour.
unfoldable pub atoi : List ℕ → Outcome ℤ
unfolding atoi_sign skip_spaces
atoi s = do let z = atoi_sign (skip_spaces s); require (fits_int32 z); ok z

abbrev pub AllDigits : List ℕ → Type 0
AllDigits = All (λ c. (b'0' ≤ c) × (c ≤ b'9'))

All-snoc : (s : List ℕ) (c : ℕ) → AllDigits s → (b'0' ≤ c) × (c ≤ b'9') → AllDigits (s ++ (c ∷ []))
All-snoc [] c h k = (k, tt)
All-snoc (x ∷ s) c h k = (h.0, All-snoc s c h.1 k)

digits-AllDigits : (fuel n : ℕ) → AllDigits (digits fuel n)
unfolding digits
digits-AllDigits zero n = tt
digits-AllDigits (suc fuel) n = elim (Bool-cases (ltb n 10)) [
  | inl e ↦ rw e ((omega arith, ground arith), tt)
  | inr e ↦ rw e (All-snoc (digits fuel (n / 10)) _ (digits-AllDigits fuel (n / 10)) (omega arith))
]

atoi_digits-snoc :
    (s : List ℕ) (acc d : ℕ)
    → AllDigits s
    → d < 10
    → atoi_digits acc (s ++ ((b'0' + d) ∷ [])) ≡ atoi_digits acc s * 10 + d
unfolding atoi_digits
atoi_digits-snoc [] acc d h k = ground arith
atoi_digits-snoc (c ∷ s) acc d h k =
    let digit : is_digit c ≡ true = ground arith in
    rw digit (atoi_digits-snoc s (acc * 10 + (c - b'0')) d h.1 k)

atoi_digits-digits : (fuel n : ℕ) → n < fuel → atoi_digits 0 (digits fuel n) ≡ n
unfolding digits
atoi_digits-digits zero n h = elim h [ ]
atoi_digits-digits (suc fuel) n h = elim (Bool-cases (ltb n 10)) [
  | inl e ↦ rw e (unfold atoi_digits in ground arith)
  | inr e ↦
      rw
        (
          e,
          atoi_digits-snoc (digits fuel (n / 10)) 0 (n % 10) (digits-AllDigits fuel (n / 10))
              (omega arith),
        )
        (rw (atoi_digits-digits fuel (n / 10) (ground arith)) (omega arith))
]

atoi_sign-AllDigits : (s : List ℕ) → AllDigits s → atoi_sign (skip_spaces s) ≡ pos (atoi_digits 0 s)
unfolding atoi_sign skip_spaces
atoi_sign-AllDigits [] h = refl
atoi_sign-AllDigits (c ∷ s) h =
    let solid : is_space c ≡ false = ground arith in
    let unsigned : (c == b'-') ≡ false = ground arith in
    let unsigned' : (c == b'+') ≡ false = ground arith in rw (solid, unsigned, unsigned')

atoi_value : (z : ℤ) → atoi_sign (skip_spaces (to_string z)) ≡ z
unfolding to_string
atoi_value (pos n) =
    atoi_sign-AllDigits _ (digits-AllDigits (suc n) n)
    ∙ ap pos (atoi_digits-digits (suc n) n (omega arith))
atoi_value (negsuc n) =
    unfold atoi_sign skip_spaces in
    rw (atoi_digits-digits (suc (suc n)) (suc n) (omega arith)) (ground arith)

-- An int that was printed reads back.
pub atoi-to_string : (z : ℤ) → fits_int32 z ≡ true → atoi (to_string z) ≡ ok z
unfolding atoi
atoi-to_string z h = rw (atoi_value z, h)

-- A port number is printed with digits only.
pub to_string-AllDigits : (n : ℕ) → AllDigits (to_string (pos n))
unfolding to_string
to_string-AllDigits n = digits-AllDigits (suc n) n

pub length-to_string : (n : ℕ) → 0 < length (to_string (pos n))
unfolding to_string
length-to_string n = elim (Bool-cases (ltb n 10)) [
  | inl e ↦ rw e (omega arith)
  | inr e ↦ rw e (omega (arith, length-append (digits n (n / 10)) ((b'0' + n % 10) ∷ [])))
]
