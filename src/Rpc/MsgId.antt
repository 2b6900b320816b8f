-- ===== src/Rpc/MsgId.antt =====
-- net/rpc/msg_id_util.cc: message ids, as decimal numbers of 20 digits. What open and read on
-- /dev/urandom give is an argument: the 20 bytes, or nothing.
mod Runs
use talon_rpc.Prelude.{
  ℕ, zero, suc, ◌+◌, ◌-◌, ◌*◌, ◌/◌, ◌%◌, ◌^◌, ◌<◌, ◌≤◌, ◌≡◌, ◌≢◌, refl, ap, ◌∙◌, sym, List, [], ◌∷◌,
  ◌++◌, map, length, replicate, ◌==◌, if◌then◌else◌, Option, none, some, Bool, true, false, ◌||◌,
  inl, inr, Bool-cases, Option-cases, arith, length-replicate, subst,
}
use talon_rpc.Prelude.Text.{str_eq, str_eq_iff}
use talon_rpc.Prelude.Decimal.{AllDigits}
use native.Mathlib.Nat.{pow-suc, suc-mul}
use talon_rpc.Prelude.Outcome.{Outcome, ok, fault, or_fault, ◌>>=◌}

-- The two thread_local strings.
pub record MsgIds : Type 0 where
  pub msg_id_no : List ℕ
  pub max_msg_id_no : List ℕ

-- The walk back over the nines, the digit before them one up, and zeros in their place. None: the
-- walk leaves the string at its front.
step_digit : ℕ → List ℕ → Option (List ℕ) → Option (List ℕ)
step_digit c s (some s') = some (c ∷ s')
step_digit c s none = if c == b'9' then none else some (suc c ∷ replicate (length s) b'0')

unfoldable pub step_up : List ℕ → Option (List ℕ)
unfolding step_digit
step_up [] = none
step_up (c ∷ s) = step_digit c s (step_up s)

-- A new random id. The nines are appended to those that are there.
unfoldable pub draw : Option (List ℕ) → MsgIds → List ℕ × MsgIds
draw none m = ([], m)
draw (some res) m =
    let id = map (λ x. x % 10 + b'0') res in
    (id, record { msg_id_no = id; max_msg_id_no = m.max_msg_id_no ++ replicate 20 b'9' })

abbrev no_id : List ℕ → Bool
no_id [] = true
no_id (c ∷ s) = false

-- GenMsgID(): the id, and the strings after.
unfoldable pub gen_msg_id : Option (List ℕ) → MsgIds → Outcome (List ℕ × MsgIds)
unfolding step_up draw
gen_msg_id random m =
    if no_id m.msg_id_no || str_eq m.msg_id_no m.max_msg_id_no
    then ok (draw random m)
    else (do id ← or_fault (step_up m.msg_id_no); ok (id, record m { msg_id_no = id }))

-- The number that a text of digits is.
unfoldable pub value : List ℕ → ℕ
value [] = 0
value (c ∷ s) = (c - b'0') * 10 ^ length s + value s

value-zeros : (n : ℕ) → value (replicate n b'0') ≡ 0
unfolding value
value-zeros zero = refl
value-zeros (suc n) = omega (arith, value-zeros n)

value-nines : (n : ℕ) → value (replicate n b'9') + 1 ≡ 10 ^ n
unfolding value
value-nines zero = refl
value-nines (suc n) =
    rw (length-replicate {A = ℕ} n b'9') (omega (arith, value-nines n, pow-suc 10 n))

zeros-AllDigits : (n : ℕ) → AllDigits (replicate n b'0')
zeros-AllDigits zero = tt
zeros-AllDigits (suc n) = (omega arith, zeros-AllDigits n)

-- Only nines have no next number.
step_up-none : (s : List ℕ) → step_up s ≡ none → s ≡ replicate (length s) b'9'
unfolding step_up step_digit
step_up-none [] h = refl
step_up-none (c ∷ s) h = elim (Option-cases (step_up s)) [
  | inl e ↦
      let h' : step_digit c s none ≡ none = sym (ap (step_digit c s) e) ∙ h in
      let nine : c ≡ b'9' = ground arith in rw nine (ap (◌∷◌ b'9') (step_up-none s e))
  | inr (s', e) ↦ let h' : step_digit c s (some s') ≡ none = sym (ap (step_digit c s) e) ∙ h in cc
]

-- What a step up of a digit and those behind it makes of the number.
unfoldable pub IsNext : List ℕ → List ℕ → Type 0
IsNext s s' = (value s' ≡ value s + 1) × (length s' ≡ length s) × AllDigits s'

keep_lem : (c : ℕ) (s t : List ℕ) → AllDigits (c ∷ s) → IsNext s t → IsNext (c ∷ s) (c ∷ t)
unfolding IsNext value
keep_lem c s t d (v, l, a) = (rw l (omega (arith, v)), omega (arith, l), (d.0, a))

carry_lem :
    (c : ℕ) (s : List ℕ)
    → AllDigits (c ∷ s)
    → c ≢ b'9'
    → s ≡ replicate (length s) b'9'
    → IsNext (c ∷ s) (suc c ∷ replicate (length s) b'0')
unfolding IsNext value
carry_lem c s d h e =
    let full : value s + 1 ≡ 10 ^ length s = ap (λ t. value t + 1) e ∙ value-nines (length s) in
    let up : suc c - b'0' ≡ suc (c - b'0') = omega arith in
    (
      rw
          (
            length-replicate {A = ℕ} (length s) b'0',
            value-zeros (length s),
            up,
            suc-mul (c - b'0') (10 ^ length s),
          )
          (omega (arith, full)),
      omega (arith, length-replicate {A = ℕ} (length s) b'0'),
      (omega arith, zeros-AllDigits (length s)),
    )

step_up_lem : (s s' : List ℕ) → AllDigits s → step_up s ≡ some s' → IsNext s s'
unfolding step_up step_digit
step_up_lem [] s' d h = cc
step_up_lem (c ∷ s) s' d h = elim (Option-cases (step_up s)) [
  | inl e ↦
      let h' : step_digit c s none ≡ some s' = sym (ap (step_digit c s) e) ∙ h in
      elim (Bool-cases (c == b'9')) [
        | inl n ↦ absurd (ground arith)
        | inr n ↦
            let same : suc c ∷ replicate (length s) b'0' ≡ s' = ground arith in
            subst (IsNext (c ∷ s)) same (carry_lem c s d (λ t. ground arith) (step_up-none s e))
      ]
  | inr (t, e) ↦
      let h' : step_digit c s (some t) ≡ some s' = sym (ap (step_digit c s) e) ∙ h in
      let same : c ∷ t ≡ s' = ground arith in
      subst (IsNext (c ∷ s)) same (keep_lem c s t d (step_up_lem s t d.1 e))
]

-- GenMsgID counts: an id of digits that is not the largest text of its length and not the recorded
-- maximum is followed by the next number, written with the same number of digits.
pub gen_msg_id-counts :
    (random : Option (List ℕ)) (c : ℕ) (s m : List ℕ)
    → AllDigits (c ∷ s)
    → c ∷ s ≢ m
    → c ∷ s ≢ replicate (length (c ∷ s)) b'9'
    → (id : List ℕ) × (gen_msg_id random (record { msg_id_no = c ∷ s; max_msg_id_no = m })
        ≡ ok (id, record { msg_id_no = id; max_msg_id_no = m }))
      × IsNext (c ∷ s) id
unfolding gen_msg_id
gen_msg_id-counts random c s m d h k =
    let other : str_eq (c ∷ s) m ≡ false = ground (arith, str_eq_iff (c ∷ s) m) in
    elim (Option-cases (step_up (c ∷ s))) [
      | inl e ↦ absurd (k (step_up-none (c ∷ s) e))
      | inr (id, e) ↦ (id, rw (other, e), step_up_lem (c ∷ s) id d e)
    ]

-- The recorded maximum grows at each new random id, so from the second on no id of 20 digits is equal to
-- it, and the id of 20 nines is followed by an access out of bounds.
pub gen_msg_id-overflows :
    (random : Option (List ℕ)) (m : List ℕ)
    → 20 < length m
    → gen_msg_id random (record { msg_id_no = replicate 20 b'9'; max_msg_id_no = m }) ≡ fault
unfolding gen_msg_id step_up step_digit
gen_msg_id-overflows random m h =
    let other : str_eq (replicate 20 b'9') m ≡ false =
      elim (Bool-cases (str_eq (replicate 20 b'9') m)) [
        | inl e ↦
            let l : 20 ≡ length m = ap length ((str_eq_iff (replicate 20 b'9') m).0 e) in
            absurd (omega arith)
        | inr e ↦ e
      ] in
    rw other
