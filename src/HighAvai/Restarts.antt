-- ===== src/HighAvai/Restarts.antt =====
-- How often the server runs.
use talon_rpc.Prelude.{
  ℕ, zero, suc, ◌+◌, ◌*◌, ◌/◌, ◌%◌, ◌<◌, ◌≤◌, ◌≡◌, refl, ap, List, [], ◌∷◌, length, length-append,
  leb, ltb, Option, none, some, true, false, Bool-cases, inl, inr, arith,
}
use talon_rpc.Prelude.Int.{pos, fits_int32, ◌+ℤ◌}
use talon_rpc.Prelude.Decimal.{digits, to_string, atoi-to_string}
use talon_rpc.Prelude.Outcome.{ok, ◌>>=◌}
use talon_rpc.HighAvai.{start_count, is_over, works, start, after_wait, restarts, exits, lives}

abbrev ten_to : ℕ → ℕ
ten_to zero = 1
ten_to (suc d) = 10 * ten_to d

length-digits : (d fuel n : ℕ) → n < ten_to (suc d) → length (digits fuel n) ≤ suc d
unfolding digits
length-digits d zero n h = omega arith
length-digits zero (suc fuel) n h = let e : ltb n 10 ≡ true = ground arith in rw e (omega arith)
length-digits (suc d) (suc fuel) n h = elim (Bool-cases (ltb n 10)) [
  | inl e ↦ rw e (omega arith)
  | inr e ↦ rw e (
      omega (
        arith,
        length-append (digits fuel (n / 10)) ((b'0' + n % 10) ∷ []),
        length-digits d fuel (n / 10) (omega arith),
      ))
]

is_over-le :
    (argv : Option (List ℕ)) (n limit : ℕ) → n ≤ limit → is_over argv (pos n) (pos limit) ≡ false
is_over-le none n limit h = refl
is_over-le (some arg) n limit h = ground arith

short_count : (n : ℕ) → n < 1000000000 → length (to_string (pos n)) ≤ 9
unfolding to_string
short_count n h = length-digits 8 (suc n) n h

-- One generation that is not the last.
start-restarts :
    (limit n : ℕ) (argv : Option (List ℕ))
    → start_count argv ≡ ok (pos n)
    → n ≤ limit
    → limit + 1 < 1000000000
    → start (pos limit) works argv ≡ ok (restarts (to_string (pos (suc n))))
unfolding start after_wait
start-restarts limit n argv e h small =
    let below : is_over argv (pos n) (pos limit) ≡ false = is_over-le argv n limit h in
    let next : pos n +ℤ pos 1 ≡ pos (suc n) = ground arith in
    let fits : fits_int32 (pos (suc n)) ≡ true = ground arith in
    let short : ltb (length (to_string (pos (suc n)))) 10 ≡ true =
      ground (arith, short_count (suc n)) in
    rw (e, below, next, fits, short)

start-exits :
    (limit n : ℕ)
    → limit < n
    → n < 1000000000
    → start (pos limit) works (some (to_string (pos n))) ≡ ok (exits (pos 2))
unfolding start
start-exits limit n h small =
    let fits : fits_int32 (pos n) ≡ true = ground arith in
    let over : leb (n + 0) (limit + 0) ≡ false = ground arith in
    rw (atoi-to_string (pos n) fits, over)

lives_from :
    (left fuel limit n : ℕ) (argv : Option (List ℕ))
    → start_count argv ≡ ok (pos n)
    → n + left ≡ limit
    → limit + 1 < 1000000000
    → left + 2 ≤ fuel
    → lives fuel (pos limit) argv ≡ ok (suc left, pos 2)
unfolding lives
lives_from left zero limit n argv e h small f = absurd (omega arith)
lives_from left (suc zero) limit n argv e h small f = absurd (omega arith)
lives_from zero (suc (suc fuel)) limit n argv e h small f = rw (
  start-restarts limit n argv e (omega arith) small,
  start-exits limit (suc n) (omega arith) (omega arith),
)
lives_from (suc left) (suc (suc fuel)) limit n argv e h small f =
    let fits : fits_int32 (pos (suc n)) ≡ true = ground arith in
    rw (start-restarts limit n argv e (omega arith) small) (
      ap (λ t. t >>= λ p. ok (suc p.0, p.1))
        (lives_from left (suc fuel) limit (suc n) (some (to_string (pos (suc n))))
          (atoi-to_string (pos (suc n)) fits) (omega arith) small (omega arith)))

-- With a restart count r below 999999999, and where the system calls succeed, the program that is
-- started without an argument runs the server r + 1 times, whatever ends it each time, and then exits
-- with the code 2: the counts that the processes hand on in their argument are printed into its 10
-- bytes and read back, up to r + 1.
pub lives_lem :
    (limit fuel : ℕ)
    → limit + 1 < 1000000000
    → limit + 2 ≤ fuel
    → lives fuel (pos limit) none ≡ ok (suc limit, pos 2)
lives_lem limit fuel small f = lives_from limit fuel limit 0 none refl (omega arith) small f
