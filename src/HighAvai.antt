-- ===== src/HighAvai.antt =====
-- common/high_availability.h: a server that is started again when it ends.
-- What sigaction, fork and execvp return are arguments. The child process runs the server; its parent
-- waits for it and then becomes the program again, with one argument. The handlers of SIGCHLD and
-- SIGINT are left out.
pub mod Restarts
mod Runs
use talon_rpc.Prelude.{
  ℕ, zero, suc, ◌+◌, List, [], ◌∷◌, length, leb, ltb, if◌then◌else◌, Option, none, some, Bool, true,
  false, not,
}
use talon_rpc.Prelude.Int.{ℤ, pos, negsuc, ◌+ℤ◌, leb_ℤ, fits_int32}
use talon_rpc.Prelude.Decimal.{to_string, atoi}
use talon_rpc.Prelude.Outcome.{Outcome, ok, stuck, require, ◌>>=◌, ◌>>◌}

-- Which of the calls succeed.
pub record Calls : Type 0 where
  pub sigaction_works : Bool
  pub fork_works : Bool
  pub execvp_works : Bool

-- How start() ends in the process that called it: it exits and no server has run, the server has run
-- and the program starts again with the argument, or the server has run and the process exits.
pub data Started : Type 0 where
  exits : ℤ → Started
  restarts : List ℕ → Started
  serves_and_exits : ℤ → Started

-- current_start_count: 0 at first, and what argv[1] says.
abbrev pub start_count : Option (List ℕ) → Outcome ℤ
start_count none = ok (pos 0)
start_count (some arg) = atoi arg

-- if (current_start_count > restart_count_), where there is an argument.
abbrev pub is_over : Option (List ℕ) → ℤ → ℤ → Bool
is_over none count restart_count = false
is_over (some arg) count restart_count = not (leb_ℤ count restart_count)

-- The parent after waitpid: the next count is printed into 10 bytes, with a 0 behind it.
unfoldable pub after_wait : ℤ → Calls → Outcome Started
after_wait count calls = do
  let next = count +ℤ pos 1
  require (fits_int32 next)
  require (ltb (length (to_string next)) 10)
  ok (if calls.execvp_works then restarts (to_string next) else serves_and_exits (pos 1))

-- start(argc, argv), with argv[1].
unfoldable pub start : ℤ → Calls → Option (List ℕ) → Outcome Started
unfolding after_wait
start restart_count calls argv = do
  count ← start_count argv
  if is_over argv count restart_count
      then ok (exits (pos 2))
      else if calls.sigaction_works
      then (if calls.fork_works then after_wait count calls else ok (exits (negsuc 0)))
      else ok (exits (pos 1))

-- The calls when all is well.
abbrev pub works : Calls
works = record { sigaction_works = true; fork_works = true; execvp_works = true }

-- One start() after the other, on fuel: how often the server has run, and the last exit code.
unfoldable pub lives : ℕ → ℤ → Option (List ℕ) → Outcome (ℕ × ℤ)
unfolding start
lives zero restart_count argv = stuck
lives (suc fuel) restart_count argv = start restart_count works argv >>= λ st. elim st [
  | exits code ↦ ok (0, code)
  | restarts arg ↦ do (n, code) ← lives fuel restart_count (some arg); ok (suc n, code)
  | serves_and_exits code ↦ ok (1, code)
]
