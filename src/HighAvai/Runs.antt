-- ===== src/HighAvai/Runs.antt =====
-- The restart count that the program has unless it sets another.
use talon_rpc.Prelude.{◌≡◌, none, arith}
use talon_rpc.Prelude.Int.{pos}
use talon_rpc.Prelude.Outcome.{ok}
use talon_rpc.HighAvai.{lives}
use talon_rpc.HighAvai.Restarts.{lives_lem}

lives_lem_example : lives 7 (pos 5) none ≡ ok (6, pos 2)
lives_lem_example = lives_lem 5 7 (omega arith) (omega arith)
