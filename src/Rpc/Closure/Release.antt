-- ===== src/Rpc/Closure/Release.antt =====
-- What Run leaves behind.
use talon_rpc.Prelude.{ℕ, ◌≡◌, refl, List, ◌∷◌, Option, none, some}
use talon_rpc.Prelude.Int.{ℤ, negsuc}
use talon_rpc.Prelude.Text.{codes}
use talon_rpc.Rpc.Closure.{
  CallbackEnd, null_callback, returns, talon_exception, std_exception, unknown_exception, run,
  update_run_time, after_callback, set_interface_error,
}

-- The error that an interface is told of, by how the callback ends.
abbrev pub error_of : CallbackEnd → Option (ℤ × List ℕ)
error_of null_callback = none
error_of returns = none
error_of (talon_exception code info) = some (code, info)
error_of std_exception = some (negsuc 0, codes "unkonwn std::exception")
error_of unknown_exception = some (negsuc 0, codes "unkonwn exception")

abbrev pub told : ℕ → Option (ℤ × List ℕ) → List (ℕ × (ℤ × List ℕ)) → List (ℕ × (ℤ × List ℕ))
told i none errors = errors
told i (some e) errors = (i, e) ∷ errors

-- Run of a closure with an interface lets go of the interface however the callback ends, tells it of an
-- exception, once, with the code and the text of a TalonException or else with code -1, and of nothing
-- otherwise. It does not enter the interface into the RunTime.
pub run_releases :
    (end : CallbackEnd) (i : ℕ) (r : Option ℕ) (errors : List (ℕ × (ℤ × List ℕ)))
    → run end (record { interface = some i; run_time_interface = r; errors = errors })
      ≡ record { interface = none; run_time_interface = r; errors = told i (error_of end) errors }
unfolding run update_run_time after_callback set_interface_error
run_releases null_callback i r errors = refl
run_releases returns i r errors = refl
run_releases (talon_exception code info) i r errors = refl
run_releases std_exception i r errors = refl
run_releases unknown_exception i r errors = refl
