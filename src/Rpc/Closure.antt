-- ===== src/Rpc/Closure.antt =====
-- net/rpc/rpc_closure.h, net/rpc/rpc_interface.h and net/rpc/rpc_interface.cc: the closure of a call
-- and the interface object behind it.
-- An interface object is a number; how the callback ends is an argument, an exception as a value.
pub mod Release
use talon_rpc.Prelude.{ℕ, suc, List, ◌∷◌, Option, none, some, Bool, true, false, if◌then◌else◌}
use talon_rpc.Prelude.Int.{ℤ, pos, negsuc}
use talon_rpc.Prelude.Text.{codes}

-- m_cb is null, returns, or throws a TalonException, another std::exception, or anything else.
pub data CallbackEnd : Type 0 where
  null_callback returns : CallbackEnd
  talon_exception : ℤ → List ℕ → CallbackEnd
  std_exception unknown_exception : CallbackEnd

-- m_rpc_interface of the closure, the one of the RunTime, and the calls of setError on interfaces.
pub record ClosureState : Type 0 where
  pub interface : Option ℕ
  pub run_time_interface : Option ℕ
  pub errors : List (ℕ × (ℤ × List ℕ))

-- setError(code, info) and reset(), where there is an interface.
set_interface_error : ℤ → List ℕ → Option ℕ → ClosureState → ClosureState
set_interface_error code info none c = c
set_interface_error code info (some i) c = record c {
  interface = none;
  errors = (i, (code, info)) ∷ c.errors;
}

-- The test at the beginning of Run().
unfoldable pub update_run_time : Option ℕ → ClosureState → ClosureState
update_run_time none c = record c { run_time_interface = none }
update_run_time (some i) c = c

-- The `try` block and its handlers.
after_callback : CallbackEnd → ClosureState → ClosureState
unfolding set_interface_error
after_callback null_callback c = record c { interface = none }
after_callback returns c = record c { interface = none }
after_callback (talon_exception code info) c = set_interface_error code info c.interface c
after_callback std_exception c =
    set_interface_error (negsuc 0) (codes "unkonwn std::exception") c.interface c
after_callback unknown_exception c =
    set_interface_error (negsuc 0) (codes "unkonwn exception") c.interface c

-- Run()
unfoldable pub run : CallbackEnd → ClosureState → ClosureState
unfolding update_run_time after_callback
run end c = after_callback end (update_run_time c.interface c)

-- The four pointers of an RpcInterface: whether each is set. reply() runs m_done, if there is one.
pub record RpcInterface : Type 0 where
  pub req_base : Bool
  pub rsp_base : Bool
  pub done : Bool
  pub controller : Bool
  pub done_runs : ℕ

unfoldable pub reply_interface : RpcInterface → RpcInterface
reply_interface i = if i.done then record i { done_runs = suc i.done_runs } else i

-- destroy(): what is set is deleted.
unfoldable pub destroy : RpcInterface → RpcInterface
destroy i = record i { req_base = false; rsp_base = false; done = false; controller = false }

-- ~RpcInterface()
unfoldable pub drop_interface : RpcInterface → RpcInterface
unfolding reply_interface destroy
drop_interface i = destroy (reply_interface i)
