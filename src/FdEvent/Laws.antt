-- ===== src/FdEvent/Laws.antt =====
-- The error callback of an Fd_Event.
use talon_rpc.Prelude.{◌≡◌, Option, none, some, arith}
use talon_rpc.FdEvent.{FdEvent, TriggerEvent, error_event, handler, listen}

-- A call of listen with an error callback on an object that has one leaves it with none: of two such
-- calls in a row the second takes away what the first has set.
pub listen_drops_error_callback :
    {C : Type 0} (e : FdEvent C) (t u : TriggerEvent) (callback : Option C) (c d : C)
    → e.error_callback ≡ none
    → (handler (listen e t callback (some c)) error_event ≡ some c)
      × (handler (listen (listen e t callback (some c)) u callback (some d)) error_event ≡ none)
unfolding listen handler
listen_drops_error_callback e t u callback c d h = ground arith
