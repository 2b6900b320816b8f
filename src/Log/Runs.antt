-- ===== src/Log/Runs.antt =====
-- A logger with logs of both kinds, some of them moved already.
use talon_rpc.Prelude.{ℕ, ◌≡◌, refl, List, [], ◌∷◌, ◌++◌, Bool, true, false, arith}
use talon_rpc.Prelude.Text.{codes}
use talon_rpc.Prelude.Decimal.{to_string}
use talon_rpc.Log.{Logger, error, debug, unknown, sync_loop}
use talon_rpc.Log.Queues.{held}
use talon_rpc.Log.Event.{event_to_string, is_logged}
use talon_rpc.Log.Async.{AsyncLogger, new_async, filled_logs, rounds, on_fatal_signal}
use talon_rpc.Log.Printing.{synced_logs_lem, flush_loses}

abbrev logger : Logger
logger = record {
  is_console = false;
  buffer = codes "c" ∷ codes "d" ∷ [];
  app_buffer = codes "x" ∷ [];
  async = (codes "a" ∷ codes "b" ∷ []) ∷ [];
  app_async = [];
  printed = [];
}

abbrev async_logger : AsyncLogger
unfolding sync_loop
async_logger = record (new_async (codes "talon") (codes "/log/")) {
  buffer = (sync_loop logger).async;
}

-- The second file does not open.
abbrev inputs : List (List ℕ × Bool)
inputs = (codes "20231118", true) ∷ (codes "20231119", false) ∷ []

synced_logs_lem_example :
    ((rounds inputs async_logger).0.printed ≡ async_logger.printed ++ filled_logs (held logger))
    × ((rounds inputs async_logger).0.buffer ≡ [])
    × ((rounds inputs async_logger).1 ≡ false)
unfolding sync_loop
synced_logs_lem_example = synced_logs_lem inputs logger async_logger refl refl (omega arith)

-- The signal comes when nothing of the application's logs is pending.
abbrev behind_logger : Logger
behind_logger = record logger { app_buffer = [] }

abbrev after_signal : Logger × AsyncLogger × AsyncLogger
after_signal = on_fatal_signal (codes "e") behind_logger async_logger async_logger

flush_loses_example :
    ((rounds ((codes "20231118", true) ∷ []) after_signal.1).0.printed
      ≡ async_logger.printed ++ filled_logs (codes "a" ∷ codes "b" ∷ []))
    × ((rounds ((codes "20231118", true) ∷ []) after_signal.1).0.buffer
        ≡ (codes "c" ∷ codes "d" ∷ codes "e" ∷ []) ∷ [])
    × ((rounds ((codes "20231118", true) ∷ []) after_signal.1).1 ≡ true)
    × ((rounds inputs after_signal.2).1 ≡ false)
flush_loses_example =
    flush_loses [] inputs (codes "20231118") (codes "e") true (codes "a" ∷ codes "b" ∷ []) []
      behind_logger async_logger async_logger refl refl refl refl

error_line :
    event_to_string error
      (codes "23-11-18 10:00:00")
      5000
      12
      13
      (record { msgid = codes "7"; method_name = [] })
    ≡ codes "[ERROR]\t[23-11-18 10:00:00.5]\t[12:13]\t[7]\t"
unfolding event_to_string to_string
error_line = refl

-- A level that is not known logs errors, and nothing for debugging.
unknown_level : (is_logged unknown error ≡ true) × (is_logged unknown debug ≡ false)
unknown_level = (refl, refl)
