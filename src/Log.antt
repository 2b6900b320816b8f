-- ===== src/Log.antt =====
-- The log levels and the two queues of common/log.h and common/log.cc. A log is its text. `async` is
-- m_buffer of an AsyncLogger: a queue of what was pushed at once. The signal handlers and the timer
-- that calls syncLoop are left out.
pub mod Async
pub mod Event
pub mod Printing
pub mod Queues
mod Runs
use talon_rpc.Prelude.{ℕ, List, [], ◌∷◌, ◌++◌, if◌then◌else◌, Bool, true, false, Option, none, some}
use talon_rpc.Prelude.Text.{codes, str_eq}

pub data LogLevel : Type 0 where
  unknown debug info error : LogLevel

abbrev pub log_level_to_string : LogLevel → List ℕ
log_level_to_string debug = codes "DEBUG"
log_level_to_string info = codes "INFO"
log_level_to_string error = codes "ERROR"
log_level_to_string unknown = codes "UNKNOWN"

unfoldable pub string_to_log_level : List ℕ → LogLevel
string_to_log_level log_level =
    if str_eq log_level (codes "DEBUG")
    then debug
    else if str_eq log_level (codes "INFO")
    then info
    else if str_eq log_level (codes "ERROR")
    then error
    else unknown

-- m_buffer and m_app_buffer of a Logger, and the queues of its two AsyncLoggers. `printed` is what
-- pushLog prints where m_type is 0.
pub record Logger : Type 0 where
  pub is_console : Bool
  pub buffer : List (List ℕ)
  pub app_buffer : List (List ℕ)
  pub async : List (List (List ℕ))
  pub app_async : List (List (List ℕ))
  pub printed : List (List ℕ)

unfoldable pub push_log : List ℕ → Logger → Logger
push_log msg l =
    if l.is_console
    then record l { printed = l.printed ++ (msg ∷ []) }
    else record l { buffer = l.buffer ++ (msg ∷ []) }

unfoldable pub push_app_log : List ℕ → Logger → Logger
push_app_log msg l = record l { app_buffer = l.app_buffer ++ (msg ∷ []) }

-- if (!tmp_vec.empty()) pushLogBuffer(tmp_vec)
unfoldable pub push_log_buffer : List (List ℕ) → List (List (List ℕ)) → List (List (List ℕ))
push_log_buffer [] queue = queue
push_log_buffer (msg ∷ vec) queue = queue ++ ((msg ∷ vec) ∷ [])

unfoldable pub sync_loop : Logger → Logger
unfolding push_log_buffer
sync_loop l = record l {
  buffer = [];
  app_buffer = [];
  async = push_log_buffer l.buffer l.async;
  app_async = push_log_buffer l.app_buffer l.app_async;
}

-- A round of AsyncLogger::Loop: the vector that it takes from the queue.
unfoldable pub pop_vector : List (List (List ℕ)) → Option (List (List ℕ) × List (List (List ℕ)))
pop_vector [] = none
pop_vector (vec ∷ queue) = some (vec, queue)
