-- ===== src/Log/Event.antt =====
-- LogEvent::toString of common/log.cc and the macros DEBUGLOG, INFOLOG, ERRORLOG and their APP forms
-- of common/log.h, with get_pid and get_thread_id of common/util.cc.
-- The texts that strftime and snprintf give are arguments, and so are the ids that the system gives.
use talon_rpc.Prelude.{ℕ, ◌/◌, List, [], ◌∷◌, ◌++◌, ◌==◌, leb, ◌&&◌, not, if◌then◌else◌, Bool}
use talon_rpc.Prelude.Int.{pos}
use talon_rpc.Prelude.Text.{codes}
use talon_rpc.Prelude.Decimal.{to_string}
use talon_rpc.Log.{
  LogLevel, unknown, debug, info, error, Logger, log_level_to_string, push_log, push_app_log,
}
use talon_rpc.Rpc.Dispatcher.{RunTime}

-- The id that was kept, if there is one, and otherwise the system's: nothing ever keeps one.
abbrev pub get_id : ℕ → ℕ → ℕ
get_id kept given = if kept == 0 then given else kept

-- "[" << s << "]\t"
abbrev pub bracketed : List ℕ → List ℕ
bracketed s = codes "[" ++ (s ++ codes "]\t")

-- The same for a text that is not empty.
abbrev pub bracketed_text : List ℕ → List ℕ
bracketed_text [] = []
bracketed_text (c ∷ s) = bracketed (c ∷ s)

-- The time to the second, with the milliseconds behind it.
abbrev pub time_text : List ℕ → ℕ → List ℕ
time_text date usec = date ++ (codes "." ++ to_string (pos (usec / 1000)))

unfoldable pub event_to_string : LogLevel → List ℕ → ℕ → ℕ → ℕ → RunTime → List ℕ
event_to_string level date usec pid thread_id run_time =
    bracketed (log_level_to_string level)
    ++ (bracketed (time_text date usec)
        ++ (bracketed (to_string (pos pid) ++ (codes ":" ++ to_string (pos thread_id)))
            ++ (bracketed_text run_time.msgid ++ bracketed_text run_time.method_name)))

-- The values of the enumeration.
abbrev pub level_number : LogLevel → ℕ
level_number unknown = 0
level_number debug = 1
level_number info = 2
level_number error = 3

-- The tests of the macros on the logger's level. DEBUGLOG alone also wants it to be known.
abbrev pub is_logged : LogLevel → LogLevel → Bool
is_logged set_level debug =
    not (level_number set_level == 0) && leb (level_number set_level) (level_number debug)
is_logged set_level level = leb (level_number set_level) (level_number level)

abbrev pub is_app_logged : LogLevel → LogLevel → Bool
is_app_logged set_level level = leb (level_number set_level) (level_number level)

-- The line of a macro, at a place in the source.
abbrev pub log_line : List ℕ → List ℕ → ℕ → List ℕ → List ℕ
log_line event file line message =
    event
    ++ (codes "["
        ++ (file
            ++ (codes ":" ++ (to_string (pos line) ++ (codes "]\t" ++ (message ++ codes "\n"))))))

unfoldable pub log_with : LogLevel → LogLevel → List ℕ → Logger → Logger
unfolding push_log
log_with set_level level text l = if is_logged set_level level then push_log text l else l

unfoldable pub app_log_with : LogLevel → LogLevel → List ℕ → Logger → Logger
unfolding push_app_log
app_log_with set_level level text l =
    if is_app_logged set_level level then push_app_log text l else l
