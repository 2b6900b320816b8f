-- ===== src/Log/Async.antt =====
-- AsyncLogger of common/log.cc: the thread that prints what syncLoop has pushed.
-- The date that strftime gives and whether fopen succeeds are arguments, one pair for each round. The
-- FILE of a log is its name. The locks, the condition and the size limit, whose test is commented out,
-- are left out.
use talon_rpc.Prelude.{
  ℕ, List, [], ◌∷◌, ◌++◌, if◌then◌else◌, Bool, true, false, ◌||◌, Option, none, some,
}
use talon_rpc.Prelude.Int.{pos}
use talon_rpc.Prelude.Text.{codes, str_eq}
use talon_rpc.Prelude.Decimal.{to_string}
use talon_rpc.Log.{Logger, push_log, pop_vector, sync_loop}

-- `file_handler` is the name of the open file, and `printed` what printf was given.
pub record AsyncLogger : Type 0 where
  pub buffer : List (List (List ℕ))
  pub file_name : List ℕ
  pub file_path : List ℕ
  pub date : List ℕ
  pub file_handler : Option (List ℕ)
  pub reopen_flag : Bool
  pub no : ℕ
  pub stop_flag : Bool
  pub printed : List (List ℕ)

-- AsyncLogger(file_name, file_path, max_size)
abbrev pub new_async : List ℕ → List ℕ → AsyncLogger
new_async file_name file_path = record {
  buffer = [];
  file_name = file_name;
  file_path = file_path;
  date = [];
  file_handler = none;
  reopen_flag = false;
  no = 0;
  stop_flag = false;
  printed = [];
}

abbrev pub stop_async : AsyncLogger → AsyncLogger
stop_async l = record l { stop_flag = true }

-- The name of the log file of a date.
unfoldable pub log_file_name : AsyncLogger → List ℕ → List ℕ
log_file_name l date =
    l.file_path ++ (l.file_name ++ (codes "_" ++ (date ++ (codes "_log." ++ to_string (pos l.no)))))

abbrev is_null : {A : Type 0} → Option A → Bool
is_null none = true
is_null (some a) = false

-- A new date, or no open file: the file is to be opened again.
unfoldable pub check_date : List ℕ → AsyncLogger → AsyncLogger
check_date date l =
    let dated =
      if str_eq date l.date then l else record l { no = 0; reopen_flag = true; date = date } in
    record dated { reopen_flag = dated.reopen_flag || is_null dated.file_handler }

-- fclose and fopen.
unfoldable pub reopen : List ℕ → Bool → AsyncLogger → AsyncLogger
unfolding log_file_name
reopen date opens l =
    if l.reopen_flag
    then record l {
      file_handler = if opens then some (log_file_name l date) else none;
      reopen_flag = false;
    }
    else l

-- The logs that are not empty, in order.
unfoldable pub filled_logs : List (List ℕ) → List (List ℕ)
filled_logs [] = []
filled_logs ([] ∷ logs) = filled_logs logs
filled_logs ((c ∷ s) ∷ logs) = (c ∷ s) ∷ filled_logs logs

-- What a round of Loop comes to: it waits for a push, the loop goes on, or it returns.
pub data Round : Type 0 where
  waits : Round
  goes_on ends : AsyncLogger → Round

unfoldable pub print_vector :
    Option (List (List ℕ) × List (List (List ℕ))) → List ℕ → Bool → AsyncLogger → Round
unfolding check_date reopen filled_logs
print_vector none date opens l = waits
print_vector (some (tmp, queue)) date opens l =
    let l' = reopen date opens (check_date date (record l { buffer = queue })) in
    let l'' = record l' { printed = l'.printed ++ filled_logs tmp } in
    if l''.stop_flag then ends l'' else goes_on l''

unfoldable pub round : List ℕ → Bool → AsyncLogger → Round
unfolding print_vector pop_vector
round date opens l = print_vector (pop_vector l.buffer) date opens l

-- Rounds of Loop, with what they are given, until one waits or the loop returns: the rounds left, and
-- how it stands.
unfoldable pub rounds : List (List ℕ × Bool) → AsyncLogger → AsyncLogger × Bool
unfolding round
rounds [] l = (l, false)
rounds ((date, opens) ∷ inputs) l = elim (round date opens l) [
  | waits ↦ (l, false)
  | goes_on l' ↦ rounds inputs l'
  | ends l' ↦ (l', true)
]

-- Logger::flush(): syncLoop, and stop of both AsyncLoggers, whose queues are those of the logger.
-- fflush of the open file changes nothing here.
abbrev pub stop_with : List (List (List ℕ)) → AsyncLogger → AsyncLogger
stop_with queue l = record (stop_async l) { buffer = queue }

unfoldable pub flush : Logger → AsyncLogger → AsyncLogger → Logger × AsyncLogger × AsyncLogger
flush logger async_logger app_logger =
    let l = sync_loop logger in
    (l, stop_with l.async async_logger, stop_with l.app_async app_logger)

-- The handler of a fatal signal up to the calls of pthread_join: ERRORLOG, with its line, and flush.
unfoldable pub on_fatal_signal :
    List ℕ → Logger → AsyncLogger → AsyncLogger → Logger × AsyncLogger × AsyncLogger
unfolding flush
on_fatal_signal line logger async_logger app_logger =
    flush (push_log line logger) async_logger app_logger
