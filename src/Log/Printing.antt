-- ===== src/Log/Printing.antt =====
-- What the thread of an AsyncLogger prints of what was pushed.
use talon_rpc.Prelude.{
  ℕ, ◌≤◌, ◌≡◌, refl, sym, ap, ◌∙◌, List, [], ◌∷◌, ◌++◌, length, append_assoc, append-nil, Bool,
  true, false, Bool-cases, inl, inr, arith,
}
use talon_rpc.Prelude.Text.{str_eq}
use talon_rpc.Log.{Logger, push_log, push_log_buffer, sync_loop, pop_vector}
use talon_rpc.Log.Queues.{flat, held, sync_loop-held}
use talon_rpc.Log.Async.{
  AsyncLogger, check_date, reopen, filled_logs, print_vector, round, rounds, waits, goes_on, ends,
  flush, on_fatal_signal,
}

-- The dates and the files leave the logs alone.
record IsUntouched (l m : AsyncLogger) : Type 0 where
  same_buffer : m.buffer ≡ l.buffer
  same_printed : m.printed ≡ l.printed
  same_stop : m.stop_flag ≡ l.stop_flag

check_date-IsUntouched : (date : List ℕ) (l : AsyncLogger) → IsUntouched l (check_date date l)
unfolding check_date
check_date-IsUntouched date l = elim (Bool-cases (str_eq date l.date)) [
  | inl e ↦ rw e (record { same_buffer = refl; same_printed = refl; same_stop = refl })
  | inr e ↦ rw e (record { same_buffer = refl; same_printed = refl; same_stop = refl })
]

reopen-IsUntouched :
    (date : List ℕ) (opens : Bool) (l : AsyncLogger) → IsUntouched l (reopen date opens l)
unfolding reopen
reopen-IsUntouched date opens l = elim (Bool-cases l.reopen_flag) [
  | inl e ↦ rw e (record { same_buffer = refl; same_printed = refl; same_stop = refl })
  | inr e ↦ rw e (record { same_buffer = refl; same_printed = refl; same_stop = refl })
]

filled_logs-append :
    (xs ys : List (List ℕ)) → filled_logs (xs ++ ys) ≡ filled_logs xs ++ filled_logs ys
unfolding filled_logs
filled_logs-append [] ys = refl
filled_logs-append ([] ∷ xs) ys = filled_logs-append xs ys
filled_logs-append ((c ∷ s) ∷ xs) ys = ap (◌∷◌ (c ∷ s)) (filled_logs-append xs ys)

-- A logger after a round with the vector `tmp`.
record IsAfter (tmp : List (List ℕ)) (queue : List (List (List ℕ))) (l m : AsyncLogger)
    : Type 0 where
  left : m.buffer ≡ queue
  prints : m.printed ≡ l.printed ++ filled_logs tmp
  same_stop : m.stop_flag ≡ l.stop_flag

module _ (tmp : List (List ℕ)) (queue : List (List (List ℕ))) (date : List ℕ) (opens : Bool)
    (l : AsyncLogger) where
  abbrev dated : AsyncLogger
  dated = check_date date (record l { buffer = queue })

  abbrev after : AsyncLogger
  after = record (reopen date opens dated) {
    printed = (reopen date opens dated).printed ++ filled_logs tmp;
  }

  after-IsAfter : IsAfter tmp queue l after
  after-IsAfter =
      let d = check_date-IsUntouched date (record l { buffer = queue }) in
      let r = reopen-IsUntouched date opens dated in
      record {
        left = r.same_buffer ∙ d.same_buffer;
        prints = ap (λ p. p ++ filled_logs tmp) (r.same_printed ∙ d.same_printed);
        same_stop = r.same_stop ∙ d.same_stop;
      }

  round-goes_on : l.buffer ≡ tmp ∷ queue → l.stop_flag ≡ false → round date opens l ≡ goes_on after
  unfolding round
  round-goes_on e h =
      ap (λ b. print_vector (pop_vector b) date opens l) e
      ∙ (unfold print_vector pop_vector in rw (after-IsAfter.same_stop ∙ h) refl)

  round-ends : l.buffer ≡ tmp ∷ queue → l.stop_flag ≡ true → round date opens l ≡ ends after
  unfolding round
  round-ends e h =
      ap (λ b. print_vector (pop_vector b) date opens l) e
      ∙ (unfold print_vector pop_vector in rw (after-IsAfter.same_stop ∙ h) refl)

rounds_print :
    (inputs : List (List ℕ × Bool)) (queue : List (List (List ℕ))) (l : AsyncLogger)
    → l.buffer ≡ queue
    → l.stop_flag ≡ false
    → length queue ≤ length inputs
    → ((rounds inputs l).0.printed ≡ l.printed ++ filled_logs (flat queue))
      × ((rounds inputs l).0.buffer ≡ [])
      × ((rounds inputs l).1 ≡ false)
unfolding rounds
rounds_print [] [] l e h n = (sym (append-nil l.printed), e, refl)
rounds_print [] (tmp ∷ queue) l e h n = absurd (omega arith)
rounds_print ((date, opens) ∷ inputs) [] l e h n =
    let waiting : round date opens l ≡ waits =
      unfold round print_vector pop_vector in
      ap (λ b. print_vector (pop_vector b) date opens l) e in
    rw (waiting, rounds) (sym (append-nil l.printed), e, refl)
rounds_print ((date, opens) ∷ inputs) (tmp ∷ queue) l e h n =
    let a = after-IsAfter tmp queue date opens l in
    let (prints, left, on) =
      rounds_print inputs queue (after tmp queue date opens l) (a.left) (a.same_stop ∙ h)
        (omega arith) in
    rw (round-goes_on tmp queue date opens l e h, rounds)
      (
        prints
            ∙ ap (λ p. p ++ filled_logs (flat queue)) a.prints
            ∙ append_assoc l.printed (filled_logs tmp) (filled_logs (flat queue))
            ∙ ap (◌++◌ l.printed) (sym (filled_logs-append tmp (flat queue))),
        left,
        on,
      )

-- After a syncLoop, the thread of the AsyncLogger that has the queue prints, in as many rounds as
-- there are vectors in it, every log that is not empty and that had been pushed and not yet printed,
-- once and in the order of the pushes, whatever the dates are and whether or not the log files open.
-- It then waits with an empty queue. Nobody has called stop.
pub synced_logs_lem :
    (inputs : List (List ℕ × Bool)) (logger : Logger) (l : AsyncLogger)
    → l.buffer ≡ (sync_loop logger).async
    → l.stop_flag ≡ false
    → length (sync_loop logger).async ≤ length inputs
    → ((rounds inputs l).0.printed ≡ l.printed ++ filled_logs (held logger))
      × ((rounds inputs l).0.buffer ≡ [])
      × ((rounds inputs l).1 ≡ false)
synced_logs_lem inputs logger l e h n =
    let (prints, left, on) = rounds_print inputs (sync_loop logger).async l e h n in
    let (kept, app_kept, empty, app_empty) = sync_loop-held logger in
    let all : flat (sync_loop logger).async ≡ held logger =
      sym (append-nil (flat (sync_loop logger).async))
      ∙ ap (◌++◌ (flat (sync_loop logger).async)) (sym empty)
      ∙ kept in
    (prints ∙ ap (λ f. l.printed ++ filled_logs f) all, left, on)

stopped_loses :
    (inputs : List (List ℕ × Bool)) (date : List ℕ) (opens : Bool) (tmp : List (List ℕ))
    (queue : List (List (List ℕ))) (l : AsyncLogger)
    → l.buffer ≡ tmp ∷ queue
    → l.stop_flag ≡ true
    → ((rounds ((date, opens) ∷ inputs) l).0.printed ≡ l.printed ++ filled_logs tmp)
      × ((rounds ((date, opens) ∷ inputs) l).0.buffer ≡ queue)
      × ((rounds ((date, opens) ∷ inputs) l).1 ≡ true)
unfolding rounds
stopped_loses inputs date opens tmp queue l e h =
    let a = after-IsAfter tmp queue date opens l in
    rw (round-ends tmp queue date opens l e h, rounds) (a.prints, a.left, refl)

push_log_buffer-line :
    (line : List ℕ) (vec : List (List ℕ)) (queue : List (List (List ℕ)))
    → push_log_buffer (vec ++ (line ∷ [])) queue ≡ queue ++ ((vec ++ (line ∷ [])) ∷ [])
unfolding push_log_buffer
push_log_buffer-line line [] queue = refl
push_log_buffer-line line (msg ∷ vec) queue = refl

rounds-idle :
    (inputs : List (List ℕ × Bool)) (l : AsyncLogger) → l.buffer ≡ [] → (rounds inputs l).1 ≡ false
unfolding rounds
rounds-idle [] l e = refl
rounds-idle ((date, opens) ∷ inputs) l e =
    let waiting : round date opens l ≡ waits =
      unfold round print_vector pop_vector in
      ap (λ b. print_vector (pop_vector b) date opens l) e in
    rw (waiting, rounds) refl

pub flush_loses :
    (inputs app_inputs : List (List ℕ × Bool)) (date line : List ℕ) (opens : Bool)
    (tmp : List (List ℕ)) (queue : List (List (List ℕ))) (logger : Logger) (l app : AsyncLogger)
    → logger.is_console ≡ false
    → logger.async ≡ tmp ∷ queue
    → logger.app_async ≡ []
    → logger.app_buffer ≡ []
    → ((rounds ((date, opens) ∷ inputs) (on_fatal_signal line logger l app).1).0.printed
        ≡ l.printed ++ filled_logs tmp)
      × ((rounds ((date, opens) ∷ inputs) (on_fatal_signal line logger l app).1).0.buffer
          ≡ queue ++ ((logger.buffer ++ (line ∷ [])) ∷ []))
      × ((rounds ((date, opens) ∷ inputs) (on_fatal_signal line logger l app).1).1 ≡ true)
      × ((rounds app_inputs (on_fatal_signal line logger l app).2).1 ≡ false)
unfolding on_fatal_signal flush sync_loop push_log
flush_loses inputs app_inputs date line opens tmp queue logger l app console e no_app_queued
      no_app_logged =
    let pushed = record logger { buffer = logger.buffer ++ (line ∷ []) } in
    let same : push_log line logger ≡ pushed = rw console refl in
    let behind = push_log_buffer-line line logger.buffer in
    let more : push_log_buffer pushed.buffer logger.async
        ≡ tmp ∷ (queue ++ ((logger.buffer ++ (line ∷ [])) ∷ [])) =
      behind logger.async ∙ ap (λ q. q ++ ((logger.buffer ++ (line ∷ [])) ∷ [])) e in
    let (prints, left, ended) =
      stopped_loses inputs date opens tmp (queue ++ ((logger.buffer ++ (line ∷ [])) ∷ []))
        (flush (push_log line logger) l app).1
        (ap (λ (t : Logger). push_log_buffer t.buffer t.async) same ∙ more) refl in
    let idle : push_log_buffer logger.app_buffer logger.app_async ≡ [] =
      unfold push_log_buffer in
      ap (λ b. push_log_buffer b logger.app_async) no_app_logged ∙ no_app_queued in
    (
      prints,
      left,
      ended,
      rounds-idle app_inputs (flush (push_log line logger) l app).2
          (ap (λ (t : Logger). push_log_buffer t.app_buffer t.app_async) same ∙ idle),
    )
