-- ===== src/Rpc/Channel/Once.antt =====
-- How often the closure of a call runs.
use talon_rpc.Prelude.{
  ℕ, zero, suc, ◌≡◌, refl, sym, ap, ◌∙◌, List, [], ◌∷◌, ◌++◌, Option, none, some, Bool, true, false,
  ◌⊎◌, inl, inr, arith, subst,
}
use talon_rpc.Prelude.Int.{ℤ, pos, negsuc}
use talon_rpc.Coder.Protocol.{TinyPbProtocol}
use talon_rpc.Rpc.Controller.{set_error, set_finished, start_cancel}
use talon_rpc.Rpc.Channel.{
  RpcChannel, Event, timeout_arrives, connect_ends, write_ends, response_arrives, write_message,
  read_message, call_back, fail_with, on_timeout, on_timeout_if, on_connect, on_written, on_parsed,
  on_parse, on_response, on_event, on_events,
}

module _ {M : Type 0} where
  -- The closure did not run, or it ran once and the call is finished.
  abbrev pub IsOnce : RpcChannel M → Type 0
  IsOnce ch = (ch.closure_runs ≡ 0) ⊎ ((ch.closure_runs ≡ 1) × (ch.controller.is_finished ≡ true))

  call_back-IsOnce : (ch : RpcChannel M) → IsOnce ch → IsOnce (call_back ch)
  unfolding call_back
  call_back-IsOnce ch h = ground arith

  fail_with-IsOnce :
      (code : ℤ) (info : List ℕ) (ch : RpcChannel M) → IsOnce ch → IsOnce (fail_with code info ch)
  unfolding fail_with set_error
  fail_with-IsOnce code info ch h =
      call_back-IsOnce (record ch { controller = set_error code info ch.controller }) h

  on_timeout-IsOnce : (b : Bool) (ch : RpcChannel M) → IsOnce ch → IsOnce (on_timeout_if b ch)
  unfolding on_timeout_if start_cancel
  on_timeout-IsOnce true ch h = h
  on_timeout-IsOnce false ch h =
      fail_with-IsOnce _ _ (record ch { controller = start_cancel ch.controller })
        (elim h [ inl e ↦ inl e | inr (e, f) ↦ inr (e, refl) ])

  on_parsed-IsOnce :
      (code : ℤ) (rsp : TinyPbProtocol) (ch : RpcChannel M)
      → IsOnce ch
      → IsOnce (on_parsed code rsp ch)
  unfolding on_parsed
  on_parsed-IsOnce (pos zero) rsp ch h = call_back-IsOnce ch h
  on_parsed-IsOnce (pos (suc n)) rsp ch h = fail_with-IsOnce _ _ ch h
  on_parsed-IsOnce (negsuc n) rsp ch h = fail_with-IsOnce _ _ ch h

  on_parse-IsOnce :
      (m : Option M) (rsp : TinyPbProtocol) (ch : RpcChannel M)
      → IsOnce ch
      → IsOnce (on_parse m rsp ch)
  unfolding on_parse
  on_parse-IsOnce none rsp ch h = fail_with-IsOnce _ _ ch h
  on_parse-IsOnce (some m) rsp ch h =
      on_parsed-IsOnce rsp.err_code rsp (record ch { response = some m }) h

  on_event-IsOnce : (e : Event M) (ch : RpcChannel M) → IsOnce ch → IsOnce (on_event e ch)
  unfolding on_event on_connect on_written on_response on_timeout
  on_event-IsOnce timeout_arrives ch h = on_timeout-IsOnce ch.controller.is_finished ch h
  on_event-IsOnce (connect_ends req none) ch h = h
  on_event-IsOnce (connect_ends req (some (code, info))) ch h = fail_with-IsOnce code info ch h
  on_event-IsOnce (write_ends req) ch h = h
  on_event-IsOnce (response_arrives parse rsp) ch h = on_parse-IsOnce (parse rsp.pb_data) rsp ch h

  -- Whatever happens after a call has begun to connect, in whatever order and however often, the closure
  -- runs at most once, and once it ran the call is finished.
  pub on_events-IsOnce :
      (es : List (Event M)) (ch : RpcChannel M) → ch.closure_runs ≡ 0 → IsOnce (on_events es ch)
  unfolding on_events
  on_events-IsOnce es ch h = go es ch (inl h)
    where
      go : (es : List (Event M)) (ch : RpcChannel M) → IsOnce ch → IsOnce (on_events es ch)
      go [] ch h = h
      go (e ∷ es) ch h = go es (on_event e ch) (on_event-IsOnce e ch h)

  -- The call is finished and its closure has run n times.
  abbrev IsOver : ℕ → RpcChannel M → Type 0
  IsOver n ch = (ch.controller.is_finished ≡ true) × (ch.closure_runs ≡ n)

  call_back-IsOver : (n : ℕ) (ch : RpcChannel M) → IsOver n ch → IsOver n (call_back ch)
  unfolding call_back
  call_back-IsOver n ch h = ground arith

  fail_with-IsOver :
      (n : ℕ) (code : ℤ) (info : List ℕ) (ch : RpcChannel M)
      → IsOver n ch
      → IsOver n (fail_with code info ch)
  unfolding fail_with set_error
  fail_with-IsOver n code info ch h =
      call_back-IsOver n (record ch { controller = set_error code info ch.controller }) h

  on_parsed-IsOver :
      (n : ℕ) (code : ℤ) (rsp : TinyPbProtocol) (ch : RpcChannel M)
      → IsOver n ch
      → IsOver n (on_parsed code rsp ch)
  unfolding on_parsed
  on_parsed-IsOver n (pos zero) rsp ch h = call_back-IsOver n ch h
  on_parsed-IsOver n (pos (suc k)) rsp ch h = fail_with-IsOver n _ _ ch h
  on_parsed-IsOver n (negsuc k) rsp ch h = fail_with-IsOver n _ _ ch h

  on_parse-IsOver :
      (n : ℕ) (m : Option M) (rsp : TinyPbProtocol) (ch : RpcChannel M)
      → IsOver n ch
      → IsOver n (on_parse m rsp ch)
  unfolding on_parse
  on_parse-IsOver n none rsp ch h = fail_with-IsOver n _ _ ch h
  on_parse-IsOver n (some m) rsp ch h =
      on_parsed-IsOver n rsp.err_code rsp (record ch { response = some m }) h

  on_event-IsOver :
      (n : ℕ) (e : Event M) (ch : RpcChannel M) → IsOver n ch → IsOver n (on_event e ch)
  unfolding on_event on_connect on_written on_response on_timeout
  on_event-IsOver n timeout_arrives ch h =
      subst (λ b. IsOver n (on_timeout_if b ch)) (sym h.0) (unfold on_timeout_if in h)
  on_event-IsOver n (connect_ends req none) ch h = h
  on_event-IsOver n (connect_ends req (some (code, info))) ch h = fail_with-IsOver n code info ch h
  on_event-IsOver n (write_ends req) ch h = h
  on_event-IsOver n (response_arrives parse rsp) ch h =
      on_parse-IsOver n (parse rsp.pb_data) rsp ch h

  on_events-IsOver :
      (n : ℕ) (es : List (Event M)) (ch : RpcChannel M) → IsOver n ch → IsOver n (on_events es ch)
  unfolding on_events
  on_events-IsOver n [] ch h = h
  on_events-IsOver n (e ∷ es) ch h =
      on_events-IsOver n es (on_event e ch) (on_event-IsOver n e ch h)

  -- A call that runs into its timeout before it is finished never runs its closure: not at the timeout,
  -- since the controller is marked as finished before callBack looks at it, and not at anything that
  -- happens later.
  pub timeout_silences :
      (es : List (Event M)) (ch : RpcChannel M)
      → ch.controller.is_finished ≡ false
      → ((on_events (timeout_arrives ∷ es) ch).controller.is_finished ≡ true)
        × ((on_events (timeout_arrives ∷ es) ch).closure_runs ≡ ch.closure_runs)
  unfolding on_events on_event on_timeout
  timeout_silences es ch h =
      let cancelled = record ch { controller = start_cancel ch.controller } in
      let over : IsOver ch.closure_runs (on_timeout_if false ch) =
        unfold on_timeout_if start_cancel in
        fail_with-IsOver ch.closure_runs _ _ cancelled (refl, refl) in
      on_events-IsOver ch.closure_runs es (on_timeout ch)
        (subst (λ b. IsOver ch.closure_runs (on_timeout_if b ch)) (sym h) over)

  pub call_back_open :
      (ch : RpcChannel M)
      → ch.controller.is_finished ≡ false
      → ch.has_closure ≡ true
      → call_back ch ≡ record ch {
        closure_runs = suc ch.closure_runs;
        controller = set_finished true ch.controller;
      }
  unfolding call_back
  call_back_open ch h k = ground arith

  -- A call that is connected, written and answered in time, with no error code and a response that can
  -- be parsed, runs its closure once, with the response in place and no failure noted in the
  -- controller; the client was asked to write the request and then to wait for the response with its id.
  pub answered_lem :
      (req rsp : TinyPbProtocol) (parse : List ℕ → Option M) (m : M) (ch : RpcChannel M)
      → ch.controller.is_finished ≡ false
      → ch.has_closure ≡ true
      → parse rsp.pb_data ≡ some m
      → rsp.err_code ≡ pos 0
      → on_events (connect_ends req none ∷ write_ends req ∷ response_arrives parse rsp ∷ []) ch
        ≡ record ch {
          response = some m;
          closure_runs = suc ch.closure_runs;
          controller = set_finished true ch.controller;
          actions = (ch.actions ++ (write_message req ∷ [])) ++ (read_message req.msg_id ∷ []);
        }
  unfolding on_events on_event on_connect on_written on_response on_parse
  answered_lem req rsp parse m ch open_call closure p ok_code =
      let waiting : RpcChannel M = record ch {
        actions = (ch.actions ++ (write_message req ∷ [])) ++ (read_message req.msg_id ∷ []);
      } in
      let answered = record waiting { response = some m } in
      ap (λ o. on_parse o rsp waiting) p
      ∙ ap (λ z. on_parsed z rsp answered) ok_code
      ∙ (unfold on_parsed in call_back_open answered open_call closure)
