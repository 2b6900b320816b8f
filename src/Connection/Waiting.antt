-- ===== src/Connection/Waiting.antt =====
-- A client's excute in tcp_connection.cc: which waiting callback gets which response.
use talon_rpc.Prelude.{
  ℕ, ◌≡◌, refl, sym, ap, ◌∙◌, List, [], ◌∷◌, ◌++◌, map, none, some, Option-cases, inl, inr,
}
use talon_rpc.Prelude.Dict.{Dict, lookup, erase}
use talon_rpc.Prelude.Outcome.{Outcome, ok, ◌>>=◌}
use talon_rpc.Buffer.{contents}
use talon_rpc.Coder.Protocol.{TinyPbProtocol}
use talon_rpc.Coder.Wire.{wires, encoded}
use talon_rpc.Coder.Scan.{IsQuiet}
use talon_rpc.Coder.RoundTrip.{IsOpen, AllSendable, decode-wires}
use talon_rpc.Connection.{by_client}
use talon_rpc.Connection.Execute.{World, call_waiting, call_all, excute_as, excute}
use talon_rpc.Rpc.Dispatcher.{Service}
use talon_rpc.Connection.Calls.{
  log_of, left_of, of_id, once, unanswered, first_with, of_id-log_of, lookup-left_of,
}

-- What the calls of callbacks make of their surroundings.
abbrev pub after_calls :
    {D E : Type 0} → (D → TinyPbProtocol → E → E) → List (D × TinyPbProtocol) → E → E
after_calls effect [] env = env
after_calls effect ((done, r) ∷ log) env = after_calls effect log (effect done r env)

-- A callback succeeds, and changes only what is not the connection.
abbrev pub IsApart :
    {D E : Type 0}
    → (D → TinyPbProtocol → E → E)
    → (D → TinyPbProtocol → World D E → Outcome (World D E))
    → Type 0
IsApart {D} {E} effect call =
    (done : D) (r : TinyPbProtocol) (w : World D E)
    → call done r w ≡ ok (record w { env = effect done r w.env })

-- A round of calls at once.
abbrev calls_of : {D : Type 0} → List TinyPbProtocol → Dict D → List (D × TinyPbProtocol) × Dict D
calls_of responses dones = (log_of responses dones, left_of responses dones)

calls_of-none :
    {D : Type 0} (r : TinyPbProtocol) (responses : List TinyPbProtocol) (dones : Dict D)
    → lookup r.msg_id dones ≡ none
    → calls_of responses dones ≡ calls_of (r ∷ responses) dones
calls_of-none r responses dones e = rw (e, log_of, left_of)

calls_of-some :
    {D : Type 0} (r : TinyPbProtocol) (responses : List TinyPbProtocol) (dones : Dict D) (done : D)
    → lookup r.msg_id dones ≡ some done
    → calls_of (r ∷ responses) dones ≡ (
      (done, r) ∷ log_of responses (erase r.msg_id dones),
      left_of responses (erase r.msg_id dones),
    )
calls_of-some r responses dones done e = rw (e, log_of, left_of)

module _ {D E : Type 0} (effect : D → TinyPbProtocol → E → E) where
  abbrev settled : World D E → List (D × TinyPbProtocol) × Dict D → World D E
  settled w (log, dones) = record w {
    env = after_calls effect log w.env;
    connection = record (w.connection) { read_dones = dones };
  }

  module _ (call : D → TinyPbProtocol → World D E → Outcome (World D E)) where
    call_all-log :
        (responses : List TinyPbProtocol) (w : World D E)
        → IsApart effect call
        → call_all call responses w ≡ ok (settled w (calls_of responses w.connection.read_dones))
    unfolding call_all
    call_all-log [] w apart = refl
    call_all-log (r ∷ responses) w apart =
        let dones = w.connection.read_dones in
        elim (Option-cases (lookup r.msg_id dones)) [
          | inl e ↦
              ap (λ o. call_waiting call o r w >>= call_all call responses) e
              ∙ call_all-log responses w apart
              ∙ ap (λ p. ok (settled w p)) (calls_of-none r responses dones e)
          | inr (done, e) ↦
              let w1 = record w {
                env = effect done r w.env;
                connection = record (w.connection) { read_dones = erase r.msg_id dones };
              } in
              ap (λ o. call_waiting call o r w >>= call_all call responses) e
              ∙ rw (apart done r w, ◌>>=◌) (call_all-log responses w1 apart)
              ∙ ap (λ p. ok (settled w p)) (sym (calls_of-some r responses dones done e))
        ]

-- A client's excute takes every response that is whole in the input buffer out of it and calls, for
-- each id, the callback that waits for it once, with the first response that has the id, and no
-- other callback; that callback waits no longer, and the others stay. The input buffer is open, the
-- responses are sendable, no start mark stands in the bytes behind them, and a callback changes only
-- what is not the connection.
pub excute-calls :
    {M D E : Type 0} (service_map : Dict (Service M)) (effect : D → TinyPbProtocol → E → E)
    (call : D → TinyPbProtocol → World D E → Outcome (World D E)) (w : World D E)
    (responses : List TinyPbProtocol) (rest : List ℕ)
    → IsApart effect call
    → w.connection.connection_type ≡ by_client
    → IsOpen w.connection.in_buffer
    → AllSendable responses
    → IsQuiet rest
    → contents w.connection.in_buffer ≡ wires responses ++ rest
    → (log : List (D × TinyPbProtocol)) × (w' : World D E) × (excute service_map call w ≡ ok w')
      × (contents w'.connection.in_buffer ≡ rest)
      × (w'.env ≡ after_calls effect log w.env)
      × ((k : List ℕ)
          → of_id k log
            ≡ once (lookup k w.connection.read_dones) (first_with k (map encoded responses)))
      × ((k : List ℕ)
          → lookup k w'.connection.read_dones
            ≡ unanswered (first_with k (map encoded responses)) (lookup k w.connection.read_dones))
unfolding excute
excute-calls service_map effect call w responses rest apart client open_in h q e =
    let (b, e1, left, still) = decode-wires responses w.connection.in_buffer rest open_in h q e in
    let w1 = record w { connection = record (w.connection) { in_buffer = b } } in
    let dones = w.connection.read_dones in
    let all = map encoded responses in
    (
      log_of all dones,
      settled effect w1 (calls_of all dones),
      rw e1 (
          ap (λ t. excute_as service_map call t all w1) client
          ∙ (unfold excute_as in call_all-log effect call all w1 apart)),
      left,
      refl,
      λ k. of_id-log_of k all dones,
      λ k. lookup-left_of k all dones,
    )
