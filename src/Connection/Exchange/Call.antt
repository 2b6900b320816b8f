-- ===== src/Connection/Exchange/Call.antt =====
-- An RPC from the callbacks of net/rpc/rpc_channel.cc through both connections and back.
use talon_rpc.Prelude.{
  none, ℕ, suc, ◌≡◌, ◌≢◌, refl, sym, ap, ◌∙◌, List, [], ◌∷◌, ◌++◌, Option, some, true, false,
  Bool-cases, inl, inr,
}
use talon_rpc.Prelude.Text.{str_eq, str_eq_iff, str_eq_refl}
use talon_rpc.Prelude.Dict.{Dict, lookup}
use talon_rpc.Prelude.Outcome.{Outcome, ok}
use talon_rpc.Buffer.{TcpBuffer, contents}
use talon_rpc.Rpc.Replies.{answer_with}
use talon_rpc.Coder.Protocol.{TinyPbProtocol}
use talon_rpc.Coder.Encode.{or_default}
use talon_rpc.Coder.Wire.{wires, encoded}
use talon_rpc.Coder.RoundTrip.{IsOpen, AllSendable}
use talon_rpc.NetAddr.{IpNetAddr}
use talon_rpc.Connection.{TcpConnection, on_write}
use talon_rpc.Connection.Loops.{WriteResult, written}
use talon_rpc.Connection.Execute.{World, excute}
use talon_rpc.Connection.Serving.{replies_on}
use talon_rpc.Connection.Sending.{after_writes, none_waiting}
use talon_rpc.Connection.Calls.{of_id, once, first_with, once-none}
use talon_rpc.Connection.Exchange.{IsReady, IsServing, with_arrived, exchange_lem}
use talon_rpc.Rpc.Controller.{set_finished}
use talon_rpc.Rpc.Dispatcher.{RunTime, Method, Service, parse_service_full_name, controller_of}
use talon_rpc.Rpc.Channel.{RpcChannel, read_message, on_written, on_parsed, on_parse, on_response}
use talon_rpc.Rpc.Channel.Once.{call_back_open}
use talon_rpc.Connection.Exchange.Callbacks.{
  ChannelDone, written_done, response_done, channel_effect, write_effect, call_on_write,
  call_on_read, write_effect-IsWriteCallback, write_effect-waits, write_effect-channel,
}

-- A request that a server's services answer with these bytes.
pub record IsAnswered {M : Type 0} (service_map : Dict (Service M)) (local_addr : Option IpNetAddr)
    (peer_addr : IpNetAddr) (request : TinyPbProtocol) (pb_data : List ℕ) : Type 0 where
  pub service_name : List ℕ
  pub method_name : List ℕ
  pub service : Service M
  pub method : Method M
  pub req_msg : M
  pub rsp_msg : M
  pub named : parse_service_full_name request.method_name ≡ some (service_name, method_name)
  pub found : lookup service_name service_map ≡ some service
  pub has_method : service.find_method method_name ≡ some method
  pub parsed : method.parse_request request.pb_data ≡ some req_msg
  pub called :
      method.call_method (controller_of request local_addr peer_addr) req_msg ≡ some rsp_msg
  pub serialized : method.serialize_response rsp_msg ≡ some pb_data

abbrev pub answer : TinyPbProtocol → List ℕ → TinyPbProtocol
answer request pb_data = answer_with request.msg_id request.method_name pb_data

replies_on-answer :
    {M D : Type 0} (service_map : Dict (Service M)) (c : TcpConnection D) (request : TinyPbProtocol)
    (pb_data : List ℕ)
    → IsAnswered service_map c.local_addr c.peer_addr request pb_data
    → replies_on service_map c (request ∷ []) ≡ answer request pb_data ∷ []
replies_on-answer service_map c request pb_data h =
    rw (h.named, h.found, h.has_method, h.parsed, h.called, h.serialized)

or_default_idem : (id : List ℕ) → or_default (or_default id) ≡ or_default id
or_default_idem [] = refl
or_default_idem (c ∷ s) = refl

-- A log of calls for one id only.
of_id-only :
    {D : Type 0} (id : List ℕ) (log : List (D × TinyPbProtocol))
    → ((k : List ℕ) → k ≢ id → of_id k log ≡ [])
    → of_id id log ≡ log
of_id-only id [] others = refl
of_id-only id ((done, r) ∷ log) others = elim (Bool-cases (str_eq r.msg_id id)) [
  | inl same ↦ rw same (
      ap (◌∷◌ (done, r)) (
        of_id-only id log (λ k other. elim (Bool-cases (str_eq r.msg_id k)) [
          | inl e ↦
              absurd (other (sym ((str_eq_iff r.msg_id k).0 e) ∙ (str_eq_iff r.msg_id id).0 same))
          | inr e ↦ sym (rw e) ∙ others k other
        ])))
  | inr e ↦
      let other : r.msg_id ≢ id = λ same. cc (e, (str_eq_iff r.msg_id id).1 same) in
      let gone = others r.msg_id other in absurd (cc (rw (str_eq_refl r.msg_id) at gone))
]

-- One response leads to one call.
one_call :
    {D : Type 0} (id : List ℕ) (dones : Dict D) (done : D) (r : TinyPbProtocol)
    (log : List (D × TinyPbProtocol))
    → r.msg_id ≡ id
    → lookup id dones ≡ some done
    → ((k : List ℕ) → of_id k log ≡ once (lookup k dones) (first_with k (r ∷ [])))
    → log ≡ (done, r) ∷ []
one_call id dones done r log same waits each =
    let others : (k : List ℕ) → k ≢ id → of_id k log ≡ [] = λ k other.
      elim (Bool-cases (str_eq r.msg_id k)) [
        | inl e ↦ absurd (other (sym ((str_eq_iff r.msg_id k).0 e) ∙ same))
        | inr e ↦ each k ∙ rw e (once-none (lookup k dones))
      ] in
    sym (of_id-only id log others) ∙ each id ∙ rw (waits, (str_eq_iff r.msg_id id).1 same)

module _ {M : Type 0} where
  -- The channel when the response arrives.
  on_response-answer :
      (parse : List ℕ → Option M) (m : M) (pb_data : List ℕ) (request req : TinyPbProtocol)
      (ch : RpcChannel M)
      → parse pb_data ≡ some m
      → ch.controller.is_finished ≡ false
      → ch.has_closure ≡ true
      → on_response parse (encoded (answer request pb_data)) (on_written req ch) ≡ record ch {
        response = some m;
        closure_runs = suc ch.closure_runs;
        controller = set_finished true ch.controller;
        actions = ch.actions ++ (read_message req.msg_id ∷ []);
      }
  unfolding on_response on_parse on_written on_parsed
  on_response-answer parse m pb_data request req ch p open_call closure =
      let waiting : RpcChannel M = record ch {
        actions = ch.actions ++ (read_message req.msg_id ∷ []);
      } in
      ap (λ o. on_parse o (encoded (answer request pb_data)) waiting) p
      ∙ call_back_open (record waiting { response = some m }) open_call closure

  -- A call that has been connected, and whose request the server's services answer, is answered. The
  -- client's onWrite sends the request, and its callback has the channel wait for the id: the callback
  -- of the response stands under it in m_read_dones. The server's excute puts the response into its
  -- output buffer. When these bytes have arrived, the client's excute, from where onWrite has left the
  -- client, runs the closure of the channel once, with the response that the method has made in place,
  -- no failure noted, and the call finished. Nothing waited for the id before, the request goes out in
  -- one write(), both messages are sendable, and the buffers have room.
  pub call_lem :
      {D E : Type 0} (service_map : Dict (Service M)) (parse : List ℕ → Option M)
      (call_server : D → TinyPbProtocol → World D E → Outcome (World D E)) (m : M)
      (pb_data : List ℕ) (req : TinyPbProtocol) (n : ℕ) (results : List WriteResult)
      (ch : RpcChannel M) (c : TcpConnection ChannelDone) (s : World D E) (run_time : RunTime)
      (b : TcpBuffer)
      → c.write_dones ≡ (req, written_done) ∷ []
      → lookup (encoded req).msg_id c.read_dones ≡ none
      → IsReady n c
      → AllSendable (req ∷ [])
      → IsServing service_map (encoded req ∷ []) s
      → contents s.connection.in_buffer ≡ wires (req ∷ [])
      → IsAnswered service_map s.connection.local_addr s.connection.peer_addr (encoded req) pb_data
      → parse pb_data ≡ some m
      → ch.controller.is_finished ≡ false
      → ch.has_closure ≡ true
      → IsOpen b
      → contents b ≡ wires (answer (encoded req) pb_data ∷ [])
      → (client : RpcChannel M × TcpConnection ChannelDone) × (on_write
            (call_on_write parse)
            (written n ∷ results)
            (ch, c)
          ≡ ok (contents s.connection.in_buffer, client))
        × (client.0 ≡ on_written (encoded req) ch)
        × (lookup (encoded req).msg_id client.1.read_dones ≡ some response_done)
        × (s' : World D E) × (excute service_map call_server s ≡ ok s')
        × (contents s'.connection.out_buffer ≡ contents b)
        × (w' : World ChannelDone (RpcChannel M)) × (excute service_map
              (call_on_read parse)
              (with_arrived run_time b client)
            ≡ ok w')
        × (w'.env ≡ record ch {
          response = some m;
          closure_runs = suc ch.closure_runs;
          controller = set_finished true ch.controller;
          actions = ch.actions ++ (read_message (encoded req).msg_id ∷ []);
        })
  call_lem service_map parse call_server m pb_data req n results ch c s run_time b dones free ready
        sendable serving arrived answered p open_call closure open_in back =
      let id = (encoded req).msg_id in
      let r = encoded (answer (encoded req) pb_data) in
      let replies = replies_on-answer service_map s.connection (encoded req) pb_data answered in
      let (
        c2, has_written, client, left_as, wrote, s', served, rest, out, log, w', called, left,
        calls, each,
      ) =
        exchange_lem service_map (write_effect parse) (call_on_write parse) call_server
          (channel_effect parse) (call_on_read parse) n results ch c s run_time b
          (write_effect-IsWriteCallback parse) (λ done k v. refl) ready (rw dones sendable)
          (rw dones serving) (rw dones arrived) open_in (rw (dones, replies) back) in
      let registers : client
          ≡ none_waiting (write_effect parse written_done (encoded req) (ch, c2)) =
        left_as ∙ ap (λ ds. none_waiting (after_writes (write_effect parse) ds (ch, c2))) dones in
      let env : client.0 ≡ on_written (encoded req) ch =
        ap (λ t. t.0) registers ∙ write_effect-channel parse (encoded req) ch c2 in
      let waits : lookup id client.1.read_dones ≡ some response_done =
        ap (λ t. lookup id t.1.read_dones) registers
        ∙ write_effect-waits parse (encoded req) ch c2
            (ap (lookup id) has_written.same_reads ∙ free) in
      let one =
        one_call id client.1.read_dones response_done r log (or_default_idem req.msg_id) waits
          (λ k. each k ∙ rw (dones, replies)) in
      (
        client,
        wrote,
        env,
        waits,
        s',
        served,
        out,
        w',
        called,
        calls
            ∙ rw (one, env)
                (on_response-answer parse m pb_data (encoded req) (encoded req) ch p open_call
                  closure),
      )
