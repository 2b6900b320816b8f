-- ===== src/Rpc/Answer.antt =====
-- What a server answers to a request, and that dispatch sends it.
use talon_rpc.Prelude.{
  subst, Option-cases, inl, inr, ℕ, ◌+◌, ◌*◌, ◌/◌, ◌^◌, ◌<◌, ◌≤◌, ◌≡◌, refl, sym, ap, ◌∙◌, List, [],
  ◌∷◌, ◌++◌, length, Option, none, some, arith, append-nil, length-append,
}
use talon_rpc.Prelude.Int.{ℤ}
use talon_rpc.Prelude.Text.{codes}
use talon_rpc.Prelude.Dict.{Dict, lookup}
use talon_rpc.Prelude.Outcome.{Outcome, ok}
use talon_rpc.Buffer.{contents, IsValid}
use talon_rpc.Buffer.Contents.{Holds}
use talon_rpc.Buffer.Writes.{write_to_buffer_appends}
use talon_rpc.Coder.Protocol.{TinyPbProtocol, new_message}
use talon_rpc.Coder.Encode.{with_msg_id, encode}
use talon_rpc.Coder.Wire.{wire, wires, length-wire, encode_tiny_pb-wire, encoded}
use talon_rpc.NetAddr.{IpNetAddr}
use talon_rpc.Connection.{TcpConnection, reply, listen_write}
use talon_rpc.Rpc.Dispatcher.{
  Method, Service, RunTime, Dispatched, parse_service_full_name, controller_of, prepared, filled,
  set_tiny_pb_error, run_closure, after_call, on_request, on_method, on_name, on_service,
  failed_with, dispatch,
}
use talon_rpc.Rpc.Replies.{
  answer_of, called_replies, method_replies, found_replies, service_replies, named_replies, replies,
}

-- The response that dispatch begins with.
abbrev response_to : TinyPbProtocol → TinyPbProtocol
response_to request = prepared request new_message

called_replies-filled :
    {M : Type 0} (local_addr : Option IpNetAddr) (peer_addr : IpNetAddr) (method : Method M)
    (rsp_msg : M) (request : TinyPbProtocol)
    → called_replies local_addr peer_addr method (some rsp_msg) request
      ≡ filled method rsp_msg (response_to request) ∷ []
unfolding filled set_tiny_pb_error
called_replies-filled local_addr peer_addr method rsp_msg request =
    elim (Option-cases (method.serialize_response rsp_msg)) [
      | inl e ↦ rw (e, filled, set_tiny_pb_error, answer_of) refl
      | inr (bytes, e) ↦ rw (e, filled, answer_of) refl
    ]

-- A connection after some messages were put into its output buffer.
pub record Sends {D : Type 0} (c : TcpConnection D) (messages : List TinyPbProtocol)
    (c' : TcpConnection D) : Type 0 where
  pub out : Holds (contents c.out_buffer ++ wires messages) c'.out_buffer
  pub low : c'.out_buffer.write_index ≤ c.out_buffer.write_index + length (wires messages)
  pub same_local : c'.local_addr ≡ c.local_addr
  pub same_peer : c'.peer_addr ≡ c.peer_addr
  pub same_in : c'.in_buffer ≡ c.in_buffer

module _ {D : Type 0} where
  pub nothing_sent : (c : TcpConnection D) → IsValid c.out_buffer → Sends c [] c
  nothing_sent c v = record {
    out = record { valid = v; unread = sym (append-nil _) };
    low = omega arith;
    same_local = refl;
    same_peer = refl;
    same_in = refl;
  }

  reply-Sends :
      (m : TinyPbProtocol) (c : TcpConnection D)
      → IsValid c.out_buffer
      → 3 * (c.out_buffer.write_index + length (wires (m ∷ []))) / 2 < 2 ^ 31
      → (c' : TcpConnection D) × (reply (m ∷ []) c ≡ ok (encoded m ∷ [], c')) × Sends c (m ∷ []) c'
  unfolding reply encode listen_write
  reply-Sends m c v fits =
      let l = length-append (wire (with_msg_id m)) [] in
      let size = length-wire (with_msg_id m) in
      let (b, e, held, low) =
        write_to_buffer_appends c.out_buffer (wire (with_msg_id m)) v (omega (arith, l)) in
      (
        listen_write (record c { out_buffer = b }),
        rw (encode_tiny_pb-wire m (omega (arith, l, size)), e),
        record {
          out = record {
            valid = held.valid;
            unread = held.unread ∙ ap (◌++◌ (contents c.out_buffer)) (sym (append-nil _));
          };
          low = omega (arith, l, low);
          same_local = refl;
          same_peer = refl;
          same_in = refl;
        },
      )

-- The room that the replies need.
abbrev pub Fits : {D : Type 0} → TcpConnection D → List TinyPbProtocol → Type 0
Fits c messages = 3 * (c.out_buffer.write_index + length (wires messages)) / 2 < 2 ^ 31

-- A run of dispatch that sends these messages and returns.
abbrev Does : {D : Type 0} → TcpConnection D → Outcome (Dispatched D) → List TinyPbProtocol → Type 0
Does c run messages = (d : Dispatched _) × (run ≡ ok d) × Sends c messages d.connection

failed_with-Does :
    {D : Type 0} (c : TcpConnection D) (code : ℤ) (info : List ℕ) (response : TinyPbProtocol)
    (run_time : RunTime)
    → IsValid c.out_buffer
    → Does c (failed_with code info response run_time c) []
unfolding failed_with
failed_with-Does c code info response run_time v = (_, refl, nothing_sent c v)

module _ {M D : Type 0} (c : TcpConnection D) (v : IsValid c.out_buffer) where
  after_call-Does :
      (method : Method M) (rsp : Option M) (request : TinyPbProtocol) (run_time : RunTime)
      → Fits c (called_replies c.local_addr c.peer_addr method rsp request)
      → Does c
          (after_call method rsp (response_to request) run_time c)
          (called_replies c.local_addr c.peer_addr method rsp request)
  unfolding after_call run_closure
  after_call-Does method none request run_time fits = (_, refl, nothing_sent c v)
  after_call-Does method (some rsp_msg) request run_time fits =
      let rsp = filled method rsp_msg (response_to request) in
      let same = called_replies-filled c.local_addr c.peer_addr method rsp_msg request in
      let (c', e, sends) = reply-Sends rsp c v (subst (Fits c) same fits) in
      (
        record { response = encoded rsp; run_time = run_time; connection = c' },
        rw e,
        subst (λ ms. Sends c ms c') (sym same) sends,
      )

  on_request-Does :
      (name : List ℕ) (method : Method M) (req : Option M) (request : TinyPbProtocol)
      (run_time : RunTime)
      → Fits c (method_replies c.local_addr c.peer_addr method request req)
      → Does c
          (on_request name method req request (response_to request) run_time c)
          (method_replies c.local_addr c.peer_addr method request req)
  unfolding on_request
  on_request-Does name method none request run_time fits =
      failed_with-Does c _ (codes "deserilize error") (response_to request) run_time v
  on_request-Does name method (some req_msg) request run_time fits =
      after_call-Does method
        (method.call_method (controller_of request c.local_addr c.peer_addr) req_msg) request
        (record { msgid = request.msg_id; method_name = name }) fits

  on_method-Does :
      (name : List ℕ) (method : Option (Method M)) (request : TinyPbProtocol) (run_time : RunTime)
      → Fits c (found_replies c.local_addr c.peer_addr method request)
      → Does c
          (on_method name method request (response_to request) run_time c)
          (found_replies c.local_addr c.peer_addr method request)
  unfolding on_method
  on_method-Does name none request run_time fits =
      failed_with-Does c _ (codes "method not found") (response_to request) run_time v
  on_method-Does name (some method) request run_time fits =
      on_request-Does name method (method.parse_request request.pb_data) request run_time fits

  on_service-Does :
      (name : List ℕ) (service : Option (Service M)) (request : TinyPbProtocol) (run_time : RunTime)
      → Fits c (service_replies c.local_addr c.peer_addr name service request)
      → Does c
          (on_service name service request (response_to request) run_time c)
          (service_replies c.local_addr c.peer_addr name service request)
  unfolding on_service
  on_service-Does name none request run_time fits =
      failed_with-Does c _ (codes "service not found") (response_to request) run_time v
  on_service-Does name (some service) request run_time fits =
      on_method-Does name (service.find_method name) request run_time fits

  on_name-Does :
      (service_map : Dict (Service M)) (names : Option (List ℕ × List ℕ)) (request : TinyPbProtocol)
      (run_time : RunTime)
      → Fits c (named_replies c.local_addr c.peer_addr service_map names request)
      → Does c
          (on_name service_map names request (response_to request) run_time c)
          (named_replies c.local_addr c.peer_addr service_map names request)
  unfolding on_name
  on_name-Does service_map none request run_time fits =
      failed_with-Does c _ (codes "parse service name error") (response_to request) run_time v
  on_name-Does service_map (some (service_name, name)) request run_time fits =
      on_service-Does name (lookup service_name service_map) request run_time fits

  -- dispatch with a fresh response message returns on every branch, if the output buffer is valid and
  -- has room for the reply within an int. Behind what the buffer holds it puts a message with the id
  -- and the method name of the request and the bytes of the method's response, or an error where the
  -- response cannot be serialized; nothing where the method does not run its closure; and nothing at
  -- all where the name, the service, the method or the request message is wrong.
  pub dispatch-replies :
      (service_map : Dict (Service M)) (request : TinyPbProtocol) (run_time : RunTime)
      → Fits c (replies c.local_addr c.peer_addr service_map request)
      → (d : Dispatched D) × (dispatch service_map request new_message run_time c ≡ ok d)
        × Sends c (replies c.local_addr c.peer_addr service_map request) d.connection
  unfolding dispatch
  dispatch-replies service_map request run_time fits =
      on_name-Does service_map (parse_service_full_name request.method_name) request run_time fits
