-- ===== src/Rpc/Dispatcher.antt =====
-- net/rpc/rpc_dispatcher.h and net/rpc/rpc_dispatcher.cc: from a request to the service's method, and
-- from what the method computes to the reply.
-- A google::protobuf::Service is a record of what the dispatcher asks of it. Its messages are of a
-- type `M`. CallMethod gets the request and the controller and yields the response as it is when the
-- closure runs, or nothing when the method returns and the closure was not run.
use talon_rpc.Prelude.{ℕ, suc, ◌-◌, List, [], ◌∷◌, ◌++◌, take, drop, length, Option, none, some}
use talon_rpc.Prelude.Int.{ℤ, pos}
use talon_rpc.Prelude.Text.{codes, find_first_of}
use talon_rpc.Prelude.Dict.{Dict, lookup, assign}
use talon_rpc.Prelude.Outcome.{Outcome, ok, ◌>>=◌}
use talon_rpc.Coder.Protocol.{TinyPbProtocol}
use talon_rpc.Connection.{TcpConnection, reply}
use talon_rpc.NetAddr.{IpNetAddr}
use talon_rpc.Discovery.Client.{add_command}
use talon_rpc.Rpc.Controller.{
  RpcController, new_controller, set_local_addr, set_peer_addr, set_msg_id,
  error_failed_deserialize, error_failed_serialize, error_service_not_found,
  error_parse_service_name,
}

-- A method as its descriptor, its prototypes and its code give it.
pub record Method (M : Type 0) : Type 0 where
  pub parse_request : List ℕ → Option M
  pub call_method : RpcController → M → Option M
  pub serialize_response : M → Option (List ℕ)

pub record Service (M : Type 0) : Type 0 where
  pub full_name : List ℕ
  pub methods : List (List ℕ)
  pub find_method : List ℕ → Option (Method M)

-- The members of common/run_time.h that the framework sets.
pub record RunTime : Type 0 where
  pub msgid : List ℕ
  pub method_name : List ℕ

-- parseServiceFullName: the two names, or false.
unfoldable pub parse_service_full_name : List ℕ → Option (List ℕ × List ℕ)
parse_service_full_name [] = none
parse_service_full_name (c ∷ s) = elim (find_first_of b'.' (c ∷ s)) [
  | none ↦ none
  | some i ↦ some (take i (c ∷ s), take (length (c ∷ s) - i - 1) (drop (suc i) (c ∷ s)))
]

unfoldable pub set_tiny_pb_error : ℤ → List ℕ → TinyPbProtocol → TinyPbProtocol
set_tiny_pb_error err_code err_info msg = record msg {
  err_code = err_code;
  err_info = err_info;
  err_info_len = pos (length err_info);
}

-- The response before anything is looked up.
abbrev pub prepared : TinyPbProtocol → TinyPbProtocol → TinyPbProtocol
prepared request response = record response {
  msg_id = request.msg_id;
  method_name = request.method_name;
}

-- What a call of dispatch leaves: the response, the RunTime of the thread and the connection.
pub record Dispatched (D : Type 0) : Type 0 where
  pub response : TinyPbProtocol
  pub run_time : RunTime
  pub connection : TcpConnection D

-- The closure: the response is filled in.
unfoldable pub filled : {M : Type 0} → Method M → M → TinyPbProtocol → TinyPbProtocol
unfolding set_tiny_pb_error
filled method rsp_msg response = elim (method.serialize_response rsp_msg) [
  | none ↦ set_tiny_pb_error error_failed_serialize (codes "serilize error") response
  | some pb_data ↦ record response { pb_data = pb_data; err_code = pos 0; err_info = [] }
]

-- The response that encode has seen.
abbrev pub sent_of : TinyPbProtocol → List TinyPbProtocol → TinyPbProtocol
sent_of response [] = response
sent_of response (m ∷ ms) = m

abbrev pub controller_of : TinyPbProtocol → Option IpNetAddr → IpNetAddr → RpcController
controller_of request local_addr peer_addr =
    set_msg_id request.msg_id
      (set_peer_addr (some peer_addr) (set_local_addr local_addr new_controller))

-- A return with an error: nothing is sent.
unfoldable pub failed_with :
    {D : Type 0} → ℤ → List ℕ → TinyPbProtocol → RunTime → TcpConnection D → Outcome (Dispatched D)
unfolding set_tiny_pb_error
failed_with err_code err_info response run_time connection = ok (record {
  response = set_tiny_pb_error err_code err_info response;
  run_time = run_time;
  connection = connection;
})

module _ {M D : Type 0} where
  -- The closure: it is then sent.
  unfoldable pub run_closure :
      Method M → M → TinyPbProtocol → RunTime → TcpConnection D → Outcome (Dispatched D)
  unfolding filled
  run_closure method rsp_msg response run_time connection = do
    (messages, connection') ← reply (filled method rsp_msg response ∷ []) connection
    ok (record {
      response = sent_of (filled method rsp_msg response) messages;
      run_time = run_time;
      connection = connection';
    })

  -- What follows when CallMethod has returned, with the closure if the method has run it.
  unfoldable pub after_call :
      Method M → Option M → TinyPbProtocol → RunTime → TcpConnection D → Outcome (Dispatched D)
  unfolding run_closure
  after_call method none response run_time connection =
      ok (record { response = response; run_time = run_time; connection = connection })
  after_call method (some rsp_msg) response run_time connection =
      run_closure method rsp_msg response run_time connection

  -- The request message was parsed, or not.
  unfoldable pub on_request :
      List ℕ
      → Method M
      → Option M
      → TinyPbProtocol
      → TinyPbProtocol
      → RunTime
      → TcpConnection D
      → Outcome (Dispatched D)
  unfolding after_call failed_with
  on_request method_name method none request response run_time connection =
      failed_with error_failed_deserialize (codes "deserilize error") response run_time connection
  on_request method_name method (some req_msg) request response run_time connection =
      after_call method
        (method.call_method (controller_of request connection.local_addr connection.peer_addr)
          req_msg)
        response (record { msgid = request.msg_id; method_name = method_name }) connection

  unfoldable pub on_method :
      List ℕ
      → Option (Method M)
      → TinyPbProtocol
      → TinyPbProtocol
      → RunTime
      → TcpConnection D
      → Outcome (Dispatched D)
  unfolding on_request failed_with
  on_method method_name none request response run_time connection =
      failed_with error_service_not_found (codes "method not found") response run_time connection
  on_method method_name (some method) request response run_time connection =
      on_request method_name method (method.parse_request request.pb_data) request response run_time
        connection

  -- The service and the method are looked up.
  unfoldable pub on_service :
      List ℕ
      → Option (Service M)
      → TinyPbProtocol
      → TinyPbProtocol
      → RunTime
      → TcpConnection D
      → Outcome (Dispatched D)
  unfolding on_method failed_with
  on_service method_name none request response run_time connection =
      failed_with error_service_not_found (codes "service not found") response run_time connection
  on_service method_name (some service) request response run_time connection =
      on_method method_name (service.find_method method_name) request response run_time connection

  unfoldable pub on_name :
      Dict (Service M)
      → Option (List ℕ × List ℕ)
      → TinyPbProtocol
      → TinyPbProtocol
      → RunTime
      → TcpConnection D
      → Outcome (Dispatched D)
  unfolding on_service failed_with
  on_name service_map none request response run_time connection =
      failed_with error_parse_service_name (codes "parse service name error") response run_time
        connection
  on_name service_map (some (service_name, method_name)) request response run_time connection =
      on_service method_name (lookup service_name service_map) request response run_time connection

  -- dispatch(request, response, connection), with m_service_map.
  unfoldable pub dispatch :
      Dict (Service M)
      → TinyPbProtocol
      → TinyPbProtocol
      → RunTime
      → TcpConnection D
      → Outcome (Dispatched D)
  unfolding parse_service_full_name on_name
  dispatch service_map request response run_time connection =
      on_name service_map (parse_service_full_name request.method_name) request
        (prepared request response) run_time connection

-- The commands that registerService sends to the centre, one for each method.
unfoldable pub register_commands : List ℕ → List (List ℕ) → List ℕ → ℤ → List (List ℕ)
register_commands service_name [] local_ip local_port = []
register_commands service_name (name ∷ names) local_ip local_port =
    add_command (service_name ++ (b'.' ∷ name)) local_ip local_port
    ∷ register_commands service_name names local_ip local_port

-- registerService(service): the map and the commands. What the centre answers is only logged.
unfoldable pub register_service :
    {M : Type 0} → Service M → List ℕ → ℤ → Dict (Service M) → Dict (Service M) × List (List ℕ)
unfolding register_commands
register_service service local_ip local_port service_map = (
  assign service.full_name service service_map,
  register_commands service.full_name service.methods local_ip local_port,
)
