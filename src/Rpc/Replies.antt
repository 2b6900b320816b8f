-- ===== src/Rpc/Replies.antt =====
-- What a server is to answer to a request, described apart from net/rpc/rpc_dispatcher.cc.
use talon_rpc.Prelude.{false, ℕ, List, [], ◌∷◌, Option, none, some}
use talon_rpc.Prelude.Int.{pos}
use talon_rpc.Rpc.Controller.{RpcController, new_controller, error_failed_serialize}
use talon_rpc.Prelude.Text.{codes}
use talon_rpc.Prelude.Dict.{Dict, lookup}
use talon_rpc.Coder.Protocol.{TinyPbProtocol}
use talon_rpc.NetAddr.{IpNetAddr}
use talon_rpc.Rpc.Dispatcher.{Method, Service, parse_service_full_name}

-- The controller that a method gets: fresh, with the two addresses and the id of the request.
abbrev pub seen_controller : Option IpNetAddr → IpNetAddr → List ℕ → RpcController
seen_controller local_addr peer_addr msg_id = record new_controller {
  msg_id = msg_id;
  local_addr = local_addr;
  peer_addr = some peer_addr;
}

-- A response message: pk_len and the other lengths are set later, by encode.
abbrev pub answer_with : List ℕ → List ℕ → List ℕ → TinyPbProtocol
answer_with msg_id method_name pb_data = record {
  pk_len = pos 0;
  msg_id_len = pos 0;
  msg_id = msg_id;
  method_name_len = pos 0;
  method_name = method_name;
  err_code = pos 0;
  err_info_len = pos 0;
  err_info = [];
  pb_data = pb_data;
  check_sum = pos 0;
  parse_success = false;
}

abbrev pub serialize_error : List ℕ → List ℕ → TinyPbProtocol
serialize_error msg_id method_name = record (answer_with msg_id method_name []) {
  err_code = error_failed_serialize;
  err_info = codes "serilize error";
  err_info_len = pos 14;
}

abbrev pub answer_of : Option (List ℕ) → TinyPbProtocol → TinyPbProtocol
answer_of none request = serialize_error request.msg_id request.method_name
answer_of (some bytes) request = answer_with request.msg_id request.method_name bytes

module _ {M : Type 0} (local_addr : Option IpNetAddr) (peer_addr : IpNetAddr) where
  -- The replies to one request, at most one, written out: the id and the method name of the request,
  -- with the bytes of the response, or with an error where it cannot be serialized.
  abbrev pub called_replies : Method M → Option M → TinyPbProtocol → List TinyPbProtocol
  called_replies method none request = []
  called_replies method (some rsp_msg) request =
      answer_of (method.serialize_response rsp_msg) request ∷ []

  abbrev pub method_replies : Method M → TinyPbProtocol → Option M → List TinyPbProtocol
  method_replies method request none = []
  method_replies method request (some req_msg) =
      called_replies method
        (method.call_method (seen_controller local_addr peer_addr request.msg_id) req_msg) request

  abbrev pub found_replies : Option (Method M) → TinyPbProtocol → List TinyPbProtocol
  found_replies none request = []
  found_replies (some method) request =
      method_replies method request (method.parse_request request.pb_data)

  abbrev pub service_replies : List ℕ → Option (Service M) → TinyPbProtocol → List TinyPbProtocol
  service_replies method_name none request = []
  service_replies method_name (some service) request =
      found_replies (service.find_method method_name) request

  abbrev pub named_replies :
      Dict (Service M) → Option (List ℕ × List ℕ) → TinyPbProtocol → List TinyPbProtocol
  named_replies service_map none request = []
  named_replies service_map (some (service_name, method_name)) request =
      service_replies method_name (lookup service_name service_map) request

  abbrev pub replies : Dict (Service M) → TinyPbProtocol → List TinyPbProtocol
  replies service_map request =
      named_replies service_map (parse_service_full_name request.method_name) request
