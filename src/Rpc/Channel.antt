-- ===== src/Rpc/Channel.antt =====
-- net/rpc/rpc_channel.h and net/rpc/rpc_channel.cc: a call on the client's side; CallMethod is in Call.
-- The field `controller` is the object that CallMethod gets; it is also m_controller once Init was
-- called, and m_controller is null before. m_closure->Run() is counted. Messages of protobuf are of a
-- type `M`; of the connection only what the callbacks do with it is recorded.
pub mod Call
pub mod Once
pub mod Calling
mod Runs
use talon_rpc.Prelude.{
  ℕ, zero, suc, List, [], ◌∷◌, ◌++◌, if◌then◌else◌, Option, none, some, Bool, true, false,
}
use talon_rpc.Prelude.Int.{ℤ, pos, negsuc}
use talon_rpc.Prelude.Text.{codes, str_eq}
use talon_rpc.Prelude.Decimal.{to_string}
use talon_rpc.Prelude.Dict.{Dict}
use talon_rpc.Prelude.Outcome.{Outcome, ok, fault, require, or_fault, ◌>>=◌, ◌>>◌}
use talon_rpc.Coder.Protocol.{TinyPbProtocol, new_message}
use talon_rpc.Discovery.Client.{Exchange, service_discovery}
use talon_rpc.NetAddr.{IpNetAddr, find_addr}
use talon_rpc.Rpc.Controller.{
  RpcController, set_error, set_finished, set_msg_id, start_cancel, error_failed_serialize,
  error_rpc_call_timeout, error_rpc_channel_init,
}
use talon_rpc.Rpc.MsgId.{MsgIds, gen_msg_id}

-- What the callbacks ask the client to do.
pub data Action : Type 0 where
  write_message : TinyPbProtocol → Action
  read_message : List ℕ → Action

pub record RpcChannel (M : Type 0) : Type 0 where
  pub is_init : Bool
  pub peer_addr : Option IpNetAddr
  pub controller : RpcController
  pub has_closure : Bool
  pub closure_runs : ℕ
  pub response : Option M
  pub actions : List Action

module _ {M : Type 0} where
  -- callBack() with a controller.
  unfoldable pub call_back : RpcChannel M → RpcChannel M
  call_back ch =
      if ch.controller.is_finished
      then ch
      else if ch.has_closure
      then record ch {
        closure_runs = suc ch.closure_runs;
        controller = set_finished true ch.controller;
      }
      else ch

  -- Init: only the first call counts.
  unfoldable pub init_channel : RpcController → Bool → RpcChannel M → RpcChannel M
  init_channel controller has_closure ch =
      if ch.is_init
      then ch
      else record ch { controller = controller; has_closure = has_closure; is_init = true }

  -- SetError on the controller, and then callBack().
  unfoldable pub fail_with : ℤ → List ℕ → RpcChannel M → RpcChannel M
  unfolding call_back
  fail_with code info ch = call_back (record ch { controller = set_error code info ch.controller })

  -- The task of the timer, which begins with a test of Finished().
  unfoldable pub on_timeout_if : Bool → RpcChannel M → RpcChannel M
  unfolding fail_with
  on_timeout_if true ch = ch
  on_timeout_if false ch =
      fail_with error_rpc_call_timeout
        (codes "rpc call timeout " ++ to_string ch.controller.timeout)
        (record ch { controller = start_cancel ch.controller })

  unfoldable pub on_timeout : RpcChannel M → RpcChannel M
  unfolding on_timeout_if
  on_timeout ch = on_timeout_if ch.controller.is_finished ch

  -- The callback of connect, with the client's error: none is code 0.
  unfoldable pub on_connect : TinyPbProtocol → Option (ℤ × List ℕ) → RpcChannel M → RpcChannel M
  unfolding fail_with
  on_connect req_protocol none ch = record ch {
    actions = ch.actions ++ (write_message req_protocol ∷ []);
  }
  on_connect req_protocol (some (code, info)) ch = fail_with code info ch

  -- The callback of writeMessage.
  unfoldable pub on_written : TinyPbProtocol → RpcChannel M → RpcChannel M
  on_written req_protocol ch = record ch {
    actions = ch.actions ++ (read_message req_protocol.msg_id ∷ []);
  }

  -- The test of the response's error code.
  unfoldable pub on_parsed : ℤ → TinyPbProtocol → RpcChannel M → RpcChannel M
  unfolding fail_with call_back
  on_parsed (pos zero) rsp_protocol ch = call_back ch
  on_parsed (pos (suc n)) rsp_protocol ch = fail_with (pos (suc n)) rsp_protocol.err_info ch
  on_parsed (negsuc n) rsp_protocol ch = fail_with (negsuc n) rsp_protocol.err_info ch

  -- The callback of readMessage. `parse` is ParseFromString of the response message.
  unfoldable pub on_parse : Option M → TinyPbProtocol → RpcChannel M → RpcChannel M
  unfolding on_parsed fail_with
  on_parse none rsp_protocol ch = fail_with error_failed_serialize (codes "serialize error") ch
  on_parse (some m) rsp_protocol ch =
      on_parsed rsp_protocol.err_code rsp_protocol (record ch { response = some m })

  unfoldable pub on_response : (List ℕ → Option M) → TinyPbProtocol → RpcChannel M → RpcChannel M
  unfolding on_parse
  on_response parse rsp_protocol ch = on_parse (parse rsp_protocol.pb_data) rsp_protocol ch

-- What the channel lives through after CallMethod has begun to connect.
pub data Event (M : Type 0) : Type 0 where
  timeout_arrives : Event M
  connect_ends : TinyPbProtocol → Option (ℤ × List ℕ) → Event M
  write_ends : TinyPbProtocol → Event M
  response_arrives : (List ℕ → Option M) → TinyPbProtocol → Event M

module _ {M : Type 0} where
  unfoldable pub on_event : Event M → RpcChannel M → RpcChannel M
  unfolding on_timeout on_connect on_written on_response
  on_event timeout_arrives ch = on_timeout ch
  on_event (connect_ends req_protocol error) ch = on_connect req_protocol error ch
  on_event (write_ends req_protocol) ch = on_written req_protocol ch
  on_event (response_arrives parse rsp_protocol) ch = on_response parse rsp_protocol ch

  unfoldable pub on_events : List (Event M) → RpcChannel M → RpcChannel M
  unfolding on_event
  on_events [] ch = ch
  on_events (e ∷ es) ch = on_events es (on_event e ch)
