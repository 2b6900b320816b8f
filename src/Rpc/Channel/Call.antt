-- ===== src/Rpc/Channel/Call.antt =====
-- RpcChannel::CallMethod in net/rpc/rpc_channel.cc.
use talon_rpc.Prelude.{ℕ, List, [], ◌∷◌, if◌then◌else◌, Option, none, some, Bool, true, false}
use talon_rpc.Prelude.Text.{codes, str_eq}
use talon_rpc.Prelude.Dict.{Dict}
use talon_rpc.Prelude.Outcome.{Outcome, ok, require, or_fault, ◌>>=◌, ◌>>◌}
use talon_rpc.Coder.Protocol.{TinyPbProtocol, new_message}
use talon_rpc.Discovery.Client.{Exchange, service_discovery}
use talon_rpc.NetAddr.{IpNetAddr, find_addr}
use talon_rpc.Rpc.Controller.{set_msg_id, error_failed_serialize, error_rpc_channel_init}
use talon_rpc.Rpc.MsgId.{MsgIds, gen_msg_id}
use talon_rpc.Rpc.Channel.{RpcChannel, fail_with}

-- How CallMethod ends: the process exits, it returns, or it waits for the connection.
pub data Called (M : Type 0) : Type 0 where
  exited : Called M
  returned : RpcChannel M → Called M
  connecting : TinyPbProtocol → RpcChannel M → Called M

-- The arguments: whether the controller and the response are not null, and the request, null or what
-- SerializeToString makes of it.
pub record Arguments : Type 0 where
  pub full_name : List ℕ
  pub has_controller : Bool
  pub request : Option (Option (List ℕ))
  pub has_response : Bool

abbrev no_text : List ℕ → Bool
no_text [] = true
no_text (c ∷ s) = false

-- The id of the request: the controller's, the one of the request that the thread serves, or a new one.
unfoldable pub choose_msg_id :
    Option (List ℕ) → List ℕ → List ℕ → MsgIds → Outcome (List ℕ × MsgIds)
choose_msg_id random own msgid ids =
    if no_text own
    then (if no_text msgid then gen_msg_id random ids else ok (msgid, ids))
    else ok (own, ids)

module _ {M : Type 0} where
  -- From the serialization on.
  unfoldable pub send_request : Option (List ℕ) → TinyPbProtocol → RpcChannel M → Outcome (Called M)
  unfolding fail_with
  send_request none req_protocol ch =
      ok (returned (fail_with error_failed_serialize (codes "failde to serialize") ch))
  send_request (some pb_data) req_protocol ch =
      ok (connecting (record req_protocol { pb_data = pb_data }) ch)

  -- From the test of the pointers on. callBack() uses m_controller, which is null before Init.
  unfoldable pub call_checked :
      Option (Option (List ℕ))
      → Arguments
      → Option (List ℕ)
      → List ℕ
      → MsgIds
      → RpcChannel M
      → Outcome (Called M × MsgIds)
  unfolding send_request choose_msg_id fail_with
  call_checked none a random msgid ids ch = do
    require ch.is_init
    ok (
      returned
          (fail_with error_rpc_channel_init (codes "controller or request or response NULL") ch),
      ids,
    )
  call_checked (some serialized) a random msgid ids ch = do
    (msg_id, ids') ← choose_msg_id random ch.controller.msg_id msgid ids
    require ch.is_init
    called ←
        send_request serialized (record new_message { msg_id = msg_id; method_name = a.full_name })
          (record ch { controller = set_msg_id msg_id ch.controller })
    ok (called, ids')

  -- From the address on. A null address is used by the constructor of TcpClient, and a null controller
  -- by SetError.
  unfoldable pub call_found :
      Option IpNetAddr
      → Arguments
      → Option (List ℕ)
      → List ℕ
      → MsgIds
      → RpcChannel M
      → Outcome (Called M × MsgIds)
  unfolding call_checked
  call_found peer_addr a random msgid ids ch = do
    addr ← or_fault peer_addr
    require a.has_controller
    call_checked (if a.has_response then a.request else none) a random msgid ids
        (record ch { peer_addr = some addr })

  unfoldable pub call_addressed :
      Option (List ℕ)
      → Dict IpNetAddr
      → Arguments
      → Option (List ℕ)
      → List ℕ
      → MsgIds
      → RpcChannel M
      → Outcome (Called M × MsgIds)
  unfolding call_found
  call_addressed none stubs a random msgid ids ch = ok (exited, ids)
  call_addressed (some server_addr) stubs a random msgid ids ch =
      if str_eq server_addr (codes "unknown host")
      then ok (returned ch, ids)
      else do peer_addr ← find_addr stubs server_addr; call_found peer_addr a random msgid ids ch

  -- CallMethod, with the answer of the service centre, the stubs of the configuration, what
  -- /dev/urandom would give, the id in the thread's RunTime and the thread's ids.
  unfoldable pub call_method :
      Exchange
      → Dict IpNetAddr
      → Arguments
      → Option (List ℕ)
      → List ℕ
      → MsgIds
      → RpcChannel M
      → Outcome (Called M × MsgIds)
  unfolding call_addressed
  call_method exchange stubs a random msgid ids ch = do
    server_addr ← service_discovery exchange
    call_addressed server_addr stubs a random msgid ids ch
