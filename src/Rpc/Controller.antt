-- ===== src/Rpc/Controller.antt =====
-- net/rpc/rpc_controller.h, net/rpc/rpc_controller.cc and the constants of common/err_code.h.
use talon_rpc.Prelude.{ℕ, List, [], Bool, true, false, Option, none}
use talon_rpc.Prelude.Int.{ℤ, pos}
use talon_rpc.NetAddr.{IpNetAddr}

abbrev pub error_peer_closed : ℤ
error_peer_closed = pos 10000000

abbrev pub error_failed_connect : ℤ
error_failed_connect = pos 10000001

abbrev pub error_failed_deserialize : ℤ
error_failed_deserialize = pos 10000003

abbrev pub error_failed_serialize : ℤ
error_failed_serialize = pos 10000004

abbrev pub error_rpc_call_timeout : ℤ
error_rpc_call_timeout = pos 10000007

abbrev pub error_service_not_found : ℤ
error_service_not_found = pos 10000008

abbrev pub error_parse_service_name : ℤ
error_parse_service_name = pos 10000010

abbrev pub error_rpc_channel_init : ℤ
error_rpc_channel_init = pos 10000011

abbrev pub error_rpc_peer_addr : ℤ
error_rpc_peer_addr = pos 10000012

pub record RpcController : Type 0 where
  pub error_code : ℤ
  pub error_info : List ℕ
  pub msg_id : List ℕ
  pub is_failed : Bool
  pub is_cancled : Bool
  pub is_finished : Bool
  pub local_addr : Option IpNetAddr
  pub peer_addr : Option IpNetAddr
  pub timeout : ℤ

-- RpcController()
abbrev pub new_controller : RpcController
new_controller = record {
  error_code = pos 0;
  error_info = [];
  msg_id = [];
  is_failed = false;
  is_cancled = false;
  is_finished = false;
  local_addr = none;
  peer_addr = none;
  timeout = pos 1000;
}

unfoldable pub reset : RpcController → RpcController
reset c = record c {
  error_code = pos 0;
  error_info = [];
  msg_id = [];
  is_failed = false;
  is_cancled = false;
  is_finished = false;
  local_addr = none;
  peer_addr = none;
  timeout = pos 1000;
}

abbrev pub set_finished : Bool → RpcController → RpcController
set_finished value c = record c { is_finished = value }

unfoldable pub start_cancel : RpcController → RpcController
start_cancel c = set_finished true (record c { is_cancled = true; is_failed = true })

unfoldable pub set_failed : List ℕ → RpcController → RpcController
set_failed reason c = record c { error_info = reason; is_failed = true }

unfoldable pub set_error : ℤ → List ℕ → RpcController → RpcController
set_error error_code error_info c = record c {
  error_code = error_code;
  error_info = error_info;
  is_failed = true;
}

abbrev pub set_msg_id : List ℕ → RpcController → RpcController
set_msg_id msg_id c = record c { msg_id = msg_id }

abbrev pub set_local_addr : Option IpNetAddr → RpcController → RpcController
set_local_addr addr c = record c { local_addr = addr }

abbrev pub set_peer_addr : Option IpNetAddr → RpcController → RpcController
set_peer_addr addr c = record c { peer_addr = addr }

abbrev pub set_timeout : ℤ → RpcController → RpcController
set_timeout timeout c = record c { timeout = timeout }
