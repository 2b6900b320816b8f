-- ===== src/Rpc/Channel/Runs.antt =====
-- A call of the method A.b whose response is the bytes of the message.
use talon_rpc.Prelude.{ℕ, ◌≡◌, refl, List, [], ◌∷◌, ◌++◌, Option, none, some, true}
use talon_rpc.Prelude.Text.{codes}
use talon_rpc.Coder.Protocol.{TinyPbProtocol, new_message}
use talon_rpc.Rpc.Controller.{new_controller}
use talon_rpc.Rpc.Channel.{
  RpcChannel, Event, timeout_arrives, connect_ends, write_ends, response_arrives, on_events,
}
use talon_rpc.Prelude.{arith}
use talon_rpc.Prelude.Decimal.{to_string, digits}
use talon_rpc.Prelude.Outcome.{ok}
use talon_rpc.NetAddr.{IpNetAddr, to_text}
use talon_rpc.Discovery.Client.{answered}
use talon_rpc.Rpc.Controller.{set_msg_id}
use talon_rpc.Rpc.MsgId.{MsgIds}
use talon_rpc.Rpc.Channel.Call.{connecting, call_method, choose_msg_id}
use talon_rpc.Rpc.Channel.Calling.{IsAddress, whole, call_method-connecting}
use talon_rpc.Rpc.Channel.Once.{IsOnce, on_events-IsOnce, timeout_silences}

abbrev channel : RpcChannel (List ℕ)
channel = record {
  is_init = true;
  peer_addr = none;
  controller = new_controller;
  has_closure = true;
  closure_runs = 0;
  response = none;
  actions = [];
}

abbrev request : TinyPbProtocol
request = record new_message { msg_id = codes "7"; method_name = codes "A.b" }

abbrev response : TinyPbProtocol
response = record new_message { msg_id = codes "7"; method_name = codes "A.b"; pb_data = 1 ∷ [] }

abbrev parse : List ℕ → Option (List ℕ)
parse s = some s

abbrev answer : List (Event (List ℕ))
answer = connect_ends request none ∷ write_ends request ∷ response_arrives parse response ∷ []

on_events-IsOnce_example : IsOnce (on_events (answer ++ answer) channel)
on_events-IsOnce_example = on_events-IsOnce (answer ++ answer) channel refl

timeout_silences_example :
    ((on_events (timeout_arrives ∷ answer) channel).controller.is_finished ≡ true)
    × ((on_events (timeout_arrives ∷ answer) channel).closure_runs ≡ 0)
timeout_silences_example = timeout_silences answer channel refl

abbrev server_address : IpNetAddr
server_address = record { ip = codes "1.2"; port = 80 }

server_address-IsAddress : IsAddress server_address
unfolding to_string digits
server_address-IsAddress = record {
  no_colon = (omega arith, (omega arith, (omega arith, tt)));
  some_ip = omega arith;
  some_port = omega arith;
  port_fits = omega arith;
  no_nul = omega arith;
  short = omega arith;
}

abbrev ids : MsgIds
ids = record { msg_id_no = []; max_msg_id_no = [] }

abbrev named : RpcChannel (List ℕ)
named = record channel { controller = record new_controller { msg_id = codes "7" } }

call_method-connecting_example :
    call_method
      (answered (to_text server_address))
      []
      (whole (codes "A.b") (1 ∷ []))
      none
      []
      ids
      named
    ≡ ok (
      connecting
          (record new_message { msg_id = codes "7"; method_name = codes "A.b"; pb_data = 1 ∷ [] })
          (record named {
            peer_addr = some server_address;
            controller = set_msg_id (codes "7") named.controller;
          }),
      ids,
    )
unfolding choose_msg_id
call_method-connecting_example =
    call_method-connecting [] server_address (codes "A.b") (1 ∷ []) (codes "7") [] none ids ids
      named server_address-IsAddress refl refl
