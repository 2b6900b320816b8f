-- ===== src/Connection/Exchange/Runs.antt =====
-- A client calls A.b of a server with one service, whose method returns its request.
use talon_rpc.Prelude.{
  ℕ, ◌≡◌, refl, List, [], ◌∷◌, ◌++◌, replicate, map, none, some, true, false, arith, if◌then◌else◌,
}
use talon_rpc.Prelude.Int.{to_word}
use talon_rpc.Prelude.Text.{codes, str_eq, find_first_of}
use talon_rpc.Prelude.Dict.{Dict, lookup}
use talon_rpc.Prelude.Outcome.{Outcome, ok}
use talon_rpc.Buffer.{TcpBuffer, contents}
use talon_rpc.Coder.Protocol.{TinyPbProtocol, new_message}
use talon_rpc.Coder.Net.{net_bytes}
use talon_rpc.Coder.Wire.{wire, wires, encoded}
use talon_rpc.Coder.Parse.{IsSendable}
use talon_rpc.Coder.RoundTrip.{IsOpen}
use talon_rpc.FdEvent.{new_event}
use talon_rpc.EventLoop.{Eventloop}
use talon_rpc.Rpc.Dispatcher.{RunTime, Method, Service, parse_service_full_name, filled}
use talon_rpc.Connection.{TcpConnection, Callback, connected, by_server, by_client, on_write}
use talon_rpc.Connection.Loops.{written}
use talon_rpc.Connection.Execute.{World, excute}
use talon_rpc.Connection.Sending.{after_writes, none_waiting, HasWritten, IsWriteCallback}
use talon_rpc.Connection.Serving.{replies_on}
use talon_rpc.Connection.Waiting.{after_calls}
use talon_rpc.Connection.Calls.{of_id, once, first_with}
use talon_rpc.Connection.Exchange.{IsReady, IsServing, with_arrived, exchange_lem}
use talon_rpc.Connection.Exchange.Call.{IsAnswered, call_lem}
use talon_rpc.Connection.Exchange.Callbacks.{
  ChannelDone, written_done, response_done, call_on_write, call_on_read,
}
use talon_rpc.Rpc.Controller.{new_controller, set_finished}
use talon_rpc.Rpc.Channel.{RpcChannel, read_message, on_written}

abbrev echo : Method (List ℕ)
echo = record {
  parse_request = λ s. some s;
  call_method = λ controller m. some m;
  serialize_response = λ m. some m;
}

abbrev service : Service (List ℕ)
unfolding str_eq
service = record {
  full_name = codes "A";
  methods = codes "b" ∷ [];
  find_method = λ name. if str_eq name (codes "b") then some echo else none;
}

abbrev service_map : Dict (Service (List ℕ))
service_map = (codes "A", service) ∷ []

abbrev request : TinyPbProtocol
request = record new_message { msg_id = codes "7"; method_name = codes "A.b"; pb_data = 5 ∷ [] }

abbrev event_loop : Eventloop Callback
event_loop = record {
  thread_id = 1;
  listen_fds = [];
  pending_tasks = [];
  is_looping = true;
  stop_flag = false;
  wakeups = 0;
  ctls = [];
}

abbrev fresh : TcpBuffer
fresh = record { read_index = 0; write_index = 0; size = 128; buffer = replicate 128 0 }

-- A client with the request to write, and with what waits for the id 7.
abbrev client_of : {D : Type 0} → List (TinyPbProtocol × D) → Dict D → TcpConnection D
client_of write_dones read_dones = record {
  event_loop = event_loop;
  thread = 1;
  local_addr = none;
  peer_addr = record { ip = codes "1.2.3.4"; port = 80 };
  in_buffer = fresh;
  out_buffer = fresh;
  fd_event = new_event 5;
  state = connected;
  connection_type = by_client;
  write_dones = write_dones;
  read_dones = read_dones;
}

-- Here the callbacks are numbers.
abbrev client : TcpConnection ℕ
client = client_of ((request, 1) ∷ []) ((codes "7", 2) ∷ [])

-- The bytes of the request at the front of the server's input buffer.
abbrev server : World ℕ ℕ
server = record {
  run_time = record { msgid = []; method_name = [] };
  env = 0;
  connection = record client {
    in_buffer = record fresh { write_index = 31; buffer = wires (request ∷ []) ++ replicate 97 0 };
    connection_type = by_server;
    write_dones = [];
    read_dones = [];
  };
}

-- What is called is noted.
abbrev Calls : Type 0
Calls = List (ℕ × TinyPbProtocol)

abbrev note : ℕ → TinyPbProtocol → Calls → Calls
note done m calls = calls ++ ((done, m) ∷ [])

-- A callback of a write is noted, and waits for the response itself.
abbrev write_effect : ℕ → TinyPbProtocol → Calls × TcpConnection ℕ → Calls × TcpConnection ℕ
write_effect done m (calls, c) =
    (note done m calls, record c { read_dones = (m.msg_id, done) ∷ c.read_dones })

abbrev call_write : ℕ → TinyPbProtocol → Calls × TcpConnection ℕ → Outcome (Calls × TcpConnection ℕ)
call_write done m s = ok (write_effect done m s)

write_effect-IsWriteCallback : IsWriteCallback write_effect call_write
write_effect-IsWriteCallback = record {
  runs = λ done m s. refl;
  same_dones = λ done m s. refl;
  same_type = λ done m s. refl;
}

abbrev call : ℕ → TinyPbProtocol → World ℕ Calls → Outcome (World ℕ Calls)
call done m w = ok (record w { env = note done m w.env })

abbrev call_server : ℕ → TinyPbProtocol → World ℕ ℕ → Outcome (World ℕ ℕ)
call_server done m w = ok w

client_of-IsReady :
    {D : Type 0} (done : D) (read_dones : Dict D)
    → IsReady 31 (client_of ((request, done) ∷ []) read_dones)
unfolding contents wire net_bytes to_word
client_of-IsReady done read_dones = record {
  up = refl;
  client = refl;
  valid = omega arith;
  empty = refl;
  room = omega arith;
  size = refl;
  some_bytes = omega arith;
}

request-IsSendable : IsSendable request
request-IsSendable = record {
  id_short = omega arith;
  id_no_nul = omega arith;
  method_short = omega arith;
  method_no_nul = omega arith;
  info_short = omega arith;
  info_no_nul = tt;
  code_fits = omega arith;
  size_fits = omega arith;
  no_check_sum = refl;
}

abbrev answers : List TinyPbProtocol
answers = replies_on service_map server.connection (map encoded (request ∷ []))

server-IsOpen : IsOpen server.connection.in_buffer
unfolding wire net_bytes to_word
server-IsOpen = record { valid = omega arith; not_full = omega arith; small = omega arith }

server-IsServing : IsServing service_map (map encoded (request ∷ [])) server
unfolding contents wire net_bytes to_word parse_service_full_name find_first_of lookup str_eq filled
server-IsServing = record {
  server = refl;
  open_in = server-IsOpen;
  valid = omega arith;
  empty = refl;
  room = omega arith;
  sendable = (
    record {
      id_short = omega arith;
      id_no_nul = omega arith;
      method_short = omega arith;
      method_no_nul = omega arith;
      info_short = omega arith;
      info_no_nul = tt;
      code_fits = omega arith;
      size_fits = omega arith;
      no_check_sum = refl;
    },
    tt,
  );
}

-- The client's input buffer when the bytes of the reply have arrived.
abbrev arrived : TcpBuffer
arrived = record fresh { write_index = 31; buffer = wires answers ++ replicate 97 0 }

abbrev idle : RunTime
idle = record { msgid = []; method_name = [] }

arrived-IsOpen : IsOpen arrived
unfolding wire net_bytes to_word parse_service_full_name find_first_of lookup str_eq filled
arrived-IsOpen = record { valid = omega arith; not_full = omega arith; small = omega arith }

exchange_lem_example :
    (c2 : TcpConnection ℕ) × HasWritten client c2
    × (after : Calls × TcpConnection ℕ) × (after
        ≡ none_waiting (after_writes write_effect client.write_dones ([], c2)))
    × (on_write call_write (written 31 ∷ []) ([], client)
        ≡ ok (contents server.connection.in_buffer, after))
    × (s' : World ℕ ℕ) × (excute service_map call_server server ≡ ok s')
    × (contents s'.connection.in_buffer ≡ [])
    × (contents s'.connection.out_buffer ≡ contents arrived)
    × (log : Calls) × (w' : World ℕ Calls) × (excute service_map call
          (with_arrived idle arrived after)
        ≡ ok w')
    × (contents w'.connection.in_buffer ≡ [])
    × (w'.env ≡ after_calls note log after.0)
    × ((k : List ℕ)
        → of_id k log ≡ once (lookup k after.1.read_dones) (first_with k (map encoded answers)))
unfolding contents wire net_bytes to_word parse_service_full_name find_first_of lookup str_eq filled
exchange_lem_example =
    exchange_lem service_map write_effect call_write call_server note call 31 [] [] client server
      idle arrived write_effect-IsWriteCallback (λ done m w. refl) (client_of-IsReady 1 _)
      (request-IsSendable, tt) server-IsServing refl arrived-IsOpen refl

-- A call that has been connected.
abbrev channel : RpcChannel (List ℕ)
channel = record {
  is_init = true;
  peer_addr = none;
  controller = new_controller;
  has_closure = true;
  closure_runs = 0;
  response = none;
  actions = [];
}

abbrev calling : TcpConnection ChannelDone
calling = client_of ((request, written_done) ∷ []) []

request-IsAnswered :
    IsAnswered service_map none server.connection.peer_addr (encoded request) (5 ∷ [])
unfolding parse_service_full_name find_first_of lookup str_eq
request-IsAnswered = record {
  service_name = codes "A";
  method_name = codes "b";
  service = service;
  method = echo;
  req_msg = 5 ∷ [];
  rsp_msg = 5 ∷ [];
  named = refl;
  found = refl;
  has_method = refl;
  parsed = refl;
  called = refl;
  serialized = refl;
}

call_lem_example :
    (after : RpcChannel (List ℕ) × TcpConnection ChannelDone) × (on_write
        (call_on_write some)
        (written 31 ∷ [])
        (channel, calling)
      ≡ ok (contents server.connection.in_buffer, after))
    × (after.0 ≡ on_written (encoded request) channel)
    × (lookup (codes "7") after.1.read_dones ≡ some response_done)
    × (s' : World ℕ ℕ) × (excute service_map call_server server ≡ ok s')
    × (contents s'.connection.out_buffer ≡ contents arrived)
    × (w' : World ChannelDone (RpcChannel (List ℕ))) × (excute service_map
          (call_on_read some)
          (with_arrived idle arrived after)
        ≡ ok w')
    × (w'.env ≡ record channel {
      response = some (5 ∷ []);
      closure_runs = 1;
      controller = set_finished true new_controller;
      actions = read_message (codes "7") ∷ [];
    })
unfolding contents wire net_bytes to_word parse_service_full_name find_first_of lookup str_eq filled
call_lem_example =
    call_lem service_map some call_server (5 ∷ []) (5 ∷ []) request 31 [] channel calling server
      idle arrived refl refl (client_of-IsReady written_done []) (request-IsSendable, tt)
      server-IsServing refl request-IsAnswered refl refl refl arrived-IsOpen refl
