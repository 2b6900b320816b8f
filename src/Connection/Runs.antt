-- ===== src/Connection/Runs.antt =====
-- A server with one service, `A`, whose method `b` returns its request, and a connection to it whose
-- input buffer holds a request of A.b, one of the method A.c that is not there, and a byte behind them.
use talon_rpc.Prelude.{
  ℕ, ◌≡◌, refl, List, [], ◌∷◌, ◌++◌, replicate, map, none, some, true, false, arith, if◌then◌else◌,
}
use talon_rpc.Prelude.Int.{to_word}
use talon_rpc.Prelude.Text.{codes, str_eq, find_first_of}
use talon_rpc.Prelude.Dict.{Dict, lookup}
use talon_rpc.Prelude.Outcome.{Outcome, ok}
use talon_rpc.Buffer.{TcpBuffer, contents, init}
use talon_rpc.Buffer.Contents.{Holds}
use talon_rpc.Coder.Protocol.{TinyPbProtocol, new_message}
use talon_rpc.Coder.Net.{net_bytes}
use talon_rpc.Coder.Wire.{wire, wires, encoded}
use talon_rpc.Coder.Parse.{IsSendable}
use talon_rpc.Coder.RoundTrip.{IsOpen}
use talon_rpc.FdEvent.{new_event}
use talon_rpc.EventLoop.{Eventloop}
use talon_rpc.Rpc.Dispatcher.{
  Method, Service, RunTime, Dispatched, parse_service_full_name, filled, dispatch,
}
use talon_rpc.Rpc.Answer.{Sends, dispatch-replies}
use talon_rpc.Rpc.Replies.{replies}
use talon_rpc.Connection.{
  half_closing, TcpConnection, Callback, connected, by_server, on_write, after_write,
}
use talon_rpc.Connection.Life.{
  Use, readable, writable, shuts_down, shut, use_all, shutdown_never_closes,
}
use talon_rpc.Connection.Loops.{written, bytes, read_again, read_loop}
use talon_rpc.Connection.Execute.{World, excute}
use talon_rpc.Connection.Serving.{replies_on, excute-replies}
use talon_rpc.Connection.Reading.{read_loop-loses}
use talon_rpc.Connection.Writing.{on_write-repeats}

abbrev echo : Method (List ℕ)
echo = record {
  parse_request = λ s. some s;
  call_method = λ controller m. some m;
  serialize_response = λ m. some m;
}

abbrev service : Service (List ℕ)
unfolding str_eq
service = record {
  full_name = codes "A";
  methods = codes "b" ∷ [];
  find_method = λ name. if str_eq name (codes "b") then some echo else none;
}

abbrev service_map : Dict (Service (List ℕ))
service_map = (codes "A", service) ∷ []

abbrev request : TinyPbProtocol
request = record new_message { msg_id = codes "7"; method_name = codes "A.b"; pb_data = 2 ∷ 0 ∷ [] }

abbrev strange : TinyPbProtocol
strange = record new_message { msg_id = codes "8"; method_name = codes "A.c" }

abbrev requests : List TinyPbProtocol
requests = request ∷ strange ∷ []

request-IsSendable : IsSendable request
request-IsSendable = record {
  id_short = omega arith;
  id_no_nul = omega arith;
  method_short = omega arith;
  method_no_nul = omega arith;
  info_short = omega arith;
  info_no_nul = tt;
  code_fits = omega arith;
  size_fits = omega arith;
  no_check_sum = refl;
}

strange-IsSendable : IsSendable strange
strange-IsSendable = record {
  id_short = omega arith;
  id_no_nul = omega arith;
  method_short = omega arith;
  method_no_nul = omega arith;
  info_short = omega arith;
  info_no_nul = tt;
  code_fits = omega arith;
  size_fits = omega arith;
  no_check_sum = refl;
}

abbrev in_buffer : TcpBuffer
in_buffer = record {
  read_index = 0;
  write_index = 63;
  size = 128;
  buffer = wires requests ++ (9 ∷ replicate 65 0);
}

in_buffer-IsOpen : IsOpen in_buffer
unfolding wire net_bytes to_word
in_buffer-IsOpen = record { valid = omega arith; not_full = omega arith; small = omega arith }

abbrev event_loop : Eventloop Callback
event_loop = record {
  thread_id = 1;
  listen_fds = [];
  pending_tasks = [];
  is_looping = true;
  stop_flag = false;
  wakeups = 0;
  ctls = [];
}

abbrev out_buffer : TcpBuffer
unfolding init
out_buffer = init 128

abbrev connection : TcpConnection ℕ
connection = record {
  event_loop = event_loop;
  thread = 1;
  local_addr = none;
  peer_addr = record { ip = codes "1.2.3.4"; port = 80 };
  in_buffer = in_buffer;
  out_buffer = out_buffer;
  fd_event = new_event 5;
  state = connected;
  connection_type = by_server;
  write_dones = [];
  read_dones = [];
}

abbrev idle : RunTime
idle = record { msgid = []; method_name = [] }

abbrev world : World ℕ ℕ
world = record { run_time = idle; env = 0; connection = connection }

abbrev call : ℕ → TinyPbProtocol → World ℕ ℕ → Outcome (World ℕ ℕ)
call done message w = ok w

excute-replies_example :
    (w' : World ℕ ℕ) × (excute service_map call world ≡ ok w')
    × (contents w'.connection.in_buffer ≡ 9 ∷ [])
    × Holds
        (contents out_buffer ++ wires (replies_on service_map connection (map encoded requests)))
        w'.connection.out_buffer
unfolding contents wire net_bytes to_word parse_service_full_name find_first_of lookup str_eq filled
    init
excute-replies_example =
    excute-replies service_map call world requests (9 ∷ []) refl in_buffer-IsOpen
      (request-IsSendable, (strange-IsSendable, tt)) (omega arith) refl (omega arith) (omega arith)

dispatch-replies_example :
    (d : Dispatched ℕ) × (dispatch service_map request new_message idle connection ≡ ok d)
    × Sends connection (replies none connection.peer_addr service_map request) d.connection
unfolding wire net_bytes to_word parse_service_full_name find_first_of lookup str_eq filled init
dispatch-replies_example =
    dispatch-replies connection (omega arith) service_map request idle (omega arith)

-- Four bytes, of which two are unread.
abbrev small : TcpBuffer
small = record { read_index = 0; write_index = 2; size = 4; buffer = 1 ∷ 2 ∷ 0 ∷ 0 ∷ [] }

read_loop-loses_example :
    (c : TcpBuffer) × (read_loop (bytes (3 ∷ 4 ∷ []) ∷ read_again ∷ []) small ≡ ok (false, c))
    × Holds (contents small) c
read_loop-loses_example = read_loop-loses 3 (4 ∷ []) [] small (omega arith) (omega arith)

abbrev replying : TcpConnection ℕ
replying = record connection { out_buffer = small }

abbrev no_call : ℕ → TinyPbProtocol → ℕ × TcpConnection ℕ → Outcome (ℕ × TcpConnection ℕ)
no_call done message s = ok s

on_write-repeats_example :
    (on_write no_call (written 2 ∷ []) (0, replying)
      ≡ ok (contents small, (0, after_write true replying)))
    × (on_write no_call (written 2 ∷ []) (0, after_write true replying)
        ≡ ok (contents small, (0, after_write true (after_write true replying))))
on_write-repeats_example =
    on_write-repeats no_call 2 [] 0 replying refl refl (omega arith) (omega arith) (omega arith)

-- The peer's stream ends while the server is half closed.
abbrev uses : List Use
uses = readable (bytes [] ∷ []) ∷ writable (written 2 ∷ []) ∷ shuts_down ∷ []

shutdown_never_closes_example :
    use_all service_map call no_call uses (shut world)
    ≡ ok ([], record world { connection = record connection { state = half_closing } })
shutdown_never_closes_example = shutdown_never_closes service_map call no_call uses world refl
