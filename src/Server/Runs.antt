-- ===== src/Server/Runs.antt =====
-- A server on thread 1 with two IO threads, 2 and 3, and two connections, of which one is closed.
use talon_rpc.Prelude.{List, length, ℕ, ◌≡◌, refl, [], ◌∷◌, none, true, false, arith}
use talon_rpc.Prelude.Int.{pos}
use talon_rpc.Prelude.Text.{codes}
use talon_rpc.Prelude.Outcome.{ok}
use talon_rpc.Buffer.{TcpBuffer}
use talon_rpc.FdEvent.{FdEvent, new_event}
use talon_rpc.EventLoop.{Eventloop}
use talon_rpc.IoThreadGroup.{IoThreadGroup}
use talon_rpc.Connection.{TcpConnection, Callback, connected, closed, by_server}
use talon_rpc.Server.{TcpServer, on_accepts}
use talon_rpc.Server.Accepting.{given_all, on_accepts-round}
use talon_rpc.NetAddr.{IpNetAddr}

abbrev event_loop : Eventloop Callback
event_loop = record {
  thread_id = 2;
  listen_fds = [];
  pending_tasks = [];
  is_looping = true;
  stop_flag = false;
  wakeups = 0;
  ctls = [];
}

abbrev buffer : TcpBuffer
buffer = record { read_index = 0; write_index = 0; size = 0; buffer = [] }

abbrev open_connection : TcpConnection ℕ
open_connection = record {
  event_loop = event_loop;
  thread = 1;
  local_addr = none;
  peer_addr = record { ip = codes "1.2.3.4"; port = 80 };
  in_buffer = buffer;
  out_buffer = buffer;
  fd_event = new_event 6;
  state = connected;
  connection_type = by_server;
  write_dones = [];
  read_dones = [];
}

abbrev group : IoThreadGroup (Eventloop Callback)
group = record {
  index = pos 0;
  io_thread_groups = event_loop ∷ record event_loop { thread_id = 3 } ∷ [];
}

abbrev server : TcpServer ℕ
server = record {
  thread = 1;
  local_addr = record { ip = codes "1.2.3.4"; port = 90 };
  io_thread_group = group;
  client_counts = 2;
  client = open_connection ∷ record open_connection { state = closed } ∷ [];
}

abbrev clients : List (FdEvent Callback × IpNetAddr)
clients = (new_event 9, server.local_addr) ∷ (new_event 10, server.local_addr) ∷ []

on_accepts-round_example :
    (s' : TcpServer ℕ) × (on_accepts clients server ≡ ok s')
    × (s'.io_thread_group.io_thread_groups ≡ given_all clients group.io_thread_groups)
    × (s'.client_counts ≡ 4)
    × (length s'.client ≡ 4)
on_accepts-round_example =
    on_accepts-round clients server refl refl (omega arith, (omega arith, tt))
