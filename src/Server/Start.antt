-- ===== src/Server/Start.antt =====
-- TcpServer::init of net/tcp/tcp_server.cc: the parts of a server, and how they are wired.
-- `none` is exit(0) in the acceptor or the event loop.
use talon_rpc.Prelude.{ℕ, List, [], Option, none, some, Bool, true}
use talon_rpc.Prelude.Int.{ℤ}
use talon_rpc.Prelude.Outcome.{Outcome, ok, ◌>>=◌}
use talon_rpc.FdEvent.{FdEvent}
use talon_rpc.EventLoop.{Eventloop, add_epoll_event}
use talon_rpc.EventLoop.Start.{LoopObject, get_current_event_loop, input_event}
use talon_rpc.Timer.{TimerEvent, Timer, new_timer_event, add_timer_event}
use talon_rpc.NetAddr.{IpNetAddr}
use talon_rpc.Acceptor.{TcpAcceptor, new_acceptor}
use talon_rpc.IoThreadGroup.{IoThreadGroup}
use talon_rpc.IoThreadGroup.Start.{new_group}
use talon_rpc.Connection.{Callback}
use talon_rpc.Server.{TcpServer}

-- The callbacks of the main loop and of its timer.
pub data MainCallback : Type 0 where
  read_wakeup on_timer on_accept clear_client : MainCallback

-- What the system calls give.
pub record System : Type 0 where
  pub thread : ℕ
  pub is_none : List ℕ → Bool
  pub socket_fd : ℤ
  pub binds : Bool
  pub listens : Bool
  pub epoll_fd : ℤ
  pub wakeup_fd : ℤ
  pub timer_fd : ℕ
  pub now : ℕ

pub record StartedServer (D : Type 0) : Type 0 where
  pub acceptor : TcpAcceptor
  pub main_event_loop : LoopObject MainCallback
  pub timer : Timer MainCallback
  pub listen_fd_event : FdEvent MainCallback
  pub clear_client_timer_event : ℕ
  pub server : TcpServer D

-- TimerEvent(5000, true, ClearClientTimerFunc), the only event of the timer at the start.
abbrev pub clear_client_event : ℕ → TimerEvent MainCallback
clear_client_event now = new_timer_event now 5000 true (some clear_client)

abbrev pub fresh_timer : ℕ → Timer MainCallback
fresh_timer now = record {
  pending_events = [];
  events = λ event. clear_client_event now;
  fd_interval = none;
}

module _ {D : Type 0} where
  -- From the acceptor and the loop on.
  wire :
      System
      → IpNetAddr
      → TcpAcceptor
      → LoopObject MainCallback
      → IoThreadGroup (Eventloop Callback)
      → StartedServer D
  unfolding add_epoll_event add_timer_event
  wire sys local_addr acceptor main group =
      let listen_event : FdEvent MainCallback = input_event acceptor.listenfd on_accept in
      record {
        acceptor = acceptor;
        main_event_loop = record main { loop = add_epoll_event sys.thread listen_event main.loop };
        timer = add_timer_event sys.now 0 (fresh_timer sys.now);
        listen_fd_event = listen_event;
        clear_client_timer_event = 0;
        server = record {
          thread = sys.thread;
          local_addr = local_addr;
          io_thread_group = group;
          client_counts = 0;
          client = [];
        };
      }

  wire_parts :
      System
      → IpNetAddr
      → Option TcpAcceptor
      → Option (LoopObject MainCallback)
      → Outcome (IoThreadGroup (Eventloop Callback))
      → Outcome (Option (StartedServer D))
  unfolding wire
  wire_parts sys local_addr none main group = ok none
  wire_parts sys local_addr (some acceptor) none group = ok none
  wire_parts sys local_addr (some acceptor) (some main) group = do
    g ← group
    ok (some (wire sys local_addr acceptor main g))

  -- init(), with the configured number of IO threads and the loop that each makes.
  unfoldable pub init_server :
      System
      → IpNetAddr
      → Option (LoopObject MainCallback)
      → ℤ
      → (ℕ → Eventloop Callback)
      → Outcome (Option (StartedServer D))
  unfolding wire_parts new_acceptor get_current_event_loop new_group
  init_server sys local_addr current io_threads new_loop =
      wire_parts sys local_addr
        (new_acceptor sys.is_none local_addr sys.socket_fd sys.binds sys.listens)
        (get_current_event_loop current sys.thread sys.epoll_fd sys.wakeup_fd sys.timer_fd
          read_wakeup on_timer)
        (new_group new_loop io_threads)
