-- ===== src/Server.antt =====
-- net/tcp/tcp_server.h and net/tcp/tcp_server.cc: the connections of a server.
-- What the acceptor returns, with the Fd_Event of the descriptor, is an argument. A connection and
-- the group of IO threads share a loop: the group has it as onAccept leaves it, and a connection as it
-- was when the connection was made.
pub mod Accepting
pub mod Clients
pub mod Start
mod Runs
use talon_rpc.Prelude.{ℕ, suc, List, [], ◌∷◌, none, some, Bool, true, false, if◌then◌else◌}
use talon_rpc.Prelude.Outcome.{Outcome, ok, ◌>>=◌}
use talon_rpc.FdEvent.{FdEvent}
use talon_rpc.EventLoop.{Eventloop}
use talon_rpc.NetAddr.{IpNetAddr}
use talon_rpc.IoThreadGroup.{IoThreadGroup, get_io_thread, put_last}
use talon_rpc.Connection.{
  TcpConnection, TcpState, Callback, connected, closed, by_server, new_connection, set_state,
}

-- `thread` is the thread that the server's own loop runs on.
pub record TcpServer (D : Type 0) : Type 0 where
  pub thread : ℕ
  pub local_addr : IpNetAddr
  pub io_thread_group : IoThreadGroup (Eventloop Callback)
  pub client_counts : ℕ
  pub client : List (TcpConnection D)

abbrev pub is_closed : TcpState → Bool
is_closed closed = true
is_closed _ = false

module _ {D : Type 0} where
  -- onAccept()
  unfoldable pub on_accept : FdEvent Callback → IpNetAddr → TcpServer D → Outcome (TcpServer D)
  unfolding new_connection set_state get_io_thread put_last
  on_accept client_fd peer_addr s = do
    (event_loop, group) ← get_io_thread s.io_thread_group
    let connection =
        set_state connected
          (new_connection event_loop s.thread client_fd 128 peer_addr (some s.local_addr) by_server)
    ok (record s {
      client_counts = suc s.client_counts;
      io_thread_group = put_last connection.event_loop group;
      client = connection ∷ s.client;
    })

  -- The clients that connect one after the other.
  unfoldable pub on_accepts :
      List (FdEvent Callback × IpNetAddr) → TcpServer D → Outcome (TcpServer D)
  unfolding on_accept
  on_accepts [] s = ok s
  on_accepts ((client_fd, peer_addr) ∷ clients) s = do
    s' ← on_accept client_fd peer_addr s
    on_accepts clients s'

  -- The loop of ClearClientTimerFunc().
  unfoldable pub clear_closed : List (TcpConnection D) → List (TcpConnection D)
  clear_closed [] = []
  clear_closed (c ∷ client) =
      let rest = clear_closed client in if is_closed c.state then rest else c ∷ rest

  unfoldable pub clear_client : TcpServer D → TcpServer D
  unfolding clear_closed
  clear_client s = record s { client = clear_closed s.client }
