-- ===== src/Client.antt =====
-- net/tcp/tcp_client.h and net/tcp/tcp_client.cc: a client and its connection.
-- What connect() returned is an argument. The text of strerror is a parameter of the results.
pub mod Connecting
use talon_rpc.Prelude.{
  ℕ, List, [], ◌∷◌, ◌++◌, if◌then◌else◌, Option, none, some, Bool, true, false, not,
}
use talon_rpc.Prelude.Int.{ℤ, pos}
use talon_rpc.Prelude.Text.{codes}
use talon_rpc.Coder.Protocol.{TinyPbProtocol}
use talon_rpc.FdEvent.{FdEvent, out_event, listen}
use talon_rpc.EventLoop.{Eventloop, add_epoll_event, delete_epoll_event, stop}
use talon_rpc.NetAddr.{IpNetAddr}
use talon_rpc.Rpc.Controller.{error_peer_closed, error_failed_connect}
use talon_rpc.Connection.{
  TcpConnection, Callback, connect_callback, connected, by_client, set_state, set_connection_type,
  new_connection, push_send_message, push_read_message, listen_write, listen_read,
}

-- The first connect(), and the one when the descriptor is writable. An error comes with its text.
pub data FirstConnect : Type 0 where
  done_at_once in_progress : FirstConnect
  connect_failed : List ℕ → FirstConnect

pub data SecondConnect : Type 0 where
  is_connected : SecondConnect
  refused other_error : List ℕ → SecondConnect

pub record TcpClient (D : Type 0) : Type 0 where
  pub peer_addr : IpNetAddr
  pub local_addr : Option IpNetAddr
  pub connection : TcpConnection D
  pub connect_error_code : ℤ
  pub connect_error_info : List ℕ

module _ {D : Type 0} where
  -- TcpClient(peer_addr), on a thread whose loop is given, with the Fd_Event of a new socket.
  unfoldable pub new_client : IpNetAddr → Eventloop Callback → ℕ → FdEvent Callback → TcpClient D
  unfolding new_connection
  new_client peer_addr event_loop thread e =
      let loop : Eventloop Callback =
        if event_loop.stop_flag
        then record event_loop { stop_flag = false; is_looping = false }
        else event_loop in
      record {
        peer_addr = peer_addr;
        local_addr = none;
        connection =
            set_connection_type by_client
              (new_connection loop thread e 128 peer_addr none by_client);
        connect_error_code = pos 0;
        connect_error_info = [];
      }

  -- initLocalAddr, with what getsockname gives.
  unfoldable pub init_local_addr : Option IpNetAddr → TcpClient D → TcpClient D
  init_local_addr none c = c
  init_local_addr (some addr) c = record c { local_addr = some addr }

  -- A success: the state and the local address.
  succeed : Option IpNetAddr → TcpClient D → TcpClient D
  unfolding init_local_addr set_state
  succeed sock_name c =
      init_local_addr sock_name (record c { connection = set_state connected c.connection })

  fail : ℤ → List ℕ → TcpClient D → TcpClient D
  fail code info c = record c { connect_error_code = code; connect_error_info = info }

  -- connect(done): the client, and whether done runs now. A connection in progress listens for the
  -- descriptor to become writable.
  unfoldable pub connect : FirstConnect → Option IpNetAddr → TcpClient D → Bool × TcpClient D
  unfolding succeed fail
  connect done_at_once sock_name c = (true, succeed sock_name c)
  connect in_progress sock_name c =
      let n = c.connection in
      let e = listen n.fd_event out_event (some connect_callback) none in
      (
        false,
        record c {
          connection = record n {
            fd_event = e;
            event_loop = add_epoll_event n.thread e n.event_loop;
          };
        },
      )
  connect (connect_failed error) sock_name c =
      (true, fail error_failed_connect (codes "connect error, sys error = " ++ error) c)

  -- The two results of the second connect().
  connect_result : SecondConnect → Option IpNetAddr → TcpClient D → TcpClient D
  unfolding succeed fail
  connect_result is_connected sock_name c = succeed sock_name c
  connect_result (refused error) sock_name c =
      fail error_peer_closed (codes "connect refused, sys error = " ++ error) c
  connect_result (other_error error) sock_name c =
      fail error_failed_connect (codes "connect unkonwn error, sys error = " ++ error) c

  -- The callback that connect sets. Then done runs.
  unfoldable pub on_connectable : SecondConnect → Option IpNetAddr → TcpClient D → TcpClient D
  unfolding connect_result
  on_connectable result sock_name c =
      let c' = connect_result result sock_name c in
      let n = c'.connection in
      record c' {
        connection = record n { event_loop = delete_epoll_event n.thread n.fd_event n.event_loop };
      }

  -- stop()
  unfoldable pub stop_client : TcpClient D → TcpClient D
  stop_client c =
      let n = c.connection in
      if n.event_loop.is_looping
      then record c { connection = record n { event_loop = stop n.event_loop } }
      else c

  unfoldable pub write_message : TinyPbProtocol → D → TcpClient D → TcpClient D
  unfolding listen_write
  write_message message done c = record c {
    connection = listen_write (push_send_message message done c.connection);
  }

  unfoldable pub read_message : List ℕ → D → TcpClient D → TcpClient D
  unfolding listen_read push_read_message
  read_message msg_id done c = record c {
    connection = listen_read (push_read_message msg_id done c.connection);
  }
