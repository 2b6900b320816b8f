-- ===== src/Connection.antt =====
-- net/tcp/tcp_connection.h and net/tcp/tcp_connection.cc: one connection, of a server or a client.
-- The loop, the buffers and the Fd_Event are parts of the connection's record; `D` is the type of the
-- callbacks that m_write_dones and m_read_dones hold. The constructor's socket calls are left out.
pub mod Calls
pub mod Execute
pub mod Exchange
pub mod Sending
pub mod Serving
pub mod Life
pub mod Loops
pub mod Reading
pub mod Waiting
pub mod Writing
mod Runs
use talon_rpc.Prelude.{
  ℕ, suc, ◌+◌, ◌-◌, ◌*◌, ◌^◌, List, [], ◌∷◌, ◌++◌, map, take, length, ltb, leb, ◌==◌, if◌then◌else◌,
  Option, none, some, Bool, true, false,
}
use talon_rpc.Prelude.Dict.{Dict, insert}
use talon_rpc.Prelude.Outcome.{Outcome, ok, stuck, require, ◌>>=◌, ◌>>◌}
use talon_rpc.Memory.{mem_read, mem_write}
use talon_rpc.Buffer.{TcpBuffer, init, read_able, write_able, resize_buffer, move_write_index}
use talon_rpc.Coder.Protocol.{TinyPbProtocol}
use talon_rpc.Coder.Encode.{encode}
use talon_rpc.FdEvent.{FdEvent, in_event, out_event, listen, cancle}
use talon_rpc.EventLoop.{Eventloop, add_epoll_event, delete_epoll_event}
use talon_rpc.NetAddr.{IpNetAddr}
use talon_rpc.Connection.Loops.{
  ReadResult, bytes, read_again, read_failed, WriteResult, written, write_again, write_failed,
  make_room, receive, read_loop, write_calls, write_loop,
}

pub data TcpState : Type 0 where
  not_connected connected half_closing closed : TcpState

pub data TcpConnectionType : Type 0 where
  by_server by_client : TcpConnectionType

-- The closures that listenRead and listenWrite and TcpClient::connect set.
pub data Callback : Type 0 where
  on_read_callback on_write_callback connect_callback : Callback

pub record TcpConnection (D : Type 0) : Type 0 where
  pub event_loop : Eventloop Callback
  pub thread : ℕ
  pub local_addr : Option IpNetAddr
  pub peer_addr : IpNetAddr
  pub in_buffer : TcpBuffer
  pub out_buffer : TcpBuffer
  pub fd_event : FdEvent Callback
  pub state : TcpState
  pub connection_type : TcpConnectionType
  pub write_dones : List (TinyPbProtocol × D)
  pub read_dones : Dict D

module _ {D : Type 0} where
  unfoldable pub listen_write : TcpConnection D → TcpConnection D
  listen_write c =
      let e = listen c.fd_event out_event (some on_write_callback) none in
      record c { fd_event = e; event_loop = add_epoll_event c.thread e c.event_loop }

  unfoldable pub listen_read : TcpConnection D → TcpConnection D
  listen_read c =
      let e = listen c.fd_event in_event (some on_read_callback) none in
      record c { fd_event = e; event_loop = add_epoll_event c.thread e c.event_loop }

  -- The constructor, on a thread and with the descriptor's Fd_Event.
  unfoldable pub new_connection :
      Eventloop Callback
      → ℕ
      → FdEvent Callback
      → ℕ
      → IpNetAddr
      → Option IpNetAddr
      → TcpConnectionType
      → TcpConnection D
  unfolding listen_read
  new_connection event_loop thread e buffer_size peer_addr local_addr connection_type =
      let c : TcpConnection D = record {
        event_loop = event_loop;
        thread = thread;
        local_addr = local_addr;
        peer_addr = peer_addr;
        in_buffer = init buffer_size;
        out_buffer = init buffer_size;
        fd_event = e;
        state = not_connected;
        connection_type = connection_type;
        write_dones = [];
        read_dones = [];
      } in
      elim connection_type [ by_server ↦ listen_read c | by_client ↦ c ]

  -- The argument is not used.
  unfoldable pub set_state : TcpState → TcpConnection D → TcpConnection D
  set_state state c = record c { state = connected }

  unfoldable pub clear : TcpConnection D → TcpConnection D
  clear c = elim (c.state) [
    | closed ↦ c
    | _ ↦
        let e = cancle (cancle c.fd_event in_event) out_event in
        record c {
          fd_event = e;
          event_loop = delete_epoll_event c.thread e c.event_loop;
          state = closed;
        }
  ]

  -- With the test whether the socket is shut down.
  unfoldable pub shutdown : TcpConnection D → Bool × TcpConnection D
  shutdown c = elim (c.state) [
    | closed ↦ (false, c)
    | not_connected ↦ (false, c)
    | _ ↦ (true, record c { state = half_closing })
  ]

  abbrev pub set_connection_type : TcpConnectionType → TcpConnection D → TcpConnection D
  set_connection_type connection_type c = record c { connection_type = connection_type }

  abbrev pub push_send_message : TinyPbProtocol → D → TcpConnection D → TcpConnection D
  push_send_message message done c = record c {
    write_dones = c.write_dones ++ ((message, done) ∷ []);
  }

  unfoldable pub push_read_message : List ℕ → D → TcpConnection D → TcpConnection D
  push_read_message msg_id done c = record c { read_dones = insert msg_id done c.read_dones }

  -- The messages after the call and the connection.
  unfoldable pub reply :
      List TinyPbProtocol → TcpConnection D → Outcome (List TinyPbProtocol × TcpConnection D)
  unfolding listen_write
  reply replay_messages c = do
    (messages, out_buffer) ← encode replay_messages c.out_buffer
    ok (messages, listen_write (record c { out_buffer = out_buffer }))

  -- The messages that m_write_dones shares, after encode.
  abbrev put_messages : List TinyPbProtocol → List (TinyPbProtocol × D) → List (TinyPbProtocol × D)
  put_messages [] dones = dones
  put_messages (m ∷ ms) [] = []
  put_messages (m ∷ ms) ((m', done) ∷ dones) = (m, done) ∷ put_messages ms dones

  -- What a client encodes before it writes.
  unfoldable pub encode_writes_as : TcpConnectionType → TcpConnection D → Outcome (TcpConnection D)
  encode_writes_as by_server c = ok c
  encode_writes_as by_client c = do
    (messages, out_buffer) ← encode (map (λ p. p.0) c.write_dones) c.out_buffer
    ok (record c { out_buffer = out_buffer; write_dones = put_messages messages c.write_dones })

  -- What follows when all is written.
  unfoldable pub after_write : Bool → TcpConnection D → TcpConnection D
  after_write false c = c
  after_write true c =
      let e = cancle c.fd_event out_event in
      record c { fd_event = e; event_loop = add_epoll_event c.thread e c.event_loop }

-- `call` is what a callback does; `E` is what it can reach besides the connection.
module _ {D E : Type 0}
    (call : D → TinyPbProtocol → E × TcpConnection D → Outcome (E × TcpConnection D)) where
  -- The callbacks of a list, in order. One that adds to m_write_dones would invalidate the iterator.
  unfoldable pub call_dones :
      List (TinyPbProtocol × D) → E × TcpConnection D → Outcome (E × TcpConnection D)
  call_dones [] s = ok s
  call_dones ((message, done) ∷ dones) s = do
    s' ← call done message s
    require (length s'.1.write_dones == length s.1.write_dones)
    call_dones dones s'

  unfoldable pub run_write_dones_as :
      TcpConnectionType → E × TcpConnection D → Outcome (E × TcpConnection D)
  unfolding call_dones
  run_write_dones_as by_server s = ok s
  run_write_dones_as by_client (env, c) = do
    (env', c') ← call_dones c.write_dones (env, c)
    ok (env', record c' { write_dones = [] })

  unfoldable pub on_write_as :
      TcpState → List WriteResult → E × TcpConnection D → Outcome (List ℕ × (E × TcpConnection D))
  unfolding encode_writes_as write_loop after_write run_write_dones_as
  on_write_as connected results (env, c) = do
    c' ← encode_writes_as c.connection_type c
    (is_write_all, sent) ← write_loop results c'.out_buffer
    s ← run_write_dones_as c.connection_type (env, after_write is_write_all c')
    ok (sent, s)
  on_write_as _ results s = ok ([], s)

  -- onWrite(): the bytes that the peer gets, and the state.
  unfoldable pub on_write :
      List WriteResult → E × TcpConnection D → Outcome (List ℕ × (E × TcpConnection D))
  unfolding on_write_as
  on_write results (env, c) = on_write_as c.state results (env, c)
