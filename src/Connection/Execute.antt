-- ===== src/Connection/Execute.antt =====
-- TcpConnection::excute and TcpConnection::onRead, which hand the messages to the dispatcher of a
-- server or to the waiting callbacks of a client.
use talon_rpc.Prelude.{List, [], ◌∷◌, Option, none, some, if◌then◌else◌}
use talon_rpc.Prelude.Dict.{Dict, lookup, erase}
use talon_rpc.Prelude.Outcome.{Outcome, ok, ◌>>=◌}
use talon_rpc.Coder.Protocol.{TinyPbProtocol, new_message}
use talon_rpc.Coder.Decode.{decode}
use talon_rpc.Connection.{TcpConnection, TcpConnectionType, connected, by_server, by_client, clear}
use talon_rpc.Connection.Loops.{ReadResult, read_loop}
use talon_rpc.Rpc.Dispatcher.{Service, RunTime, dispatch}

-- What a callback on the connection works on: the thread's RunTime, what else the callbacks of a
-- client reach, and the connection.
pub record World (D E : Type 0) : Type 0 where
  pub run_time : RunTime
  pub env : E
  pub connection : TcpConnection D

module _ {M D E : Type 0} (service_map : Dict (Service M)) where
  -- The loop of a server over the requests.
  unfoldable pub dispatch_all : List TinyPbProtocol → World D E → Outcome (World D E)
  dispatch_all [] w = ok w
  dispatch_all (i ∷ result) w = do
    d ← dispatch service_map i new_message w.run_time w.connection
    dispatch_all result (record w { run_time = d.run_time; connection = d.connection })

module _ {D E : Type 0} (call : D → TinyPbProtocol → World D E → Outcome (World D E)) where
  -- The callback that waits for the message, which is then erased.
  unfoldable pub call_waiting : Option D → TinyPbProtocol → World D E → Outcome (World D E)
  call_waiting none i w = ok w
  call_waiting (some done) i w = do
    w' ← call done i w
    let c = w'.connection
    ok (record w' { connection = record c { read_dones = erase i.msg_id c.read_dones } })

  -- The loop of a client over the responses.
  unfoldable pub call_all : List TinyPbProtocol → World D E → Outcome (World D E)
  unfolding call_waiting
  call_all [] w = ok w
  call_all (i ∷ result) w = do
    w' ← call_waiting (lookup i.msg_id w.connection.read_dones) i w
    call_all result w'

module _ {M D E : Type 0} (service_map : Dict (Service M))
    (call : D → TinyPbProtocol → World D E → Outcome (World D E)) where
  -- The two branches on m_connection_type.
  unfoldable pub excute_as :
      TcpConnectionType → List TinyPbProtocol → World D E → Outcome (World D E)
  unfolding dispatch_all call_all
  excute_as by_server result w = dispatch_all service_map result w
  excute_as by_client result w = call_all call result w

  unfoldable pub excute : World D E → Outcome (World D E)
  unfolding excute_as
  excute w = do
    (result, in_buffer) ← decode w.connection.in_buffer
    let w' = record w { connection = record (w.connection) { in_buffer = in_buffer } }
    excute_as w.connection.connection_type result w'

  unfoldable pub on_read : List ReadResult → World D E → Outcome (World D E)
  unfolding excute
  on_read results w = elim (w.connection.state) [
    | connected ↦ do
      (is_close, in_buffer) ← read_loop results w.connection.in_buffer
      let c = record (w.connection) { in_buffer = in_buffer }
      if is_close
          then ok (record w { connection = clear c })
          else excute (record w { connection = c })
    | _ ↦ ok w
  ]
