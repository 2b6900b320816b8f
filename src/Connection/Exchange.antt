-- ===== src/Connection/Exchange.antt =====
-- A whole exchange: a client's onWrite, a server's excute, and the client's excute.
pub mod Call
pub mod Callbacks
mod Runs
use talon_rpc.Prelude.{
  ℕ, ◌+◌, ◌*◌, ◌/◌, ◌^◌, ◌<◌, ◌≡◌, refl, sym, ap, ◌∙◌, List, [], ◌∷◌, ◌++◌, map, length, append-nil,
  arith, subst,
}
use talon_rpc.Prelude.Dict.{Dict, lookup}
use talon_rpc.Prelude.Outcome.{Outcome, ok}
use talon_rpc.Buffer.{TcpBuffer, IsValid, contents}
use talon_rpc.Coder.Protocol.{TinyPbProtocol}
use talon_rpc.Coder.Wire.{wires, encoded}
use talon_rpc.Coder.RoundTrip.{IsOpen, AllSendable}
use talon_rpc.Connection.{TcpConnection, connected, by_server, by_client, on_write}
use talon_rpc.Connection.Loops.{WriteResult, written}
use talon_rpc.Connection.Execute.{World, excute}
use talon_rpc.Connection.Sending.{
  IsWriteCallback, HasWritten, none_waiting, waiting_messages, after_writes, after_writes-same_type,
  on_write-wires,
}
use talon_rpc.Connection.Serving.{replies_on, excute-replies}
use talon_rpc.Connection.Waiting.{IsApart, after_calls, excute-calls}
use talon_rpc.Connection.Calls.{of_id, once, first_with}
use talon_rpc.Rpc.Answer.{Fits}
use talon_rpc.Rpc.Dispatcher.{Service, RunTime}

-- A client's connection that can write what waits in it, in one write() of n bytes.
pub record IsReady {D : Type 0} (n : ℕ) (c : TcpConnection D) : Type 0 where
  pub up : c.state ≡ connected
  pub client : c.connection_type ≡ by_client
  pub valid : IsValid c.out_buffer
  pub empty : contents c.out_buffer ≡ []
  pub room :
      3 * (c.out_buffer.write_index + length (wires (waiting_messages c.write_dones))) / 2 < 2 ^ 31
  pub size : n ≡ length (wires (waiting_messages c.write_dones))
  pub some_bytes : 0 < n

-- A server's connection whose output buffer holds nothing.
pub record IsServing {M D E : Type 0} (service_map : Dict (Service M))
    (requests : List TinyPbProtocol) (w : World D E) : Type 0 where
  pub server : w.connection.connection_type ≡ by_server
  pub open_in : IsOpen w.connection.in_buffer
  pub valid : IsValid w.connection.out_buffer
  pub empty : contents w.connection.out_buffer ≡ []
  pub room : Fits w.connection (replies_on service_map w.connection requests)
  pub sendable : AllSendable (replies_on service_map w.connection requests)

-- The client when the bytes of the replies have arrived, and where it has got to by its onWrite.
abbrev pub with_arrived : {D E : Type 0} → RunTime → TcpBuffer → E × TcpConnection D → World D E
with_arrived run_time b s = record {
  run_time = run_time;
  env = s.0;
  connection = record s.1 { in_buffer = b };
}

-- What a client's onWrite sends is what the server's input buffer is taken to hold; the server's
-- excute takes it all out and leaves in its output buffer what the client's input buffer is taken to
-- hold then; and the client's excute, from where onWrite and its callbacks have left the client,
-- calls, for each id, the callback that waits for the id once, with the first reply that the server's
-- services give to the requests with that id, and no other callback. All three return, and nothing
-- is left over in the two input buffers. The client can write its messages in one write(), the server
-- begins with no output, all messages are sendable, a write callback may register callbacks but adds
-- no message, and a read callback changes only what is not the connection.
pub exchange_lem :
    {M D D' E E' : Type 0} (service_map : Dict (Service M))
    (write_effect : D → TinyPbProtocol → E × TcpConnection D → E × TcpConnection D)
    (call_write : D → TinyPbProtocol → E × TcpConnection D → Outcome (E × TcpConnection D))
    (call_server : D' → TinyPbProtocol → World D' E' → Outcome (World D' E'))
    (effect : D → TinyPbProtocol → E → E)
    (call : D → TinyPbProtocol → World D E → Outcome (World D E)) (n : ℕ)
    (results : List WriteResult) (env : E) (c : TcpConnection D) (s : World D' E')
    (run_time : RunTime) (b : TcpBuffer)
    → IsWriteCallback write_effect call_write
    → IsApart effect call
    → IsReady n c
    → AllSendable (waiting_messages c.write_dones)
    → IsServing service_map (map encoded (waiting_messages c.write_dones)) s
    → contents s.connection.in_buffer ≡ wires (waiting_messages c.write_dones)
    → IsOpen b
    → contents b
      ≡ wires (replies_on service_map s.connection (map encoded (waiting_messages c.write_dones)))
    → (c2 : TcpConnection D) × HasWritten c c2
      × (client : E × TcpConnection D) × (client
          ≡ none_waiting (after_writes write_effect c.write_dones (env, c2)))
      × (on_write call_write (written n ∷ results) (env, c)
          ≡ ok (contents s.connection.in_buffer, client))
      × (s' : World D' E') × (excute service_map call_server s ≡ ok s')
      × (contents s'.connection.in_buffer ≡ [])
      × (contents s'.connection.out_buffer ≡ contents b)
      × (log : List (D × TinyPbProtocol)) × (w' : World D E) × (excute service_map call
            (with_arrived run_time b client)
          ≡ ok w')
      × (contents w'.connection.in_buffer ≡ [])
      × (w'.env ≡ after_calls effect log client.0)
      × ((k : List ℕ)
          → of_id k log
            ≡ once (lookup k client.1.read_dones) (
                first_with k (
                  map encoded (
                    replies_on service_map s.connection
                      (map encoded (waiting_messages c.write_dones))))))
exchange_lem service_map write_effect call_write call_server effect call n results env c s run_time
      b writes apart ready sendable serving arrived open_in back =
    let ms = waiting_messages c.write_dones in
    let replies = replies_on service_map s.connection (map encoded ms) in
    let (c2, has_written, wrote) =
      on_write-wires write_effect call_write n results env c writes ready.up ready.client
        ready.valid ready.empty ready.room ready.size ready.some_bytes in
    let client = none_waiting (after_writes write_effect c.write_dones (env, c2)) in
    let is_client : client.1.connection_type ≡ by_client =
      after_writes-same_type write_effect call_write c.write_dones (env, c2) writes
      ∙ has_written.same_type
      ∙ ready.client in
    let (s', served, rest, held) =
      excute-replies service_map call_server s ms [] serving.server serving.open_in sendable tt
        (arrived ∙ sym (append-nil (wires ms))) serving.valid serving.room in
    let (log, w', called, left, calls, each, waiting) =
      excute-calls service_map effect call (with_arrived run_time b client) replies [] apart
        is_client open_in serving.sendable tt (back ∙ sym (append-nil (wires replies))) in
    (
      c2,
      has_written,
      client,
      refl,
      wrote ∙ ap (λ t. ok (t, client)) (sym arrived),
      s',
      served,
      rest,
      held.unread ∙ ap (λ t. t ++ wires replies) serving.empty ∙ sym back,
      log,
      w',
      called,
      left,
      calls,
      each,
    )
