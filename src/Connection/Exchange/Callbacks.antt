-- ===== src/Connection/Exchange/Callbacks.antt =====
-- The callbacks that net/rpc/rpc_channel.cc gives to its client.
use talon_rpc.Prelude.{none, ℕ, ◌≡◌, refl, List, Option, some}
use talon_rpc.Prelude.Dict.{lookup, lookup-insert}
use talon_rpc.Prelude.Outcome.{Outcome, ok}
use talon_rpc.Coder.Protocol.{TinyPbProtocol}
use talon_rpc.Connection.{TcpConnection, push_read_message, listen_read}
use talon_rpc.Connection.Execute.{World}
use talon_rpc.Connection.Sending.{IsWriteCallback}
use talon_rpc.Rpc.Channel.{RpcChannel, on_written, on_response}

-- The callbacks that a channel gives to its client: of writeMessage, and of readMessage.
pub data ChannelDone : Type 0 where
  written_done response_done : ChannelDone

module _ {M : Type 0} (parse : List ℕ → Option M) where
  abbrev pub channel_effect : ChannelDone → TinyPbProtocol → RpcChannel M → RpcChannel M
  channel_effect written_done m ch = on_written m ch
  channel_effect response_done m ch = on_response parse m ch

  -- The callback of writeMessage calls readMessage of the client: the callback of the response is
  -- registered under the id, and the connection listens for input.
  unfoldable pub write_effect :
      ChannelDone
      → TinyPbProtocol
      → RpcChannel M × TcpConnection ChannelDone
      → RpcChannel M × TcpConnection ChannelDone
  unfolding push_read_message listen_read
  write_effect written_done m (ch, c) =
      (on_written m ch, listen_read (push_read_message m.msg_id response_done c))
  write_effect response_done m (ch, c) = (on_response parse m ch, c)

  abbrev pub call_on_write :
      ChannelDone
      → TinyPbProtocol
      → RpcChannel M × TcpConnection ChannelDone
      → Outcome (RpcChannel M × TcpConnection ChannelDone)
  call_on_write done m s = ok (write_effect done m s)

  abbrev pub call_on_read :
      ChannelDone
      → TinyPbProtocol
      → World ChannelDone (RpcChannel M)
      → Outcome (World ChannelDone (RpcChannel M))
  call_on_read done m w = ok (record w { env = channel_effect done m w.env })

  write_effect-same_dones :
      (done : ChannelDone) (m : TinyPbProtocol) (s : RpcChannel M × TcpConnection ChannelDone)
      → (write_effect done m s).1.write_dones ≡ s.1.write_dones
  unfolding write_effect push_read_message listen_read
  write_effect-same_dones written_done m (ch, c) = refl
  write_effect-same_dones response_done m (ch, c) = refl

  write_effect-same_type :
      (done : ChannelDone) (m : TinyPbProtocol) (s : RpcChannel M × TcpConnection ChannelDone)
      → (write_effect done m s).1.connection_type ≡ s.1.connection_type
  unfolding write_effect push_read_message listen_read
  write_effect-same_type written_done m (ch, c) = refl
  write_effect-same_type response_done m (ch, c) = refl

  pub write_effect-IsWriteCallback : IsWriteCallback write_effect call_on_write
  write_effect-IsWriteCallback = record {
    runs = λ done m s. refl;
    same_dones = write_effect-same_dones;
    same_type = write_effect-same_type;
  }

  -- What is waited for after the callback of writeMessage.
  pub write_effect-waits :
      (m : TinyPbProtocol) (ch : RpcChannel M) (c : TcpConnection ChannelDone)
      → lookup m.msg_id c.read_dones ≡ none
      → lookup m.msg_id (write_effect written_done m (ch, c)).1.read_dones ≡ some response_done
  unfolding write_effect push_read_message listen_read
  write_effect-waits m ch c e = lookup-insert m.msg_id response_done c.read_dones e

  pub write_effect-channel :
      (m : TinyPbProtocol) (ch : RpcChannel M) (c : TcpConnection ChannelDone)
      → (write_effect written_done m (ch, c)).0 ≡ on_written m ch
  unfolding write_effect
  write_effect-channel m ch c = refl
