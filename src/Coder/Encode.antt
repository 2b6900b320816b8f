-- ===== src/Coder/Encode.antt =====
-- TinyPBCoder::encodeTinyPB and TinyPBCoder::encode of net/coder/tinypb_coder.cc.
use talon_rpc.Prelude.{
  ℕ, ◌+◌, ◌^◌, List, [], ◌∷◌, ◌++◌, length, ltb, leb, ◌==◌, if◌then◌else◌, true,
}
use talon_rpc.Prelude.Int.{pos}
use talon_rpc.Prelude.Text.{codes}
use talon_rpc.Prelude.Outcome.{Outcome, ok, fault, require, ◌>>=◌, ◌>>◌}
use talon_rpc.Buffer.{TcpBuffer, write_to_buffer}
use talon_rpc.Coder.Protocol.{TinyPbProtocol, pb_start, pb_end}
use talon_rpc.Coder.Net.{net_bytes}

-- The block that malloc returned: the bytes before the pointer `tmp`, and the size of the block. What
-- lies behind the pointer has no value yet.
pub record Block : Type 0 where
  pub filled : List ℕ
  pub capacity : ℕ

-- memcpy to `tmp`, and `tmp` moved on; a fault where the block ends before.
unfoldable pub emit : Block → List ℕ → Outcome Block
emit b bytes =
    if leb (length b.filled + length bytes) b.capacity
    then ok (record b { filled = b.filled ++ bytes })
    else fault

-- The whole block is read when it is written to the buffer: a fault where a byte has no value.
unfoldable pub finish : Block → Outcome (List ℕ)
finish b = if length b.filled == b.capacity then ok b.filled else fault

abbrev pub default_msg_id : List ℕ
default_msg_id = codes "123456789"

abbrev pub or_default : List ℕ → List ℕ
or_default [] = default_msg_id
or_default (c ∷ s) = c ∷ s

-- The copies one after the other.
unfoldable pub emit_all : Block → List (List ℕ) → Outcome Block
emit_all b [] = ok b
emit_all b (bytes ∷ chunks) = do b' ← emit b bytes; emit_all b' chunks

abbrev pub packet_size : TinyPbProtocol → ℕ
packet_size message =
    2
    + 24
    + length message.msg_id
    + length message.method_name
    + length message.err_info
    + length message.pb_data

-- What encodeTinyPB copies, in its order. A text that is empty is not copied: an empty copy.
abbrev pub chunks : TinyPbProtocol → List (List ℕ)
chunks message =
    (pb_start ∷ [])
    ∷ net_bytes (pos (packet_size message))
    ∷ net_bytes (pos (length message.msg_id))
    ∷ message.msg_id
    ∷ net_bytes (pos (length message.method_name))
    ∷ message.method_name
    ∷ net_bytes message.err_code
    ∷ net_bytes (pos (length message.err_info))
    ∷ message.err_info
    ∷ message.pb_data
    ∷ net_bytes (pos 1)
    ∷ (pb_end ∷ [])
    ∷ []

-- What encodeTinyPB sets in the message, besides the default id.
abbrev pub set_lengths : TinyPbProtocol → TinyPbProtocol
set_lengths message = record message {
  pk_len = pos (packet_size message);
  msg_id_len = pos (length message.msg_id);
  method_name_len = pos (length message.method_name);
  err_info_len = pos (length message.err_info);
  parse_success = true;
}

abbrev pub with_msg_id : TinyPbProtocol → TinyPbProtocol
with_msg_id message = record message { msg_id = or_default message.msg_id }

-- The size must fit an int: beyond that malloc is asked for another size than is written.
unfoldable pub encode_tiny_pb : TinyPbProtocol → Outcome (TinyPbProtocol × List ℕ)
encode_tiny_pb m = do
  let message = with_msg_id m
  require (ltb (packet_size message) (2 ^ 31))
  block ← emit_all (record { filled = []; capacity = packet_size message }) (chunks message)
  buf ← finish block
  ok (set_lengths message, buf)

-- The messages are shared, so the caller sees what encodeTinyPB sets in them. A buffer that comes
-- back is never null or empty.
unfoldable pub encode : List TinyPbProtocol → TcpBuffer → Outcome (List TinyPbProtocol × TcpBuffer)
encode [] out_buffer = ok ([], out_buffer)
encode (i ∷ messages) out_buffer = do
  (i', buf) ← encode_tiny_pb i
  out_buffer' ← write_to_buffer out_buffer buf
  (messages', out_buffer'') ← encode messages out_buffer'
  ok (i' ∷ messages', out_buffer'')
