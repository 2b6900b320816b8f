-- ===== src/Coder/Runs.antt =====
-- Runs of the coder, and its theorems at concrete messages.
use talon_rpc.Prelude.{◌≡◌, refl, List, [], ◌∷◌, ◌++◌, arith, replicate, map}
use talon_rpc.Prelude.Int.{negsuc, to_word}
use talon_rpc.Prelude.Text.{codes}
use talon_rpc.Prelude.Outcome.{ok, stuck}
use talon_rpc.Memory.{mem_write}
use talon_rpc.Buffer.{TcpBuffer, contents, init, write_to_buffer}
use talon_rpc.Buffer.Contents.{Holds}
use talon_rpc.Coder.Protocol.{TinyPbProtocol, new_message}
use talon_rpc.Coder.Net.{net_bytes}
use talon_rpc.Coder.Encode.{
  emit, emit_all, finish, with_msg_id, set_lengths, encode_tiny_pb, encode,
}
use talon_rpc.Coder.Decode.{decode, decode_loop}
use talon_rpc.Coder.Wire.{wire, wires, encoded, encode_tiny_pb-wire, encode-wires}
use talon_rpc.Coder.Parse.{IsSendable}
use talon_rpc.Coder.RoundTrip.{IsOpen, decode-wires, decode-encode}
use talon_rpc.Coder.Hostile.{decode_loop-backward, backward, holding}

-- A request, and an answer with an error in it and no id of its own.
abbrev request : TinyPbProtocol
request = record new_message { msg_id = codes "7"; method_name = codes "A.b"; pb_data = 2 ∷ 0 ∷ [] }

abbrev answer : TinyPbProtocol
answer = record new_message { err_code = negsuc 0; err_info = codes "no" }

abbrev both : List TinyPbProtocol
both = request ∷ answer ∷ []

-- The receiver's buffer, with the packets of both at its front and a byte behind them.
abbrev in_buffer : TcpBuffer
in_buffer = record {
  read_index = 0;
  write_index = 70;
  size = 128;
  buffer = wires both ++ (9 ∷ replicate 58 0);
}

request_packet :
    wire request
    ≡ 2 ∷ 0 ∷ 0 ∷ 0 ∷ 32 ∷ 0 ∷ 0 ∷ 0 ∷ 1 ∷ 55 ∷ 0 ∷ 0 ∷ 0 ∷ 3 ∷ 65 ∷ 46 ∷ 98 ∷ 0 ∷ 0 ∷ 0 ∷ 0 ∷ 0 ∷ 0
      ∷ 0 ∷ 0 ∷ 2 ∷ 0 ∷ 0 ∷ 0 ∷ 0 ∷ 1 ∷ 3 ∷ []
unfolding wire net_bytes to_word
request_packet = refl

in_buffer-IsOpen : IsOpen in_buffer
unfolding wire net_bytes to_word
in_buffer-IsOpen = record { valid = omega arith; not_full = omega arith; small = omega arith }

request-IsSendable : IsSendable request
request-IsSendable = record {
  id_short = omega arith;
  id_no_nul = omega arith;
  method_short = omega arith;
  method_no_nul = omega arith;
  info_short = omega arith;
  info_no_nul = tt;
  code_fits = omega arith;
  size_fits = omega arith;
  no_check_sum = refl;
}

answer-IsSendable : IsSendable (with_msg_id answer)
answer-IsSendable = record {
  id_short = omega arith;
  id_no_nul = omega arith;
  method_short = omega arith;
  method_no_nul = tt;
  info_short = omega arith;
  info_no_nul = omega arith;
  code_fits = omega arith;
  size_fits = omega arith;
  no_check_sum = refl;
}

encode_tiny_pb-wire_example : encode_tiny_pb request ≡ ok (set_lengths request, wire request)
encode_tiny_pb-wire_example = encode_tiny_pb-wire request (omega arith)

encode-wires_example :
    (c : TcpBuffer) × (encode both (init 128) ≡ ok (map encoded both, c)) × Holds (wires both) c
unfolding init contents wire net_bytes
encode-wires_example = encode-wires both (init 128) (omega arith) (omega arith)

decode-wires_example :
    (c : TcpBuffer) × (decode in_buffer ≡ ok (map encoded both, c))
    × (contents c ≡ 9 ∷ [])
    × IsOpen c
unfolding contents wire net_bytes to_word
decode-wires_example =
    decode-wires both in_buffer (9 ∷ []) in_buffer-IsOpen
      (request-IsSendable, (answer-IsSendable, tt)) (omega arith) refl

-- The same without the byte behind.
abbrev quiet_buffer : TcpBuffer
quiet_buffer = record in_buffer { write_index = 69 }

quiet_buffer-IsOpen : IsOpen quiet_buffer
unfolding wire net_bytes to_word
quiet_buffer-IsOpen = record { valid = omega arith; not_full = omega arith; small = omega arith }

abbrev out_buffer : TcpBuffer
out_buffer = record {
  read_index = 0;
  write_index = 69;
  size = 128;
  buffer = wires both ++ replicate 59 0;
}

out_buffer_run : encode both (init 128) ≡ ok (map encoded both, out_buffer)
unfolding encode encode_tiny_pb emit_all emit finish write_to_buffer mem_write init wire net_bytes
    to_word
out_buffer_run = refl

decode-encode_example :
    (sent : List TinyPbProtocol) × (b : TcpBuffer) × (encode both (init 128) ≡ ok (sent, b))
    × (contents b ≡ contents quiet_buffer)
    × (c : TcpBuffer) × (decode quiet_buffer ≡ ok (sent, c))
    × (sent ≡ map encoded both)
    × (contents c ≡ [])
    × IsOpen c
unfolding init contents wire net_bytes to_word
decode-encode_example =
    decode-encode both (init 128) quiet_buffer (omega arith) refl (omega arith)
      (request-IsSendable, (answer-IsSendable, tt)) quiet_buffer-IsOpen refl

decode_loop-backward_example : decode_loop 1000 [] (holding 128 6 (backward [])) ≡ stuck
decode_loop-backward_example = decode_loop-backward 1000 128 6 [] [] (omega arith)
