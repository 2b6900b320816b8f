-- ===== src/Coder/Decode.antt =====
-- TinyPBCoder::decode of net/coder/tinypb_coder.cc.
use talon_rpc.Prelude.{
  ℕ, zero, suc, ◌+◌, ◌-◌, List, [], ◌∷◌, ◌++◌, replicate, get_elem?, ltb, leb, ◌==◌, if◌then◌else◌,
  Option, none, some, true,
}
use talon_rpc.Prelude.Int.{ℤ, pos, negsuc, ◌+ℤ◌, ◌-ℤ◌, leb_ℤ, fits_int32, pos_part}
use talon_rpc.Prelude.Outcome.{Outcome, ok, fault, uncaught, stuck, require, ◌>>=◌, ◌>>◌}
use talon_rpc.Memory.{mem_read}
use talon_rpc.Buffer.{TcpBuffer, move_read_index}
use talon_rpc.Coder.Protocol.{TinyPbProtocol, pb_start, pb_end, new_message}
use talon_rpc.Coder.Net.{get_int32_from_net_byte}

-- tmp[i]
unfoldable pub byte_at : List ℕ → ℕ → Outcome ℕ
byte_at tmp i = elim (get_elem? tmp i) [ none ↦ fault | some c ↦ ok c ]

-- Where a packet was found: the indices of its two marks and the length that it gives.
pub record Packet : Type 0 where
  pub start_index : ℕ
  pub end_index : ℕ
  pub pk_len : ℤ

abbrev pub packet : ℕ → ℕ → ℤ → Packet
packet i j pk_len = record { start_index = i; end_index = j; pk_len = pk_len }

-- The test of tmp[j] == PB_END at `j = i + pk_len - 1`, which is below the write index.
unfoldable pub end_mark : List ℕ → ℕ → ℤ → ℤ → Outcome (Option Packet)
end_mark tmp i pk_len (negsuc j) = fault
end_mark tmp i pk_len (pos j) = do
  c ← byte_at tmp j
  ok (if c == pb_end then some (packet i j pk_len) else none)

-- One round of the `for` loop at a PB_START byte; `none` goes on to the next byte.
unfoldable pub packet_at : List ℕ → ℕ → ℕ → Outcome (Option Packet)
packet_at tmp write_index i =
    if ltb (i + 1) write_index
    then (do
      pk_len ← get_int32_from_net_byte tmp (i + 1)
      require (fits_int32 (pos i +ℤ pk_len))
      let j = pos i +ℤ pk_len -ℤ pos 1
      if leb_ℤ (pos write_index) j then ok none else end_mark tmp i pk_len j)
    else ok none

-- The `for` loop: `n` bytes are left before the write index.
unfoldable pub find_packet : List ℕ → ℕ → ℕ → ℕ → Outcome (Option Packet)
find_packet tmp write_index zero i = ok none
find_packet tmp write_index (suc n) i =
    let rest = find_packet tmp write_index n (i + 1) in
    do
      c ← byte_at tmp i
      found ← (if c == pb_start then packet_at tmp write_index i else ok none)
      elim found [ none ↦ rest | some p ↦ ok (some p) ]

-- `std::string(s)` of a char array: the bytes before the first 0. There must be one.
unfoldable pub c_string : List ℕ → Outcome (List ℕ)
c_string [] = fault
c_string (zero ∷ r) = ok []
c_string (suc c ∷ r) = do s ← c_string r; ok (suc c ∷ s)

-- `char s[size] = {0}; memcpy(&s[0], &tmp[i], len); std::string(s)`
unfoldable pub copy_text : ℕ → List ℕ → ℕ → ℤ → Outcome (List ℕ)
copy_text size tmp i (negsuc n) = fault
copy_text size tmp i (pos n) = do
  require (leb n size)
  bytes ← mem_read tmp i n
  c_string (bytes ++ replicate (size - n) 0)

-- `std::string(&tmp[i], len)`: a negative length is too large a size_t, and std::length_error leaves.
unfoldable pub sized_text : List ℕ → ℕ → ℤ → Outcome (List ℕ)
sized_text tmp i (negsuc n) = uncaught
sized_text tmp i (pos n) = mem_read tmp i n

-- What follows unless `index >= end_index`, where the message is given up.
abbrev before {ℓ} : {A : Type ℓ} → ℕ → ℕ → Outcome (Option A) → Outcome (Option A)
before index end_index k = if leb end_index index then ok none else k

-- The message in a packet, or none. A length that was copied is not negative.
unfoldable pub parse_packet : List ℕ → Packet → Outcome (Option TinyPbProtocol)
parse_packet tmp p =
    let msg_id_len_index = p.start_index + 1 + 4 in
    before msg_id_len_index p.end_index (do
      msg_id_len ← get_int32_from_net_byte tmp msg_id_len_index
      let msg_id_index = msg_id_len_index + 4
      msg_id ← copy_text 100 tmp msg_id_index msg_id_len
      let method_name_len_index = msg_id_index + pos_part msg_id_len
      before method_name_len_index p.end_index (do
        method_name_len ← get_int32_from_net_byte tmp method_name_len_index
        let method_name_index = method_name_len_index + 4
        method_name ← copy_text 512 tmp method_name_index method_name_len
        let err_code_index = method_name_index + pos_part method_name_len
        before err_code_index p.end_index (do
          err_code ← get_int32_from_net_byte tmp err_code_index
          let error_info_len_index = err_code_index + 4
          before error_info_len_index p.end_index (do
            err_info_len ← get_int32_from_net_byte tmp error_info_len_index
            let err_info_index = error_info_len_index + 4
            err_info ← copy_text 512 tmp err_info_index err_info_len
            let pb_data_len =
                p.pk_len -ℤ method_name_len -ℤ msg_id_len -ℤ err_info_len -ℤ pos 2 -ℤ pos 24
            let pd_data_index = err_info_index + pos_part err_info_len
            pb_data ← sized_text tmp pd_data_index pb_data_len
            ok (
                some (record new_message {
                  msg_id = msg_id;
                  pk_len = p.pk_len;
                  msg_id_len = msg_id_len;
                  method_name_len = method_name_len;
                  method_name = method_name;
                  err_code = err_code;
                  err_info_len = err_info_len;
                  err_info = err_info;
                  pb_data = pb_data;
                  parse_success = true;
                }))))))

abbrev pub push : List TinyPbProtocol → Option TinyPbProtocol → List TinyPbProtocol
push out none = out
push out (some m) = out ++ (m ∷ [])

-- The `while (true)` loop, on fuel. The bytes are copied before the read index moves.
unfoldable pub decode_loop :
    ℕ → List TinyPbProtocol → TcpBuffer → Outcome (List TinyPbProtocol × TcpBuffer)
decode_loop zero out_messages buffer = stuck
decode_loop (suc fuel) out_messages buffer = do
  let tmp = buffer.buffer
  let start = buffer.read_index
  found ← find_packet tmp buffer.write_index (buffer.write_index - start) start
  elim found [
    | none ↦ ok (out_messages, buffer)
    | some p ↦ do
      buffer' ← move_read_index buffer (pos p.end_index -ℤ pos p.start_index +ℤ pos 1)
      message ← parse_packet tmp p
      decode_loop fuel (push out_messages message) buffer'
  ]

-- decode with the fuel that a buffer of packets takes: each round takes a byte at least.
unfoldable pub decode : TcpBuffer → Outcome (List TinyPbProtocol × TcpBuffer)
unfolding decode_loop
decode buffer = decode_loop (buffer.write_index - buffer.read_index + 1) [] buffer
