-- ===== src/Coder/Hostile.antt =====
-- decode on bytes that no encoder writes.
use talon_rpc.Prelude.{
  ℕ, zero, suc, ◌-◌, ◌/◌, ◌≤◌, ◌≡◌, refl, List, ◌∷◌, length, leb, ltb, arith, true, false, some,
}
use talon_rpc.Prelude.Int.{pos, leb_ℤ, of_word}
use talon_rpc.Prelude.Outcome.{ok, stuck}
use talon_rpc.Memory.{mem_read}
use talon_rpc.Buffer.{TcpBuffer, move_read_index, move_read_index_to, adjust_buffer}
use talon_rpc.Coder.Protocol.{TinyPbProtocol}
use talon_rpc.Coder.Net.{get_int32_from_net_byte, net_word}
use talon_rpc.Coder.Decode.{
  packet, find_packet, packet_at, end_mark, byte_at, parse_packet, decode_loop,
}

-- An end mark before a start mark, and the length 0.
abbrev pub backward : List ℕ → List ℕ
backward rest = 3 ∷ 2 ∷ 0 ∷ 0 ∷ 0 ∷ 0 ∷ rest

abbrev pub holding : ℕ → ℕ → List ℕ → TcpBuffer
holding size write_index bytes = record {
  read_index = 0;
  write_index = write_index;
  size = size;
  buffer = bytes;
}

zero_at : (rest : List ℕ) → get_int32_from_net_byte (backward rest) 2 ≡ ok (pos 0)
unfolding get_int32_from_net_byte mem_read net_word of_word
zero_at rest = let inside : leb 6 (length (backward rest)) ≡ true = ground arith in rw inside

found_backward :
    (rest : List ℕ) (w n : ℕ)
    → 6 ≤ w
    → find_packet (backward rest) w (suc (suc n)) 0 ≡ ok (some (packet 1 0 (pos 0)))
unfolding find_packet packet_at end_mark byte_at
found_backward rest w n h =
    let more : ltb 2 w ≡ true = ground arith in
    let inside : leb_ℤ (pos w) (pos 0) ≡ false = ground arith in rw (more, zero_at rest, inside)

-- Six received bytes keep decode in its loop for ever: with any fuel it runs out.
pub decode_loop-backward :
    (fuel size w : ℕ) (rest : List ℕ) (out : List TinyPbProtocol)
    → 6 ≤ w
    → decode_loop fuel out (holding size w (backward rest)) ≡ stuck
unfolding decode_loop move_read_index move_read_index_to adjust_buffer parse_packet
decode_loop-backward zero size w rest out h = refl
decode_loop-backward (suc fuel) size w rest out h =
    let n : w - 0 ≡ suc (suc (w - 2)) = omega arith in
    let room : leb (length (backward rest)) 0 ≡ false = ground arith in
    let front : ltb 0 (length (backward rest) / 3) ≡ true = ground arith in
    rw (n, found_backward rest w (w - 2) h, room, front)
      (decode_loop-backward fuel size w rest out h)
