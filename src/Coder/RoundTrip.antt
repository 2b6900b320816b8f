-- ===== src/Coder/RoundTrip.antt =====
-- decode after encode: the packets come back as the messages that encode saw, in their order.
use talon_rpc.Prelude.{
  refl, ℕ, zero, suc, ◌+◌, ◌-◌, ◌*◌, ◌/◌, ◌^◌, ◌<◌, ◌≤◌, ◌≡◌, sym, ap, ◌∙◌, List, [], ◌∷◌, ◌++◌,
  length, arith, length-append, append_assoc, append-nil, All, drop, drop-append, some, map,
  take-append-drop,
}
use talon_rpc.Prelude.Int.{pos, ◌+ℤ◌, ◌-ℤ◌}
use talon_rpc.Prelude.Outcome.{ok}
use talon_rpc.Buffer.{TcpBuffer, IsValid, contents, read_able}
use talon_rpc.Buffer.Contents.{length-contents}
use talon_rpc.Buffer.Reads.{move_read_index_drops}
use talon_rpc.Coder.Protocol.{TinyPbProtocol}
use talon_rpc.Coder.Encode.{packet_size, with_msg_id, encode}
use talon_rpc.Coder.Wire.{wire_then, wire, wire-append, length-wire, wires, encoded, encode-wires}
use talon_rpc.Coder.Parse.{IsSendable, parse_packet-wire}
use talon_rpc.Coder.Scan.{IsQuiet, find_packet-wire, find_packet-IsQuiet}
use talon_rpc.Coder.Decode.{packet, find_packet, decode_loop, decode}

-- A buffer that decode can work on: valid, not full, and indexed by ints.
pub record IsOpen (b : TcpBuffer) : Type 0 where
  pub valid : IsValid b
  pub not_full : b.write_index < length b.buffer
  pub small : length b.buffer < 2 ^ 31

-- How far the read index moves behind a packet of `size` bytes at `k`.
amount : (k size : ℕ) → 0 < size → pos (k + (size - 1)) -ℤ pos k +ℤ pos 1 ≡ pos size
amount k size h = ground arith

-- The bytes of the vector from the read index on: the unread ones and what is behind them.
unread_front :
    (b : TcpBuffer) (xs : List ℕ)
    → contents b ≡ xs
    → drop b.read_index b.buffer ≡ xs ++ drop (read_able b) (drop b.read_index b.buffer)
unfolding contents
unread_front b xs e = rw (← e) (sym (take-append-drop (read_able b) (drop b.read_index b.buffer)))

decode_loop_quiet :
    (fuel : ℕ) (out : List TinyPbProtocol) (b : TcpBuffer)
    → IsOpen b
    → IsQuiet (contents b)
    → decode_loop (suc fuel) out b ≡ ok (out, b)
unfolding decode_loop contents
decode_loop_quiet fuel out b open_b q =
    rw (find_packet-IsQuiet b.buffer b.write_index (read_able b) b.read_index (omega arith) q)

-- The search finds the packet in front.
find_front :
    (b : TcpBuffer) (m : TinyPbProtocol) (post : List ℕ)
    → IsOpen b
    → IsSendable m
    → drop b.read_index b.buffer ≡ wire_then m post
    → packet_size m ≤ read_able b
    → find_packet b.buffer b.write_index (read_able b) b.read_index
      ≡ ok (some (packet b.read_index (b.read_index + (packet_size m - 1)) (pos (packet_size m))))
find_front b m post open_b sendable here whole =
    let n : read_able b ≡ suc (read_able b - 1) = omega arith in
    ap (λ t. find_packet b.buffer b.write_index t b.read_index) n
    ∙ find_packet-wire b.buffer b.write_index b.read_index (read_able b - 1) m post here sendable
        (omega arith) open_b.small

-- One round: the packet in front becomes a message, and its bytes are dropped.
decode_loop_packet :
    (fuel : ℕ) (out : List TinyPbProtocol) (b : TcpBuffer) (m : TinyPbProtocol) (rest : List ℕ)
    → IsOpen b
    → IsSendable (with_msg_id m)
    → contents b ≡ wire (with_msg_id m) ++ rest
    → (c : TcpBuffer) × (decode_loop (suc fuel) out b
        ≡ decode_loop fuel (out ++ (encoded m ∷ [])) c)
      × (contents c ≡ rest)
      × IsOpen c
unfolding decode_loop
decode_loop_packet fuel out b m rest open_b sendable e =
    let m' = with_msg_id m in
    let size = packet_size m' in
    let l = ap length e ∙ length-append (wire m') rest in
    let whole : size ≤ read_able b =
      omega (arith, l, length-wire m', length-contents b open_b.valid) in
    let behind = drop (read_able b) (drop b.read_index b.buffer) in
    let here : drop b.read_index b.buffer ≡ wire_then m' (rest ++ behind) =
      unread_front b _ e ∙ append_assoc (wire m') rest behind ∙ wire-append m' (rest ++ behind) in
    let (c, moved, held, same, low) =
      move_read_index_drops b size open_b.valid whole (omega arith) in
    (
      c,
      rw (
        find_front b m' (rest ++ behind) open_b sendable here whole,
        amount b.read_index size (omega arith),
        moved,
        parse_packet-wire b.buffer b.read_index m' (rest ++ behind) here sendable,
      ),
      held.unread ∙ rw e (drop-append size (wire m') rest (sym (length-wire m'))),
      record { valid = held.valid; not_full = omega arith; small = omega arith },
    )

abbrev pub AllSendable : List TinyPbProtocol → Type 0
AllSendable = All (λ m. IsSendable (with_msg_id m))

decode_loop-wires :
    (ms : List TinyPbProtocol) (fuel : ℕ) (out : List TinyPbProtocol) (b : TcpBuffer)
    (rest : List ℕ)
    → IsOpen b
    → AllSendable ms
    → IsQuiet rest
    → contents b ≡ wires ms ++ rest
    → length ms < fuel
    → (c : TcpBuffer) × (decode_loop fuel out b ≡ ok (out ++ map encoded ms, c))
      × (contents c ≡ rest)
      × IsOpen c
decode_loop-wires ms zero out b rest open_b h q e f = elim f [ ]
decode_loop-wires [] (suc fuel) out b rest open_b h q e f =
    let quiet : IsQuiet (contents b) = rw e q in
    (b, decode_loop_quiet fuel out b open_b quiet ∙ rw append-nil, e, open_b)
decode_loop-wires (m ∷ ms) (suc fuel) out b rest open_b h q e f =
    let (b', step, e', open_b') =
      decode_loop_packet fuel out b m (wires ms ++ rest) open_b h.0
        (e ∙ append_assoc (wire (with_msg_id m)) (wires ms) rest) in
    let (c, run, e'', open_c) =
      decode_loop-wires ms fuel (out ++ (encoded m ∷ [])) b' rest open_b' h.1 q e' (omega arith) in
    (
      c,
      step ∙ run ∙ ap (λ t. ok (t, c)) (append_assoc out (encoded m ∷ []) (map encoded ms)),
      e'',
      open_c,
    )

length-wires : (ms : List TinyPbProtocol) → length ms ≤ length (wires ms)
length-wires [] = omega arith
length-wires (m ∷ ms) = omega (
  arith,
  length-wires ms,
  length-append (wire (with_msg_id m)) (wires ms),
  length-wire (with_msg_id m),
)

-- decode returns every message whose packet is whole in the buffer, in their order and with the
-- fields that encode set, and leaves the bytes behind the packets, if no start mark is among them.
-- The messages are sendable (id, method name and error text fit the arrays of decode and have no
-- byte 0, the error code and the size fit an int, no checksum is set), and the buffer is open: its
-- bytes do not reach the end of the vector, whose size fits an int.
pub decode-wires :
    (ms : List TinyPbProtocol) (b : TcpBuffer) (rest : List ℕ)
    → IsOpen b
    → AllSendable ms
    → IsQuiet rest
    → contents b ≡ wires ms ++ rest
    → (c : TcpBuffer) × (decode b ≡ ok (map encoded ms, c)) × (contents c ≡ rest) × IsOpen c
unfolding decode
decode-wires ms b rest open_b h q e =
    let l = ap length e ∙ length-append (wires ms) rest in
    decode_loop-wires ms (read_able b + 1) [] b rest open_b h q e
      (omega (arith, l, length-wires ms, length-contents b open_b.valid))

-- encode puts sendable messages into a sender's buffer that holds nothing, and when what is then
-- unread there has got into a receiver's open buffer, decode returns there what encode has made of
-- the messages: all of them, in the same order, every field included. Nothing is left over. The
-- sender's vector must fit an int.
pub decode-encode :
    (ms : List TinyPbProtocol) (out_buffer in_buffer : TcpBuffer)
    → IsValid out_buffer
    → contents out_buffer ≡ []
    → 3 * (out_buffer.write_index + length (wires ms)) / 2 < 2 ^ 31
    → AllSendable ms
    → IsOpen in_buffer
    → contents in_buffer ≡ wires ms
    → (sent : List TinyPbProtocol) × (b : TcpBuffer) × (encode ms out_buffer ≡ ok (sent, b))
      × (contents b ≡ contents in_buffer)
      × (c : TcpBuffer) × (decode in_buffer ≡ ok (sent, c))
      × (sent ≡ map encoded ms)
      × (contents c ≡ [])
      × IsOpen c
decode-encode ms out_buffer in_buffer v empty fits h open_in arrived =
    let (b, sends, held) = encode-wires ms out_buffer v fits in
    let (c, e, left, still) =
      decode-wires ms in_buffer [] open_in h tt (arrived ∙ sym (append-nil (wires ms))) in
    (
      map encoded ms,
      b,
      sends,
      held.unread ∙ ap (λ t. t ++ wires ms) empty ∙ sym arrived,
      c,
      e,
      refl,
      left,
      still,
    )
