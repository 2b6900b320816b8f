-- ===== src/Coder/Wire.antt =====
-- The byte format of a message, and encodeTinyPB against it.
use talon_rpc.Prelude.{
  ℕ, ◌+◌, ◌*◌, ◌/◌, ◌^◌, ◌<◌, ◌≤◌, ◌≡◌, refl, sym, ap, ◌∙◌, List, [], ◌∷◌, ◌++◌, length, leb, arith,
  true, length-append, append_assoc, append-nil, map, lt→ltb,
}
use talon_rpc.Prelude.Int.{pos}
use talon_rpc.Prelude.Outcome.{ok}
use talon_rpc.Buffer.{TcpBuffer, IsValid, contents}
use talon_rpc.Buffer.Contents.{Holds}
use talon_rpc.Buffer.Writes.{write_to_buffer_appends}
use talon_rpc.Coder.Protocol.{TinyPbProtocol, pb_start, pb_end}
use talon_rpc.Coder.Net.{net_bytes, length-net_bytes}
use talon_rpc.Coder.Encode.{
  Block, emit, emit_all, finish, chunks, packet_size, set_lengths, with_msg_id, encode_tiny_pb,
  encode,
}

-- The bytes of a message with others behind it: a mark, the size of the packet, each text with its
-- length in front but the data, and a mark.
abbrev pub wire_then : TinyPbProtocol → List ℕ → List ℕ
wire_then m rest =
    pb_start
    ∷ (net_bytes (pos (packet_size m))
        ++ (net_bytes (pos (length m.msg_id))
            ++ (m.msg_id
                ++ (net_bytes (pos (length m.method_name))
                    ++ (m.method_name
                        ++ (net_bytes m.err_code
                            ++ (net_bytes (pos (length m.err_info))
                                ++ (m.err_info
                                    ++ (m.pb_data ++ (net_bytes (pos 1) ++ (pb_end ∷ rest)))))))))))

unfoldable pub wire : TinyPbProtocol → List ℕ
wire m = wire_then m []

pub wire-append : (m : TinyPbProtocol) (rest : List ℕ) → wire m ++ rest ≡ wire_then m rest
unfolding wire
wire-append m rest = simp append_assoc

pub length-wire : (m : TinyPbProtocol) → length (wire m) ≡ packet_size m
unfolding wire
length-wire m = simp (length-append, length-net_bytes) (omega arith)

concat : List (List ℕ) → List ℕ
concat [] = []
concat (c ∷ cs) = c ++ concat cs

emit_all_lem :
    (b : Block) (cs : List (List ℕ))
    → length b.filled + length (concat cs) ≤ b.capacity
    → emit_all b cs ≡ ok (record b { filled = b.filled ++ concat cs })
unfolding emit_all concat emit
emit_all_lem b [] h = rw append-nil
emit_all_lem b (c ∷ cs) h =
    let l = length-append c (concat cs) in
    let fits : leb (length b.filled + length c) b.capacity ≡ true = ground (arith, l) in
    rw fits (
      rw
        (emit_all_lem (record b { filled = b.filled ++ c }) cs
          (omega (arith, l, length-append b.filled c)))
        (rw append_assoc))

concat-chunks : (m : TinyPbProtocol) → concat (chunks m) ≡ wire m
unfolding concat wire
concat-chunks m = refl

finish_lem : (b : Block) → length b.filled ≡ b.capacity → finish b ≡ ok b.filled
unfolding finish
finish_lem b h = ground arith

-- encodeTinyPB writes the byte format, and fills the block that it allocated to its last byte.
pub encode_tiny_pb-wire :
    (m : TinyPbProtocol)
    → packet_size (with_msg_id m) < 2 ^ 31
    → encode_tiny_pb m ≡ ok (set_lengths (with_msg_id m), wire (with_msg_id m))
unfolding encode_tiny_pb
encode_tiny_pb-wire m fits =
    let m' = with_msg_id m in
    let e = concat-chunks m' in
    let l = ap length e ∙ length-wire m' in
    rw (
      lt→ltb _ _ fits,
      emit_all_lem (record { filled = []; capacity = packet_size m' }) (chunks m')
          (omega (arith, l)),
      finish_lem (record { filled = concat (chunks m'); capacity = packet_size m' }) l,
      e,
    )

abbrev pub wires : List TinyPbProtocol → List ℕ
wires [] = []
wires (m ∷ ms) = wire (with_msg_id m) ++ wires ms

-- What the caller sees in the messages after encode.
abbrev pub encoded : TinyPbProtocol → TinyPbProtocol
encoded m = set_lengths (with_msg_id m)

-- encode appends the byte format of the messages to the unread bytes of the buffer, in their order,
-- and sets the lengths and the default id in each. The vector's size must fit an int.
pub encode-wires :
    (ms : List TinyPbProtocol) (b : TcpBuffer)
    → IsValid b
    → 3 * (b.write_index + length (wires ms)) / 2 < 2 ^ 31
    → (c : TcpBuffer) × (encode ms b ≡ ok (map encoded ms, c)) × Holds (contents b ++ wires ms) c
unfolding encode
encode-wires [] b v fits = (b, refl, record { valid = v; unread = sym (append-nil _) })
encode-wires (m ∷ ms) b v fits =
    let l = length-append (wire (with_msg_id m)) (wires ms) in
    let size = length-wire (with_msg_id m) in
    let (b', e, held, low) =
      write_to_buffer_appends b (wire (with_msg_id m)) v (omega (arith, l)) in
    let (c, e', held') = encode-wires ms b' held.valid (omega (arith, l)) in
    (
      c,
      rw (encode_tiny_pb-wire m (omega (arith, l, size)), e, e'),
      record { valid = held'.valid; unread = held'.unread ∙ rw (held.unread, append_assoc) },
    )
