-- ===== src/Coder/Parse.antt =====
-- The second half of decode on the bytes that encodeTinyPB writes.
use talon_rpc.Prelude.{
  ℕ, zero, suc, ◌+◌, ◌-◌, ◌^◌, ◌<◌, ◌≤◌, ◌≡◌, refl, sym, ap, ◌∙◌, List, [], ◌∷◌, ◌++◌, length, leb,
  arith, true, false, length-append, All, drop, drop-drop, drop-append, length-drop, replicate,
  some,
}
use talon_rpc.Prelude.Int.{ℤ, pos, IsInt32, ◌-ℤ◌}
use talon_rpc.Prelude.Outcome.{ok}
use talon_rpc.Coder.Protocol.{TinyPbProtocol, pb_start}
use talon_rpc.Coder.Net.{
  length-net_bytes, get_int32_from_net_byte, get_int32-net_bytes, mem_read_at,
}
use talon_rpc.Coder.Encode.{packet_size, set_lengths}
use talon_rpc.Coder.Wire.{wire_then, wire, wire-append, length-wire}
use talon_rpc.Coder.Decode.{packet, parse_packet, copy_text, c_string, sized_text}

-- Bytes with no 0 among them, which survive as a C string.
abbrev pub NoNul : List ℕ → Type 0
NoNul = All (λ c. 0 < c)

-- A message that the receiver's arrays can hold and that its C strings do not cut.
pub record IsSendable (m : TinyPbProtocol) : Type 0 where
  pub id_short : length m.msg_id < 100
  pub id_no_nul : NoNul m.msg_id
  pub method_short : length m.method_name < 512
  pub method_no_nul : NoNul m.method_name
  pub info_short : length m.err_info < 512
  pub info_no_nul : NoNul m.err_info
  pub code_fits : IsInt32 m.err_code
  pub size_fits : packet_size m < 2 ^ 31
  pub no_check_sum : m.check_sum ≡ pos 0

c_string_lem : (s : List ℕ) (n : ℕ) → NoNul s → 0 < n → c_string (s ++ replicate n 0) ≡ ok s
unfolding c_string
c_string_lem [] zero h p = absurd (omega arith)
c_string_lem [] (suc n) h p = refl
c_string_lem (zero ∷ s) n h p = absurd (omega arith)
c_string_lem (suc c ∷ s) n h p = rw (c_string_lem s n h.1 p)

copy_text_lem :
    (size : ℕ) (tmp : List ℕ) (k : ℕ) (s rest : List ℕ)
    → drop k tmp ≡ s ++ rest
    → length s < size
    → NoNul s
    → k ≤ length tmp
    → copy_text size tmp k (pos (length s)) ≡ ok s
unfolding copy_text
copy_text_lem size tmp k s rest e short clean inside =
    let fits : leb (length s) size ≡ true = ground arith in
    rw (fits, mem_read_at tmp k (length s) s rest e refl inside)
      (c_string_lem s (size - length s) clean (omega arith))

pub skip_at :
    (tmp : List ℕ) (k n : ℕ) (xs rest : List ℕ)
    → drop k tmp ≡ xs ++ rest
    → n ≡ length xs
    → drop (k + n) tmp ≡ rest
skip_at tmp k n xs rest e size =
    sym (drop-drop n k (k + n) tmp refl) ∙ rw e (drop-append n xs rest size)

pub packet_room :
    (tmp : List ℕ) (k : ℕ) (m : TinyPbProtocol) (post : List ℕ)
    → drop k tmp ≡ wire_then m post
    → k + packet_size m + length post ≡ length tmp
packet_room tmp k m post e =
    let l : length (drop k tmp) ≡ packet_size m + length post =
      ap length (e ∙ sym (wire-append m post))
      ∙ length-append (wire m) post
      ∙ ap (λ (t : ℕ). t + length post) (length-wire m) in
    omega (arith, l, length-drop k tmp)

-- The data's length is what the other parts leave of the packet.
data_len :
    (method id info d size : ℕ)
    → size ≡ 2 + 24 + id + method + info + d
    → pos size -ℤ pos method -ℤ pos id -ℤ pos info -ℤ pos 2 -ℤ pos 24 ≡ pos d
data_len method id info d size e = ground arith

module _ (tmp : List ℕ) (k : ℕ) (m : TinyPbProtocol) (post : List ℕ)
    (here : drop k tmp ≡ wire_then m post) (sendable : IsSendable m) where
  pub size_at : get_int32_from_net_byte tmp (k + 1) ≡ ok (pos (packet_size m))
  size_at =
      get_int32-net_bytes tmp (k + 1) (pos (packet_size m)) _
        (skip_at tmp k 1 (pb_start ∷ []) _ here refl) (omega (arith, sendable.size_fits))
        (omega (arith, packet_room tmp k m post here))

  pub parse_packet-wire :
      parse_packet tmp (packet k (k + (packet_size m - 1)) (pos (packet_size m)))
      ≡ ok (some (set_lengths m))
  unfolding parse_packet sized_text
  parse_packet-wire =
      let room = packet_room tmp k m post here in
      let four = λ (z : ℤ). sym (length-net_bytes z) in
      let h1 = skip_at tmp k 1 (pb_start ∷ []) _ here refl in
      let h2 = skip_at tmp (k + 1) 4 _ _ h1 (four _) in
      let h3 = skip_at tmp (k + 1 + 4) 4 _ _ h2 (four _) in
      let h4 = skip_at tmp (k + 1 + 4 + 4) (length m.msg_id) _ _ h3 refl in
      let k4 = k + 1 + 4 + 4 + length m.msg_id in
      let h5 = skip_at tmp k4 4 _ _ h4 (four _) in
      let h6 = skip_at tmp (k4 + 4) (length m.method_name) _ _ h5 refl in
      let k6 = k4 + 4 + length m.method_name in
      let h7 = skip_at tmp k6 4 _ _ h6 (four _) in
      let h8 = skip_at tmp (k6 + 4) 4 _ _ h7 (four _) in
      let h9 = skip_at tmp (k6 + 4 + 4) (length m.err_info) _ _ h8 refl in
      let e2 =
        get_int32-net_bytes tmp (k + 1 + 4) (pos (length m.msg_id)) _ h2 (omega arith)
          (omega arith) in
      let e3 =
        copy_text_lem 100 tmp (k + 1 + 4 + 4) m.msg_id _ h3 sendable.id_short sendable.id_no_nul
          (omega arith) in
      let e4 =
        get_int32-net_bytes tmp k4 (pos (length m.method_name)) _ h4 (omega arith) (omega arith) in
      let e5 =
        copy_text_lem 512 tmp (k4 + 4) m.method_name _ h5 sendable.method_short
          sendable.method_no_nul (omega arith) in
      let e6 = get_int32-net_bytes tmp k6 m.err_code _ h6 sendable.code_fits (omega arith) in
      let e7 =
        get_int32-net_bytes tmp (k6 + 4) (pos (length m.err_info)) _ h7 (omega arith)
          (omega arith) in
      let e8 =
        copy_text_lem 512 tmp (k6 + 4 + 4) m.err_info _ h8 sendable.info_short sendable.info_no_nul
          (omega arith) in
      let e9 =
        mem_read_at tmp (k6 + 4 + 4 + length m.err_info) (length m.pb_data) m.pb_data _ h9 refl
          (omega arith) in
      let end = k + (packet_size m - 1) in
      let t1 : leb end (k + 1 + 4) ≡ false = ground arith in
      let t2 : leb end k4 ≡ false = ground arith in
      let t3 : leb end k6 ≡ false = ground arith in
      let t4 : leb end (k6 + 4) ≡ false = ground arith in
      let d =
        data_len (length m.method_name) (length m.msg_id) (length m.err_info) (length m.pb_data)
          (packet_size m) refl in
      rw (t1, e2, e3, t2, e4, e5, t3, e6, t4, e7, e8, d, e9)
        (ap (λ c. ok (some (record (set_lengths m) { check_sum = c }))) (sym sendable.no_check_sum))
