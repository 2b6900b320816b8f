-- ===== src/Coder/Scan.antt =====
-- The first half of decode: the search for a packet, on the bytes that encodeTinyPB writes and on
-- bytes without a start mark.
use talon_rpc.Prelude.{
  ℕ, zero, suc, ◌+◌, ◌-◌, ◌^◌, ◌<◌, ◌≤◌, ◌≡◌, ◌≢◌, refl, ◌∙◌, List, [], ◌∷◌, ◌++◌, length, ltb,
  ◌==◌, arith, true, false, length-append, append_assoc, All, drop, take, some, none, lt→ltb,
}
use talon_rpc.Prelude.Int.{pos, ◌+ℤ◌, ◌-ℤ◌, pos_add, fits_int32, leb_ℤ}
use talon_rpc.Prelude.Outcome.{ok}
use talon_rpc.Coder.Protocol.{TinyPbProtocol, pb_start, pb_end}
use talon_rpc.Coder.Net.{net_bytes, length-net_bytes}
use talon_rpc.Coder.Encode.{packet_size}
use talon_rpc.Coder.Wire.{wire_then}
use talon_rpc.Coder.Parse.{IsSendable, skip_at, size_at, packet_room}
use talon_rpc.Coder.Decode.{packet, byte_at, end_mark, packet_at, find_packet}

byte_at_lem :
    (tmp : List ℕ) (k c : ℕ) (rest : List ℕ) → drop k tmp ≡ c ∷ rest → byte_at tmp k ≡ ok c
unfolding byte_at
byte_at_lem [] zero c rest e = cc
byte_at_lem [] (suc k) c rest e = cc
byte_at_lem (x ∷ tmp) zero c rest e = cc
byte_at_lem (x ∷ tmp) (suc k) c rest e = byte_at_lem tmp k c rest e

-- The bytes of a packet before its end mark.
front : TinyPbProtocol → List ℕ
front m =
    pb_start
    ∷ (net_bytes (pos (packet_size m))
        ++ (net_bytes (pos (length m.msg_id))
            ++ (m.msg_id
                ++ (net_bytes (pos (length m.method_name))
                    ++ (m.method_name
                        ++ (net_bytes m.err_code
                            ++ (net_bytes (pos (length m.err_info))
                                ++ (m.err_info ++ (m.pb_data ++ net_bytes (pos 1))))))))))

front-append : (m : TinyPbProtocol) (post : List ℕ) → wire_then m post ≡ front m ++ (pb_end ∷ post)
unfolding front
front-append m post = simp append_assoc

length-front : (m : TinyPbProtocol) → packet_size m - 1 ≡ length (front m)
unfolding front
length-front m = simp (length-append, length-net_bytes) (omega arith)

-- The end of a packet of `size` bytes at `k`.
end_index : (k size : ℕ) → 0 < size → pos k +ℤ pos size -ℤ pos 1 ≡ pos (k + (size - 1))
end_index k size h = ground arith

module _ (tmp : List ℕ) (write_index k n : ℕ) (m : TinyPbProtocol) (post : List ℕ)
    (here : drop k tmp ≡ wire_then m post) (sendable : IsSendable m)
    (whole : k + packet_size m ≤ write_index) (small : length tmp < 2 ^ 31) where
  end_mark-wire :
      end_mark tmp k (pos (packet_size m)) (pos (k + (packet_size m - 1)))
      ≡ ok (some (packet k (k + (packet_size m - 1)) (pos (packet_size m))))
  unfolding end_mark
  end_mark-wire = rw (
      byte_at_lem tmp (k + (packet_size m - 1)) pb_end post (
        skip_at tmp k (packet_size m - 1) (front m) _ (here ∙ front-append m post)
          (length-front m)))

  packet_at-wire :
      packet_at tmp write_index k
      ≡ ok (some (packet k (k + (packet_size m - 1)) (pos (packet_size m))))
  unfolding packet_at
  packet_at-wire =
      let size = packet_size m in
      let inside : ltb (k + 1) write_index ≡ true = ground arith in
      let fits : fits_int32 (pos k +ℤ pos size) ≡ true =
        rw (pos_add k size) (lt→ltb _ _ (omega (arith, packet_room tmp k m post here))) in
      let before : leb_ℤ (pos write_index) (pos (k + (size - 1))) ≡ false = ground arith in
      rw (
        inside,
        size_at tmp k m post here sendable,
        fits,
        end_index k size (omega arith),
        before,
        end_mark-wire,
      )

  -- A packet at the start of the search is found.
  pub find_packet-wire :
      find_packet tmp write_index (suc n) k
      ≡ ok (some (packet k (k + (packet_size m - 1)) (pos (packet_size m))))
  unfolding find_packet
  find_packet-wire = rw (byte_at_lem tmp k pb_start _ here, packet_at-wire)

-- Bytes with no start mark among them.
abbrev pub IsQuiet : List ℕ → Type 0
IsQuiet = All (λ c. c ≢ pb_start)

drop_cons :
    (tmp : List ℕ) (i k : ℕ) → i < length tmp → k ≡ suc i → (c : ℕ) × (drop i tmp ≡ c ∷ drop k tmp)
drop_cons [] i k h e = absurd (omega arith)
drop_cons (x ∷ tmp) i zero h e = absurd (omega arith)
drop_cons (x ∷ tmp) zero (suc k) h e = let z : zero ≡ k = omega arith in (x, rw (← z))
drop_cons (x ∷ tmp) (suc i) (suc k) h e = drop_cons tmp i k (omega arith) (omega arith)

pub find_packet-IsQuiet :
    (tmp : List ℕ) (write_index n i : ℕ)
    → i + n ≤ length tmp
    → IsQuiet (take n (drop i tmp))
    → find_packet tmp write_index n i ≡ ok none
unfolding find_packet
find_packet-IsQuiet tmp write_index zero i h q = refl
find_packet-IsQuiet tmp write_index (suc n) i h q =
    let (c, e) = drop_cons tmp i (i + 1) (omega arith) (omega arith) in
    let q' : IsQuiet (take (suc n) (c ∷ drop (i + 1) tmp)) = rw e at q in
    let other : (c == pb_start) ≡ false = ground (arith, q'.0) in
    rw (byte_at_lem tmp i c _ e, other)
      (find_packet-IsQuiet tmp write_index n (i + 1) (omega arith) q'.1)
