-- ===== src/Connection/Serving.antt =====
-- A server's excute: from the bytes of the requests to the bytes of the replies.
use talon_rpc.Prelude.{
  ℕ, ◌≡◌, subst, refl, sym, ap, ◌∙◌, List, [], ◌∷◌, ◌++◌, length, Option, arith, append_assoc,
  length-append, map,
}
use talon_rpc.Prelude.Dict.{Dict}
use talon_rpc.Prelude.Outcome.{Outcome, ok}
use talon_rpc.Buffer.{contents, IsValid}
use talon_rpc.Buffer.Contents.{Holds}
use talon_rpc.Coder.Protocol.{TinyPbProtocol}
use talon_rpc.Coder.Wire.{wires, encoded}
use talon_rpc.Coder.Scan.{IsQuiet}
use talon_rpc.Coder.RoundTrip.{IsOpen, AllSendable, decode-wires}
use talon_rpc.NetAddr.{IpNetAddr}
use talon_rpc.Connection.{TcpConnection, by_server}
use talon_rpc.Connection.Execute.{World, dispatch_all, excute_as, excute}
use talon_rpc.Rpc.Dispatcher.{Service}
use talon_rpc.Rpc.Answer.{Sends, Fits, dispatch-replies, nothing_sent}
use talon_rpc.Rpc.Replies.{replies}

-- The replies to some requests, in their order.
abbrev pub all_replies :
    {M : Type 0}
    → Option IpNetAddr
    → IpNetAddr
    → Dict (Service M)
    → List TinyPbProtocol
    → List TinyPbProtocol
all_replies local_addr peer_addr service_map [] = []
all_replies local_addr peer_addr service_map (i ∷ result) =
    replies local_addr peer_addr service_map i
    ++ all_replies local_addr peer_addr service_map result

wires-append : (ms ns : List TinyPbProtocol) → wires (ms ++ ns) ≡ wires ms ++ wires ns
wires-append [] ns = refl
wires-append (m ∷ ms) ns = rw (wires-append ms ns) (sym (append_assoc _ (wires ms) (wires ns)))

module _ {D : Type 0} where
  Sends-trans :
      (c d e : TcpConnection D) (ms ns : List TinyPbProtocol)
      → Sends c ms d
      → Sends d ns e
      → Sends c (ms ++ ns) e
  Sends-trans c d e ms ns h k =
      let unread =
        k.out.unread
        ∙ ap (λ s. s ++ wires ns) (h.out.unread)
        ∙ append_assoc (contents c.out_buffer) (wires ms) (wires ns) in
      record {
        out = record {
          valid = k.out.valid;
          unread = unread ∙ ap (◌++◌ (contents c.out_buffer)) (sym (wires-append ms ns));
        };
        low = omega (
          arith,
          h.low,
          k.low,
          ap length (wires-append ms ns),
          length-append (wires ms) (wires ns),
        );
        same_local = k.same_local ∙ h.same_local;
        same_peer = k.same_peer ∙ h.same_peer;
        same_in = k.same_in ∙ h.same_in;
      }

-- The replies that a connection gets.
abbrev pub replies_on :
    {M D : Type 0} → Dict (Service M) → TcpConnection D → List TinyPbProtocol → List TinyPbProtocol
replies_on service_map c requests = all_replies c.local_addr c.peer_addr service_map requests

replies_on-Sends :
    {M D : Type 0} (service_map : Dict (Service M)) (c d : TcpConnection D)
    (ms requests : List TinyPbProtocol)
    → Sends c ms d
    → replies_on service_map d requests ≡ replies_on service_map c requests
replies_on-Sends service_map c d ms requests h = rw (h.same_local, h.same_peer)

module _ {M D E : Type 0} (service_map : Dict (Service M)) where
  dispatch_all-replies :
      (requests : List TinyPbProtocol) (w : World D E)
      → IsValid w.connection.out_buffer
      → Fits w.connection (replies_on service_map w.connection requests)
      → (w' : World D E) × (dispatch_all service_map requests w ≡ ok w')
        × Sends w.connection (replies_on service_map w.connection requests) w'.connection
  unfolding dispatch_all
  dispatch_all-replies [] w v fits = (w, refl, nothing_sent w.connection v)
  dispatch_all-replies (i ∷ requests) w v fits =
      let c = w.connection in
      let here = replies c.local_addr c.peer_addr service_map i in
      let there = replies_on service_map c requests in
      let l = ap length (wires-append here there) ∙ length-append (wires here) (wires there) in
      let (d, e, sends) = dispatch-replies c v service_map i w.run_time (omega (arith, l, fits)) in
      let same = replies_on-Sends service_map c d.connection here requests sends in
      let (w', e', sends') =
        dispatch_all-replies requests
          (record w { run_time = d.run_time; connection = d.connection }) sends.out.valid
          (omega (arith, l, fits, sends.low, ap (λ r. length (wires r)) same)) in
      (
        w',
        rw e e',
        Sends-trans c d.connection w'.connection here there sends
            (subst (λ r. Sends d.connection r w'.connection) same sends'),
      )

module _ {M D E : Type 0} (service_map : Dict (Service M))
    (call : D → TinyPbProtocol → World D E → Outcome (World D E)) where
  -- A server's excute takes every request that is whole in the input buffer out of it and puts the
  -- replies to them, in the order of the requests, behind what the output buffer holds. The input buffer
  -- is open, the requests are sendable, no start mark stands in the bytes behind them, and the output
  -- buffer can hold the replies.
  pub excute-replies :
      (w : World D E) (requests : List TinyPbProtocol) (rest : List ℕ)
      → w.connection.connection_type ≡ by_server
      → IsOpen w.connection.in_buffer
      → AllSendable requests
      → IsQuiet rest
      → contents w.connection.in_buffer ≡ wires requests ++ rest
      → IsValid w.connection.out_buffer
      → Fits w.connection (replies_on service_map w.connection (map encoded requests))
      → (w' : World D E) × (excute service_map call w ≡ ok w')
        × (contents w'.connection.in_buffer ≡ rest)
        × Holds
            (contents w.connection.out_buffer
              ++ wires (replies_on service_map w.connection (map encoded requests)))
            w'.connection.out_buffer
  unfolding excute
  excute-replies w requests rest server open_in h q e v fits =
      let (b, e1, left, still) = decode-wires requests w.connection.in_buffer rest open_in h q e in
      let w1 = record w { connection = record (w.connection) { in_buffer = b } } in
      let (w', e2, sends) = dispatch_all-replies service_map (map encoded requests) w1 v fits in
      (
        w',
        rw e1 (
            ap (λ t. excute_as service_map call t (map encoded requests) w1) server
            ∙ (unfold excute_as in e2)),
        ap contents sends.same_in ∙ left,
        sends.out,
      )
