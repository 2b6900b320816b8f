-- ===== src/Rpc/Channel/Calling.antt =====
-- CallMethod from the answer of the service centre to the connection.
use talon_rpc.Prelude.{
  ℕ, ◌^◌, ◌%◌, ◌<◌, ◌≡◌, refl, sym, ap, ◌∙◌, List, length, ltb, leb, ◌&&◌, Option, none, some, true,
  false, Bool-cases, inl, inr, arith, lt→ltb, All,
}
use talon_rpc.Prelude.Int.{pos}
use talon_rpc.Prelude.Text.{
  codes, str_eq, str_eq_iff, find_first_of, find_first_of-append, Without, c_prefix-NoNul,
}
use talon_rpc.Prelude.Decimal.{to_string}
use talon_rpc.Prelude.Dict.{Dict}
use talon_rpc.Prelude.Outcome.{ok, require, ◌>>◌}
use talon_rpc.Coder.Protocol.{new_message}
use talon_rpc.Discovery.Client.{answered, service_discovery}
use talon_rpc.NetAddr.{IpNetAddr, to_text, find_addr}
use talon_rpc.NetAddr.RoundTrip.{find_addr_lem}
use talon_rpc.Rpc.Controller.{set_msg_id}
use talon_rpc.Rpc.MsgId.{MsgIds}
use talon_rpc.Rpc.Channel.{RpcChannel}
use talon_rpc.Rpc.Channel.Call.{
  Called, connecting, Arguments, choose_msg_id, send_request, call_checked, call_found,
  call_addressed, call_method,
}

-- An address that can be sent as text: an ip without a colon, a port, and no byte 0.
pub record IsAddress (a : IpNetAddr) : Type 0 where
  pub no_colon : Without b':' a.ip
  pub some_ip : 0 < length a.ip
  pub some_port : 0 < a.port
  pub port_fits : a.port < 2 ^ 16
  pub no_nul : All (λ c. 0 < c) (to_text a)
  pub short : length (to_text a) < 1024

known_host : (a : IpNetAddr) → IsAddress a → str_eq (to_text a) (codes "unknown host") ≡ false
known_host a h = elim (Bool-cases (str_eq (to_text a) (codes "unknown host"))) [
  | inl e ↦
      let same : to_text a ≡ codes "unknown host" =
        (str_eq_iff (to_text a) (codes "unknown host")).0 e in
      let colon = find_first_of-append b':' a.ip (to_string (pos a.port)) (h.no_colon) in
      let no_such : find_first_of b':' (codes "unknown host") ≡ none =
        unfold find_first_of in refl in
      absurd (ground (arith, sym colon ∙ ap (find_first_of b':') same ∙ no_such))
  | inr e ↦ e
]

found_addr :
    (stubs : Dict IpNetAddr) (a : IpNetAddr)
    → IsAddress a
    → find_addr stubs (to_text a) ≡ ok (some a)
found_addr stubs a h =
    let inside : (ltb 0 a.port && leb a.port 65536) ≡ true =
      ground (arith, h.some_port, h.port_fits) in
    let port : a.port % 2 ^ 16 ≡ a.port = omega (arith, h.port_fits) in
    find_addr_lem stubs a.ip a.port (h.no_colon) (h.some_ip) (omega (arith, h.port_fits))
    ∙ (rw inside (ap (λ t. ok (some (record { ip = a.ip; port = t }))) port))

-- Arguments that are all there.
abbrev pub whole : List ℕ → List ℕ → Arguments
whole full_name pb_data = record {
  full_name = full_name;
  has_controller = true;
  request = some (some pb_data);
  has_response = true;
}

module _ {M : Type 0} where
  checked_lem :
      (pb_data id msgid : List ℕ) (a : Arguments) (random : Option (List ℕ)) (ids ids' : MsgIds)
      (ch : RpcChannel M)
      → ch.is_init ≡ true
      → choose_msg_id random ch.controller.msg_id msgid ids ≡ ok (id, ids')
      → call_checked (some (some pb_data)) a random msgid ids ch
        ≡ ok (
          connecting
              (record new_message { msg_id = id; method_name = a.full_name; pb_data = pb_data })
              (record ch { controller = set_msg_id id ch.controller }),
          ids',
        )
  unfolding call_checked send_request
  checked_lem pb_data id msgid a random ids ids' ch h e =
      let calling : Called M =
        connecting
          (record new_message { msg_id = id; method_name = a.full_name; pb_data = pb_data })
          (record ch { controller = set_msg_id id ch.controller }) in
      rw e (ap (λ b. require b >> ok (calling, ids')) h)

  -- CallMethod of a channel that Init was called on, with a controller, a request that can be
  -- serialized and a response, begins to connect to the address that the centre has answered with. The
  -- request has the id that was chosen, which the controller gets too, the full name of the method and
  -- the serialized bytes.
  pub call_method-connecting :
      (stubs : Dict IpNetAddr) (addr : IpNetAddr) (full_name pb_data id msgid : List ℕ)
      (random : Option (List ℕ)) (ids ids' : MsgIds) (ch : RpcChannel M)
      → IsAddress addr
      → ch.is_init ≡ true
      → choose_msg_id random ch.controller.msg_id msgid ids ≡ ok (id, ids')
      → call_method (answered (to_text addr)) stubs (whole full_name pb_data) random msgid ids ch
        ≡ ok (
          connecting
              (record new_message { msg_id = id; method_name = full_name; pb_data = pb_data })
              (record ch { peer_addr = some addr; controller = set_msg_id id ch.controller }),
          ids',
        )
  unfolding call_method call_addressed call_found service_discovery
  call_method-connecting stubs addr full_name pb_data id msgid random ids ids' ch h init e =
      rw
        (
          lt→ltb _ _ h.short,
          c_prefix-NoNul (to_text addr) h.no_nul,
          known_host addr h,
          found_addr stubs addr h,
        )
        (checked_lem pb_data id msgid (whole full_name pb_data) random ids ids'
          (record ch { peer_addr = some addr }) init e)
