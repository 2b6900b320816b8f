-- ===== src/Server/Clients.antt =====
-- Accepting connections and clearing closed ones.
use talon_rpc.Prelude.{
  ℕ, suc, ◌+◌, ◌≡◌, refl, List, [], ◌∷◌, length, All, false, Bool-cases, inl, inr, if◌then◌else◌,
  arith,
}
use talon_rpc.Connection.{TcpConnection}
use talon_rpc.Server.{TcpServer, is_closed, clear_closed, clear_client}

module _ {D : Type 0} where
  abbrev pub count_closed : List (TcpConnection D) → ℕ
  count_closed [] = 0
  count_closed (c ∷ client) =
      let rest = count_closed client in if is_closed c.state then suc rest else rest

  abbrev pub AllOpen : List (TcpConnection D) → Type 0
  AllOpen = All (λ c. is_closed c.state ≡ false)

  clear_closed_lem :
      (client : List (TcpConnection D))
      → AllOpen (clear_closed client)
        × (length (clear_closed client) + count_closed client ≡ length client)
  unfolding clear_closed
  clear_closed_lem [] = (tt, refl)
  clear_closed_lem (c ∷ client) =
      let (h, n) = clear_closed_lem client in
      elim (Bool-cases (is_closed c.state)) [
        | inl e ↦ rw e (h, omega (arith, n))
        | inr e ↦ rw e ((e, h), omega (arith, n))
      ]

  -- After ClearClientTimerFunc no connection of the server is closed, and it lost exactly as many
  -- connections as were closed.
  pub clear_client_lem :
      (s : TcpServer D)
      → AllOpen (clear_client s).client
        × (length (clear_client s).client + count_closed s.client ≡ length s.client)
  unfolding clear_client
  clear_client_lem s = clear_closed_lem s.client
