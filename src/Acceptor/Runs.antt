-- ===== src/Acceptor/Runs.antt =====
-- A client with the address 10.0.0.5:8080, and its ip as the numbers of its four bytes.
use talon_rpc.Prelude.{ℕ, ◌≡◌, refl, List, [], ◌∷◌, ◌++◌, take, drop, replicate}
use talon_rpc.Prelude.Int.{pos}
use talon_rpc.Acceptor.{sockaddr_in, accept}
use talon_rpc.Acceptor.Peer.{accept_loses_ip}

abbrev fill : ℕ → List ℕ → List ℕ → List ℕ
fill len peer buf = take len peer ++ drop len buf

accept_loses_ip_example :
    accept (λ b. b) fill (pos 9) (sockaddr_in 8080 (10 ∷ 0 ∷ 0 ∷ 5 ∷ []))
    ≡ (pos 9, record { ip = replicate 4 0; port = 8080 })
accept_loses_ip_example =
    accept_loses_ip (λ b. b) fill 9 8080 (10 ∷ 0 ∷ 0 ∷ 5 ∷ []) (λ len peer buf. refl)
