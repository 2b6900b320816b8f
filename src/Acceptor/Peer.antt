-- ===== src/Acceptor/Peer.antt =====
-- The address that a server knows of its clients.
use talon_rpc.Prelude.{ℕ, ◌+◌, ◌*◌, ◌/◌, ◌%◌, ◌≡◌, ap, List, ◌++◌, take, drop, replicate, arith}
use talon_rpc.Prelude.Int.{pos}
use talon_rpc.Acceptor.{sockaddr_in, ntohs, clien_addr_len, accept}

-- accept() as it is documented: it writes no more than the length it is given of the address.
abbrev pub Truncates : (ℕ → List ℕ → List ℕ → List ℕ) → Type 0
Truncates fill = (len : ℕ) (peer buf : List ℕ) → fill len peer buf ≡ take len peer ++ drop len buf

-- Since the code passes the size of the length and not of the address, four bytes of the peer's
-- address arrive: the connection gets the port of the client, and for its ip the text of 0.0.0.0,
-- whatever the client's ip is.
pub accept_loses_ip :
    (ntoa : List ℕ → List ℕ) (fill : ℕ → List ℕ → List ℕ → List ℕ) (fd port : ℕ) (addr : List ℕ)
    → Truncates fill
    → accept ntoa fill (pos fd) (sockaddr_in port addr)
      ≡ (pos fd, record { ip = ntoa (replicate 4 0); port = port })
unfolding accept ntohs
accept_loses_ip ntoa fill fd port addr truncates =
    let whole : port / 256 * 256 + port % 256 ≡ port = omega arith in
    rw (truncates clien_addr_len (sockaddr_in port addr) (replicate 16 0))
      (ap (λ p. (pos fd, record { ip = ntoa (replicate 4 0); port = p })) whole)
