-- ===== src/Acceptor.antt =====
-- net/tcp/tcp_acceptor.h and net/tcp/tcp_acceptor.cc: the listening socket of a server.
-- What socket, bind, listen and accept return are arguments. A sockaddr_in is its 16 bytes; inet_ntoa
-- is the parameter `ntoa` on the four bytes of an address. `fill` is what accept() makes of a buffer
-- when it is given the length that the caller claims and the peer's sockaddr. The family of an
-- IPNetAddr is always AF_INET, so the other branch of accept is left out.
pub mod Peer
mod Runs
use talon_rpc.Prelude.{
  ℕ, ◌+◌, ◌*◌, ◌/◌, ◌%◌, List, [], ◌∷◌, ◌++◌, take, drop, replicate, Option, none, some, Bool, true,
  false, if◌then◌else◌,
}
use talon_rpc.Prelude.Int.{ℤ, pos, negsuc}
use talon_rpc.NetAddr.{IpNetAddr, check_valid}

-- A sockaddr_in with a port and an address: AF_INET in the host's order, the port in the net's.
abbrev pub sockaddr_in : ℕ → List ℕ → List ℕ
sockaddr_in port addr = 2 ∷ 0 ∷ (port / 256) ∷ (port % 256) ∷ (addr ++ replicate 8 0)

-- ntohs of two bytes.
unfoldable pub ntohs : List ℕ → ℕ
ntohs (a ∷ b ∷ rest) = a * 256 + b
ntohs _ = 0

-- IPNetAddr(sockaddr_in)
unfoldable pub of_sockaddr : (List ℕ → List ℕ) → List ℕ → IpNetAddr
unfolding ntohs
of_sockaddr ntoa addr = record { ip = ntoa (take 4 (drop 4 addr)); port = ntohs (drop 2 addr) }

pub record TcpAcceptor : Type 0 where
  pub local_addr : IpNetAddr
  pub listenfd : ℕ

-- TcpAcceptor(local_addr); none is exit(0). An error of setsockopt is only logged.
unfoldable pub new_acceptor : (List ℕ → Bool) → IpNetAddr → ℤ → Bool → Bool → Option TcpAcceptor
new_acceptor is_none local_addr (negsuc n) binds listens = none
new_acceptor is_none local_addr (pos fd) binds listens =
    if check_valid is_none local_addr
    then (if binds
        then (if listens then some (record { local_addr = local_addr; listenfd = fd }) else none)
        else none)
    else none

-- sizeof(clien_addr_len), the size of a socklen_t.
abbrev pub clien_addr_len : ℕ
clien_addr_len = 4

-- The bytes of client_addr after accept(), which leaves them alone when it fails.
unfoldable pub filled_addr : (ℕ → List ℕ → List ℕ → List ℕ) → ℤ → List ℕ → List ℕ
filled_addr fill (pos fd) peer = fill clien_addr_len peer (replicate 16 0)
filled_addr fill (negsuc n) peer = replicate 16 0

-- accept(): the pair that it returns, also after an error.
unfoldable pub accept :
    (List ℕ → List ℕ) → (ℕ → List ℕ → List ℕ → List ℕ) → ℤ → List ℕ → ℤ × IpNetAddr
unfolding filled_addr of_sockaddr
accept ntoa fill client_fd peer = (client_fd, of_sockaddr ntoa (filled_addr fill client_fd peer))
