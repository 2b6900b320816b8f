-- ===== src/NetAddr.antt =====
-- net/tcp/net_addr.h and net/tcp/net_addr.cc: the address of a peer, and its text `ip:port`.
-- m_addr, the form of the same address that the system calls take, is computed from the two fields
-- modelled; inet_addr is a parameter.
pub mod RoundTrip
mod Runs
use talon_rpc.Prelude.{
  ℕ, suc, ◌-◌, ◌%◌, ◌^◌, List, [], ◌∷◌, ◌++◌, take, drop, ltb, leb, if◌then◌else◌, Bool, true,
  false, ◌||◌, not, Option, none, some,
}
use talon_rpc.Prelude.Int.{ℤ, pos, negsuc, leb_ℤ}
use talon_rpc.Prelude.Text.{find_first_of}
use talon_rpc.Prelude.Decimal.{to_string, atoi}
use talon_rpc.Prelude.Dict.{Dict, lookup}
use talon_rpc.Prelude.Outcome.{Outcome, ok, ◌>>=◌}

pub record IpNetAddr : Type 0 where
  pub ip : List ℕ
  pub port : ℕ

abbrev pub is_empty : List ℕ → Bool
is_empty [] = true
is_empty (c ∷ s) = false

-- The last lines of CheckValid.
unfoldable pub check_parts : List ℕ → List ℕ → Outcome Bool
check_parts ip port =
    if is_empty ip || is_empty port
    then ok false
    else do iport ← atoi port; ok (not (leb_ℤ iport (pos 0) || not (leb_ℤ iport (pos 65536))))

-- IPNetAddr::CheckValid(addr)
unfoldable pub check_valid_text : List ℕ → Outcome Bool
unfolding check_parts
check_valid_text addr = elim (find_first_of b':' addr) [
  | none ↦ ok false
  | some i ↦ check_parts (take i addr) (drop (suc i) addr)
]

-- The conversion of an int to uint16_t.
abbrev pub to_uint16 : ℤ → ℕ
to_uint16 (pos n) = n % 2 ^ 16
to_uint16 (negsuc n) = 2 ^ 16 - 1 - n % 2 ^ 16

-- IPNetAddr(addr): without a colon both fields stay as they are declared.
unfoldable pub of_text : List ℕ → Outcome IpNetAddr
of_text addr = elim (find_first_of b':' addr) [
  | none ↦ ok (record { ip = []; port = 0 })
  | some i ↦ do
    port ← atoi (drop (suc i) addr)
    ok (record { ip = take i addr; port = to_uint16 port })
]

-- toString()
abbrev pub to_text : IpNetAddr → List ℕ
to_text a = a.ip ++ (b':' ∷ to_string (pos a.port))

-- checkValid(). `is_none` is the test inet_addr(ip) == INADDR_NONE. A uint16_t is never below 0 or
-- above 65536.
unfoldable pub check_valid : (List ℕ → Bool) → IpNetAddr → Bool
check_valid is_none a =
    if is_empty a.ip then false else if ltb 65536 a.port then false else not (is_none a.ip)

-- RpcChannel::FindAddr of net/rpc/rpc_channel.cc: `stubs` is Config::m_rpc_stubs, with the address of
-- each stub; none is a null pointer.
unfoldable pub find_addr : Dict IpNetAddr → List ℕ → Outcome (Option IpNetAddr)
unfolding check_valid_text of_text
find_addr stubs str = do
  valid ← check_valid_text str
  if valid then (do a ← of_text str; ok (some a)) else ok (lookup str stubs)
