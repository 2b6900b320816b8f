-- ===== src/Discovery/Main.antt =====
-- main of net/service_discovery/run_server_discovery.cc: the sockets of the centre, and its loop.
-- What the system calls return is an argument.
pub mod Visits
use talon_rpc.Prelude.{
  ℕ, zero, suc, List, [], ◌∷◌, ◌++◌, ◌==◌, if◌then◌else◌, Option, none, some, Bool, true, false,
}
use talon_rpc.Prelude.Int.{ℤ, pos, negsuc}
use talon_rpc.Prelude.Outcome.{Outcome, ok, ◌>>=◌}
use talon_rpc.Discovery.Center.{ServiceMap, Received, bytes, on_control, on_query}

-- What the calls before the loop return, in their order. The two calls of setsockopt are only logged.
pub record SetupCalls : Type 0 where
  pub server_socket : ℤ
  pub control_socket : ℤ
  pub server_binds : Bool
  pub control_binds : Bool
  pub server_listens : Bool
  pub control_listens : Bool
  pub epoll_fd : ℤ
  pub server_added : Bool
  pub control_added : Bool

-- main returns 1 and has opened and closed these descriptors, or it goes into its loop.
pub data Setup : Type 0 where
  returns : List ℕ → List ℕ → Setup
  loops : ℕ → ℕ → ℕ → Setup

add_sockets : SetupCalls → ℕ → ℕ → ℤ → Setup
add_sockets calls server control (negsuc n) =
    returns (server ∷ control ∷ []) (server ∷ control ∷ [])
add_sockets calls server control (pos epoll) =
    if calls.server_added
    then (if calls.control_added
        then loops server control epoll
        else returns (server ∷ control ∷ epoll ∷ []) (server ∷ control ∷ epoll ∷ []))
    else returns (server ∷ control ∷ epoll ∷ []) (server ∷ control ∷ epoll ∷ [])

bind_sockets : SetupCalls → ℕ → ℕ → Setup
unfolding add_sockets
bind_sockets calls server control =
    let failed = returns (server ∷ control ∷ []) (server ∷ control ∷ []) in
    if calls.server_binds
    then (if calls.control_binds
        then (if calls.server_listens
            then (if calls.control_listens
                then add_sockets calls server control calls.epoll_fd
                else failed)
            else failed)
        else failed)
    else failed

open_control : SetupCalls → ℕ → ℤ → Setup
unfolding bind_sockets
open_control calls server (negsuc n) = returns (server ∷ []) (server ∷ [])
open_control calls server (pos control) = bind_sockets calls server control

open_server : SetupCalls → ℤ → Setup
unfolding open_control
open_server calls (negsuc n) = returns [] []
open_server calls (pos server) = open_control calls server calls.control_socket

-- From the first socket() to the loop.
unfoldable pub setup : SetupCalls → Setup
unfolding open_server
setup calls = open_server calls calls.server_socket

-- The state of the loop: the descriptors that epoll has besides the two sockets, those that are open
-- and that epoll has not, and what was written, each with its descriptor.
pub record Center : Type 0 where
  pub server_socket : ℕ
  pub control_socket : ℕ
  pub service_map : ServiceMap
  pub watched : List ℕ
  pub unwatched : List ℕ
  pub back_messages : List (ℕ × List ℕ)
  pub service_addrs : List (ℕ × List ℕ)

-- A descriptor that epoll reports, and what the calls on it return.
pub record Ready : Type 0 where
  pub fd : ℕ
  pub accepted : ℤ
  pub is_added : Bool
  pub received : Received

-- close(), which also takes a descriptor out of epoll.
abbrev pub close_watched : ℕ → List ℕ → List ℕ
close_watched fd [] = []
close_watched fd (x ∷ fds) = let rest = close_watched fd fds in if x == fd then rest else x ∷ rest

-- A new client that wants to query.
accept_client : ℤ → Bool → Center → Center
accept_client (negsuc n) is_added c = c
accept_client (pos client) is_added c =
    if is_added then record c { watched = client ∷ c.watched } else c

-- A control connection: it is accepted, read once and answered, and it is closed only where nothing
-- was read.
put_control : ℕ → Option (List ℕ) × ServiceMap → Center → Center
put_control client (none, service_map) c = c
put_control client (some back_message, service_map) c = record c {
  service_map = service_map;
  unwatched = client ∷ c.unwatched;
  back_messages = c.back_messages ++ ((client, back_message) ∷ []);
}

accept_control : ℤ → Received → Center → Outcome Center
unfolding put_control
accept_control (negsuc n) received c = ok c
accept_control (pos client) received c = do
  result ← on_control c.service_map received
  ok (put_control client result c)

-- A query on a connection that epoll has.
put_query : ℕ → Option (List ℕ) → Center → Center
put_query fd none c = record c { watched = close_watched fd c.watched }
put_query fd (some service_addr) c = record c {
  service_addrs = c.service_addrs ++ ((fd, service_addr) ∷ []);
}

answer_query : ℕ → Received → Center → Outcome Center
unfolding put_query
answer_query fd received c = do result ← on_query c.service_map received; ok (put_query fd result c)

-- The body of the `for` over what epoll_wait has reported.
unfoldable pub on_ready : Ready → Center → Outcome Center
unfolding accept_client accept_control answer_query
on_ready r c =
    if r.fd == c.server_socket
    then ok (accept_client r.accepted r.is_added c)
    else if r.fd == c.control_socket
    then accept_control r.accepted r.received c
    else answer_query r.fd r.received c

-- All reports of any number of rounds, in their order.
unfoldable pub on_readies : List Ready → Center → Outcome Center
unfolding on_ready
on_readies [] c = ok c
on_readies (r ∷ reports) c = do c' ← on_ready r c; on_readies reports c'
