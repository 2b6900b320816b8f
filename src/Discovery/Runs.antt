-- ===== src/Discovery/Runs.antt =====
-- Runs of the service centre, and its theorem at concrete requests.
use talon_rpc.Prelude.{ℕ, ◌≡◌, refl, List, [], ◌∷◌, ◌++◌, map, true, false, arith}
use talon_rpc.Prelude.Int.{pos}
use talon_rpc.Prelude.Text.{codes, str_eq, find_first_of}
use talon_rpc.Prelude.Decimal.{to_string}
use talon_rpc.Prelude.Dict.{lookup}
use talon_rpc.Prelude.Outcome.{ok}
use talon_rpc.Discovery.Center.{first_word, other_words, control, lookup_services}
use talon_rpc.Discovery.Main.{SetupCalls, setup, Center, on_readies}
use talon_rpc.Discovery.Main.Visits.{
  Visit, arrives, leaves, sends, asks, report, expected, control_clients, setup_closes,
  on_readies-visits,
}
use talon_rpc.Discovery.RoundTrip.{add}

listing :
    control ((codes "a", codes "x") ∷ []) (codes "lookup")
    ≡ (codes "a x\n", (codes "a", codes "x") ∷ [])
unfolding control first_word other_words find_first_of str_eq lookup_services
listing = refl

-- The second listen() fails.
abbrev calls : SetupCalls
calls = record {
  server_socket = pos 3;
  control_socket = pos 4;
  server_binds = true;
  control_binds = true;
  server_listens = true;
  control_listens = false;
  epoll_fd = pos 5;
  server_added = true;
  control_added = true;
}

setup_closes_example : ◌≡◌ {A = List ℕ} (3 ∷ 4 ∷ []) (3 ∷ 4 ∷ [])
unfolding setup
setup_closes_example = setup_closes calls (3 ∷ 4 ∷ []) (3 ∷ 4 ∷ []) refl

-- A client connects, a service is added between two queries of its name, and the client leaves.
abbrev visits : List Visit
visits =
    arrives (pos 7) true
    ∷ asks 7 (codes "A.b")
    ∷ sends 8 (add (codes "A.b") (codes "10.0.0.1") (pos 80))
    ∷ asks 7 (codes "A.b")
    ∷ leaves 7
    ∷ []

abbrev center : Center
center = record {
  server_socket = 3;
  control_socket = 4;
  service_map = [];
  watched = [];
  unwatched = [];
  back_messages = [];
  service_addrs = [];
}

on_readies-visits_example :
    (c' : Center) × (on_readies (map (report 3 4) visits) center ≡ ok c')
    × (c'.service_addrs ≡ center.service_addrs ++ expected visits (λ k. lookup k []))
    × (c'.unwatched ≡ control_clients visits [])
unfolding to_string
on_readies-visits_example = on_readies-visits visits center (omega arith) (
  tt,
  (
    (omega arith, omega arith, tt, omega arith, omega arith),
    (
      record { plain = omega arith; no_nul = omega arith; short = omega arith },
      ((omega arith, omega arith, tt, omega arith, omega arith), ((omega arith, omega arith), tt)),
    ),
  ),
)
