-- ===== src/Discovery/Main/Visits.antt =====
-- The whole centre against its clients' view of it.
use mathlib.Core.Path.{fun_ext}
use talon_rpc.Prelude.{
  Bool, length, lt→ltb, if◌then◌else◌, ℕ, ◌<◌, ◌≡◌, ◌≢◌, refl, sym, ap, ◌∙◌, List, [], ◌∷◌, ◌++◌,
  map, ◌==◌, append_assoc, append-nil, some, true, false, Option-cases, inl, inr, All, arith,
}
use talon_rpc.Prelude.Int.{ℤ, pos, negsuc}
use talon_rpc.Prelude.Text.{c_prefix-NoNul}
use talon_rpc.Prelude.Dict.{lookup}
use talon_rpc.Prelude.Outcome.{ok}
use talon_rpc.Discovery.Center.{ServiceMap, bytes, control, on_query, query}
use talon_rpc.Discovery.Main.{
  accept_client, close_watched, SetupCalls, returns, setup, Center, Ready, on_ready, on_readies,
}
use talon_rpc.Discovery.RoundTrip.{
  Request, command, IsSound, Addresses, promise, answer, on_control-command, control-promise,
}

-- main that does not reach its loop closes all descriptors that it has opened.
pub setup_closes :
    (calls : SetupCalls) (opened closed : List ℕ)
    → setup calls ≡ returns opened closed
    → closed ≡ opened
unfolding setup
setup_closes calls opened closed e = ground arith

-- What a client does: it connects to ask (what accept gives, and whether epoll takes it), it sends a
-- command, over a control connection that gets the descriptor, it asks for a name, over a connection
-- that epoll has, or it closes that connection.
pub data Visit : Type 0 where
  arrives : ℤ → Bool → Visit
  leaves : ℕ → Visit
  sends : ℕ → Request → Visit
  asks : ℕ → List ℕ → Visit

-- The report of epoll that it causes, at the centre's two sockets.
abbrev pub report : ℕ → ℕ → Visit → Ready
report server_socket control_socket (arrives accepted is_added) = record {
  fd = server_socket;
  accepted = accepted;
  is_added = is_added;
  received = bytes [];
}
report server_socket control_socket (leaves fd) = record {
  fd = fd;
  accepted = negsuc 0;
  is_added = true;
  received = bytes [];
}
report server_socket control_socket (sends client q) = record {
  fd = control_socket;
  accepted = pos client;
  is_added = true;
  received = bytes (command q);
}
report server_socket control_socket (asks fd name) = record {
  fd = fd;
  accepted = negsuc 0;
  is_added = true;
  received = bytes name;
}

abbrev NotEmpty : List ℕ → Type 0
NotEmpty [] = ⊥
NotEmpty (c ∷ s) = Unit {0}

-- A sound request, or a connection that is not one of the two sockets, and on it a name that is not
-- empty, has no byte 0 and comes with one recv.
abbrev pub IsSoundVisit : ℕ → ℕ → Visit → Type 0
IsSoundVisit server_socket control_socket (arrives accepted is_added) = Unit {0}
IsSoundVisit server_socket control_socket (leaves fd) = (fd ≢ server_socket) × (fd ≢ control_socket)
IsSoundVisit server_socket control_socket (sends client q) = IsSound q
IsSoundVisit server_socket control_socket (asks fd name) =
    (fd ≢ server_socket)
    × (fd ≢ control_socket)
    × NotEmpty name
    × (length name < 1024)
    × All (λ b. 0 < b) name

-- What the clients expect to be answered.
abbrev pub expected : List Visit → Addresses → List (ℕ × List ℕ)
expected [] m = []
expected (arrives accepted is_added ∷ visits) m = expected visits m
expected (leaves fd ∷ visits) m = expected visits m
expected (sends client q ∷ visits) m = expected visits (promise q m)
expected (asks fd name ∷ visits) m = (fd, answer (m name)) ∷ expected visits m

-- The descriptors of the commands, the last one first.
abbrev pub control_clients : List Visit → List ℕ → List ℕ
control_clients [] fds = fds
control_clients (arrives accepted is_added ∷ visits) fds = control_clients visits fds
control_clients (leaves fd ∷ visits) fds = control_clients visits fds
control_clients (sends client q ∷ visits) fds = control_clients visits (client ∷ fds)
control_clients (asks fd name ∷ visits) fds = control_clients visits fds

query-answer : (m : ServiceMap) (name : List ℕ) → query m name ≡ answer (lookup name m)
unfolding query
query-answer m name = elim (Option-cases (lookup name m)) [
  | inl e ↦ rw (e, query)
  | inr (a, e) ↦ rw (e, query)
]

on_query_lem :
    (m : ServiceMap) (name : List ℕ)
    → NotEmpty name
    → length name < 1024
    → All (λ b. 0 < b) name
    → on_query m (bytes name) ≡ ok (some (answer (lookup name m)))
unfolding on_query
on_query_lem m [] some_name short h = absurd some_name
on_query_lem m (b ∷ name) some_name short h =
    rw (lt→ltb _ _ short, c_prefix-NoNul (b ∷ name) h)
      (ap (λ a. ok (some a)) (query-answer m (b ∷ name)))

-- The connections that epoll has after an accept.
abbrev with_arrived : ℤ → Bool → List ℕ → List ℕ
with_arrived (negsuc n) is_added fds = fds
with_arrived (pos client) is_added fds = if is_added then client ∷ fds else fds

accept_client-with_arrived :
    (accepted : ℤ) (is_added : Bool) (c : Center)
    → accept_client accepted is_added c
      ≡ record c { watched = with_arrived accepted is_added c.watched }
unfolding accept_client
accept_client-with_arrived (negsuc n) is_added c = refl
accept_client-with_arrived (pos client) true c = refl
accept_client-with_arrived (pos client) false c = refl

-- The centre after one visit.
abbrev after_visit : Visit → Center → Center
after_visit (arrives accepted is_added) c = record c {
  watched = with_arrived accepted is_added c.watched;
}
after_visit (leaves fd) c = record c { watched = close_watched fd c.watched }
after_visit (sends client q) c =
    let result = control c.service_map (command q) in
    record c {
      service_map = result.1;
      unwatched = client ∷ c.unwatched;
      back_messages = c.back_messages ++ ((client, result.0) ∷ []);
    }
after_visit (asks fd name) c = record c {
  service_addrs = c.service_addrs ++ ((fd, answer (lookup name c.service_map)) ∷ []);
}

on_ready-visit :
    (v : Visit) (c : Center)
    → c.server_socket ≢ c.control_socket
    → IsSoundVisit c.server_socket c.control_socket v
    → on_ready (report c.server_socket c.control_socket v) c ≡ ok (after_visit v c)
unfolding on_ready
on_ready-visit (arrives accepted is_added) c apart h =
    let same : (c.server_socket == c.server_socket) ≡ true = ground arith in
    rw same (ap ok (accept_client-with_arrived accepted is_added c))
on_ready-visit (leaves fd) c apart (s, t) =
    let other : (fd == c.server_socket) ≡ false = ground arith in
    let other' : (fd == c.control_socket) ≡ false = ground arith in
    rw (other, other') (unfold on_query in refl)
on_ready-visit (sends client q) c apart h =
    let other : (c.control_socket == c.server_socket) ≡ false = ground arith in
    let same : (c.control_socket == c.control_socket) ≡ true = ground arith in
    rw (other, same, on_control-command c.service_map q h) refl
on_ready-visit (asks fd name) c apart (s, t, some_name, short, h) =
    let other : (fd == c.server_socket) ≡ false = ground arith in
    let other' : (fd == c.control_socket) ≡ false = ground arith in
    rw (other, other', on_query_lem c.service_map name some_name short h) refl

-- Whatever commands and queries the clients of the centre send, in whatever order and over whatever
-- connections, and however connections for queries come and go between them, every query is answered
-- once, on its connection, with the address that the commands before it, read as updates of a map in
-- their order, leave the name with, or with `unknown host`; and every command leaves one more
-- descriptor open, which is in no epoll and which nothing ever closes. Commands are sound; a name is
-- not empty, has no byte 0 and less than 1024 bytes, and comes whole with one recv; no system call on
-- a connection fails.
pub on_readies-visits :
    (visits : List Visit) (c : Center)
    → c.server_socket ≢ c.control_socket
    → All (IsSoundVisit c.server_socket c.control_socket) visits
    → (c' : Center) × (on_readies (map (report c.server_socket c.control_socket) visits) c ≡ ok c')
      × (c'.service_addrs ≡ c.service_addrs ++ expected visits (λ k. lookup k c.service_map))
      × (c'.unwatched ≡ control_clients visits c.unwatched)
unfolding on_readies
on_readies-visits [] c apart h = (c, refl, sym (append-nil c.service_addrs), refl)
on_readies-visits (arrives accepted is_added ∷ visits) c apart (sound, h) =
    let v = arrives accepted is_added in
    let (c', run, answers, open_fds) = on_readies-visits visits (after_visit v c) apart h in
    (c', rw (on_ready-visit v c apart sound) run, answers, open_fds)
on_readies-visits (leaves fd ∷ visits) c apart (sound, h) =
    let v = leaves fd in
    let (c', run, answers, open_fds) = on_readies-visits visits (after_visit v c) apart h in
    (c', rw (on_ready-visit v c apart sound) run, answers, open_fds)
on_readies-visits (sends client q ∷ visits) c apart (sound, h) =
    let c1 = after_visit (sends client q) c in
    let same : (λ (k : List ℕ). lookup k c1.service_map) ≡ promise q (λ k. lookup k c.service_map) =
      fun_ext λ k. control-promise q c.service_map k sound.plain in
    let (c', run, answers, open_fds) = on_readies-visits visits c1 apart h in
    (
      c',
      rw (on_ready-visit (sends client q) c apart sound) run,
      answers ∙ ap (λ f. c.service_addrs ++ expected visits f) same,
      open_fds,
    )
on_readies-visits (asks fd name ∷ visits) c apart (sound, h) =
    let c1 = after_visit (asks fd name) c in
    let (c', run, answers, open_fds) = on_readies-visits visits c1 apart h in
    (
      c',
      rw (on_ready-visit (asks fd name) c apart sound) run,
      answers
          ∙ append_assoc c.service_addrs ((fd, answer (lookup name c.service_map)) ∷ [])
              (expected visits (λ k. lookup k c.service_map)),
      open_fds,
    )
