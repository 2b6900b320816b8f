-- ===== src/Server/Accepting.antt =====
-- How TcpServer::onAccept of net/tcp/tcp_server.cc shares out the clients.
use talon_rpc.Prelude.{
  ℕ, suc, ◌+◌, ◌≡◌, ◌≢◌, refl, sym, ap, ◌∙◌, List, [], ◌∷◌, ◌++◌, length, length-append, All, some,
  false, get_elem?, get_elem?-append_right, append_assoc, arith, ◌==◌,
}
use talon_rpc.Prelude.Int.{pos}
use talon_rpc.Prelude.Outcome.{ok}
use talon_rpc.FdEvent.{FdEvent, listen}
use talon_rpc.EventLoop.{Eventloop, add_later, add_epoll_event, add_task}
use talon_rpc.NetAddr.{IpNetAddr}
use talon_rpc.IoThreadGroup.{IoThreadGroup, put_elem, get_io_thread, put_last}
use talon_rpc.Connection.{
  TcpConnection, Callback, by_server, connected, set_state, new_connection, listen_read,
}
use talon_rpc.Server.{TcpServer, on_accept, on_accepts}

-- A loop of another thread that was given a client: one more task, to add the descriptor, and one
-- more wake-up.
abbrev pub given : FdEvent Callback → Eventloop Callback → Eventloop Callback
given client_fd l = record l {
  pending_tasks = l.pending_tasks ++ (add_later client_fd.fd ∷ []);
  wakeups = suc l.wakeups;
}

-- The first client to the first loop, and so on.
abbrev pub given_all :
    List (FdEvent Callback × IpNetAddr) → List (Eventloop Callback) → List (Eventloop Callback)
given_all [] loops = loops
given_all (client ∷ clients) [] = []
given_all (client ∷ clients) (l ∷ loops) = given client.0 l ∷ given_all clients loops

put_elem-append :
    {T : Type 0} (xs ys : List T) (x t : T)
    → put_elem (xs ++ (x ∷ ys)) (length xs) t ≡ xs ++ (t ∷ ys)
put_elem-append [] ys x t = refl
put_elem-append (y ∷ xs) ys x t = ap (◌∷◌ y) (put_elem-append xs ys x t)

abbrev group_at : ℕ → List (Eventloop Callback) → IoThreadGroup (Eventloop Callback)
group_at i loops = record { index = pos i; io_thread_groups = loops }

get_io_thread-next :
    (done loops : List (Eventloop Callback)) (l : Eventloop Callback)
    → get_io_thread (group_at (length done) (done ++ (l ∷ loops)))
      ≡ ok (l, group_at (suc (length done)) (done ++ (l ∷ loops)))
unfolding get_io_thread
get_io_thread-next done loops l =
    let inside : (length done == length (done ++ (l ∷ loops))) ≡ false =
      ground (arith, length-append done (l ∷ loops)) in
    let here : get_elem? (done ++ (l ∷ loops)) (length done) ≡ some l =
      get_elem?-append_right done (l ∷ loops) (length done) 0 (omega arith) in
    rw (inside, here) refl

module _ {D : Type 0} where
  abbrev accepted :
      FdEvent Callback → IpNetAddr → TcpServer D → Eventloop Callback → TcpConnection D
  accepted client_fd peer_addr s l =
      set_state connected
        (new_connection l s.thread client_fd 128 peer_addr (some s.local_addr) by_server)

  -- A server and its IO threads.
  abbrev serving : TcpServer D → IoThreadGroup (Eventloop Callback) → TcpServer D
  serving s g = record s { io_thread_group = g }

  accepted-given :
      (client_fd : FdEvent Callback) (peer_addr : IpNetAddr) (s : TcpServer D)
      (l : Eventloop Callback)
      → s.thread ≢ l.thread_id
      → (accepted client_fd peer_addr s l).event_loop ≡ given client_fd l
  unfolding new_connection set_state listen_read add_epoll_event add_task listen
  accepted-given client_fd peer_addr s l h =
      let other : (s.thread == l.thread_id) ≡ false = ground arith in rw other refl

  on_accept-next :
      (client_fd : FdEvent Callback) (peer_addr : IpNetAddr) (s : TcpServer D)
      (done loops : List (Eventloop Callback)) (l : Eventloop Callback)
      → s.thread ≢ l.thread_id
      → on_accept client_fd peer_addr (serving s (group_at (length done) (done ++ (l ∷ loops))))
        ≡ ok (record s {
          client_counts = suc s.client_counts;
          io_thread_group = group_at (suc (length done)) (done ++ (given client_fd l ∷ loops));
          client = accepted client_fd peer_addr s l ∷ s.client;
        })
  unfolding on_accept put_last
  on_accept-next client_fd peer_addr s done loops l h = rw (get_io_thread-next done loops l) (
      ap
        (λ t. ok (record s {
          client_counts = suc s.client_counts;
          io_thread_group = group_at (suc (length done)) t;
          client = accepted client_fd peer_addr s l ∷ s.client;
        }))
        (put_elem-append done loops l (accepted client_fd peer_addr s l).event_loop
          ∙ ap (λ t. done ++ (t ∷ loops)) (accepted-given client_fd peer_addr s l h)))

  on_accepts-next :
      (clients : List (FdEvent Callback × IpNetAddr)) (s : TcpServer D)
      (done loops : List (Eventloop Callback))
      → length clients ≡ length loops
      → All (λ l. s.thread ≢ l.thread_id) loops
      → (s' : TcpServer D) × (on_accepts clients
            (serving s (group_at (length done) (done ++ loops)))
          ≡ ok s')
        × (s'.io_thread_group.io_thread_groups ≡ done ++ given_all clients loops)
        × (s'.client_counts ≡ s.client_counts + length clients)
        × (length s'.client ≡ length s.client + length clients)
  unfolding on_accepts
  on_accepts-next [] s done loops n h =
      (serving s (group_at (length done) (done ++ loops)), refl, refl, omega arith, omega arith)
  on_accepts-next (client ∷ clients) s done [] n h = absurd (omega arith)
  on_accepts-next ((client_fd, peer_addr) ∷ clients) s done (l ∷ loops) n (p, h) =
      let before = done ++ (given client_fd l ∷ []) in
      let s1 = record s {
        client_counts = suc s.client_counts;
        client = accepted client_fd peer_addr s l ∷ s.client;
      } in
      let (s', runs, loops', counts, clients') =
        on_accepts-next clients s1 before loops (omega arith) h in
      let longer : length before ≡ suc (length done) =
        omega (arith, length-append done (given client_fd l ∷ [])) in
      let same : group_at (length before) (before ++ loops)
          ≡ group_at (suc (length done)) (done ++ (given client_fd l ∷ loops)) =
        rw (longer, append_assoc done (given client_fd l ∷ []) loops) refl in
      (
        s',
        rw (on_accept-next client_fd peer_addr s done loops l p)
            (ap (λ g. on_accepts clients (serving s1 g)) (sym same) ∙ runs),
        loops' ∙ append_assoc done (given client_fd l ∷ []) (given_all clients loops),
        omega (arith, counts),
        omega (arith, clients'),
      )

  pub on_accepts-round :
      (clients : List (FdEvent Callback × IpNetAddr)) (s : TcpServer D)
      → s.io_thread_group.index ≡ pos 0
      → length clients ≡ length s.io_thread_group.io_thread_groups
      → All (λ l. s.thread ≢ l.thread_id) s.io_thread_group.io_thread_groups
      → (s' : TcpServer D) × (on_accepts clients s ≡ ok s')
        × (s'.io_thread_group.io_thread_groups
            ≡ given_all clients s.io_thread_group.io_thread_groups)
        × (s'.client_counts ≡ s.client_counts + length clients)
        × (length s'.client ≡ length s.client + length clients)
  on_accepts-round clients s start n h =
      let loops = s.io_thread_group.io_thread_groups in
      let (s', runs, loops', counts, clients') = on_accepts-next clients s [] loops n h in
      let same : s ≡ serving s (group_at 0 loops) =
        ap (λ i. serving s (record { index = i; io_thread_groups = loops })) start in
      (s', ap (on_accepts clients) same ∙ runs, loops', counts, clients')
