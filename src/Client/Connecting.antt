-- ===== src/Client/Connecting.antt =====
-- How a connection that was in progress ends.
use talon_rpc.Prelude.{
  ℕ, ◌≡◌, ◌≢◌, refl, List, [], ◌∷◌, Option, none, some, Bool, true, false, arith, ◌==◌, Bool-cases,
  inl, inr, ◌⊎◌,
}
use talon_rpc.Prelude.Int.{pos}
use talon_rpc.NetAddr.{IpNetAddr}
use talon_rpc.FdEvent.{FdEvent}
use talon_rpc.EventLoop.{Eventloop, contains, erase_fd, delete_to_epoll, delete_epoll_event}
use talon_rpc.Client.{
  TcpClient, SecondConnect, is_connected, refused, other_error, on_connectable, connect_result,
  succeed, fail, init_local_addr,
}
use talon_rpc.Connection.{connected, set_state}

-- Whether the second connect() succeeds.
abbrev pub succeeds : SecondConnect → Bool
succeeds is_connected = true
succeeds (refused error) = false
succeeds (other_error error) = false

contains-erase_fd : (fd : ℕ) (fds : List ℕ) → contains fd (erase_fd fd fds) ≡ false
contains-erase_fd fd [] = refl
contains-erase_fd fd (x ∷ fds) = elim (Bool-cases (x == fd)) [
  | inl e ↦ rw e (contains-erase_fd fd fds)
  | inr e ↦ rw (e, e) (contains-erase_fd fd fds)
]

module _ {C : Type 0} where
  delete_to_epoll-gone :
      (e : FdEvent C) (l : Eventloop C) → contains e.fd (delete_to_epoll e l).listen_fds ≡ false
  unfolding delete_to_epoll
  delete_to_epoll-gone e l = elim (Bool-cases (contains e.fd l.listen_fds)) [
    | inl b ↦ rw b (contains-erase_fd e.fd l.listen_fds)
    | inr b ↦ rw (b, b)
  ]

  delete_epoll_event-gone :
      (thread : ℕ) (e : FdEvent C) (l : Eventloop C)
      → thread ≡ l.thread_id
      → contains e.fd (delete_epoll_event thread e l).listen_fds ≡ false
  unfolding delete_epoll_event
  delete_epoll_event-gone thread e l h =
      let own : (thread == l.thread_id) ≡ true = ground arith in rw own (delete_to_epoll-gone e l)

module _ {D : Type 0} where
  result-same :
      (r : SecondConnect) (sock_name : Option IpNetAddr) (c : TcpClient D)
      → ((connect_result r sock_name c).connection.thread ≡ c.connection.thread)
        × ((connect_result r sock_name c).connection.event_loop ≡ c.connection.event_loop)
        × ((connect_result r sock_name c).connection.fd_event ≡ c.connection.fd_event)
  unfolding connect_result succeed fail set_state init_local_addr
  result-same is_connected none c = (refl, refl, refl)
  result-same is_connected (some a) c = (refl, refl, refl)
  result-same (refused error) sock_name c = (refl, refl, refl)
  result-same (other_error error) sock_name c = (refl, refl, refl)

  result_lem :
      (r : SecondConnect) (sock_name : Option IpNetAddr) (c : TcpClient D)
      → ((succeeds r ≡ true)
          × ((connect_result r sock_name c).connection.state ≡ connected)
          × ((connect_result r sock_name c).connect_error_code ≡ c.connect_error_code))
        ⊎ ((succeeds r ≡ false)
            × ((connect_result r sock_name c).connection.state ≡ c.connection.state)
            × ((connect_result r sock_name c).connect_error_code ≢ pos 0))
  unfolding connect_result succeed fail set_state init_local_addr
  result_lem is_connected none c = inl (refl, refl, refl)
  result_lem is_connected (some a) c = inl (refl, refl, refl)
  result_lem (refused error) sock_name c = inr (refl, refl, λ h. ground arith)
  result_lem (other_error error) sock_name c = inr (refl, refl, λ h. ground arith)

  -- When the connection that was in progress ends, on the loop's own thread: the connection is connected
  -- and no error is set if the second connect() succeeds, else the state stays and an error code that is
  -- not 0 is set; on every branch the loop no longer has the descriptor.
  pub on_connectable_lem :
      (r : SecondConnect) (sock_name : Option IpNetAddr) (c : TcpClient D)
      → c.connection.thread ≡ c.connection.event_loop.thread_id
      → (((succeeds r ≡ true)
            × ((on_connectable r sock_name c).connection.state ≡ connected)
            × ((on_connectable r sock_name c).connect_error_code ≡ c.connect_error_code))
          ⊎ ((succeeds r ≡ false)
              × ((on_connectable r sock_name c).connection.state ≡ c.connection.state)
              × ((on_connectable r sock_name c).connect_error_code ≢ pos 0)))
        × (contains c.connection.fd_event.fd
              (on_connectable r sock_name c).connection.event_loop.listen_fds
            ≡ false)
  unfolding on_connectable
  on_connectable_lem r sock_name c h =
      let (t, l, f) = result-same r sock_name c in
      (
        result_lem r sock_name c,
        rw (t, l, f)
            (delete_epoll_event-gone c.connection.thread c.connection.fd_event
              c.connection.event_loop h),
      )
