-- ===== src/FdEvent.antt =====
-- net/fd_event.h, net/fd_event.cc, net/fd_event_group.h and net/fd_event_group.cc: what is listened
-- for on a file descriptor, and the table of these objects.
-- A callback is a value of any type `C`, a null `std::function` is none. Of the mask
-- m_listen_event.events only the bits EPOLLIN and EPOLLOUT are ever set: they are the fields
-- `epoll_in` and `epoll_out`.
pub mod Group
pub mod Laws
mod Runs
use talon_rpc.Prelude.{ℕ, Bool, true, false, Option, none, some}

pub data TriggerEvent : Type 0 where
  in_event out_event error_event : TriggerEvent

pub record FdEvent {ℓ} (C : Type ℓ) : Type ℓ where
  pub fd : ℕ
  pub epoll_in : Bool
  pub epoll_out : Bool
  pub read_callback : Option C
  pub write_callback : Option C
  pub error_callback : Option C

module _ {ℓ} {C : Type ℓ} where
  -- Fd_Event(fd)
  abbrev pub new_event : ℕ → FdEvent C
  new_event fd = record {
    fd = fd;
    epoll_in = false;
    epoll_out = false;
    read_callback = none;
    write_callback = none;
    error_callback = none;
  }

  unfoldable pub handler : FdEvent C → TriggerEvent → Option C
  handler e in_event = e.read_callback
  handler e out_event = e.write_callback
  handler e error_event = e.error_callback

  -- The callback of the event, and then the one for errors.
  listen_on : FdEvent C → TriggerEvent → Option C → FdEvent C
  listen_on e in_event callback = record e { epoll_in = true; read_callback = callback }
  listen_on e out_event callback = record e { epoll_out = true; write_callback = callback }
  listen_on e error_event callback = record e { epoll_out = true; write_callback = callback }

  toggled : Option C → Option C → Option C
  toggled none error_callback = error_callback
  toggled (some c) error_callback = none

  unfoldable pub listen : FdEvent C → TriggerEvent → Option C → Option C → FdEvent C
  unfolding listen_on toggled
  listen e event_type callback error_callback = record (listen_on e event_type callback) {
    error_callback = toggled e.error_callback error_callback;
  }

  unfoldable pub cancle : FdEvent C → TriggerEvent → FdEvent C
  cancle e in_event = record e { epoll_in = false }
  cancle e out_event = record e { epoll_out = false }
  cancle e error_event = record e { epoll_out = false }
