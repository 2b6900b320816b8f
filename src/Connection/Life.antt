-- ===== src/Connection/Life.antt =====
-- What a connection of tcp_connection.cc does after shutdown().
use talon_rpc.Prelude.{ℕ, ◌≡◌, refl, ap, ◌∙◌, List, [], ◌∷◌, ◌++◌}
use talon_rpc.Prelude.Dict.{Dict}
use talon_rpc.Prelude.Outcome.{Outcome, ok, ◌>>=◌}
use talon_rpc.Coder.Protocol.{TinyPbProtocol}
use talon_rpc.Connection.{TcpConnection, connected, half_closing, shutdown, on_write_as, on_write}
use talon_rpc.Connection.Loops.{ReadResult, WriteResult}
use talon_rpc.Connection.Execute.{World, on_read}
use talon_rpc.Rpc.Dispatcher.{Service}

-- The descriptor becomes readable or writable, or someone calls shutdown().
pub data Use : Type 0 where
  readable : List ReadResult → Use
  writable : List WriteResult → Use
  shuts_down : Use

abbrev pub shut : {D E : Type 0} → World D E → World D E
unfolding shutdown
shut w = record w { connection = (shutdown w.connection).1 }

module _ {M D E : Type 0} (service_map : Dict (Service M))
    (call_read : D → TinyPbProtocol → World D E → Outcome (World D E))
    (call_write : D → TinyPbProtocol → E × TcpConnection D → Outcome (E × TcpConnection D)) where
  -- The bytes that are sent, and the state after.
  unfoldable pub use_once : Use → World D E → Outcome (List ℕ × World D E)
  unfolding on_read on_write shutdown
  use_once (readable results) w = do w' ← on_read service_map call_read results w; ok ([], w')
  use_once (writable results) w = do
    (sent, s) ← on_write call_write results (w.env, w.connection)
    ok (sent, record w { env = s.0; connection = s.1 })
  use_once shuts_down w = ok ([], shut w)

  unfoldable pub use_all : List Use → World D E → Outcome (List ℕ × World D E)
  unfolding use_once
  use_all [] w = ok ([], w)
  use_all (u ∷ uses) w = do
    (sent, w') ← use_once u w
    (more, w'') ← use_all uses w'
    ok (sent ++ more, w'')

  -- A connection that is half closed.
  abbrev pub half_closed : World D E → World D E
  half_closed w = record w { connection = record (w.connection) { state = half_closing } }

  use_once-half_closed :
      (u : Use) (w : World D E) → use_once u (half_closed w) ≡ ok ([], half_closed w)
  unfolding use_once on_read on_write on_write_as shutdown
  use_once-half_closed (readable results) w = refl
  use_once-half_closed (writable results) w = refl
  use_once-half_closed shuts_down w = refl

  use_all-half_closed :
      (uses : List Use) (w : World D E) → use_all uses (half_closed w) ≡ ok ([], half_closed w)
  unfolding use_all
  use_all-half_closed [] w = refl
  use_all-half_closed (u ∷ uses) w =
      rw (use_once-half_closed u w, ◌>>=◌) (rw (use_all-half_closed uses w) refl)

  pub shutdown_never_closes :
      (uses : List Use) (w : World D E)
      → w.connection.state ≡ connected
      → use_all uses (shut w) ≡ ok ([], half_closed w)
  unfolding shutdown
  shutdown_never_closes uses w up =
      let same : shut w ≡ half_closed w = rw up refl in
      ap (use_all uses) same ∙ use_all-half_closed uses w
