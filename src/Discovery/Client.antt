-- ===== src/Discovery/Client.antt =====
-- The clients of the service centre: Runtime_Command and RC_Message of
-- net/service_discovery/run_time_service_discovery_interface.h, and serviceDiscovery of
-- net/service_discovery/service_discovery.h.
use talon_rpc.Prelude.{ℕ, List, ◌∷◌, ◌++◌, length, ltb, Bool, true, false, Option, none, some}
use talon_rpc.Prelude.Int.{ℤ}
use talon_rpc.Prelude.Text.{codes, c_prefix}
use talon_rpc.Prelude.Decimal.{to_string}
use talon_rpc.Prelude.Outcome.{Outcome, ok, require, ◌>>◌}

pub record RcMessage : Type 0 where
  pub info : List ℕ
  pub is_success : Bool

abbrev pub address : List ℕ → ℤ → List ℕ
address ip port = ip ++ (b':' ∷ to_string port)

abbrev pub add_command : List ℕ → List ℕ → ℤ → List ℕ
add_command service_name ip port = codes "add " ++ (service_name ++ (b' ' ∷ address ip port))

abbrev pub modify_command : List ℕ → List ℕ → ℤ → List ℕ
modify_command service_name ip port = codes "modify " ++ (service_name ++ (b' ' ∷ address ip port))

abbrev pub delete_command : List ℕ → List ℕ
delete_command service_name = codes "delete " ++ service_name

abbrev pub look_up_command : List ℕ
look_up_command = codes "lookup"

-- How an exchange with the centre went: the first call that failed, or the bytes that read returned.
pub data Exchange : Type 0 where
  socket_failed connect_failed write_failed read_failed : Exchange
  answered : List ℕ → Exchange

-- to_command: the message that the caller gets. The buffer has 1024 bytes, and read may fill it.
unfoldable pub to_command : Exchange → Outcome RcMessage
to_command socket_failed = ok (record { info = codes "socket error"; is_success = false })
to_command connect_failed = ok (record { info = codes "connect error"; is_success = false })
to_command write_failed = ok (record { info = codes "write error"; is_success = false })
to_command read_failed = ok (record { info = codes "read error"; is_success = false })
to_command (answered buff) = do
  require (ltb (length buff) 1024)
  ok (record { info = c_prefix buff; is_success = true })

-- serviceDiscovery: none where the process exits.
unfoldable pub service_discovery : Exchange → Outcome (Option (List ℕ))
service_discovery socket_failed = ok none
service_discovery connect_failed = ok none
service_discovery write_failed = ok none
service_discovery read_failed = ok none
service_discovery (answered addr_buff) = do
  require (ltb (length addr_buff) 1024)
  ok (some (c_prefix addr_buff))
