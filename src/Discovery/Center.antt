-- ===== src/Discovery/Center.antt =====
-- The handlers of net/service_discovery/run_server_discovery.cc for a control connection and for a
-- query, with the map service_map.
use talon_rpc.Prelude.{
  ℕ, suc, List, [], ◌∷◌, ◌++◌, length, take, drop, ltb, if◌then◌else◌, Option, none, some,
}
use talon_rpc.Prelude.Text.{codes, str_eq, find_first_of, c_prefix}
use talon_rpc.Prelude.Dict.{Dict, lookup, assign, erase}
use talon_rpc.Prelude.Outcome.{Outcome, ok, fault, require, ◌>>◌}

abbrev pub ServiceMap : Type 0
ServiceMap = Dict (List ℕ)

-- `s.substr(0, s.find_first_of(' '))`: all of s where there is no space.
unfoldable pub first_word : List ℕ → List ℕ
first_word s = elim (find_first_of b' ' s) [ none ↦ s | some i ↦ take i s ]

-- `s.substr(s.find_first_of(' ') + 1, s.length())`: npos + 1 is 0.
unfoldable pub other_words : List ℕ → List ℕ
other_words s = elim (find_first_of b' ' s) [ none ↦ s | some i ↦ drop (suc i) s ]

-- The branches of the control handler: the message that is written back, and the map.
unfoldable pub add_service : ServiceMap → List ℕ → List ℕ × ServiceMap
add_service service_map content =
    (codes "add service success", assign (first_word content) (other_words content) service_map)

unfoldable pub delete_service : ServiceMap → List ℕ → List ℕ × ServiceMap
delete_service service_map content = elim (lookup content service_map) [
  | none ↦ (codes "service not exist", service_map)
  | some addr ↦ (codes "delete service success", erase content service_map)
]

list_services : ServiceMap → List ℕ
list_services [] = []
list_services ((name, addr) ∷ m) = name ++ (b' ' ∷ (addr ++ (b'\n' ∷ list_services m)))

unfoldable pub lookup_services : ServiceMap → List ℕ
unfolding list_services
lookup_services [] = codes "service map is empty"
lookup_services (entry ∷ m) = list_services (entry ∷ m)

unfoldable pub modify_entry : ServiceMap → List ℕ → List ℕ → List ℕ × ServiceMap
modify_entry service_map service_name service_addr = elim (lookup service_name service_map) [
  | none ↦ (codes "service not exist", service_map)
  | some addr ↦ (codes "modify service success", assign service_name service_addr service_map)
]

unfoldable pub modify_service : ServiceMap → List ℕ → List ℕ × ServiceMap
modify_service service_map content =
    modify_entry service_map (first_word content) (other_words content)

unfoldable pub control : ServiceMap → List ℕ → List ℕ × ServiceMap
control service_map command =
    let operator_c = first_word command in
    let content = other_words command in
    if str_eq operator_c (codes "add")
    then add_service service_map content
    else if str_eq operator_c (codes "delete")
    then delete_service service_map content
    else if str_eq operator_c (codes "lookup")
    then (lookup_services service_map, service_map)
    else if str_eq operator_c (codes "modify")
    then modify_service service_map content
    else (codes "unkown command", service_map)

-- What recv returned: an error, or bytes, of which there are none when the peer has closed.
pub data Received : Type 0 where
  failed : Received
  bytes : List ℕ → Received

-- The whole handler of a control connection; none where it only closes. recv returns at most the
-- 1024 bytes of `buffer`, and the code then stores a 0 behind them. An error is the largest size_t,
-- which is not `<= 0`.
unfoldable pub on_control : ServiceMap → Received → Outcome (Option (List ℕ) × ServiceMap)
on_control service_map failed = fault
on_control service_map (bytes []) = ok (none, service_map)
on_control service_map (bytes (c ∷ s)) = do
  require (ltb (length (c ∷ s)) 1024)
  let (back_message, service_map') = control service_map (c_prefix (c ∷ s))
  ok (some back_message, service_map')

-- The address that a query is answered with.
unfoldable pub query : ServiceMap → List ℕ → List ℕ
query service_map server_name = elim (lookup server_name service_map) [
  | none ↦ codes "unknown host"
  | some service_addr ↦ service_addr
]

-- The whole handler of a query connection: recv is asked for at most 1023 bytes, which leaves a place
-- for the 0, and gives no more.
unfoldable pub on_query : ServiceMap → Received → Outcome (Option (List ℕ))
on_query service_map failed = fault
on_query service_map (bytes []) = ok none
on_query service_map (bytes (c ∷ s)) = do
  require (ltb (length (c ∷ s)) 1024)
  ok (some (query service_map (c_prefix (c ∷ s))))
