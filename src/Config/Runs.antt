-- ===== src/Config/Runs.antt =====
-- The two files of conf/, as trees of elements, and two rpc_servers of one name.
use talon_rpc.Prelude.{ℕ, ◌≡◌, refl, List, [], ◌∷◌, Option, none, some, Bool, if◌then◌else◌}
use talon_rpc.Prelude.Int.{pos}
use talon_rpc.Prelude.Text.{codes, str_eq, find_first_of}
use talon_rpc.Prelude.Decimal.{atoi}
use talon_rpc.Prelude.Dict.{Dict, lookup, insert, assign}
use talon_rpc.Prelude.Outcome.{ok}
use talon_rpc.NetAddr.{check_valid_text, find_addr}
use mathlib.Core.Option
use talon_rpc.Config.{
  Loaded, loaded, exited, RpcStub, Config, read_stub, insert_stubs, new_config, stub_addrs,
}
use talon_rpc.Config.Stubs.{first_named, AllRead, find_addr-stubs}

-- An element: its name, its text and what is in it.
mutual
  data Xml : Type 0 where
    element : List ℕ → Option (List ℕ) → Xmls → Xml

  data Xmls : Type 0 where
    nil : Xmls
    cons : Xml → Xmls → Xmls

abbrev leaf : List ℕ → List ℕ → Xml
leaf name text = element name (some text) nil

abbrev has_name : List ℕ → Xml → Bool
unfolding str_eq
has_name name (element n text inside) = str_eq n name

children_in : List ℕ → Xmls → List Xml
unfolding str_eq
children_in name nil = []
children_in name (cons e es) =
    let rest = children_in name es in if has_name name e then e ∷ rest else rest

abbrev children : List ℕ → Xml → List Xml
unfolding children_in
children name (element n text inside) = children_in name inside

abbrev get_text : Xml → Option (List ℕ)
get_text (element n text inside) = text

abbrev log_element : Xml
log_element = element (codes "log") none (
    cons (leaf (codes "log_level") (codes "DEBUG")) (
      cons (leaf (codes "log_file_name") (codes "test")) (
        cons (leaf (codes "log_file_path") (codes "../log/")) (
          cons (leaf (codes "log_max_file_size") (codes "1000000000"))
            (cons (leaf (codes "log_sync_interval") (codes "500")) nil)))))

abbrev server_element : Xml
server_element = element (codes "server") none (
    cons (leaf (codes "port") (codes "9999")) (
      cons (leaf (codes "io_threads") (codes "4"))
        (cons (leaf (codes "local_ip") (codes "172.16.66.102")) nil)))

abbrev rpc_server : List ℕ → List ℕ → Xml
rpc_server name port = element (codes "rpc_server") none (
    cons (leaf (codes "name") name) (
      cons (leaf (codes "ip") (codes "172.16.66.102"))
        (cons (leaf (codes "port") port) (cons (leaf (codes "timeout") (codes "1000")) nil))))

abbrev document : Xmls → Xml
document inside = element [] none (cons (element (codes "root") none inside) nil)

abbrev port_of : Loaded Config → Option (ℕ × Dict RpcStub)
port_of (loaded c) = elim (c.port) [ pos n ↦ some (n, c.rpc_stubs) | _ ↦ none ]
port_of _ = none

-- conf/talon.xml loads; conf/talon_client.xml has no element `server`, and the program exits.
server_file :
    port_of (
      new_config children get_text (
        some (
          document (
            cons log_element (
              cons server_element (
                cons
                  (element
                    (codes "stubs")
                    none
                    (cons (rpc_server (codes "default") (codes "12345")) nil))
                  nil))))))
    ≡ some (
      9999,
      (
        codes "default",
        record {
          name = codes "default";
          addr = record { ip = codes "172.16.66.102"; port = 12345 };
          timeout = pos 1000;
        },
      )
          ∷ [],
    )
unfolding new_config insert lookup assign atoi children_in str_eq
server_file = refl

client_file : new_config children get_text (some (document (cons log_element nil))) ≡ exited
unfolding new_config children_in str_eq atoi
client_file = refl

abbrev nodes : List Xml
nodes = rpc_server (codes "a") (codes "80") ∷ rpc_server (codes "a") (codes "81") ∷ []

abbrev stub : ℕ → RpcStub
stub port = record {
  name = codes "a";
  addr = record { ip = codes "172.16.66.102"; port = port };
  timeout = pos 1000;
}

nodes-AllRead : AllRead children get_text nodes (stub 80 ∷ stub 81 ∷ [])
unfolding read_stub children_in str_eq atoi
nodes-AllRead = (refl, (refl, tt))

find_addr-stubs_example :
    (new : Dict RpcStub) × (insert_stubs children get_text nodes [] ≡ loaded new)
    × (find_addr (stub_addrs new) (codes "a")
        ≡ ok (
            Option.map
              (λ (s : RpcStub). s.addr)
              (first_named (codes "a") (stub 80 ∷ stub 81 ∷ []))))
unfolding check_valid_text find_first_of
find_addr-stubs_example =
    find_addr-stubs children get_text nodes (stub 80 ∷ stub 81 ∷ []) (codes "a") nodes-AllRead refl
