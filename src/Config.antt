-- ===== src/Config.antt =====
-- common/config.h and common/config.cc: the configuration that a program reads from an XML file.
-- TinyXML is a parameter: `children name e` are the elements that FirstChildElement(name) and then
-- NextSiblingElement(name) give, in their order, and `get_text e` is GetText(), null as none. What is
-- printed is left out.
pub mod Stubs
mod Runs
use talon_rpc.Prelude.{ℕ, List, [], ◌∷◌, map, Option, none, some, Bool, true, false}
use talon_rpc.Prelude.Int.{ℤ, pos}
use talon_rpc.Prelude.Text.{codes}
use talon_rpc.Prelude.Decimal.{atoi}
use talon_rpc.Prelude.Dict.{Dict, insert}
use talon_rpc.Prelude.Outcome.{Outcome, ok}
use talon_rpc.NetAddr.{IpNetAddr, to_uint16}
use talon_rpc.ConfigReader.{read_config}

-- `exited` is exit(0), `undefined` is undefined behaviour, such as a null pointer that is read.
pub data Loaded {ℓ} (A : Type ℓ) : Type ℓ where
  loaded : A → Loaded A
  exited undefined : Loaded A

infixl 5 ◌>>=◌
abbrev pub ◌>>=◌ {ℓ κ} : {A : Type ℓ} {B : Type κ} → Loaded A → (A → Loaded B) → Loaded B
loaded a >>= f = f a
exited >>= f = exited
undefined >>= f = undefined

-- What the code tests, and exits without.
abbrev pub or_exit {ℓ} : {A : Type ℓ} → Option A → Loaded A
or_exit none = exited
or_exit (some a) = loaded a

-- What it does not test.
abbrev pub or_undefined {ℓ} : {A : Type ℓ} → Option A → Loaded A
or_undefined none = undefined
or_undefined (some a) = loaded a

abbrev pub defined {ℓ} : {A : Type ℓ} → Outcome A → Loaded A
defined (ok a) = loaded a
defined _ = undefined

-- std::atoi(s.c_str())
abbrev pub to_int : List ℕ → Loaded ℤ
to_int s = defined (atoi s)

pub record RpcStub : Type 0 where
  pub name : List ℕ
  pub addr : IpNetAddr
  pub timeout : ℤ

pub record Config : Type 0 where
  pub log_level : List ℕ
  pub log_file_name : List ℕ
  pub log_file_path : List ℕ
  pub local_ip : List ℕ
  pub log_max_file_size : ℤ
  pub log_sync_inteval : ℤ
  pub port : ℤ
  pub io_threads : ℤ
  pub rpc_stubs : Dict RpcStub

-- Config()
abbrev pub default_config : Config
default_config = record {
  log_level = codes "DEBUG";
  log_file_name = [];
  log_file_path = [];
  local_ip = [];
  log_max_file_size = pos 0;
  log_sync_inteval = pos 0;
  port = pos 0;
  io_threads = pos 0;
  rpc_stubs = [];
}

abbrev pub first : {A : Type 0} → List A → Option A
first [] = none
first (a ∷ rest) = some a

-- setServiceCenterMap, on the text of the file.
abbrev pub set_service_center_map : List ℕ → Dict (List ℕ)
set_service_center_map text = read_config text

module _ {Element : Type 0} (children : List ℕ → Element → List Element)
    (get_text : Element → Option (List ℕ)) where
  abbrev pub first_child : List ℕ → Element → Option Element
  first_child name e = first (children name e)

  -- READ_XML_NODE
  abbrev pub read_node : List ℕ → Element → Loaded Element
  read_node name parent = or_exit (first_child name parent)

  -- READ_STR_FROM_XML_NODE, and the code written out for the port, the threads and the ip.
  unfoldable pub read_str : List ℕ → Element → Loaded (List ℕ)
  read_str name parent = do node ← read_node name parent; or_exit (get_text node)

  -- node->FirstChildElement(name)->GetText(), read as a std::string.
  unfoldable pub stub_text : List ℕ → Element → Loaded (List ℕ)
  stub_text name node = do e ← or_undefined (first_child name node); or_undefined (get_text e)

  -- One rpc_server.
  unfoldable pub read_stub : Element → Loaded RpcStub
  unfolding stub_text
  read_stub node = do
    name ← stub_text (codes "name") node
    timeout_text ← stub_text (codes "timeout") node
    timeout ← to_int timeout_text
    ip ← stub_text (codes "ip") node
    port_text ← stub_text (codes "port") node
    port ← to_int port_text
    loaded (record {
      name = name;
      addr = record { ip = ip; port = to_uint16 port };
      timeout = timeout;
    })

  -- The loop over the rpc_servers; insert keeps what a name has.
  unfoldable pub insert_stubs : List Element → Dict RpcStub → Loaded (Dict RpcStub)
  unfolding read_stub
  insert_stubs [] stubs = loaded stubs
  insert_stubs (node ∷ nodes) stubs = do
    stub ← read_stub node
    insert_stubs nodes (insert stub.name stub stubs)

  unfoldable pub read_stubs : Option Element → Loaded (Dict RpcStub)
  unfolding insert_stubs
  read_stubs none = loaded []
  read_stubs (some stubs_node) = insert_stubs (children (codes "rpc_server") stubs_node) []

  -- Config(xmlfile), on the document, which is none if LoadFile fails.
  unfoldable pub new_config : Option Element → Loaded Config
  unfolding read_str read_stubs
  new_config document = do
    xml_document ← or_exit document
    root ← read_node (codes "root") xml_document
    log ← read_node (codes "log") root
    server ← read_node (codes "server") root
    log_level ← read_str (codes "log_level") log
    log_file_name ← read_str (codes "log_file_name") log
    log_file_path ← read_str (codes "log_file_path") log
    log_max_file_size_str ← read_str (codes "log_max_file_size") log
    log_sync_interval_str ← read_str (codes "log_sync_interval") log
    log_max_file_size ← to_int log_max_file_size_str
    log_sync_inteval ← to_int log_sync_interval_str
    port_str ← read_str (codes "port") server
    io_threads_str ← read_str (codes "io_threads") server
    local_ip ← read_str (codes "local_ip") server
    port ← to_int port_str
    io_threads ← to_int io_threads_str
    stubs ← read_stubs (first_child (codes "stubs") root)
    loaded (record {
      log_level = log_level;
      log_file_name = log_file_name;
      log_file_path = log_file_path;
      local_ip = local_ip;
      log_max_file_size = log_max_file_size;
      log_sync_inteval = log_sync_inteval;
      port = port;
      io_threads = io_threads;
      rpc_stubs = stubs;
    })

  -- SetGlobalConfig(xmlfile): only the first call counts. The argument is none for a null pointer.
  unfoldable pub set_global_config :
      Option (Option Element) → Option Config → Loaded (Option Config)
  unfolding new_config
  set_global_config xmlfile (some config) = loaded (some config)
  set_global_config none none = loaded (some default_config)
  set_global_config (some document) none = do c ← new_config document; loaded (some c)

-- The addresses of the stubs, which FindAddr looks up.
abbrev pub stub_addrs : Dict RpcStub → Dict IpNetAddr
stub_addrs [] = []
stub_addrs ((name, stub) ∷ stubs) = (name, stub.addr) ∷ stub_addrs stubs
