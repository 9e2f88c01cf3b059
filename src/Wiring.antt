-- ===== src/Wiring.antt =====
-- internal/nonodo/nonodo.go: the options, and the workers that the two supervisors are made of. The
-- database and the parser of URLs are outside, and what becomes of the installation of Anvil, which is
-- Release, is given; where the code panics, the result is the error `panic`. An address is the text that
-- HexToAddress is given. The handlers behind the HTTP servers are the modules Http and Reader.
pub mod Command
pub mod Checked
pub mod Served
pub mod Chain
pub mod Celestia
pub mod Ready
use cartesi_rollups_hl_graph.Base.{
  ℕ, Bool, true, false, not, ◌&&◌, ◌||◌, List, [], ◌∷◌, ◌++◌, Text, codes, decimal, text_eq,
  if◌then◌else◌, Result, ok, err, panic, Exec, ◌>>=◌, ◌>>◌, pure, raise, lift,
}

-- Durations are in nanoseconds.
pub record NonodoOpts : Type 0 where
  pub anvil_address : Text
  pub anvil_port : ℕ
  pub anvil_verbose : Bool
  pub http_address : Text
  pub http_port : ℕ
  pub http_rollups_port : ℕ
  pub input_box_address : Text
  pub input_box_block : ℕ
  pub application_address : Text
  pub rpc_url : Text
  pub espresso_url : Text
  pub enable_echo : Bool
  pub disable_devnet : Bool
  pub disable_advance : Bool
  pub application_args : List Text
  pub high_level_graphql : Bool
  pub sqlite_file : Text
  pub from_block : ℕ
  pub db_implementation : Text
  pub node_version : Text
  pub load_test_mode : Bool
  pub sequencer : Text
  pub namespace : ℕ
  pub timeout_inspect : ℕ
  pub timeout_advance : ℕ
  pub graphile_url : Text
  pub graphile_disable_sync : Bool

-- What stands behind an HTTP server.
pub data Handler : Type 0 where
  rollup_api reader_api : Handler

pub data Worker : Type 0 where
  anvil : (address : Text) (port : ℕ) (verbose : Bool) (command : Text) → Worker
  graphql_synchronizer : Worker
  graphile_synchronizer : (url : Text) → Worker
  exec_listener : (provider application : Text) (from_block : ℕ) → Worker
  inputter : (provider input_box : Text) (block : ℕ) (application : Text) → Worker
  http : (address : Text) (handler : Handler) → Worker
  command : (name : Text) (args : List Text) (env : Text) → Worker
  echo_app : (endpoint : Text) → Worker

-- The world outside: whether the database connects, whether an URL can be parsed, where Anvil is
-- installed, and the environment variables.
pub record Host : Type 0 where
  pub connects : (driver source : Text) → Bool
  pub is_url : Text → Bool
  pub install_anvil : Result Text
  pub getenv : Text → Text

-- The options and the workers so far.
pub record Build : Type 0 where
  pub opts : NonodoOpts
  pub workers : List Worker

abbrev pub start_build : NonodoOpts → Build
start_build opts = record { opts = opts; workers = [] }

abbrev pub get_opts : Exec Build NonodoOpts
get_opts b = (ok b.opts, b)

abbrev pub add_worker : Worker → Exec Build (Unit {0})
add_worker w b = (ok tt, record b { workers = b.workers ++ w ∷ [] })

abbrev pub set_rpc_url : Text → Exec Build (Unit {0})
set_rpc_url url b = (ok tt, record b { opts = record (b.opts) { rpc_url = url } })

abbrev pub whether : Bool → Exec Build (Unit {0}) → Exec Build (Unit {0})
whether b m = if b then m else pure tt

abbrev pub unless_panic : Bool → Exec Build (Unit {0})
unless_panic b = if b then pure tt else raise panic

abbrev pub or_panic : {A : Type 0} → Result A → Exec Build A
or_panic (ok a) = pure a
or_panic (err e) = raise panic

-- `fmt.Sprintf("%v:%v", address, port)`
unfoldable pub host_port : Text → ℕ → Text
host_port address port = address ++ (codes ":" ++ decimal port)

abbrev pub anvil_url : NonodoOpts → Text
anvil_url o = codes "ws://" ++ host_port o.anvil_address o.anvil_port

abbrev pub rollup_url : NonodoOpts → Text
rollup_url o = codes "http://" ++ host_port o.http_address o.http_rollups_port

abbrev pub is_empty : Text → Bool
is_empty [] = true
is_empty (c ∷ s) = false

module _ (host : Host) where
  abbrev default_graphile_url : Text
  default_graphile_url = codes "http://localhost:5001/graphql"

  unfoldable pub new_graphile_url : Text → Text
  new_graphile_url url = if is_empty url || not (host.is_url url) then default_graphile_url else url

  -- NewNonodoOpts
  unfoldable pub new_nonodo_opts : NonodoOpts
  unfolding new_graphile_url
  new_nonodo_opts = record {
    anvil_address = codes "127.0.0.1";
    anvil_port = 8545;
    anvil_verbose = false;
    http_address = codes "127.0.0.1";
    http_port = 8080;
    http_rollups_port = 5004;
    input_box_address = codes "0x58Df21fE097d4bE5dCf61e01d9ea3f6B81c2E1dB";
    input_box_block = 0;
    application_address = codes "0xab7528bb862fb57e8a2bcd567a2e929a0be56a5e";
    rpc_url = [];
    espresso_url = codes "https://query.cappuccino.testnet.espresso.network";
    enable_echo = false;
    disable_devnet = false;
    disable_advance = false;
    application_args = [];
    high_level_graphql = false;
    sqlite_file = codes "file:memory1?mode=memory&cache=shared";
    from_block = 0;
    db_implementation = codes "sqlite";
    node_version = codes "v1";
    load_test_mode = false;
    sequencer = codes "inputbox";
    namespace = 10008;
    timeout_inspect = 10000000000;
    timeout_advance = 10000000000;
    graphile_url = new_graphile_url (host.getenv (codes "GRAPHILE_URL"));
    graphile_disable_sync = false;
  }

  -- The connection string of PostgreSQL.
  unfoldable pub postgres_source : Text
  postgres_source =
      codes "host="
      ++ (host.getenv (codes "POSTGRES_HOST")
          ++ (codes " port="
              ++ (host.getenv (codes "POSTGRES_PORT")
                  ++ (codes " user="
                      ++ (host.getenv (codes "POSTGRES_USER")
                          ++ (codes " dbname="
                              ++ (host.getenv (codes "POSTGRES_DB")
                                  ++ (codes " password="
                                      ++ (host.getenv (codes "POSTGRES_PASSWORD")
                                          ++ codes " sslmode=disable")))))))))

  unfoldable pub connect : NonodoOpts → Exec Build (Unit {0})
  connect o =
      if text_eq o.db_implementation (codes "postgres")
      then unless_panic (host.connects (codes "postgres") postgres_source)
      else unless_panic (host.connects (codes "sqlite3") o.sqlite_file)

  -- A node of the first version needs no Graphile.
  unfoldable pub make_adapter : NonodoOpts → Exec Build (Unit {0})
  make_adapter o =
      if text_eq o.node_version (codes "v1")
      then pure tt
      else unless_panic (host.is_url o.graphile_url)

  -- The devnet, which both supervisors start if there is no other chain.
  unfoldable pub start_devnet : NonodoOpts → Exec Build (Unit {0})
  start_devnet o = whether (is_empty o.rpc_url && not o.disable_devnet) do
    location ← or_panic host.install_anvil
    add_worker (anvil o.anvil_address o.anvil_port o.anvil_verbose location)
    set_rpc_url (anvil_url o)

  unfoldable pub make_synchronizer : NonodoOpts → Exec Build (Unit {0})
  make_synchronizer o =
      if text_eq o.node_version (codes "v2")
      then (unless_panic (host.is_url o.graphile_url)
          >> add_worker (graphile_synchronizer o.graphile_url))
      else add_worker graphql_synchronizer

  unfoldable pub start_synchronization : NonodoOpts → Exec Build (Unit {0})
  unfolding make_synchronizer
  start_synchronization o = whether (not o.load_test_mode && not o.graphile_disable_sync) do
    make_synchronizer o
    set_rpc_url (anvil_url o)
    p ← get_opts
    add_worker (exec_listener p.rpc_url p.application_address p.from_block)

  -- NewSupervisorHLGraphQL
  unfoldable pub new_supervisor_hl_graphql : NonodoOpts → Exec Build (Unit {0})
  unfolding connect make_adapter start_devnet start_synchronization
  new_supervisor_hl_graphql o = do
    connect o
    make_adapter o
    start_devnet o
    start_synchronization o
    add_worker (http (host_port o.http_address o.http_port) reader_api)

  unfoldable pub start_inputter : NonodoOpts → Exec Build (Unit {0})
  start_inputter o = whether (not o.disable_advance) (
      if text_eq o.sequencer (codes "inputbox")
      then (get_opts >>= λ p.
          add_worker
            (inputter p.rpc_url p.input_box_address p.input_box_block p.application_address))
      else raise panic)

  -- The application: a command, or the built-in one.
  unfoldable pub start_application : NonodoOpts → List Text → Exec Build (Unit {0})
  start_application o (name ∷ args) =
      add_worker (command name args (codes "ROLLUP_HTTP_SERVER_URL=" ++ rollup_url o))
  start_application o [] = whether o.enable_echo (add_worker (echo_app (rollup_url o)))

  -- NewSupervisor
  unfoldable pub new_supervisor : NonodoOpts → Exec Build (Unit {0})
  unfolding start_devnet start_inputter start_application
  new_supervisor o = do
    unless_panic (host.connects (codes "sqlite3") o.sqlite_file)
    start_devnet o
    start_inputter o
    add_worker (http (host_port o.http_address o.http_rollups_port) rollup_api)
    add_worker (http (host_port o.http_address o.http_port) reader_api)
    start_application o o.application_args
