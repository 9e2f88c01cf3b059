-- ===== src/Wiring/Chain.antt =====
-- internal/nonodo/nonodo.go: the chain that the GraphQL supervisor listens to.
use mathlib.Core.List.{Memᴰ, append-nil, append_assoc}
use cartesi_rollups_hl_graph.Base.{
  ◌≡◌, refl, sym, ◌∙◌, Bool, true, false, not, ◌&&◌, Bool-cases, inl, inr, List, [], ◌∷◌, ◌++◌,
  Text, codes, text_eq, ok, if◌then◌else◌,
}
use cartesi_rollups_hl_graph.Wiring.{
  NonodoOpts, reader_api, Worker, anvil, graphql_synchronizer, graphile_synchronizer, exec_listener,
  inputter, http, command, echo_app, Host, Build, start_build, host_port, anvil_url, is_empty,
  start_devnet, start_synchronization, make_synchronizer, connect, make_adapter, postgres_source,
  new_supervisor_hl_graphql,
}

abbrev pub starts_anvil : List Worker → Bool
starts_anvil [] = false
starts_anvil (anvil address port verbose cmd ∷ workers) = true
starts_anvil (graphql_synchronizer ∷ workers) = starts_anvil workers
starts_anvil (graphile_synchronizer url ∷ workers) = starts_anvil workers
starts_anvil (exec_listener provider application from_block ∷ workers) = starts_anvil workers
starts_anvil (inputter provider input_box block application ∷ workers) = starts_anvil workers
starts_anvil (http address handler ∷ workers) = starts_anvil workers
starts_anvil (command name args env ∷ workers) = starts_anvil workers
starts_anvil (echo_app endpoint ∷ workers) = starts_anvil workers

module _ (host : Host) (o : NonodoOpts) where
  -- The synchronizer of the node's version.
  abbrev pub synchronizer : Worker
  synchronizer =
      if text_eq o.node_version (codes "v2")
      then graphile_synchronizer o.graphile_url
      else graphql_synchronizer

  abbrev pub devnet_of : Text → List Worker
  devnet_of location =
      if is_empty o.rpc_url && not o.disable_devnet
      then anvil o.anvil_address o.anvil_port o.anvil_verbose location ∷ []
      else []

  abbrev pub synchronizing : List Worker
  synchronizing =
      if not o.load_test_mode && not o.graphile_disable_sync
      then synchronizer ∷ exec_listener (anvil_url o) o.application_address o.from_block ∷ []
      else []

  abbrev pub server : Worker
  server = http (host_port o.http_address o.http_port) reader_api

  -- The workers of a supervisor with the URL of a chain.
  abbrev workers_of : List Worker
  workers_of =
      synchronizer ∷ exec_listener (anvil_url o) o.application_address o.from_block ∷ server ∷ []

  starts_anvil-synchronizer : starts_anvil workers_of ≡ false
  starts_anvil-synchronizer = elim (Bool-cases (text_eq o.node_version (codes "v2"))) [
    | inl e ↦ rw e refl
    | inr e ↦ rw e refl
  ]

  -- No step panics, whatever the options are.
  abbrev pub HostServes : Text → Type 0
  HostServes location =
      (host.connects (codes "postgres") (postgres_source host) ≡ true)
      × (host.connects (codes "sqlite3") o.sqlite_file ≡ true)
      × (host.is_url o.graphile_url ≡ true)
      × (host.install_anvil ≡ ok location)

  -- The options of the listener are the ones given.
  abbrev Same : Build → Type 0
  Same b = (b.opts.application_address ≡ o.application_address) × (b.opts.from_block ≡ o.from_block)

  module _ (location : Text) (h : HostServes location) where
    connect-serves : (b : Build) → connect host o b ≡ (ok tt, b)
    unfolding connect
    connect-serves b = elim (Bool-cases (text_eq o.db_implementation (codes "postgres"))) [
      | inl e ↦ rw (e, h.0) refl
      | inr e ↦ rw (e, h.1) refl
    ]

    make_adapter-serves : (b : Build) → make_adapter host o b ≡ (ok tt, b)
    unfolding make_adapter
    make_adapter-serves b = elim (Bool-cases (text_eq o.node_version (codes "v1"))) [
      | inl e ↦ rw e refl
      | inr e ↦ rw (e, h.2) refl
    ]

    start_devnet-workers :
        (b : Build) × (start_devnet host o (start_build o) ≡ (ok tt, b))
        × (b.workers ≡ devnet_of location)
        × Same b
    unfolding start_devnet
    start_devnet-workers = elim (Bool-cases (is_empty o.rpc_url && not o.disable_devnet)) [
      | inl e ↦ (
        record {
          opts = record o { rpc_url = anvil_url o };
          workers = anvil o.anvil_address o.anvil_port o.anvil_verbose location ∷ [];
        },
        rw (e, h.3) refl,
        rw e refl,
        (refl, refl),
      )
      | inr e ↦ (start_build o, rw e refl, rw e refl, (refl, refl))
    ]

    make_synchronizer-workers :
        (b : Build)
        → make_synchronizer host o b
          ≡ (ok tt, record b { workers = b.workers ++ synchronizer ∷ [] })
    unfolding make_synchronizer
    make_synchronizer-workers b = elim (Bool-cases (text_eq o.node_version (codes "v2"))) [
      | inl e ↦ rw (e, h.2) refl
      | inr e ↦ rw e refl
    ]

    start_synchronization-workers :
        (b : Build)
        → Same b
        → (c : Build) × (start_synchronization host o b ≡ (ok tt, c))
          × (c.workers ≡ b.workers ++ synchronizing)
    unfolding start_synchronization
    start_synchronization-workers b (a, f) =
        elim (Bool-cases (not o.load_test_mode && not o.graphile_disable_sync)) [
          | inl e ↦ (
            record {
              opts = record (b.opts) { rpc_url = anvil_url o };
              workers =
                  b.workers
                  ++ synchronizer ∷ []
                  ++ exec_listener (anvil_url o) b.opts.application_address b.opts.from_block ∷ [];
            },
            rw (e, make_synchronizer-workers b) refl,
            rw (e, a, f) (append_assoc b.workers _ _),
          )
          | inr e ↦ (b, rw e refl, rw e (sym (append-nil b.workers)))
        ]

    -- If the databases connect, the URL of Graphile is one, and Anvil can be installed, the supervisor is
    -- made of these workers in this order: Anvil, if no URL of a chain is given and the devnet is not
    -- disabled; the synchronizer of the node's version and the listener, unless the load test mode is on
    -- or they are disabled; and the server.
    pub new_supervisor_hl_graphql-workers :
        (b : Build) × (new_supervisor_hl_graphql host o (start_build o) ≡ (ok tt, b))
        × (b.workers ≡ devnet_of location ++ synchronizing ++ server ∷ [])
    unfolding new_supervisor_hl_graphql
    new_supervisor_hl_graphql-workers =
        let (b, e, same, opts) = start_devnet-workers in
        let (c, f, more) = start_synchronization-workers b opts in
        (
          record c { workers = c.workers ++ server ∷ [] },
          rw (connect-serves, make_adapter-serves, e, f) refl,
          rw (more, same) refl,
        )

-- If, under the same conditions, the URL of a chain is given, and neither the load test mode is on nor
-- the synchronization disabled, the supervisor is made, no Anvil is started, and yet the
-- listener is given the URL of Anvil, whatever the URL of the chain is.
pub new_supervisor_hl_graphql_listens :
    (host : Host) (o : NonodoOpts) (location : Text)
    → HostServes host o location
    → is_empty o.rpc_url ≡ false
    → o.load_test_mode ≡ false
    → o.graphile_disable_sync ≡ false
    → (b : Build) × (new_supervisor_hl_graphql host o (start_build o) ≡ (ok tt, b))
      × (starts_anvil b.workers ≡ false)
      × Memᴰ (exec_listener (anvil_url o) o.application_address o.from_block) b.workers
new_supervisor_hl_graphql_listens host o location h url loads syncs =
    let (b, e, w) = new_supervisor_hl_graphql-workers host o location h in
    let v : b.workers ≡ workers_of host o = w ∙ rw (url, loads, syncs) refl in
    (b, e, rw v (starts_anvil-synchronizer host o), rw v (Memᴰ.tail (Memᴰ.head refl)))
