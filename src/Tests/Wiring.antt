-- ===== src/Tests/Wiring.antt =====
-- The command line and the supervisors at concrete options.
use mathlib.Core.Option.{none}
use cartesi_rollups_hl_graph.Base.{
  ◌≡◌, refl, true, ◌⊎◌, inr, text_eq, decimal, List, [], ◌∷◌, ◌++◌, codes, ok,
}
use cartesi_rollups_hl_graph.Wiring.{
  NonodoOpts, exec_listener, graphql_synchronizer, host_port, Host, Build, start_build,
  new_nonodo_opts, new_supervisor, new_supervisor_hl_graphql,
}
use cartesi_rollups_hl_graph.Wiring.Command.{
  Setting, application_address, rpc_url, input_box_block, Refusal, run, supervise, refused,
  apply_all, missing_input_box_block, apply, check_args, check_eth_address, changed, flag_name,
}
use cartesi_rollups_hl_graph.Wiring.Checked.{Acceptable, Reason, run-Reason}
use cartesi_rollups_hl_graph.Wiring.Served.{IsSupplied, new_supervisor-IsSupplied}
use cartesi_rollups_hl_graph.Wiring.Chain.{
  devnet_of, synchronizing, server, new_supervisor_hl_graphql-workers,
}
use cartesi_rollups_hl_graph.Base.{ℕ, ◌<◌, Text, inl, get_elem?, some, arith}
use cartesi_rollups_hl_graph.Wiring.{
  rollup_api, reader_api, http, echo_app, start_devnet, start_inputter, start_application,
}
use cartesi_rollups_hl_graph.Wiring.Ready.{new_supervisor-ready}
use cartesi_rollups_hl_graph.Supervisor.{
  System, awaiting, init, set_pc, starting, running, launch, became_ready, start, later, Reach,
  was_ready,
}
use cartesi_rollups_hl_graph.Wiring.Celestia.{Outside, no_opts, submission}
use cartesi_rollups_hl_graph.Tests.World.{world}

abbrev host : Host
host = record {
  connects = λ driver source. true;
  is_url = λ url. true;
  install_anvil = ok (codes "/usr/bin/anvil");
  getenv = λ name. [];
}

abbrev with_echo : NonodoOpts
with_echo = record (new_nonodo_opts host) { enable_echo = true }

abbrev with_url : NonodoOpts
with_url = record (new_nonodo_opts host) { rpc_url = codes "ws://node:8545" }

abbrev given : List Setting
given = application_address (codes "nonsense") ∷ rpc_url (codes "ws://node:8545") ∷ []

-- The block of the input box is missing, and nothing is said of the address.
refuses : run host (new_nonodo_opts host) given [] ≡ refused missing_input_box_block
unfolding run check_args check_eth_address changed flag_name apply_all apply new_nonodo_opts text_eq
refuses = refl

-- With the block, the address stays unread.
starts :
    check_args
      (apply_all (input_box_block 7 ∷ given) (new_nonodo_opts host))
      (input_box_block 7 ∷ given)
      []
    ≡ none
unfolding check_args check_eth_address changed flag_name apply_all apply new_nonodo_opts text_eq
starts = refl

run-Reason_example :
    (Acceptable (apply_all given (new_nonodo_opts host)) given []
      × (run host (new_nonodo_opts host) given []
          ≡ supervise host
              (record (apply_all given (new_nonodo_opts host)) { application_args = [] })))
    ⊎ ((r : Refusal) × Reason (apply_all given (new_nonodo_opts host)) given [] r
        × (run host (new_nonodo_opts host) given [] ≡ refused r))
run-Reason_example = run-Reason host (new_nonodo_opts host) given []

new_supervisor-IsSupplied_example :
    (b : Build) × (new_supervisor host with_echo (start_build with_echo) ≡ (ok tt, b))
    × IsSupplied with_echo [] b.workers
unfolding new_nonodo_opts text_eq
new_supervisor-IsSupplied_example =
    new_supervisor-IsSupplied host with_echo (codes "/usr/bin/anvil") refl refl (inr refl)
      (inr refl)

new_supervisor_hl_graphql-workers_example :
    (b : Build) × (new_supervisor_hl_graphql host with_url (start_build with_url) ≡ (ok tt, b))
    × (b.workers
        ≡ devnet_of host with_url (codes "/usr/bin/anvil")
          ++ synchronizing host with_url
          ++ server host with_url ∷ [])
new_supervisor_hl_graphql-workers_example =
    new_supervisor_hl_graphql-workers host with_url (codes "/usr/bin/anvil")
      (refl, refl, refl, refl)

-- No worker is Anvil, and the listener is given its URL.
listens :
    devnet_of host with_url [] ++ synchronizing host with_url
    ≡ graphql_synchronizer
      ∷ exec_listener (codes "ws://127.0.0.1:8545") with_url.application_address 0
      ∷ []
unfolding new_nonodo_opts host_port text_eq decimal
listens = refl

abbrev node : Outside
node = record {
  open_file = λ path. ok (record { size = ok 2; read = λ n. ok (1 ∷ 2 ∷ []) });
  new_request = λ url. ok tt;
  answer = λ url. ok (ok (1 ∷ 2 ∷ []));
  getenv = λ name. 9 ∷ [];
  submit_blob = λ blob. ok (1, 2, 3);
}

sends :
    submission node (1 ∷ 2 ∷ []) (record no_opts { namespace = 5 ∷ [] })
    ≡ record { url = 9 ∷ []; token = 9 ∷ []; namespace = 5 ∷ []; payload = [] } ∷ []
sends = refl

-- The two servers and the echo application, on a chain of someone else.
abbrev small : NonodoOpts
small = record with_echo { rpc_url = codes "ws://node:8545"; disable_advance = true }

abbrev echoing : Build
echoing = record {
  opts = small;
  workers =
      http (codes "127.0.0.1:5004") rollup_api
      ∷ http (codes "127.0.0.1:8080") reader_api
      ∷ echo_app (codes "http://127.0.0.1:5004")
      ∷ [];
}

makes : new_supervisor host small (start_build small) ≡ (ok tt, echoing)
unfolding new_supervisor start_devnet start_inputter start_application host_port decimal
    new_nonodo_opts
makes = refl

-- The moment at which the application has been started.
abbrev launched : System
launched = record init {
  pc =
      set_pc (set_pc (set_pc (set_pc (set_pc init.pc 0 starting) 0 running) 1 starting) 1 running) 2
        starting;
  phase = awaiting 2;
}

reaches : Reach 3 launched
reaches =
    later
      (later
        (later (later (later start (launch 0 refl (omega arith))) (became_ready 0 refl refl))
          (launch 1 refl (omega arith)))
        (became_ready 1 refl refl))
      (launch 2 refl (omega arith))

new_supervisor-ready_example :
    (j : ℕ) × (address : Text) × (j < 2)
    × (get_elem? echoing.workers j ≡ some (http address rollup_api))
    × (codes "http://127.0.0.1:5004" ≡ codes "http://" ++ address)
    × (was_ready (launched.pc j) ≡ true)
unfolding new_nonodo_opts
new_supervisor-ready_example =
    new_supervisor-ready host small (codes "/usr/bin/anvil") echoing launched 2
      (echo_app (codes "http://127.0.0.1:5004")) (codes "http://127.0.0.1:5004") refl refl
      (inl refl) (inl refl) makes reaches refl refl (λ e. cc (e))
