-- ===== src/Wiring/Checked.antt =====
-- main.go: what `run` checks before it starts a supervisor.
use cartesi_rollups_hl_graph.Base.{
  ◌≡◌, refl, true, false, ◌==◌, Bool-cases, ◌⊎◌, inl, inr, List, [], ◌∷◌, Text, codes, text_eq,
  Option, none, some, arith,
}
use cartesi_rollups_hl_graph.External.{External}
use cartesi_rollups_hl_graph.Wiring.{NonodoOpts, Host}
use cartesi_rollups_hl_graph.Wiring.Command.{
  Setting, flag_name, apply_all, changed, check_eth_address, check_args, Refusal, no_such_string,
  invalid_address, wrong_length, zero_anvil_port, missing_input_box_block, echo_and_application,
  is_nil, supervise, run, refused, anvil_address, anvil_port, anvil_verbose, application_address,
  input_box_address, input_box_block, debug, color, enable_echo, sequencer, namespace,
  timeout_inspect, timeout_advance, disable_devnet, disable_advance, http_address, http_port,
  http_rollups_port, rpc_url, high_level_graphql, sqlite_file, from_block, db_implementation,
  node_version, load_test_mode, graphile_disable_sync, graphile_url,
}

-- The two names by which `run` asks for the addresses.
abbrev input_box_flag : Text
input_box_flag = codes "address-input-box"

abbrev application_flag : Text
application_flag = codes "address-application"

abbrev Unnamed : Setting → Type 0
Unnamed s =
    (text_eq (flag_name s) input_box_flag ≡ false)
    × (text_eq (flag_name s) application_flag ≡ false)

-- No flag has one of them.
flag_name-Unnamed : (s : Setting) → Unnamed s
unfolding flag_name text_eq
flag_name-Unnamed (anvil_address s) = (refl, refl)
flag_name-Unnamed (anvil_port n) = (refl, refl)
flag_name-Unnamed (anvil_verbose b) = (refl, refl)
flag_name-Unnamed (application_address s) = (refl, refl)
flag_name-Unnamed (input_box_address s) = (refl, refl)
flag_name-Unnamed (input_box_block n) = (refl, refl)
flag_name-Unnamed (debug b) = (refl, refl)
flag_name-Unnamed (color b) = (refl, refl)
flag_name-Unnamed (enable_echo b) = (refl, refl)
flag_name-Unnamed (sequencer s) = (refl, refl)
flag_name-Unnamed (namespace n) = (refl, refl)
flag_name-Unnamed (timeout_inspect n) = (refl, refl)
flag_name-Unnamed (timeout_advance n) = (refl, refl)
flag_name-Unnamed (disable_devnet b) = (refl, refl)
flag_name-Unnamed (disable_advance b) = (refl, refl)
flag_name-Unnamed (http_address s) = (refl, refl)
flag_name-Unnamed (http_port n) = (refl, refl)
flag_name-Unnamed (http_rollups_port n) = (refl, refl)
flag_name-Unnamed (rpc_url s) = (refl, refl)
flag_name-Unnamed (high_level_graphql b) = (refl, refl)
flag_name-Unnamed (sqlite_file s) = (refl, refl)
flag_name-Unnamed (from_block n) = (refl, refl)
flag_name-Unnamed (db_implementation s) = (refl, refl)
flag_name-Unnamed (node_version s) = (refl, refl)
flag_name-Unnamed (load_test_mode b) = (refl, refl)
flag_name-Unnamed (graphile_disable_sync b) = (refl, refl)
flag_name-Unnamed (graphile_url s) = (refl, refl)

changed-asked :
    (settings : List Setting)
    → (changed input_box_flag settings ≡ false) × (changed application_flag settings ≡ false)
unfolding changed
changed-asked [] = (refl, refl)
changed-asked (s ∷ settings) =
    let (a, b) = flag_name-Unnamed s in let (c, d) = changed-asked settings in (rw a c, rw b d)

module _ (o : NonodoOpts) (settings : List Setting) (args : List Text) where
  -- What `run` refuses of the options, the flags and the application.
  abbrev pub Reason : Refusal → Type 0
  Reason (no_such_string name) = ⊥
  Reason (invalid_address name) = ⊥
  Reason (wrong_length name) = ⊥
  Reason zero_anvil_port = o.anvil_port ≡ 0
  Reason missing_input_box_block =
      (changed (codes "rpc-url") settings ≡ true)
      × (changed (codes "contracts-input-box-block") settings ≡ false)
  Reason echo_and_application = (o.enable_echo ≡ true) × (is_nil args ≡ false)

  abbrev pub Acceptable : Type 0
  Acceptable =
      ((o.anvil_port == 0) ≡ false)
      × ((changed (codes "rpc-url") settings ≡ false)
          ⊎ (changed (codes "contracts-input-box-block") settings ≡ true))
      × ((o.enable_echo ≡ false) ⊎ (is_nil args ≡ true))

  Verdict : Option Refusal → Type 0
  Verdict r = ((r ≡ none) × Acceptable) ⊎ ((x : Refusal) × Reason x × (r ≡ some x))

  check_args-Verdict : ⦃x : External⦄ → Verdict (check_args o settings args)
  unfolding check_args check_eth_address Verdict
  check_args-Verdict =
      let (a, b) = changed-asked settings in
      elim (Bool-cases (o.anvil_port == 0)) [
        | inl z ↦ inr (zero_anvil_port, ground arith, rw (a, b, z) refl)
        | inr z ↦ elim (Bool-cases (changed (codes "rpc-url") settings)) [
          | inr u ↦ elim (Bool-cases o.enable_echo) [
            | inr h ↦ inl (rw (a, b, z, u, h) refl, (z, inl u, inl h))
            | inl h ↦ elim (Bool-cases (is_nil args)) [
              | inl n ↦ inl (rw (a, b, z, u, h, n) refl, (z, inl u, inr n))
              | inr n ↦ inr (echo_and_application, (h, n), rw (a, b, z, u, h, n) refl)
            ]
          ]
          | inl u ↦ elim (Bool-cases (changed (codes "contracts-input-box-block") settings)) [
            | inr k ↦ inr (missing_input_box_block, (u, k), rw (a, b, z, u, k) refl)
            | inl k ↦ elim (Bool-cases o.enable_echo) [
              | inr h ↦ inl (rw (a, b, z, u, k, h) refl, (z, inr k, inl h))
              | inl h ↦ elim (Bool-cases (is_nil args)) [
                | inl n ↦ inl (rw (a, b, z, u, k, h, n) refl, (z, inr k, inr n))
                | inr n ↦ inr (echo_and_application, (h, n), rw (a, b, z, u, k, h, n) refl)
              ]
            ]
          ]
        ]
      ]

-- `run` starts the supervisor of the options that the flags make, with the application, where the port of
-- Anvil is not 0, the block of the input box comes with the URL of a node, and the echo application is not
-- asked for beside another one; otherwise it refuses for one of these three reasons, which holds. What the
-- flags give as addresses makes no difference.
pub run-Reason :
    ⦃x : External⦄ (host : Host) (defaults : NonodoOpts) (settings : List Setting)
    (args : List Text)
    → (Acceptable (apply_all settings defaults) settings args
        × (run host defaults settings args
            ≡ supervise host (record (apply_all settings defaults) { application_args = args })))
      ⊎ ((r : Refusal) × Reason (apply_all settings defaults) settings args r
          × (run host defaults settings args ≡ refused r))
unfolding run Verdict
run-Reason host defaults settings args =
    elim (check_args-Verdict (apply_all settings defaults) settings args) [
      | inl (e, a) ↦ inl (a, rw e refl)
      | inr (r, q, e) ↦ inr (r, q, rw e refl)
    ]
