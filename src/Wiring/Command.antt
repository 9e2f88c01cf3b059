-- ===== src/Wiring/Command.antt =====
-- main.go: the flags of the command `nonodo`, the checks of `run`, and the start of a supervisor. The
-- package pflag reads the command line: what it makes of an option is a `Setting`.
use cartesi_rollups_hl_graph.Base.{
  ℕ, suc, Bool, true, false, not, ◌&&◌, ◌||◌, ◌==◌, List, [], ◌∷◌, Text, codes, text_eq,
  if◌then◌else◌, Option, none, some, Result,
}
use cartesi_rollups_hl_graph.External.{External}
use cartesi_rollups_hl_graph.Wiring.{
  NonodoOpts, Host, Build, start_build, new_supervisor_hl_graphql, new_supervisor,
}

-- A flag that is given, with its value.
pub data Setting : Type 0 where
  anvil_address application_address input_box_address sequencer http_address rpc_url sqlite_file
        db_implementation node_version graphile_url :
      Text → Setting
  anvil_port input_box_block namespace timeout_inspect timeout_advance http_port http_rollups_port
        from_block :
      ℕ → Setting
  anvil_verbose debug color enable_echo disable_devnet disable_advance high_level_graphql
        load_test_mode graphile_disable_sync :
      Bool → Setting

-- The name of the flag.
unfoldable pub flag_name : Setting → Text
flag_name (anvil_address s) = codes "anvil-address"
flag_name (anvil_port n) = codes "anvil-port"
flag_name (anvil_verbose b) = codes "anvil-verbose"
flag_name (application_address s) = codes "contracts-application-address"
flag_name (input_box_address s) = codes "contracts-input-box-address"
flag_name (input_box_block n) = codes "contracts-input-box-block"
flag_name (debug b) = codes "enable-debug"
flag_name (color b) = codes "enable-color"
flag_name (enable_echo b) = codes "enable-echo"
flag_name (sequencer s) = codes "sequencer"
flag_name (namespace n) = codes "namespace"
flag_name (timeout_inspect n) = codes "sm-deadline-inspect-state"
flag_name (timeout_advance n) = codes "sm-deadline-advance-state"
flag_name (disable_devnet b) = codes "disable-devnet"
flag_name (disable_advance b) = codes "disable-advance"
flag_name (http_address s) = codes "http-address"
flag_name (http_port n) = codes "http-port"
flag_name (http_rollups_port n) = codes "http-rollups-port"
flag_name (rpc_url s) = codes "rpc-url"
flag_name (high_level_graphql b) = codes "high-level-graphql"
flag_name (sqlite_file s) = codes "sqlite-file"
flag_name (from_block n) = codes "from-block"
flag_name (db_implementation s) = codes "db-implementation"
flag_name (node_version s) = codes "node-version"
flag_name (load_test_mode b) = codes "load-test-mode"
flag_name (graphile_disable_sync b) = codes "graphile-disable-sync"
flag_name (graphile_url s) = codes "graphile-url"

-- What the flag is a variable of. `debug` and `color` are the logger's.
unfoldable pub apply : Setting → NonodoOpts → NonodoOpts
apply (anvil_address s) o = record o { anvil_address = s }
apply (anvil_port n) o = record o { anvil_port = n }
apply (anvil_verbose b) o = record o { anvil_verbose = b }
apply (application_address s) o = record o { application_address = s }
apply (input_box_address s) o = record o { input_box_address = s }
apply (input_box_block n) o = record o { input_box_block = n }
apply (debug b) o = o
apply (color b) o = o
apply (enable_echo b) o = record o { enable_echo = b }
apply (sequencer s) o = record o { sequencer = s }
apply (namespace n) o = record o { namespace = n }
apply (timeout_inspect n) o = record o { timeout_inspect = n }
apply (timeout_advance n) o = record o { timeout_advance = n }
apply (disable_devnet b) o = record o { disable_devnet = b }
apply (disable_advance b) o = record o { disable_advance = b }
apply (http_address s) o = record o { http_address = s }
apply (http_port n) o = record o { http_port = n }
apply (http_rollups_port n) o = record o { http_rollups_port = n }
apply (rpc_url s) o = record o { rpc_url = s }
apply (high_level_graphql b) o = record o { high_level_graphql = b }
apply (sqlite_file s) o = record o { sqlite_file = s }
apply (from_block n) o = record o { from_block = n }
apply (db_implementation s) o = record o { db_implementation = s }
apply (node_version s) o = record o { node_version = s }
apply (load_test_mode b) o = record o { load_test_mode = b }
apply (graphile_disable_sync b) o = record o { graphile_disable_sync = b }
apply (graphile_url s) o = record o { graphile_url = s }

-- The value of a flag that was defined by `StringVar`.
unfoldable pub string_value : Setting → Option Text
string_value (anvil_address s) = some s
string_value (anvil_port n) = none
string_value (anvil_verbose b) = none
string_value (application_address s) = some s
string_value (input_box_address s) = some s
string_value (input_box_block n) = none
string_value (debug b) = none
string_value (color b) = none
string_value (enable_echo b) = none
string_value (sequencer s) = some s
string_value (namespace n) = none
string_value (timeout_inspect n) = none
string_value (timeout_advance n) = none
string_value (disable_devnet b) = none
string_value (disable_advance b) = none
string_value (http_address s) = some s
string_value (http_port n) = none
string_value (http_rollups_port n) = none
string_value (rpc_url s) = some s
string_value (high_level_graphql b) = none
string_value (sqlite_file s) = some s
string_value (from_block n) = none
string_value (db_implementation s) = some s
string_value (node_version s) = some s
string_value (load_test_mode b) = none
string_value (graphile_disable_sync b) = none
string_value (graphile_url s) = some s

unfoldable pub apply_all : List Setting → NonodoOpts → NonodoOpts
unfolding apply
apply_all [] o = o
apply_all (s ∷ settings) o = apply_all settings (apply s o)

unfoldable pub changed : Text → List Setting → Bool
unfolding flag_name
changed name [] = false
changed name (s ∷ settings) = text_eq (flag_name s) name || changed name settings

abbrev later_or : Option Text → Option Text → Option Text
later_or (some v) w = some v
later_or none w = w

-- The last value that the flag was given.
unfoldable pub get_string : Text → List Setting → Option Text
unfolding string_value
get_string name [] = none
get_string name (s ∷ settings) =
    later_or (get_string name settings)
      (if text_eq (flag_name s) name then string_value s else none)

-- Why `run` exits.
pub data Refusal : Type 0 where
  no_such_string invalid_address wrong_length : Text → Refusal
  zero_anvil_port missing_input_box_block echo_and_application : Refusal

abbrev length : Text → ℕ
length [] = 0
length (c ∷ s) = suc (length s)

-- The address behind a flag that has changed.
module _ ⦃x : External⦄ (name : Text) where
  abbrev pub check_bytes : Option Text → Option Refusal
  check_bytes none = some (invalid_address name)
  check_bytes (some bytes) = if length bytes == 20 then none else some (wrong_length name)

  abbrev pub check_value : Option Text → Option Refusal
  check_value none = some (no_such_string name)
  check_value (some value) = check_bytes (x.hexutil_decode value)

  unfoldable pub check_eth_address : List Setting → Option Refusal
  unfolding changed get_string
  check_eth_address settings =
      if changed name settings then check_value (get_string name settings) else none

abbrev pub or_else : Option Refusal → Option Refusal → Option Refusal
or_else (some r) next = some r
or_else none next = next

abbrev pub is_nil : {A : Type 0} → List A → Bool
is_nil [] = true
is_nil (a ∷ l) = false

abbrev pub refuse_if : Bool → Refusal → Option Refusal
refuse_if b r = if b then some r else none

-- The checks of `run`, in their order.
unfoldable pub check_args : ⦃x : External⦄ → NonodoOpts → List Setting → List Text → Option Refusal
unfolding check_eth_address changed
check_args o settings args = or_else (check_eth_address (codes "address-input-box") settings) (
    or_else (check_eth_address (codes "address-application") settings) (
      or_else (refuse_if (o.anvil_port == 0) zero_anvil_port) (
        or_else
          (refuse_if
            (changed (codes "rpc-url") settings
              && not (changed (codes "contracts-input-box-block") settings))
            missing_input_box_block)
          (refuse_if (o.enable_echo && not (is_nil args)) echo_and_application))))

pub data Started : Type 0 where
  refused : Refusal → Started
  supervised : Result (Unit {0}) × Build → Started

unfoldable pub supervise : Host → NonodoOpts → Started
supervise host o =
    if o.high_level_graphql
    then supervised (new_supervisor_hl_graphql host o (start_build o))
    else supervised (new_supervisor host o (start_build o))

abbrev pub checked : Option Refusal → Started → Started
checked (some r) next = refused r
checked none next = next

-- run, with the defaults of the options
unfoldable pub run : ⦃x : External⦄ → Host → NonodoOpts → List Setting → List Text → Started
unfolding apply_all check_args supervise
run host defaults settings args =
    let o : NonodoOpts = apply_all settings defaults in
    checked (check_args o settings args) (supervise host (record o { application_args = args }))
