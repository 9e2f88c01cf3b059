-- ===== src/Wiring/Served.antt =====
-- internal/nonodo/nonodo.go: what a worker needs is there before it.
use mathlib.Core.List.{Memᴰ, append-nil, append_assoc}
use mathlib.Core.List.Memᴰ
use mathlib.Core.Path.{subst}
use cartesi_rollups_hl_graph.Base.{
  ℕ, ◌≡◌, refl, sym, Bool, true, false, Bool-cases, ◌⊎◌, inl, inr, List, [], ◌∷◌, ◌++◌, Text, codes,
  text_eq, ok,
}
use cartesi_rollups_hl_graph.Wiring.{
  NonodoOpts, rollup_api, reader_api, Worker, anvil, graphql_synchronizer, graphile_synchronizer,
  exec_listener, inputter, http, command, echo_app, Host, Build, start_build, host_port, anvil_url,
  rollup_url, is_empty, start_devnet, start_inputter, start_application, new_supervisor,
}

module _ (o : NonodoOpts) where
  -- A chain: the Anvil that is started before, or the one of the options.
  abbrev pub Reached : List Worker → Text → Type 0
  Reached before url =
      ((address : Text) × (port : ℕ) × (verbose : Bool) × (cmd : Text) × Memᴰ
          (anvil address port verbose cmd) before
        × (url ≡ codes "ws://" ++ host_port address port))
      ⊎ ((is_empty o.rpc_url ≡ false) × (url ≡ o.rpc_url))

  -- A server of the rollup API.
  abbrev pub Serves : List Worker → Text → Type 0
  Serves before url =
      (address : Text) × Memᴰ (http address rollup_api) before × (url ≡ codes "http://" ++ address)

  abbrev pub Supplied : List Worker → Worker → Type 0
  Supplied before (anvil address port verbose cmd) = Unit
  Supplied before graphql_synchronizer = Unit
  Supplied before (graphile_synchronizer url) = Unit
  Supplied before (exec_listener provider application from_block) = Reached before provider
  Supplied before (inputter provider input_box block application) = Reached before provider
  Supplied before (http address handler) = Unit
  Supplied before (command name args env) =
      (url : Text) × Serves before url × (env ≡ codes "ROLLUP_HTTP_SERVER_URL=" ++ url)
  Supplied before (echo_app endpoint) = Serves before endpoint

  -- Every worker of the second list has what it needs in front of it.
  unfoldable pub IsSupplied : List Worker → List Worker → Type 0
  IsSupplied before [] = Unit
  IsSupplied before (w ∷ workers) = Supplied before w × IsSupplied (before ++ w ∷ []) workers

  pub IsSupplied-append :
      (before workers : List Worker) (w : Worker)
      → IsSupplied before workers
      → Supplied (before ++ workers) w
      → IsSupplied before (workers ++ w ∷ [])
  unfolding IsSupplied
  IsSupplied-append before [] w h k = (subst (λ l. Supplied l w) (append-nil before) k, tt)
  IsSupplied-append before (v ∷ workers) w (g, h) k = (
    g,
    IsSupplied-append (before ++ v ∷ []) workers w h
        (subst (λ l. Supplied l w) (sym (append_assoc before (v ∷ []) workers)) k),
  )

  -- The workers so far are supplied, and the options name a chain.
  abbrev Grounded : Build → Type 0
  Grounded b = IsSupplied [] b.workers × Reached b.workers b.opts.rpc_url

  -- A worker more, and the options and the workers with the devnet.
  abbrev added : Worker → Build → Build
  added w b = record b { workers = b.workers ++ w ∷ [] }

  abbrev on_devnet : Text → Build
  on_devnet location = record {
    opts = record o { rpc_url = anvil_url o };
    workers = anvil o.anvil_address o.anvil_port o.anvil_verbose location ∷ [];
  }

  added-IsSupplied :
      (w : Worker) (b : Build)
      → IsSupplied [] b.workers
      → Supplied b.workers w
      → IsSupplied [] (added w b).workers
  added-IsSupplied w b h k = IsSupplied-append [] b.workers w h k

  -- Either test holds of a choice that leaves a chain.
  start_devnet-Grounded :
      (host : Host) (location : Text)
      → host.install_anvil ≡ ok location
      → (is_empty o.rpc_url ≡ false) ⊎ (o.disable_devnet ≡ false)
      → (b : Build) × (start_devnet host o (start_build o) ≡ (ok tt, b)) × Grounded b
  unfolding start_devnet IsSupplied
  start_devnet-Grounded host location installed chain = elim (Bool-cases (is_empty o.rpc_url)) [
    | inr e ↦ (start_build o, rw e refl, (tt, inr (e, refl)))
    | inl e ↦ elim chain [
      | inl f ↦ absurd (cc (e, f))
      | inr d ↦ (
        on_devnet location,
        rw (e, d, installed) refl,
        ((tt, tt), inl (_, _, _, _, Memᴰ.head refl, refl)),
      )
    ]
  ]

  abbrev inputter_of : Build → Worker
  inputter_of b =
      inputter b.opts.rpc_url b.opts.input_box_address b.opts.input_box_block
        b.opts.application_address

  start_inputter-IsSupplied :
      (host : Host) (b : Build)
      → (o.disable_advance ≡ true) ⊎ (text_eq o.sequencer (codes "inputbox") ≡ true)
      → Grounded b
      → (c : Build) × (start_inputter host o b ≡ (ok tt, c)) × IsSupplied [] c.workers
  unfolding start_inputter
  start_inputter-IsSupplied host b sequencer (h, reached) = elim (Bool-cases o.disable_advance) [
    | inl e ↦ (b, rw e refl, h)
    | inr e ↦ elim sequencer [
      | inl f ↦ absurd (cc (e, f))
      | inr f ↦ (added (inputter_of b) b, rw (e, f) refl, added-IsSupplied _ b h reached)
    ]
  ]

  start_application-IsSupplied :
      (host : Host) (b : Build) (args : List Text)
      → IsSupplied [] b.workers
      → Serves b.workers (rollup_url o)
      → (c : Build) × (start_application host o args b ≡ (ok tt, c)) × IsSupplied [] c.workers
  unfolding start_application
  start_application-IsSupplied host b (name ∷ args) h serves =
      (added _ b, refl, added-IsSupplied _ b h (rollup_url o, serves, refl))
  start_application-IsSupplied host b [] h serves = elim (Bool-cases o.enable_echo) [
    | inl e ↦ (added (echo_app (rollup_url o)) b, rw e refl, added-IsSupplied _ b h serves)
    | inr e ↦ (b, rw e refl, h)
  ]

  -- The two servers.
  abbrev with_servers : Build → Build
  with_servers b =
      added (http (host_port o.http_address o.http_port) reader_api)
        (added (http (host_port o.http_address o.http_rollups_port) rollup_api) b)

  with_servers-IsSupplied :
      (b : Build) → IsSupplied [] b.workers → IsSupplied [] (with_servers b).workers
  with_servers-IsSupplied b h = added-IsSupplied _ (added _ b) (added-IsSupplied _ b h tt) tt

  with_servers-Serves : (b : Build) → Serves (with_servers b).workers (rollup_url o)
  with_servers-Serves b =
      (_, Memᴰ.append_left (_ ∷ []) (Memᴰ.append_right b.workers (Memᴰ.head refl)), refl)

-- If the database connects, Anvil can be installed, there is a chain (the URL of one, or the devnet), and
-- the inputs come from the input box or from nowhere, the supervisor is made, and every worker of it has
-- in front of it what it needs: an inputter the chain that it reads, and an application, built-in or
-- not, the server of the rollup API whose URL it is told.
pub new_supervisor-IsSupplied :
    (host : Host) (o : NonodoOpts) (location : Text)
    → host.connects (codes "sqlite3") o.sqlite_file ≡ true
    → host.install_anvil ≡ ok location
    → (is_empty o.rpc_url ≡ false) ⊎ (o.disable_devnet ≡ false)
    → (o.disable_advance ≡ true) ⊎ (text_eq o.sequencer (codes "inputbox") ≡ true)
    → (b : Build) × (new_supervisor host o (start_build o) ≡ (ok tt, b)) × IsSupplied o [] b.workers
unfolding new_supervisor
new_supervisor-IsSupplied host o location connected installed chain sequencer =
    let (b, e, g) = start_devnet-Grounded o host location installed chain in
    let (c, f, h) = start_inputter-IsSupplied o host b sequencer g in
    let (d, k, i) =
      start_application-IsSupplied o host (with_servers o c) o.application_args
        (with_servers-IsSupplied o c h) (with_servers-Serves o c) in
    (d, rw (connected, e, f, k) refl, i)
