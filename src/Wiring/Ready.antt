-- ===== src/Wiring/Ready.antt =====
-- internal/nonodo/nonodo.go with internal/supervisor/supervisor.go: an application finds its server ready.
use mathlib.Core.List.{Memᴰ, append-nil, append_assoc}
use mathlib.Core.List.Memᴰ
use mathlib.Core.Path.{subst}
use cartesi_rollups_hl_graph.Base.{
  ℕ, zero, suc, ◌<◌, ◌≡◌, ◌≢◌, sym, ap, ◌∙◌, true, false, ◌⊎◌, inl, inr, some, List, [], ◌∷◌, ◌++◌,
  Text, codes, text_eq, ok, take, length, get_elem?, arith,
}
use cartesi_rollups_hl_graph.Supervisor.{System, not_started, was_ready, Reach}
use cartesi_rollups_hl_graph.Supervisor.Ready.{Reach-IsSupervised}
use cartesi_rollups_hl_graph.Wiring.{
  NonodoOpts, rollup_api, Worker, anvil, graphql_synchronizer, graphile_synchronizer, exec_listener,
  inputter, http, command, echo_app, Host, Build, start_build, is_empty, new_supervisor,
}
use cartesi_rollups_hl_graph.Wiring.Served.{Serves, Supplied, IsSupplied, new_supervisor-IsSupplied}

-- The worker is an application that is told the URL.
abbrev pub Told : Text → Worker → Type 0
Told url (anvil address port verbose cmd) = ⊥
Told url graphql_synchronizer = ⊥
Told url (graphile_synchronizer graphile) = ⊥
Told url (exec_listener provider application from_block) = ⊥
Told url (inputter provider input_box block application) = ⊥
Told url (http address handler) = ⊥
Told url (command name args env) = env ≡ codes "ROLLUP_HTTP_SERVER_URL=" ++ url
Told url (echo_app endpoint) = endpoint ≡ url

prefix_cancel : (p s t : Text) → p ++ s ≡ p ++ t → s ≡ t
prefix_cancel [] s t h = h
prefix_cancel (c ∷ p) s t h = prefix_cancel p s t (ground arith)

module _ {A : Type 0} where
  get_elem-take :
      (k : ℕ) (xs : List A) {a : A}
      → Memᴰ a (take k xs)
      → (j : ℕ) × (j < k) × (get_elem? xs j ≡ some a)
  get_elem-take zero xs m = absurd (Memᴰ.not-nil m)
  get_elem-take (suc k) [] m = absurd (Memᴰ.not-nil m)
  get_elem-take (suc k) (x ∷ xs) m = elim (Memᴰ.cases_cons m) [
    | inl e ↦ (0, omega arith, ap some (sym e))
    | inr t ↦ let (j, lt, e) = get_elem-take k xs t in (suc j, omega arith, e)
  ]

module _ (o : NonodoOpts) (url : Text) where
  Told-Serves :
      (before : List Worker) (w : Worker) → Told url w → Supplied o before w → Serves o before url
  Told-Serves before (echo_app endpoint) t s = subst (λ u. Serves o before u) t s
  Told-Serves before (command name args env) t (u, s, e) =
      subst (λ u. Serves o before u)
        (prefix_cancel (codes "ROLLUP_HTTP_SERVER_URL=") u url (sym e ∙ t)) s
  Told-Serves before (anvil address port verbose cmd) t s = absurd t
  Told-Serves before graphql_synchronizer t s = absurd t
  Told-Serves before (graphile_synchronizer graphile) t s = absurd t
  Told-Serves before (exec_listener provider application from_block) t s = absurd t
  Told-Serves before (inputter provider input_box block application) t s = absurd t
  Told-Serves before (http address handler) t s = absurd t

  -- The workers in front of the one at `k`.
  IsSupplied-at :
      (before workers : List Worker) (k : ℕ) {w : Worker}
      → IsSupplied o before workers
      → get_elem? workers k ≡ some w
      → Supplied o (before ++ take k workers) w
  unfolding IsSupplied
  IsSupplied-at before [] k h e = cc
  IsSupplied-at before (v ∷ workers) zero {w} h e =
      let same : v ≡ w = ground arith in
      subst (λ l. Supplied o l w) (sym (append-nil before))
        (subst (λ u. Supplied o before u) same h.0)
  IsSupplied-at before (v ∷ workers) (suc k) {w} h e =
      subst (λ l. Supplied o l w) (append_assoc before (v ∷ []) (take k workers))
        (IsSupplied-at (before ++ v ∷ []) workers k h.1 e)

-- If the database connects, Anvil can be installed, there is a chain, and the inputs come from the input
-- box or from nowhere, then at every moment of the supervisor that NewSupervisor makes, whatever the
-- order of events: if an application that is told a URL has been started, then the server of the rollup
-- API at that URL is a worker in front of it, and it has been ready.
pub new_supervisor-ready :
    (host : Host) (o : NonodoOpts) (location : Text) (b : Build) (s : System) (k : ℕ) (w : Worker)
    (url : Text)
    → host.connects (codes "sqlite3") o.sqlite_file ≡ true
    → host.install_anvil ≡ ok location
    → (is_empty o.rpc_url ≡ false) ⊎ (o.disable_devnet ≡ false)
    → (o.disable_advance ≡ true) ⊎ (text_eq o.sequencer (codes "inputbox") ≡ true)
    → new_supervisor host o (start_build o) ≡ (ok tt, b)
    → Reach (length b.workers) s
    → get_elem? b.workers k ≡ some w
    → Told url w
    → s.pc k ≢ not_started
    → (j : ℕ) × (address : Text) × (j < k)
      × (get_elem? b.workers j ≡ some (http address rollup_api))
      × (url ≡ codes "http://" ++ address)
      × (was_ready (s.pc j) ≡ true)
new_supervisor-ready host o location b s k w url connected installed chain sequencer made r e told
      started =
    let (c, made_too, supplied) =
      new_supervisor-IsSupplied host o location connected installed chain sequencer in
    let same : c ≡ b = ap (λ p. p.1) (sym made_too ∙ made) in
    let at =
      IsSupplied-at o url [] b.workers k (subst (λ c. IsSupplied o [] c.workers) same supplied) e in
    let (address, there, served) = Told-Serves o url (take k b.workers) w told at in
    let (j, lt, found) = get_elem-take k b.workers there in
    elim ((Reach-IsSupervised r).ordered j k lt) [
      | inl idle ↦ absurd (started idle)
      | inr ready ↦ (j, address, lt, found, served, ready)
    ]
