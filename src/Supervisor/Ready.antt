-- ===== src/Supervisor/Ready.antt =====
-- internal/supervisor/supervisor.go: what holds of the workers at every moment.
use mathlib.Core.Path.{subst}
use cartesi_rollups_hl_graph.Base.{
  ap, ◌∙◌, ℕ, suc, ◌≤◌, ◌<◌, ◌≡◌, refl, sym, Bool, true, false, ◌==◌, Bool-cases, inl, inr, arith,
  ◌⊎◌,
}
use cartesi_rollups_hl_graph.Supervisor.{
  Pc, not_started, starting, running, exited, Phase, launching, awaiting, announcing, watching,
  joining, returned, System, set_pc, was_ready, is_alive, is_exited, Step, launch, all_launched,
  became_ready, worker_timed_out, context_done, announce, watched, joined, join_timed_out, exit,
  parent_done, init, Reach, start, later,
}

-- The workers below `i` have been ready, and those from `k` on are not started.
abbrev pub Upto : (ℕ → Pc) → ℕ → ℕ → Type 0
Upto pc i k = ((j : ℕ) → j < i → was_ready (pc j) ≡ true) × ((j : ℕ) → k ≤ j → pc j ≡ not_started)

-- What the phase says of the workers and of the context.
abbrev pub PhaseHolds : ℕ → System → Phase → Type 0
PhaseHolds n s (launching i) = (i ≤ n) × Upto s.pc i i
PhaseHolds n s (awaiting i) = (i < n) × Upto s.pc i (suc i)
PhaseHolds n s announcing = s.cancelled ≡ false → (j : ℕ) → j < n → was_ready (s.pc j) ≡ true
PhaseHolds n s watching = s.cancelled ≡ false → (j : ℕ) → j < n → was_ready (s.pc j) ≡ true
PhaseHolds n s joining = s.cancelled ≡ true
PhaseHolds n s (returned all_exited) =
    (s.cancelled ≡ true) × (all_exited ≡ true → (j : ℕ) → is_alive (s.pc j) ≡ false)

pub record IsSupervised (n : ℕ) (s : System) : Type 0 where
  -- a worker is started only behind workers that were ready, and only one of the `n`
  pub ordered : (j k : ℕ) → j < k → (s.pc k ≡ not_started) ⊎ (was_ready (s.pc j) ≡ true)
  pub bounded : (k : ℕ) → n ≤ k → s.pc k ≡ not_started
  -- as long as the context is not done, no worker has exited
  pub none_exited : s.cancelled ≡ false → (j : ℕ) → is_exited (s.pc j) ≡ false
  pub phase_valid : PhaseHolds n s s.phase

init-IsSupervised : (n : ℕ) → IsSupervised n init
init-IsSupervised n = record {
  ordered = λ j k h. inl refl;
  bounded = λ k h. refl;
  none_exited = λ e j. refl;
  phase_valid = (omega arith, (λ j h. absurd (omega arith), λ j h. refl));
}

module _ (f : ℕ → Pc) (i : ℕ) (p : Pc) where
  set_pc_other : (k : ℕ) → (k == i) ≡ false → set_pc f i p k ≡ f k
  set_pc_other k e = rw e refl

  set_pc_ready :
      (was_ready (f i) ≡ true → was_ready p ≡ true)
      → (j : ℕ) → was_ready (f j) ≡ true
      → was_ready (set_pc f i p j) ≡ true
  set_pc_ready keep j h = elim (Bool-cases (j == i)) [
    | inl e ↦ let same : j ≡ i = ground arith in rw e (keep (cc (h, ap f same)))
    | inr e ↦ rw e h
  ]

  set_pc_idle : is_alive (f i) ≡ true → (k : ℕ) → f k ≡ not_started → set_pc f i p k ≡ not_started
  set_pc_idle alive k h = elim (Bool-cases (k == i)) [
    | inl e ↦
        let same : k ≡ i = ground arith in
        let dead : is_alive (f i) ≡ false = ap is_alive (sym (ap f same) ∙ h) in cc
    | inr e ↦ rw e h
  ]

  -- A worker that was counted moves on, and stays ready if it was.
  module _ (alive : is_alive (f i) ≡ true)
      (keep : was_ready (f i) ≡ true → was_ready p ≡ true) where
    set_pc-Upto : (a b : ℕ) → Upto f a b → Upto (set_pc f i p) a b
    set_pc-Upto a b (below, beyond) =
        (λ j h. set_pc_ready keep j (below j h), λ j h. set_pc_idle alive j (beyond j h))

    set_pc_ordered :
        (j k : ℕ)
        → (f k ≡ not_started) ⊎ (was_ready (f j) ≡ true)
        → (set_pc f i p k ≡ not_started) ⊎ (was_ready (set_pc f i p j) ≡ true)
    set_pc_ordered j k (inl e) = inl (set_pc_idle alive k e)
    set_pc_ordered j k (inr e) = inr (set_pc_ready keep j e)

module _ {n : ℕ} (s : System) (v : IsSupervised n s) where
  launch-IsSupervised :
      (i : ℕ)
      → PhaseHolds n s (launching i)
      → i < n
      → IsSupervised n (record s { pc = set_pc s.pc i starting; phase = awaiting i })
  launch-IsSupervised i (le, (below, beyond)) h = record {
    ordered = λ j k less. elim (Bool-cases (k == i)) [
      | inl e ↦
          let other : (j == i) ≡ false = ground arith in inr (rw other (below j (ground arith)))
      | inr e ↦ rw e (elim (v.ordered j k less) [
        | inl q ↦ inl q
        | inr q ↦ inr (set_pc_ready s.pc i starting (λ r. cc (r, beyond i (omega arith))) j q)
      ])
    ];
    bounded = λ k le. let other : (k == i) ≡ false = ground arith in rw other (v.bounded k le);
    none_exited =
        λ e j. elim (Bool-cases (j == i)) [ inl q ↦ rw q refl | inr q ↦ rw q (v.none_exited e j) ];
    phase_valid = (
      h,
      (
        λ j less. let other : (j == i) ≡ false = ground arith in rw other (below j less),
        λ j le. let other : (j == i) ≡ false = ground arith in rw other (beyond j (omega arith)),
      ),
    );
  }

  became_ready-IsSupervised :
      (i : ℕ)
      → PhaseHolds n s (awaiting i)
      → s.pc i ≡ starting
      → IsSupervised n (record s { pc = set_pc s.pc i running; phase = launching (suc i) })
  became_ready-IsSupervised i (less, upto) h =
      let alive : is_alive (s.pc i) ≡ true = ap is_alive h in
      let (below, beyond) = set_pc-Upto s.pc i running alive (λ e. refl) i (suc i) upto in
      record {
        ordered = λ j k q. set_pc_ordered s.pc i running alive (λ e. refl) j k (v.ordered j k q);
        bounded = λ k q. set_pc_idle s.pc i running alive k (v.bounded k q);
        none_exited = λ e j. elim (Bool-cases (j == i)) [
          | inl q ↦ rw q refl
          | inr q ↦ rw q (v.none_exited e j)
        ];
        phase_valid = (
          omega arith,
          (
            λ j q. elim (Bool-cases (j == i)) [
              | inl e ↦ rw e refl
              | inr e ↦ below j (ground arith)
            ],
            beyond,
          ),
        );
      }

  -- A step of the supervisor that changes its phase, and the context at most to done.
  move-IsSupervised :
      (c : Bool) (ph : Phase)
      → (c ≡ false → s.cancelled ≡ false)
      → PhaseHolds n (record s { cancelled = c; phase = ph }) ph
      → IsSupervised n (record s { cancelled = c; phase = ph })
  move-IsSupervised c ph e q = record {
    ordered = v.ordered;
    bounded = v.bounded;
    none_exited = λ d. v.none_exited (e d);
    phase_valid = q;
  }

  exit-phase :
      (j : ℕ) (ph : Phase)
      → is_alive (s.pc j) ≡ true
      → PhaseHolds n s ph
      → PhaseHolds n
          (record s { pc = set_pc s.pc j (exited (was_ready (s.pc j))); cancelled = true })
          ph
  exit-phase j (launching i) h (le, upto) = (le, set_pc-Upto s.pc j _ h (λ e. e) i i upto)
  exit-phase j (awaiting i) h (less, upto) = (less, set_pc-Upto s.pc j _ h (λ e. e) i (suc i) upto)
  exit-phase j announcing h q = λ e. cc
  exit-phase j watching h q = λ e. cc
  exit-phase j joining h q = refl
  exit-phase j (returned all_exited) h (c, q) =
      (refl, λ e k. elim (Bool-cases (k == j)) [ inl d ↦ rw d refl | inr d ↦ rw d (q e k) ])

  parent_done-phase :
      (ph : Phase) → PhaseHolds n s ph → PhaseHolds n (record s { cancelled = true }) ph
  parent_done-phase (launching i) q = q
  parent_done-phase (awaiting i) q = q
  parent_done-phase announcing q = λ e. cc
  parent_done-phase watching q = λ e. cc
  parent_done-phase joining q = refl
  parent_done-phase (returned all_exited) (c, q) = (refl, q)

Step-IsSupervised : {n : ℕ} {s t : System} → Step n s t → IsSupervised n s → IsSupervised n t
Step-IsSupervised {n} {s} (launch i e h) v =
    launch-IsSupervised s v i (subst (PhaseHolds n s) e v.phase_valid) h
Step-IsSupervised {n} {s} (all_launched e) v =
    let (le, (below, beyond)) = subst (PhaseHolds n s) e v.phase_valid in
    move-IsSupervised s v s.cancelled announcing (λ d. d) (λ c. below)
Step-IsSupervised {n} {s} (became_ready i e h) v =
    became_ready-IsSupervised s v i (subst (PhaseHolds n s) e v.phase_valid) h
Step-IsSupervised {n} {s} (worker_timed_out i e) v =
    move-IsSupervised s v true announcing (λ d. cc) (λ c. cc)
Step-IsSupervised {n} {s} (context_done i e h) v =
    move-IsSupervised s v s.cancelled announcing (λ d. d) (λ c. cc)
Step-IsSupervised {n} {s} (announce e) v =
    move-IsSupervised s v s.cancelled watching (λ d. d) (subst (PhaseHolds n s) e v.phase_valid)
Step-IsSupervised {n} {s} (watched e h) v = move-IsSupervised s v s.cancelled joining (λ d. d) h
Step-IsSupervised {n} {s} (joined e h) v =
    move-IsSupervised s v s.cancelled (returned true) (λ d. d)
      (subst (PhaseHolds n s) e v.phase_valid, λ q. h)
Step-IsSupervised {n} {s} (join_timed_out e) v =
    move-IsSupervised s v s.cancelled (returned false) (λ d. d)
      (subst (PhaseHolds n s) e v.phase_valid, λ q. cc)
Step-IsSupervised {n} {s} (exit j h) v = record {
  ordered = λ a b q. set_pc_ordered s.pc j _ h (λ e. e) a b (v.ordered a b q);
  bounded = λ k q. set_pc_idle s.pc j _ h k (v.bounded k q);
  none_exited = λ e. cc;
  phase_valid = exit-phase s v j s.phase h v.phase_valid;
}
Step-IsSupervised {n} {s} parent_done v = record {
  ordered = v.ordered;
  bounded = v.bounded;
  none_exited = λ e. cc;
  phase_valid = parent_done-phase s v s.phase v.phase_valid;
}

-- At every moment of a run of the supervisor: a worker is started only when all the workers before it
-- have been ready, and none but the given ones is started; as long as the context is not done no worker
-- has exited; when the supervisor announces that it is ready, or watches, while the context is not done,
-- every worker has been ready; it joins the workers and returns only when the context is done; and it
-- returns without an error only when every worker that was started has exited.
pub Reach-IsSupervised : {n : ℕ} {s : System} → Reach n s → IsSupervised n s
Reach-IsSupervised {n} start = init-IsSupervised n
Reach-IsSupervised (later r st) = Step-IsSupervised st (Reach-IsSupervised r)
