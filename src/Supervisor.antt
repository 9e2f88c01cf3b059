-- ===== src/Supervisor.antt =====
-- internal/supervisor/supervisor.go: `n` workers that are started in order, each after the one before is
-- ready, and stopped together. A step is one event of the supervisor's goroutine or of a worker's; which
-- of the possible steps comes next, and so when a timeout passes, is open.
pub mod Ready
use cartesi_rollups_hl_graph.Base.{ℕ, suc, ◌<◌, ◌≡◌, Bool, true, false, ◌==◌, if◌then◌else◌}

-- The goroutine of a worker: `starting` until it has sent on `innerReady`; an exited one knows whether it
-- had.
pub data Pc : Type 0 where
  not_started starting running : Pc
  exited : (ready : Bool) → Pc

-- Where the supervisor stands.
pub data Phase : Type 0 where
  launching : (i : ℕ) → Phase  -- head of the loop, at the worker `i`
  awaiting : (i : ℕ) → Phase  -- the `select` behind the start of the worker `i`
  announcing : Phase  -- `ready <- struct{}{}`
  watching : Phase  -- `<-ctx.Done()`
  joining : Phase  -- the last `select`
  returned : (all_exited : Bool) → Phase

-- `cancelled` is whether the context is done.
pub record System : Type 0 where
  pub pc : ℕ → Pc
  pub cancelled : Bool
  pub phase : Phase

abbrev pub set_pc : (ℕ → Pc) → ℕ → Pc → ℕ → Pc
set_pc f i p j = if j == i then p else f j

abbrev pub was_ready : Pc → Bool
was_ready not_started = false
was_ready starting = false
was_ready running = true
was_ready (exited ready) = ready

-- The wait group counts the worker.
abbrev pub is_alive : Pc → Bool
is_alive not_started = false
is_alive starting = true
is_alive running = true
is_alive (exited ready) = false

abbrev pub is_exited : Pc → Bool
is_exited not_started = false
is_exited starting = false
is_exited running = false
is_exited (exited ready) = true

-- Start, with `n` workers
pub data Step (n : ℕ) (s : System) : System → Type 0 where
  -- `wg.Add(1)` and the goroutine
  launch :
      (i : ℕ)
      → s.phase ≡ launching i
      → i < n
      → Step n s (record s { pc = set_pc s.pc i starting; phase = awaiting i })
  all_launched : s.phase ≡ launching n → Step n s (record s { phase = announcing })
  -- the worker sends on `innerReady`, and the `select` receives
  became_ready :
      (i : ℕ)
      → s.phase ≡ awaiting i
      → s.pc i ≡ starting
      → Step n s (record s { pc = set_pc s.pc i running; phase = launching (suc i) })
  worker_timed_out :
      (i : ℕ) → s.phase ≡ awaiting i → Step n s (record s { cancelled = true; phase = announcing })
  context_done :
      (i : ℕ)
      → s.phase ≡ awaiting i
      → s.cancelled ≡ true
      → Step n s (record s { phase = announcing })
  announce : s.phase ≡ announcing → Step n s (record s { phase = watching })
  watched : s.phase ≡ watching → s.cancelled ≡ true → Step n s (record s { phase = joining })
  joined :
      s.phase ≡ joining
      → ((j : ℕ) → is_alive (s.pc j) ≡ false)
      → Step n s (record s { phase = returned true })
  join_timed_out : s.phase ≡ joining → Step n s (record s { phase = returned false })
  -- a worker returns, and its deferred `cancel` runs
  exit :
      (j : ℕ)
      → is_alive (s.pc j) ≡ true
      → Step n s (record s { pc = set_pc s.pc j (exited (was_ready (s.pc j))); cancelled = true })
  -- the context of the caller is canceled
  parent_done : Step n s (record s { cancelled = true })

abbrev pub init : System
init = record { pc = λ j. not_started; cancelled = false; phase = launching 0 }

pub data Reach (n : ℕ) : System → Type 0 where
  start : Reach n init
  later : {s t : System} → Reach n s → Step n s t → Reach n t
