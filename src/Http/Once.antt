-- ===== src/Http/Once.antt =====
-- internal/rollup/rollup.go: how often the handler of /finish polls, and how often it finishes.
use cartesi_rollups_hl_graph.Repository.Input.{find_by_status}
use cartesi_rollups_hl_graph.Data.{InspectInput, AdvanceInput, status_unprocessed}
use cartesi_rollups_hl_graph.Base.{
  ℕ, zero, suc, ◌+◌, ◌<◌, ◌≡◌, refl, Bool, Option, none, some, canceled, Error, Result, ok, err,
  Exec, proceed, ◌>>◌, arith, Option-cases, inl, inr, ◌⊎◌, >>=-eq-ok,
}
use cartesi_rollups_hl_graph.External.{External}
use cartesi_rollups_hl_graph.Http.{Response, Others, string, error_text, json, respond}
use cartesi_rollups_hl_graph.Http.Convert.{RollupRequest, convert_input}
use cartesi_rollups_hl_graph.Http.Finish.{poll, polled, pause, poll_sequencer, finish_retries}
use cartesi_rollups_hl_graph.Rollup.State.{NonodoModel, idle, finish, finish_state}
use cartesi_rollups_hl_graph.Rollup.Operations.{
  NextInput, get_next, start_inspect, start_advance, sequencer_finish_and_get_next, status_of,
  first_unprocessed, on_db,
}

-- The other components leave an idle model idle, as all but /finish and /exception do.
abbrev pub KeepsIdle : Others → Type 0
KeepsIdle others =
    (i : ℕ) (m n : NonodoModel) → m.state ≡ idle → others i m ≡ some n → n.state ≡ idle

-- `n` polls from the poll `i` on handed out nothing and led from `m` to `k`.
pub data Waited (next : Exec NonodoModel (Option NextInput)) (others : Others)
    : ℕ → ℕ → NonodoModel → NonodoModel → Type 0 where
  start : {i : ℕ} {m : NonodoModel} → Waited next others i 0 m m
  again :
      {i n : ℕ} {m p q k : NonodoModel}
      → next m ≡ (ok none, p)
      → others i p ≡ some q
      → Waited next others (suc i) n q k
      → Waited next others i (suc n) m k

module _ ⦃x : External⦄ where
  -- How the loop ends at the poll `i`, with the model `m`.
  pub data Ended (next : Exec NonodoModel (Option NextInput)) (others : Others) (i : ℕ)
      (m : NonodoModel) : Result (Response RollupRequest) × NonodoModel → Type 0 where
    failed : {e : Error} {p : NonodoModel} → next m ≡ (err e, p) → Ended next others i m (err e, p)
    handed :
        {input : NextInput} {p : NonodoModel}
        → next m ≡ (ok (some input), p)
        → Ended next others i m (ok (respond 200 (json (convert_input input))), p)
    gave_up :
        {p : NonodoModel}
        → next m ≡ (ok none, p)
        → others i p ≡ none
        → Ended next others i m (ok (respond 500 (error_text canceled)), p)

  -- The loop with `n` polls left: it makes them all, or ends at the poll behind `j` ones.
  abbrev pub Looped :
      Exec NonodoModel (Option NextInput)
      → Others
      → ℕ
      → ℕ
      → NonodoModel
      → Result (Response RollupRequest) × NonodoModel
      → Type 0
  Looped next others n i m r =
      ((k : NonodoModel) × Waited next others i n m k
        × (r ≡ (ok (respond 202 (string "no rollup request available")), k)))
      ⊎ ((j : ℕ) × (at : ℕ) × (k : NonodoModel) × (j < n)
          × (at ≡ i + j)
          × Waited next others i j m k
          × Ended next others at k r)

  module _ (next : Exec NonodoModel (Option NextInput)) (others : Others) where
    paused-Looped :
        (n i : ℕ) (m p : NonodoModel) (rest : Exec NonodoModel (Response RollupRequest))
        → ((q : NonodoModel) → Looped next others n (suc i) q (rest q))
        → next m ≡ (ok none, p)
        → (o : Option NonodoModel) → others i p ≡ o
        → Looped next others (suc n) i m (pause o p rest)
    paused-Looped n i m p rest ih h none e =
        inr (0, i, m, omega arith, omega arith, start, gave_up h e)
    paused-Looped n i m p rest ih h (some q) e = elim (ih q) [
      | inl (k, w, d) ↦ inl (k, again h e w, d)
      | inr (j, at, k, lt, at_d, w, d) ↦
          inr (suc j, at, k, omega arith, omega (arith, at_d), again h e w, d)
    ]

    step-Looped :
        (n i : ℕ) (m : NonodoModel) (rest : Exec NonodoModel (Response RollupRequest))
        → ((q : NonodoModel) → Looped next others n (suc i) q (rest q))
        → (r : Result (Option NextInput)) (p : NonodoModel) → next m ≡ (r, p)
        → Looped next others (suc n) i m (proceed r (polled others i rest) p)
    unfolding polled
    step-Looped n i m rest ih (err e) p h = inr (0, i, m, omega arith, omega arith, start, failed h)
    step-Looped n i m rest ih (ok (some input)) p h =
        inr (0, i, m, omega arith, omega arith, start, handed h)
    step-Looped n i m rest ih (ok none) p h = paused-Looped n i m p rest ih h (others i p) refl

    -- The loop of /finish ends with any sequencer. Either each of the `n` polls that are left handed out
    -- nothing and the request was not canceled, and the answer is 202; or fewer than `n` such polls were
    -- followed by one that ends the loop: by the sequencer's error, by 200 with the input that it hands
    -- out, or by 500 if the request is canceled behind it.
    pub poll-Looped :
        (n i : ℕ) (m : NonodoModel) → Looped next others n i m (poll next others n i m)
    unfolding poll
    poll-Looped zero i m = inl (m, start, refl)
    poll-Looped (suc n) i m =
        step-Looped n i m (poll next others n (suc i)) (poll-Looped n (suc i)) (next m).0 (next m).1
          refl

  start_advance-idle :
      (o : Option AdvanceInput) (m : NonodoModel)
      → (start_advance o m).0 ≡ ok none
      → (start_advance o m).1.state ≡ idle
  unfolding start_advance
  start_advance-idle none m h = refl
  start_advance-idle (some i) m h = cc

  start_inspect-idle :
      (o : Option (ℕ × InspectInput)) (m : NonodoModel)
      → (start_inspect o m).0 ≡ ok none
      → (start_inspect o m).1.state ≡ idle
  unfolding start_inspect
  start_inspect-idle (some (at, i)) m h = cc
  start_inspect-idle none m h =
      let (o, e, d, q) = >>=-eq-ok (on_db (find_by_status status_unprocessed)) start_advance m h in
      rw q (start_advance-idle o _ d)

  get_next-idle : (m : NonodoModel) → (get_next m).0 ≡ ok none → (get_next m).1.state ≡ idle
  unfolding get_next
  get_next-idle m = start_inspect-idle (first_unprocessed 0 m.inspects) m

  -- A sequencer that finds the model idle writes nothing.
  sequencer-idle :
      (accepted : Bool) (m : NonodoModel)
      → m.state ≡ idle
      → sequencer_finish_and_get_next accepted m ≡ get_next m
  unfolding sequencer_finish_and_get_next finish finish_state
  sequencer-idle accepted m h = rw h refl

  module _ (others : Others) (keeps : KeepsIdle others) where
    proceed-polled :
        (i : ℕ) (f g : Exec NonodoModel (Response RollupRequest))
        → ((q : NonodoModel) → q.state ≡ idle → f q ≡ g q)
        → (r : Result (Option NextInput)) (p : NonodoModel) → (r ≡ ok none → p.state ≡ idle)
        → proceed r (polled others i f) p ≡ proceed r (polled others i g) p
    unfolding polled
    proceed-polled i f g same (err e) p h = refl
    proceed-polled i f g same (ok (some input)) p h = refl
    proceed-polled i f g same (ok none) p h = elim (Option-cases (others i p)) [
      | inl e ↦ rw e refl
      | inr (q, e) ↦ rw e (same q (keeps i p q (h refl) e))
    ]

    poll-idle :
        (accepted : Bool) (n i : ℕ) (m : NonodoModel)
        → m.state ≡ idle
        → poll (sequencer_finish_and_get_next accepted) others n i m ≡ poll get_next others n i m
    unfolding poll
    poll-idle accepted zero i m h = refl
    poll-idle accepted (suc n) i m h = rw (sequencer-idle accepted m h) (
        proceed-polled i _ _ (poll-idle accepted n (suc i)) (get_next m).0 (get_next m).1
          (get_next-idle m))

    polls_once :
        (accepted : Bool) (n i : ℕ) (r : Result (Unit {0})) (m : NonodoModel)
        → proceed
            (proceed r (λ _. get_next) m).0
            (polled others i (poll (sequencer_finish_and_get_next accepted) others n (suc i)))
            (proceed r (λ _. get_next) m).1
          ≡ proceed r (λ _. poll get_next others (suc n) i) m
    unfolding poll
    polls_once accepted n i (err e) m = refl
    polls_once accepted n i (ok u) m =
        proceed-polled i _ _ (poll-idle accepted n (suc i)) (get_next m).0 (get_next m).1
          (get_next-idle m)

    -- If the other components leave an idle model idle, a request to /finish with the sequencer of the
    -- node, which asks it up to fifty times to finish and to hand out the next input, does what finishing
    -- the current input once and then polling for the next input alone does: the accept or reject is
    -- applied once, however many polls follow.
    pub poll_sequencer-once :
        (accepted : Bool) (m : NonodoModel)
        → poll_sequencer (some sequencer_finish_and_get_next) others accepted m
          ≡ (finish (status_of accepted) >> poll get_next others finish_retries 0) m
    unfolding poll_sequencer sequencer_finish_and_get_next poll
    poll_sequencer-once accepted m =
        polls_once accepted 49 0 (finish (status_of accepted) m).0 (finish (status_of accepted) m).1
