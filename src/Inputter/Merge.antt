-- ===== src/Inputter/Merge.antt =====
-- internal/sequencers/inputter/inputter.go: what the worker stores, however often it reads the events.
use cartesi_rollups_hl_graph.Base.{
  ℕ, ◌*◌, ◌≡◌, refl, sym, ◌∙◌, ap, Bool, Option, none, some, List, [], ◌∷◌, ◌++◌, map, find, ◌==◌,
  Bool-cases, Option-cases, inl, inr, ok, All, arith,
}
use cartesi_rollups_hl_graph.External.{External, EvmAdvance}
use cartesi_rollups_hl_graph.Store.{Tables, InputRow, calm, query, exec}
use cartesi_rollups_hl_graph.Repository.Input as Inputs
use cartesi_rollups_hl_graph.Rollup.State.{NonodoModel}
use cartesi_rollups_hl_graph.Rollup.Operations.{add_advance_input, new_advance_input}
use cartesi_rollups_hl_graph.Inputter.{
  InputAdded, Client, Worker, block_before, read_input, add_input, read_events,
}

abbrev pub stored : ℕ → List InputRow → Option InputRow
stored i = find (λ r. r.index == i)

abbrev pub or_else {ℓ} : {A : Type ℓ} → Option A → Option A → Option A
or_else (some a) o = some a
or_else none o = o

abbrev insert_unless : Option InputRow → InputRow → List InputRow → List InputRow
insert_unless none row rows = rows ++ row ∷ []
insert_unless (some r) row rows = rows

-- A row whose index is taken is not stored.
abbrev pub insert_new : InputRow → List InputRow → List InputRow
insert_new row rows = insert_unless (stored row.index rows) row rows

find-append :
    {A : Type 0} (p : A → Bool) (xs ys : List A)
    → find p (xs ++ ys) ≡ or_else (find p xs) (find p ys)
find-append p [] ys = refl
find-append p (a ∷ xs) ys = ground (arith, find-append p xs ys)

-- A calm model with these inputs.
abbrev pub with_inputs : NonodoModel → Tables → List InputRow → NonodoModel
with_inputs m t rows = record m { db = calm (record t { inputs = rows }) none }

module _ ⦃x : External⦄ where
  -- The row of an event, of which `time` and `v` were read.
  abbrev pub event_row : InputAdded → ℕ × EvmAdvance → InputRow
  event_row e (time, v) =
      Inputs.to_row
        (new_advance_input v.msg_sender v.payload e.block_number (time * 1000000000) e.index)

  event_row-index : (e : InputAdded) (r : ℕ × EvmAdvance) → (event_row e r).index ≡ e.index
  unfolding Inputs.to_row new_advance_input
  event_row-index e (time, v) = refl

  pub add_input-calm :
      (client : Client) (e : InputAdded) (r : ℕ × EvmAdvance) (m : NonodoModel) (t : Tables)
      (rows : List InputRow)
      → read_input client e ≡ ok r
      → add_input client e (with_inputs m t rows)
        ≡ (ok tt, with_inputs m t (insert_new (event_row e r) rows))
  unfolding add_input add_advance_input Inputs.create Inputs.find_by_index Inputs.raw_create query
      exec Inputs.to_row new_advance_input
  add_input-calm client e (time, v) m t rows h = elim (Option-cases (stored e.index rows)) [
    | inl d ↦ rw (h, d) refl
    | inr (q, d) ↦ rw (h, d) refl
  ]

  -- The events with what was read of each.
  abbrev pub Read : Type 0
  Read = List (InputAdded × (ℕ × EvmAdvance))

  abbrev pub events : Read → List InputAdded
  events = map (λ p. p.0)

  abbrev pub rows_of : Read → List InputRow
  rows_of = map (λ p. event_row (p.0) (p.1))

  -- Each event was read so.
  abbrev pub IsRead : Client → Read → Type 0
  IsRead client = All (λ p. read_input client (p.0) ≡ ok (p.1))

  abbrev pub merged : Read → List InputRow → List InputRow
  merged [] rows = rows
  merged (p ∷ ps) rows = merged ps (insert_new (event_row (p.0) (p.1)) rows)

  read_events-merged :
      (client : Client) (ps : Read) (w : Worker) (m : NonodoModel) (t : Tables)
      (rows : List InputRow)
      → IsRead client ps
      → w.model ≡ with_inputs m t rows
      → (n : ℕ) × (read_events client (events ps) w
          ≡ (ok tt, record { input_box_block = n; model = with_inputs m t (merged ps rows) }))
  unfolding read_events
  read_events-merged client [] w m t rows h e = (w.input_box_block, rw (← e) refl)
  read_events-merged client (p ∷ ps) w m t rows (h, hs) e =
      let row : InputRow = event_row (p.0) (p.1) in
      let (n, q) =
        read_events-merged client ps
          (record {
            input_box_block = block_before (p.0);
            model = with_inputs m t (insert_new row rows);
          })
          m t (insert_new row rows) hs refl in
      (n, rw (e, add_input-calm client (p.0) (p.1) m t rows h) q)

or_else-none {ℓ} : {A : Type ℓ} (o : Option A) → or_else o none ≡ o
or_else-none none = refl
or_else-none (some a) = refl

or_else_assoc {ℓ} :
    {A : Type ℓ} (a b c : Option A) → or_else (or_else a b) c ≡ or_else a (or_else b c)
or_else_assoc none b c = refl
or_else_assoc (some a) b c = refl

pub stored-insert_new :
    (i : ℕ) (row : InputRow) (rows : List InputRow)
    → stored i (insert_new row rows) ≡ or_else (stored i rows) (stored i (row ∷ []))
stored-insert_new i row rows = elim (Option-cases (stored row.index rows)) [
  | inl e ↦ rw e (find-append (λ r. r.index == i) rows (row ∷ []))
  | inr (q, e) ↦ rw e (elim (Bool-cases (row.index == i)) [
    | inl f ↦
        let same : row.index ≡ i = ground arith in
        let there : stored i rows ≡ some q = cc (e, ap (λ n. stored n rows) same) in rw there refl
    | inr f ↦ rw f (sym (or_else-none (stored i rows)))
  ])
]

module _ ⦃x : External⦄ where
  -- An index has the row that it had, or else that of its first event.
  stored-merged :
      (i : ℕ) (ps : Read) (rows : List InputRow)
      → stored i (merged ps rows) ≡ or_else (stored i rows) (stored i (rows_of ps))
  stored-merged i [] rows = sym (or_else-none (stored i rows))
  stored-merged i (p ∷ ps) rows =
      let row : InputRow = event_row (p.0) (p.1) in
      stored-merged i ps (insert_new row rows)
      ∙ ap (λ o. or_else o (stored i (rows_of ps))) (stored-insert_new i row rows)
      ∙ or_else_assoc (stored i rows) (stored i (row ∷ [])) (stored i (rows_of ps))
      ∙ ap (λ o. or_else (stored i rows) o)
          (sym (find-append (λ r. r.index == i) (row ∷ []) (rows_of ps)))

  -- Every index of the events is taken.
  abbrev pub AllStored : List InputRow → Read → Type 0
  AllStored rows = All (λ p. (r : InputRow) × (stored (p.0.index) rows ≡ some r))

  merged_again : (ps : Read) (rows : List InputRow) → AllStored rows ps → merged ps rows ≡ rows
  merged_again [] rows h = refl
  merged_again (p ∷ ps) rows ((r, e), hs) =
      rw (event_row-index (p.0) (p.1), e) (merged_again ps rows hs)

  -- Where the database refuses no statement and every event can be read, `ReadPastInputs` stores them:
  -- afterwards each index has the input that it had before, or else that of its first event, and nothing
  -- else of the model is changed.
  pub read_events-stored :
      (client : Client) (ps : Read) (w : Worker) (m : NonodoModel) (t : Tables)
      (rows : List InputRow)
      → IsRead client ps
      → w.model ≡ with_inputs m t rows
      → (n : ℕ) × (later : List InputRow) × (read_events client (events ps) w
          ≡ (ok tt, record { input_box_block = n; model = with_inputs m t later }))
        × ((i : ℕ) → stored i later ≡ or_else (stored i rows) (stored i (rows_of ps)))
  read_events-stored client ps w m t rows h e =
      let (n, q) = read_events-merged client ps w m t rows h e in
      (n, merged ps rows, q, λ i. stored-merged i ps rows)

  -- Events whose indices are all stored, as those that a reconnect reads again, change nothing of the
  -- model.
  pub read_events_again :
      (client : Client) (ps : Read) (w : Worker) (m : NonodoModel) (t : Tables)
      (rows : List InputRow)
      → IsRead client ps
      → w.model ≡ with_inputs m t rows
      → AllStored rows ps
      → ((read_events client (events ps) w).0 ≡ ok tt)
        × ((read_events client (events ps) w).1.model ≡ w.model)
  read_events_again client ps w m t rows h e k =
      let (n, q) = read_events-merged client ps w m t rows h e in
      (
        ap (λ c. c.0) q,
        ap (λ c. c.1.model) q ∙ ap (with_inputs m t) (merged_again ps rows k) ∙ sym e,
      )
