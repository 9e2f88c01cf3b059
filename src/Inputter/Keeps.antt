-- ===== src/Inputter/Keeps.antt =====
-- internal/sequencers/inputter/inputter.go: what stays stored while the worker goes through its sessions.
use cartesi_rollups_hl_graph.Base.{
  ℕ, ◌≡◌, refl, ◌∙◌, ap, some, List, [], ◌∷◌, Result, ok, err, Result-cases, inl, inr, proceed,
  Exec,
}
use cartesi_rollups_hl_graph.External.{External}
use cartesi_rollups_hl_graph.Store.{Tables, InputRow}
use cartesi_rollups_hl_graph.Rollup.State.{NonodoModel}
use cartesi_rollups_hl_graph.Inputter.{
  InputAdded, Client, Worker, block_before, read_input, add_input, read_events, read_past_inputs,
  on_model,
}
use cartesi_rollups_hl_graph.Inputter.Watch.{
  End, context_done, closed, broken, Session, Rest, Delivered, reconnect, end_session,
  delivered_one, deliver, after_delivery, subscribe, after_past, watch,
}
use cartesi_rollups_hl_graph.Inputter.Merge.{
  stored, insert_new, stored-insert_new, with_inputs, event_row, add_input-calm,
}

-- Every row that the first list finds by its index, the second one finds too.
abbrev pub Extends : List InputRow → List InputRow → Type 0
Extends rows later = (i : ℕ) (r : InputRow) → stored i rows ≡ some r → stored i later ≡ some r

insert_new-Extends : (row : InputRow) (rows : List InputRow) → Extends rows (insert_new row rows)
insert_new-Extends row rows i r e = stored-insert_new i row rows ∙ rw e refl

module _ (m : NonodoModel) (t : Tables) where
  -- The worker holds the model with inputs that extend the rows, and a calm database.
  abbrev pub Grown : List InputRow → Worker → Type 0
  Grown rows w = (later : List InputRow) × (w.model ≡ with_inputs m t later) × Extends rows later

  Grown-trans :
      (rows : List InputRow) (v w : Worker)
      → Grown rows v
      → ((later : List InputRow) → v.model ≡ with_inputs m t later → Grown later w)
      → Grown rows w
  Grown-trans rows v w (later, e, grown) f =
      let (last, q, more) = f later e in (last, q, λ i r h. more i r (grown i r h))

  proceed-Grown :
      {A B : Type 0} (rows : List InputRow) (r : Result A) (w : Worker) (f : A → Exec Worker B)
      → Grown rows w
      → ((a : A) (later : List InputRow) → w.model ≡ with_inputs m t later → Grown later (f a w).1)
      → Grown rows (proceed r f w).1
  proceed-Grown rows (err e) w f g next = g
  proceed-Grown rows (ok a) w f g next = Grown-trans rows w (f a w).1 g (next a)

module _ ⦃x : External⦄ (m : NonodoModel) (t : Tables) where
  add_input-Grown :
      (client : Client) (e : InputAdded) (w : Worker) (rows : List InputRow)
      → w.model ≡ with_inputs m t rows
      → Grown m t rows (on_model (add_input client e) w).1
  unfolding add_input
  add_input-Grown client e w rows h = elim (Result-cases (read_input client e)) [
    | inl (v, d) ↦
        let row : InputRow = event_row e v in
        (
          insert_new row rows,
          rw h (ap (λ c. c.1) (add_input-calm client e v m t rows d)),
          insert_new-Extends row rows,
        )
    | inr (f, d) ↦ rw (d, h) (rows, refl, λ i r k. k)
  ]

  read_events-Grown :
      (client : Client) (es : List InputAdded) (w : Worker) (rows : List InputRow)
      → w.model ≡ with_inputs m t rows
      → Grown m t rows (read_events client es w).1
  unfolding read_events
  read_events-Grown client [] w rows h = (rows, h, λ i r k. k)
  read_events-Grown client (e ∷ es) w rows h =
      let v : Worker = record w { input_box_block = block_before e } in
      let c = on_model (add_input client e) v in
      proceed-Grown m t rows c.0 c.1 (λ _. read_events client es)
        (add_input-Grown client e v rows h) (λ a later q. read_events-Grown client es c.1 later q)

  read_past_inputs-Grown :
      (client : Client) (start : ℕ) (w : Worker) (rows : List InputRow)
      → w.model ≡ with_inputs m t rows
      → Grown m t rows (read_past_inputs client start w).1
  unfolding read_past_inputs
  read_past_inputs-Grown client start w rows h =
      proceed-Grown m t rows (client.filter_input_added start) w (read_events client)
        (rows, h, λ i r k. k) (λ es later q. read_events-Grown client es w later q)

  delivered_one-Grown :
      (current : ℕ) (rest : Worker → Delivered) (rows : List InputRow) (r : Result (Unit {0}))
      (w : Worker)
      → Grown m t rows w
      → ((later : List InputRow) → w.model ≡ with_inputs m t later → Grown m t later (rest w).2)
      → Grown m t rows (delivered_one current rest (r, w)).2
  delivered_one-Grown current rest rows (err e) w g next = g
  delivered_one-Grown current rest rows (ok u) w g next = Grown-trans m t rows w (rest w).2 g next

  deliver-Grown :
      (client : Client) (es : List InputAdded) (current : ℕ) (w : Worker) (rows : List InputRow)
      → w.model ≡ with_inputs m t rows
      → Grown m t rows (deliver client es current w).2
  unfolding deliver
  deliver-Grown client [] current w rows h = (rows, h, λ i r k. k)
  deliver-Grown client (e ∷ es) current w rows h =
      let c = on_model (add_input client e) w in
      delivered_one-Grown (block_before e) (deliver client es (block_before e)) rows c.0 c.1
        (add_input-Grown client e w rows h)
        (λ later q. deliver-Grown client es (block_before e) c.1 later q)

  -- What follows keeps the inputs.
  abbrev RestGrows : Rest → Type 0
  RestGrows rest =
      (n : ℕ) (w : Worker) (rows : List InputRow)
      → w.model ≡ with_inputs m t rows
      → Grown m t rows (rest n w).1

  after_delivery-Grown :
      (ended : End) (d : Delivered) (rest : Rest) (rows : List InputRow)
      → RestGrows rest
      → Grown m t rows d.2
      → Grown m t rows (after_delivery ended d rest).1
  unfolding after_delivery reconnect end_session
  after_delivery-Grown context_done (n, err e, w) rest rows next g = g
  after_delivery-Grown context_done (n, ok u, w) rest rows next g = g
  after_delivery-Grown closed (n, err e, w) rest rows next g =
      Grown-trans m t rows w (rest n w).1 g (next n w)
  after_delivery-Grown closed (n, ok u, w) rest rows next g = g
  after_delivery-Grown (broken f) (n, err e, w) rest rows next g =
      Grown-trans m t rows w (rest n w).1 g (next n w)
  after_delivery-Grown (broken f) (n, ok u, w) rest rows next g =
      Grown-trans m t rows w (rest n w).1 g (next n w)

  subscribe-Grown :
      (s : Session) (current : ℕ) (w : Worker) (rest : Rest) (r : Result (Unit {0}))
      (rows : List InputRow)
      → RestGrows rest
      → w.model ≡ with_inputs m t rows
      → Grown m t rows (subscribe s current w rest r).1
  unfolding subscribe
  subscribe-Grown s current w rest (err e) rows next h = next current w rows h
  subscribe-Grown s current w rest (ok u) rows next h =
      after_delivery-Grown s.ended _ rest rows next
        (deliver-Grown s.client s.delivered current w rows h)

  after_past-Grown :
      (s : Session) (current : ℕ) (rest : Rest) (r : Result (Unit {0})) (w : Worker)
      (rows : List InputRow)
      → RestGrows rest
      → Grown m t rows w
      → Grown m t rows (after_past s current rest (r, w)).1
  unfolding after_past
  after_past-Grown s current rest (err e) w rows next g =
      Grown-trans m t rows w (rest current w).1 g (next current w)
  after_past-Grown s current rest (ok u) w rows next g =
      Grown-trans m t rows w (subscribe s current w rest s.subscribed).1 g
        (λ later q. subscribe-Grown s current w rest s.subscribed later next q)

  -- Through any sessions, with any events, whether they can be read or not, and in whichever way the
  -- sessions end: the worker changes nothing of the model but the inputs, and an index that had an input
  -- keeps it, where the database refuses no statement.
  pub watch-Grown :
      (ss : List Session) (current : ℕ) (w : Worker) (rows : List InputRow)
      → w.model ≡ with_inputs m t rows
      → Grown m t rows (watch ss current w).1
  unfolding watch
  watch-Grown [] current w rows h = (rows, h, λ i r k. k)
  watch-Grown (s ∷ ss) current w rows h =
      let c = read_past_inputs s.client current w in
      after_past-Grown s current (watch ss) c.0 c.1 rows (watch-Grown ss)
        (read_past_inputs-Grown s.client current w rows h)
