-- ===== src/Synchronizer/Restart.antt =====
-- synchronizer.go: a worker that is stopped between two fetches and started again.
use cartesi_rollups_hl_graph.Base.{
  if◌then◌else◌, pure, ◌≡◌, refl, sym, ap, ◌∙◌, true, false, Bool-cases, Option, none, some, List,
  [], ◌∷◌, ◌++◌, Text, inl, inr, Result, ok, err, db_fault, Exec, ◌>>◌, proceed, >>=-eq-ok, arith,
  ℕ,
}
use cartesi_rollups_hl_graph.External.{External}
use cartesi_rollups_hl_graph.Data.{SynchronizerFetch}
use cartesi_rollups_hl_graph.Store.{
  Db, background, query, exec, for_each, next_fault, later_faults, tick, write_committed,
}
use cartesi_rollups_hl_graph.Store.Keeps.{for_each-Keeps}
use cartesi_rollups_hl_graph.Repository.Synchronizer as Fetches
use cartesi_rollups_hl_graph.Synchronizer.{is_given}
use cartesi_rollups_hl_graph.Synchronizer.Batch.{last-append}
use cartesi_rollups_hl_graph.Synchronizer.Writes.{handle_output_v2-Keeps}
use cartesi_rollups_hl_graph.Synchronizer.Polling.{
  VoucherNode, output_data, VoucherPage, Round, VoucherWorker, fresh, on_db, page_fetch, note_page,
  note_cursor, take_over, take_cursor, store_node, handle_page, fetch_round, poll_rounds,
  voucher_polling, request,
}

abbrev cursor_of : Option SynchronizerFetch → Text
cursor_of none = []
cursor_of (some f) = f.end_cursor_after

proceed-append :
    {S : Type 0} (m n p : Exec S (Unit {0})) (o : Result (Unit {0})) (s : S)
    → ((t : S) → p t ≡ (m >> n) t)
    → proceed o (λ _. p) s ≡ proceed (proceed o (λ _. m) s).0 (λ _. n) (proceed o (λ _. m) s).1
proceed-append m n p (ok u) s h = h s
proceed-append m n p (err e) s h = refl

-- The cursor of the worker is the one of the last fetch that is stored.
abbrev IsNoted : VoucherWorker → Type 0
IsNoted w = cursor_of (Fetches.last w.db.committed.fetches) ≡ w.cursor_after

create-last :
    (f : SynchronizerFetch) (db : Db) {g : SynchronizerFetch}
    → (Fetches.create background f db).0 ≡ ok g
    → Fetches.last (Fetches.create background f db).1.committed.fetches ≡ some f
unfolding Fetches.create exec write_committed
create-last f db h = elim (Bool-cases (next_fault db.faults)) [
  | inl e ↦ ground arith
  | inr e ↦ ground (arith, last-append db.committed.fetches f)
]

note_cursor-IsNoted :
    (now : ℕ) (page : VoucherPage) (w : VoucherWorker)
    → (note_cursor now page w).0 ≡ ok tt
    → IsNoted (note_cursor now page w).1
unfolding note_cursor on_db page_fetch
note_cursor-IsNoted now page w h =
    let f = page_fetch now w.cursor_after page in
    let moved : VoucherWorker = record w { cursor_after = page.end_cursor } in
    let (g, k, _, same) =
      >>=-eq-ok (on_db (Fetches.create background f)) (λ _ v. (ok tt, v)) moved h in
    let noted = create-last f w.db k in rw same (ap cursor_of noted)

note_page-IsNoted :
    (now : ℕ) (page : VoucherPage) (w : VoucherWorker)
    → IsNoted w
    → (note_page now page w).0 ≡ ok tt
    → IsNoted (note_page now page w).1
unfolding note_page
note_page-IsNoted now page w n h =
    elim (is_given page.end_cursor)
        as (λ b.
          ((if b then note_cursor now page else pure tt) w).0 ≡ ok tt
          → IsNoted ((if b then note_cursor now page else pure tt) w).1) [
            | true ↦ note_cursor-IsNoted now page w
            | false ↦ λ _. n
          ]
      h

take_over-fresh :
    (db : Db)
    → next_fault db.faults ≡ false
    → take_over (fresh db) ≡ (
      ok tt,
      record { cursor_after = cursor_of (Fetches.last db.committed.fetches); db = tick db },
    )
unfolding take_over take_cursor Fetches.get_last_fetched query on_db
take_over-fresh db h = rw h (take_cursor-fresh (tick db) (Fetches.last db.committed.fetches))
  where
    take_cursor-fresh :
        (d : Db) (o : Option SynchronizerFetch)
        → take_cursor o (fresh d) ≡ (ok tt, record { cursor_after = cursor_of o; db = d })
    take_cursor-fresh d none = refl
    take_cursor-fresh d (some f) = refl

take_over-refused :
    (db : Db) → next_fault db.faults ≡ true → (take_over (fresh db)).0 ≡ err db_fault
unfolding take_over Fetches.get_last_fetched query on_db
take_over-refused db h = rw h refl

take_over-IsNoted : (db : Db) → (take_over (fresh db)).0 ≡ ok tt → IsNoted (take_over (fresh db)).1
take_over-IsNoted db h = elim (Bool-cases (next_fault db.faults)) [
  | inl refused ↦ let e = take_over-refused db refused in cc
  | inr given ↦ rw (take_over-fresh db given) refl
]

-- A new worker over a database that a worker has left, none of whose statements fails, is that worker.
take_over-left :
    (w : VoucherWorker) → IsNoted w → w.db.faults ≡ [] → take_over (fresh w.db) ≡ (ok tt, w)
take_over-left w n h =
    let given : next_fault w.db.faults ≡ false = rw h refl in
    let same : later_faults w.db.faults ≡ w.db.faults = ap later_faults h ∙ sym h in
    take_over-fresh w.db given
    ∙ ap (λ c. (ok tt, record { cursor_after = c; db = tick w.db })) n
    ∙ ap (λ fs. (ok tt, record w { db = record w.db { faults = fs } })) same

module _ ⦃x : External⦄ where
  store_nodes-Keeps :
      (ns : List VoucherNode) (db : Db)
      → (for_each store_node ns db).1.committed.fetches ≡ db.committed.fetches
  unfolding store_node
  store_nodes-Keeps ns =
      for_each-Keeps background store_node ns
        (λ n. handle_output_v2-Keeps background (output_data n))

  handle_page-IsNoted :
      (now : ℕ) (a : Result VoucherPage) (w : VoucherWorker)
      → IsNoted w
      → (handle_page now a w).0 ≡ ok tt
      → IsNoted (handle_page now a w).1
  unfolding handle_page on_db
  handle_page-IsNoted now (err e) w n h = n
  handle_page-IsNoted now (ok page) w n h =
      let stored = on_db (for_each store_node page.vouchers) in
      let (_, _, k, same) = >>=-eq-ok stored (λ _. note_page now page) w h in
      let kept : IsNoted (stored w).1 =
        ap (λ fs. cursor_of (Fetches.last fs)) (store_nodes-Keeps page.vouchers w.db) ∙ n in
      rw same (note_page-IsNoted now page (stored w).1 kept k)

  poll_rounds-IsNoted :
      (r : Round) (later : List Round) (w : VoucherWorker)
      → IsNoted w
      → (poll_rounds r later w).0 ≡ ok tt
      → IsNoted (poll_rounds r later w).1
  unfolding poll_rounds fetch_round
  poll_rounds-IsNoted r [] w n h =
      handle_page-IsNoted r.now (r.answer (request w.cursor_after)) w n h
  poll_rounds-IsNoted r (next ∷ later) w n h =
      let (_, j, k, same) = >>=-eq-ok (fetch_round r) (λ _. poll_rounds next later) w h in
      let step = handle_page-IsNoted r.now (r.answer (request w.cursor_after)) w n j in
      rw same (poll_rounds-IsNoted next later (fetch_round r w).1 step k)

  poll_rounds-append :
      (r : Round) (before : List Round) (a : Round) (after : List Round) (w : VoucherWorker)
      → poll_rounds r (before ++ a ∷ after) w ≡ (poll_rounds r before >> poll_rounds a after) w
  unfolding poll_rounds
  poll_rounds-append r [] a after w = refl
  poll_rounds-append r (b ∷ before) a after w =
      proceed-append _ _ _ (fetch_round r w).0 (fetch_round r w).1
        (poll_rounds-append b before a after)

  voucher_polling-IsNoted :
      (db : Db) (r : Round) (later : List Round)
      → (voucher_polling r later (fresh db)).0 ≡ ok tt
      → IsNoted (voucher_polling r later (fresh db)).1
  unfolding voucher_polling
  voucher_polling-IsNoted db r later h =
      let (_, j, k, same) = >>=-eq-ok take_over (λ _. poll_rounds r later) (fresh db) h in
      rw same (poll_rounds-IsNoted r later (take_over (fresh db)).1 (take_over-IsNoted db j) k)

  -- A worker that is stopped in the wait between two fetches, none of whose calls has returned an error
  -- until then, and started again as a new one with an empty cursor goes on as if it had not been
  -- stopped, if the database refuses no statement from then on: the same result, the same cursor and the
  -- same database, whatever the server answers to the requests.
  pub voucher_polling-restart :
      (db : Db) (b : Round) (before : List Round) (a : Round) (after : List Round)
      → (voucher_polling b before (fresh db)).0 ≡ ok tt
      → (voucher_polling b before (fresh db)).1.db.faults ≡ []
      → voucher_polling b (before ++ a ∷ after) (fresh db)
        ≡ voucher_polling a after (fresh (voucher_polling b before (fresh db)).1.db)
  unfolding voucher_polling
  voucher_polling-restart db b before a after h calm =
      let stopped = voucher_polling b before (fresh db) in
      let noted = voucher_polling-IsNoted db b before h in
      let again = take_over-left stopped.1 noted calm in
      proceed-append _ _ _ (take_over (fresh db)).0 (take_over (fresh db)).1
        (poll_rounds-append b before a after)
      ∙ ap (λ o. proceed o (λ _. poll_rounds a after) stopped.1) h
      ∙ sym (ap (λ q. proceed q.0 (λ _. poll_rounds a after) q.1) again)
