-- ===== src/Synchronizer/Batch.antt =====
-- graphile_synchornizer.go: how the handling of a batch ends, and what a restart takes over.
use cartesi_rollups_hl_graph.Base.{
  ℕ, ◌≡◌, refl, sym, ap, ◌∙◌, true, false, none, some, List, [], ◌∷◌, ◌++◌, Text, Bool-cases, inl,
  inr, Result, ok, err, Error, db_fault, arith, Result-cases, >>=-eq-ok, Option-cases,
}
use cartesi_rollups_hl_graph.External.{External}
use cartesi_rollups_hl_graph.Data.{SynchronizerFetch}
use cartesi_rollups_hl_graph.Store.{
  Db, Tables, with_transaction, exec, start_transaction, commit, rollback, next_fault, later_faults,
  tick,
}
use cartesi_rollups_hl_graph.Repository.Synchronizer as Fetches
use cartesi_rollups_hl_graph.Synchronizer.{
  Cursors, OutputResponse, Synchronizing, end_cursor, has_more, synchronize_fetch, moved, resume,
  record_fetch, store_nodes, store_response, handle_graphile_response, close_transaction,
  handle_with_db_transaction, move_on, closed, move_to,
}
use cartesi_rollups_hl_graph.Synchronizer.Writes.{store_response-Keeps}

-- The database behind `Beginx`.
abbrev pub begun : Db → Db
begun db = record db { tx = some db.committed; faults = later_faults db.faults }

commit-eq-ok :
    (db : Db)
    → (commit db).0 ≡ ok tt
    → (db.tx ≡ some (commit db).1.committed) × ((commit db).1.tx ≡ none)
unfolding commit
commit-eq-ok db h = ground arith

commit-eq-err :
    (db : Db) {e : Error} → (commit db).0 ≡ err e → (commit db).1.committed ≡ db.committed
unfolding commit
commit-eq-err db h = ground arith

pub last-append :
    (fs : List SynchronizerFetch) (f : SynchronizerFetch) → Fetches.last (fs ++ f ∷ []) ≡ some f
unfolding Fetches.last
last-append [] f = refl
last-append (g ∷ []) f = refl
last-append (g ∷ h ∷ fs) f = last-append (h ∷ fs) f

record_fetch-last :
    (f : SynchronizerFetch) (d : Db) {t : Tables}
    → (record_fetch with_transaction true f d).0 ≡ ok tt
    → (record_fetch with_transaction true f d).1.tx ≡ some t
    → Fetches.last t.fetches ≡ some f
unfolding record_fetch Fetches.create exec
record_fetch-last f d h k = elim (Option-cases d.tx) [
  | inl e ↦ ground arith
  | inr (u, e) ↦ ground (arith, last-append u.fetches f)
]

move_to-end_cursor : (a b : Text) → end_cursor a b ≡ move_to (end_cursor a b) b
unfolding end_cursor move_to
move_to-end_cursor [] [] = refl
move_to-end_cursor [] (b ∷ bs) = refl
move_to-end_cursor (a ∷ rest) b = refl

resume-moved :
    (c c' : Cursors) (now : ℕ) (r : OutputResponse)
    → resume (some (synchronize_fetch c now r)) c' ≡ moved c (synchronize_fetch c now r)
unfolding resume moved synchronize_fetch
resume-moved c c' now r = cc (
  move_to-end_cursor r.outputs_end c.cursor_after,
  move_to-end_cursor r.inputs_end c.cursor_input_after,
  move_to-end_cursor r.reports_end c.cursor_report_after,
)

module _ ⦃x : External⦄ (now : ℕ) (r : OutputResponse) (s : Synchronizing) where
  -- What the batch leaves in the transaction.
  abbrev pub stored : Result (Unit {0}) × Db
  stored = store_response with_transaction s.cursors now r (begun s.db)

  abbrev pub later : Cursors
  later = moved s.cursors (synchronize_fetch s.cursors now r)

  handle_refused :
      next_fault s.db.faults ≡ true
      → handle_with_db_transaction now r s ≡ (err db_fault, record s { db = tick s.db })
  unfolding handle_with_db_transaction start_transaction
  handle_refused h = rw h

  handle_failed :
      {e : Error}
      → next_fault s.db.faults ≡ false
      → stored.0 ≡ err e
      → handle_with_db_transaction now r s ≡ (err e, record s { db = rollback stored.1 })
  unfolding handle_with_db_transaction start_transaction handle_graphile_response move_on
      close_transaction
  handle_failed h k = rw h (rw k refl)

  handle_stored :
      next_fault s.db.faults ≡ false
      → stored.0 ≡ ok tt
      → handle_with_db_transaction now r s ≡ closed later (commit stored.1)
  unfolding handle_with_db_transaction start_transaction handle_graphile_response move_on
      close_transaction
  handle_stored h k = rw h (rw k refl)

  stored-committed : stored.1.committed ≡ s.db.committed
  stored-committed = store_response-Keeps s.cursors now r (begun s.db)

  closed-err :
      (c : Cursors) (p : Result (Unit {0}) × Db) {e : Error}
      → (closed c p).0 ≡ err e
      → (p.0 ≡ err e) × ((closed c p).1.db.committed ≡ p.1.committed)
  unfolding closed rollback
  closed-err c (ok _, db) h = cc
  closed-err c (err e, db) h = (h, refl)

  closed-ok :
      (c : Cursors) (p : Result (Unit {0}) × Db)
      → (closed c p).0 ≡ ok tt
      → (p.0 ≡ ok tt) × ((closed c p).1 ≡ record { cursors = c; db = p.1 })
  unfolding closed
  closed-ok c (ok _, db) h = (refl, refl)
  closed-ok c (err e, db) h = cc

  -- Whatever fails, be it the start of the transaction, any output, input or report of the batch, any
  -- statement or the commit: a call that returns an error has left the committed tables as they were.
  pub handle_with_db_transaction_atomic :
      {e : Error}
      → (handle_with_db_transaction now r s).0 ≡ err e
      → (handle_with_db_transaction now r s).1.db.committed ≡ s.db.committed
  handle_with_db_transaction_atomic {e} h = elim (Bool-cases (next_fault s.db.faults)) [
    | inl refused ↦ rw (handle_refused refused) refl
    | inr started ↦ elim (Result-cases stored.0) [
      | inl (_, k) ↦
          let q = handle_stored started k in
          let f : (closed later (commit stored.1)).0 ≡ err e = ap (λ c. c.0) (sym q) ∙ h in
          let (failed, same) = closed-err later (commit stored.1) f in
          ap (λ c. c.1.db.committed) q ∙ same ∙ commit-eq-err stored.1 failed ∙ stored-committed
      | inr (_, k) ↦ rw (handle_failed started k) (unfold rollback in stored-committed)
    ]
  ]

  -- A call that returns no error has committed all that the statements of the batch wrote into the
  -- transaction, each of them without an error, and has moved the cursors.
  pub handle_with_db_transaction_stored :
      (handle_with_db_transaction now r s).0 ≡ ok tt
      → (stored.0 ≡ ok tt)
        × (stored.1.tx ≡ some (handle_with_db_transaction now r s).1.db.committed)
        × ((handle_with_db_transaction now r s).1.cursors ≡ later)
  handle_with_db_transaction_stored h = elim (Bool-cases (next_fault s.db.faults)) [
    | inl refused ↦ let f = ap (λ c. c.0) (handle_refused refused) in cc
    | inr started ↦ elim (Result-cases stored.0) [
      | inl (_, k) ↦
          let q = handle_stored started k in
          let (done, same) = closed-ok later (commit stored.1) (ap (λ c. c.0) (sym q) ∙ h) in
          let e = ap (λ c. c.1) q ∙ same in (k, rw e ((commit-eq-ok stored.1 done).0), rw e refl)
      | inr (_, k) ↦ let f = ap (λ c. c.0) (handle_failed started k) in cc
    ]
  ]

  -- After a call that returns no error, of a batch with at least one end cursor, a restart takes the
  -- cursors that the server had from the last fetch that is stored, whatever the cursors it starts with.
  pub resume-handle_with_db_transaction :
      (c : Cursors)
      → (handle_with_db_transaction now r s).0 ≡ ok tt
      → has_more r ≡ true
      → resume (Fetches.last (handle_with_db_transaction now r s).1.db.committed.fetches) c
        ≡ (handle_with_db_transaction now r s).1.cursors
  unfolding store_response
  resume-handle_with_db_transaction c h more =
      let (done, left, cursors) = handle_with_db_transaction_stored h in
      let (_, _, k, same) = >>=-eq-ok (store_nodes with_transaction r) _ (begun s.db) done in
      let f = synchronize_fetch s.cursors now r in
      let d = (store_nodes with_transaction r (begun s.db)).1 in
      let p : record_fetch with_transaction (has_more r) f d
          ≡ record_fetch with_transaction true f d =
        ap (λ b. record_fetch with_transaction b f d) more in
      let noted =
        record_fetch-last f d (ap (λ q. q.0) (sym p) ∙ k)
          (ap (λ q. q.1.tx) (sym p) ∙ ap (λ q. q.1.tx) (sym same) ∙ left) in
      ap (λ o. resume o c) noted ∙ resume-moved s.cursors c now r ∙ sym cursors

  -- If the commit is refused, the call returns the error and nothing of the batch is committed, but the
  -- cursors are moved behind the batch all the same.
  pub handle_with_db_transaction_skips :
      next_fault s.db.faults ≡ false
      → stored.0 ≡ ok tt
      → next_fault stored.1.faults ≡ true
      → let h = handle_with_db_transaction now r s in
        (h.0 ≡ err db_fault) × (h.1.db.committed ≡ s.db.committed) × (h.1.cursors ≡ later)
  unfolding closed commit rollback
  handle_with_db_transaction_skips started k refused =
      rw (handle_stored started k) (rw refused (refl, stored-committed, refl))
