-- ===== src/Store/Reads.antt =====
-- A query changes no table, and returns what it reads of the committed tables.
use cartesi_rollups_hl_graph.Base.{◌≡◌, false, Result, ok, Bool-cases, inl, inr, arith}
use cartesi_rollups_hl_graph.Store.{Db, Tables, query, tick, next_fault}

module _ {A : Type 0} (f : Tables → Result A) (db : Db) where
  pub query-tick : (query f db).1 ≡ tick db
  unfolding query
  query-tick = elim (Bool-cases (next_fault db.faults)) [ inl e ↦ rw e | inr e ↦ rw e ]

  pub query-eq-ok : {a : A} → (query f db).0 ≡ ok a → f db.committed ≡ ok a
  unfolding query
  query-eq-ok h = elim (Bool-cases (next_fault db.faults)) [
    | inl e ↦ ground arith
    | inr e ↦ rw e at h
  ]

  -- Without a fault the query is its function.
  pub query_eq : next_fault db.faults ≡ false → query f db ≡ (f db.committed, tick db)
  unfolding query
  query_eq e = rw e
