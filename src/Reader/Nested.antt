-- ===== src/Reader/Nested.antt =====
-- internal/reader/reader.resolvers.go: a query that goes down from an input to its outputs and up again.
use cartesi_rollups_hl_graph.Base.{ℕ, ◌≡◌, ap, Option, List, Text, ℤ, Result, ok, All, All-map, ◌∙◌}
use cartesi_rollups_hl_graph.External.{External}
use cartesi_rollups_hl_graph.Store.{Db}
use cartesi_rollups_hl_graph.Reader.Connection.{Connection, nodes}
use cartesi_rollups_hl_graph.Reader.Conversions.{Input, Voucher, Report, Notice}
use cartesi_rollups_hl_graph.Reader.AdapterV2.{ReportNode}
use cartesi_rollups_hl_graph.Reader.Schema.{
  Adapter, adapter_of, input, vouchers_of_input, notices_of_input, reports_of_input,
  voucher_of_input, notice_of_input, input_of_voucher, input_of_notice, input_of_report,
}
use cartesi_rollups_hl_graph.Reader.Coherent.{IsCoherent, adapter_of-IsCoherent}

-- Of any adapter that keeps the laws.
module _ {Proof : Type 0} (a : Adapter Proof) (lawful : IsCoherent a) (i : ℕ) (n : Input) (db : Db)
    (asked : (input a i db).0 ≡ ok n) where
  same_input : (j : ℕ) (db : Db) → j ≡ n.index → a.get_input j db ≡ a.get_input i db
  unfolding input
  same_input j db e = ap (λ k. a.get_input k db) (e ∙ lawful.input_found i _ asked)

  module _ (first last : Option ℤ) (after before : Option Text) (db1 db2 : Db) where
    up_from_vouchers :
        (vs : Connection Voucher)
        → (vouchers_of_input a first last after before n db1).0 ≡ ok vs
        → All (λ v. input_of_voucher a v db2 ≡ input a i db2) (nodes vs)
    unfolding vouchers_of_input input_of_voucher input
    up_from_vouchers vs h =
        All-map (λ v e. same_input v.input_index db2 e) (nodes vs)
          (lawful.vouchers_listed first last after before n.index db1 vs h)

    up_from_notices :
        (ns : Connection Notice)
        → (notices_of_input a first last after before n db1).0 ≡ ok ns
        → All (λ v. input_of_notice a v db2 ≡ input a i db2) (nodes ns)
    unfolding notices_of_input input_of_notice input
    up_from_notices ns h =
        All-map (λ v e. same_input v.input_index db2 e) (nodes ns)
          (lawful.notices_listed first last after before n.index db1 ns h)

    up_from_reports :
        (rs : Connection Report)
        → (reports_of_input a first last after before n db1).0 ≡ ok rs
        → All (λ v. input_of_report a v db2 ≡ input a i db2) (nodes rs)
    unfolding reports_of_input input_of_report input
    up_from_reports rs h =
        All-map (λ v e. same_input v.input_index db2 e) (nodes rs)
          (lawful.reports_listed first last after before n.index db1 rs h)

  -- An output that is asked for by its index leads back too.
  up_from_voucher :
      (j : ℕ) (db1 db2 : Db) {v : Voucher}
      → (voucher_of_input a n j db1).0 ≡ ok v
      → input_of_voucher a v db2 ≡ input a i db2
  unfolding voucher_of_input input_of_voucher input
  up_from_voucher j db1 db2 {v} h =
      let (e, f) = lawful.voucher_found j n.index db1 h in same_input v.input_index db2 f

  up_from_notice :
      (j : ℕ) (db1 db2 : Db) {v : Notice}
      → (notice_of_input a n j db1).0 ≡ ok v
      → input_of_notice a v db2 ≡ input a i db2
  unfolding notice_of_input input_of_notice input
  up_from_notice j db1 db2 {v} h =
      let (e, f) = lawful.notice_found j n.index db1 h in same_input v.input_index db2 f

-- Whichever adapter the node's version chooses, and whatever Graphile answers and the database becomes
-- between the steps: if the query for an input, then those for the vouchers, notices and reports of the
-- input that it returned, and then those for one voucher and one notice of it, all answer, then the input
-- of each of these outputs is answered as the query for the input is.
pub nested-input :
    ⦃x : External⦄ {Proof : Type 0} (version : Text) (edges : ℕ → ℕ → Result (List ReportNode))
    (proofs : ℕ → ℕ → Result Proof) (i j : ℕ) (n : Input) (vs : Connection Voucher)
    (ns : Connection Notice) (rs : Connection Report) (v : Voucher) (o : Notice)
    (first last : Option ℤ) (after before : Option Text) (db db1 db2 : Db)
    → let a : Adapter Proof = adapter_of version edges proofs in
      (input a i db).0 ≡ ok n
      → (vouchers_of_input a first last after before n db1).0 ≡ ok vs
      → (notices_of_input a first last after before n db1).0 ≡ ok ns
      → (reports_of_input a first last after before n db1).0 ≡ ok rs
      → (voucher_of_input a n j db1).0 ≡ ok v
      → (notice_of_input a n j db1).0 ≡ ok o
      → All (λ v. input_of_voucher a v db2 ≡ input a i db2) (nodes vs)
        × All (λ m. input_of_notice a m db2 ≡ input a i db2) (nodes ns)
        × All (λ r. input_of_report a r db2 ≡ input a i db2) (nodes rs)
        × (input_of_voucher a v db2 ≡ input a i db2)
        × (input_of_notice a o db2 ≡ input a i db2)
nested-input version edges proofs i j n vs ns rs v o first last after before db db1 db2 h e f g k
      m =
    let a = adapter_of version edges proofs in
    let lawful = adapter_of-IsCoherent edges proofs version in
    (
      up_from_vouchers a lawful i n db h first last after before db1 db2 vs e,
      up_from_notices a lawful i n db h first last after before db1 db2 ns f,
      up_from_reports a lawful i n db h first last after before db1 db2 rs g,
      up_from_voucher a lawful i n db h j db1 db2 k,
      up_from_notice a lawful i n db h j db1 db2 m,
    )
