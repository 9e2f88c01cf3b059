-- ===== src/Reader/Coherent.antt =====
-- internal/reader: what the resolvers may rely on, of whichever adapter: the outputs of an input are its
-- own, and what is asked for by an index has it.
use mathlib.Core.Path.{subst}
use mathlib.Core.Option
use cartesi_rollups_hl_graph.Data.{ConvenienceVoucher, AdvanceInput}
use cartesi_rollups_hl_graph.Base.{
  text_eq, codes, All-map, Result-cases, Bool-cases, inl, inr, lift, ℕ, ◌≡◌, refl, sym, ap, ◌∙◌,
  Option, none, some, List, Text, ℤ, Result, ok, ◌==◌, ◌>>=◌, pure, arith, All, select, take, drop,
  select-All, take-All, drop-All, map-All, >>=-eq-ok, find, find-eq-some,
}
use cartesi_rollups_hl_graph.External.{External}
use cartesi_rollups_hl_graph.Store.{Db, Tables, query}
use cartesi_rollups_hl_graph.Store.Table.{lookup}
use cartesi_rollups_hl_graph.Store.Table.Laws.{lookup-eq-some, key_eq_sound}
use cartesi_rollups_hl_graph.Store.Table.Order.{order_by-All}
use cartesi_rollups_hl_graph.Store.Reads.{query-eq-ok}
use cartesi_rollups_hl_graph.Repository.Voucher as Vouchers
use cartesi_rollups_hl_graph.Repository.Notice as Notices
use cartesi_rollups_hl_graph.Repository.Report as Reports
use cartesi_rollups_hl_graph.Repository.Input as Inputs
use cartesi_rollups_hl_graph.Reader.Connection.{Connection, nodes, nodes-new_connection}
use cartesi_rollups_hl_graph.Reader.Conversions.{
  Input, Voucher, Notice, convert_convenient_voucher_v1, convert_convenient_notice_v1,
  convert_to_report, convert_input, convert_completion_status,
}
use cartesi_rollups_hl_graph.Reader.Adapter as V1
use cartesi_rollups_hl_graph.Reader.AdapterV2.{ReportNode}
use cartesi_rollups_hl_graph.Reader.AdapterV2 as V2
use cartesi_rollups_hl_graph.Reader.Pages.{
  is_of, IsPage, get_vouchers-IsPage, get_notices-IsPage, get_reports-IsPage,
}
use cartesi_rollups_hl_graph.Reader.Schema.{Paged, Adapter, adapter_v1, adapter_v2, adapter_of}

-- What is listed under an input has its index.
abbrev pub IsListed : {T : Type 0} → (T → ℕ) → Paged (Option ℕ) T → Type 0
IsListed {T} input_of list =
    (first last : Option ℤ) (after before : Option Text) (i : ℕ) (db : Db) (c : Connection T)
    → (list first last after before (some i) db).0 ≡ ok c
    → All (λ v. input_of v ≡ i) (nodes c)

pub record IsCoherent {Proof : Type 0} (a : Adapter Proof) : Type 0 where
  pub vouchers_listed : IsListed (λ v. v.input_index) a.get_vouchers
  pub notices_listed : IsListed (λ n. n.input_index) a.get_notices
  pub reports_listed : IsListed (λ r. r.input_index) a.get_reports
  pub voucher_found :
      (j i : ℕ) (db : Db) {v : Voucher}
      → (a.get_voucher j i db).0 ≡ ok v
      → (v.index ≡ j) × (v.input_index ≡ i)
  pub notice_found :
      (j i : ℕ) (db : Db) {n : Notice}
      → (a.get_notice j i db).0 ≡ ok n
      → (n.index ≡ j) × (n.input_index ≡ i)
  pub input_found : (i : ℕ) (db : Db) {n : Input} → (a.get_input i db).0 ≡ ok n → n.index ≡ i

-- The nodes of a page of the rows of an input.
IsPage-All :
    {R T : Type 0} (first last : Option ℤ) (after before : Option Text) (rows : List R)
    (index : R → ℕ) (sorted : List R → List R) (node : R → T) (input_of : T → ℕ) (i : ℕ)
    {c : Connection T}
    → ((p : R → Type 0) (rs : List R) → All p rs → All p (sorted rs))
    → ((r : R) → input_of (node r) ≡ index r)
    → IsPage first last after before (select (λ r. is_of (some i) (index r)) rows) sorted node c
    → All (λ v. input_of v ≡ i) (nodes c)
IsPage-All first last after before rows index sorted node input_of i {c} keeps same
      (o, l, placed, e) =
    let mine = select (λ r. is_of (some i) (index r)) rows in
    let there : All (λ r. input_of (node r) ≡ i) (take l (drop o (sorted mine))) = take-All _ l _ (
      drop-All _ o _
        (keeps _ mine (All-map (λ r t. same r ∙ ground arith) mine (select-All _ rows)))) in
    subst (λ ns. All (λ v. input_of v ≡ i) ns) (sym (ap nodes e ∙ nodes-new_connection o _ _))
      (map-All (λ v. input_of v ≡ i) node _ there)

map-eq-some :
    {A B : Type 0} (f : A → B) (o : Option A) {b : B}
    → ok (Option.map f o) ≡ ok (some b)
    → (a : A) × (o ≡ some a) × (f a ≡ b)
map-eq-some f none h = absurd (grind arith)
map-eq-some f (some a) h = (a, refl, ground arith)

-- A row that a lookup returns.
looked_up :
    {R V : Type 0} (read : Tables → Option R) (convert : R → V) (db : Db) {v : V}
    → ((query (λ t. ok (read t)) >>= λ row. pure (Option.map convert row)) db).0 ≡ ok (some v)
    → (r : R) × (read db.committed ≡ some r) × (convert r ≡ v)
looked_up read convert db h =
    let (row, reads, made, _) = >>=-eq-ok (query (λ t. ok (read t))) _ db h in
    let (r, e, shown) = map-eq-some convert row made in
    let same : ok (read db.committed) ≡ ok row = query-eq-ok _ db reads in (r, ground arith, shown)

found-eq-ok : {A : Type 0} (o : Option A) {a : A} → V1.found o ≡ ok a → o ≡ some a
unfolding V1.found
found-eq-ok none h = cc
found-eq-ok (some b) h = ground arith

found_v2-eq-ok : {A : Type 0} (o : Option A) {a : A} → V2.found o ≡ ok a → o ≡ some a
unfolding V2.found
found_v2-eq-ok none h = cc
found_v2-eq-ok (some b) h = ground arith

ok-inj : {A : Type 0} {a b : A} → ok a ≡ ok b → a ≡ b
ok-inj h = ground arith

module _ ⦃x : External⦄ where
  vouchers-IsListed : IsListed (λ v. v.input_index) V1.get_vouchers
  unfolding convert_convenient_voucher_v1 Vouchers.convert_to_convenience_voucher
  vouchers-IsListed first last after before i db c h =
      IsPage-All first last after before db.committed.vouchers (λ r. r.input_index) Vouchers.sorted
        _ (λ v. v.input_index) i (λ p rs. order_by-All p _ rs) (λ r. refl)
        (get_vouchers-IsPage first last after before (some i) db h)

  notices-IsListed : IsListed (λ n. n.input_index) V1.get_notices
  unfolding convert_convenient_notice_v1 Notices.parse_notice
  notices-IsListed first last after before i db c h =
      IsPage-All first last after before db.committed.notices (λ r. r.input_index) Notices.sorted _
        (λ n. n.input_index) i (λ p rs. order_by-All p _ rs) (λ r. refl)
        (get_notices-IsPage first last after before (some i) db h)

  reports-IsListed : IsListed (λ r. r.input_index) V1.get_reports
  unfolding convert_to_report Reports.parse_report
  reports-IsListed first last after before i db c h =
      IsPage-All first last after before db.committed.reports (λ r. r.input_index) Reports.sorted _
        (λ r. r.input_index) i (λ p rs. order_by-All p _ rs) (λ r. refl)
        (get_reports-IsPage first last after before (some i) db h)

  found_voucher :
      (i j : ℕ) (db : Db) {v : ConvenienceVoucher}
      → (Vouchers.find_voucher_by_input_and_output_index i j db).0 ≡ ok (some v)
      → v.input_index ≡ i
  unfolding Vouchers.find_voucher_by_input_and_output_index Vouchers.convert_to_convenience_voucher
  found_voucher i j db h =
      let (r, e, shown) =
        looked_up (λ t. lookup Vouchers.row_key (i, j) t.vouchers)
          Vouchers.convert_to_convenience_voucher db h in
      let k = key_eq_sound _ _ (lookup-eq-some Vouchers.row_key (i, j) r db.committed.vouchers e) in
      ap (λ v. v.input_index) (sym shown) ∙ ap (λ k. k.0) k

  voucher_found_v1 :
      (j i : ℕ) (db : Db) {v : Voucher}
      → (V1.get_voucher j i db).0 ≡ ok v
      → (v.index ≡ j) × (v.input_index ≡ i)
  unfolding V1.get_voucher
  voucher_found_v1 j i db h =
      let (o, read, made, _) =
        >>=-eq-ok (Vouchers.find_voucher_by_input_and_output_index i j) _ db h in
      let (w, there, shown, _) = >>=-eq-ok (lift (V1.found o)) _ _ made in
      let e = found_voucher i j db (read ∙ ap ok (found-eq-ok o there)) in
      (ap (λ v. v.index) (sym (ok-inj shown)), ap (λ v. v.input_index) (sym (ok-inj shown)) ∙ e)

  notice_found_v1 :
      (j i : ℕ) (db : Db) {n : Notice}
      → (V1.get_notice j i db).0 ≡ ok n
      → (n.index ≡ j) × (n.input_index ≡ i)
  unfolding V1.get_notice
  notice_found_v1 j i db h =
      let (o, read, made, _) = >>=-eq-ok (Notices.find_by_input_and_output_index i j) _ db h in
      let (w, there, shown, _) = >>=-eq-ok (lift (V1.found o)) _ _ made in
      (ap (λ v. v.index) (sym (ok-inj shown)), ap (λ v. v.input_index) (sym (ok-inj shown)))

  convert_input-index : (i : AdvanceInput) {n : Input} → convert_input i ≡ ok n → n.index ≡ i.index
  unfolding convert_input
  convert_input-index i h = elim (Result-cases (convert_completion_status i.status)) [
    | inl (s, e) ↦ let k = rw e at h in ap (λ n. n.index) (sym (ok-inj k))
    | inr (r, e) ↦ let k = rw e at h in absurd (grind (arith, k))
  ]

  -- The input that is found has the index.
  found_input :
      (i : ℕ) (db : Db) {v : AdvanceInput}
      → (Inputs.find_by_index i db).0 ≡ ok (some v)
      → v.index ≡ i
  unfolding Inputs.find_by_index Inputs.parse_input
  found_input i db h =
      let (r, e, shown) =
        looked_up (λ t. find (λ r. r.index == i) t.inputs) Inputs.parse_input db h in
      let (same, _) = find-eq-some (λ r. r.index == i) db.committed.inputs r e in
      ap (λ v. v.index) (sym shown) ∙ ground arith

  input_found_v1 : (i : ℕ) (db : Db) {n : Input} → (V1.get_input i db).0 ≡ ok n → n.index ≡ i
  unfolding V1.get_input
  input_found_v1 i db h =
      let (o, read, made, _) = >>=-eq-ok (Inputs.find_by_index i) _ db h in
      let (w, there, shown, _) = >>=-eq-ok (lift (V1.found o)) _ _ made in
      convert_input-index w shown ∙ found_input i db (read ∙ ap ok (found-eq-ok o there))

  input_found_v2 : (i : ℕ) (db : Db) {n : Input} → (V2.get_input i db).0 ≡ ok n → n.index ≡ i
  unfolding V2.get_input V2.input_of V2.found V1.found
  input_found_v2 i db h =
      let (o, read, made, _) = >>=-eq-ok (Inputs.find_by_index i) _ db h in
      let (w, there, shown, _) = >>=-eq-ok (lift (V2.found o)) _ _ made in
      ap (λ n. n.index) (sym (ok-inj shown))
      ∙ found_input i db (read ∙ ap ok (found_v2-eq-ok o there))

  module _ {Proof : Type 0} where
    -- Of `AdapterV1`, and of `AdapterV2` whatever Graphile answers.
    adapter_v1-IsCoherent : IsCoherent {Proof = Proof} adapter_v1
    unfolding adapter_v1
    adapter_v1-IsCoherent = record {
      vouchers_listed = vouchers-IsListed;
      notices_listed = notices-IsListed;
      reports_listed = reports-IsListed;
      voucher_found = voucher_found_v1;
      notice_found = notice_found_v1;
      input_found = input_found_v1;
    }

    module _ (edges : ℕ → ℕ → Result (List ReportNode)) (proofs : ℕ → ℕ → Result Proof) where
      adapter_v2-IsCoherent : IsCoherent (adapter_v2 edges proofs)
      unfolding adapter_v2 V2.get_vouchers V2.get_notices V2.get_reports V2.get_voucher
          V2.get_notice V1.get_vouchers V1.get_notices V1.get_reports V1.get_voucher V1.get_notice
          V1.found V2.found
      adapter_v2-IsCoherent = record {
        vouchers_listed = vouchers-IsListed;
        notices_listed = notices-IsListed;
        reports_listed = reports-IsListed;
        voucher_found = voucher_found_v1;
        notice_found = notice_found_v1;
        input_found = input_found_v2;
      }

      pub adapter_of-IsCoherent : (version : Text) → IsCoherent (adapter_of version edges proofs)
      unfolding adapter_of
      adapter_of-IsCoherent version = elim (Bool-cases (text_eq version (codes "v1"))) [
        | inl e ↦ rw e adapter_v1-IsCoherent
        | inr e ↦ rw e adapter_v2-IsCoherent
      ]
