-- ===== src/Echo/Stored.antt =====
-- internal/echoapp/echoapp.go, internal/model/state.go: what is stored when the node finishes an advance
-- that the application has answered.
use cartesi_rollups_hl_graph.Rollup.Operations.{advance_input, sequencer_finish_and_get_next}
use cartesi_rollups_hl_graph.Echo.Answers.{
  echo_voucher, echo_notice, echo_report, echo_round-advance,
}
use cartesi_rollups_hl_graph.Echo.Node.{node}
use cartesi_rollups_hl_graph.Echo.{echo_round}
use cartesi_rollups_hl_graph.Http.{Others}
use cartesi_rollups_hl_graph.Base.{
  ◌≡◌, refl, true, Option, none, some, [], ◌∷◌, ◌++◌, Text, AllBytes, find, ok, codes, ℕ, ◌==◌,
}
use cartesi_rollups_hl_graph.External.{IsAddress, External}
use cartesi_rollups_hl_graph.Data.{
  AdvanceInput, ConvenienceVoucher, ConvenienceNotice, Report, status_accepted,
}
use cartesi_rollups_hl_graph.Store.{Tables, calm, background, exec, for_each}
use cartesi_rollups_hl_graph.Store.Table.{lookup, update}
use cartesi_rollups_hl_graph.Store.Table.Laws.{insert_free}
use cartesi_rollups_hl_graph.Repository.Voucher
use cartesi_rollups_hl_graph.Repository.Notice
use cartesi_rollups_hl_graph.Repository.Report as Reports
use cartesi_rollups_hl_graph.Repository.Input
use cartesi_rollups_hl_graph.Service.Upsert.{create_voucher_first}
use cartesi_rollups_hl_graph.Service.Outputs.{create_notice_first}
use cartesi_rollups_hl_graph.Decoder.Selector.{
  voucher_with, notice_with, handle_output-voucher, handle_output-notice,
}
use cartesi_rollups_hl_graph.Rollup.State.{
  Advance, NonodoModel, send_voucher, send_all_input_vouchers_to_decoder, send_notice,
  send_all_input_notices_to_decoder, save_report, save_all_reports, finish_advance, finish,
  new_advance,
}

-- No output of the rollup is stored for the input with this index.
abbrev pub IsFresh : ⦃x : External⦄ → ℕ → Tables → Type 0
IsFresh i t =
    (find (Voucher.is_of_app i 0) t.vouchers ≡ none)
    × (lookup Voucher.row_key (i, 0) t.vouchers ≡ none)
    × (find (Notice.is_of_app i 0) t.notices ≡ none)
    × (lookup Notice.row_key (i, 0) t.notices ≡ none)
    × (lookup Reports.row_key (i, 0) t.reports ≡ none)

-- An advance with one output of each kind.
abbrev pub single : AdvanceInput → ConvenienceVoucher → ConvenienceNotice → Report → Advance
single i v n r = record { input = i; vouchers = v ∷ []; notices = n ∷ []; reports = r ∷ [] }

abbrev pub without_outputs : AdvanceInput → Advance
without_outputs i = record { input = i; vouchers = []; notices = []; reports = [] }

module _ ⦃x : External⦄ where
  -- The rows that the advance leaves.
  abbrev pub with_outputs :
      AdvanceInput → ConvenienceVoucher → ConvenienceNotice → Report → Tables → Tables
  with_outputs i v n r t = record t {
    vouchers =
        t.vouchers
        ++ Voucher.to_row (voucher_with v.destination v.payload v.input_index v.output_index) ∷ [];
    notices =
        t.notices ++ Notice.to_row (notice_with n.payload n.input_index n.output_index 0) ∷ [];
    reports = t.reports ++ Reports.to_row r ∷ [];
    inputs =
        update (λ b. b.index == i.index) (Input.conclude (record i { status = status_accepted }))
          t.inputs;
  }

  send_voucher-first :
      (v : ConvenienceVoucher) (t : Tables) (tx : Option Tables)
      → find (Voucher.is_of_app v.input_index 0) t.vouchers ≡ none
      → lookup Voucher.row_key (v.input_index, v.output_index) t.vouchers ≡ none
      → send_voucher v (calm t tx) ≡ (
        ok tt,
        calm
            (record t {
              vouchers =
                  t.vouchers
                  ++ Voucher.to_row
                      (voucher_with v.destination v.payload v.input_index v.output_index)
                    ∷ [];
            })
            tx,
      )
  unfolding send_voucher
  send_voucher-first v t tx first free =
      rw
        (
          handle_output-voucher background v.destination v.payload v.input_index v.output_index
              (calm t tx),
          create_voucher_first (voucher_with v.destination v.payload v.input_index v.output_index) t
              tx first free,
        )
        refl

  send_notice-first :
      (n : ConvenienceNotice) (t : Tables) (tx : Option Tables)
      → find (Notice.is_of_app n.input_index 0) t.notices ≡ none
      → lookup Notice.row_key (n.input_index, n.output_index) t.notices ≡ none
      → send_notice n (calm t tx) ≡ (
        ok tt,
        calm
            (record t {
              notices =
                  t.notices
                  ++ Notice.to_row (notice_with n.payload n.input_index n.output_index 0) ∷ [];
            })
            tx,
      )
  unfolding send_notice
  send_notice-first n t tx first free =
      rw
        (
          handle_output-notice background 0 n.payload n.input_index n.output_index (calm t tx),
          create_notice_first (notice_with n.payload n.input_index n.output_index 0) t tx first
              free,
        )
        refl

  save_report-first :
      (r : Report) (t : Tables) (tx : Option Tables)
      → lookup Reports.row_key (r.input_index, r.index) t.reports ≡ none
      → save_report r (calm t tx)
        ≡ (ok tt, calm (record t { reports = t.reports ++ Reports.to_row r ∷ [] }) tx)
  unfolding save_report Reports.create Reports.to_row exec
  save_report-first r t tx free = rw (insert_free Reports.row_key (Reports.to_row r) t.reports free)

  pub finish_advance-single :
      (i : AdvanceInput) (v : ConvenienceVoucher) (n : ConvenienceNotice) (r : Report) (t : Tables)
      (tx : Option Tables)
      → find (Voucher.is_of_app v.input_index 0) t.vouchers ≡ none
      → lookup Voucher.row_key (v.input_index, v.output_index) t.vouchers ≡ none
      → find (Notice.is_of_app n.input_index 0) t.notices ≡ none
      → lookup Notice.row_key (n.input_index, n.output_index) t.notices ≡ none
      → lookup Reports.row_key (r.input_index, r.index) t.reports ≡ none
      → finish_advance true true status_accepted (single i v n r) (calm t tx)
        ≡ (ok tt, calm (with_outputs i v n r t) tx)
  unfolding finish_advance send_all_input_vouchers_to_decoder send_all_input_notices_to_decoder
      save_all_reports for_each Input.update_input exec
  finish_advance-single i v n r t tx vf vk nf nk rk =
      let given = send_voucher-first v t tx vf vk in
      let t1 : Tables = record t {
        vouchers =
            t.vouchers
            ++ Voucher.to_row (voucher_with v.destination v.payload v.input_index v.output_index)
              ∷ [];
      } in
      let noted = send_notice-first n t1 tx nf nk in
      let t2 : Tables = record t1 {
        notices =
            t.notices ++ Notice.to_row (notice_with n.payload n.input_index n.output_index 0) ∷ [];
      } in
      let told = save_report-first r t2 tx rk in rw (given, noted, told) refl

  module _ (others : Others) (i : AdvanceInput) (n : Text) (m k : NonodoModel) where
    -- Where the engine refuses no statement, and no output of the rollup is stored for the input yet: once
    -- the node has handed the advance `i` to the application, has been answered by it, and finishes the
    -- advance as accepted, a voucher of the payload to the sender, a notice of the payload with `ff`
    -- behind it and a report of the payload are stored as the output 0 of the input, the input is marked
    -- as accepted, and nothing else of the tables is changed.
    pub echo_round-stored :
        (t : Tables) (tx : Option Tables)
        → sequencer_finish_and_get_next true m ≡ (ok (some (advance_input i)), k)
        → k.state ≡ new_advance i
        → k.db ≡ calm t tx
        → k.has_decoder ≡ true
        → k.has_reports ≡ true
        → IsFresh i.index t
        → IsAddress i.msg_sender
        → AllBytes i.payload
        → x.hexutil_decode (x.hexutil_encode i.payload ++ codes "ff") ≡ some n
        → let d = finish status_accepted (echo_round (node others) m).1 in
          (d.0 ≡ ok tt)
          × (d.1.db
              ≡ calm
                  (with_outputs i
                    (echo_voucher (without_outputs i) i)
                    (echo_notice (without_outputs i) n)
                    (echo_report (without_outputs i) i.payload)
                    t)
                  tx)
    unfolding finish new_advance
    echo_round-stored t tx next s db decoder reports (vf, vk, nf, nk, rk) address bytes d =
        let a = without_outputs i in
        let round = echo_round-advance others i n m k a next s address bytes d in
        let done =
          finish_advance-single i (echo_voucher a i) (echo_notice a n) (echo_report a i.payload) t
            tx vf vk nf nk rk in
        rw (round, decoder, reports, db, done) (refl, refl)
