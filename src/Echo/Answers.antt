-- ===== src/Echo/Answers.antt =====
-- internal/echoapp/echoapp.go against the handlers of internal/rollup/rollup.go: what an advance takes
-- from the application in a round.
use cartesi_rollups_hl_graph.Base.{
  ◌≡◌, refl, true, false, some, [], ◌∷◌, ◌++◌, Text, AllBytes, length, ok, codes, text_eq,
}
use cartesi_rollups_hl_graph.External.{IsAddress, External}
use cartesi_rollups_hl_graph.Data.{AdvanceInput, ConvenienceVoucher, ConvenienceNotice, Report}
use cartesi_rollups_hl_graph.Http.{
  Others, json, respond, no_content, with_body, check_content_type, has_prefix, address_bytes,
}
use cartesi_rollups_hl_graph.Http.Outputs as Handlers
use cartesi_rollups_hl_graph.Http.Refusals.{add_voucher-send_back}
use cartesi_rollups_hl_graph.Http.Convert.{convert_input}
use cartesi_rollups_hl_graph.Http.Finish.{
  accepted_of, with_status, poll_sequencer, poll, polled, finish_retries,
}
use cartesi_rollups_hl_graph.Http.Finish as Finish
use cartesi_rollups_hl_graph.Rollup.State.{Advance, advance, NonodoModel}
use cartesi_rollups_hl_graph.Rollup.Operations.{advance_input, sequencer_finish_and_get_next}
use cartesi_rollups_hl_graph.Rollup.Operations
use cartesi_rollups_hl_graph.Rollup.Outputs
use cartesi_rollups_hl_graph.Echo.{
  accepted, handle_advance, handle_body, handle_response, echo_round,
}
use cartesi_rollups_hl_graph.Echo.Node.{posted, node}

-- The outputs that the application gives to an advance of the input `i`, as the advance keeps them; `n`
-- is what the node decodes the text of the payload with `ff` behind it to.
module _ ⦃x : External⦄ where
  abbrev pub echo_voucher : Advance → AdvanceInput → ConvenienceVoucher
  echo_voucher a i = record {
    destination = i.msg_sender;
    payload = x.bytes_to_hex i.payload;
    input_index = a.input.index;
    output_index = length a.vouchers;
    executed = false;
    app_contract = 0;
  }

  abbrev pub echo_notice : Advance → Text → ConvenienceNotice
  echo_notice a n = record {
    payload = x.bytes_to_hex n;
    input_index = a.input.index;
    output_index = length a.notices;
    app_contract = 0;
  }

abbrev pub echo_report : Advance → Text → Report
echo_report a payload = record {
  index = length a.reports;
  input_index = a.input.index;
  payload = payload;
  app_contract = 0;
}

abbrev pub in_advance : NonodoModel → Advance → NonodoModel
in_advance m a = record m { state = advance a }

module _ ⦃x : External⦄ where
  abbrev pub echoed : Advance → AdvanceInput → Text → Advance
  echoed a i n = record a {
    vouchers = a.vouchers ++ echo_voucher a i ∷ [];
    notices = a.notices ++ echo_notice a n ∷ [];
    reports = a.reports ++ echo_report a i.payload ∷ [];
  }

  add_notice-posted :
      (m : NonodoModel) (a : Advance) (p n : Text)
      → m.state ≡ advance a
      → x.hexutil_decode p ≡ some n
      → Handlers.add_notice (posted (record { payload = p })) m ≡ (
        ok (respond 200 (json (length a.notices))),
        in_advance m (record a { notices = a.notices ++ echo_notice a n ∷ [] }),
      )
  unfolding Handlers.add_notice Handlers.decoded_notice with_body check_content_type has_prefix
      Operations.add_notice Outputs.add_notice Outputs.add_notice_with_input
  add_notice-posted m a p n s d = rw (d, s) refl

  add_report-posted :
      (m : NonodoModel) (a : Advance) (p r : Text)
      → m.state ≡ advance a
      → x.hexutil_decode p ≡ some r
      → Handlers.add_report (posted (record { payload = p })) m ≡ (
        ok (respond 200 no_content),
        in_advance m (record a { reports = a.reports ++ echo_report a r ∷ [] }),
      )
  unfolding Handlers.add_report Handlers.decoded_report with_body check_content_type has_prefix
      Operations.add_report Outputs.add_report
  add_report-posted m a p r s d = rw (d, s) refl

  module _ (others : Others) (i : AdvanceInput) (n : Text) where
    handle_body-advance :
        (m : NonodoModel) (a : Advance)
        → m.state ≡ advance a
        → IsAddress i.msg_sender
        → AllBytes i.payload
        → x.hexutil_decode (x.hexutil_encode i.payload ++ codes "ff") ≡ some n
        → handle_body (node others) (json (convert_input (advance_input i))) m
          ≡ (ok tt, in_advance m (echoed a i n))
    unfolding handle_body handle_advance convert_input accepted
    handle_body-advance m a s address bytes d =
        let b : Advance = record a { vouchers = a.vouchers ++ echo_voucher a i ∷ [] } in
        let c : Advance = record b { notices = a.notices ++ echo_notice a n ∷ [] } in
        let given : Handlers.add_voucher
              (posted (record {
                destination = x.hexutil_encode (address_bytes i.msg_sender);
                payload = x.hexutil_encode i.payload;
              }))
              m
            ≡ (ok (respond 200 (json (length a.vouchers))), in_advance m b) =
          add_voucher-send_back m a i s address bytes in
        let noted =
          add_notice-posted (in_advance m b) b (x.hexutil_encode i.payload ++ codes "ff") n refl
            d in
        let told =
          add_report-posted (in_advance m c) c (x.hexutil_encode i.payload) i.payload refl
            (x.hexutil_round_trip i.payload bytes) in
        rw (given, noted, told) refl

    -- A round in which the node hands out the advance `i`: the request to /finish is answered by it, and
    -- the advance takes a voucher to its sender, a notice and a report.
    pub echo_round-advance :
        (m k : NonodoModel) (a : Advance)
        → sequencer_finish_and_get_next true m ≡ (ok (some (advance_input i)), k)
        → k.state ≡ advance a
        → IsAddress i.msg_sender
        → AllBytes i.payload
        → x.hexutil_decode (x.hexutil_encode i.payload ++ codes "ff") ≡ some n
        → echo_round (node others) m ≡ (ok tt, in_advance k (echoed a i n))
    unfolding echo_round handle_response Finish.finish with_status poll_sequencer poll polled
        with_body check_content_type has_prefix accepted_of text_eq
    echo_round-advance m k a next s address bytes d =
        rw (next, handle_body-advance k a s address bytes d) refl
