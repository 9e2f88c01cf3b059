-- ===== src/Rollup/Outputs.antt =====
-- internal/model/state.go: the outputs that the advance and the inspect state collect. The index of a
-- new output is the number of those before it.
use cartesi_rollups_hl_graph.Base.{
  ℕ, false, [], ◌∷◌, ◌++◌, Text, length, ok, err, idle_state, inspect_state, Exec,
}
use cartesi_rollups_hl_graph.External.{Address, External}
use cartesi_rollups_hl_graph.Data.{ConvenienceVoucher, ConvenienceNotice}
use cartesi_rollups_hl_graph.Rollup.State.{Advance, RollupsState, idle, advance, inspect}

module _ ⦃x : External⦄ where
  abbrev put_voucher : Advance → ConvenienceVoucher → Advance
  put_voucher a v = record a { vouchers = a.vouchers ++ v ∷ [] }

  abbrev put_notice : Advance → ConvenienceNotice → Advance
  put_notice a n = record a { notices = a.notices ++ n ∷ [] }

  unfoldable pub add_voucher_with_input : Address → Text → ℕ → Exec RollupsState ℕ
  add_voucher_with_input destination payload input_index idle = (err idle_state, idle)
  add_voucher_with_input destination payload input_index (inspect s) =
      (err inspect_state, inspect s)
  add_voucher_with_input destination payload input_index (advance a) = (
    ok (length a.vouchers),
    advance (
        put_voucher a (record {
          destination = destination;
          payload = x.bytes_to_hex payload;
          input_index = input_index;
          output_index = length a.vouchers;
          executed = false;
          app_contract = 0;
        })),
  )

  unfoldable pub add_notice_with_input : Text → ℕ → Exec RollupsState ℕ
  add_notice_with_input payload input_index idle = (err idle_state, idle)
  add_notice_with_input payload input_index (inspect s) = (err inspect_state, inspect s)
  add_notice_with_input payload input_index (advance a) = (
    ok (length a.notices),
    advance (
        put_notice a (record {
          payload = x.bytes_to_hex payload;
          input_index = input_index;
          output_index = length a.notices;
          app_contract = 0;
        })),
  )

-- The input of the state, which `addVoucher` and `addNotice` take the input index from.
abbrev pub current_index : RollupsState → ℕ
current_index (advance a) = a.input.index
current_index _ = 0

module _ ⦃x : External⦄ where
  unfoldable pub add_voucher : Address → Text → Exec RollupsState ℕ
  add_voucher destination payload s = add_voucher_with_input destination payload (current_index s) s

  unfoldable pub add_notice : Text → Exec RollupsState ℕ
  add_notice payload s = add_notice_with_input payload (current_index s) s

-- `addReport`
unfoldable pub add_report : Text → Exec RollupsState (Unit {0})
add_report payload idle = (err idle_state, idle)
add_report payload (advance a) = (
  ok tt,
  advance (record a {
    reports =
        a.reports
        ++ record {
          index = length a.reports;
          input_index = a.input.index;
          payload = payload;
          app_contract = 0;
        }
          ∷ [];
  }),
)
add_report payload (inspect s) = (
  ok tt,
  inspect (record s {
    reports =
        s.reports
        ++ record { index = length s.reports; input_index = s.index; payload = payload } ∷ [];
  }),
)
