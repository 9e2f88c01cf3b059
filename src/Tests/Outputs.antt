-- ===== src/Tests/Outputs.antt =====
-- Runs of the service on one voucher, notice and report.
use cartesi_rollups_hl_graph.Base.{ℕ, ◌≡◌, refl, true, none, some, [], ◌∷◌, ok, text_eq, arith}
use cartesi_rollups_hl_graph.Data.{ConvenienceVoucher, ConvenienceNotice, Report}
use cartesi_rollups_hl_graph.Store.{calm, background}
use cartesi_rollups_hl_graph.Store.Table.{lookup}
use cartesi_rollups_hl_graph.Repository.Voucher
use cartesi_rollups_hl_graph.Service.{create_voucher}
use cartesi_rollups_hl_graph.Service.Upsert.{find-create_voucher}
use cartesi_rollups_hl_graph.Tests.World.{world, tables}

abbrev voucher : ℕ → ℕ → ConvenienceVoucher
voucher i o = record {
  destination = 8;
  payload = 4 ∷ [];
  input_index = i;
  output_index = o;
  executed = true;
  app_contract = 9;
}

abbrev notice : ConvenienceNotice
notice = record { payload = 4 ∷ []; input_index = 3; output_index = 1; app_contract = 9 }

abbrev report : Report
report = record { index = 1; input_index = 3; payload = 4 ∷ []; app_contract = 9 }

find-create_voucher_example :
    let c = create_voucher background (voucher 5 0) (calm tables none) in
    (c.0 ≡ ok (voucher 5 0))
    × ((Voucher.find_voucher_by_input_and_output_index 5 0 c.1).0 ≡ ok (some (voucher 5 0)))
unfolding lookup world text_eq
find-create_voucher_example =
    find-create_voucher (voucher 5 0) tables none refl refl (omega arith) (omega arith)
