-- ===== src/Tests/Adapter.antt =====
-- Runs of the queries: the outputs of the input 3, with pages of five rows.
use cartesi_rollups_hl_graph.Base.{
  ◌≡◌, refl, some, none, [], ◌∷◌, ◌++◌, codes, decimal, pos, ok, arith, scan, false, map, take,
  drop,
}
use cartesi_rollups_hl_graph.Pagination.Bounds.{compute_page_first}
use cartesi_rollups_hl_graph.Store.{calm, query}
use cartesi_rollups_hl_graph.Store.Table.{order_by}
use cartesi_rollups_hl_graph.Repository.Query.{
  transform, all_hold, count, find_all, holds, argument, compare_value,
}
use cartesi_rollups_hl_graph.Repository.Voucher as Vouchers
use cartesi_rollups_hl_graph.Repository.Notice as Notices
use cartesi_rollups_hl_graph.Repository.Report as Reports
use cartesi_rollups_hl_graph.Reader.Connection.{Connection, new_connection}
use cartesi_rollups_hl_graph.Reader.Conversions.{
  Voucher, Report, Notice, convert_convenient_voucher_v1, convert_convenient_notice_v1,
  convert_to_report,
}
use cartesi_rollups_hl_graph.Reader.Adapter.{
  of_input, connection_of, get_vouchers, get_notices, get_reports,
}
use cartesi_rollups_hl_graph.Reader.Answers.{get_vouchers-calm}
use cartesi_rollups_hl_graph.Reader.Resolver
use cartesi_rollups_hl_graph.Reader.Executed.{executed_eq, vouchers-executed_eq}
use cartesi_rollups_hl_graph.Store.{Tables}
use cartesi_rollups_hl_graph.Store.Table.{lookup}
use cartesi_rollups_hl_graph.Base.{text_eq, All}
use cartesi_rollups_hl_graph.Repository.Input as Inputs
use cartesi_rollups_hl_graph.Reader.Conversions.{
  Input, accepted, convert_input, convert_completion_status,
}
use cartesi_rollups_hl_graph.Reader.Adapter.{found, get_input, get_voucher, get_notice}
use cartesi_rollups_hl_graph.Reader.Connection.{nodes}
use cartesi_rollups_hl_graph.Reader.Schema.{
  Adapter, adapter_v1, adapter_of, input, vouchers_of_input, notices_of_input, reports_of_input,
  voucher_of_input, notice_of_input, input_of_voucher, input_of_notice, input_of_report,
}
use cartesi_rollups_hl_graph.Reader.Nested.{nested-input}
use cartesi_rollups_hl_graph.Tests.World.{world, tables, input_row}

abbrev vouchers : Connection Voucher
vouchers = new_connection 0 1 (
    record { index = 0; input_index = 3; destination = 7 ∷ []; payload = 1 ∷ []; executed = false }
    ∷ [])

gets_vouchers :
    (get_vouchers (some (pos 5)) none none none (some 3) (calm tables none)).0 ≡ ok vouchers
unfolding get_vouchers Vouchers.find_all_vouchers of_input Vouchers.comparison find_all count
    transform query all_hold holds argument compare_value order_by world scan decimal connection_of
    convert_convenient_voucher_v1 Vouchers.convert_to_convenience_voucher
gets_vouchers = rw ((compute_page_first 5 0 1 (omega arith) (omega arith)).0) refl

abbrev notices : Connection Notice
notices = new_connection 0 1 (record { index = 0; input_index = 3; payload = 1 ∷ [] } ∷ [])

gets_notices :
    (get_notices (some (pos 5)) none none none (some 3) (calm tables none)).0 ≡ ok notices
unfolding get_notices Notices.find_all_notices of_input Notices.comparison find_all count transform
    query all_hold holds argument compare_value order_by world scan decimal connection_of
    convert_convenient_notice_v1 Notices.parse_notice
gets_notices = rw ((compute_page_first 5 0 1 (omega arith) (omega arith)).0) refl

abbrev reports : Connection Report
reports =
    new_connection 0 1 (record { index = 0; input_index = 3; payload = codes "0x" ++ 1 ∷ [] } ∷ [])

gets_reports :
    (get_reports (some (pos 5)) none none none (some 3) (calm tables none)).0 ≡ ok reports
unfolding get_reports Reports.find_all_by_input_index Reports.find_all Reports.input_index_filter
    Reports.comparison find_all count transform query all_hold holds argument compare_value order_by
    world scan decimal connection_of convert_to_report Reports.parse_report
gets_reports = rw ((compute_page_first 5 0 1 (omega arith) (omega arith)).0) refl

get_vouchers-calm_example :
    get_vouchers (some (pos 5)) none none none (some 3) (calm tables none) ≡ (
      ok (
          new_connection 0 1 (
            map
              (λ r. convert_convenient_voucher_v1 (Vouchers.convert_to_convenience_voucher r))
              (take 1 (drop 0 (Vouchers.sorted tables.vouchers))))),
      calm tables none,
    )
get_vouchers-calm_example =
    get_vouchers-calm (some (pos 5)) none none none (some 3) tables none 0 1
      ((compute_page_first 5 0 1 (omega arith) (omega arith)).0)

vouchers-executed_eq_example :
    Resolver.vouchers (some (pos 5)) none none none (executed_eq false) (calm tables none) ≡ (
      ok (
          new_connection 0 1 (
            map
              (λ r. convert_convenient_voucher_v1 (Vouchers.convert_to_convenience_voucher r))
              (take 1 (drop 0 (Vouchers.sorted tables.vouchers))))),
      calm tables none,
    )
vouchers-executed_eq_example =
    vouchers-executed_eq (some (pos 5)) none none none false tables none 0 1
      ((compute_page_first 5 0 1 (omega arith) (omega arith)).0)

-- The input 3, accepted.
abbrev third : Input
third = record {
  index = 3;
  status = accepted;
  msg_sender = 5 ∷ [];
  timestamp = codes "0";
  block_number = codes "1";
  payload = 6 ∷ [];
}

abbrev with_third : Tables
with_third = record tables { inputs = input_row 3 1 ∷ [] }

abbrev schema : Adapter (Unit {0})
schema = adapter_of (codes "v1") (λ j i. ok []) (λ i j. ok tt)

answers_input : (input schema 3 (calm with_third none)).0 ≡ ok third
unfolding input adapter_of adapter_v1 text_eq get_input found query convert_input
    convert_completion_status Inputs.find_by_index Inputs.parse_input decimal world
answers_input = refl

abbrev voucher : Voucher
voucher = record {
  index = 0;
  input_index = 3;
  destination = 7 ∷ [];
  payload = 1 ∷ [];
  executed = false;
}

abbrev notice : Notice
notice = record { index = 0; input_index = 3; payload = 1 ∷ [] }

answers_voucher : (voucher_of_input schema third 0 (calm tables none)).0 ≡ ok voucher
unfolding voucher_of_input adapter_of adapter_v1 text_eq get_voucher found query lookup
    Vouchers.find_voucher_by_input_and_output_index Vouchers.convert_to_convenience_voucher world
answers_voucher = refl

answers_notice : (notice_of_input schema third 0 (calm tables none)).0 ≡ ok notice
unfolding notice_of_input adapter_of adapter_v1 text_eq get_notice found query lookup
    Notices.find_by_input_and_output_index Notices.parse_notice world
answers_notice = refl

nested-input_example :
    All
      (λ v. input_of_voucher schema v (calm tables none) ≡ input schema 3 (calm tables none))
      (nodes vouchers)
    × All
        (λ m. input_of_notice schema m (calm tables none) ≡ input schema 3 (calm tables none))
        (nodes notices)
    × All
        (λ r. input_of_report schema r (calm tables none) ≡ input schema 3 (calm tables none))
        (nodes reports)
    × (input_of_voucher schema voucher (calm tables none) ≡ input schema 3 (calm tables none))
    × (input_of_notice schema notice (calm tables none) ≡ input schema 3 (calm tables none))
unfolding vouchers_of_input notices_of_input reports_of_input adapter_of adapter_v1 text_eq
nested-input_example =
    nested-input (codes "v1") (λ j i. ok []) (λ i j. ok tt) 3 0 third vouchers notices reports
      voucher notice (some (pos 5)) none none none (calm with_third none) (calm tables none)
      (calm tables none) answers_input gets_vouchers gets_notices gets_reports answers_voucher
      answers_notice
