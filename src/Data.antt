-- ===== src/Data.antt =====
-- internal/convenience/model/type.go and internal/model/types.go: the records that the components
-- exchange. Indices, block numbers and times are not negative. A time is in nanoseconds since the
-- epoch. Of a filter, the lists `In`, `Nin`, `And` and `Or` are left out: nothing below reads them.
use cartesi_rollups_hl_graph.Base.{ℕ, ◌/◌, Bool, List, Option, String, Text, ℤ}
use cartesi_rollups_hl_graph.External.{Address}

-- `CompletionStatus` is an `int` with four named values.
abbrev pub CompletionStatus : Type 0
CompletionStatus = ℕ

abbrev pub status_unprocessed : CompletionStatus
status_unprocessed = 0

abbrev pub status_accepted : CompletionStatus
status_accepted = 1

abbrev pub status_rejected : CompletionStatus
status_rejected = 2

abbrev pub status_exception : CompletionStatus
status_exception = 3

pub record ConvenienceNotice : Type 0 where
  pub payload : Text
  pub input_index : ℕ
  pub output_index : ℕ
  pub app_contract : Address

pub record ConvenienceVoucher : Type 0 where
  pub destination : Address
  pub payload : Text
  pub input_index : ℕ
  pub output_index : ℕ
  pub executed : Bool
  pub app_contract : Address

-- Each comparison is a nullable string.
pub record ConvenienceFilter : Type 0 where
  pub field : Option String
  pub eq : Option Text
  pub ne : Option Text
  pub gt : Option Text
  pub gte : Option Text
  pub lt : Option Text
  pub lte : Option Text

pub record SynchronizerFetch : Type 0 where
  pub timestamp_after : ℕ
  pub ini_cursor_after : Text
  pub log_vouchers_ids : Text
  pub end_cursor_after : Text
  pub ini_input_cursor_after : Text
  pub end_input_cursor_after : Text
  pub ini_report_cursor_after : Text
  pub end_report_cursor_after : Text

-- A report as it is stored.
pub record Report : Type 0 where
  pub index : ℕ
  pub input_index : ℕ
  pub payload : Text
  pub app_contract : Address

pub record AdvanceInput : Type 0 where
  pub index : ℕ
  pub status : CompletionStatus
  pub msg_sender : Address
  pub payload : Text
  pub block_number : ℕ
  pub block_timestamp : ℕ
  pub prev_randao : Text
  pub app_contract : Address
  pub vouchers : List ConvenienceVoucher
  pub notices : List ConvenienceNotice
  pub reports : List Report
  pub exception : Text

-- A report of an inspect, which is not stored.
pub record InspectReport : Type 0 where
  pub index : ℕ
  pub input_index : ℕ
  pub payload : Text

pub record InspectInput : Type 0 where
  pub index : ℕ
  pub status : CompletionStatus
  pub payload : Text
  pub processed_input_count : ℤ
  pub reports : List InspectReport
  pub exception : Text

pub record ProcessOutputData : Type 0 where
  pub output_index : ℕ
  pub input_index : ℕ
  pub payload : Text
  pub destination : Text

-- `time.Time.UnixMilli` and `Unix`, and the time that `time.UnixMilli` and `time.Unix` give.
abbrev pub unix_milli : ℕ → ℕ
unix_milli t = t / 1000000

abbrev pub unix : ℕ → ℕ
unix t = t / 1000000000
