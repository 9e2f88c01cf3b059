-- ===== src/Reader/Conversions.antt =====
-- internal/reader/model/conversions.go and types.go: the nodes of the GraphQL schema.
use cartesi_rollups_hl_graph.Base.{
  ℕ, Bool, false, List, [], ◌∷◌, ◌++◌, Text, codes, decimal, ◌==◌, if◌then◌else◌, Result, ok, err,
  bind, invalid_status,
}
use cartesi_rollups_hl_graph.External.{External}
use cartesi_rollups_hl_graph.Data.{
  CompletionStatus, status_unprocessed, status_accepted, status_rejected, status_exception,
  ConvenienceVoucher, ConvenienceNotice, AdvanceInput, unix,
}
use cartesi_rollups_hl_graph.Data

pub data Status : Type 0 where
  unprocessed accepted rejected exception : Status

pub record Input : Type 0 where
  pub index : ℕ
  pub status : Status
  pub msg_sender : Text
  pub timestamp : Text
  pub block_number : Text
  pub payload : Text

pub record Voucher : Type 0 where
  pub index : ℕ
  pub input_index : ℕ
  pub destination : Text
  pub payload : Text
  pub executed : Bool

pub record Report : Type 0 where
  pub index : ℕ
  pub input_index : ℕ
  pub payload : Text

pub record Notice : Type 0 where
  pub index : ℕ
  pub input_index : ℕ
  pub payload : Text

unfoldable pub convert_completion_status : CompletionStatus → Result Status
convert_completion_status s =
    if s == status_unprocessed
    then ok unprocessed
    else if s == status_accepted
    then ok accepted
    else if s == status_rejected
    then ok rejected
    else if s == status_exception
    then ok exception
    else err invalid_status

-- The field `Executed` is left at its zero value.
module _ ⦃x : External⦄ where
  unfoldable pub convert_convenient_voucher_v1 : ConvenienceVoucher → Voucher
  convert_convenient_voucher_v1 v = record {
    index = v.output_index;
    input_index = v.input_index;
    destination = x.address_hex v.destination;
    payload = v.payload;
    executed = false;
  }

  unfoldable pub convert_input : AdvanceInput → Result Input
  convert_input i = bind (convert_completion_status i.status) λ s. ok (record {
    index = i.index;
    status = s;
    msg_sender = x.address_hex i.msg_sender;
    timestamp = decimal (unix i.block_timestamp);
    block_number = decimal i.block_number;
    payload = x.hexutil_encode i.payload;
  })

  -- `convertToReport` of adapter_v1.go
  unfoldable pub convert_to_report : Data.Report → Report
  convert_to_report r = record {
    index = r.index;
    input_index = r.input_index;
    payload = codes "0x" ++ x.bytes_to_hex r.payload;
  }

  -- The loop of `ConvertToInputConnectionV1`, which ends at the first error.
  unfoldable pub convert_inputs : List AdvanceInput → Result (List Input)
  convert_inputs [] = ok []
  convert_inputs (i ∷ is) = bind (convert_input i) λ n. bind (convert_inputs is) λ ns. ok (n ∷ ns)

unfoldable pub convert_convenient_notice_v1 : ConvenienceNotice → Notice
convert_convenient_notice_v1 n = record {
  index = n.output_index;
  input_index = n.input_index;
  payload = n.payload;
}
