-- ===== src/Http/Outputs.antt =====
-- internal/rollup/rollup.go: the handlers of /voucher, /notice, /report and /exception.
use cartesi_rollups_hl_graph.Base.{
  ℕ, Text, length, ◌==◌, if◌then◌else◌, Result, ok, err, Exec, pure,
}
use cartesi_rollups_hl_graph.External.{External}
use cartesi_rollups_hl_graph.Http.{
  Request, Response, string, error_text, json, no_content, respond, with_body, with_bytes,
  address_of_bytes,
}
use cartesi_rollups_hl_graph.Rollup.State.{NonodoModel}
use cartesi_rollups_hl_graph.Rollup.Operations

-- `AddVoucherJSONRequestBody`; the handler does not read its `Value`.
pub record VoucherRequest : Type 0 where
  pub destination : Text
  pub payload : Text

-- The bodies of the notice, the report and the exception.
pub record PayloadRequest : Type 0 where
  pub payload : Text

-- The response to what the model returned.
abbrev pub answer :
    {A B : Type 0} → (A → Response B) → Result A × NonodoModel → Result (Response B) × NonodoModel
answer reply (ok a, m) = (ok (reply a), m)
answer reply (err e, m) = (ok (respond 403 (error_text e)), m)

-- `IndexResponse`
abbrev pub with_index : ℕ → Response ℕ
with_index index = respond 200 (json index)

abbrev pub without_content : Unit {0} → Response (Unit {0})
without_content _ = respond 200 no_content

module _ ⦃x : External⦄ where
  unfoldable pub decoded_voucher : VoucherRequest → Exec NonodoModel (Response ℕ)
  decoded_voucher b = with_bytes (x.hexutil_decode b.destination) λ destination.
      if length destination == 20
      then with_bytes (x.hexutil_decode b.payload) (λ payload m.
        answer with_index (Operations.add_voucher (address_of_bytes destination) payload m))
      else pure (respond 400 (string "invalid address length"))

  unfoldable pub decoded_notice : PayloadRequest → Exec NonodoModel (Response ℕ)
  decoded_notice b =
      with_bytes (x.hexutil_decode b.payload)
        λ payload m. answer with_index (Operations.add_notice payload m)

  unfoldable pub decoded_report : PayloadRequest → Exec NonodoModel (Response (Unit {0}))
  decoded_report b =
      with_bytes (x.hexutil_decode b.payload)
        λ payload m. answer without_content (Operations.add_report payload m)

  unfoldable pub decoded_exception : PayloadRequest → Exec NonodoModel (Response (Unit {0}))
  decoded_exception b =
      with_bytes (x.hexutil_decode b.payload)
        λ payload m. answer without_content (Operations.register_exception payload m)

  -- AddVoucher, AddNotice, AddReport and RegisterException
  unfoldable pub add_voucher : Request VoucherRequest → Exec NonodoModel (Response ℕ)
  unfolding decoded_voucher with_body
  add_voucher r = with_body r decoded_voucher

  unfoldable pub add_notice : Request PayloadRequest → Exec NonodoModel (Response ℕ)
  unfolding decoded_notice with_body
  add_notice r = with_body r decoded_notice

  unfoldable pub add_report : Request PayloadRequest → Exec NonodoModel (Response (Unit {0}))
  unfolding decoded_report with_body
  add_report r = with_body r decoded_report

  unfoldable pub register_exception :
      Request PayloadRequest → Exec NonodoModel (Response (Unit {0}))
  unfolding decoded_exception with_body
  register_exception r = with_body r decoded_exception
