-- ===== src/Http/Refusals.antt =====
-- internal/rollup/rollup.go: when the handlers of the outputs change the model, and to what.
use cartesi_rollups_hl_graph.Base.{
  ◌≡◌, refl, Bool, true, false, Option, none, some, ◌++◌, [], ◌∷◌, Text, AllBytes, length, ◌==◌,
  Bool-cases, inl, inr, ◌⊎◌, Result, ok, err, Exec, codes, proceed, ap, pure, if◌then◌else◌,
  bad_request,
}
use cartesi_rollups_hl_graph.External.{Address, IsAddress, External}
use cartesi_rollups_hl_graph.Data.{ConvenienceVoucher, AdvanceInput}
use cartesi_rollups_hl_graph.Http.{
  Request, Response, json, respond, with_body, with_bytes, check_content_type, address_of_bytes,
  address_bytes, string, has_prefix,
}
use cartesi_rollups_hl_graph.Http.Outputs.{
  VoucherRequest, PayloadRequest, answer, with_index, decoded_voucher, without_content,
}
use cartesi_rollups_hl_graph.Http.Outputs as Handlers
use cartesi_rollups_hl_graph.Http.Convert.{
  advance_state, convert_input, address_of_bytes-address_bytes, length-address_bytes,
  address_bytes-AllBytes, inspect_state,
}
use cartesi_rollups_hl_graph.Rollup.State.{
  Advance, RollupsState, idle, advance, inspect, NonodoModel,
}
use cartesi_rollups_hl_graph.Rollup.Operations.{advance_input, NextInput}
use cartesi_rollups_hl_graph.Rollup.Operations
use cartesi_rollups_hl_graph.Rollup.Outputs

-- The response has the status 200.
abbrev pub Succeeded : {B : Type 0} → Result (Response B) → Type 0
Succeeded {B} r = (c : Response B) × (r ≡ ok c) × (c.status ≡ 200)

-- A run that succeeded, or left the model as it was.
abbrev pub Settled : {B : Type 0} → NonodoModel → Result (Response B) × NonodoModel → Type 0
Settled m (r, n) = Succeeded r ⊎ (n ≡ m)

module _ {B : Type 0} where
  with_bytes-Settled :
      (o : Option Text) (handle : Text → Exec NonodoModel (Response B)) (m : NonodoModel)
      → ((s : Text) → Settled m (handle s m))
      → Settled m (with_bytes o handle m)
  with_bytes-Settled none handle m h = inr refl
  with_bytes-Settled (some s) handle m h = h s

module _ {A B : Type 0} where
  with_body-Settled :
      (r : Request A) (handle : A → Exec NonodoModel (Response B)) (m : NonodoModel)
      → ((a : A) → Settled m (handle a m))
      → Settled m (with_body r handle m)
  unfolding with_body
  with_body-Settled r handle m h = elim (Bool-cases (check_content_type r)) [
    | inl e ↦ rw e (bound r.body)
    | inr e ↦ rw e (inr refl)
  ]
    where
      bound : (b : Result A) → Settled m (proceed b handle m)
      bound (ok a) = h a
      bound (err e) = inr refl

-- An operation of the state that returns a value or leaves the state as it was.
abbrev Kept : {A : Type 0} → RollupsState → Result A × RollupsState → Type 0
Kept {A} s (r, t) = ((a : A) × (r ≡ ok a)) ⊎ (t ≡ s)

module _ {A B : Type 0} where
  answer-Settled :
      (reply : A → Response B)
      → ((a : A) → (reply a).status ≡ 200)
      → (m : NonodoModel) (r : Result A) (s : RollupsState) → Kept m.state (r, s)
      → Settled m (answer reply (r, record m { state = s }))
  answer-Settled reply good m (ok a) s h = inl (reply a, refl, good a)
  answer-Settled reply good m (err e) s (inl (a, d)) = cc
  answer-Settled reply good m (err e) s (inr d) = inr (ap (λ t. record m { state = t }) d)

module _ ⦃x : External⦄ where
  add_voucher-Kept :
      (destination : Address) (payload : Text) (s : RollupsState)
      → Kept s (Outputs.add_voucher destination payload s)
  unfolding Outputs.add_voucher Outputs.add_voucher_with_input
  add_voucher-Kept destination payload idle = inr refl
  add_voucher-Kept destination payload (inspect i) = inr refl
  add_voucher-Kept destination payload (advance a) = inl (_, refl)

  add_notice-Kept : (payload : Text) (s : RollupsState) → Kept s (Outputs.add_notice payload s)
  unfolding Outputs.add_notice Outputs.add_notice_with_input
  add_notice-Kept payload idle = inr refl
  add_notice-Kept payload (inspect i) = inr refl
  add_notice-Kept payload (advance a) = inl (_, refl)

add_report-Kept : (payload : Text) (s : RollupsState) → Kept s (Outputs.add_report payload s)
unfolding Outputs.add_report
add_report-Kept payload idle = inr refl
add_report-Kept payload (inspect i) = inl (_, refl)
add_report-Kept payload (advance a) = inl (_, refl)

module _ ⦃x : External⦄ where
  -- A request to /voucher, /notice or /report that is not answered by 200 leaves the model as it was,
  -- whatever its content type and its body are and in whichever state the model is.
  pub outputs-Settled :
      (m : NonodoModel) (v : Request VoucherRequest) (n r : Request PayloadRequest)
      → Settled m (Handlers.add_voucher v m)
        × Settled m (Handlers.add_notice n m)
        × Settled m (Handlers.add_report r m)
  unfolding Handlers.add_voucher Handlers.add_notice Handlers.add_report decoded_voucher
      Handlers.decoded_notice Handlers.decoded_report Operations.add_voucher Operations.add_notice
      Operations.add_report
  outputs-Settled m v n r = (
    with_body-Settled v _ m (λ b.
        with_bytes-Settled (x.hexutil_decode b.destination) _ m (λ d. sized b d (length d == 20))),
    with_body-Settled n _ m (λ b.
        with_bytes-Settled (x.hexutil_decode b.payload) _ m
          (λ p. answer-Settled with_index (λ i. refl) m _ _ (add_notice-Kept p m.state))),
    with_body-Settled r _ m (λ b.
        with_bytes-Settled (x.hexutil_decode b.payload) _ m
          (λ p. answer-Settled without_content (λ i. refl) m _ _ (add_report-Kept p m.state))),
  )
    where
      sized :
          (b : VoucherRequest) (d : Text) (c : Bool)
          → Settled m (
              (if c
                  then with_bytes (x.hexutil_decode b.payload) (λ payload n.
                    answer with_index (Operations.add_voucher (address_of_bytes d) payload n))
                  else pure (respond 400 (string "invalid address length")))
                m)
      sized b d true = with_bytes-Settled (x.hexutil_decode b.payload) _ m (λ p.
          answer-Settled with_index (λ i. refl) m _ _
            (add_voucher-Kept (address_of_bytes d) p m.state))
      sized b d false = inr refl

  -- The model after the advance `a` has taken a voucher.
  abbrev pub with_voucher : NonodoModel → Advance → ConvenienceVoucher → NonodoModel
  with_voucher m a v = record m { state = advance (record a { vouchers = a.vouchers ++ v ∷ [] }) }

  -- An application that answers an advance by a voucher to the sender: it posts what it reads of the
  -- metadata as the destination, and the payload back.
  abbrev pub send_back : NextInput → Request VoucherRequest
  send_back i = elim (convert_input i) [
    | advance_state d p ↦ record {
      content_type = codes "application/json";
      body = ok (record { destination = d.msg_sender; payload = p });
    }
    | inspect_state p ↦ record { content_type = []; body = err bad_request }
  ]

  -- What the application reads of an advance is what it may post: if it posts the sender and the payload
  -- that it was handed as a voucher, without a change of their text, the voucher that the advance takes
  -- has the sender of the input for its destination, and its payload, and the answer is the number of the
  -- vouchers before it.
  pub add_voucher-send_back :
      (m : NonodoModel) (a : Advance) (i : AdvanceInput)
      → m.state ≡ advance a
      → IsAddress i.msg_sender
      → AllBytes i.payload
      → Handlers.add_voucher (send_back (advance_input i)) m ≡ (
        ok (respond 200 (json (length a.vouchers))),
        with_voucher m a (record {
          destination = i.msg_sender;
          payload = x.bytes_to_hex i.payload;
          input_index = a.input.index;
          output_index = length a.vouchers;
          executed = false;
          app_contract = 0;
        }),
      )
  unfolding Handlers.add_voucher decoded_voucher convert_input with_body check_content_type
      has_prefix Operations.add_voucher Outputs.add_voucher Outputs.add_voucher_with_input
  add_voucher-send_back m a i e h b =
      rw
        (
          x.hexutil_round_trip (address_bytes i.msg_sender) (address_bytes-AllBytes i.msg_sender),
          length-address_bytes i.msg_sender,
          x.hexutil_round_trip i.payload b,
          address_of_bytes-address_bytes i.msg_sender h,
          e,
        )
        refl
