-- ===== src/Reader/Inputs.antt =====
-- internal/reader/adapter_v1.go and adapter_v2.go: what the queries for inputs return.
use cartesi_rollups_hl_graph.Base.{
  ℕ, ◌≡◌, refl, Bool, true, false, ◌&&◌, Option, none, some, List, Text, text_eq, ltb, map, ℤ, pos,
  Result, ok, err, ◌>>=◌, pure, lift, select, take, drop, length, ◌==◌, inl, inr, arith,
  invalid_status, not_found, decimal, Error, proceed, Bool-cases, ◌++◌,
}
use cartesi_rollups_hl_graph.External.{External}
use cartesi_rollups_hl_graph.Data.{
  CompletionStatus, AdvanceInput, unix, status_unprocessed, status_accepted, status_rejected,
  status_exception,
}
use cartesi_rollups_hl_graph.Store.{Db, Tables, InputRow, calm}
use cartesi_rollups_hl_graph.Pagination.{compute_page}
use cartesi_rollups_hl_graph.Repository.Query.{Where, transform, empty_where, compare_value}
use cartesi_rollups_hl_graph.Repository.Query.Meaning.{meets}
use cartesi_rollups_hl_graph.Repository.Query.Paging.{matching, select_cong}
use cartesi_rollups_hl_graph.Repository.Query.Answers.{find_all-calm}
use cartesi_rollups_hl_graph.Repository.Input as Inputs
use cartesi_rollups_hl_graph.Reader.Connection.{new_connection}
use cartesi_rollups_hl_graph.Reader.Conversions.{
  Input, Status, unprocessed, accepted, rejected, exception, convert_input, convert_inputs,
  convert_completion_status,
}
use cartesi_rollups_hl_graph.Reader.Adapter.{
  InputFilter, input_filters, greater_than, lower_than, from_sender, get_inputs, get_input, found,
}
use cartesi_rollups_hl_graph.Reader.AdapterV2

abbrev above : Option ℕ → ℕ → Bool
above none i = true
above (some a) i = ltb a i

abbrev below : Option ℕ → ℕ → Bool
below none i = true
below (some b) i = ltb i b

abbrev sent_by : Option Text → Text → Bool
sent_by none s = true
sent_by (some t) s = text_eq s t

-- The inputs that the argument `where` asks for. The sender is compared with the stored text.
abbrev pub wanted : Option InputFilter → InputRow → Bool
wanted none r = true
wanted (some w) r =
    above w.index_greater_than r.index
    && (below w.index_lower_than r.index && sent_by w.msg_sender r.msg_sender)

-- The stored status, and what the first and the second version show for it.
pub data Statuses : CompletionStatus → Status → Status → Type 0 where
  unprocessed_both :
      {s : CompletionStatus} → (s == status_unprocessed) ≡ true → Statuses s unprocessed unprocessed
  accepted_both :
      {s : CompletionStatus} → (s == status_accepted) ≡ true → Statuses s accepted accepted
  rejected_both :
      {s : CompletionStatus} → (s == status_rejected) ≡ true → Statuses s rejected rejected
  exception_rejected :
      {s : CompletionStatus} → (s == status_exception) ≡ true → Statuses s exception rejected

abbrev pub IsUnknown : CompletionStatus → Type 0
IsUnknown s =
    ((s == status_unprocessed) ≡ false)
    × ((s == status_accepted) ≡ false)
    × ((s == status_rejected) ≡ false)
    × ((s == status_exception) ≡ false)

module _ ⦃x : External⦄ where
  filters-transform :
      (g l : Option ℕ) (s : Option Text)
      → (w : Where) × (transform Inputs.comparison empty_where
            (greater_than g ++ (lower_than l ++ from_sender s))
          ≡ ok w)
  unfolding greater_than lower_than from_sender transform Inputs.comparison
  filters-transform none none none = (_, refl)
  filters-transform none none (some s) = (_, refl)
  filters-transform none (some l) none = (_, refl)
  filters-transform none (some l) (some s) = (_, refl)
  filters-transform (some g) none none = (_, refl)
  filters-transform (some g) none (some s) = (_, refl)
  filters-transform (some g) (some l) none = (_, refl)
  filters-transform (some g) (some l) (some s) = (_, refl)

  filters-meets :
      (g l : Option ℕ) (s : Option Text) (r : InputRow)
      → meets Inputs.value Inputs.comparison (greater_than g ++ (lower_than l ++ from_sender s)) r
        ≡ (above g r.index && (below l r.index && sent_by s r.msg_sender))
  unfolding greater_than lower_than from_sender meets Inputs.comparison compare_value
  filters-meets none none none r = refl
  filters-meets none none (some s) r = ground arith
  filters-meets none (some l) none r = rw (x.integer_lt_decimal r.index l) (ground arith)
  filters-meets none (some l) (some s) r = rw (x.integer_lt_decimal r.index l) (ground arith)
  filters-meets (some g) none none r = rw (x.integer_gt_decimal r.index g) (ground arith)
  filters-meets (some g) none (some s) r = rw (x.integer_gt_decimal r.index g) (ground arith)
  filters-meets (some g) (some l) none r =
      rw (x.integer_gt_decimal r.index g, x.integer_lt_decimal r.index l) (ground arith)
  filters-meets (some g) (some l) (some s) r =
      rw (x.integer_gt_decimal r.index g, x.integer_lt_decimal r.index l) (ground arith)

  input_filters-transform :
      (w : Option InputFilter)
      → (q : Where) × (transform Inputs.comparison empty_where (input_filters w) ≡ ok q)
  unfolding input_filters transform
  input_filters-transform none = (_, refl)
  input_filters-transform (some w) =
      filters-transform w.index_greater_than w.index_lower_than w.msg_sender

  input_filters-meets :
      (w : Option InputFilter) (r : InputRow)
      → meets Inputs.value Inputs.comparison (input_filters w) r ≡ wanted w r
  unfolding input_filters meets
  input_filters-meets none r = refl
  input_filters-meets (some w) r =
      filters-meets w.index_greater_than w.index_lower_than w.msg_sender r

  -- `GetInputs` of the first version answers: where the page arguments fit the number of the inputs that
  -- `where` asks for, every input of their page has a status that GraphQL knows, and the engine refuses
  -- no statement, it returns the page of those inputs, which are the ones behind, before and from what
  -- `where` names, in the order of their indices, and changes nothing.
  pub get_inputs-calm :
      (first last : Option ℤ) (after before : Option Text) (w : Option InputFilter) (t : Tables)
      (tx : Option Tables) (o l : ℕ) (ns : List Input)
      → let rows = select (wanted w) t.inputs in
        compute_page first last after before (length rows) ≡ ok (pos o, pos l)
        → convert_inputs (map Inputs.parse_input (take l (drop o (Inputs.sorted rows)))) ≡ ok ns
        → get_inputs first last after before w (calm t tx)
          ≡ (ok (new_connection o (length rows) ns), calm t tx)
  unfolding get_inputs Inputs.find_all
  get_inputs-calm first last after before w t tx o l ns h k =
      let (q, built) = input_filters-transform w in
      let s : matching (λ t. t.inputs) Inputs.value Inputs.comparison (input_filters w) t
          ≡ select (wanted w) t.inputs =
        select_cong _ (wanted w) t.inputs (input_filters-meets w) in
      rw
        (find_all-calm (λ t. t.inputs) Inputs.value Inputs.comparison Inputs.sorted
          Inputs.parse_input first last after before (input_filters w) t tx q o l built (rw s h))
        (rw (s, k) refl)

  abbrev node : AdvanceInput → Status → Text → Input
  node i s payload = record {
    index = i.index;
    status = s;
    msg_sender = x.address_hex i.msg_sender;
    timestamp = decimal (unix i.block_timestamp);
    block_number = decimal i.block_number;
    payload = payload;
  }

  -- What the adapters of the two versions make of the input that is read: the same error; or the same
  -- fields, but that only the first one encodes the payload, and with the two statuses of `Statuses`; or,
  -- for a status that GraphQL does not know, an error and an unprocessed input.
  pub data Agree : Result (Option AdvanceInput) → Result Input → Result Input → Type 0 where
    failed : {e : Error} → Agree (err e) (err e) (err e)
    absent : Agree (ok none) (err not_found) (err not_found)
    shown :
        {i : AdvanceInput} {s t : Status}
        → Statuses i.status s t
        → Agree (ok (some i)) (ok (node i s (x.hexutil_encode i.payload))) (ok (node i t i.payload))
    unknown :
        {i : AdvanceInput}
        → IsUnknown i.status
        → Agree (ok (some i)) (err invalid_status) (ok (node i unprocessed i.payload))

  convert-Agree :
      (i : AdvanceInput) → Agree (ok (some i)) (convert_input i) (ok (AdapterV2.input_of i))
  unfolding convert_input convert_completion_status AdapterV2.input_of
      AdapterV2.convert_completion_status_v2
  convert-Agree i = elim (Bool-cases (i.status == status_accepted)) [
    | inl e ↦
        let f : (i.status == status_unprocessed) ≡ false = ground arith in
        rw (f, e) (shown (accepted_both e))
    | inr not_1 ↦ elim (Bool-cases (i.status == status_rejected)) [
      | inl e ↦
          let f : (i.status == status_unprocessed) ≡ false = ground arith in
          rw (f, not_1, e) (shown (rejected_both e))
      | inr not_2 ↦ elim (Bool-cases (i.status == status_exception)) [
        | inl e ↦
            let f : (i.status == status_unprocessed) ≡ false = ground arith in
            rw (f, not_1, not_2, e) (shown (exception_rejected e))
        | inr not_3 ↦ elim (Bool-cases (i.status == status_unprocessed)) [
          | inl e ↦ rw (e, not_1, not_2, not_3) (shown (unprocessed_both e))
          | inr f ↦ rw (f, not_1, not_2, not_3) (unknown (f, not_1, not_2, not_3))
        ]
      ]
    ]
  ]

  answers-Agree :
      (r : Result (Option AdvanceInput)) (db : Db)
      → let first = proceed r (λ o. lift (found o) >>= λ i. lift (convert_input i)) db in
        let second =
          proceed r (λ o. lift (AdapterV2.found o) >>= λ i. pure (AdapterV2.input_of i)) db in
        Agree r first.0 second.0 × (first.1 ≡ second.1)
  unfolding found AdapterV2.found
  answers-Agree (err e) db = (failed, refl)
  answers-Agree (ok none) db = (absent, refl)
  answers-Agree (ok (some i)) db = (convert-Agree i, refl)

  -- `GetInput` of the two versions, on the same database: they leave it alike, and answer with the error
  -- of the lookup, or that there is no such input, or with the fields of the input that is stored, whose
  -- payload only the first one encodes. Both show an unprocessed, an accepted and a rejected input as
  -- such. The first one shows an exception as an exception and the second one as a rejection; for a
  -- status that GraphQL does not know, the first one fails and the second one shows the input as
  -- unprocessed.
  pub get_input-Agree :
      (index : ℕ) (db : Db)
      → Agree
          (Inputs.find_by_index index db).0
          (get_input index db).0
          (AdapterV2.get_input index db).0
        × ((get_input index db).1 ≡ (AdapterV2.get_input index db).1)
  unfolding get_input AdapterV2.get_input
  get_input-Agree index db =
      answers-Agree (Inputs.find_by_index index db).0 (Inputs.find_by_index index db).1
