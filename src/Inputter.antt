-- ===== src/Inputter.antt =====
-- internal/sequencers/inputter/inputter.go: the worker that reads inputs from the chain and puts them into
-- the model. What the Ethereum client gives is a parameter, and the sessions that the worker goes
-- through are a list.
pub mod Watch
pub mod Merge
pub mod Keeps
use cartesi_rollups_hl_graph.Base.{
  ℕ, ◌+◌, ◌-◌, ◌*◌, ◌%◌, ◌^◌, Bool, true, false, Option, none, some, List, [], ◌∷◌, Text,
  slice_from, if◌then◌else◌, Error, Result, ok, err, bind, bad_blob, canceled, Exec, ◌>>=◌, ◌>>◌,
  pure, lift,
}
use cartesi_rollups_hl_graph.External.{External, EvmAdvance}
use cartesi_rollups_hl_graph.Rollup.State.{NonodoModel}
use cartesi_rollups_hl_graph.Rollup.Operations.{add_advance_input}

-- `InputBoxInputAdded`, with what the code reads of its log.
pub record InputAdded : Type 0 where
  pub index : ℕ
  pub input : Text
  pub block_number : ℕ
  pub block_hash : ℕ

pub record Client : Type 0 where
  -- the time of the header, in seconds
  pub header_by_hash : ℕ → Result ℕ
  -- the events of the application from a block on
  pub filter_input_added : ℕ → Result (List InputAdded)

-- The worker's block and the model that it shares.
pub record Worker : Type 0 where
  pub input_box_block : ℕ
  pub model : NonodoModel

-- `BlockNumber - 1` of type uint64
abbrev pub block_before : InputAdded → ℕ
block_before e = (e.block_number + 2 ^ 64 - 1) % 2 ^ 64

abbrev pub on_model : {A : Type 0} → Exec NonodoModel A → Exec Worker A
on_model f w = ((f w.model).0, record w { model = (f w.model).1 })

abbrev set_block : ℕ → Exec Worker (Unit {0})
set_block n w = (ok tt, record w { input_box_block = n })

module _ ⦃x : External⦄ (client : Client) where
  unpacked : Option EvmAdvance → Result EvmAdvance
  unpacked none = err bad_blob
  unpacked (some v) = ok v

  -- What addInput reads before it calls the model: the time and the values of the input.
  unfoldable pub read_input : InputAdded → Result (ℕ × EvmAdvance)
  unfolding unpacked slice_from
  read_input e = bind (client.header_by_hash e.block_hash) λ time.
      bind (slice_from 4 e.input) λ s. bind (unpacked (x.unpack_evm_advance s)) λ v. ok (time, v)

  -- addInput
  unfoldable pub add_input : InputAdded → Exec NonodoModel (Unit {0})
  add_input e = lift (read_input e) >>= λ (time, v).
      add_advance_input v.msg_sender v.payload e.block_number (time * 1000000000) e.index

  -- The loop of ReadPastInputs over the events.
  unfoldable pub read_events : List InputAdded → Exec Worker (Unit {0})
  read_events [] = pure tt
  read_events (e ∷ es) = set_block (block_before e) >> on_model (add_input e) >> read_events es

  unfoldable pub read_past_inputs : ℕ → Exec Worker (Unit {0})
  read_past_inputs start = lift (client.filter_input_added start) >>= read_events
