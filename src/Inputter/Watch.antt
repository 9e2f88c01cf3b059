-- ===== src/Inputter/Watch.antt =====
-- internal/sequencers/inputter/inputter.go: watchNewInputs, over the sessions that it goes through. A
-- session is one round of its loop: what the client gives in it, whether the subscription is made, the
-- events that it delivers, and how it ends. After the last session the worker is still running.
use cartesi_rollups_hl_graph.Base.{
  ℕ, Option, none, some, List, [], ◌∷◌, Error, Result, ok, err, canceled,
}
use cartesi_rollups_hl_graph.External.{External}
use cartesi_rollups_hl_graph.Inputter.{
  InputAdded, Client, Worker, block_before, on_model, add_input, read_past_inputs,
}

pub data End : Type 0 where
  context_done closed : End
  broken : Error → End

pub record Session : Type 0 where
  pub client : Client
  pub subscribed : Result (Unit {0})
  pub delivered : List InputAdded
  pub ended : End

-- The result of the worker, if it has returned.
abbrev pub Running : Type 0
Running = Option (Result (Unit {0})) × Worker

abbrev pub Rest : Type 0
Rest = ℕ → Worker → Running

-- What follows an error of the session: the next session, unless the context is done.
unfoldable pub reconnect : End → ℕ → Worker → Rest → Running
reconnect context_done current w rest = (some (err canceled), w)
reconnect closed current w rest = rest current w
reconnect (broken e) current w rest = rest current w

unfoldable pub end_session : End → ℕ → Worker → Rest → Running
end_session context_done current w rest = (some (err canceled), w)
end_session closed current w rest = (some (ok tt), w)
end_session (broken e) current w rest = rest current w

-- The block to go on from, and the error of the goroutine.
abbrev pub Delivered : Type 0
Delivered = ℕ × Result (Unit {0}) × Worker

abbrev pub delivered_one : ℕ → (Worker → Delivered) → Result (Unit {0}) × Worker → Delivered
delivered_one current rest (err e, w) = (current, err e, w)
delivered_one current rest (ok u, w) = rest w

module _ ⦃x : External⦄ where
  -- The goroutine that adds the delivered events.
  unfoldable pub deliver : Client → List InputAdded → ℕ → Worker → Delivered
  deliver client [] current w = (current, ok tt, w)
  deliver client (e ∷ es) current w =
      let rest = deliver client es (block_before e) in
      delivered_one (block_before e) rest (on_model (add_input client e) w)

  unfoldable pub after_delivery : End → Delivered → Rest → Running
  unfolding reconnect end_session
  after_delivery ended (current, err e, w) rest = reconnect ended current w rest
  after_delivery ended (current, ok u, w) rest = end_session ended current w rest

  unfoldable pub subscribe : Session → ℕ → Worker → Rest → Result (Unit {0}) → Running
  unfolding after_delivery deliver
  subscribe s current w rest (err e) = rest current w
  subscribe s current w rest (ok u) =
      after_delivery s.ended (deliver s.client s.delivered current w) rest

  unfoldable pub after_past : Session → ℕ → Rest → Result (Unit {0}) × Worker → Running
  unfolding subscribe
  after_past s current rest (err e, w) = rest current w
  after_past s current rest (ok u, w) = subscribe s current w rest s.subscribed

  -- The loop of watchNewInputs, at the block `current`.
  unfoldable pub watch : List Session → ℕ → Worker → Running
  watch [] current w = (none, w)
  watch (s ∷ ss) current w =
      let rest = watch ss in after_past s current rest (read_past_inputs s.client current w)

  -- Start, once the client is connected.
  unfoldable pub start : List Session → Worker → Running
  unfolding watch
  start sessions w = watch sessions w.input_box_block w
