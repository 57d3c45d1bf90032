-- ===== src/Execution/Ports.antt =====
-- src/execution/ports.ts: what the coordinator asks of the venue, the fence, the journal and its other
-- sources, as functions on the state `W` of the world outside. An awaited call also gives what arrived on
-- the execution stream while it was pending; `none` is a rejected promise. The fence's own promise is
-- taken to resolve.
use multi_venue_grid_engine.Base.{Bool, Option, List, Text}
use multi_venue_grid_engine.Risk.Types.{RiskInput}
use multi_venue_grid_engine.Execution.Intents.{OrderIntent}
use multi_venue_grid_engine.Execution.RegistryState.{RegistryState}
use multi_venue_grid_engine.Execution.Observations.{ExchangeOrderObservation, ExecutionFacts}
use multi_venue_grid_engine.Execution.Screening.{ClientOrderLookup}

pub record ExecutionCursor : Type 0 where
  pub venue : Text
  pub market : Text
  pub opaque_position : Text
  pub last_execution_id : Option Text
  pub last_execution_time : Option Text

pub record ExecutionPage : Type 0 where
  pub executions : List ExecutionFacts
  pub next_cursor : ExecutionCursor
  pub has_more : Bool

pub record ExposureInputs : Type 0 where
  pub signed_position : Option Text
  pub mark_or_mid_price : Option Text

pub record OrderAck : Type 0 where
  pub intent_id : Text
  pub client_order_id : Option Text
  pub exchange_order_id : Text

pub record CancelRequest : Type 0 where
  pub scope_key : Text
  pub exchange_order_id : Text
  pub client_order_id : Option Text

pub record CancelAck : Type 0 where
  pub exchange_order_id : Text
  pub is_cancelled : Bool

-- `VenueWriteResult`; the last is a kind that the type does not name.
pub data VenueWriteResult (A : Type 0) : Type 0 where
  acknowledged : A → VenueWriteResult A
  venue_rejected : Option Text → VenueWriteResult A
  venue_unknown venue_not_sent unrecognized : VenueWriteResult A

-- `FenceResult`: not sent, sent with the callback's value, or unknown. A value of `none` is `null`.
pub data FenceResult (A : Type 0) : Type 0 where
  fence_not_sent : List Text → FenceResult A
  fence_sent : Option A → FenceResult A
  fence_unknown : List Text → FenceResult A

pub record HaltAuthorityView : Type 0 where
  pub durable_status : Text
  pub allow_risk_increase : Bool
  pub reason_codes : List Text

-- What can happen to the coordinator while it waits.
pub data Interruption : Type 0 where
  -- `ingestStreamExecution`, with the facts and the sequence that were read
  stream_execution : ExecutionFacts → Option Text → Interruption
  -- `executionStreamReconnected`
  stream_reconnected : Interruption

abbrev pub Awaited : Type 0 → Type 0 → Type 0
Awaited W A = W × List Interruption × A

pub record Ports (W : Type 0) : Type 0 where
  pub read_exposure : W → Awaited W (Option ExposureInputs)
  pub persist_journal : RegistryState → W → Awaited W Bool
  pub persist_checkpoint : ExecutionCursor → W → Awaited W Bool
  -- before the callback: the reasons not to invoke it, if there are any
  pub enter_fence : W → Awaited W (Option (List Text))
  -- after the callback: the reasons why its outcome is unknown, if it is
  pub leave_fence : W → Awaited W (Option (List Text))
  pub place_order : OrderIntent → W → Awaited W (Option (VenueWriteResult OrderAck))
  pub cancel_order : CancelRequest → W → Awaited W (Option (VenueWriteResult CancelAck))
  pub lookup_client_order : Text → W → Awaited W (Option ClientOrderLookup)
  pub list_open_orders : W → Awaited W (Option (List ExchangeOrderObservation))
  pub list_executions_since : Option ExecutionCursor → W → Awaited W (Option ExecutionPage)
  -- the account inputs, as the fields of a risk input that the coordinator does not set itself
  pub read_risk_inputs : W → Awaited W (Option RiskInput)
  pub inspect_halt : W → Awaited W (Option HaltAuthorityView)
