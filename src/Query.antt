-- ===== src/Query.antt =====
-- crates/qcli-core/src/lib.rs: the query service and the handle of a query. A channel is the list of
-- what is still to be received from it; the sender is dropped at the end of the task, so the channel
-- closes after the last of it. How an adapter carries a query out is an `Execution`: what it sends on
-- either channel and its outcome. A task that panics is not modelled, and the id of a query is its
-- number, which the source writes in hexadecimal.
pub mod Draining
pub mod Ending
pub mod Outcome
pub mod Examples
use conflux_query.Base.{
  if◌then◌else◌, string_eq, ◌==◌, nat_eq, Result, ok, err, map_err, Exec, ℕ, zero, suc, ◌+◌, ◌%◌,
  String, Bool, true, false, Option, none, some, List, [], ◌∷◌, ◌++◌,
}
use conflux_query.Dict.{Dict, lookup}
use conflux_query.Driver.{
  QueryState, submitted, completed, cancelled, failed, QueryEvent, state_event, DriverError,
}
use conflux_query.Session.{SessionSnapshot, CoreError, adapter_not_found, driver}

pub record QueryRequest : Type 0 where
  pub qcli_query_id : ℕ
  pub session_id : String
  pub session_version : ℕ
  pub target : String
  pub engine : String
  pub sql : String
  pub properties : Dict String String

pub record Execution (B : Type 0) : Type 0 where
  pub events : List QueryEvent
  pub batches : List B
  pub outcome : Result DriverError (Unit {0})

pub record EngineAdapter (B : Type 0) : Type 0 where
  pub execute : QueryRequest → Execution B
  pub execute_prepared : QueryRequest → List B → Execution B

pub record QueryService (B : Type 0) : Type 0 where
  pub next_id : ℕ
  pub adapters : Dict String (EngineAdapter B)

pub record Channels (B : Type 0) : Type 0 where
  pub events_done : Bool
  pub batches_done : Bool
  pub events : List QueryEvent
  pub batches : List B

pub record QueryHandle (B : Type 0) : Type 0 where
  pub id : ℕ
  pub session_id : String
  pub session_version : ℕ
  pub channels : Channels B
  pub task : Result DriverError (Unit {0})

pub data QueryItem (B : Type 0) : Type 0 where
  event_item : QueryEvent → QueryItem B
  batch_item : B → QueryItem B

unfoldable pub final_state_of : Result DriverError (Unit {0}) → QueryState
final_state_of (ok _) = completed
final_state_of (err e) = if e.code == "cancelled" then cancelled else failed

-- What the task sends on the channel of events.
unfoldable pub sent_events : {B : Type 0} → Execution B → List QueryEvent
unfolding final_state_of
sent_events x = state_event submitted ∷ (x.events ++ (state_event (final_state_of x.outcome) ∷ []))

abbrev pub Received : Type 0 → Type 0
Received B = Option (QueryItem B) × Channels B

abbrev pub request_of : ℕ → SessionSnapshot → (sql : String) → QueryRequest
request_of id s sql = record {
  qcli_query_id = id;
  session_id = s.id;
  session_version = s.version;
  target = s.target;
  engine = s.engine;
  sql = sql;
  properties = s.properties;
}

module _ {B : Type 0} where
  abbrev pub channels : Bool → Bool → List QueryEvent → List B → Channels B
  channels events_done batches_done events batches = record {
    events_done = events_done;
    batches_done = batches_done;
    events = events;
    batches = batches;
  }

  abbrev pub executed : EngineAdapter B → QueryRequest → Option (List B) → Execution B
  executed adapter request none = adapter.execute request
  executed adapter request (some parameters) = adapter.execute_prepared request parameters

  abbrev pub handle_of : ℕ → SessionSnapshot → Execution B → QueryHandle B
  handle_of id s x = record {
    id = id;
    session_id = s.id;
    session_version = s.version;
    channels = channels false false (sent_events x) x.batches;
    task = x.outcome;
  }

  -- `AtomicU64::fetch_add` wraps.
  unfoldable pub submit_with_parameters :
      SessionSnapshot
      → (sql : String) → Option (List B)
      → Exec (QueryService B) CoreError (QueryHandle B)
  unfolding sent_events
  submit_with_parameters s sql parameters service = elim (lookup s.engine service.adapters) [
    | none ↦ (err (adapter_not_found s.engine), service)
    | some adapter ↦ (
      ok (
          handle_of service.next_id s
            (executed adapter (request_of service.next_id s sql) parameters)),
      record service { next_id = (service.next_id + 1) % 18446744073709551616 },
    )
  ]

  -- Rounds of the loop of `next_item`. Where both channels are open, `select!` takes any; `pick` says
  -- which in each round.
  unfoldable pub rounds :
      ℕ
      → (pick : ℕ → Bool) → (events_done batches_done : Bool) → List QueryEvent
      → List B
      → Received B
  rounds zero pick ed bd es bs = (none, channels ed bd es bs)
  rounds (suc n) pick true true es bs = (none, channels true true es bs)
  rounds (suc n) pick false true [] bs = rounds n pick true true [] bs
  rounds (suc n) pick false true (e ∷ es) bs = (some (event_item e), channels false true es bs)
  rounds (suc n) pick true false es [] = rounds n pick true true es []
  rounds (suc n) pick true false es (b ∷ bs) = (some (batch_item b), channels true false es bs)
  rounds (suc n) pick false false es bs =
      let closed_events = rounds n pick true false [] bs in
      let closed_batches = rounds n pick false true es [] in
      let from_events : Received B = elim es [
        | [] ↦ closed_events
        | e ∷ more ↦ (some (event_item e), channels false false more bs)
      ] in
      let from_batches : Received B = elim bs [
        | [] ↦ closed_batches
        | b ∷ more ↦ (some (batch_item b), channels false false es more)
      ] in
      if pick n then from_events else from_batches

  -- Two rounds can close the channels, and the third returns.
  unfoldable pub next_item : (pick : ℕ → Bool) → Channels B → Received B
  unfolding rounds
  next_item pick c = rounds 3 pick c.events_done c.batches_done c.events c.batches

  -- `finish`
  abbrev pub finish : QueryHandle B → Result CoreError (Unit {0})
  finish h = map_err driver h.task
