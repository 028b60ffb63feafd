-- ===== src/Record.antt =====
-- crates/qcli-service/src/lib.rs: the record of a query: its status, its events, and what happens
-- to it while the query runs. The text of a state, as `state_name` spells it, is read as the state
-- itself. A service event's name and its JSON object are one `Payload`. The broadcast of events to
-- subscribers is not modelled, the list of events that they read from is.
pub mod Events
pub mod Collect
pub mod Keeping
pub mod Running
pub mod Redacted
pub mod Endings
pub mod Examples
use conflux_query.Base.{
  if◌then◌else◌, ℕ, ◌+◌, ◌%◌, String, Bool, true, false, Option, none, some, List, [], ◌∷◌, ◌++◌,
}
use conflux_query.Dict.{Dict}
use conflux_query.Driver.{
  QueryState, submitted, completed, cancelled, failed, QueryProgress, QueryEvent, state_event,
  engine_query_id, rows_produced, progress, session_properties,
}
use conflux_query.Redaction.{redacted}
use conflux_query.Results.{memory, QueryError, Retained}

pub data Payload : Type 0 where
  state_changed : QueryState → Payload
  engine_id : String → Payload
  rows_seen : ℕ → Payload
  progress_made : QueryProgress → Payload
  properties_set : Dict String String → Payload

pub record ServiceEvent : Type 0 where
  pub id : ℕ
  pub payload : Payload
  pub terminal : Bool

pub record QueryData (B X : Type 0) : Type 0 where
  pub state : QueryState
  pub engine_query_id : Option String
  pub retained : Retained B X
  pub events : List ServiceEvent
  pub next_event_id : ℕ
  pub error : Option QueryError
  pub completed_at : Option ℕ

pub record QueryRecord (B X : Type 0) : Type 0 where
  pub id : String
  pub owner : String
  pub session_id : String
  pub session_version : ℕ
  pub target : String
  pub engine : String
  pub cancel : Bool
  pub details : QueryData B X

pub record QueryStatus : Type 0 where
  pub id : String
  pub session_id : String
  pub session_version : ℕ
  pub target : String
  pub engine : String
  pub engine_query_id : Option String
  pub state : QueryState
  pub rows : ℕ
  pub retained_bytes : ℕ
  pub error : Option QueryError

-- `matches!(state, "completed" | "cancelled" | "failed")`
abbrev pub is_terminal : QueryState → Bool
is_terminal completed = true
is_terminal cancelled = true
is_terminal failed = true
is_terminal _ = false

module _ {B X : Type 0} where
  -- The data of a query that `submit_query` has just registered.
  unfoldable pub new_data : QueryData B X
  new_data = record {
    state = submitted;
    engine_query_id = none;
    retained = record { rows = 0; retained_bytes = 0; schema = none; storage = memory [] };
    events = [];
    next_event_id = 1;
    error = none;
    completed_at = none;
  }

  unfoldable pub query_status : QueryRecord B X → QueryStatus
  query_status r = record {
    id = r.id;
    session_id = r.session_id;
    session_version = r.session_version;
    target = r.target;
    engine = r.engine;
    engine_query_id = r.details.engine_query_id;
    state = r.details.state;
    rows = r.details.retained.rows;
    retained_bytes = r.details.retained.retained_bytes;
    error = r.details.error;
  }

  -- A state event sets the state, and the time of completion where it is terminal.
  unfoldable pub enter_state : ℕ → Payload → Bool → QueryData B X → QueryData B X
  enter_state now (state_changed s) terminal d = record d {
    state = s;
    completed_at = if terminal then some now else d.completed_at;
  }
  enter_state now _ terminal d = d

  unfoldable pub push_event : ℕ → Payload → Bool → QueryData B X → QueryData B X
  unfolding enter_state
  push_event now payload terminal d =
      let e = enter_state now payload terminal d in
      record e {
        events =
            e.events
            ++ record { id = e.next_event_id; payload = payload; terminal = terminal } ∷ [];
        next_event_id = (e.next_event_id + 1) % 18446744073709551616;
      }

  unfoldable pub record_event : ℕ → QueryEvent → QueryData B X → QueryData B X
  record_event now (state_event s) d = push_event now (state_changed s) (is_terminal s) d
  record_event now (engine_query_id id) d =
      push_event now (engine_id id) false (record d { engine_query_id = some id })
  record_event now (rows_produced n) d = push_event now (rows_seen n) false d
  record_event now (progress p) d = push_event now (progress_made p) false d
  record_event now (session_properties ps) d = push_event now (properties_set (redacted ps)) false d
