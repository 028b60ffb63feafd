-- ===== src/Gateway/Queries.antt =====
-- crates/qcli-service/src/lib.rs: the submission of queries, their status, their cancellation and
-- their end, as far as the gateway's own state goes. The collecting task of a query is
-- Record/Collect; its record is the one in `records`.
use Prim.Native.Char.{code}
use Prim.Native.String.{◌++◌}
use conflux_query.Base.{
  ltb, leb, if◌then◌else◌, string_eq, ◌==◌, nat_eq, length, Result, ok, err, pure, state_of, modify,
  ◌>>=◌, ◌>>◌, ℕ, ◌+◌, String, Bool, true, false, ◌||◌, none, some, List, [],
}
use conflux_query.Dict.{Dict, lookup, insert}
use conflux_query.Limits.{ServiceLimits}
use conflux_query.Driver.{cancelling}
use conflux_query.Session.{CoreError, adapter_not_found, SessionSnapshot, Surroundings, set_options}
use conflux_query.Record.{
  QueryRecord, QueryStatus, ServiceEvent, state_changed, new_data, query_status, push_event,
}
use conflux_query.Record.Events.{events_after}
use conflux_query.Gateway.{
  Gateway, Setup, Principal, resource_exhausted, invalid_argument, not_found, Action, error,
  contains, core_error, ensure_available, audit, enforce_query_quota,
}
use conflux_query.Gateway.Cleanup.{cleanup_expired, drop_session}
use conflux_query.Gateway.Sessions.{create_session, session}

-- The number of bytes of a scalar value in UTF-8.
abbrev pub utf8_width : ℕ → ℕ
utf8_width c = if ltb c 128 then 1 else if ltb c 2048 then 2 else if ltb c 65536 then 3 else 4

-- `str::len`
abbrev pub byte_length : String → ℕ
byte_length String.[] = 0
byte_length (String.◌∷◌ c s) = utf8_width (code c) + byte_length s

-- `sql.is_empty() || sql.len() > max_sql_bytes`
abbrev pub invalid_size : ServiceLimits → String → Bool
invalid_size limits sql = (byte_length sql == 0) || ltb limits.max_sql_bytes (byte_length sql)

module _ {B X : Type 0} where
  unfoldable pub check_sql : ServiceLimits → String → Action B X (Unit {0})
  check_sql limits sql g =
      if invalid_size limits sql
      then (err (error invalid_argument "invalid_sql_size"), g)
      else (ok tt, g)

  unfoldable pub check_records : ServiceLimits → Action B X (Unit {0})
  check_records limits g =
      if leb limits.max_queries (length g.records)
      then (err (error resource_exhausted "query_limit"), g)
      else (ok tt, g)

  -- `QueryService::submit` and `submit_prepared`, as far as they can fail.
  unfoldable pub check_adapter : Setup B X → String → Action B X (Unit {0})
  unfolding core_error
  check_adapter setup engine g =
      if contains engine setup.query_adapters
      then (ok tt, g)
      else (err (core_error (adapter_not_found engine)), g)

  unfoldable pub new_record : String → Principal → SessionSnapshot → QueryRecord B X
  unfolding new_data
  new_record uuid p s = record {
    id = "qcli_" ++ uuid;
    owner = p.id;
    session_id = s.id;
    session_version = s.version;
    target = s.target;
    engine = s.engine;
    cancel = false;
    details = new_data;
  }

  unfoldable pub register : Principal → QueryRecord B X → Action B X QueryStatus
  unfolding audit query_status
  register p r g = (
    ok (query_status r),
    audit "query.submit" "allowed" (some p.id) (some r.target) (some r.session_id) (some r.id)
        (record g { records = insert r.id r g.records }),
  )

  unfoldable pub find_owned : Principal → String → Action B X (QueryRecord B X)
  find_owned p query_id g = elim (lookup query_id g.records) [
    | none ↦ (err (error not_found "query_not_found"), g)
    | some r ↦ if r.owner == p.id then (ok r, g) else (err (error not_found "query_not_found"), g)
  ]

module _ {B X : Type 0} (now : ℕ) where
  unfoldable pub cancelled_record : QueryRecord B X → QueryRecord B X
  unfolding push_event
  cancelled_record r = record r {
    cancel = true;
    details = push_event now (state_changed cancelling) false r.details;
  }

module _ {B X : Type 0} (setup : Setup B X) (now : ℕ) where
  -- `uuid` is the fresh one; the SQL goes to the adapter and the record does not keep it.
  unfoldable pub submit_query :
      (uuid : String) → Principal → SessionSnapshot → (sql : String) → Action B X QueryStatus
  unfolding ensure_available check_sql cleanup_expired enforce_query_quota check_records
      check_adapter new_record register
  submit_query uuid p s sql = do
    ensure_available
    check_sql setup.limits sql
    modify (cleanup_expired setup.limits now)
    enforce_query_quota p
    check_records setup.limits
    check_adapter setup s.engine
    register p (new_record uuid p s)

  unfoldable pub submit_session_query :
      (uuid : String) → Principal → (session_id sql : String) → Action B X QueryStatus
  unfolding session submit_query
  submit_session_query uuid p session_id sql = do
    s ← session now p session_id
    submit_query uuid p s sql

  -- The session of the query is dropped again where the query is refused.
  unfoldable pub submit_in_new_session :
      (uuid : String) → Principal → SessionSnapshot → (sql : String) → Action B X QueryStatus
  unfolding submit_query drop_session
  submit_in_new_session uuid p s sql g =
      let (result, g') = submit_query uuid p s sql g in
      elim result [ ok status ↦ (ok status, g') | err e ↦ (err e, drop_session s.id g') ]

  unfoldable pub submit_stateless_query :
      (uuid : String)
      → Surroundings
      → Principal
      → (target_name : String) → Dict String String
      → (sql : String) → Action B X QueryStatus
  unfolding create_session submit_in_new_session
  submit_stateless_query uuid env p target_name overrides sql = do
    s ← create_session setup now env p target_name overrides
    submit_in_new_session uuid p s sql

  unfoldable pub owned_record : Principal → String → Action B X (QueryRecord B X)
  unfolding cleanup_expired find_owned
  owned_record p query_id = do modify (cleanup_expired setup.limits now); find_owned p query_id

  unfoldable pub query : Principal → String → Action B X QueryStatus
  unfolding owned_record query_status
  query p query_id = do r ← owned_record p query_id; pure (query_status r)

  unfoldable pub cancel : Principal → String → Action B X QueryStatus
  unfolding owned_record cancelled_record audit query_status
  cancel p query_id = do
    r ← owned_record p query_id
    modify
        (audit "query.cancel" "allowed" (some p.id) (some r.target) (some r.session_id) (some r.id))
    modify (λ (g : Gateway B X). record g {
      records = insert query_id (cancelled_record now r) g.records;
    })
    pure (query_status (cancelled_record now r))

  unfoldable pub event_history : Principal → String → ℕ → Action B X (List ServiceEvent)
  unfolding owned_record events_after
  event_history p query_id after = do
    r ← owned_record p query_id
    pure (events_after after r.details.events)

-- What `collect_query` does to the sessions when the adapter has finished.
module _ {B X : Type 0} where
  unfoldable pub finish_session :
      QueryRecord B X
      → (close_session : Bool) → (updates : Dict String String) → Result CoreError (Unit {0})
      → Gateway B X
      → Gateway B X
  finish_session r true updates finish g = g
  finish_session r false [] finish g = g
  finish_session r false updates (err e) g = g
  finish_session r false updates (ok _) g = record g {
    sessions = state_of (set_options r.session_id r.session_version updates) g.sessions;
  }

  unfoldable pub close_stateless_session : QueryRecord B X → Bool → Gateway B X → Gateway B X
  unfolding drop_session
  close_stateless_session r true g = drop_session r.session_id g
  close_stateless_session r false g = g
