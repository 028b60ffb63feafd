-- ===== src/Gateway/Statements.antt =====
-- crates/qcli-service/src/lib.rs: prepared statements. While a statement is being prepared the other
-- calls go on: what they do to the gateway, and what the adapter answers, are arguments.
use conflux_query.Base.{
  leb, if◌then◌else◌, ◌==◌, nat_eq, string_eq, length, Result, ok, err, map_err, lift, state_of,
  modify, ◌>>=◌, ◌>>◌, ℕ, String, Bool, true, false, not, ◌||◌, none, some, List, [], ◌∷◌,
}
use conflux_query.Dict.{lookup, insert, remove}
use conflux_query.Driver.{
  AdapterCapability, prepared_statements, typed_parameters, PreparedStatementMetadata,
}
use conflux_query.Session.{CoreError, Surroundings}
use conflux_query.Record.{QueryStatus}
use conflux_query.Gateway.{
  Gateway, Setup, Principal, ServiceError, invalid_argument, not_found, failed_precondition,
  resource_exhausted, PreparedStatementRecord, Action, error, supports, core_error,
  ensure_available,
}
use conflux_query.Gateway.Cleanup.{cleanup_expired}
use conflux_query.Gateway.Sessions.{create_session, session, close_session}
use conflux_query.Gateway.Queries.{check_sql, submit_query}

pub record PreparedStatementSnapshot (B X : Type 0) : Type 0 where
  pub handle : String
  pub session_id : String
  pub sql : String
  pub dataset_schema : X
  pub parameter_schema : X
  pub parameters : List B

abbrev pub prepared_not_found : ServiceError
prepared_not_found = error not_found "prepared_not_found"

module _ {B X : Type 0} where
  abbrev pub prepared_snapshot :
      String → PreparedStatementRecord B X → PreparedStatementSnapshot B X
  prepared_snapshot handle s = record {
    handle = handle;
    session_id = s.session_id;
    sql = s.sql;
    dataset_schema = s.dataset_schema;
    parameter_schema = s.parameter_schema;
    parameters = s.parameters;
  }

  unfoldable pub put_statement :
      String → PreparedStatementRecord B X → Action B X (PreparedStatementSnapshot B X)
  put_statement handle s g =
      (ok (prepared_snapshot handle s), record g { prepared = insert handle s g.prepared })

  unfoldable pub find_statement : Principal → String → Action B X (PreparedStatementRecord B X)
  find_statement p handle g = elim (lookup handle g.prepared) [
    | none ↦ (err prepared_not_found, g)
    | some s ↦ if s.owner == p.id then (ok s, g) else (err prepared_not_found, g)
  ]

  unfoldable pub check_capability :
      Setup B X → AdapterCapability → ServiceError → String → Action B X (Unit {0})
  check_capability setup c unknown engine g = elim (lookup engine setup.capabilities) [
    | none ↦ (err unknown, g)
    | some cs ↦
        if supports c cs
        then (ok tt, g)
        else (err (error failed_precondition "unsupported_capability"), g)
  ]

  unfoldable pub mark_owning : String → Gateway B X → Gateway B X
  mark_owning handle g = elim (lookup handle g.prepared) [
    | none ↦ g
    | some s ↦ record g { prepared = insert handle (record s { owns_session = true }) g.prepared }
  ]

  unfoldable pub check_statements : Setup B X → Action B X (Unit {0})
  check_statements setup g =
      if leb setup.limits.max_prepared_statements (length g.prepared)
      then (err (error resource_exhausted "prepared_limit"), g)
      else (ok tt, g)

module _ {B X : Type 0} (setup : Setup B X) where
  -- `parameters.iter().any(|batch| batch.schema() != first.schema())`
  abbrev pub any_differs : X → List B → Bool
  any_differs x [] = false
  any_differs x (b ∷ bs) = not (setup.same_schema (setup.arrow.schema b) x) || any_differs x bs

  abbrev pub mismatched : List B → Bool
  mismatched [] = false
  mismatched (b ∷ bs) = any_differs (setup.arrow.schema b) (b ∷ bs)

  abbrev pub parameters_schema : List B → X
  parameters_schema [] = setup.arrow.empty_schema
  parameters_schema (b ∷ bs) = setup.arrow.schema b

  unfoldable pub check_parameters : List B → Action B X (Unit {0})
  check_parameters parameters g =
      if mismatched parameters
      then (err (error invalid_argument "parameter_schema_mismatch"), g)
      else (ok tt, g)

module _ {B X : Type 0} (setup : Setup B X) (now : ℕ) where
  -- The entry of the statement, once the adapter has answered.
  unfoldable pub enter_statement :
      (uuid : String)
      → Principal
      → (session_id sql : String) → PreparedStatementMetadata X
      → Action B X (PreparedStatementSnapshot B X)
  unfolding cleanup_expired check_statements put_statement
  enter_statement uuid p session_id sql metadata = do
    modify (cleanup_expired setup.limits now)
    check_statements setup
    put_statement uuid (record {
      owner = p.id;
      session_id = session_id;
      owns_session = false;
      sql = sql;
      dataset_schema = metadata.dataset_schema;
      parameter_schema = metadata.parameter_schema;
      parameters = [];
      last_access = now;
    })

  unfoldable pub create_prepared_statement :
      (started : ℕ)
      → (during : Gateway B X → Gateway B X) → Result CoreError (PreparedStatementMetadata X)
      → (uuid : String) → Principal
      → (session_id sql : String) → Action B X (PreparedStatementSnapshot B X)
  unfolding ensure_available check_sql session check_capability core_error enter_statement
  create_prepared_statement started during answer uuid p session_id sql = do
    ensure_available
    check_sql setup.limits sql
    s ← session started p session_id
    check_capability setup prepared_statements (error invalid_argument "adapter_not_found") s.engine
    modify during
    metadata ← lift (map_err core_error answer)
    enter_statement uuid p session_id sql metadata

  unfoldable pub create_stateless_prepared_statement :
      (started : ℕ)
      → (during : Gateway B X → Gateway B X) → Result CoreError (PreparedStatementMetadata X)
      → (uuid : String) → Surroundings
      → Principal
      → (target_name sql : String) → Action B X (PreparedStatementSnapshot B X)
  unfolding create_session create_prepared_statement mark_owning close_session
  create_stateless_prepared_statement started during answer uuid env p target_name sql = do
    s ← create_session setup started env p target_name []
    λ g.
        let (result, g') = create_prepared_statement started during answer uuid p s.id sql g in
        elim result [
          | ok snapshot ↦ (ok snapshot, mark_owning snapshot.handle g')
          | err e ↦ (err e, state_of (close_session now p s.id) g')
        ]

  unfoldable pub bind_prepared_statement :
      Principal → String → List B → Action B X (PreparedStatementSnapshot B X)
  unfolding cleanup_expired find_statement session check_capability check_parameters put_statement
  bind_prepared_statement p handle parameters = do
    modify (cleanup_expired setup.limits now)
    s ← find_statement p handle
    snapshot ← session now p s.session_id
    check_capability setup typed_parameters prepared_not_found snapshot.engine
    check_parameters setup parameters
    put_statement handle (record s {
      parameter_schema = parameters_schema setup parameters;
      parameters = parameters;
      last_access = now;
    })

  unfoldable pub prepared_statement :
      Principal → String → Action B X (PreparedStatementSnapshot B X)
  unfolding cleanup_expired find_statement put_statement
  prepared_statement p handle = do
    modify (cleanup_expired setup.limits now)
    s ← find_statement p handle
    put_statement handle (record s { last_access = now })

  unfoldable pub execute_prepared_statement :
      (uuid : String) → Principal → String → Action B X QueryStatus
  unfolding prepared_statement session submit_query
  execute_prepared_statement uuid p handle = do
    s ← prepared_statement p handle
    snapshot ← session now p s.session_id
    submit_query setup now uuid p snapshot s.sql

module _ {B X : Type 0} (now : ℕ) where
  unfoldable pub close_owned : Principal → PreparedStatementRecord B X → Action B X (Unit {0})
  unfolding close_session
  close_owned p s g = if s.owns_session then close_session now p s.session_id g else (ok tt, g)

  unfoldable pub close_prepared_statement : Principal → String → Action B X (Unit {0})
  unfolding find_statement close_owned
  close_prepared_statement p handle = do
    s ← find_statement p handle
    modify (λ (g : Gateway B X). record g { prepared = remove handle g.prepared })
    close_owned p s
