-- ===== src/Gateway.antt =====
-- crates/qcli-service/src/lib.rs: the state of `QueryGateway` and the checks that its operations
-- share, with `AuthenticatedPrincipal` of crates/qcli-auth/src/lib.rs. The gateway runs without a
-- cluster. A call reads the clock once, as `now`; an elapsed time is 0 where the clock stands before.
-- The locks are taken in each call as in the source, but a call is one step. The message of an error
-- is not modelled; the audit sink is the list of its events, the last one first.
pub mod Cleanup
pub mod Sessions
pub mod Queries
pub mod Reading
pub mod Statements
pub mod Expiry
pub mod Access
pub mod Quotas
pub mod Shutdown
pub mod Cancellation
pub mod Closing
pub mod Examples
use conflux_query.Base.{
  leb, if◌then◌else◌, is_some, ◌==◌, nat_eq, string_eq, ok, err, ok_or, Exec, ℕ, ◌*◌, String, Bool,
  true, false, not, ◌&&◌, ◌||◌, Option, none, some, List, [], ◌∷◌,
}
use conflux_query.Dict.{Dict, lookup, insert}
use conflux_query.Dict.Counting.{count_values}
use conflux_query.Limits.{ServiceLimits}
use conflux_query.Target.{Config, ResolvedTarget, target}
use conflux_query.Driver.{
  AdapterCapability, stream_results, cancel_query, list_catalogs, list_schemas, list_objects,
  describe_object, prepared_statements, typed_parameters, statement_updates, bulk_ingest,
}
use conflux_query.Session.{
  Manager, CoreError, session_not_found, version_conflict, adapter_not_found, driver, task,
}
use conflux_query.Results.{Arrow}
use conflux_query.Record.{QueryRecord}

pub record Principal : Type 0 where
  pub id : String
  pub allowed_targets : List String
  pub max_sessions : ℕ
  pub max_concurrent_queries : ℕ

abbrev pub contains : String → List String → Bool
contains name [] = false
contains name (n ∷ ns) = if n == name then true else contains name ns

unfoldable pub can_use_target : Principal → String → Bool
can_use_target p name = contains "*" p.allowed_targets || contains name p.allowed_targets

pub data ServiceErrorKind : Type 0 where
  invalid_argument not_found forbidden conflict failed_precondition resource_exhausted upstream
        internal :
      ServiceErrorKind

pub record ServiceError : Type 0 where
  pub kind : ServiceErrorKind
  pub code : String

unfoldable pub core_error : CoreError → ServiceError
core_error (session_not_found id) = record { kind = not_found; code = "core" }
core_error (version_conflict expected actual) = record { kind = conflict; code = "core" }
core_error (adapter_not_found engine) = record { kind = invalid_argument; code = "core" }
core_error (driver e) = record { kind = upstream; code = "core" }
core_error (task message) = record { kind = upstream; code = "core" }

pub record AuditEvent : Type 0 where
  pub action : String
  pub outcome : String
  pub principal : Option String
  pub target : Option String
  pub session_id : Option String
  pub query_id : Option String

pub record SessionOwner : Type 0 where
  pub principal : String
  pub last_access : ℕ

pub record PreparedStatementRecord (B X : Type 0) : Type 0 where
  pub owner : String
  pub session_id : String
  pub owns_session : Bool
  pub sql : String
  pub dataset_schema : X
  pub parameter_schema : X
  pub parameters : List B
  pub last_access : ℕ

-- `ServiceState`, the parts that change.
pub record Gateway (B X : Type 0) : Type 0 where
  pub sessions : Manager
  pub session_owners : Dict String SessionOwner
  pub records : Dict String (QueryRecord B X)
  pub prepared : Dict String (PreparedStatementRecord B X)
  pub audits : List AuditEvent
  pub shutting_down : Bool

-- `ServiceState`, the parts that do not: the configuration, the limits, the engines that the query
-- service has adapters for, what the metadata service knows of the adapters, and Arrow.
pub record Setup (B X : Type 0) : Type 0 where
  pub config : Config
  pub limits : ServiceLimits
  pub query_adapters : List String
  pub capabilities : Dict String (List AdapterCapability)
  pub arrow : Arrow B X
  pub same_schema : X → X → Bool

abbrev capability_number : AdapterCapability → ℕ
capability_number stream_results = 0
capability_number cancel_query = 1
capability_number list_catalogs = 2
capability_number list_schemas = 3
capability_number list_objects = 4
capability_number describe_object = 5
capability_number prepared_statements = 6
capability_number typed_parameters = 7
capability_number statement_updates = 8
capability_number bulk_ingest = 9

-- `AdapterCapabilities::supports`
abbrev pub supports : AdapterCapability → List AdapterCapability → Bool
supports c [] = false
supports c (d ∷ ds) = if capability_number d == capability_number c then true else supports c ds

abbrev pub Action : Type 0 → Type 0 → Type 0 → Type 0
Action B X A = Exec (Gateway B X) ServiceError A

abbrev pub error : ServiceErrorKind → String → ServiceError
error kind code = record { kind = kind; code = code }

module _ {B X : Type 0} where
  unfoldable pub ensure_available : Action B X (Unit {0})
  ensure_available g = elim g.shutting_down [
    | true ↦ (err (error failed_precondition "shutting_down"), g)
    | false ↦ (ok tt, g)
  ]

  unfoldable pub audit :
      (action outcome : String) (principal target session_id query_id : Option String)
      → Gateway B X
      → Gateway B X
  audit action outcome principal target session_id query_id g = record g {
    audits =
        record {
          action = action;
          outcome = outcome;
          principal = principal;
          target = target;
          session_id = session_id;
          query_id = query_id;
        }
        ∷ g.audits;
  }

  unfoldable pub authorized_target : Setup B X → Principal → String → Action B X ResolvedTarget
  unfolding audit can_use_target
  authorized_target setup p name g =
      if can_use_target p name
      then (ok_or (target setup.config name) (error not_found "target_not_found"), g)
      else (
        err (error forbidden "target_forbidden"),
        audit "target.authorize" "denied" (some p.id) (some name) none none g,
      )

  -- The session's owner may go on, and the access is noted.
  unfoldable pub require_session_owner : ℕ → Principal → String → Action B X (Unit {0})
  require_session_owner now p session_id g = elim (lookup session_id g.session_owners) [
    | none ↦ (err (error not_found "session_not_found"), g)
    | some o ↦
        if o.principal == p.id
        then (
          ok tt,
          record g {
            session_owners = insert session_id (record o { last_access = now }) g.session_owners;
          },
        )
        else (err (error not_found "session_not_found"), g)
  ]

  unfoldable pub owned_sessions : Principal → Gateway B X → ℕ
  owned_sessions p g = count_values (λ (o : SessionOwner). o.principal == p.id) g.session_owners

  unfoldable pub enforce_session_quota : Principal → Action B X (Unit {0})
  unfolding owned_sessions
  enforce_session_quota p g =
      if leb p.max_sessions (owned_sessions p g)
      then (err (error resource_exhausted "session_quota"), g)
      else (ok tt, g)

  -- A query that has not ended.
  abbrev pub is_active : QueryRecord B X → Bool
  is_active r = not (is_some r.details.completed_at)

  unfoldable pub active_queries : Principal → Gateway B X → ℕ
  active_queries p g =
      count_values (λ (r : QueryRecord B X). (r.owner == p.id) && is_active r) g.records

  unfoldable pub enforce_query_quota : Principal → Action B X (Unit {0})
  unfolding active_queries
  enforce_query_quota p g =
      if leb p.max_concurrent_queries (active_queries p g)
      then (err (error resource_exhausted "query_quota"), g)
      else (ok tt, g)
