-- ===== src/Gateway/Shutdown.antt =====
-- crates/qcli-service/src/lib.rs: `begin_shutdown`.
use mathlib.Core.Option
use conflux_query.Base.{
  nat_eq, string_eq, Result, err, bind-err, ℕ, String, ◌≡◌, refl, ◌∙◌, ◌||◌, Option, none, some,
  arith,
}
use conflux_query.Dict.{Dict, lookup}
use conflux_query.Dict.Laws.{lookup-map_values}
use conflux_query.Session.{CoreError, SessionSnapshot, Surroundings}
use conflux_query.Driver.{PreparedStatementMetadata}
use conflux_query.Record.{QueryRecord}
use conflux_query.Gateway.{
  Gateway, Setup, Principal, ServiceError, failed_precondition, error, ensure_available, is_active,
}
use conflux_query.Gateway.Cleanup.{begin_shutdown, cancel_where}
use conflux_query.Gateway.Sessions.{create_session, update_session, switch_target, mutate_session}
use conflux_query.Gateway.Queries.{submit_query, submit_stateless_query}
use conflux_query.Gateway.Statements.{create_prepared_statement}

abbrev pub going_down : ServiceError
going_down = error failed_precondition "shutting_down"

module _ {B X : Type 0} where
  ensure_available-down :
      (g : Gateway B X) → ensure_available (begin_shutdown g) ≡ (err going_down, begin_shutdown g)
  unfolding ensure_available begin_shutdown
  ensure_available-down g = refl

  -- Once the shutdown has begun, no session, query or prepared statement is created and no session
  -- is changed: each such call fails with the same error and leaves the gateway as it is.
  pub shutdown_refuses :
      (setup : Setup B X) (now : ℕ) (p : Principal) (g : Gateway B X)
      → let down = begin_shutdown g in
        ((env : Surroundings) (name : String) (values : Dict String String)
          → create_session setup now env p name values down ≡ (err going_down, down))
        × ((id : String) (version : ℕ) (values : Dict String String)
            → update_session now p id version values down ≡ (err going_down, down))
        × ((id : String) (version : ℕ) (name : String)
            → switch_target setup now p id version name down ≡ (err going_down, down))
        × ((id : String) (version : ℕ) (name : Option String) (values : Dict String (Option String))
            → mutate_session setup now p id version name values down ≡ (err going_down, down))
        × ((uuid sql : String) (s : SessionSnapshot)
            → submit_query setup now uuid p s sql down ≡ (err going_down, down))
        × ((uuid name sql : String) (env : Surroundings) (values : Dict String String)
            → submit_stateless_query setup now uuid env p name values sql down
              ≡ (err going_down, down))
        × ((during : Gateway B X → Gateway B X)
              (answer : Result CoreError (PreparedStatementMetadata X)) (uuid id sql : String)
            → create_prepared_statement setup now now during answer uuid p id sql down
              ≡ (err going_down, down))
  unfolding create_session update_session switch_target mutate_session submit_query
      submit_stateless_query create_prepared_statement
  shutdown_refuses setup now p g =
      let down = begin_shutdown g in
      let e = ensure_available-down g in
      (
        λ env name values. bind-err ensure_available _ down down going_down e,
        λ id version values. bind-err ensure_available _ down down going_down e,
        λ id version name. bind-err ensure_available _ down down going_down e,
        λ id version name values. bind-err ensure_available _ down down going_down e,
        λ uuid sql s. bind-err ensure_available _ down down going_down e,
        λ uuid name sql env values.
            bind-err (create_session setup now env p name values) _ down down going_down
              (bind-err ensure_available _ down down going_down e),
        λ during answer uuid id sql. bind-err ensure_available _ down down going_down e,
      )

  -- The shutdown asks exactly the tasks of the queries that have not ended to stop, and changes
  -- nothing else of a record.
  pub shutdown_cancels :
      (id : String) (g : Gateway B X)
      → lookup id (begin_shutdown g).records ≡ (elim (lookup id g.records) [
        | none ↦ none
        | some r ↦ some (record r { cancel = r.cancel || is_active r })
      ])
  unfolding begin_shutdown
  shutdown_cancels id g =
      lookup-map_values (cancel_where is_active) id g.records ∙ cases (lookup id g.records)
    where
      cases :
          (o : Option (QueryRecord B X))
          → Option.map (cancel_where is_active) o ≡ (elim o [
            | none ↦ none
            | some r ↦ some (record r { cancel = r.cancel || is_active r })
          ])
      cases none = refl
      cases (some r) = ground arith
