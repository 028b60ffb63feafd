-- ===== src/Gateway/Access.antt =====
-- crates/qcli-service/src/lib.rs: a principal sees its own queries, sessions and statements only.
use mathlib.Core.Option
use conflux_query.Base.{
  Bool-cases, Option-cases, Result, if◌then◌else◌, ◌<◌, ◌≤◌, nat_eq, string_eq, eq-false_of_ne, ok,
  err, ◌>>=◌, bind-err, bind-step, ℕ, String, ◌≡◌, refl, ◌∙◌, ◌≢◌, inl, inr, Bool, false, Option,
  none, some, arith,
}
use conflux_query.Dict.{Dict, lookup}
use conflux_query.Dict.Laws.{filter_option}
use conflux_query.Driver.{PreparedStatementMetadata}
use conflux_query.Session.{CoreError}
use conflux_query.Record.{QueryRecord}
use conflux_query.Gateway.{
  Gateway, Setup, Principal, ServiceError, SessionOwner, Action, not_found, invalid_argument, error,
  require_session_owner, ensure_available,
}
use conflux_query.Gateway.Cleanup.{cleanup_expired, record_fresh}
use conflux_query.Gateway.Sessions.{
  session, update_session, switch_target, mutate_session, close_session,
}
use conflux_query.Gateway.Queries.{
  owned_record, find_owned, query, cancel, event_history, submit_session_query, check_sql,
  invalid_size,
}
use conflux_query.Gateway.Reading.{
  result_page, result_batch_count, result_reader, result_reader_range, query_schema,
  check_partition, result_partition_reader,
}
use conflux_query.Gateway.Statements.{create_prepared_statement}
use conflux_query.Gateway.Expiry.{calm, cleanup_expired-records}

abbrev pub query_not_found : ServiceError
query_not_found = error not_found "query_not_found"

abbrev pub invalid_partition : ServiceError
invalid_partition = error invalid_argument "invalid_result_partition"

abbrev pub invalid_sql : ServiceError
invalid_sql = error invalid_argument "invalid_sql_size"

abbrev pub session_missing : ServiceError
session_missing = error not_found "session_not_found"

module _ {B X : Type 0} where
  -- No query of this id, or one of another principal.
  abbrev pub NotOwned : Principal → String → Gateway B X → Type 0
  NotOwned p id g = (r : QueryRecord B X) → lookup id g.records ≡ some r → r.owner ≢ p.id

  -- No session of this id, or one of another principal.
  abbrev pub NotTheirs : Principal → String → Gateway B X → Type 0
  NotTheirs p id g = (o : SessionOwner) → lookup id g.session_owners ≡ some o → o.principal ≢ p.id

  find_owned-NotOwned :
      (p : Principal) (id : String) (g : Gateway B X)
      → NotOwned p id g
      → find_owned p id g ≡ (err query_not_found, g)
  unfolding find_owned
  find_owned-NotOwned p id g h = elim (Option-cases (lookup id g.records)) [
    | inl missing ↦ rw (missing, find_owned) refl
    | inr (r, found) ↦
        let other = eq-false_of_ne r.owner p.id (h r found) in ground (arith, found, other)
  ]

  same_owner :
      (fresh : QueryRecord B X → Bool) (o o' : Option (QueryRecord B X)) (r : QueryRecord B X)
      → o' ≡ some r
      → Option.map calm o' ≡ Option.map calm (filter_option fresh o)
      → (q : QueryRecord B X) × (o ≡ some q) × (q.owner ≡ r.owner)
  same_owner fresh none o' r h e = cc
  same_owner fresh (some q) o' r h e = (q, refl, ground (arith, h, e))

  cleanup_expired-NotOwned :
      (setup : Setup B X) (now : ℕ) (p : Principal) (id : String) (g : Gateway B X)
      → NotOwned p id g
      → NotOwned p id (cleanup_expired setup.limits now g)
  cleanup_expired-NotOwned setup now p id g h r found e =
      let (q, stood, same) =
        same_owner (record_fresh setup.limits now) (lookup id g.records) _ r found
          (cleanup_expired-records setup.limits now id g) in
      h q stood (same ∙ e)

  owned_record-NotOwned :
      (setup : Setup B X) (now : ℕ) (p : Principal) (id : String) (g : Gateway B X)
      → NotOwned p id g
      → owned_record setup now p id g ≡ (err query_not_found, cleanup_expired setup.limits now g)
  unfolding owned_record
  owned_record-NotOwned setup now p id g h =
      find_owned-NotOwned p id _ (cleanup_expired-NotOwned setup now p id g h)

  result_partition_reader-NotOwned :
      (setup : Setup B X) (now : ℕ) (p : Principal) (id : String) (partition partitions : ℕ)
      (g : Gateway B X)
      → NotOwned p id g
      → partition < partitions
      → result_partition_reader setup now p id partition partitions g
        ≡ (err query_not_found, cleanup_expired setup.limits now g)
  unfolding result_partition_reader check_partition result_batch_count
  result_partition_reader-NotOwned setup now p id partition partitions g h inside =
      let e = owned_record-NotOwned setup now p id g h in
      let valid : check_partition {B = B} {X = X} partition partitions g ≡ (ok tt, g) =
        ground (arith, inside) in
      rw (valid, e, result_partition_reader) refl

  result_partition_reader-outside :
      (setup : Setup B X) (now : ℕ) (p : Principal) (id : String) (partition partitions : ℕ)
      (g : Gateway B X)
      → partitions ≤ partition
      → result_partition_reader setup now p id partition partitions g ≡ (err invalid_partition, g)
  unfolding result_partition_reader check_partition
  result_partition_reader-outside setup now p id partition partitions g outside =
      ground (arith, outside)

  -- To `query`, `cancel`, `event_history`, `result_page`, `result_batch_count`, `result_reader`,
  -- `query_schema` and `result_partition_reader`, the query of another principal is as one that does
  -- not exist: the answer is the same error, and nothing is done but the expiry that each call begins
  -- with. A partition that is not below the number of partitions is refused before that, with its own
  -- error and no expiry, whoever asks.
  pub queries_private :
      (setup : Setup B X) (now : ℕ) (p : Principal) (id : String) (g : Gateway B X)
      → NotOwned p id g
      → let g' = cleanup_expired setup.limits now g in
        (query setup now p id g ≡ (err query_not_found, g'))
        × (cancel setup now p id g ≡ (err query_not_found, g'))
        × ((after : ℕ) → event_history setup now p id after g ≡ (err query_not_found, g'))
        × ((offset limit : ℕ)
            → result_page setup now p id offset limit g ≡ (err query_not_found, g'))
        × (result_batch_count setup now p id g ≡ (err query_not_found, g'))
        × (result_reader setup now p id g ≡ (err query_not_found, g'))
        × (query_schema setup now p id g ≡ (err query_not_found, g'))
        × ((partition partitions : ℕ)
            → partition < partitions
            → result_partition_reader setup now p id partition partitions g
              ≡ (err query_not_found, g'))
        × ((partition partitions : ℕ)
            → partitions ≤ partition
            → result_partition_reader setup now p id partition partitions g
              ≡ (err invalid_partition, g))
  unfolding query cancel event_history result_page result_batch_count result_reader
      result_reader_range query_schema
  queries_private setup now p id g h =
      let e = owned_record-NotOwned setup now p id g h in
      (
        rw (e, query) refl,
        rw (e, cancel) refl,
        λ after. rw (e, event_history) refl,
        λ offset limit. rw (e, result_page) refl,
        rw (e, result_batch_count) refl,
        rw (e, result_reader) refl,
        rw (e, query_schema) refl,
        λ partition partitions inside.
            result_partition_reader-NotOwned setup now p id partition partitions g h inside,
        λ partition partitions outside.
            result_partition_reader-outside setup now p id partition partitions g outside,
      )

  pub require_session_owner-NotTheirs :
      (now : ℕ) (p : Principal) (id : String) (g : Gateway B X)
      → NotTheirs p id g
      → require_session_owner now p id g ≡ (err session_missing, g)
  unfolding require_session_owner
  require_session_owner-NotTheirs now p id g h = elim (Option-cases (lookup id g.session_owners)) [
    | inl missing ↦ rw (missing, require_session_owner) refl
    | inr (o, found) ↦
        let other = eq-false_of_ne o.principal p.id (h o found) in ground (arith, found, other)
  ]

  ensure_available-up :
      (g : Gateway B X) → g.shutting_down ≡ false → ensure_available g ≡ (ok tt, g)
  unfolding ensure_available
  ensure_available-up g up = ground arith

  -- An operation that asks for the owner once it knows that the gateway is up.
  guarded-NotTheirs :
      {A : Type 0} (now : ℕ) (p : Principal) (id : String) (g : Gateway B X)
      (rest : Unit {0} → Action B X A)
      → NotTheirs p id g
      → g.shutting_down ≡ false
      → (ensure_available >>= λ _. require_session_owner now p id >>= rest) g
        ≡ (err session_missing, g)
  guarded-NotTheirs now p id g rest h up =
      bind-step ensure_available (λ _. require_session_owner now p id >>= rest) g g tt
        (ensure_available-up g up)
      ∙ bind-err (require_session_owner now p id) rest g g session_missing
          (require_session_owner-NotTheirs now p id g h)

  session-NotTheirs :
      (now : ℕ) (p : Principal) (id : String) (g : Gateway B X)
      → NotTheirs p id g
      → session now p id g ≡ (err session_missing, g)
  unfolding session
  session-NotTheirs now p id g h = rw (require_session_owner-NotTheirs now p id g h, session) refl

  create_prepared_statement-NotTheirs :
      (setup : Setup B X) (now started : ℕ) (during : Gateway B X → Gateway B X)
      (answer : Result CoreError (PreparedStatementMetadata X)) (uuid : String) (p : Principal)
      (id sql : String) (g : Gateway B X)
      → NotTheirs p id g
      → g.shutting_down ≡ false
      → create_prepared_statement setup now started during answer uuid p id sql g
        ≡ (if invalid_size setup.limits sql then (err invalid_sql, g) else (err session_missing, g))
  unfolding create_prepared_statement check_sql
  create_prepared_statement-NotTheirs setup now started during answer uuid p id sql g h up =
      bind-step ensure_available _ g g tt (ensure_available-up g up)
      ∙ elim (Bool-cases (invalid_size setup.limits sql)) [
        | inl bad ↦
            bind-err (check_sql setup.limits sql) _ g g invalid_sql (ground (arith, bad))
            ∙ ground (arith, bad)
        | inr fits ↦
            bind-step (check_sql setup.limits sql) _ g g tt (ground (arith, fits))
            ∙ bind-err (session started p id) _ g g session_missing
                (session-NotTheirs started p id g h)
            ∙ ground (arith, fits)
      ]

  -- While the gateway is not shutting down, `session`, `update_session`, `switch_target`,
  -- `mutate_session`, `close_session`, `submit_session_query` and `create_prepared_statement` do
  -- nothing with the session of another principal: each fails as for a session that does not exist,
  -- but that `create_prepared_statement` looks at the size of its statement first and refuses a wrong
  -- one with the error for that, whoever asks.
  pub sessions_private :
      (setup : Setup B X) (now : ℕ) (p : Principal) (id : String) (g : Gateway B X)
      → NotTheirs p id g
      → g.shutting_down ≡ false
      → (session now p id g ≡ (err session_missing, g))
        × ((version : ℕ) (values : Dict String String)
            → update_session now p id version values g ≡ (err session_missing, g))
        × ((version : ℕ) (name : String)
            → switch_target setup now p id version name g ≡ (err session_missing, g))
        × ((version : ℕ) (name : Option String) (values : Dict String (Option String))
            → mutate_session setup now p id version name values g ≡ (err session_missing, g))
        × (close_session now p id g ≡ (err session_missing, g))
        × ((uuid sql : String)
            → submit_session_query setup now uuid p id sql g ≡ (err session_missing, g))
        × ((started : ℕ) (during : Gateway B X → Gateway B X)
              (answer : Result CoreError (PreparedStatementMetadata X)) (uuid sql : String)
            → create_prepared_statement setup now started during answer uuid p id sql g ≡ (
                if invalid_size setup.limits sql
                then (err invalid_sql, g)
                else (err session_missing, g)))
  unfolding session update_session switch_target mutate_session close_session submit_session_query
  sessions_private setup now p id g h up =
      let e = require_session_owner-NotTheirs now p id g h in
      (
        session-NotTheirs now p id g h,
        λ version values. guarded-NotTheirs now p id g _ h up,
        λ version name. guarded-NotTheirs now p id g _ h up,
        λ version name values. guarded-NotTheirs now p id g _ h up,
        rw (e, close_session) refl,
        λ uuid sql. rw (e, submit_session_query) refl,
        λ started during answer uuid sql.
            create_prepared_statement-NotTheirs setup now started during answer uuid p id sql g h
              up,
      )
