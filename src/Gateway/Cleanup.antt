-- ===== src/Gateway/Cleanup.antt =====
-- crates/qcli-service/src/lib.rs: `cleanup_expired`, and the cancellations of `close_session`,
-- `begin_shutdown` and the expiry.
use conflux_query.Base.{
  ltb, leb, if◌then◌else◌, ◌==◌, nat_eq, string_eq, keep, state_of, ℕ, ◌-◌, String, Bool, true, not,
  ◌&&◌, none, some, List, [], ◌∷◌, map,
}
use conflux_query.Dict.{Dict, remove, retain, map_values, values}
use conflux_query.Limits.{ServiceLimits}
use conflux_query.Session.{close}
use conflux_query.Record.{QueryRecord}
use conflux_query.Gateway.{Gateway, SessionOwner, PreparedStatementRecord, audit, is_active}

abbrev pub owner_pair : String × SessionOwner → String × String
owner_pair (id, o) = (id, o.principal)

abbrev pub owner_expired : ServiceLimits → ℕ → SessionOwner → Bool
owner_expired limits now o = leb limits.session_ttl (now - o.last_access)

unfoldable pub expired_sessions :
    ServiceLimits → ℕ → Dict String SessionOwner → List (String × String)
expired_sessions limits now owners =
    map owner_pair (keep (λ (kv : String × SessionOwner). owner_expired limits now kv.1) owners)

module _ {B X : Type 0} where
  abbrev pub cancel_where : (QueryRecord B X → Bool) → QueryRecord B X → QueryRecord B X
  cancel_where p r = if p r then record r { cancel = true } else r

  -- The tasks of all queries of a session are asked to stop.
  unfoldable pub cancel_session : String → Gateway B X → Gateway B X
  cancel_session session_id g = record g {
    records =
        map_values (cancel_where (λ (r : QueryRecord B X). r.session_id == session_id)) g.records;
  }

  -- `begin_shutdown` with `cancel_active_queries`.
  unfoldable pub begin_shutdown : Gateway B X → Gateway B X
  begin_shutdown g = record g {
    shutting_down = true;
    records = map_values (cancel_where is_active) g.records;
  }

  unfoldable pub drop_session : String → Gateway B X → Gateway B X
  unfolding close
  drop_session session_id g = record g {
    sessions = state_of (close session_id) g.sessions;
    session_owners = remove session_id g.session_owners;
  }

  unfoldable pub expire_session : String → String × String → Gateway B X → Gateway B X
  unfolding cancel_session drop_session audit
  expire_session outcome (session_id, principal) g =
      audit "session.expire" outcome (some principal) none (some session_id) none
        (drop_session session_id (cancel_session session_id g))

  unfoldable pub expire_sessions : String → List (String × String) → Gateway B X → Gateway B X
  unfolding expire_session
  expire_sessions outcome [] g = g
  expire_sessions outcome (p ∷ ps) g = expire_sessions outcome ps (expire_session outcome p g)

  abbrev pub statement_fresh : ServiceLimits → ℕ → PreparedStatementRecord B X → Bool
  statement_fresh limits now s = ltb (now - s.last_access) limits.prepared_statement_ttl

  abbrev pub record_fresh : ServiceLimits → ℕ → QueryRecord B X → Bool
  record_fresh limits now r = elim r.details.completed_at [
    | none ↦ true
    | some completed ↦ ltb (now - completed) limits.result_ttl
  ]

  -- The sessions that statements own which have expired, with the owners of the statements.
  unfoldable pub expired_prepared_sessions :
      ServiceLimits → ℕ → Dict String (PreparedStatementRecord B X) → List (String × String)
  expired_prepared_sessions limits now prepared =
      map (λ (s : PreparedStatementRecord B X). (s.session_id, s.owner))
        (keep
          (λ (s : PreparedStatementRecord B X).
            not (statement_fresh limits now s) && s.owns_session)
          (values prepared))

  unfoldable pub drop_statements : ServiceLimits → ℕ → Gateway B X → Gateway B X
  drop_statements limits now g = record g {
    prepared = retain (λ (id : String). statement_fresh limits now) g.prepared;
  }

  unfoldable pub drop_records : ServiceLimits → ℕ → Gateway B X → Gateway B X
  drop_records limits now g = record g {
    records = retain (λ (id : String). record_fresh limits now) g.records;
  }

  unfoldable pub cleanup_expired : ServiceLimits → ℕ → Gateway B X → Gateway B X
  unfolding expired_prepared_sessions drop_statements expire_sessions drop_records expired_sessions
  cleanup_expired limits now g =
      let stopped =
        expire_sessions "prepared_handle_expired" (expired_prepared_sessions limits now g.prepared)
          (drop_statements limits now g) in
      let kept = drop_records limits now stopped in
      expire_sessions "cancelled_active_queries" (expired_sessions limits now kept.session_owners)
        kept
