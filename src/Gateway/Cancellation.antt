-- ===== src/Gateway/Cancellation.antt =====
-- crates/qcli-service/src/lib.rs: `cancel` on a record, and who has a new session.
use conflux_query.Base.{
  nat_eq, string_eq, eq_iff_eq, eq_self, ok, err, bind-err, ℕ, String, ◌≡◌, refl, ◌≢◌, true, false,
  none, some, arith,
}
use conflux_query.Dict.{Dict, lookup}
use conflux_query.Dict.Laws.{lookup-insert}
use conflux_query.Session.{SessionSnapshot, Surroundings, create_with_overrides, snapshot_of}
use conflux_query.Session.Collisions.{create_lem}
use conflux_query.Target.{ResolvedTarget}
use conflux_query.Results.{ResultStorage, memory, spill}
use conflux_query.Record.{QueryRecord, is_terminal, push_event, enter_state}
use conflux_query.Gateway.{Gateway, Principal, SessionOwner, require_session_owner, audit}
use conflux_query.Gateway.Sessions.{session, open_session, own_session, on_sessions}
use conflux_query.Gateway.Queries.{cancelled_record}
use conflux_query.Gateway.Reading.{
  closed_batches, query_running, page_source, count_batches, reader_source, check_readable,
}
use conflux_query.Gateway.Access.{session_missing, require_session_owner-NotTheirs}

module _ {B X : Type 0} where
  -- A query without an error has no readable results after `cancel`, also where it was completed
  -- before: pages, the number of batches and readers are refused as for a query that still runs.
  pub cancelled_record-unreadable :
      (now : ℕ) (r : QueryRecord B X)
      → r.details.error ≡ none
      → (page_source (cancelled_record now r).details ≡ err query_running)
        × (count_batches (cancelled_record now r).details ≡ err query_running)
        × (reader_source (cancelled_record now r).details ≡ err query_running)
  unfolding page_source count_batches reader_source cancelled_record check_readable push_event
      enter_state
  cancelled_record-unreadable now r sound =
      (page_source-unreadable r.details.retained.storage, refl, ground (arith, sound))
    where
      page_source-unreadable :
          (storage : ResultStorage B)
          → elim (closed_batches storage) [
            | err e ↦ err e
            | ok batches ↦ check_readable is_terminal (cancelled_record now r).details batches
          ]
            ≡ err query_running
      page_source-unreadable (memory batches) = ground (arith, sound)
      page_source-unreadable (spill batches true) = refl
      page_source-unreadable (spill batches false) = ground (arith, sound)

  session-owned :
      (now : ℕ) (p : Principal) (id : String) (g : Gateway B X) (o : SessionOwner)
      (s : SessionSnapshot)
      → lookup id g.session_owners ≡ some o
      → o.principal ≡ p.id
      → snapshot_of id g.sessions ≡ ok s
      → (session now p id g).0 ≡ ok s
  unfolding session require_session_owner on_sessions
  session-owned now p id g o s owned same held =
      let mine = (eq_iff_eq o.principal p.id).1 same in
      rw (owned, session, require_session_owner, mine) (rw (held, session, on_sessions) refl)

  -- A new session is its creator's alone, also where its id was that of another session: the creator
  -- reads what it has created, and for any other principal there is no such session.
  pub open_session_exclusive :
      (now : ℕ) (env : Surroundings) (p q : Principal) (t : ResolvedTarget)
      (overrides : Dict String String) (g : Gateway B X)
      → q.id ≢ p.id
      → let s = (create_with_overrides env t overrides g.sessions).0 in
        let g' = (open_session now env p t overrides g).1 in
        ((session now p s.id g').0 ≡ ok s) × (session now q s.id g' ≡ (err session_missing, g'))
  unfolding open_session own_session session audit
  open_session_exclusive now env p q t overrides g other =
      let s = (create_with_overrides env t overrides g.sessions).0 in
      let o : SessionOwner = record { principal = p.id; last_access = now } in
      let g' = (open_session now env p t overrides g).1 in
      let owned : lookup s.id g'.session_owners ≡ some o =
        ground (arith, lookup-insert s.id s.id o g.session_owners, eq_self s.id) in
      (
        session-owned now p s.id g' o s owned refl (create_lem env t overrides g.sessions).1,
        bind-err (require_session_owner now q s.id) _ g' g' session_missing (
            require_session_owner-NotTheirs now q s.id g'
              (λ w found e. other (ground (arith, owned, found, e)))),
      )
