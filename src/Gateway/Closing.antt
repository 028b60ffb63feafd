-- ===== src/Gateway/Closing.antt =====
-- crates/qcli-service/src/lib.rs: what `close_session` leaves, and what a refused query without a
-- session of its own leaves.
use mathlib.Core.Option
use conflux_query.Base.{
  Bool-cases, Option-cases, string_eq, ◌==◌, nat_eq, eq_iff_eq, eq_self, Result, ok, err, bind-ok,
  ℕ, String, ◌≡◌, refl, sym, ap, ◌∙◌, subst, ◌≢◌, inl, inr, not, none, some, arith,
}
use conflux_query.Dict.{lookup, map_values}
use conflux_query.Dict.Laws.{lookup-remove, lookup-retain, lookup-map_values}
use conflux_query.Session.{Manager, SessionSnapshot, close}
use conflux_query.Record.{QueryRecord, QueryStatus}
use conflux_query.Gateway.{
  Gateway, Setup, Principal, ServiceError, PreparedStatementRecord, require_session_owner, audit,
}
use conflux_query.Gateway.Cleanup.{cancel_where, cancel_session, drop_session}
use conflux_query.Gateway.Sessions.{close_session, on_sessions, forget_session}
use conflux_query.Gateway.Queries.{submit_query, submit_in_new_session}

close-gone : (id : String) (m : Manager) → lookup id (close id m).1.sessions ≡ none
unfolding close
close-gone id m = elim (Option-cases (lookup id m.sessions)) [
  | inl missing ↦ ground (arith, missing)
  | inr (s, found) ↦ ground (arith, found, lookup-remove id id m.sessions, eq_self id)
]

-- The session is gone, with its owner and its statements.
pub record IsClosed {B X : Type 0} (id : String) (g : Gateway B X) : Type 0 where
  pub no_session : lookup id g.sessions.sessions ≡ none
  pub no_owner : lookup id g.session_owners ≡ none
  pub no_statements :
      (handle : String) (s : PreparedStatementRecord B X)
      → lookup handle g.prepared ≡ some s
      → s.session_id ≢ id

module _ {B X : Type 0} where
  require_session_owner-keeps :
      (now : ℕ) (p : Principal) (id : String) (g g' : Gateway B X)
      → require_session_owner now p id g ≡ (ok tt, g')
      → g'.records ≡ g.records
  unfolding require_session_owner
  require_session_owner-keeps now p id g g' h = elim (Option-cases (lookup id g.session_owners)) [
    | inl missing ↦ absurd (ground (arith, h, missing))
    | inr (o, found) ↦ elim (Bool-cases (o.principal == p.id)) [
      | inl mine ↦ ground (arith, h, found, mine)
      | inr theirs ↦ absurd (ground (arith, h, found, theirs))
    ]
  ]

  forget_session-IsClosed :
      (id : String) (g : Gateway B X)
      → lookup id g.sessions.sessions ≡ none
      → IsClosed id (forget_session id g)
  unfolding forget_session
  forget_session-IsClosed id g gone = record {
    no_session = gone;
    no_owner = ground (arith, lookup-remove id id g.session_owners, eq_self id);
    no_statements = λ handle s found e. ground (
      arith,
      found,
      e,
      lookup-retain (λ (h : String) (t : PreparedStatementRecord B X). not (t.session_id == id))
          handle g.prepared,
      Option-cases (lookup handle g.prepared),
      eq_iff_eq s.session_id id,
    );
  }

  forget_session-records :
      (id : String) (g : Gateway B X) → (forget_session id g).records ≡ g.records
  unfolding forget_session
  forget_session-records id g = refl

  closed :
      (id : String) (g g₁ g₃ g' : Gateway B X) (p : Principal)
      → g₁.records ≡ g.records
      → on_sessions (close id) (cancel_session id g₁) ≡ (ok tt, g₃)
      → ◌≡◌ {A = Result ServiceError (Unit {0}) × Gateway B X}
          (
            ok tt,
            audit "session.delete" "allowed" (some p.id) none (some id) none (forget_session id g₃),
          )
          (ok tt, g')
      → IsClosed id g'
        × ((query_id : String)
            → lookup query_id g'.records
              ≡ Option.map
                  (cancel_where (λ (r : QueryRecord B X). r.session_id == id))
                  (lookup query_id g.records))
  unfolding on_sessions cancel_session audit
  closed id g g₁ g₃ g' p same shut done =
      let e₃ : record (cancel_session id g₁) { sessions = (close id g₁.sessions).1 } ≡ g₃ =
        ap (λ (x : Result ServiceError (Unit {0}) × Gateway B X). x.1) shut in
      let e' = ap (λ (x : Result ServiceError (Unit {0}) × Gateway B X). x.1) done in
      let gone : lookup id g₃.sessions.sessions ≡ none =
        subst (λ (x : Gateway B X). lookup id x.sessions.sessions ≡ none) e₃
          (close-gone id g₁.sessions) in
      let left = forget_session-IsClosed id g₃ gone in
      let records : g'.records
          ≡ map_values (cancel_where (λ (r : QueryRecord B X). r.session_id == id)) g₁.records =
        sym (ap (λ (x : Gateway B X). x.records) e')
        ∙ forget_session-records id g₃
        ∙ sym (ap (λ (x : Gateway B X). x.records) e₃) in
      (
        subst (IsClosed id) e' (record {
          no_session = left.no_session;
          no_owner = left.no_owner;
          no_statements = left.no_statements;
        }),
        λ query_id.
            ap (lookup query_id) records
            ∙ lookup-map_values _ query_id g₁.records
            ∙ ap
                (λ rs.
                  Option.map (cancel_where (λ (r : QueryRecord B X). r.session_id == id))
                    (lookup query_id rs))
                same,
      )

  -- A session that has been closed is gone, with its owner and all statements prepared in it, and
  -- the tasks of exactly its queries have been asked to stop; no record changes otherwise.
  pub close_session_lem :
      (now : ℕ) (p : Principal) (id : String) (g g' : Gateway B X)
      → close_session now p id g ≡ (ok tt, g')
      → IsClosed id g'
        × ((query_id : String)
            → lookup query_id g'.records
              ≡ Option.map
                  (cancel_where (λ (r : QueryRecord B X). r.session_id == id))
                  (lookup query_id g.records))
  unfolding close_session
  close_session_lem now p id g g' h =
      let (_, g₁, owned, h₁) = bind-ok (require_session_owner now p id) _ g tt g' h in
      let g₂ = cancel_session id g₁ in
      let (_, g₃, shut, h₂) = bind-ok (on_sessions (close id)) _ g₂ tt g' h₁ in
      closed id g g₁ g₃ g' p (require_session_owner-keeps now p id g g₁ owned) shut h₂

  after_refusal :
      (id : String) (r : Result ServiceError QueryStatus) (e : ServiceError) (g g' : Gateway B X)
      → ◌≡◌ {A = Result ServiceError QueryStatus × Gateway B X}
          (elim r [ ok status ↦ (ok status, g) | err e' ↦ (err e', drop_session id g) ])
          (err e, g')
      → drop_session id g ≡ g'
  after_refusal id (ok status) e g g' h = cc
  after_refusal id (err e') e g g' h =
      ap (λ (x : Result ServiceError QueryStatus × Gateway B X). x.1) h

  drop_session-gone :
      (id : String) (g : Gateway B X)
      → (lookup id (drop_session id g).sessions.sessions ≡ none)
        × (lookup id (drop_session id g).session_owners ≡ none)
  unfolding drop_session
  drop_session-gone id g =
      (close-gone id g.sessions, ground (arith, lookup-remove id id g.session_owners, eq_self id))

  -- Where the query of a stateless request is refused, for whatever reason, the session that was
  -- made for it is gone, and so is its owner.
  pub refused_query_closes :
      (setup : Setup B X) (now : ℕ) (uuid : String) (p : Principal) (s : SessionSnapshot)
      (sql : String) (e : ServiceError) (g g' : Gateway B X)
      → submit_in_new_session setup now uuid p s sql g ≡ (err e, g')
      → (lookup s.id g'.sessions.sessions ≡ none) × (lookup s.id g'.session_owners ≡ none)
  unfolding submit_in_new_session
  refused_query_closes setup now uuid p s sql e g g' h =
      let (result, g₁) = submit_query setup now uuid p s sql g in
      let same = after_refusal s.id result e g₁ g' h in
      subst
        (λ (x : Gateway B X).
          (lookup s.id x.sessions.sessions ≡ none) × (lookup s.id x.session_owners ≡ none))
        same (drop_session-gone s.id g₁)
