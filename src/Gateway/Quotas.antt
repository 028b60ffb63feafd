-- ===== src/Gateway/Quotas.antt =====
-- crates/qcli-service/src/lib.rs: the quotas of a principal and the limits of the gateway, where a
-- call runs without another one between its check and its entry.
use conflux_query.Base.{
  leb, Bool-cases, ◌==◌, nat_eq, string_eq, eq_self, length, Result, ok, bind-ok, ℕ, ◌+◌, ◌≤◌, ◌<◌,
  String, ◌≡◌, sym, ap, subst, inl, inr, ◌&&◌, some, arith,
}
use conflux_query.Dict.{Dict, lookup}
use conflux_query.Dict.Laws.{lookup-insert}
use conflux_query.Dict.Counting.{count-insert, length-insert}
use conflux_query.Driver.{submitted}
use conflux_query.Session.{SessionSnapshot, Surroundings, create_with_overrides}
use conflux_query.Target.{ResolvedTarget}
use conflux_query.Record.{QueryRecord, QueryStatus, query_status, new_data}
use conflux_query.Gateway.{
  Gateway, Setup, Principal, ServiceError, SessionOwner, authorized_target, enforce_session_quota,
  enforce_query_quota, owned_sessions, active_queries, ensure_available, audit, is_active,
}
use conflux_query.Gateway.Cleanup.{cleanup_expired}
use conflux_query.Gateway.Sessions.{create_session, open_session, own_session}
use conflux_query.Gateway.Queries.{
  submit_query, check_sql, check_records, check_adapter, register, new_record,
}

module _ {B X : Type 0} where
  enforce_session_quota-ok :
      (p : Principal) (g g' : Gateway B X)
      → enforce_session_quota p g ≡ (ok tt, g')
      → (owned_sessions p g < p.max_sessions) × (g' ≡ g)
  unfolding enforce_session_quota
  enforce_session_quota-ok p g g' h = elim (Bool-cases (leb p.max_sessions (owned_sessions p g))) [
    | inl full ↦ absurd (ground (arith, h, full))
    | inr room ↦ ground (arith, h, room)
  ]

  authorized_target-ok :
      (setup : Setup B X) (p : Principal) (name : String) (g g' : Gateway B X) (t : ResolvedTarget)
      → authorized_target setup p name g ≡ (ok t, g')
      → g' ≡ g
  unfolding authorized_target
  authorized_target-ok setup p name g g' t h = ground (arith, h)

  open_session-owned :
      (now : ℕ) (env : Surroundings) (p : Principal) (t : ResolvedTarget)
      (overrides : Dict String String) (g : Gateway B X)
      → owned_sessions p (open_session now env p t overrides g).1 ≤ owned_sessions p g + 1
  unfolding open_session own_session owned_sessions audit
  open_session-owned now env p t overrides g =
      let s = (create_with_overrides env t overrides g.sessions).0 in
      ground (
        arith,
        count-insert (λ (o : SessionOwner). o.principal == p.id) s.id
            (record { principal = p.id; last_access = now }) g.session_owners,
        eq_self p.id,
      )

  -- A principal that has just been given a session has no more sessions than its quota allows.
  pub create_session_quota :
      (setup : Setup B X) (now : ℕ) (env : Surroundings) (p : Principal) (target_name : String)
      (overrides : Dict String String) (g g' : Gateway B X) (s : SessionSnapshot)
      → create_session setup now env p target_name overrides g ≡ (ok s, g')
      → owned_sessions p g' ≤ p.max_sessions
  unfolding create_session
  create_session_quota setup now env p target_name overrides g g' s h =
      let (_, g₁, up, h₁) = bind-ok ensure_available _ g s g' h in
      let g₂ = cleanup_expired setup.limits now g₁ in
      let (_, g₃, quota, h₃) = bind-ok (enforce_session_quota p) _ g₂ s g' h₁ in
      let (t, g₄, allowed, h₄) = bind-ok (authorized_target setup p target_name) _ g₃ s g' h₃ in
      let (room, same) = enforce_session_quota-ok p g₂ g₃ quota in
      let same' = authorized_target-ok setup p target_name g₃ g₄ t allowed in
      omega (
        arith,
        room,
        ap (owned_sessions p) same,
        ap (owned_sessions p) same',
        ap (λ (x : Result ServiceError SessionSnapshot × Gateway B X). owned_sessions p x.1) h₄,
        open_session-owned now env p t overrides g₄,
      )

  enforce_query_quota-ok :
      (p : Principal) (g g' : Gateway B X)
      → enforce_query_quota p g ≡ (ok tt, g')
      → (active_queries p g < p.max_concurrent_queries) × (g' ≡ g)
  unfolding enforce_query_quota
  enforce_query_quota-ok p g g' h =
      elim (Bool-cases (leb p.max_concurrent_queries (active_queries p g))) [
        | inl full ↦ absurd (ground (arith, h, full))
        | inr room ↦ ground (arith, h, room)
      ]

  check_records-ok :
      (setup : Setup B X) (g g' : Gateway B X)
      → check_records setup.limits g ≡ (ok tt, g')
      → (length g.records < setup.limits.max_queries) × (g' ≡ g)
  unfolding check_records
  check_records-ok setup g g' h =
      elim (Bool-cases (leb setup.limits.max_queries (length g.records))) [
        | inl full ↦ absurd (ground (arith, h, full))
        | inr room ↦ ground (arith, h, room)
      ]

  check_adapter-ok :
      (setup : Setup B X) (engine : String) (g g' : Gateway B X)
      → check_adapter setup engine g ≡ (ok tt, g')
      → g' ≡ g
  unfolding check_adapter
  check_adapter-ok setup engine g g' h = ground (arith, h)

  register_lem :
      (p : Principal) (r : QueryRecord B X) (g : Gateway B X)
      → (active_queries p (register p r g).1 ≤ active_queries p g + 1)
        × (length (register p r g).1.records ≤ length g.records + 1)
        × (lookup r.id (register p r g).1.records ≡ some r)
  unfolding register active_queries audit
  register_lem p r g = (
    ground (
      arith,
      count-insert (λ (q : QueryRecord B X). (q.owner == p.id) && is_active q) r.id r g.records,
    ),
    omega (arith, length-insert r.id r g.records),
    ground (arith, lookup-insert r.id r.id r g.records, eq_self r.id),
  )

  register-status :
      (p : Principal) (r : QueryRecord B X) (g g' : Gateway B X) (status : QueryStatus)
      → register p r g ≡ (ok status, g')
      → status ≡ query_status r
  unfolding register
  register-status p r g g' status h = cc

  registered :
      (setup : Setup B X) (uuid : String) (p : Principal) (s : SessionSnapshot) (g g' : Gateway B X)
      (status : QueryStatus)
      → register p (new_record uuid p s) g ≡ (ok status, g')
      → active_queries p g < p.max_concurrent_queries
      → length g.records < setup.limits.max_queries
      → (active_queries p g' ≤ p.max_concurrent_queries)
        × (length g'.records ≤ setup.limits.max_queries)
        × (lookup status.id g'.records ≡ some (new_record uuid p s))
        × (status.state ≡ submitted)
  unfolding query_status new_record new_data
  registered setup uuid p s g g' status h room space =
      let r = new_record {B = B} {X = X} uuid p s in
      let (active, many, found) = register_lem p r g in
      let same : (register p r g).1 ≡ g' =
        ap (λ (x : Result ServiceError QueryStatus × Gateway B X). x.1) h in
      let told : status ≡ query_status r = register-status p r g g' status h in
      (
        omega (arith, active, room, ap (active_queries p) same),
        omega (arith, many, space, ap (λ (x : Gateway B X). length x.records) same),
        subst (λ (x : Gateway B X). lookup status.id x.records ≡ some r) same
            (subst (λ (q : QueryStatus). lookup q.id (register p r g).1.records ≡ some r) (sym told)
              found),
        ap (λ (q : QueryStatus). q.state) told,
      )

  -- A query that has just been accepted is in the registry as `submitted`, under its owner; the
  -- owner has no more active queries than its quota allows, and the gateway no more records than its
  -- limit.
  pub submit_query_quota :
      (setup : Setup B X) (now : ℕ) (uuid : String) (p : Principal) (s : SessionSnapshot)
      (sql : String) (g g' : Gateway B X) (status : QueryStatus)
      → submit_query setup now uuid p s sql g ≡ (ok status, g')
      → (active_queries p g' ≤ p.max_concurrent_queries)
        × (length g'.records ≤ setup.limits.max_queries)
        × (lookup status.id g'.records ≡ some (new_record uuid p s))
        × (status.state ≡ submitted)
  unfolding submit_query
  submit_query_quota setup now uuid p s sql g g' status h =
      let (_, g₁, up, h₁) = bind-ok ensure_available _ g status g' h in
      let (_, g₂, sized, h₂) = bind-ok (check_sql setup.limits sql) _ g₁ status g' h₁ in
      let g₃ = cleanup_expired setup.limits now g₂ in
      let (_, g₄, quota, h₄) = bind-ok (enforce_query_quota p) _ g₃ status g' h₂ in
      let (_, g₅, few, h₅) = bind-ok (check_records setup.limits) _ g₄ status g' h₄ in
      let (_, g₆, adapter, h₆) = bind-ok (check_adapter setup s.engine) _ g₅ status g' h₅ in
      let (room, e₄) = enforce_query_quota-ok p g₃ g₄ quota in
      let (space, e₅) = check_records-ok setup g₄ g₅ few in
      let e₆ = check_adapter-ok setup s.engine g₅ g₆ adapter in
      registered setup uuid p s g₆ g' status h₆
        (omega (
          arith,
          room,
          ap (active_queries p) e₄,
          ap (active_queries p) e₅,
          ap (active_queries p) e₆,
        ))
        (omega (
          arith,
          space,
          ap (λ (x : Gateway B X). length x.records) e₅,
          ap (λ (x : Gateway B X). length x.records) e₆,
        ))
