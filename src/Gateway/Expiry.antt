-- ===== src/Gateway/Expiry.antt =====
-- crates/qcli-service/src/lib.rs: what `cleanup_expired` leaves of records and of session owners.
use mathlib.Core.Option
use conflux_query.Base.{
  if◌then◌else◌, ◌==◌, nat_eq, string_eq, ℕ, ◌-◌, ◌<◌, String, ◌≡◌, refl, sym, ap, ◌∙◌, Bool, true,
  false, ◌||◌, Option, none, some, List, [], ◌∷◌, arith,
}
use conflux_query.Dict.{Dict, lookup}
use conflux_query.Dict.Laws.{lookup-remove, lookup-retain, lookup-map_values, filter_option}
use conflux_query.Limits.{ServiceLimits}
use conflux_query.Record.{QueryRecord}
use conflux_query.Gateway.{Gateway, SessionOwner, audit}
use conflux_query.Gateway.Cleanup.{
  cancel_where, cancel_session, drop_session, expire_session, expire_sessions,
  expired_prepared_sessions, expired_sessions, drop_statements, drop_records, cleanup_expired,
  record_fresh, owner_expired,
}

-- Whether a session is among those that expire.
abbrev pub listed : String → List (String × String) → Bool
listed id [] = false
listed id ((session_id, principal) ∷ ps) = (session_id == id) || listed id ps

module _ {B X : Type 0} where
  -- A record without the flag that asks its task to stop.
  abbrev pub calm : QueryRecord B X → QueryRecord B X
  calm r = record r { cancel = false }

  calm-cancel_where :
      (p : QueryRecord B X → Bool) (o : Option (QueryRecord B X))
      → Option.map calm (Option.map (cancel_where p) o) ≡ Option.map calm o
  calm-cancel_where p none = refl
  calm-cancel_where p (some r) = ground arith

  calm-filter_option :
      (limits : ServiceLimits) (now : ℕ) (o : Option (QueryRecord B X))
      → Option.map calm (filter_option (record_fresh limits now) o)
        ≡ filter_option (record_fresh limits now) (Option.map calm o)
  calm-filter_option limits now none = refl
  calm-filter_option limits now (some r) = ground arith

  expire_sessions-records :
      (outcome : String) (ps : List (String × String)) (id : String) (g : Gateway B X)
      → Option.map calm (lookup id (expire_sessions outcome ps g).records)
        ≡ Option.map calm (lookup id g.records)
  unfolding expire_sessions expire_session drop_session cancel_session audit
  expire_sessions-records outcome [] id g = refl
  expire_sessions-records outcome ((s, p) ∷ ps) id g =
      expire_sessions-records outcome ps id _
      ∙ ap (Option.map calm) (lookup-map_values _ id g.records)
      ∙ calm-cancel_where _ (lookup id g.records)

  expire_sessions-session_owners :
      (outcome : String) (ps : List (String × String)) (id : String) (g : Gateway B X)
      → lookup id (expire_sessions outcome ps g).session_owners
        ≡ (if listed id ps then none else lookup id g.session_owners)
  unfolding expire_sessions expire_session drop_session cancel_session audit
  expire_sessions-session_owners outcome [] id g = refl
  expire_sessions-session_owners outcome ((s, p) ∷ ps) id g =
      let rest = expire_session outcome (s, p) g in
      ground (
        arith,
        expire_sessions-session_owners outcome ps id rest,
        lookup-remove s id g.session_owners,
      )

  -- Every query of a record stays as it was, but for the flag that asks its task to stop, unless it
  -- ended a whole result lifetime ago: then it is gone.
  pub cleanup_expired-records :
      (limits : ServiceLimits) (now : ℕ) (id : String) (g : Gateway B X)
      → Option.map calm (lookup id (cleanup_expired limits now g).records)
        ≡ Option.map calm (filter_option (record_fresh limits now) (lookup id g.records))
  unfolding cleanup_expired drop_records drop_statements
  cleanup_expired-records limits now id g =
      let ps = expired_prepared_sessions limits now g.prepared in
      let stopped = expire_sessions "prepared_handle_expired" ps (drop_statements limits now g) in
      expire_sessions-records "cancelled_active_queries"
        (expired_sessions limits now stopped.session_owners) id (drop_records limits now stopped)
      ∙ ap (Option.map calm) (lookup-retain _ id stopped.records)
      ∙ calm-filter_option limits now (lookup id stopped.records)
      ∙ ap (filter_option (record_fresh limits now))
          (expire_sessions-records "prepared_handle_expired" ps id (drop_statements limits now g))
      ∙ sym (calm-filter_option limits now (lookup id g.records))

listed-expired_sessions :
    (limits : ServiceLimits) (now : ℕ) (id : String) (o : SessionOwner)
    (owners : Dict String SessionOwner)
    → lookup id owners ≡ some o
    → owner_expired limits now o ≡ true
    → listed id (expired_sessions limits now owners) ≡ true
unfolding expired_sessions lookup
listed-expired_sessions limits now id o [] found h = cc
listed-expired_sessions limits now id o ((k, w) ∷ owners) found h =
    ground (arith, listed-expired_sessions limits now id o owners)

module _ {B X : Type 0} where
  -- An owner that is left has used its session within the session's lifetime, and stood there
  -- before.
  pub cleanup_expired-session_owners :
      (limits : ServiceLimits) (now : ℕ) (id : String) (o : SessionOwner) (g : Gateway B X)
      → lookup id (cleanup_expired limits now g).session_owners ≡ some o
      → (now - o.last_access < limits.session_ttl) × (lookup id g.session_owners ≡ some o)
  unfolding cleanup_expired drop_records drop_statements
  cleanup_expired-session_owners limits now id o g h =
      let ps = expired_prepared_sessions limits now g.prepared in
      let stopped = expire_sessions "prepared_handle_expired" ps (drop_statements limits now g) in
      let first =
        expire_sessions-session_owners "prepared_handle_expired" ps id
          (drop_statements limits now g) in
      let second =
        expire_sessions-session_owners "cancelled_active_queries"
          (expired_sessions limits now stopped.session_owners) id
          (drop_records limits now stopped) in
      let caught = listed-expired_sessions limits now id o stopped.session_owners in
      ground (arith, first, second, caught)
