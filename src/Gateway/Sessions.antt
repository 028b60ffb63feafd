-- ===== src/Gateway/Sessions.antt =====
-- crates/qcli-service/src/lib.rs: the operations on sessions, for the interactive and HTTP clients.
use conflux_query.Base.{
  string_eq, ◌==◌, nat_eq, ok, map_err, Exec, pure, modify, ◌>>=◌, ◌>>◌, ℕ, String, not, Option,
  none, some,
}
use conflux_query.Dict.{Dict, insert, remove, retain}
use conflux_query.Target.{ResolvedTarget}
use conflux_query.Session.{
  Manager, CoreError, SessionSnapshot, Surroundings, create_with_overrides, snapshot_of,
  set_options, switch_target as retarget, mutate, close,
}
use conflux_query.Gateway.{
  Gateway, Setup, Principal, PreparedStatementRecord, Action, core_error, ensure_available, audit,
  authorized_target, require_session_owner, enforce_session_quota,
}
use conflux_query.Gateway.Cleanup.{cleanup_expired, cancel_session}

module _ {B X : Type 0} where
  -- A method of the session manager, its error as the gateway reports it.
  unfoldable pub on_sessions : {A : Type 0} → Exec Manager CoreError A → Action B X A
  unfolding core_error
  on_sessions f g = (map_err core_error (f g.sessions).0, record g { sessions = (f g.sessions).1 })

  unfoldable pub own_session : ℕ → Principal → SessionSnapshot → Gateway B X → Gateway B X
  own_session now p s g = record g {
    session_owners = insert s.id (record { principal = p.id; last_access = now }) g.session_owners;
  }

  -- The creation of the session and the entry of its owner, which no check stands between.
  unfoldable pub open_session :
      ℕ
      → Surroundings
      → Principal
      → ResolvedTarget
      → Dict String String
      → Action B X SessionSnapshot
  unfolding own_session audit
  open_session now env p t overrides g =
      let (s, sessions) = create_with_overrides env t overrides g.sessions in
      (
        ok s,
        audit "session.create" "allowed" (some p.id) (some s.target) (some s.id) none
            (own_session now p s (record g { sessions = sessions })),
      )

module _ {B X : Type 0} (now : ℕ) where
  unfoldable pub session : Principal → String → Action B X SessionSnapshot
  unfolding require_session_owner on_sessions
  session p session_id = do
    require_session_owner now p session_id
    on_sessions (λ m. (snapshot_of session_id m, m))

  unfoldable pub update_session :
      Principal → String → ℕ → Dict String String → Action B X SessionSnapshot
  unfolding ensure_available require_session_owner on_sessions
  update_session p session_id expected overrides = do
    ensure_available
    require_session_owner now p session_id
    on_sessions (set_options session_id expected overrides)

module _ {B X : Type 0} (setup : Setup B X) (now : ℕ) where
  unfoldable pub create_session :
      Surroundings → Principal → String → Dict String String → Action B X SessionSnapshot
  unfolding open_session ensure_available cleanup_expired enforce_session_quota authorized_target
  create_session env p target_name overrides = do
    ensure_available
    modify (cleanup_expired setup.limits now)
    enforce_session_quota p
    t ← authorized_target setup p target_name
    open_session now env p t overrides

  unfoldable pub switch_target : Principal → String → ℕ → String → Action B X SessionSnapshot
  unfolding ensure_available require_session_owner authorized_target on_sessions
  switch_target p session_id expected target_name = do
    ensure_available
    require_session_owner now p session_id
    t ← authorized_target setup p target_name
    on_sessions (retarget session_id expected t)

  -- `target_name.map(..).transpose()?`
  unfoldable pub authorized_change : Principal → Option String → Action B X (Option ResolvedTarget)
  unfolding authorized_target
  authorized_change p none = pure none
  authorized_change p (some name) = do t ← authorized_target setup p name; pure (some t)

  unfoldable pub mutate_session :
      Principal
      → String
      → ℕ
      → Option String
      → Dict String (Option String)
      → Action B X SessionSnapshot
  unfolding ensure_available require_session_owner authorized_change on_sessions
  mutate_session p session_id expected target_name overrides = do
    ensure_available
    require_session_owner now p session_id
    t ← authorized_change p target_name
    on_sessions (mutate session_id expected t overrides)

module _ {B X : Type 0} where
  unfoldable pub forget_session : String → Gateway B X → Gateway B X
  forget_session session_id g = record g {
    session_owners = remove session_id g.session_owners;
    prepared =
        retain (λ (id : String) (s : PreparedStatementRecord B X). not (s.session_id == session_id))
          g.prepared;
  }

module _ {B X : Type 0} (now : ℕ) where
  unfoldable pub close_session : Principal → String → Action B X (Unit {0})
  unfolding require_session_owner cancel_session on_sessions forget_session audit
  close_session p session_id = do
    require_session_owner now p session_id
    modify (cancel_session session_id)
    on_sessions (close session_id)
    modify (forget_session session_id)
    modify (audit "session.delete" "allowed" (some p.id) none (some session_id) none)
