-- ===== src/Shared/Travel.antt =====
-- crates/qcli-service/src/lib.rs: a session made on one node, used on another.
use conflux_query.Base.{
  string_eq, nat_eq, eq_iff_eq, Result, ok, err, pure, state_of, ◌>>=◌, bind-ok, bind-step, ℕ, ◌+◌,
  ◌<◌, String, ◌≡◌, sym, ap, ◌∙◌, subst, ◌≢◌, none, some, arith,
}
use conflux_query.Base.{pair_eq}
use conflux_query.Dict.{Dict, lookup}
use conflux_query.Target.{ResolvedTarget, target}
use conflux_query.Session.{SessionSnapshot, Surroundings, restore}
use conflux_query.Gateway.{
  Gateway, Setup, Principal, ServiceError, not_found, error, ensure_available,
  require_session_owner,
}
use conflux_query.Gateway.Sessions.{on_sessions, session, create_session, close_session}
use conflux_query.Cluster.{
  SharedResource, MemoryState, acquire_quota, release_quota, put_resource, get_resource,
}
use conflux_query.Cluster.Access.{get_resource-own, get_resource-foreign}
use conflux_query.Cluster.Writes.{put_resource-ok}
use conflux_query.Shared.{
  ClusterContext, SharedSession, Payload, session_payload, cluster_service_error, Node, Step,
  on_gateway, on_store, in_store, or_undo, on_store-ok, on_store-done, or_undo-done,
}
use conflux_query.Shared.Sessions.{
  session_resource, share_session, create_session_clustered, adopt, shared_session, hydrate,
  session_clustered,
}

module _ {B X : Type 0} (setup : Setup B X) where
  -- What the store has of a session that a principal shares, and how long.
  abbrev pub IsShared : Principal → SharedSession → (deadline : ℕ) → MemoryState Payload → Type 0
  IsShared p shared deadline s =
      (r : SharedResource Payload) × (lookup ("session", shared.snapshot.id) s.resources ≡ some r)
      × (r.principal_id ≡ p.id)
      × (r.expires_at ≡ deadline)
      × (r.payload ≡ session_payload shared)

  share_session-ok :
      (now : ℕ) (p : Principal) (s made : SessionSnapshot) (permit : String) (n m : Node B X)
      → share_session setup now p s permit n ≡ (ok made, m)
      → (made ≡ s)
        × IsShared p
            (record { snapshot = s; quota_permit = permit })
            (now + setup.limits.session_ttl)
            m.store
  unfolding share_session
  share_session-ok now p s made permit n m h =
      let new = session_resource setup now p s permit in
      let put : Step B X (SharedResource Payload) = on_store (put_resource new (some 0)) in
      let undo : Node B X → Node B X = λ k.
        in_store (release_quota permit)
          (record k { gateway = state_of (close_session now p s.id) k.gateway }) in
      let (w, k, done, rest) = bind-ok (or_undo put undo) (λ w. pure s) n made m h in
      let (puts, _) =
        on_store-done (put_resource new (some 0)) w n k (or_undo-done put undo w n k done) in
      let (e, _, there) = put_resource-ok new w (some 0) n.store k.store puts in
      let same : m ≡ k = ground (arith, rest) in
      (
        ground (arith, rest),
        (
          w,
          ap (λ (x : Node B X). lookup ("session", s.id) x.store.resources) same ∙ there,
          ap (λ (x : SharedResource Payload). x.principal_id) e,
          ap (λ (x : SharedResource Payload). x.expires_at) e,
          ap (λ (x : SharedResource Payload). x.payload) e,
        ),
      )

  create_session_clustered-ok :
      (now : ℕ) (cluster : ClusterContext) (permit_id : String) (env : Surroundings) (p : Principal)
      (target_name : String) (overrides : Dict String String) (s : SessionSnapshot) (n m : Node B X)
      → create_session_clustered setup now (some cluster) permit_id env p target_name overrides n
        ≡ (ok s, m)
      → (permit : String) × IsShared p
          (record { snapshot = s; quota_permit = permit })
          (now + setup.limits.session_ttl)
          m.store
  unfolding create_session_clustered
  create_session_clustered-ok now cluster permit_id env p target_name overrides s n m h =
      let create : String → Step B X SessionSnapshot = λ permit.
        or_undo (on_gateway (create_session setup now env p target_name overrides))
          (in_store (release_quota permit)) in
      let acquire : Step B X String =
        on_store
          (acquire_quota now permit_id p.id "sessions" p.max_sessions setup.limits.session_ttl) in
      let (_, n₁, _, h₁) =
        bind-ok (on_gateway ensure_available)
          (λ u. acquire >>= λ permit. create permit >>= λ x. share_session setup now p x permit) n s
          m h in
      let (permit, n₂, _, h₂) =
        bind-ok acquire (λ permit. create permit >>= λ x. share_session setup now p x permit) n₁ s m
          h₁ in
      let (x, n₃, _, h₃) =
        bind-ok (create permit) (λ x. share_session setup now p x permit) n₂ s m h₂ in
      let (same, shared) = share_session-ok now p x s permit n₃ m h₃ in
      (
        permit,
        subst
            (λ y.
              IsShared p (record { snapshot = y; quota_permit = permit })
                (now + setup.limits.session_ttl) m.store)
            (sym same) shared,
      )

module _ {B X : Type 0} where
  session-unknown :
      (now : ℕ) (p : Principal) (session_id : String) (g : Gateway B X)
      → lookup session_id g.session_owners ≡ none
      → session now p session_id g ≡ (err (error not_found "session_not_found"), g)
  unfolding session require_session_owner
  session-unknown now p session_id g unknown = ground (arith, unknown)

module _ {B X : Type 0} (setup : Setup B X) (now : ℕ) where
  adopt-ok :
      (p : Principal) (shared : SharedSession) (t : ResolvedTarget) (n : Node B X)
      → target setup.config shared.snapshot.target ≡ some t
      → shared.snapshot.target ≡ t.name
      → shared.snapshot.engine ≡ t.engine
      → (adopt setup now p shared n).0 ≡ ok shared.snapshot
  unfolding adopt on_sessions restore
  adopt-ok p shared t n known name engine = ground (
    arith,
    known,
    name,
    engine,
    eq_iff_eq shared.snapshot.target t.name,
    eq_iff_eq shared.snapshot.engine t.engine,
  )

  session_clustered-shared :
      (cluster : ClusterContext) (p : Principal) (shared : SharedSession) (deadline : ℕ)
      (t : ResolvedTarget) (n : Node B X)
      → IsShared setup p shared deadline n.store
      → now < deadline
      → lookup shared.snapshot.id n.gateway.session_owners ≡ none
      → target setup.config shared.snapshot.target ≡ some t
      → shared.snapshot.target ≡ t.name
      → shared.snapshot.engine ≡ t.engine
      → (session_clustered setup now (some cluster) p shared.snapshot.id n).0 ≡ ok shared.snapshot
  unfolding session_clustered hydrate shared_session
  session_clustered-shared cluster p shared deadline t n (r, found, own, expires, holds) fresh
        unknown known name engine =
      let id = shared.snapshot.id in
      let get = on_store-ok (get_resource now "session" id p.id) (some r) n n.store (
        get_resource-own now "session" id p.id r n.store found own
          (subst (λ d. now < d) (sym expires) fresh)) in
      let read : shared_session setup now p id n ≡ (ok shared, n) = ground (arith, get, holds) in
      ground (
        arith,
        session-unknown now p id n.gateway unknown,
        ap (λ (q : Result ServiceError SessionSnapshot × Node B X). q.0)
              (bind-step (shared_session setup now p id) (adopt setup now p) n n shared read)
            ∙ adopt-ok p shared t n known name engine,
      )

  session_clustered-foreign :
      (cluster : ClusterContext) (p q : Principal) (shared : SharedSession) (deadline : ℕ)
      (n : Node B X)
      → IsShared setup p shared deadline n.store
      → lookup shared.snapshot.id n.gateway.session_owners ≡ none
      → p.id ≢ q.id
      → session_clustered setup now (some cluster) q shared.snapshot.id n
        ≡ (err (error not_found "forbidden"), n)
  unfolding session_clustered hydrate shared_session cluster_service_error
  session_clustered-foreign cluster p q shared deadline n (r, found, own, expires, holds) unknown
        other =
      let id = shared.snapshot.id in
      ground (
        arith,
        session-unknown now q id n.gateway unknown,
        get_resource-foreign now "session" id q.id r n.store found (λ e. other (sym own ∙ e)),
      )

-- A session that was made on one node and that another node does not know yet is read there, until
-- the session lifetime is over, as it was made, where the configuration of that node has a target of
-- the same name and engine. Any other principal is refused there with the error `forbidden`, which is
-- not the one for a session that does not exist, and asking changes nothing.
pub session_travels :
    {B X : Type 0} (setup setup₂ : Setup B X) (now later : ℕ) (first second : ClusterContext)
    (permit_id : String) (env : Surroundings) (p : Principal) (target_name : String)
    (overrides : Dict String String) (s : SessionSnapshot) (n m : Node B X) (g : Gateway B X)
    (t : ResolvedTarget)
    → create_session_clustered setup now (some first) permit_id env p target_name overrides n
      ≡ (ok s, m)
    → lookup s.id g.session_owners ≡ none
    → later < now + setup.limits.session_ttl
    → target setup₂.config s.target ≡ some t
    → s.target ≡ t.name
    → s.engine ≡ t.engine
    → ((session_clustered setup₂ later
          (some second)
          p
          s.id
          (record { gateway = g; store = m.store })).0
        ≡ ok s)
      × ((q : Principal)
          → p.id ≢ q.id
          → session_clustered setup₂ later
              (some second)
              q
              s.id
              (record { gateway = g; store = m.store })
            ≡ (err (error not_found "forbidden"), record { gateway = g; store = m.store }))
session_travels {B = B} {X = X} setup setup₂ now later first second permit_id env p target_name
      overrides s n m g t made unknown fresh known name engine =
    let (permit, shared) =
      create_session_clustered-ok setup now first permit_id env p target_name overrides s n m
        made in
    let there : SharedSession = record { snapshot = s; quota_permit = permit } in
    let node : Node B X = record { gateway = g; store = m.store } in
    (
      session_clustered-shared setup₂ later second p there (now + setup.limits.session_ttl) t node
          shared fresh unknown known name engine,
      λ q other.
          session_clustered-foreign setup₂ later second p q there (now + setup.limits.session_ttl)
            node shared unknown other,
    )
