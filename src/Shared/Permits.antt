-- ===== src/Shared/Permits.antt =====
-- crates/qcli-service/src/lib.rs: the permit of a session that could not be made.
use conflux_query.Base.{
  if◌then◌else◌, string_eq, nat_eq, eq_self, Result, ok, err, map_err, pure, state_of, ◌>>=◌,
  bind-failed, ℕ, String, ◌≡◌, sym, ap, ◌∙◌, inl, inr, none, some, arith,
}
use conflux_query.Dict.{Dict, lookup}
use conflux_query.Dict.Laws.{lookup-remove}
use conflux_query.Session.{SessionSnapshot, Surroundings}
use conflux_query.Gateway.{Setup, Principal, Action, ServiceError, ensure_available}
use conflux_query.Gateway.Sessions.{create_session, close_session}
use conflux_query.Cluster.{
  SharedResource, MemoryState, ClusterError, acquire_quota, release_quota, put_resource,
}
use conflux_query.Cluster.Access.{acquire_quota-id, acquire_quota-refused}
use conflux_query.Shared.{
  ClusterContext, Payload, Node, Step, on_gateway, on_store, in_store, or_undo, on_store-done,
  or_undo-failed, cluster_service_error,
}
use conflux_query.Shared.Sessions.{session_resource, share_session, create_session_clustered}

module _ {B X : Type 0} where
  release_quota-gone :
      (permit : String) (k m : Node B X)
      → m ≡ in_store (release_quota permit) k
      → lookup permit m.store.permits ≡ none
  unfolding release_quota
  release_quota-gone permit k m e =
      ap (λ (x : Node B X). lookup permit x.store.permits) e
      ∙ lookup-remove permit permit k.store.permits
      ∙ ap (λ b. if b then none else lookup permit k.store.permits) (eq_self permit)

  on_gateway-store :
      {A : Type 0} (f : Action B X A) (r : Result ServiceError A) (n m : Node B X)
      → on_gateway f n ≡ (r, m)
      → m.store ≡ n.store
  on_gateway-store {A = A} f r n m h =
      sym (ap (λ (q : Result ServiceError A × Node B X). q.1.store) h)

  on_store-failed :
      {A : Type 0} (q : Result ClusterError A × MemoryState Payload) (e : ServiceError)
      (n m : Node B X)
      → Path
          (Result ServiceError A × Node B X)
          (map_err cluster_service_error q.0, record n { store = q.1 })
          (err e, m)
      → (x : ClusterError) × (q ≡ (err x, m.store))
  on_store-failed (ok a, s) e n m h = absurd (ground (arith, h))
  on_store-failed (err x, s) e n m h = (x, ground (arith, h))

module _ {B X : Type 0} (setup : Setup B X) (now : ℕ) where
  share_session-failed :
      (p : Principal) (s : SessionSnapshot) (permit : String) (e : ServiceError) (n m : Node B X)
      → share_session setup now p s permit n ≡ (err e, m)
      → lookup permit m.store.permits ≡ none
  unfolding share_session
  share_session-failed p s permit e n m h =
      let put : Step B X (SharedResource Payload) =
        on_store (put_resource (session_resource setup now p s permit) (some 0)) in
      let closed : Node B X → Node B X =
        λ k. record k { gateway = state_of (close_session now p s.id) k.gateway } in
      elim (bind-failed (or_undo put (λ k. in_store (release_quota permit) (closed k)))
        (λ w. pure s) n e m h) [
          | inr (w, k, done, rest) ↦ absurd (ground (arith, rest))
          | inl failed ↦
              let (k, _, undone) =
                or_undo-failed put (λ k. in_store (release_quota permit) (closed k)) e n m failed in
              release_quota-gone permit (closed k) m undone
        ]

  abbrev made :
      Surroundings
      → Principal
      → String
      → Dict String String
      → (permit : String) → Step B X SessionSnapshot
  made env p target_name overrides permit =
      or_undo (on_gateway (create_session setup now env p target_name overrides))
        (in_store (release_quota permit))

  abbrev made_and_shared :
      Surroundings
      → Principal
      → String
      → Dict String String
      → (permit : String) → Step B X SessionSnapshot
  made_and_shared env p target_name overrides permit =
      made env p target_name overrides permit >>= λ s. share_session setup now p s permit

  made_and_shared-failed :
      (env : Surroundings) (p : Principal) (target_name : String) (overrides : Dict String String)
      (permit : String) (e : ServiceError) (n m : Node B X)
      → made_and_shared env p target_name overrides permit n ≡ (err e, m)
      → lookup permit m.store.permits ≡ none
  made_and_shared-failed env p target_name overrides permit e n m h =
      elim (bind-failed (made env p target_name overrides permit)
        (λ s. share_session setup now p s permit) n e m h) [
          | inr (s, k, _, rest) ↦ share_session-failed p s permit e k m rest
          | inl failed ↦
              let (k, _, undone) =
                or_undo-failed (on_gateway (create_session setup now env p target_name overrides))
                  (in_store (release_quota permit)) e n m failed in
              release_quota-gone permit k m undone
        ]

  -- Where a session cannot be made, for whatever reason, the principal is left with no permit for it.
  pub failed_session_has_no_permit :
      (cluster : ClusterContext) (permit_id : String) (env : Surroundings) (p : Principal)
      (target_name : String) (overrides : Dict String String) (e : ServiceError) (n m : Node B X)
      → lookup permit_id n.store.permits ≡ none
      → create_session_clustered setup now (some cluster) permit_id env p target_name overrides n
        ≡ (err e, m)
      → lookup permit_id m.store.permits ≡ none
  unfolding create_session_clustered
  failed_session_has_no_permit cluster permit_id env p target_name overrides e n m absent h =
      let quota =
        acquire_quota now permit_id p.id "sessions" p.max_sessions setup.limits.session_ttl in
      let acquire : Step B X String = on_store quota in
      let rest : String → Step B X SessionSnapshot = made_and_shared env p target_name overrides in
      elim (bind-failed (on_gateway ensure_available) (λ u. acquire >>= rest) n e m h) [
        | inl down ↦
            ap (λ (s : MemoryState Payload). lookup permit_id s.permits)
              (on_gateway-store ensure_available (err e) n m down)
            ∙ absent
        | inr (u, k, up, h₁) ↦
            let absent₁ : lookup permit_id k.store.permits ≡ none =
              ap (λ (s : MemoryState Payload). lookup permit_id s.permits)
                (on_gateway-store ensure_available (ok u) n k up)
              ∙ absent in
            elim (bind-failed acquire rest k e m h₁) [
              | inl full ↦
                  let (x, refused) = on_store-failed (quota k.store) e k m full in
                  acquire_quota-refused now permit_id p.id "sessions" p.max_sessions
                    setup.limits.session_ttl x k.store m.store refused absent₁
              | inr (permit, j, got, h₂) ↦
                  let (done, _) = on_store-done quota permit k j got in
                  let same =
                    acquire_quota-id now permit_id p.id "sessions" p.max_sessions
                      setup.limits.session_ttl permit k.store j.store done in
                  ap (λ i. lookup i m.store.permits) (sym same)
                  ∙ made_and_shared-failed env p target_name overrides permit e j m h₂
            ]
      ]
