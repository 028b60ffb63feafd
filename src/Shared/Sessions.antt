-- ===== src/Shared/Sessions.antt =====
-- crates/qcli-service/src/lib.rs: the operations on sessions in a cluster.
use conflux_query.Base.{
  ok_or, to_option, pure, raise, lift, state_of, modify, ◌>>=◌, ◌>>◌, ℕ, ◌+◌, String, Option, none,
  some, [], map,
}
use conflux_query.Dict.{Dict}
use conflux_query.Target.{target}
use conflux_query.Session.{SessionSnapshot, Surroundings, restore}
use conflux_query.Gateway.{Setup, Principal, ensure_available}
use conflux_query.Gateway.Sessions.{
  on_sessions, own_session, session, create_session, mutate_session, close_session,
}
use conflux_query.Cluster.{
  SharedResource, acquire_quota, release_quota, put_resource, get_resource, delete_resource,
}
use conflux_query.Shared.{
  ClusterContext, SharedSession, Payload, session_payload, session_of, session_not_found, Node,
  Step, on_gateway, on_store, in_store, or_undo, or_else_try,
}

module _ {B X : Type 0} (setup : Setup B X) (now : ℕ) where
  abbrev pub session_resource :
      Principal → SessionSnapshot → (permit : String) → SharedResource Payload
  session_resource p s permit = record {
    resource_id = s.id;
    principal_id = p.id;
    kind = "session";
    version = 0;
    payload = session_payload (record { snapshot = s; quota_permit = permit });
    expires_at = now + setup.limits.session_ttl;
  }

  -- Where the store does not take the session, it is closed and its permit given back.
  unfoldable pub share_session :
      Principal → SessionSnapshot → (permit : String) → Step B X SessionSnapshot
  unfolding put_resource close_session release_quota
  share_session p s permit =
      or_undo (on_store (put_resource (session_resource p s permit) (some 0))) (λ n.
        in_store (release_quota permit)
          (record n { gateway = state_of (close_session now p s.id) n.gateway }))
      >> pure s

  -- `permit_id` is the id of the new permit.
  unfoldable pub create_session_clustered :
      Option ClusterContext
      → (permit_id : String) → Surroundings
      → Principal
      → (target_name : String) → Dict String String
      → Step B X SessionSnapshot
  unfolding create_session ensure_available acquire_quota release_quota share_session
  create_session_clustered none permit_id env p target_name overrides =
      on_gateway (create_session setup now env p target_name overrides)
  create_session_clustered (some cluster) permit_id env p target_name overrides = do
    on_gateway ensure_available
    permit ←
        on_store
          (acquire_quota now permit_id p.id "sessions" p.max_sessions setup.limits.session_ttl)
    s ←
        or_undo (on_gateway (create_session setup now env p target_name overrides))
          (in_store (release_quota permit))
    share_session p s permit

  -- What `session_clustered` does with the shared session that it read.
  unfoldable pub adopt : Principal → SharedSession → Step B X SessionSnapshot
  unfolding on_sessions restore own_session
  adopt p shared = do
    t ← lift (ok_or (target setup.config shared.snapshot.target) session_not_found)
    on_gateway (on_sessions (restore shared.snapshot t))
    on_gateway (modify (own_session now p shared.snapshot))
    pure shared.snapshot

  unfoldable pub shared_session : Principal → (session_id : String) → Step B X SharedSession
  unfolding get_resource
  shared_session p session_id = do
    found ← on_store (get_resource now "session" session_id p.id)
    resource ← lift (ok_or found session_not_found)
    lift (session_of resource.payload)

  unfoldable pub hydrate :
      Option ClusterContext → Principal → (session_id : String) → Step B X SessionSnapshot
  unfolding shared_session adopt
  hydrate none p session_id = raise session_not_found
  hydrate (some cluster) p session_id = shared_session p session_id >>= adopt p

  unfoldable pub session_clustered :
      Option ClusterContext → Principal → (session_id : String) → Step B X SessionSnapshot
  unfolding session hydrate
  session_clustered cluster p session_id =
      or_else_try (on_gateway (session now p session_id)) (hydrate cluster p session_id)

  -- The part of `mutate_session_clustered` on the store.
  unfoldable pub share_change :
      Option ClusterContext
      → Principal
      → (session_id : String) → SessionSnapshot
      → Step B X SessionSnapshot
  unfolding get_resource put_resource
  share_change none p session_id s = pure s
  share_change (some cluster) p session_id s = do
    found ← on_store (get_resource now "session" session_id p.id)
    resource ← lift (ok_or found session_not_found)
    shared ← lift (session_of resource.payload)
    on_store (
        put_resource
          (record resource {
            payload = session_payload (record shared { snapshot = s });
            expires_at = now + setup.limits.session_ttl;
          })
          (some resource.version))
    pure s

  unfoldable pub mutate_session_clustered :
      Option ClusterContext
      → Principal
      → (session_id : String) → (expected : ℕ) → (target_name : Option String)
      → Dict String (Option String)
      → Step B X SessionSnapshot
  unfolding session_clustered mutate_session share_change
  mutate_session_clustered cluster p session_id expected target_name overrides = do
    session_clustered cluster p session_id
    s ← on_gateway (mutate_session setup now p session_id expected target_name overrides)
    share_change cluster p session_id s

  unfoldable pub update_session_clustered :
      Option ClusterContext
      → Principal
      → (session_id : String) → (expected : ℕ) → Dict String String
      → Step B X SessionSnapshot
  unfolding mutate_session_clustered
  update_session_clustered cluster p session_id expected overrides =
      mutate_session_clustered cluster p session_id expected none
        (map (λ kv. (kv.0, some kv.1)) overrides)

  unfoldable pub switch_target_clustered :
      Option ClusterContext
      → Principal
      → (session_id : String) → (expected : ℕ) → (target_name : String) → Step B X SessionSnapshot
  unfolding mutate_session_clustered
  switch_target_clustered cluster p session_id expected target_name =
      mutate_session_clustered cluster p session_id expected (some target_name) []

  abbrev pub readable_session : Option (SharedResource Payload) → Option SharedSession
  readable_session none = none
  readable_session (some resource) = to_option (session_of resource.payload)

  abbrev pub release_shared : Option SharedSession → Node B X → Node B X
  release_shared none n = n
  release_shared (some shared) n = in_store (release_quota shared.quota_permit) n

  unfoldable pub close_session_clustered :
      Option ClusterContext → Principal → (session_id : String) → Step B X (Unit {0})
  unfolding session_clustered close_session get_resource delete_resource release_quota
  close_session_clustered none p session_id = do
    session_clustered none p session_id
    on_gateway (close_session now p session_id)
  close_session_clustered (some cluster) p session_id = do
    session_clustered (some cluster) p session_id
    found ← on_store (get_resource now "session" session_id p.id)
    on_gateway (close_session now p session_id)
    on_store (delete_resource "session" session_id p.id)
    modify (release_shared (readable_session found))
