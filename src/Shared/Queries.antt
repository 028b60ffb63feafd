-- ===== src/Shared/Queries.antt =====
-- crates/qcli-service/src/lib.rs: the operations on queries in a cluster, but for the results in the
-- object store. `later` is the time at which a query is published.
use conflux_query.Base.{
  if◌then◌else◌, ok, ok_or, pure, raise, lift, modify, ◌>>=◌, ◌>>◌, ℕ, ◌+◌, String, Bool, true,
  false, Option, none, some,
}
use conflux_query.Dict.{Dict}
use conflux_query.Driver.{QueryState, completed, failed, cancelled}
use conflux_query.Session.{Surroundings}
use conflux_query.Record.{QueryStatus}
use conflux_query.Gateway.{Setup, Principal}
use conflux_query.Gateway.Queries.{submit_query, query}
use conflux_query.Cluster.{
  SharedResource, QueryLease, claim_query, release_query, put_resource, get_resource,
}
use conflux_query.Shared.{
  ClusterContext, SharedQuery, Payload, query_payload, query_of, query_not_found, Step, on_gateway,
  on_store, in_store, or_else_try,
}
use conflux_query.Shared.Sessions.{create_session_clustered, session_clustered}

abbrev pub current_version : Option (SharedResource Payload) → Option ℕ
current_version none = some 0
current_version (some resource) = some resource.version

-- `matches!(state, "completed" | "failed" | "cancelled")`
abbrev pub has_ended : QueryState → Bool
has_ended completed = true
has_ended failed = true
has_ended cancelled = true
has_ended _ = false

-- The deadline is a quarter of an hour away.
abbrev pub query_resource :
    (now : ℕ)
    → Principal
    → QueryStatus
    → (result_key : Option String) → (batch_count : ℕ) → QueryLease
    → SharedResource Payload
query_resource now p status result_key batch_count lease = record {
  resource_id = status.id;
  principal_id = p.id;
  kind = "query";
  version = 0;
  payload = query_payload (record {
    status = status;
    result_key = result_key;
    batch_count = batch_count;
    fencing_token = lease.fencing_token;
  });
  expires_at = now + 900000;
}

abbrev pub orphaned : QueryStatus → QueryStatus
orphaned status = record status {
  state = failed;
  error = some (record { code = "orphaned_query" });
}

-- A query that has ended is left as it is.
abbrev pub ended_or : {B X : Type 0} → QueryStatus → Step B X QueryStatus → Step B X QueryStatus
ended_or status recover n = if has_ended status.state then (ok status, n) else recover n

module _ {B X : Type 0} (now : ℕ) where
  unfoldable pub put_shared_query :
      Principal
      → QueryStatus
      → (result_key : Option String) → (batch_count : ℕ) → QueryLease
      → Step B X (Unit {0})
  unfolding get_resource put_resource
  put_shared_query p status result_key batch_count lease = do
    current ← on_store (get_resource now "query" status.id p.id)
    on_store (
        put_resource (query_resource now p status result_key batch_count lease)
          (current_version current))
    pure tt

  -- The task that publishes the end of the query starts after the last step.
  unfoldable pub publish_cluster_query :
      Option ClusterContext → Principal → QueryStatus → Step B X (Unit {0})
  unfolding claim_query put_shared_query
  publish_cluster_query none p status = pure tt
  publish_cluster_query (some cluster) p status = do
    lease ← on_store (claim_query now status.id p.id cluster.node_id cluster.lease_ttl)
    put_shared_query p status none 0 lease

  unfoldable pub shared_query :
      Principal → (query_id : String) → Step B X (SharedResource Payload × SharedQuery)
  unfolding get_resource
  shared_query p query_id = do
    found ← on_store (get_resource now "query" query_id p.id)
    resource ← lift (ok_or found query_not_found)
    shared ← lift (query_of resource.payload)
    pure (resource, shared)

  unfoldable pub shared_status :
      Option ClusterContext → Principal → (query_id : String) → Step B X QueryStatus
  unfolding shared_query
  shared_status none p query_id = raise query_not_found
  shared_status (some cluster) p query_id = do both ← shared_query p query_id; pure both.1.status

module _ {B X : Type 0} (setup : Setup B X) (now : ℕ) where
  unfoldable pub query_clustered :
      Option ClusterContext → Principal → (query_id : String) → Step B X QueryStatus
  unfolding query shared_status
  query_clustered cluster p query_id =
      or_else_try (on_gateway (query setup now p query_id)) (shared_status now cluster p query_id)

  unfoldable pub submit_session_query_clustered :
      Option ClusterContext
      → (uuid : String) → Principal
      → (session_id sql : String) → Step B X QueryStatus
  unfolding session_clustered submit_query publish_cluster_query
  submit_session_query_clustered cluster uuid p session_id sql = do
    s ← session_clustered setup now cluster p session_id
    status ← on_gateway (submit_query setup now uuid p s sql)
    publish_cluster_query now cluster p status
    pure status

  unfoldable pub submit_stateless_query_clustered :
      Option ClusterContext
      → (uuid permit_id : String) → Surroundings
      → Principal
      → (target_name : String) → Dict String String
      → (sql : String) → Step B X QueryStatus
  unfolding create_session_clustered submit_query publish_cluster_query
  submit_stateless_query_clustered cluster uuid permit_id env p target_name overrides sql = do
    s ← create_session_clustered setup now cluster permit_id env p target_name overrides
    status ← on_gateway (submit_query setup now uuid p s sql)
    publish_cluster_query now cluster p status
    pure status

  -- The query of a node that was lost ends as failed, under a lease of this node.
  unfoldable pub take_over :
      ClusterContext
      → Principal
      → (query_id : String) → SharedResource Payload × SharedQuery
      → Step B X QueryStatus
  unfolding claim_query release_query put_resource
  take_over cluster p query_id (resource, shared) = do
    lease ← on_store (claim_query now query_id p.id cluster.node_id cluster.lease_ttl)
    on_store (
        put_resource
          (record resource {
            payload = query_payload (record shared {
              status = orphaned shared.status;
              fencing_token = lease.fencing_token;
            });
            expires_at = now + setup.limits.result_ttl;
          })
          (some resource.version))
    modify (in_store (release_query lease))
    pure (orphaned shared.status)

  unfoldable pub recover_query_clustered :
      Option ClusterContext → Principal → (query_id : String) → Step B X QueryStatus
  unfolding shared_query take_over
  recover_query_clustered none p query_id = raise query_not_found
  recover_query_clustered (some cluster) p query_id = do
    both ← shared_query now p query_id
    ended_or both.1.status (take_over cluster p query_id both)
