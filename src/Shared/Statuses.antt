-- ===== src/Shared/Statuses.antt =====
-- crates/qcli-service/src/lib.rs: the status of a query that a node of the cluster reads.
use conflux_query.Base.{string_eq, nat_eq, ok, ℕ, ◌<◌, String, ◌≡◌, some, arith}
use conflux_query.Base.{pair_eq}
use conflux_query.Dict.{lookup}
use conflux_query.Gateway.{Gateway, Setup, Principal}
use conflux_query.Gateway.Access.{NotOwned, queries_private}
use conflux_query.Cluster.{SharedResource, MemoryState, get_resource}
use conflux_query.Cluster.Access.{get_resource-own}
use conflux_query.Shared.{ClusterContext, SharedQuery, Payload, query_payload, Node, on_store-ok}
use conflux_query.Shared.Queries.{shared_query, shared_status, query_clustered}

module _ {B X : Type 0} where
  shared_status-own :
      (now : ℕ) (cluster : ClusterContext) (p : Principal) (query_id : String)
      (r : SharedResource Payload) (shared : SharedQuery) (n : Node B X)
      → lookup ("query", query_id) n.store.resources ≡ some r
      → r.principal_id ≡ p.id
      → now < r.expires_at
      → r.payload ≡ query_payload shared
      → (shared_status now (some cluster) p query_id n).0 ≡ ok shared.status
  unfolding shared_status shared_query
  shared_status-own now cluster p query_id r shared n found own fresh holds =
      let get =
        on_store-ok (get_resource now "query" query_id p.id) (some r) n n.store
          (get_resource-own now "query" query_id p.id r n.store found own fresh) in
      ground (arith, get, holds)

  -- A node that has no record of the query for this principal answers with the status in the store.
  pub query_clustered-elsewhere :
      (setup : Setup B X) (now : ℕ) (cluster : ClusterContext) (p : Principal) (query_id : String)
      (r : SharedResource Payload) (shared : SharedQuery) (g : Gateway B X)
      (s : MemoryState Payload)
      → NotOwned p query_id g
      → lookup ("query", query_id) s.resources ≡ some r
      → r.principal_id ≡ p.id
      → now < r.expires_at
      → r.payload ≡ query_payload shared
      → (query_clustered setup now (some cluster) p query_id (record { gateway = g; store = s })).0
        ≡ ok shared.status
  unfolding query_clustered
  query_clustered-elsewhere setup now cluster p query_id r shared g s absent found own fresh holds =
      let unknown = (queries_private setup now p query_id g absent).0 in
      rw (unknown, query_clustered)
        (shared_status-own now cluster p query_id r shared _ found own fresh holds)
