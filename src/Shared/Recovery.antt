-- ===== src/Shared/Recovery.antt =====
-- crates/qcli-service/src/lib.rs: what a recovery leaves of the lease of the node that was lost, and
-- who can still write the status of a query.
use conflux_query.Base.{
  if◌then◌else◌, string_eq, nat_eq, eq_self, Result, ok, err, pure, state_of, modify, ◌>>◌, bind-ok,
  bind-step, ℕ, ◌+◌, ◌<◌, String, ◌≡◌, refl, sym, ap, ap₂, ◌∙◌, subst, false, Option, none, some,
  arith,
}
use conflux_query.Base.{pair_eq}
use conflux_query.Dict.{lookup}
use conflux_query.Dict.Laws.{lookup-insert}
use conflux_query.Record.{QueryStatus}
use conflux_query.Gateway.{Gateway, Setup, Principal, ServiceError}
use conflux_query.Gateway.Access.{NotOwned}
use conflux_query.Shared.Statuses.{query_clustered-elsewhere}
use conflux_query.Cluster.{
  SharedResource, QueryLease, cluster_error, claim_query, renew_query, release_query, put_resource,
  get_resource,
}
use conflux_query.Cluster.Access.{
  written, with_resource, get_resource-own, put_resource-own, claim_query-lookup,
  put_resource-leases, release_query-held, renew_query-gone,
}
use conflux_query.Cluster.Writes.{put_resource-ok}
use conflux_query.Shared.{
  ClusterContext, SharedQuery, Payload, query_payload, Node, Step, on_store, in_store, on_store-ok,
  on_store-done,
}
use conflux_query.Shared.Queries.{
  query_resource, put_shared_query, shared_query, query_clustered, current_version, orphaned,
  take_over, ended_or, has_ended, recover_query_clustered,
}

module _ {B X : Type 0} where
  put_shared_query-own :
      (now : ℕ) (p : Principal) (status : QueryStatus) (result_key : Option String)
      (batch_count : ℕ) (lease : QueryLease) (old : SharedResource Payload) (n : Node B X)
      → lookup ("query", status.id) n.store.resources ≡ some old
      → old.principal_id ≡ p.id
      → now < old.expires_at
      → put_shared_query now p status result_key batch_count lease n ≡ (
        ok tt,
        record n {
          store =
              with_resource
                (written (query_resource now p status result_key batch_count lease) old.version)
                n.store;
        },
      )
  unfolding put_shared_query
  put_shared_query-own now p status result_key batch_count lease old n found own fresh =
      let new = query_resource now p status result_key batch_count lease in
      let get : Step B X (Option (SharedResource Payload)) =
        on_store (get_resource now "query" status.id p.id) in
      let put : Option (SharedResource Payload) → Step B X (Unit {0}) =
        λ current. on_store (put_resource new (current_version current)) >> pure tt in
      bind-step get put n n (some old) (
        on_store-ok (get_resource now "query" status.id p.id) (some old) n n.store
          (get_resource-own now "query" status.id p.id old n.store found own fresh))
      ∙ bind-step (on_store (put_resource new (some old.version))) (λ r. pure tt) n
          (record n { store = with_resource (written new old.version) n.store })
          (written new old.version)
          (on_store-ok (put_resource new (some old.version)) (written new old.version) n
            (with_resource (written new old.version) n.store)
            (put_resource-own new old n.store found own))

  -- Whatever lease a node shows, where the store has a resource of the query, this principal's and
  -- not expired, the status that the node puts takes its place: right after that, each node that has
  -- no record of the query for this principal answers `query_clustered` with it, until the deadline
  -- of the resource.
  pub put_shared_query_unfenced :
      (now later : ℕ) (cluster : ClusterContext) (p : Principal) (status : QueryStatus)
      (result_key : Option String) (batch_count : ℕ) (lease : QueryLease)
      (old : SharedResource Payload) (n : Node B X) (setup : Setup B X) (reader : Gateway B X)
      → lookup ("query", status.id) n.store.resources ≡ some old
      → old.principal_id ≡ p.id
      → now < old.expires_at
      → later < now + 900000
      → NotOwned p status.id reader
      → let n' = state_of (put_shared_query now p status result_key batch_count lease) n in
        ((put_shared_query now p status result_key batch_count lease n).0 ≡ ok tt)
        × ((query_clustered setup later
              (some cluster)
              p
              status.id
              (record { gateway = reader; store = n'.store })).0
            ≡ ok status)
  put_shared_query_unfenced now later cluster p status result_key batch_count lease old n setup
        reader found own fresh soon absent =
      let new = query_resource now p status result_key batch_count lease in
      let put = written new old.version in
      let e =
        put_shared_query-own now p status result_key batch_count lease old n found own fresh in
      (
        ap (λ (q : Result ServiceError (Unit {0}) × Node B X). q.0) e,
        ap
              (λ (q : Result ServiceError (Unit {0}) × Node B X).
                (query_clustered setup later (some cluster) p status.id
                  (record { gateway = reader; store = q.1.store })).0)
              e
            ∙ query_clustered-elsewhere setup later cluster p status.id put
                (record {
                  status = status;
                  result_key = result_key;
                  batch_count = batch_count;
                  fencing_token = lease.fencing_token;
                })
                reader (with_resource put n.store) absent
                (ground (
                  arith,
                  lookup-insert ("query", status.id) ("query", status.id) put n.store.resources,
                  eq_self status.id,
                ))
                refl soon refl,
      )

module _ {B X : Type 0} (setup : Setup B X) where
  take_over-ok :
      (now : ℕ) (cluster : ClusterContext) (p : Principal) (query_id : String)
      (r : SharedResource Payload) (shared : SharedQuery) (st : QueryStatus) (n n' : Node B X)
      → take_over setup now cluster p query_id (r, shared) n ≡ (ok st, n')
      → (st ≡ orphaned shared.status)
        × (lookup query_id n'.store.leases ≡ none)
        × ((token : ℕ) × (w : SharedResource Payload) × (w.payload
              ≡ query_payload
                  (record shared { status = orphaned shared.status; fencing_token = token }))
            × (w.principal_id ≡ r.principal_id)
            × (w.expires_at ≡ now + setup.limits.result_ttl)
            × (lookup (r.kind, r.resource_id) n'.store.resources ≡ some w))
  unfolding take_over
  take_over-ok now cluster p query_id r shared st n n' h =
      let claim : Step B X QueryLease =
        on_store (claim_query now query_id p.id cluster.node_id cluster.lease_ttl) in
      let new : QueryLease → SharedResource Payload = λ lease. record r {
        payload = query_payload (record shared {
          status = orphaned shared.status;
          fencing_token = lease.fencing_token;
        });
        expires_at = now + setup.limits.result_ttl;
      } in
      let last : QueryLease → Step B X QueryStatus =
        λ lease. modify (in_store (release_query lease)) >> pure (orphaned shared.status) in
      let (lease, n₁, claimed, rest) =
        bind-ok claim (λ lease. on_store (put_resource (new lease) (some r.version)) >> last lease)
          n st n' h in
      let (w, n₂, put, end) =
        bind-ok (on_store (put_resource (new lease) (some r.version))) (λ w. last lease) n₁ st n'
          rest in
      let (claims, _) =
        on_store-done (claim_query now query_id p.id cluster.node_id cluster.lease_ttl) lease n n₁
          claimed in
      let (puts, _) = on_store-done (put_resource (new lease) (some r.version)) w n₁ n₂ put in
      let (same, held, _) =
        claim_query-lookup now query_id p.id cluster.node_id cluster.lease_ttl lease n.store
          n₁.store claims in
      let (made, _, there) =
        put_resource-ok (new lease) w (some r.version) n₁.store n₂.store puts in
      let leases = put_resource-leases (new lease) w (some r.version) n₁.store n₂.store puts in
      let (gone, kept) =
        release_query-held lease n₂.store (ap₂ (λ id ls. lookup id ls) same leases ∙ held) in
      let e : n' ≡ in_store (release_query lease) n₂ = ground (arith, end) in
      (
        ground (arith, end),
        ap (λ (m : Node B X). lookup query_id m.store.leases) e
            ∙ ap (λ id. lookup id (state_of (release_query lease) n₂.store).leases) (sym same)
            ∙ gone,
        (
          lease.fencing_token,
          w,
          ap (λ (x : SharedResource Payload). x.payload) made,
          ap (λ (x : SharedResource Payload). x.principal_id) made,
          ap (λ (x : SharedResource Payload). x.expires_at) made,
          ap (λ (m : Node B X). lookup (r.kind, r.resource_id) m.store.resources) e
              ∙ ap (lookup (r.kind, r.resource_id)) kept
              ∙ there,
        ),
      )

  -- Where a node recovers a query that had not ended, it returns the status as failed with an error,
  -- and in the store that it leaves every lease of the query given out so far is lost, and each node
  -- that has no record of the query for this principal answers `query_clustered` with that status,
  -- until the result lifetime is over. The resource read is one stored under its own name, by this
  -- principal, and fresh.
  pub recover_query_clustered_lem :
      (now : ℕ) (cluster : ClusterContext) (p : Principal) (query_id : String)
      (r : SharedResource Payload) (shared : SharedQuery) (st : QueryStatus) (n n' : Node B X)
      → lookup ("query", query_id) n.store.resources ≡ some r
      → r.kind ≡ "query"
      → r.resource_id ≡ query_id
      → r.principal_id ≡ p.id
      → now < r.expires_at
      → r.payload ≡ query_payload shared
      → has_ended shared.status.state ≡ false
      → recover_query_clustered setup now (some cluster) p query_id n ≡ (ok st, n')
      → (st ≡ orphaned shared.status)
        × ((later : ℕ) (old : QueryLease) (ttl : ℕ)
            → old.query_id ≡ query_id
            → renew_query later old ttl n'.store ≡ (err (cluster_error "lease_lost"), n'.store))
        × ((setup₂ : Setup B X) (later : ℕ) (second : ClusterContext) (reader : Gateway B X)
            → later < now + setup.limits.result_ttl
            → NotOwned p query_id reader
            → (query_clustered setup₂ later
                (some second)
                p
                query_id
                (record { gateway = reader; store = n'.store })).0
              ≡ ok st)
  unfolding recover_query_clustered shared_query
  recover_query_clustered_lem now cluster p query_id r shared st n n' found kind id own fresh holds
        running h =
      let get =
        on_store-ok (get_resource now "query" query_id p.id) (some r) n n.store
          (get_resource-own now "query" query_id p.id r n.store found own fresh) in
      let read : shared_query now p query_id n ≡ (ok (r, shared), n) = ground (arith, get, holds) in
      let took : take_over setup now cluster p query_id (r, shared) n ≡ (ok st, n') =
        sym (
          bind-step (shared_query now p query_id)
            (λ both. ended_or both.1.status (take_over setup now cluster p query_id both)) n n
            (r, shared) read
          ∙ ap
              (λ b.
                if b
                then (ok shared.status, n)
                else take_over setup now cluster p query_id (r, shared) n)
              running)
        ∙ h in
      let (e, gone, (token, w, payload, same, expires, there)) =
        take_over-ok now cluster p query_id r shared st n n' took in
      (
        e,
        λ later old ttl q.
            renew_query-gone later old ttl n'.store (ap (λ i. lookup i n'.store.leases) q ∙ gone),
        λ setup₂ later second reader soon absent.
            query_clustered-elsewhere setup₂ later second p query_id w
              (record shared { status = orphaned shared.status; fencing_token = token }) reader
              n'.store absent
              (ap₂ (λ k i. lookup (k, i) n'.store.resources) (sym kind) (sym id) ∙ there)
              (same ∙ own) (subst (λ x. later < x) {y = w.expires_at} (sym expires) soon) payload
            ∙ ap (λ (x : QueryStatus). ok x) (sym e),
      )
