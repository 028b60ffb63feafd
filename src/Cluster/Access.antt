-- ===== src/Cluster/Access.antt =====
-- crates/qcli-cluster/src/lib.rs: what a principal reads and writes of its own resources.
use conflux_query.Base.{
  ltb, leb, Bool-cases, Option-cases, string_eq, nat_eq, eq_iff_eq, eq_self, ok, err, state_of, ℕ,
  ◌<◌, String, ◌≡◌, ◌≢◌, inl, inr, Option, none, some, arith,
}
use conflux_query.Base.{pair_eq}
use conflux_query.Dict.{lookup, insert}
use conflux_query.Dict.Laws.{lookup-insert, lookup-remove, lookup-retain}
use conflux_query.Cluster.{
  ClusterError, Permit, acquire_quota, used_quota, drop_permits, QueryLease, claim_query, refusal,
  release_query, renew_query, SharedResource, MemoryState, cluster_error, put_resource,
  get_resource, i64_next, version_of, mismatch, foreign,
}

abbrev pub written : {P : Type 0} → SharedResource P → ℕ → SharedResource P
written r version = record r { version = i64_next version }

abbrev pub with_resource : {P : Type 0} → SharedResource P → MemoryState P → MemoryState P
with_resource r s = record s { resources = insert (r.kind, r.resource_id) r s.resources }

module _ {P : Type 0} where
  pub with_resource-lookup :
      (w : SharedResource P) (kind id : String) (s : MemoryState P)
      → w.kind ≡ kind
      → w.resource_id ≡ id
      → lookup (kind, id) (with_resource w s).resources ≡ some w
  with_resource-lookup w kind id s k i = ground (
    arith,
    k,
    i,
    lookup-insert (w.kind, w.resource_id) (kind, id) w s.resources,
    eq_self kind,
    eq_self id,
  )

  pub get_resource-own :
      (now : ℕ) (kind resource_id principal_id : String) (r : SharedResource P) (s : MemoryState P)
      → lookup (kind, resource_id) s.resources ≡ some r
      → r.principal_id ≡ principal_id
      → now < r.expires_at
      → get_resource now kind resource_id principal_id s ≡ (ok (some r), s)
  unfolding get_resource
  get_resource-own now kind resource_id principal_id r s found own fresh =
      ground (arith, found, fresh, eq_iff_eq r.principal_id principal_id, own)

  pub put_resource-own :
      (new old : SharedResource P) (s : MemoryState P)
      → lookup (new.kind, new.resource_id) s.resources ≡ some old
      → old.principal_id ≡ new.principal_id
      → put_resource new (some old.version) s
        ≡ (ok (written new old.version), with_resource (written new old.version) s)
  unfolding put_resource
  put_resource-own new old s found own =
      ground (arith, found, eq_iff_eq old.principal_id new.principal_id, own, eq_self old.version)

  pub claim_query-lookup :
      (now : ℕ) (query_id principal_id node_id : String) (ttl : ℕ) (lease : QueryLease)
      (s s' : MemoryState P)
      → claim_query now query_id principal_id node_id ttl s ≡ (ok lease, s')
      → (lease.query_id ≡ query_id)
        × (lookup query_id s'.leases ≡ some lease)
        × (s'.resources ≡ s.resources)
  unfolding claim_query
  claim_query-lookup now query_id principal_id node_id ttl lease s s' h =
      elim (Option-cases (refusal now principal_id node_id (lookup query_id s.leases))) [
        | inr (e, refused) ↦ absurd (ground (arith, h, refused))
        | inl free ↦
            ground
              (arith, h, free, lookup-insert query_id query_id lease s.leases, eq_self query_id)
      ]

  pub put_resource-leases :
      (r w : SharedResource P) (expected : Option ℕ) (s s' : MemoryState P)
      → put_resource r expected s ≡ (ok w, s')
      → s'.leases ≡ s.leases
  unfolding put_resource
  put_resource-leases r w expected s s' h =
      let current = lookup (r.kind, r.resource_id) s.resources in
      elim (Bool-cases (foreign r.principal_id current)) [
        | inl theirs ↦ absurd (ground (arith, h, theirs))
        | inr own ↦ elim (Bool-cases (mismatch expected (version_of current))) [
          | inl stale ↦ absurd (ground (arith, h, own, stale))
          | inr fits ↦ ground (arith, h, own, fits)
        ]
      ]

  -- A lease that is held is gone once it was released, and no resource with it.
  pub release_query-held :
      (lease : QueryLease) (s : MemoryState P)
      → lookup lease.query_id s.leases ≡ some lease
      → (lookup lease.query_id (state_of (release_query lease) s).leases ≡ none)
        × ((state_of (release_query lease) s).resources ≡ s.resources)
  unfolding release_query
  release_query-held lease s held = ground (
    arith,
    held,
    eq_self lease.owner_node_id,
    eq_self lease.fencing_token,
    lookup-remove lease.query_id lease.query_id s.leases,
    eq_self lease.query_id,
  )

  pub renew_query-gone :
      (now : ℕ) (lease : QueryLease) (ttl : ℕ) (s : MemoryState P)
      → lookup lease.query_id s.leases ≡ none
      → renew_query now lease ttl s ≡ (err (cluster_error "lease_lost"), s)
  unfolding renew_query
  renew_query-gone now lease ttl s gone = ground (arith, gone)

  pub get_resource-foreign :
      (now : ℕ) (kind resource_id principal_id : String) (r : SharedResource P) (s : MemoryState P)
      → lookup (kind, resource_id) s.resources ≡ some r
      → r.principal_id ≢ principal_id
      → get_resource now kind resource_id principal_id s ≡ (err (cluster_error "forbidden"), s)
  unfolding get_resource
  get_resource-foreign now kind resource_id principal_id r s found other =
      ground (arith, found, eq_iff_eq r.principal_id principal_id, other)

  pub acquire_quota-id :
      (now : ℕ) (id principal_id quota : String) (limit ttl : ℕ) (permit : String)
      (s s' : MemoryState P)
      → acquire_quota now id principal_id quota limit ttl s ≡ (ok permit, s')
      → permit ≡ id
  unfolding acquire_quota
  acquire_quota-id now id principal_id quota limit ttl permit s s' h =
      elim (Bool-cases (leb limit (used_quota principal_id quota (drop_permits now s)))) [
        | inl full ↦ absurd (ground (arith, h, full))
        | inr free ↦ ground (arith, h, free)
      ]

  -- A permit that is not there is not there after a refusal either.
  pub acquire_quota-refused :
      (now : ℕ) (id principal_id quota : String) (limit ttl : ℕ) (e : ClusterError)
      (s s' : MemoryState P)
      → acquire_quota now id principal_id quota limit ttl s ≡ (err e, s')
      → lookup id s.permits ≡ none
      → lookup id s'.permits ≡ none
  unfolding acquire_quota drop_permits
  acquire_quota-refused now id principal_id quota limit ttl e s s' h absent =
      elim (Bool-cases (leb limit (used_quota principal_id quota (drop_permits now s)))) [
        | inr free ↦ absurd (ground (arith, h, free))
        | inl full ↦ ground (
          arith,
          h,
          full,
          absent,
          lookup-retain (λ k (p : Permit). ltb now p.expires) id s.permits,
        )
      ]
