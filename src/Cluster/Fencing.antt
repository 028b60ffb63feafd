-- ===== src/Cluster/Fencing.antt =====
-- crates/qcli-cluster/src/lib.rs: the fencing of query leases.
use conflux_query.Base.{
  Option-cases, string_eq, ◌==◌, nat_eq, eq_self, ok, err, ℕ, ◌+◌, ◌≤◌, ◌<◌, String, ◌≡◌, ap, ◌∙◌,
  inl, inr, true, false, some, arith,
}
use conflux_query.Dict.{lookup}
use conflux_query.Dict.Laws.{lookup-insert}
use conflux_query.Cluster.{
  QueryLease, MemoryState, cluster_error, refusal, claim_query, renew_query, release_query,
  i64_sign, i64_next,
}

module _ {P : Type 0} where
  pub claim_query-ok :
      (now : ℕ) (query_id principal_id node_id : String) (ttl : ℕ) (lease : QueryLease)
      (s s' : MemoryState P)
      → claim_query now query_id principal_id node_id ttl s ≡ (ok lease, s')
      → (lease.fencing_token ≡ i64_next s.next_fence)
        × (s'.next_fence ≡ i64_next s.next_fence)
        × (lookup query_id s'.leases ≡ some lease)
  unfolding claim_query
  claim_query-ok now query_id principal_id node_id ttl lease s s' h =
      elim (Option-cases (refusal now principal_id node_id (lookup query_id s.leases))) [
        | inr (e, refused) ↦ absurd (ground (arith, h, refused))
        | inl free ↦
            ground
              (arith, h, free, lookup-insert query_id query_id lease s.leases, eq_self query_id)
      ]

  -- While the next fencing token is below 2^63, where an `i64` would turn negative, a new claim of a
  -- query fences every lease of the
  -- query off that was given out before it: the earlier lease can be neither renewed nor released
  -- any more, trying changes nothing, and its token is the smaller one.
  pub claim_query_fences :
      (now later : ℕ) (query_id principal_id node_id : String) (ttl ttl₂ : ℕ)
      (old lease : QueryLease) (s s' : MemoryState P)
      → s.next_fence + 1 < i64_sign
      → old.query_id ≡ query_id
      → old.fencing_token ≤ s.next_fence
      → claim_query now query_id principal_id node_id ttl s ≡ (ok lease, s')
      → (renew_query later old ttl₂ s' ≡ (err (cluster_error "lease_lost"), s'))
        × (release_query old s' ≡ (ok false, s'))
        × (old.fencing_token < lease.fencing_token)
  unfolding renew_query release_query
  claim_query_fences now later query_id principal_id node_id ttl ttl₂ old lease s s' small same
        earlier h =
      let (token, fence, found) =
        claim_query-ok now query_id principal_id node_id ttl lease s s' h in
      let found' : lookup old.query_id s'.leases ≡ some lease =
        ap (λ id. lookup id s'.leases) same ∙ found in
      let above : old.fencing_token < lease.fencing_token = ground (arith, token, earlier, small) in
      let other : (lease.fencing_token == old.fencing_token) ≡ false = ground (arith, above) in
      (ground (arith, found', other), ground (arith, found', other), above)

  -- Right after a claim, the lease that it returned can be renewed, which returns it with the new
  -- deadline, and released.
  pub claim_query_holds :
      (now later : ℕ) (query_id principal_id node_id : String) (ttl ttl₂ : ℕ) (lease : QueryLease)
      (s s' : MemoryState P)
      → claim_query now query_id principal_id node_id ttl s ≡ (ok lease, s')
      → lease.query_id ≡ query_id
      → ((renew_query later lease ttl₂ s').0
          ≡ ok (record lease { lease_expires_at = later + ttl₂ }))
        × ((release_query lease s').0 ≡ ok true)
  unfolding renew_query release_query
  claim_query_holds now later query_id principal_id node_id ttl ttl₂ lease s s' h same =
      let (token, fence, found) =
        claim_query-ok now query_id principal_id node_id ttl lease s s' h in
      let found' : lookup lease.query_id s'.leases ≡ some lease =
        ap (λ id. lookup id s'.leases) same ∙ found in
      let node = eq_self lease.owner_node_id in
      let same_token = eq_self lease.fencing_token in
      (ground (arith, found', node, same_token), ground (arith, found', node, same_token))
