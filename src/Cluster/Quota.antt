-- ===== src/Cluster/Quota.antt =====
-- crates/qcli-cluster/src/lib.rs: the quotas that the nodes share.
use conflux_query.Base.{
  leb, Bool-cases, nat_eq, string_eq, ok, ℕ, ◌+◌, ◌≤◌, String, ◌≡◌, inl, inr, arith,
}
use conflux_query.Dict.Counting.{count-insert}
use conflux_query.Cluster.{Permit, MemoryState, acquire_quota, used_quota, drop_permits, counts_for}

module _ {P : Type 0} where
  -- After a permit has been given out, the principal has no more permits of that quota than the
  -- limit that the caller named.
  pub acquire_quota_limit :
      (now : ℕ) (id principal quota given : String) (limit ttl : ℕ) (s s' : MemoryState P)
      → acquire_quota now id principal quota limit ttl s ≡ (ok given, s')
      → used_quota principal quota s' ≤ limit
  unfolding acquire_quota used_quota
  acquire_quota_limit now id principal quota given limit ttl s s' h =
      let kept = drop_permits now s in
      let permit : Permit = record { principal = principal; quota = quota; expires = now + ttl } in
      let added = count-insert (counts_for principal quota) id permit kept.permits in
      elim (Bool-cases (leb limit (used_quota principal quota kept))) [
        | inl full ↦ absurd (ground (arith, h, full))
        | inr room ↦ ground (arith, h, room, added)
      ]
