-- ===== src/Cluster/Examples.antt =====
-- crates/qcli-cluster/src/lib.rs: two nodes that share one query, one session and one quota.
use conflux_query.Base.{
  string_eq, nat_eq, ok, err, ◌≤◌, ◌<◌, String, ◌≡◌, refl, false, some, [], ◌∷◌, arith,
}
use conflux_query.Base.{pair_eq}
use conflux_query.Dict.{lookup, insert, remove, retain}
use conflux_query.Cluster.{
  SharedResource, QueryLease, MemoryState, cluster_error, put_resource, claim_query, refusal,
  renew_query, release_query, acquire_quota, used_quota, drop_permits,
}
use conflux_query.Cluster.Writes.{put_resource_once}
use conflux_query.Cluster.Fencing.{claim_query_fences}
use conflux_query.Cluster.Quota.{acquire_quota_limit}

abbrev shared : SharedResource String
shared = record {
  resource_id = "s1";
  principal_id = "ann";
  kind = "session";
  version = 3;
  payload = "{}";
  expires_at = 900;
}

abbrev first_lease : QueryLease
first_lease = record {
  query_id = "q1";
  principal_id = "ann";
  owner_node_id = "a";
  fencing_token = 4;
  lease_expires_at = 50;
}

abbrev second_lease : QueryLease
second_lease = record {
  query_id = "q1";
  principal_id = "ann";
  owner_node_id = "b";
  fencing_token = 5;
  lease_expires_at = 130;
}

abbrev cluster : MemoryState String
cluster = record {
  nodes = [];
  resources = (("session", "s1"), shared) ∷ [];
  leases = ("q1", first_lease) ∷ [];
  permits = ("p1", record { principal = "ann"; quota = "sessions"; expires = 70 }) ∷ [];
  next_fence = 4;
}

abbrev written : SharedResource String
written = record shared { version = 4; payload = "{1}" }

abbrev after_write : MemoryState String
after_write = record cluster { resources = (("session", "s1"), written) ∷ [] }

put_run :
    put_resource (record shared { payload = "{1}" }) (some 3) cluster ≡ (ok written, after_write)
unfolding put_resource lookup insert
put_run = refl

put_resource_once_example :
    put_resource (record shared { payload = "{2}" }) (some 3) after_write
    ≡ (err (cluster_error "version_conflict"), after_write)
put_resource_once_example =
    put_resource_once (record shared { payload = "{1}" }) (record shared { payload = "{2}" })
      written 3 cluster after_write (omega arith) refl refl refl put_run

abbrev after_claim : MemoryState String
after_claim = record cluster { leases = ("q1", second_lease) ∷ []; next_fence = 5 }

claim_run : claim_query 100 "q1" "ann" "b" 30 cluster ≡ (ok second_lease, after_claim)
unfolding claim_query refusal lookup insert
claim_run = refl

claim_query_fences_example :
    (renew_query 110 first_lease 30 after_claim ≡ (err (cluster_error "lease_lost"), after_claim))
    × (release_query first_lease after_claim ≡ (ok false, after_claim))
    × (first_lease.fencing_token < second_lease.fencing_token)
claim_query_fences_example =
    claim_query_fences 100 110 "q1" "ann" "b" 30 30 first_lease second_lease cluster after_claim
      (omega arith) refl (omega arith) claim_run

abbrev after_permit : MemoryState String
after_permit = record cluster {
  permits = ("p2", record { principal = "ann"; quota = "sessions"; expires = 110 }) ∷ [];
}

permit_run : acquire_quota 80 "p2" "ann" "sessions" 1 30 cluster ≡ (ok "p2", after_permit)
unfolding acquire_quota used_quota drop_permits retain insert remove
permit_run = refl

acquire_quota_limit_example : used_quota "ann" "sessions" after_permit ≤ 1
acquire_quota_limit_example =
    acquire_quota_limit 80 "p2" "ann" "sessions" "p2" 1 30 cluster after_permit permit_run
