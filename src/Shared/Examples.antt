-- ===== src/Shared/Examples.antt =====
-- crates/qcli-service/src/lib.rs: two nodes that share a store.
use conflux_query.Base.{
  string_eq, nat_eq, ok, err, state_of, ℕ, ◌≡◌, refl, ◌≢◌, none, some, List, [], ◌∷◌, arith,
}
use conflux_query.Base.{pair_eq}
use conflux_query.Dict.{lookup, insert, remove, retain, map_values}
use conflux_query.Driver.{running}
use conflux_query.Target.{target}
use conflux_query.Session.{snapshot, close, create_with_overrides}
use conflux_query.Session.Examples.{lake, morning}
use conflux_query.Record.{QueryStatus}
use conflux_query.Gateway.{
  Gateway, Principal, forbidden, not_found, error, ensure_available, audit, authorized_target,
  enforce_session_quota, owned_sessions, can_use_target,
}
use conflux_query.Gateway.Cleanup.{
  cleanup_expired, expired_prepared_sessions, drop_statements, expire_sessions, expire_session,
  drop_records, expired_sessions, cancel_session, drop_session,
}
use conflux_query.Gateway.Sessions.{create_session, open_session}
use conflux_query.Gateway.Access.{NotOwned}
use conflux_query.Gateway.Examples.{setup, ann, gateway, created}
use conflux_query.Cluster.{
  MemoryState, SharedResource, QueryLease, acquire_quota, used_quota, drop_permits, release_quota,
  put_resource, get_resource, claim_query, refusal, release_query,
}
use conflux_query.Shared.{ClusterContext, SharedQuery, Payload, query_payload, Node}
use conflux_query.Shared.Sessions.{create_session_clustered, share_session, session_clustered}
use conflux_query.Shared.Queries.{
  put_shared_query, shared_query, query_clustered, orphaned, take_over, recover_query_clustered,
}
use conflux_query.Shared.Travel.{session_travels}
use conflux_query.Shared.Permits.{failed_session_has_no_permit}
use conflux_query.Shared.Recovery.{put_shared_query_unfenced, recover_query_clustered_lem}

abbrev pub first : ClusterContext
first = record { node_id = "n1"; lease_ttl = 5000 }

abbrev pub second : ClusterContext
second = record { node_id = "n2"; lease_ttl = 5000 }

abbrev status : QueryStatus
status = record {
  id = "q7";
  session_id = "s1";
  session_version = 1;
  target = "lake";
  engine = "trino";
  engine_query_id = none;
  state = running;
  rows = 0;
  retained_bytes = 0;
  error = none;
}

abbrev shared_running : SharedQuery
shared_running = record { status = status; result_key = none; batch_count = 0; fencing_token = 1 }

abbrev lease : QueryLease
lease = record {
  query_id = "q7";
  principal_id = "ann";
  owner_node_id = "n1";
  fencing_token = 1;
  lease_expires_at = 1800000;
}

abbrev query_r : SharedResource Payload
query_r = record {
  resource_id = "q7";
  principal_id = "ann";
  kind = "query";
  version = 4;
  payload = query_payload shared_running;
  expires_at = 2700000;
}

abbrev pub store : MemoryState Payload
store = record {
  nodes = [];
  resources = (("query", "q7"), query_r) ∷ [];
  leases = ("q7", lease) ∷ [];
  permits = [];
  next_fence = 1;
}

abbrev node : Node (List ℕ) (Unit {0})
node = record { gateway = gateway; store = store }

query_found : lookup ("query", "q7") node.store.resources ≡ some query_r
unfolding lookup
query_found = refl

-- A node that knows no query.
abbrev reader : Gateway (List ℕ) (Unit {0})
reader = record gateway { records = [] }

reader-NotOwned : NotOwned ann "q7" reader
unfolding lookup
reader-NotOwned r found e = cc

put_shared_query_unfenced_example :
    let n = state_of (put_shared_query 1800000 ann status none 0 lease) node in
    ((put_shared_query 1800000 ann status none 0 lease node).0 ≡ ok tt)
    × ((query_clustered setup 1800001
          (some second)
          ann
          "q7"
          (record { gateway = reader; store = n.store })).0
        ≡ ok status)
put_shared_query_unfenced_example =
    put_shared_query_unfenced 1800000 1800001 second ann status none 0 lease query_r node setup
      reader query_found refl (omega arith) (omega arith) reader-NotOwned

abbrev recovered : Node (List ℕ) (Unit {0})
recovered = (recover_query_clustered setup 1900000 (some second) ann "q7" node).1

recovery :
    recover_query_clustered setup 1900000 (some second) ann "q7" node
    ≡ (ok (orphaned status), recovered)
unfolding recover_query_clustered shared_query take_over get_resource put_resource claim_query
    refusal release_query lookup insert remove
recovery = refl

recover_query_clustered_lem_example :
    (query_clustered setup 1900001
      (some first)
      ann
      "q7"
      (record { gateway = reader; store = recovered.store })).0
    ≡ ok (orphaned status)
recover_query_clustered_lem_example =
    (recover_query_clustered_lem setup 1900000 second ann "q7" query_r shared_running
        (orphaned status) node recovered query_found refl refl refl (omega arith) refl refl
        recovery).2
      setup 1900001 first reader (omega arith) reader-NotOwned

abbrev with_session : Node (List ℕ) (Unit {0})
with_session =
    (create_session_clustered setup 1800000 (some first) "p1" morning ann "lake" [] node).1

session_made :
    create_session_clustered setup 1800000 (some first) "p1" morning ann "lake" [] node
    ≡ (ok created, with_session)
unfolding create_session_clustered create_session ensure_available cleanup_expired
    expired_prepared_sessions drop_statements expire_sessions expire_session drop_records
    expired_sessions cancel_session drop_session audit close lookup insert remove retain map_values
    enforce_session_quota owned_sessions authorized_target can_use_target open_session acquire_quota
    used_quota drop_permits share_session put_resource
session_made = refl

abbrev elsewhere : Gateway (List ℕ) (Unit {0})
elsewhere = record gateway { session_owners = [] }

created_unknown : lookup created.id elsewhere.session_owners ≡ none
unfolding lookup
created_unknown = refl

lake_known : target setup.config created.target ≡ some lake
unfolding lookup create_with_overrides snapshot
lake_known = refl

lake_named : (created.target ≡ lake.name) × (created.engine ≡ lake.engine)
unfolding create_with_overrides snapshot
lake_named = (refl, refl)

session_travels_example :
    ((session_clustered setup 1800001
        (some second)
        ann
        created.id
        (record { gateway = elsewhere; store = with_session.store })).0
      ≡ ok created)
    × ((q : Principal)
        → ann.id ≢ q.id
        → session_clustered setup 1800001
            (some second)
            q
            created.id
            (record { gateway = elsewhere; store = with_session.store })
          ≡ (
            err (error not_found "forbidden"),
            record { gateway = elsewhere; store = with_session.store },
          ))
session_travels_example =
    session_travels setup setup 1800000 1800001 first second "p1" morning ann "lake" [] created node
      with_session elsewhere lake session_made created_unknown (omega arith) lake_known lake_named.0
      lake_named.1

abbrev without_session : Node (List ℕ) (Unit {0})
without_session =
    (create_session_clustered setup 1800000 (some first) "p1" morning ann "sea" [] node).1

session_refused :
    create_session_clustered setup 1800000 (some first) "p1" morning ann "sea" [] node
    ≡ (err (error forbidden "target_forbidden"), without_session)
unfolding create_session_clustered create_session ensure_available cleanup_expired
    expired_prepared_sessions drop_statements expire_sessions expire_session drop_records
    expired_sessions cancel_session drop_session audit close lookup insert remove retain map_values
    enforce_session_quota owned_sessions authorized_target can_use_target open_session acquire_quota
    used_quota drop_permits release_quota
session_refused = refl

no_permit : lookup "p1" node.store.permits ≡ none
unfolding lookup
no_permit = refl

failed_session_has_no_permit_example : lookup "p1" without_session.store.permits ≡ none
failed_session_has_no_permit_example =
    failed_session_has_no_permit setup 1800000 first "p1" morning ann "sea" []
      (error forbidden "target_forbidden") node without_session no_permit session_refused
