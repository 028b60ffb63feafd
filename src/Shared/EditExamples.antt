-- ===== src/Shared/EditExamples.antt =====
-- crates/qcli-service/src/lib.rs: a session that two nodes change.
use conflux_query.Base.{string_eq, nat_eq, ok, ℕ, ◌≡◌, refl, none, some, List, [], ◌∷◌, arith}
use conflux_query.Base.{pair_eq}
use conflux_query.Dict.{lookup, insert, remove}
use conflux_query.Session.{
  SessionSnapshot, if_current, mutated, put_session, snapshot, snapshot_of, mutate, apply_values,
  bump,
}
use conflux_query.Session.Examples.{ann_session}
use conflux_query.Gateway.{ensure_available, require_session_owner}
use conflux_query.Gateway.Sessions.{session, on_sessions, authorized_change, mutate_session}
use conflux_query.Gateway.Examples.{setup, ann, gateway}
use conflux_query.Cluster.{SharedResource, put_resource, get_resource}
use conflux_query.Shared.{SharedSession, Payload, session_payload, Node}
use conflux_query.Shared.Sessions.{
  session_clustered, shared_session, share_change, mutate_session_clustered,
}
use conflux_query.Shared.Overwriting.{edit_is_lost}
use conflux_query.Shared.Examples.{first, second, store}

abbrev shared_ann : SharedSession
shared_ann = record { snapshot = snapshot ann_session; quota_permit = "p0" }

abbrev session_r : SharedResource Payload
session_r = record {
  resource_id = "s1";
  principal_id = "ann";
  kind = "session";
  version = 1;
  payload = session_payload shared_ann;
  expires_at = 2700000;
}

-- Both nodes, before any change.
abbrev node : Node (List ℕ) (Unit {0})
node = record {
  gateway = gateway;
  store = record store { resources = (("session", "s1"), session_r) ∷ [] };
}

abbrev limited : SessionSnapshot
limited =
    snapshot
      (record ann_session { version = 2; overrides = ("catalog", "raw") ∷ ("limit", "5") ∷ [] })

abbrev tagged : SessionSnapshot
tagged =
    snapshot
      (record ann_session { version = 2; overrides = ("catalog", "raw") ∷ ("tag", "x") ∷ [] })

abbrev after_first : Node (List ℕ) (Unit {0})
after_first =
    (mutate_session_clustered setup 1800000 (some first) ann "s1" 1 none (("limit", some "5") ∷ [])
      node).1

abbrev only_second : Node (List ℕ) (Unit {0})
only_second =
    (mutate_session_clustered setup 1800001 (some second) ann "s1" 1 none (("tag", some "x") ∷ [])
      node).1

first_run :
    mutate_session_clustered setup 1800000
      (some first)
      ann
      "s1"
      1
      none
      (("limit", some "5") ∷ [])
      node
    ≡ (ok limited, after_first)
unfolding mutate_session_clustered session_clustered share_change get_resource put_resource
    mutate_session ensure_available session require_session_owner on_sessions mutate if_current
    mutated apply_values bump lookup insert remove put_session snapshot_of authorized_change
    snapshot
first_run = refl

second_run :
    mutate_session_clustered setup 1800001
      (some second)
      ann
      "s1"
      1
      none
      (("tag", some "x") ∷ [])
      node
    ≡ (ok tagged, only_second)
unfolding mutate_session_clustered session_clustered share_change get_resource put_resource
    mutate_session ensure_available session require_session_owner on_sessions mutate if_current
    mutated apply_values bump lookup insert remove put_session snapshot_of authorized_change
    snapshot
second_run = refl

session_found : lookup ("session", "s1") node.store.resources ≡ some session_r
unfolding lookup
session_found = refl

first_knows : (session 1800000 ann "s1" gateway).0 ≡ ok (snapshot ann_session)
unfolding session require_session_owner on_sessions snapshot_of lookup insert
first_knows = refl

second_knows : (session 1800001 ann "s1" gateway).0 ≡ ok (snapshot ann_session)
unfolding session require_session_owner on_sessions snapshot_of lookup insert
second_knows = refl

-- The limit that the first node set is gone.
edit_is_lost_example :
    let (answer, end) =
      mutate_session_clustered setup 1800001
        (some second)
        ann
        "s1"
        1
        none
        (("tag", some "x") ∷ [])
        (record { gateway = gateway; store = after_first.store }) in
    ((shared_session setup 1800000 ann "s1" after_first).0
      ≡ ok (record shared_ann { snapshot = limited }))
    × (answer ≡ ok tagged)
    × (end.gateway ≡ only_second.gateway)
    × ((shared_session setup 1800001 ann "s1" end).0 ≡ ok (record shared_ann { snapshot = tagged }))
edit_is_lost_example =
    edit_is_lost setup setup 1800000 1800001 first second ann "s1" 1 1 none none
      (("limit", some "5") ∷ []) (("tag", some "x") ∷ []) session_r shared_ann
      (snapshot ann_session) (snapshot ann_session) limited tagged node after_first node only_second
      session_found refl refl refl refl (omega arith) (omega arith) (omega arith) (omega arith)
      first_knows second_knows first_run second_run
