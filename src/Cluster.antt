-- ===== src/Cluster.antt =====
-- crates/qcli-cluster/src/lib.rs: `MemoryClusterStateStore`, the store by which the nodes of a
-- cluster share sessions and queries. A method holds the lock to its end, so it is one step. A time
-- is a number, and a deadline is `ttl` after the time of the call. An `i64` is the natural number of
-- its 64 bits: versions and fencing tokens are compared for equality only. `P` is the type of JSON
-- payloads. The message of an error is not modelled.
pub mod Access
pub mod Writes
pub mod Fencing
pub mod Quota
pub mod Examples
use conflux_query.Base.{
  ltb, leb, if◌then◌else◌, is_some, ◌==◌, nat_eq, string_eq, keep, ok, err, Exec, ℕ, ◌+◌, ◌%◌,
  String, Bool, true, false, not, ◌&&◌, Option, none, some, List,
}
use conflux_query.Base.{pair_eq}
use conflux_query.Dict.{Dict, lookup, insert, remove, retain, values}
use conflux_query.Dict.Counting.{count_values}

pub record ClusterError : Type 0 where
  pub code : String

pub record NodeRegistration : Type 0 where
  pub node_id : String
  pub instance_version : String
  pub capabilities : List String
  pub draining : Bool
  pub lease_epoch : ℕ
  pub lease_expires_at : ℕ

pub record SharedResource (P : Type 0) : Type 0 where
  pub resource_id : String
  pub principal_id : String
  pub kind : String
  pub version : ℕ
  pub payload : P
  pub expires_at : ℕ

pub record QueryLease : Type 0 where
  pub query_id : String
  pub principal_id : String
  pub owner_node_id : String
  pub fencing_token : ℕ
  pub lease_expires_at : ℕ

-- A permit is the triple of the source: the principal, the name of the quota and the time of expiry.
pub record Permit : Type 0 where
  pub principal : String
  pub quota : String
  pub expires : ℕ

pub record MemoryState (P : Type 0) : Type 0 where
  pub nodes : Dict String NodeRegistration
  pub resources : Dict (String × String) (SharedResource P)
  pub leases : Dict String QueryLease
  pub permits : Dict String Permit
  pub next_fence : ℕ

abbrev pub i64_mod : ℕ
i64_mod = 18446744073709551616

-- From here on the 64 bits stand for the negative numbers.
abbrev pub i64_sign : ℕ
i64_sign = 9223372036854775808

-- `i64 += 1`, as a release build wraps it.
abbrev pub i64_next : ℕ → ℕ
i64_next n = (n + 1) % i64_mod

abbrev pub Call : Type 0 → Type 0 → Type 0
Call P A = Exec (MemoryState P) ClusterError A

abbrev pub cluster_error : String → ClusterError
cluster_error code = record { code = code }

abbrev next_epoch : Option NodeRegistration → ℕ
next_epoch none = 1
next_epoch (some node) = i64_next node.lease_epoch

abbrev pub mismatch : Option ℕ → ℕ → Bool
mismatch none version = false
mismatch (some expected) version = not (expected == version)

-- Why a lease that is there stands in the way of a claim.
unfoldable pub refusal :
    (now : ℕ) → (principal_id node_id : String) → Option QueryLease → Option ClusterError
refusal now principal_id node_id none = none
refusal now principal_id node_id (some lease) =
    if not (lease.principal_id == principal_id)
    then some (cluster_error "forbidden")
    else if ltb now lease.lease_expires_at && not (lease.owner_node_id == node_id)
    then some (cluster_error "lease_held")
    else none

-- The lease that is shown is the one that is held.
abbrev pub holds : QueryLease → QueryLease → Bool
holds lease current =
    (current.owner_node_id == lease.owner_node_id) && (current.fencing_token == lease.fencing_token)

abbrev pub counts_for : String → String → Permit → Bool
counts_for principal_id quota permit = (permit.principal == principal_id) && (permit.quota == quota)

module _ {P : Type 0} where
  unfoldable pub register_node :
      (now : ℕ)
      → (node_id instance_version : String) → List String
      → (ttl : ℕ) → Call P NodeRegistration
  register_node now node_id instance_version capabilities ttl s =
      let node : NodeRegistration = record {
        node_id = node_id;
        instance_version = instance_version;
        capabilities = capabilities;
        draining = false;
        lease_epoch = next_epoch (lookup node_id s.nodes);
        lease_expires_at = now + ttl;
      } in
      (ok node, record s { nodes = insert node_id node s.nodes })

  unfoldable pub renew_node : (now : ℕ) → String → (ttl : ℕ) → Call P NodeRegistration
  renew_node now node_id ttl s = elim (lookup node_id s.nodes) [
    | none ↦ (err (cluster_error "node_not_found"), s)
    | some node ↦
        let renewed = record node { lease_expires_at = now + ttl } in
        (ok renewed, record s { nodes = insert node_id renewed s.nodes })
  ]

  unfoldable pub set_draining : String → Bool → Call P (Unit {0})
  set_draining node_id draining s = elim (lookup node_id s.nodes) [
    | none ↦ (err (cluster_error "node_not_found"), s)
    | some node ↦
        (ok tt, record s { nodes = insert node_id (record node { draining = draining }) s.nodes })
  ]

  unfoldable pub live_nodes : (now : ℕ) → Call P (List NodeRegistration)
  live_nodes now s =
      (ok (keep (λ (n : NodeRegistration). ltb now n.lease_expires_at) (values s.nodes)), s)

  abbrev pub foreign : String → Option (SharedResource P) → Bool
  foreign principal none = false
  foreign principal (some r) = not (r.principal_id == principal)

  abbrev pub version_of : Option (SharedResource P) → ℕ
  version_of none = 0
  version_of (some r) = r.version

  unfoldable pub put_resource : SharedResource P → Option ℕ → Call P (SharedResource P)
  put_resource r expected s =
      let key : String × String = (r.kind, r.resource_id) in
      let current = lookup key s.resources in
      let written = record r { version = i64_next (version_of current) } in
      if foreign r.principal_id current
      then (err (cluster_error "forbidden"), s)
      else if mismatch expected (version_of current)
      then (err (cluster_error "version_conflict"), s)
      else (ok written, record s { resources = insert key written s.resources })

  unfoldable pub get_resource :
      (now : ℕ) → (kind resource_id principal_id : String) → Call P (Option (SharedResource P))
  get_resource now kind resource_id principal_id s = elim (lookup (kind, resource_id) s.resources) [
    | none ↦ (ok none, s)
    | some r ↦
        if not (r.principal_id == principal_id)
        then (err (cluster_error "forbidden"), s)
        else (ok (if ltb now r.expires_at then some r else none), s)
  ]

  unfoldable pub delete_resource : (kind resource_id principal_id : String) → Call P Bool
  delete_resource kind resource_id principal_id s =
      let key : String × String = (kind, resource_id) in
      let current = lookup key s.resources in
      if foreign principal_id current
      then (err (cluster_error "forbidden"), s)
      else (ok (is_some current), record s { resources = remove key s.resources })

  unfoldable pub claim_query :
      (now : ℕ) → (query_id principal_id node_id : String) → (ttl : ℕ) → Call P QueryLease
  unfolding refusal
  claim_query now query_id principal_id node_id ttl s =
      let lease : QueryLease = record {
        query_id = query_id;
        principal_id = principal_id;
        owner_node_id = node_id;
        fencing_token = i64_next s.next_fence;
        lease_expires_at = now + ttl;
      } in
      elim (refusal now principal_id node_id (lookup query_id s.leases)) [
        | some e ↦ (err e, s)
        | none ↦ (
          ok lease,
          record s { next_fence = i64_next s.next_fence; leases = insert query_id lease s.leases },
        )
      ]

  unfoldable pub renew_query : (now : ℕ) → QueryLease → (ttl : ℕ) → Call P QueryLease
  renew_query now lease ttl s = elim (lookup lease.query_id s.leases) [
    | none ↦ (err (cluster_error "lease_lost"), s)
    | some current ↦
        let renewed = record current { lease_expires_at = now + ttl } in
        if holds lease current
        then (ok renewed, record s { leases = insert lease.query_id renewed s.leases })
        else (err (cluster_error "lease_lost"), s)
  ]

  unfoldable pub release_query : QueryLease → Call P Bool
  release_query lease s = elim (lookup lease.query_id s.leases) [
    | none ↦ (ok false, s)
    | some current ↦
        if holds lease current
        then (ok true, record s { leases = remove lease.query_id s.leases })
        else (ok false, s)
  ]

  unfoldable pub used_quota : (principal_id quota : String) → MemoryState P → ℕ
  used_quota principal_id quota s = count_values (counts_for principal_id quota) s.permits

  unfoldable pub drop_permits : (now : ℕ) → MemoryState P → MemoryState P
  drop_permits now s = record s {
    permits = retain (λ (id : String) (p : Permit). ltb now p.expires) s.permits;
  }

  -- `id` is the fresh one; the permits that have expired go before the others are counted.
  unfoldable pub acquire_quota :
      (now : ℕ) → (id principal_id quota : String) → (limit ttl : ℕ) → Call P String
  unfolding used_quota drop_permits
  acquire_quota now id principal_id quota limit ttl s =
      let s' = drop_permits now s in
      let permit : Permit = record {
        principal = principal_id;
        quota = quota;
        expires = now + ttl;
      } in
      if leb limit (used_quota principal_id quota s')
      then (err (cluster_error "quota_exhausted"), s')
      else (ok id, record s' { permits = insert id permit s'.permits })

  unfoldable pub release_quota : String → Call P (Unit {0})
  release_quota id s = (ok tt, record s { permits = remove id s.permits })
