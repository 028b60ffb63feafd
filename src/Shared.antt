-- ===== src/Shared.antt =====
-- crates/qcli-service/src/lib.rs: the gateway of a node that shares its state with the other nodes
-- of a cluster, over the store of crates/qcli-cluster/src/lib.rs. A node's view of the world is its
-- own gateway and the store; calls of the other nodes happen between its own.
pub mod Sessions
pub mod Queries
pub mod Travel
pub mod Overwriting
pub mod Permits
pub mod Statuses
pub mod Recovery
pub mod Examples
pub mod EditExamples
use conflux_query.Base.{
  if◌then◌else◌, string_eq, ◌==◌, nat_eq, Result, ok, err, map_err, Exec, state_of, ℕ, String, ◌≡◌,
  ap, ◌||◌, Option, arith,
}
use conflux_query.Session.{SessionSnapshot}
use conflux_query.Record.{QueryStatus}
use conflux_query.Gateway.{
  Gateway, Action, ServiceError, not_found, resource_exhausted, conflict, internal, error,
}
use conflux_query.Cluster.{MemoryState, ClusterError, Call}

pub record ClusterContext : Type 0 where
  pub node_id : String
  pub lease_ttl : ℕ

pub record SharedSession : Type 0 where
  pub snapshot : SessionSnapshot
  pub quota_permit : String

pub record SharedQuery : Type 0 where
  pub status : QueryStatus
  pub result_key : Option String
  pub batch_count : ℕ
  pub fencing_token : ℕ

-- The JSON values in the store: those that nodes write, and any other.
pub data Payload : Type 0 where
  session_payload : SharedSession → Payload
  query_payload : SharedQuery → Payload
  other_payload : Payload

-- `serde_json::from_value`
abbrev pub session_of : Payload → Result ServiceError SharedSession
session_of (session_payload shared) = ok shared
session_of _ = err (error internal "shared_state_json")

abbrev pub query_of : Payload → Result ServiceError SharedQuery
query_of (query_payload shared) = ok shared
query_of _ = err (error internal "shared_state_json")

unfoldable pub cluster_service_error : ClusterError → ServiceError
cluster_service_error e =
    if e.code == "forbidden"
    then error not_found e.code
    else if e.code == "quota_exhausted"
    then error resource_exhausted e.code
    else if (e.code == "version_conflict") || (e.code == "lease_held") || (e.code == "lease_lost")
    then error conflict e.code
    else error internal e.code

abbrev pub session_not_found : ServiceError
session_not_found = error not_found "session_not_found"

abbrev pub query_not_found : ServiceError
query_not_found = error not_found "query_not_found"

pub record Node (B X : Type 0) : Type 0 where
  pub gateway : Gateway B X
  pub store : MemoryState Payload

abbrev pub Step : Type 0 → Type 0 → Type 0 → Type 0
Step B X A = Exec (Node B X) ServiceError A

module _ {B X : Type 0} where
  abbrev pub on_gateway : {A : Type 0} → Action B X A → Step B X A
  on_gateway f n = ((f n.gateway).0, record n { gateway = (f n.gateway).1 })

  abbrev pub on_store : {A : Type 0} → Call Payload A → Step B X A
  on_store f n = (map_err cluster_service_error (f n.store).0, record n { store = (f n.store).1 })

  -- `.await.ok()`: what the store answers is dropped.
  abbrev pub in_store : {A : Type 0} → Call Payload A → Node B X → Node B X
  in_store f n = record n { store = state_of f n.store }

  -- On an error the second step is taken, and the error stands.
  abbrev pub undone :
      {A : Type 0}
      → Result ServiceError A × Node B X
      → (Node B X → Node B X)
      → Result ServiceError A × Node B X
  undone (ok a, n) undo = (ok a, n)
  undone (err e, n) undo = (err e, undo n)

  abbrev pub or_undo : {A : Type 0} → Step B X A → (Node B X → Node B X) → Step B X A
  or_undo f undo n = undone (f n) undo

  -- On an error the other step is taken instead.
  abbrev otherwise :
      {A : Type 0}
      → Result ServiceError A × Node B X
      → Step B X A
      → Result ServiceError A × Node B X
  otherwise (ok a, n) other = (ok a, n)
  otherwise (err e, n) other = other n

  abbrev pub or_else_try : {A : Type 0} → Step B X A → Step B X A → Step B X A
  or_else_try f other n = otherwise (f n) other

  pub on_store-ok :
      {A : Type 0} (f : Call Payload A) (a : A) (n : Node B X) (s : MemoryState Payload)
      → f n.store ≡ (ok a, s)
      → on_store f n ≡ (ok a, record n { store = s })
  on_store-ok {A = A} f a n s h =
      ap
        (λ (q : Result ClusterError A × MemoryState Payload).
          (map_err cluster_service_error q.0, record n { store = q.1 }))
        h

  on_store-both :
      {A : Type 0} (q : Result ClusterError A × MemoryState Payload) (a : A) (n m : Node B X)
      → Path
          (Result ServiceError A × Node B X)
          (map_err cluster_service_error q.0, record n { store = q.1 })
          (ok a, m)
      → (q ≡ (ok a, m.store)) × (m.gateway ≡ n.gateway)
  on_store-both (ok b, s) a n m h = (ground (arith, h), ground (arith, h))
  on_store-both (err e, s) a n m h = absurd (ground (arith, h))

  -- A step on the store that succeeds leaves the gateway alone.
  pub on_store-done :
      {A : Type 0} (f : Call Payload A) (a : A) (n m : Node B X)
      → on_store f n ≡ (ok a, m)
      → (f n.store ≡ (ok a, m.store)) × (m.gateway ≡ n.gateway)
  on_store-done f a n m h = on_store-both (f n.store) a n m h

  undone-done :
      {A : Type 0} (q : Result ServiceError A × Node B X) (undo : Node B X → Node B X) (a : A)
      (m : Node B X)
      → undone q undo ≡ (ok a, m)
      → q ≡ (ok a, m)
  undone-done (ok b, n) undo a m h = h
  undone-done (err e, n) undo a m h = absurd (ground (arith, h))

  pub or_undo-done :
      {A : Type 0} (f : Step B X A) (undo : Node B X → Node B X) (a : A) (n m : Node B X)
      → or_undo f undo n ≡ (ok a, m)
      → f n ≡ (ok a, m)
  or_undo-done f undo a n m h = undone-done (f n) undo a m h

  undone-failed :
      {A : Type 0} (q : Result ServiceError A × Node B X) (undo : Node B X → Node B X)
      (e : ServiceError) (m : Node B X)
      → undone q undo ≡ (err e, m)
      → (k : Node B X) × (q ≡ (err e, k)) × (m ≡ undo k)
  undone-failed (ok a, n) undo e m h = absurd (ground (arith, h))
  undone-failed (err x, n) undo e m h = (n, cc, cc)

  pub or_undo-failed :
      {A : Type 0} (f : Step B X A) (undo : Node B X → Node B X) (e : ServiceError) (n m : Node B X)
      → or_undo f undo n ≡ (err e, m)
      → (k : Node B X) × (f n ≡ (err e, k)) × (m ≡ undo k)
  or_undo-failed f undo e n m h = undone-failed (f n) undo e m h
