-- ===== src/Metadata/Unbounded.antt =====
-- crates/qcli-metadata/src/lib.rs: calls of the service one after the other, and the service that
-- forgets nothing until it is told to.
use conflux_query.Base.{
  if◌then◌else◌, string_eq, ◌==◌, nat_eq, Result, ok, err, ℕ, ◌≤◌, String, Option, none, some, List,
  [], ◌∷◌,
}
use conflux_query.Dict.{Dict}
use conflux_query.Dict.Laws.{filter_option}
use conflux_query.Driver.{DriverError}
use conflux_query.Metadata.Keys.{
  key_eq, MetadataRequest, Operation, catalogs_of, schemas_of, objects_of, describe_of, CacheKey,
  CachedValue, cached_catalogs, cached_schemas, cached_objects, cached_columns, CacheEntry,
  cache_key,
}
use conflux_query.Metadata.{
  Cache, is_fresh, value_of, invalidate_target, Adapter, adapter, Call, ask, found_catalogs,
  found_schemas, found_objects, found_columns, catalogs, schemas, objects, describe,
}

pub data Question : Type 0 where
  ask_catalogs ask_schemas ask_objects : MetadataRequest → Question
  ask_describe : MetadataRequest → (object : String) → Question

pub data Event : Type 0 where
  asked : Call → Question → Event
  invalidated : (target : String) → Event

-- An answer of any of the four operations; an invalidation has none.
abbrev pub Outcome : Type 0
Outcome = Option (Result DriverError CachedValue)

abbrev pub wrapped : {A : Type 0} → (A → CachedValue) → Result DriverError A → Outcome
wrapped wrap (ok value) = some (ok (wrap value))
wrapped wrap (err e) = some (err e)

abbrev pub with_outcome :
    {A : Type 0} → (A → CachedValue) → Result DriverError A × Cache → Outcome × Cache
with_outcome wrap (r, cache) = (wrapped wrap r, cache)

-- What a service remembers that neither expires its answers nor throws them away.
abbrev pub Ledger : Type 0
Ledger = CacheKey → Option CacheEntry

abbrev pub note : CacheKey → CacheEntry → Ledger → Ledger
note key entry ledger k = if key == k then some entry else ledger k

abbrev pub forget : (target : String) → Ledger → Ledger
forget target ledger k = if k.target == target then none else ledger k

module _ {A : Type 0} where
  abbrev pub noted :
      CacheKey → (later : ℕ) → (A → CachedValue) → Result DriverError A → Ledger → Outcome × Ledger
  noted key later wrap (err e) ledger = (some (err e), ledger)
  noted key later wrap (ok value) ledger =
      (some (ok (wrap value)), note key (record { inserted = later; value = wrap value }) ledger)

  abbrev pub remembered :
      (later : ℕ)
      → CacheKey
      → (A → CachedValue)
      → Result DriverError A
      → Option A
      → Ledger
      → Outcome × Ledger
  remembered later key wrap r (some value) ledger = (some (ok (wrap value)), ledger)
  remembered later key wrap r none ledger = noted key later wrap r ledger

module _ (ttl : ℕ) (hash : Dict String String → ℕ) where
  abbrev pub run : Event → Cache → Outcome × Cache
  run (asked call (ask_catalogs request)) cache =
      with_outcome cached_catalogs (catalogs ttl hash call request cache)
  run (asked call (ask_schemas request)) cache =
      with_outcome cached_schemas (schemas ttl hash call request cache)
  run (asked call (ask_objects request)) cache =
      with_outcome cached_objects (objects ttl hash call request cache)
  run (asked call (ask_describe request object)) cache =
      with_outcome cached_columns (describe ttl hash call request object cache)
  run (invalidated target) cache = (none, invalidate_target target cache)

  abbrev pub outcomes : List Event → Cache → List Outcome
  outcomes [] cache = []
  outcomes (event ∷ events) cache =
      let (outcome, cache') = run event cache in outcome ∷ outcomes events cache'

  -- An answer is looked up, and used while it is no older than the service keeps answers; else the
  -- adapter is asked, and its answer is noted.
  abbrev pub recall :
      {A : Type 0}
      → (Option CachedValue → Option A)
      → (A → CachedValue)
      → Operation
      → MetadataRequest
      → (Adapter → Result DriverError A)
      → Call
      → Ledger
      → Outcome × Ledger
  recall kind wrap operation request question call ledger =
      let key = cache_key hash request operation in
      remembered call.later key wrap (ask (adapter call.adapters request.engine) question)
        (kind (value_of (filter_option (is_fresh ttl call.now) (ledger key)))) ledger

  abbrev pub ideal : Event → Ledger → Outcome × Ledger
  ideal (asked call (ask_catalogs request)) ledger =
      recall found_catalogs cached_catalogs catalogs_of request (λ a. a.list_catalogs request) call
        ledger
  ideal (asked call (ask_schemas request)) ledger =
      recall found_schemas cached_schemas schemas_of request (λ a. a.list_schemas request) call
        ledger
  ideal (asked call (ask_objects request)) ledger =
      recall found_objects cached_objects objects_of request (λ a. a.list_objects request) call
        ledger
  ideal (asked call (ask_describe request object)) ledger =
      recall found_columns cached_columns (describe_of object) request
        (λ a. a.describe_object request object) call ledger
  ideal (invalidated target) ledger = (none, forget target ledger)

  abbrev pub ideal_outcomes : List Event → Ledger → List Outcome
  ideal_outcomes [] ledger = []
  ideal_outcomes (event ∷ events) ledger =
      let (outcome, ledger') = ideal event ledger in outcome ∷ ideal_outcomes events ledger'

-- The clock does not run backwards from call to call.
abbrev pub IsOrdered : ℕ → List Event → Type 0
IsOrdered t [] = Unit
IsOrdered t (asked call question ∷ events) = (t ≤ call.now) × IsOrdered call.now events
IsOrdered t (invalidated target ∷ events) = IsOrdered t events
