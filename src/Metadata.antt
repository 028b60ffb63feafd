-- ===== src/Metadata.antt =====
-- crates/qcli-metadata/src/lib.rs: metadata of the engines' catalogs, with a cache. The items are
-- those of crates/qcli-driver-api/src/lib.rs. A lock is taken and released within one step; an
-- adapter's answer and the times before and after it are arguments.
pub mod Keys
pub mod Expiry
pub mod Unbounded
pub mod Examples
use Keys.*
use Prim.Native.String.{◌++◌}
use conflux_query.Base.{
  leb, string_eq, ◌==◌, nat_eq, Result, ok, err, ok_or, Exec, ℕ, ◌-◌, String, Bool, not, Option,
  none, some, List,
}
use conflux_query.Dict.{Dict, lookup, insert, retain}
use conflux_query.Driver.{DriverError}

abbrev pub Cache : Type 0
Cache = Dict CacheKey CacheEntry

-- `entry.inserted.elapsed() <= self.ttl`
abbrev pub is_fresh : (ttl now : ℕ) → CacheEntry → Bool
is_fresh ttl now entry = leb (now - entry.inserted) ttl

unfoldable pub purge : (ttl now : ℕ) → Cache → Cache
purge ttl now = retain λ key entry. is_fresh ttl now entry

abbrev pub value_of : Option CacheEntry → Option CachedValue
value_of none = none
value_of (some entry) = some entry.value

unfoldable pub cached : (ttl now : ℕ) → CacheKey → Cache → Option CachedValue × Cache
unfolding purge
cached ttl now key cache = let kept = purge ttl now cache in (value_of (lookup key kept), kept)

unfoldable pub insert_value : (now : ℕ) → CacheKey → CachedValue → Cache → Cache
insert_value now key value cache = insert key (record { inserted = now; value = value }) cache

unfoldable pub invalidate_target : String → Cache → Cache
invalidate_target target = retain λ key entry. not (key.target == target)

-- What the four operations ask of an adapter.
pub record Adapter : Type 0 where
  pub list_catalogs : MetadataRequest → Result DriverError (List CatalogMetadata)
  pub list_schemas : MetadataRequest → Result DriverError (List SchemaMetadata)
  pub list_objects : MetadataRequest → Result DriverError (List ObjectMetadata)
  pub describe_object : MetadataRequest → String → Result DriverError (List ColumnMetadata)

unfoldable pub adapter : Dict String Adapter → String → Result DriverError Adapter
adapter adapters engine = ok_or (lookup engine adapters) (record {
  code = "adapter_not_found";
  message = "no adapter registered for engine '" ++ (engine ++ "'");
})

-- What surrounds a call: the adapters as they answer it, and the clock when the cache is read and
-- when the answer is stored.
pub record Call : Type 0 where
  pub adapters : Dict String Adapter
  pub now : ℕ
  pub later : ℕ

-- The part of an operation after the cache had no value of its kind.
abbrev pub fetch :
    {A : Type 0}
    → (later : ℕ) → CacheKey
    → (A → CachedValue)
    → Result DriverError A
    → Exec Cache DriverError A
fetch later key wrap (err e) cache = (err e, cache)
fetch later key wrap (ok value) cache = (ok value, insert_value later key (wrap value) cache)

-- The value found in the cache, or else the adapter's.
abbrev pub served :
    {A : Type 0}
    → (later : ℕ) → CacheKey
    → (A → CachedValue)
    → Result DriverError A
    → Option A
    → Exec Cache DriverError A
served later key wrap answer (some value) cache = (ok value, cache)
served later key wrap answer none cache = fetch later key wrap answer cache

-- An adapter that is not there fails before it is asked.
abbrev pub ask :
    {A : Type 0}
    → Result DriverError Adapter
    → (Adapter → Result DriverError A)
    → Result DriverError A
ask (err e) question = err e
ask (ok a) question = question a

abbrev pub found_catalogs : Option CachedValue → Option (List CatalogMetadata)
found_catalogs (some (cached_catalogs value)) = some value
found_catalogs _ = none

abbrev pub found_schemas : Option CachedValue → Option (List SchemaMetadata)
found_schemas (some (cached_schemas value)) = some value
found_schemas _ = none

abbrev pub found_objects : Option CachedValue → Option (List ObjectMetadata)
found_objects (some (cached_objects value)) = some value
found_objects _ = none

abbrev pub found_columns : Option CachedValue → Option (List ColumnMetadata)
found_columns (some (cached_columns value)) = some value
found_columns _ = none

-- The service keeps its `ttl`.
module _ (ttl : ℕ) (hash : Dict String String → ℕ) where
  unfoldable pub catalogs : Call → MetadataRequest → Exec Cache DriverError (List CatalogMetadata)
  unfolding cached
  catalogs call request cache =
      let key = cache_key hash request catalogs_of in
      let (hit, kept) = cached ttl call.now key cache in
      served call.later key cached_catalogs
        (ask (adapter call.adapters request.engine) λ a. a.list_catalogs request)
        (found_catalogs hit) kept

  unfoldable pub schemas : Call → MetadataRequest → Exec Cache DriverError (List SchemaMetadata)
  unfolding cached
  schemas call request cache =
      let key = cache_key hash request schemas_of in
      let (hit, kept) = cached ttl call.now key cache in
      served call.later key cached_schemas
        (ask (adapter call.adapters request.engine) λ a. a.list_schemas request) (found_schemas hit)
        kept

  unfoldable pub objects : Call → MetadataRequest → Exec Cache DriverError (List ObjectMetadata)
  unfolding cached
  objects call request cache =
      let key = cache_key hash request objects_of in
      let (hit, kept) = cached ttl call.now key cache in
      served call.later key cached_objects
        (ask (adapter call.adapters request.engine) λ a. a.list_objects request) (found_objects hit)
        kept

  unfoldable pub describe :
      Call → MetadataRequest → (object : String) → Exec Cache DriverError (List ColumnMetadata)
  unfolding cached
  describe call request object cache =
      let key = cache_key hash request (describe_of object) in
      let (hit, kept) = cached ttl call.now key cache in
      served call.later key cached_columns
        (ask (adapter call.adapters request.engine) λ a. a.describe_object request object)
        (found_columns hit) kept
