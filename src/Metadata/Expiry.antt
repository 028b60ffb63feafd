-- ===== src/Metadata/Expiry.antt =====
-- crates/qcli-metadata/src/lib.rs: throwing expired answers away is not seen from outside.
use conflux_query.Base.{
  Bool-cases, Option-cases, string_eq, ◌==◌, nat_eq, Result, ok, err, ℕ, ◌≤◌, String, ◌≡◌, refl,
  sym, ap, ap₂, ◌∙◌, subst, inl, inr, not, Option, none, some, List, [], ◌∷◌, arith,
}
use conflux_query.Dict.{Dict, lookup}
use conflux_query.Dict.Laws.{filter_option, lookup-insert, lookup-retain}
use conflux_query.Driver.{DriverError}
use conflux_query.Metadata.Keys.{
  key_eq, CacheKey, catalogs_of, schemas_of, objects_of, describe_of, CachedValue, cached_catalogs,
  cached_schemas, cached_objects, cached_columns, CacheEntry, cache_key,
}
use conflux_query.Metadata.{
  Cache, is_fresh, purge, value_of, served, cached, insert_value, fetch, invalidate_target, adapter,
  Call, ask, catalogs, schemas, objects, describe, found_catalogs, found_schemas, found_objects,
  found_columns,
}
use conflux_query.Metadata.Unbounded.{
  Question, Event, asked, invalidated, ask_catalogs, ask_schemas, ask_objects, ask_describe,
  Outcome, with_outcome, Ledger, note, forget, run, outcomes, noted, remembered, ideal,
  ideal_outcomes, IsOrdered,
}

module _ (ttl : ℕ) where
  -- The cache and the ledger hold the same answers that are fresh at a time.
  abbrev Agrees : ℕ → Cache → Ledger → Type 0
  Agrees t cache ledger =
      (key : CacheKey)
      → filter_option (is_fresh ttl t) (lookup key cache)
        ≡ filter_option (is_fresh ttl t) (ledger key)

  filter_fresh :
      (t u : ℕ) (entry : Option CacheEntry)
      → t ≤ u
      → filter_option (is_fresh ttl u) (filter_option (is_fresh ttl t) entry)
        ≡ filter_option (is_fresh ttl u) entry
  filter_fresh t u none h = refl
  filter_fresh t u (some entry) h = ground (arith, h)

  Agrees-later :
      (t u : ℕ) (cache : Cache) (ledger : Ledger)
      → t ≤ u
      → Agrees t cache ledger
      → Agrees u cache ledger
  Agrees-later t u cache ledger h agrees key =
      sym (filter_fresh t u (lookup key cache) h)
      ∙ ap (filter_option (is_fresh ttl u)) (agrees key)
      ∙ filter_fresh t u (ledger key) h

  lookup-purge :
      (t : ℕ) (cache : Cache) (key : CacheKey)
      → lookup key (purge ttl t cache) ≡ filter_option (is_fresh ttl t) (lookup key cache)
  unfolding purge
  lookup-purge t cache key = lookup-retain (λ k entry. is_fresh ttl t entry) key cache

  Agrees-purge :
      (t : ℕ) (cache : Cache) (ledger : Ledger)
      → Agrees t cache ledger
      → Agrees t (purge ttl t cache) ledger
  Agrees-purge t cache ledger agrees key =
      ap (filter_option (is_fresh ttl t)) (lookup-purge t cache key)
      ∙ filter_fresh t t (lookup key cache) (ground arith)
      ∙ agrees key

  Agrees-insert :
      (t : ℕ) (new : CacheKey) (entry : CacheEntry) (cache : Cache) (ledger : Ledger)
      → Agrees t cache ledger
      → Agrees t (insert_value entry.inserted new entry.value cache) (note new entry ledger)
  unfolding insert_value
  Agrees-insert t new entry cache ledger agrees key =
      ap (filter_option (is_fresh ttl t)) (lookup-insert new key entry cache)
      ∙ elim (Bool-cases (new == key)) [
        | inl same ↦ ground (arith, same)
        | inr other ↦ ground (arith, other, agrees key)
      ]

  Agrees-invalidate_target :
      (t : ℕ) (target : String) (cache : Cache) (ledger : Ledger)
      → Agrees t cache ledger
      → Agrees t (invalidate_target target cache) (forget target ledger)
  unfolding invalidate_target
  Agrees-invalidate_target t target cache ledger agrees key =
      ap (filter_option (is_fresh ttl t))
        (lookup-retain (λ k entry. not (k.target == target)) key cache)
      ∙ elim (Bool-cases (key.target == target)) [
        | inl same ↦ elim (Option-cases (lookup key cache)) [
          | inl missing ↦ ground (arith, same, missing)
          | inr (entry, found) ↦ ground (arith, same, found)
        ]
        | inr other ↦ elim (Option-cases (lookup key cache)) [
          | inl missing ↦ ground (arith, other, missing, agrees key)
          | inr (entry, found) ↦ ground (arith, other, found, agrees key)
        ]
      ]

  -- The two services give the same answer, and agree afterwards.
  abbrev Same : ℕ → Outcome × Cache → Outcome × Ledger → Type 0
  Same t p q = (p.0 ≡ q.0) × Agrees t p.1 q.1

  Agrees-fetch :
      {A : Type 0} (t later : ℕ) (key : CacheKey) (wrap : A → CachedValue)
      (r : Result DriverError A) (cache : Cache) (ledger : Ledger)
      → Agrees t cache ledger
      → Same t (with_outcome wrap (fetch later key wrap r cache)) (noted key later wrap r ledger)
  Agrees-fetch t later key wrap (err e) cache ledger agrees = (refl, agrees)
  Agrees-fetch t later key wrap (ok value) cache ledger agrees =
      let entry : CacheEntry = record { inserted = later; value = wrap value } in
      (refl, Agrees-insert t key entry cache ledger agrees)

  Agrees-served :
      {A : Type 0} (t later : ℕ) (key : CacheKey) (wrap : A → CachedValue)
      (r : Result DriverError A) (hit : Option A) (cache : Cache) (ledger : Ledger)
      → Agrees t cache ledger
      → Same t
          (with_outcome wrap (served later key wrap r hit cache))
          (remembered later key wrap r hit ledger)
  Agrees-served t later key wrap r (some value) cache ledger agrees = (refl, agrees)
  Agrees-served t later key wrap r none cache ledger agrees =
      Agrees-fetch t later key wrap r cache ledger agrees

  module _ {A : Type 0} (kind : Option CachedValue → Option A) (wrap : A → CachedValue) where
    Agrees-recall :
        (t now later : ℕ) (key : CacheKey) (r : Result DriverError A) (cache : Cache)
        (ledger : Ledger)
        → t ≤ now
        → Agrees t cache ledger
        → Same now
            (with_outcome wrap
              (served later key wrap r (kind (cached ttl now key cache).0) (purge ttl now cache)))
            (remembered later key wrap r
              (kind (value_of (filter_option (is_fresh ttl now) (ledger key))))
              ledger)
    unfolding cached
    Agrees-recall t now later key r cache ledger h agrees =
        let here = Agrees-later t now cache ledger h agrees in
        let e : lookup key (purge ttl now cache) ≡ filter_option (is_fresh ttl now) (ledger key) =
          lookup-purge now cache key ∙ here key in
        subst
          (λ o.
            Same now
              (with_outcome wrap (
                served later key wrap r (kind (value_of (lookup key (purge ttl now cache))))
                  (purge ttl now cache)))
              (remembered later key wrap r (kind (value_of o)) ledger))
          e
          (Agrees-served now later key wrap r (kind (value_of (lookup key (purge ttl now cache))))
            (purge ttl now cache) ledger (Agrees-purge now cache ledger here))

module _ (ttl : ℕ) (hash : Dict String String → ℕ) where
  Agrees-run :
      (t : ℕ) (call : Call) (question : Question) (cache : Cache) (ledger : Ledger)
      → t ≤ call.now
      → Agrees ttl t cache ledger
      → Same ttl call.now
          (run ttl hash (asked call question) cache)
          (ideal ttl hash (asked call question) ledger)
  unfolding catalogs schemas objects describe cached
  Agrees-run t call (ask_catalogs request) cache ledger h agrees =
      Agrees-recall ttl found_catalogs cached_catalogs t call.now call.later
        (cache_key hash request catalogs_of)
        (ask (adapter call.adapters request.engine) λ a. a.list_catalogs request) cache ledger h
        agrees
  Agrees-run t call (ask_schemas request) cache ledger h agrees =
      Agrees-recall ttl found_schemas cached_schemas t call.now call.later
        (cache_key hash request schemas_of)
        (ask (adapter call.adapters request.engine) λ a. a.list_schemas request) cache ledger h
        agrees
  Agrees-run t call (ask_objects request) cache ledger h agrees =
      Agrees-recall ttl found_objects cached_objects t call.now call.later
        (cache_key hash request objects_of)
        (ask (adapter call.adapters request.engine) λ a. a.list_objects request) cache ledger h
        agrees
  Agrees-run t call (ask_describe request object) cache ledger h agrees =
      Agrees-recall ttl found_columns cached_columns t call.now call.later
        (cache_key hash request (describe_of object))
        (ask (adapter call.adapters request.engine) λ a. a.describe_object request object) cache
        ledger h agrees

  outcomes-ideal_outcomes :
      (events : List Event) (t : ℕ) (cache : Cache) (ledger : Ledger)
      → IsOrdered t events
      → Agrees ttl t cache ledger
      → outcomes ttl hash events cache ≡ ideal_outcomes ttl hash events ledger
  outcomes-ideal_outcomes [] t cache ledger ordered agrees = refl
  outcomes-ideal_outcomes (asked call question ∷ events) t cache ledger (h, ordered) agrees =
      let (same, agrees') = Agrees-run t call question cache ledger h agrees in
      ap₂ (λ o os. o ∷ os) same
        (outcomes-ideal_outcomes events call.now (run ttl hash (asked call question) cache).1
          (ideal ttl hash (asked call question) ledger).1 ordered agrees')
  outcomes-ideal_outcomes (invalidated target ∷ events) t cache ledger ordered agrees =
      ap (λ os. none ∷ os)
        (outcomes-ideal_outcomes events t (invalidate_target target cache) (forget target ledger)
          ordered (Agrees-invalidate_target ttl t target cache ledger agrees))

-- While the clock does not run backwards, the service gives to every row of calls and invalidations
-- the answers of one that keeps the last answer to each key until its target is invalidated, and
-- uses it while it is no older than the time to live: neither a purge nor an entry of another key is
-- ever seen.
pub metadata_refines :
    (ttl : ℕ) (hash : Dict String String → ℕ) (events : List Event)
    → IsOrdered 0 events
    → outcomes ttl hash events [] ≡ ideal_outcomes ttl hash events (λ key. none)
unfolding lookup
metadata_refines ttl hash events ordered =
    outcomes-ideal_outcomes ttl hash events 0 [] (λ key. none) ordered (λ key. refl)
