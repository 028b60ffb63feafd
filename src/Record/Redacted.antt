-- ===== src/Record/Redacted.antt =====
-- crates/qcli-service/src/lib.rs: the session properties that the events of a query show.
use conflux_query.Base.{
  Bool-cases, Result-cases, Result, ok, err, string_eq, ℕ, String, ◌≡◌, refl, sym, subst, inl, inr,
  Bool, true, false, List, [], ◌∷◌, ◌++◌, arith,
}
use conflux_query.Driver.{
  QueryEvent, state_event, engine_query_id, rows_produced, progress, session_properties, cancelling,
  failed,
}
use conflux_query.Dict.{Dict, lookup}
use conflux_query.Limits.{ServiceLimits}
use conflux_query.Session.{CoreError}
use conflux_query.Redaction.{redacted}
use conflux_query.Redaction.Sensitive.{
  IsSensitive, HidesSecrets, redacted-HidesSecrets, redacted-shows,
}
use conflux_query.Results.{Arrow, Disk, store_batch}
use conflux_query.Record.{
  ServiceEvent, Payload, state_changed, properties_set, QueryData, new_data, push_event,
  record_event,
}
use conflux_query.Record.Events.{push_event-events}
use conflux_query.Record.Collect.{
  Item, event, batch, user_cancel, Collecting, start_collecting, collect_event, collect_batch,
  cancel_record, collect_item, collect_items, close_storage, fail_query, conclude, end_query,
  is_ending, is_cancelled,
}

abbrev pub IsSafe : Payload → Type 0
IsSafe (properties_set ps) = HidesSecrets ps
IsSafe _ = Unit {0}

abbrev pub AllSafe : List ServiceEvent → Type 0
AllSafe [] = Unit {0}
AllSafe (e ∷ es) = IsSafe e.payload × AllSafe es

AllSafe-append :
    (es : List ServiceEvent) (e : ServiceEvent)
    → AllSafe es
    → IsSafe e.payload
    → AllSafe (es ++ e ∷ [])
AllSafe-append [] e all safe = (safe, tt)
AllSafe-append (x ∷ es) e (here, all) safe = (here, AllSafe-append es e all safe)

module _ {B X : Type 0} where
  push_event-AllSafe :
      (now : ℕ) (p : Payload) (terminal : Bool) (d : QueryData B X)
      → AllSafe d.events
      → IsSafe p
      → AllSafe (push_event now p terminal d).events
  push_event-AllSafe now p terminal d all safe =
      subst AllSafe (sym (push_event-events now p terminal d)) (AllSafe-append d.events _ all safe)

  record_event-AllSafe :
      (now : ℕ) (e : QueryEvent) (d : QueryData B X)
      → AllSafe d.events
      → AllSafe (record_event now e d).events
  unfolding record_event
  record_event-AllSafe now (state_event s) d all = push_event-AllSafe now _ _ d all tt
  record_event-AllSafe now (engine_query_id id) d all = push_event-AllSafe now _ false _ all tt
  record_event-AllSafe now (rows_produced n) d all = push_event-AllSafe now _ false d all tt
  record_event-AllSafe now (progress p) d all = push_event-AllSafe now _ false d all tt
  record_event-AllSafe now (session_properties ps) d all =
      push_event-AllSafe now _ false d all (redacted-HidesSecrets ps)

  collect_event-AllSafe :
      (now : ℕ) (e : QueryEvent) (c : Collecting B X)
      → AllSafe c.details.events
      → AllSafe (collect_event now e c).details.events
  unfolding collect_event
  collect_event-AllSafe now e c all = elim (Bool-cases (is_ending e)) [
    | inl ends ↦ rw (ends, collect_event) all
    | inr goes ↦ rw (goes, collect_event) (record_event-AllSafe now e c.details all)
  ]

  close_storage-events :
      (disk : Disk) (c : Collecting B X) → (close_storage disk c).details.events ≡ c.details.events
  unfolding close_storage
  close_storage-events disk c = ground arith

  fail_query-events : (d : QueryData B X) → (fail_query d).events ≡ d.events
  unfolding fail_query
  fail_query-events d = ground arith

  conclude-AllSafe :
      (now : ℕ) (finish : Result CoreError (Unit {0})) (c : Collecting B X)
      → AllSafe c.details.events
      → AllSafe (conclude now finish c).events
  unfolding conclude
  conclude-AllSafe now (ok _) c all = elim (Bool-cases c.overflow) [
    | inl over ↦
        rw (over, conclude) (push_event-AllSafe now (state_changed failed) true c.details all tt)
    | inr fits ↦ rw (fits, conclude) (record_event-AllSafe now _ c.details all)
  ]
  conclude-AllSafe now (err e) c all = elim (Bool-cases (is_cancelled e)) [
    | inl stopped ↦ rw (stopped, conclude) (record_event-AllSafe now _ c.details all)
    | inr broke ↦
        rw (broke, conclude)
          (push_event-AllSafe now (state_changed failed) true (fail_query c.details)
            (subst AllSafe (sym (fail_query-events c.details)) all) tt)
  ]

  record_event-shows :
      (now : ℕ) (ps : Dict String String) (d : QueryData B X)
      → (e : ServiceEvent) × (shown : Dict String String) × ((record_event now
            (session_properties ps)
            d).events
          ≡ d.events ++ e ∷ [])
        × (e.payload ≡ properties_set shown)
        × ((name : String) → ¬ IsSensitive name → lookup name shown ≡ lookup name ps)
  unfolding record_event
  record_event-shows now ps d = (
    _,
    redacted ps,
    push_event-events now (properties_set (redacted ps)) false d,
    refl,
    λ name plain. redacted-shows name ps plain,
  )

module _ {B X : Type 0} (arrow : Arrow B X) (limits : ServiceLimits) where
  collect_batch-events :
      (disk : Disk) (b : B) (c : Collecting B X)
      → (collect_batch arrow disk limits b c).details.events ≡ c.details.events
  unfolding collect_batch
  collect_batch-events disk b c =
      elim (Result-cases (store_batch arrow disk limits b c.details.retained).0) [
        | inl (_, kept) ↦ ground (arith, kept)
        | inr (e, refused) ↦ ground (arith, refused)
      ]

  collect_items-AllSafe :
      (items : List (ℕ × Item B)) (c : Collecting B X)
      → AllSafe c.details.events
      → AllSafe (collect_items arrow limits items c).details.events
  unfolding collect_items collect_item cancel_record
  collect_items-AllSafe [] c all = all
  collect_items-AllSafe ((now, event e) ∷ items) c all =
      collect_items-AllSafe items _ (collect_event-AllSafe now e c all)
  collect_items-AllSafe ((now, batch disk b) ∷ items) c all =
      collect_items-AllSafe items (collect_batch arrow disk limits b c)
        (subst AllSafe (sym (collect_batch-events disk b c)) all)
  collect_items-AllSafe ((now, user_cancel) ∷ items) c all =
      collect_items-AllSafe items (cancel_record now c)
        (push_event-AllSafe now (state_changed cancelling) false c.details all tt)

-- Whatever arrives and however the query ends, no event of its record shows the value of a session
-- property whose name has `password`, `token`, `secret`, `credential` or `private_key` in it, in
-- capitals or not; the event that a report of session properties adds shows every other property as
-- it was reported.
pub events_hide_secrets :
    {B X : Type 0} (arrow : Arrow B X) (limits : ServiceLimits) (items : List (ℕ × Item B))
    (disk : Disk) (now : ℕ) (finish : Result CoreError (Unit {0}))
    → AllSafe
        (end_query disk now finish
          (collect_items arrow limits items (start_collecting (new_data {B = B} {X = X})))).events
      × ((later : ℕ) (ps : Dict String String) (d : QueryData B X)
          → (e : ServiceEvent) × (shown : Dict String String) × ((record_event later
                (session_properties ps)
                d).events
              ≡ d.events ++ e ∷ [])
            × (e.payload ≡ properties_set shown)
            × ((name : String) → ¬ IsSensitive name → lookup name shown ≡ lookup name ps))
unfolding end_query start_collecting new_data
events_hide_secrets {B} {X} arrow limits items disk now finish =
    let c = collect_items arrow limits items (start_collecting (new_data {B = B} {X = X})) in
    (
      conclude-AllSafe now finish (close_storage disk c) (
          subst AllSafe (sym (close_storage-events disk c))
            (collect_items-AllSafe arrow limits items (start_collecting new_data) tt)),
      record_event-shows,
    )
