-- ===== src/Record/Keeping.antt =====
-- crates/qcli-service/src/lib.rs: the batches of a query that `store_batch` takes, and what the loop of
-- `collect_query` notes of them.
use conflux_query.Base.{
  Bool-cases, Result-cases, ok, ℕ, ◌≡◌, refl, sym, ◌∙◌, subst, ◌↔◌, inl, inr, Bool, false, List, [],
  ◌∷◌, arith,
}
use conflux_query.Driver.{
  cancelling, QueryEvent, state_event, engine_query_id, rows_produced, progress, session_properties,
}
use conflux_query.Limits.{ServiceLimits}
use conflux_query.Results.{Arrow, Disk, Retained, store_batch, finish_results}
use conflux_query.Record.{Payload, QueryData, push_event, record_event, enter_state, state_changed}
use conflux_query.Record.Collect.{
  Item, event, batch, user_cancel, Collecting, collect_event, collect_batch, cancel_record,
  collect_item, collect_items, close_storage, is_ending,
}

module _ {B X : Type 0} (arrow : Arrow B X) (limits : ServiceLimits) where
  -- `store_batch` takes each batch in turn, from some retained results on, and the file of the
  -- results, if there is one, can be finished.
  abbrev pub AllStored : List (ℕ × Item B) → Disk → Retained B X → Type 0
  AllStored [] last d = (finish_results last d).0 ≡ ok tt
  AllStored ((now, event e) ∷ items) last d = AllStored items last d
  AllStored ((now, batch disk b) ∷ items) last d =
      ((store_batch arrow disk limits b d).0 ≡ ok tt)
      × AllStored items last (store_batch arrow disk limits b d).1
  AllStored ((now, user_cancel) ∷ items) last d = AllStored items last d

module _ {B X : Type 0} where
  push_event-retained :
      (now : ℕ) (p : Payload) (terminal : Bool) (d : QueryData B X)
      → (push_event now p terminal d).retained ≡ d.retained
  unfolding push_event enter_state
  push_event-retained now (state_changed s) terminal d = refl
  push_event-retained now p terminal d = refl

  record_event-retained :
      (now : ℕ) (e : QueryEvent) (d : QueryData B X) → (record_event now e d).retained ≡ d.retained
  unfolding record_event
  record_event-retained now (state_event s) d = push_event-retained now _ _ d
  record_event-retained now (engine_query_id id) d = push_event-retained now _ false _
  record_event-retained now (rows_produced n) d = push_event-retained now _ false d
  record_event-retained now (progress p) d = push_event-retained now _ false d
  record_event-retained now (session_properties ps) d = push_event-retained now _ false d

  -- Of the record, the loop's results and its note of a failure.
  abbrev SameStorage : Collecting B X → Collecting B X → Type 0
  SameStorage c c' = (c'.details.retained ≡ c.details.retained) × (c'.overflow ≡ c.overflow)

  collect_event-SameStorage :
      (now : ℕ) (e : QueryEvent) (c : Collecting B X) → SameStorage c (collect_event now e c)
  unfolding collect_event
  collect_event-SameStorage now e c = elim (Bool-cases (is_ending e)) [
    | inl ends ↦ rw (ends, collect_event) (refl, refl)
    | inr goes ↦ rw (goes, collect_event) (record_event-retained now e c.details, refl)
  ]

  close_storage-overflow :
      (disk : Disk) (c : Collecting B X)
      → ((close_storage disk c).overflow ≡ false)
        ↔ ((c.overflow ≡ false) × ((finish_results disk c.details.retained).0 ≡ ok tt))
  unfolding close_storage
  close_storage-overflow disk c = elim (Result-cases (finish_results disk c.details.retained).0) [
    | inl (_, done) ↦ ground (arith, done)
    | inr (e, broke) ↦ ground (arith, broke)
  ]

module _ {B X : Type 0} (arrow : Arrow B X) (limits : ServiceLimits) where
  collect_batch-storage :
      (disk : Disk) (b : B) (c : Collecting B X)
      → let c' = collect_batch arrow disk limits b c in
        (c'.details.retained ≡ (store_batch arrow disk limits b c.details.retained).1)
        × ((c'.overflow ≡ false) ↔ (
            (c.overflow ≡ false)
            × ((store_batch arrow disk limits b c.details.retained).0 ≡ ok tt)))
  unfolding collect_batch
  collect_batch-storage disk b c =
      elim (Result-cases (store_batch arrow disk limits b c.details.retained).0) [
        | inl (_, kept) ↦ (ground (arith, kept), ground (arith, kept))
        | inr (e, refused) ↦ (ground (arith, refused), ground (arith, refused))
      ]

  -- Nothing has failed so far: the loop and the file at its end note no failure exactly if
  -- `store_batch` takes every batch and the file can be finished.
  pub collect_items-AllStored :
      (items : List (ℕ × Item B)) (last : Disk) (c : Collecting B X)
      → ((close_storage last (collect_items arrow limits items c)).overflow ≡ false)
        ↔ ((c.overflow ≡ false) × AllStored arrow limits items last c.details.retained)
  unfolding collect_items collect_item cancel_record
  collect_items-AllStored [] last c = close_storage-overflow last c
  collect_items-AllStored ((now, event e) ∷ items) last c =
      let (kept, noted) = collect_event-SameStorage now e c in
      let (to, from) = collect_items-AllStored items last (collect_event now e c) in
      (
        λ h. (sym noted ∙ (to h).0, subst (AllStored arrow limits items last) kept (to h).1),
        λ (none_yet, all).
            from (noted ∙ none_yet, subst (AllStored arrow limits items last) (sym kept) all),
      )
  collect_items-AllStored ((now, batch disk b) ∷ items) last c =
      let (kept, noted) = collect_batch-storage disk b c in
      let (to, from) = collect_items-AllStored items last (collect_batch arrow disk limits b c) in
      (
        λ h.
            let (none_yet, stored) = noted.0 (to h).0 in
            (none_yet, (stored, subst (AllStored arrow limits items last) kept (to h).1)),
        λ (none_yet, (stored, all)).
            from (
              noted.1 (none_yet, stored),
              subst (AllStored arrow limits items last) (sym kept) all,
            ),
      )
  collect_items-AllStored ((now, user_cancel) ∷ items) last c =
      let kept = push_event-retained now (state_changed cancelling) false c.details in
      let (to, from) = collect_items-AllStored items last (cancel_record now c) in
      (
        λ h. ((to h).0, subst (AllStored arrow limits items last) kept (to h).1),
        λ (none_yet, all).
            from (none_yet, subst (AllStored arrow limits items last) (sym kept) all),
      )
