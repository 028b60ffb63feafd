-- ===== src/Record/Running.antt =====
-- crates/qcli-service/src/lib.rs: what the loop of `collect_query` keeps, whatever arrives.
use conflux_query.Base.{
  Bool-cases, is_some, count_by, count_by-append, Result, ok, err, ℕ, ◌≡◌, refl, sym, ap, ◌∙◌,
  subst, inl, inr, Bool, true, false, none, some, List, [], ◌∷◌, arith,
}
use conflux_query.Driver.{
  cancelling, QueryEvent, state_event, engine_query_id, rows_produced, progress, session_properties,
}
use conflux_query.Limits.{ServiceLimits}
use conflux_query.Results.{Arrow, Disk, QueryError, store_batch}
use conflux_query.Record.Events.{enter_state-keeps}
use conflux_query.Record.Collect.{
  Item, event, batch, user_cancel, Collecting, collect_event, collect_batch, cancel_record,
  collect_item, collect_items, is_ending,
}
use conflux_query.Record.{
  ServiceEvent, Payload, state_changed, QueryData, is_terminal, push_event, record_event,
  enter_state,
}

abbrev pub terminals : List ServiceEvent → ℕ
terminals = count_by (λ e. e.terminal)

-- A record that no terminal event has reached.
pub record IsRunning {B X : Type 0} (d : QueryData B X) : Type 0 where
  pub quiet : terminals d.events ≡ 0
  pub unfinished : d.completed_at ≡ none

-- The loop: the record runs, an error stands only after an overflow, and the event that is kept for
-- the end is one that ends a query.
pub record IsCollecting {B X : Type 0} (c : Collecting B X) : Type 0 where
  pub runs : IsRunning c.details
  pub sound : c.overflow ≡ false → c.details.error ≡ none
  pub broken : c.overflow ≡ true → is_some c.details.error ≡ true
  pub kept : (e : QueryEvent) → c.terminal_event ≡ some e → is_ending e ≡ true

module _ {B X : Type 0} where
  pub push_event-IsRunning :
      (now : ℕ) (p : Payload) (d : QueryData B X)
      → IsRunning d
      → IsRunning (push_event now p false d)
  unfolding push_event enter_state
  push_event-IsRunning now (state_changed s) d v = record {
    quiet = omega (
      arith,
      count_by-append (λ (e : ServiceEvent). e.terminal) d.events
          (record { id = d.next_event_id; payload = state_changed s; terminal = false } ∷ []),
      v.quiet,
    );
    unfinished = v.unfinished;
  }
  push_event-IsRunning now p d v = record {
    quiet = omega (
      arith,
      count_by-append (λ (e : ServiceEvent). e.terminal) d.events
          (record { id = d.next_event_id; payload = p; terminal = false } ∷ []),
      v.quiet,
    );
    unfinished = v.unfinished;
  }

  pub push_event-error :
      (now : ℕ) (p : Payload) (terminal : Bool) (d : QueryData B X)
      → (push_event now p terminal d).error ≡ d.error
  unfolding push_event
  push_event-error now p terminal d = ground (arith, enter_state-keeps now p terminal d)

  record_event-keeps :
      (now : ℕ) (e : QueryEvent) (d : QueryData B X)
      → is_ending e ≡ false
      → IsRunning d
      → IsRunning (record_event now e d) × ((record_event now e d).error ≡ d.error)
  unfolding record_event is_ending
  record_event-keeps now (state_event s) d h v = (
    subst (λ t. IsRunning (push_event now (state_changed s) t d)) (sym h)
        (push_event-IsRunning now (state_changed s) d v),
    push_event-error now (state_changed s) (is_terminal s) d,
  )
  record_event-keeps now (engine_query_id id) d h v = (
    push_event-IsRunning now _ _ (record { quiet = v.quiet; unfinished = v.unfinished }),
    push_event-error now _ false _,
  )
  record_event-keeps now (rows_produced n) d h v =
      (push_event-IsRunning now _ d v, push_event-error now _ false d)
  record_event-keeps now (progress p) d h v =
      (push_event-IsRunning now _ d v, push_event-error now _ false d)
  record_event-keeps now (session_properties ps) d h v =
      (push_event-IsRunning now _ d v, push_event-error now _ false d)

module _ {B X : Type 0} where
  collect_event-IsCollecting :
      (now : ℕ) (e : QueryEvent) (c : Collecting B X)
      → IsCollecting c
      → IsCollecting (collect_event now e c)
  unfolding collect_event
  collect_event-IsCollecting now e c v = elim (Bool-cases (is_ending e)) [
    | inl ends ↦
        rw (ends, collect_event)
          (record {
            runs = v.runs;
            sound = v.sound;
            broken = v.broken;
            kept = λ e' h. let same : e ≡ e' = cc in subst (λ x. is_ending x ≡ true) same ends;
          })
    | inr goes ↦
        let (runs, same) = record_event-keeps now e c.details goes v.runs in
        rw (goes, collect_event)
          (record {
            runs = runs;
            sound = λ h. same ∙ v.sound h;
            broken = λ h. ap is_some same ∙ v.broken h;
            kept = v.kept;
          })
  ]

  cancel_record-IsCollecting :
      (now : ℕ) (c : Collecting B X) → IsCollecting c → IsCollecting (cancel_record now c)
  unfolding cancel_record
  cancel_record-IsCollecting now c v =
      let same = push_event-error now (state_changed cancelling) false c.details in
      record {
        runs = push_event-IsRunning now (state_changed cancelling) c.details v.runs;
        sound = λ h. same ∙ v.sound h;
        broken = λ h. ap is_some same ∙ v.broken h;
        kept = v.kept;
      }

module _ {B X : Type 0} (arrow : Arrow B X) where
  collect_batch-IsCollecting :
      (disk : Disk) (limits : ServiceLimits) (b : B) (c : Collecting B X)
      → IsCollecting c
      → IsCollecting (collect_batch arrow disk limits b c)
  unfolding collect_batch
  collect_batch-IsCollecting disk limits b c v =
      go (store_batch arrow disk limits b c.details.retained).0 refl
    where
      go :
          (r : Result QueryError (Unit {0}))
          → (store_batch arrow disk limits b c.details.retained).0 ≡ r
          → IsCollecting (collect_batch arrow disk limits b c)
      go (ok _) e =
          rw (e, collect_batch)
            (record {
              runs = record { quiet = v.runs.quiet; unfinished = v.runs.unfinished };
              sound = v.sound;
              broken = v.broken;
              kept = v.kept;
            })
      go (err q) e =
          rw (e, collect_batch)
            (record {
              runs = record { quiet = v.runs.quiet; unfinished = v.runs.unfinished };
              sound = λ h. cc;
              broken = λ h. refl;
              kept = v.kept;
            })

  pub collect_items-IsCollecting :
      (limits : ServiceLimits) (items : List (ℕ × Item B)) (c : Collecting B X)
      → IsCollecting c
      → IsCollecting (collect_items arrow limits items c)
  unfolding collect_items collect_item
  collect_items-IsCollecting limits [] c v = v
  collect_items-IsCollecting limits ((now, event e) ∷ items) c v =
      collect_items-IsCollecting limits items _ (collect_event-IsCollecting now e c v)
  collect_items-IsCollecting limits ((now, batch disk b) ∷ items) c v =
      collect_items-IsCollecting limits items _ (collect_batch-IsCollecting disk limits b c v)
  collect_items-IsCollecting limits ((now, user_cancel) ∷ items) c v =
      collect_items-IsCollecting limits items _ (cancel_record-IsCollecting now c v)
