-- ===== src/Record/Endings.antt =====
-- crates/qcli-service/src/lib.rs: how a query ends, whatever arrived before.
use conflux_query.Base.{
  if◌then◌else◌, Bool-cases, is_some, count_by-append, Result, ok, err, is_ok, ℕ, ◌≡◌, refl, sym,
  ◌∙◌, subst, ◌↔◌, inl, inr, Bool, true, false, ◌&&◌, Option, none, some, List, [], ◌∷◌, arith,
}
use conflux_query.Driver.{
  QueryState, completed, cancelled, failed, QueryEvent, state_event, engine_query_id, rows_produced,
  progress, session_properties,
}
use conflux_query.Limits.{ServiceLimits}
use conflux_query.Session.{CoreError}
use conflux_query.Results.{Arrow, Disk, QueryError, finish_results}
use conflux_query.Record.Collect.{
  Item, Collecting, start_collecting, collect_items, is_cancelled, or_event, close_storage,
  fail_query, conclude, end_query, conclude, is_ending,
}
use conflux_query.Record.{
  ServiceEvent, state_changed, QueryData, is_terminal, push_event, record_event, new_data,
  enter_state,
}
use conflux_query.Record.Running.{terminals, IsRunning, IsCollecting, collect_items-IsCollecting}

-- The state that the task of a query reports last.
unfoldable pub final_state : Result CoreError (Unit {0}) → QueryState
unfolding is_cancelled
final_state (ok _) = completed
final_state (err e) = if is_cancelled e then cancelled else failed

or_event-is_ending :
    (o : Option QueryEvent) (s : QueryState)
    → ((e : QueryEvent) → o ≡ some e → is_ending e ≡ true)
    → is_terminal s ≡ true
    → is_ending (or_event o s) ≡ true
unfolding is_ending
or_event-is_ending none s h k = k
or_event-is_ending (some e) s h k = h e refl

-- A query that has ended: once, at `now`, in a state that ends queries.
pub record IsEnded {B X : Type 0} (now : ℕ) (d : QueryData B X) : Type 0 where
  pub ended : is_terminal d.state ≡ true
  pub stamped : d.completed_at ≡ some now
  pub once : terminals d.events ≡ 1

module _ {B X : Type 0} where
  close_storage-IsCollecting :
      (disk : Disk) (c : Collecting B X) → IsCollecting c → IsCollecting (close_storage disk c)
  unfolding close_storage
  close_storage-IsCollecting disk c v = go (finish_results disk c.details.retained).0 refl
    where
      go :
          (r : Result QueryError (Unit {0}))
          → (finish_results disk c.details.retained).0 ≡ r
          → IsCollecting (close_storage disk c)
      go (ok _) e =
          rw (e, close_storage)
            (record {
              runs = record { quiet = v.runs.quiet; unfinished = v.runs.unfinished };
              sound = v.sound;
              broken = v.broken;
              kept = v.kept;
            })
      go (err q) e =
          rw (e, close_storage)
            (record {
              runs = record { quiet = v.runs.quiet; unfinished = v.runs.unfinished };
              sound = λ h. cc;
              broken = λ h. refl;
              kept = v.kept;
            })

  push_final :
      (now : ℕ) (s : QueryState) (d : QueryData B X)
      → IsRunning d
      → is_terminal s ≡ true
      → IsEnded now (push_event now (state_changed s) true d)
        × ((push_event now (state_changed s) true d).state ≡ s)
  unfolding push_event enter_state
  push_final now s d v h = (
    record {
      ended = h;
      stamped = refl;
      once = omega (
        arith,
        count_by-append (λ (e : ServiceEvent). e.terminal) d.events
            (record { id = d.next_event_id; payload = state_changed s; terminal = true } ∷ []),
        v.quiet,
      );
    },
    refl,
  )

  record_final :
      (now : ℕ) (e : QueryEvent) (d : QueryData B X)
      → IsRunning d
      → is_ending e ≡ true
      → IsEnded now (record_event now e d)
  unfolding record_event is_ending
  record_final now (state_event s) d v h =
      subst (λ t. IsEnded now (push_event now (state_changed s) t d)) (sym h)
        (push_final now s d v h).0
  record_final now (engine_query_id id) d v h = cc
  record_final now (rows_produced n) d v h = cc
  record_final now (progress p) d v h = cc
  record_final now (session_properties ps) d v h = cc

  fail_query-IsRunning : (d : QueryData B X) → IsRunning d → IsRunning (fail_query d)
  unfolding fail_query
  fail_query-IsRunning d v = ground arith

  conclude-IsEnded :
      (now : ℕ) (finish : Result CoreError (Unit {0})) (c : Collecting B X)
      → IsCollecting c
      → IsEnded now (conclude now finish c)
  unfolding conclude
  conclude-IsEnded now (ok _) c v = elim (Bool-cases c.overflow) [
    | inl over ↦ rw (over, conclude) (push_final now failed c.details v.runs refl).0
    | inr fits ↦
        rw (fits, conclude)
          (record_final now _ c.details v.runs
            (or_event-is_ending c.terminal_event completed v.kept refl))
  ]
  conclude-IsEnded now (err e) c v = elim (Bool-cases (is_cancelled e)) [
    | inl stopped ↦
        rw (stopped, conclude)
          (record_final now _ c.details v.runs
            (or_event-is_ending c.terminal_event cancelled v.kept refl))
    | inr broke ↦
        rw (broke, conclude)
          (push_final now failed (fail_query c.details) (fail_query-IsRunning c.details v.runs)
            refl).0
  ]

  conclude-state :
      (now : ℕ) (finish : Result CoreError (Unit {0})) (c : Collecting B X)
      → c.terminal_event ≡ some (state_event (final_state finish))
      → (conclude now finish c).state
        ≡ (if is_ok finish && c.overflow then failed else final_state finish)
  unfolding conclude final_state record_event push_event enter_state
  conclude-state now (ok _) c told = ground arith
  conclude-state now (err e) c told = ground arith

  conclude-error :
      (now : ℕ) (finish : Result CoreError (Unit {0})) (c : Collecting B X)
      → IsCollecting c
      → c.terminal_event ≡ some (state_event (final_state finish))
      → ((conclude now finish c).state ≡ completed → (conclude now finish c).error ≡ none)
        × ((conclude now finish c).state ≡ failed → is_some (conclude now finish c).error ≡ true)
  unfolding conclude final_state record_event push_event enter_state fail_query
  conclude-error now (ok _) c v told = ground (arith, v.sound, v.broken)
  conclude-error now (err e) c v told = ground (arith, v.sound, v.broken)

  close_storage-terminal_event :
      (disk : Disk) (c : Collecting B X) → (close_storage disk c).terminal_event ≡ c.terminal_event
  unfolding close_storage
  close_storage-terminal_event disk c = ground arith

  start_collecting-IsCollecting : IsCollecting (start_collecting (new_data {B = B} {X = X}))
  unfolding start_collecting new_data
  start_collecting-IsCollecting = record {
    runs = record { quiet = refl; unfinished = refl };
    sound = λ h. refl;
    broken = λ h. cc;
    kept = λ e h. cc;
  }

outcome_iff :
    (finish : Result CoreError (Unit {0})) (overflow : Bool) (s : QueryState)
    → s ≡ (if is_ok finish && overflow then failed else final_state finish)
    → (s ≡ completed) ↔ ((finish ≡ ok tt) × (overflow ≡ false))
unfolding final_state
outcome_iff (ok _) overflow s h = ground arith
outcome_iff (err e) overflow s h = ground arith

-- Whatever events and batches arrive, in whatever order, and whenever the user cancels: when the
-- task is done the query is in a state that ends queries, the time is noted, and exactly one
-- terminal event has been recorded.
pub collect_query_ends :
    {B X : Type 0} (arrow : Arrow B X) (limits : ServiceLimits) (items : List (ℕ × Item B))
    (disk : Disk) (now : ℕ) (finish : Result CoreError (Unit {0}))
    → IsEnded now
        (end_query disk now finish (collect_items arrow limits items (start_collecting new_data)))
unfolding end_query conclude
collect_query_ends arrow limits items disk now finish = conclude-IsEnded now finish _ (
    close_storage-IsCollecting disk _
      (collect_items-IsCollecting arrow limits items _ start_collecting-IsCollecting))

-- Where the task has reported its final state, the record ends in `completed` exactly if the adapter
-- succeeded and the loop noted no failure of the storage; a query with an error then is not
-- `completed`, and one that ends in `failed` has an error to show.
pub collect_query_outcome :
    {B X : Type 0} (arrow : Arrow B X) (limits : ServiceLimits) (items : List (ℕ × Item B))
    (disk : Disk) (now : ℕ) (finish : Result CoreError (Unit {0}))
    → let c = collect_items arrow limits items (start_collecting (new_data {B = B} {X = X})) in
      let d = end_query disk now finish c in
      c.terminal_event ≡ some (state_event (final_state finish))
      → ((d.state ≡ completed) ↔ ((finish ≡ ok tt) × ((close_storage disk c).overflow ≡ false)))
        × (d.state ≡ completed → d.error ≡ none)
        × (d.state ≡ failed → is_some d.error ≡ true)
unfolding end_query
collect_query_outcome {B} {X} arrow limits items disk now finish told =
    let c = collect_items arrow limits items (start_collecting (new_data {B = B} {X = X})) in
    let closed = close_storage disk c in
    let v =
      close_storage-IsCollecting disk c
        (collect_items-IsCollecting arrow limits items _ start_collecting-IsCollecting) in
    let told' = close_storage-terminal_event disk c ∙ told in
    let (sound, broken) = conclude-error now finish closed v told' in
    (outcome_iff finish closed.overflow _ (conclude-state now finish closed told'), sound, broken)
