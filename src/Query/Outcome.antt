-- ===== src/Query/Outcome.antt =====
-- crates/qcli-core/src/lib.rs and crates/qcli-service/src/lib.rs: how a query that was submitted ends,
-- from the adapter to the record.
use conflux_query.Base.{
  if◌then◌else◌, Bool-cases, Option-cases, is_some, string_eq, ◌==◌, nat_eq, Result, ok, err,
  Result-cases, map_err, ℕ, String, ◌≡◌, refl, sym, ap, ◌∙◌, ◌↔◌, inl, inr, Bool, true, false,
  Option, none, some, List, [], ◌∷◌, ◌++◌, arith,
}
use conflux_query.Dict.{lookup}
use conflux_query.Driver.{
  QueryState, completed, failed, cancelled, QueryEvent, state_event, submitted, DriverError,
}
use conflux_query.Limits.{ServiceLimits}
use conflux_query.Session.{SessionSnapshot, driver}
use conflux_query.Results.{Arrow, Disk, store_batch}
use conflux_query.Record.{new_data, is_terminal}
use conflux_query.Record.Collect.{
  Item, event, batch, user_cancel, Collecting, start_collecting, collect_event, collect_batch,
  cancel_record, collect_item, collect_items, end_query, is_ending, is_cancelled,
}
use conflux_query.Record.Keeping.{AllStored, collect_items-AllStored}
use conflux_query.Record.Endings.{final_state, collect_query_outcome}
use conflux_query.Query.{
  request_of, handle_of, Execution, QueryService, QueryHandle, final_state_of, sent_events,
  executed, submit_with_parameters, finish,
}
use conflux_query.Query.Draining.{IsDrained, events_of, Drains, events_of-Drains}

-- The last of some events that ends a query, or else the one that is known.
abbrev last_ending : List QueryEvent → Option QueryEvent → Option QueryEvent
last_ending [] known = known
last_ending (e ∷ es) known = last_ending es (if is_ending e then some e else known)

last_ending-append :
    (es : List QueryEvent) (s : QueryState) (known : Option QueryEvent)
    → is_terminal s ≡ true
    → last_ending (es ++ (state_event s ∷ [])) known ≡ some (state_event s)
unfolding is_ending
last_ending-append [] s known h = ap (λ b. if b then some (state_event s) else known) h
last_ending-append (e ∷ es) s known h =
    last_ending-append es s (if is_ending e then some e else known) h

final_state_of-is_terminal :
    (r : Result DriverError (Unit {0})) → is_terminal (final_state_of r) ≡ true
unfolding final_state_of
final_state_of-is_terminal (ok _) = refl
final_state_of-is_terminal (err e) = elim (Bool-cases (e.code == "cancelled")) [
  | inl told ↦ ap (λ b. is_terminal (if b then cancelled else failed)) told
  | inr other ↦ ap (λ b. is_terminal (if b then cancelled else failed)) other
]

final_state-driver :
    (r : Result DriverError (Unit {0})) → final_state_of r ≡ final_state (map_err driver r)
unfolding final_state_of final_state is_cancelled
final_state-driver (ok _) = refl
final_state-driver (err e) = refl

module _ {B X : Type 0} (arrow : Arrow B X) (limits : ServiceLimits) where
  collect_batch-terminal_event :
      (disk : Disk) (b : B) (c : Collecting B X)
      → (collect_batch arrow disk limits b c).terminal_event ≡ c.terminal_event
  unfolding collect_batch
  collect_batch-terminal_event disk b c =
      elim (Result-cases (store_batch arrow disk limits b c.details.retained).0) [
        | inl (_, kept) ↦ ground (arith, kept)
        | inr (e, refused) ↦ ground (arith, refused)
      ]

  collect_event-terminal_event :
      (now : ℕ) (e : QueryEvent) (c : Collecting B X)
      → (collect_event now e c).terminal_event ≡ (if is_ending e then some e else c.terminal_event)
  unfolding collect_event
  collect_event-terminal_event now e c = elim (Bool-cases (is_ending e)) [
    | inl ends ↦ ground (arith, ends)
    | inr goes ↦ ground (arith, goes)
  ]

  collect_items-terminal_event :
      (items : List (ℕ × Item B)) (c : Collecting B X)
      → (collect_items arrow limits items c).terminal_event
        ≡ last_ending (events_of items) c.terminal_event
  unfolding collect_items collect_item cancel_record
  collect_items-terminal_event [] c = refl
  collect_items-terminal_event ((now, event e) ∷ items) c =
      collect_items-terminal_event items (collect_event now e c)
      ∙ ap (last_ending (events_of items)) (collect_event-terminal_event now e c)
  collect_items-terminal_event ((now, batch disk b) ∷ items) c =
      collect_items-terminal_event items (collect_batch arrow disk limits b c)
      ∙ ap (last_ending (events_of items)) (collect_batch-terminal_event disk b c)
  collect_items-terminal_event ((now, user_cancel) ∷ items) c =
      collect_items-terminal_event items (cancel_record now c)

module _ {B : Type 0} where
  -- The handle of a query that was submitted: what its task sends and answers.
  submit_with_parameters-ok :
      (s : SessionSnapshot) (sql : String) (parameters : Option (List B))
      (service service' : QueryService B) (h : QueryHandle B)
      → submit_with_parameters s sql parameters service ≡ (ok h, service')
      → (x : Execution B) × (h.channels.events ≡ sent_events x)
        × (h.channels.events_done ≡ false)
        × (h.channels.batches_done ≡ false)
        × (h.task ≡ x.outcome)
  unfolding submit_with_parameters
  submit_with_parameters-ok s sql parameters service service' h made =
      elim (Option-cases (lookup s.engine service.adapters)) [
        | inl missing ↦ absurd (ground (arith, made, missing))
        | inr (adapter, found) ↦
            let x = executed adapter (request_of service.next_id s sql) parameters in
            let e : h ≡ handle_of service.next_id s x = sym (ground (arith, made, found)) in
            (
              x,
              ap (λ (q : QueryHandle B). q.channels.events) e,
              ap (λ (q : QueryHandle B). q.channels.events_done) e,
              ap (λ (q : QueryHandle B). q.channels.batches_done) e,
              ap (λ (q : QueryHandle B). q.task) e,
            )
      ]

still_open : {A : Type 0} {b : Bool} {left : List A} → b ≡ false → IsDrained b left
still_open h done = absurd (ground (arith, done, h))

-- A query that was submitted, and whose items the collecting task has taken until there was no next
-- one, in whatever order the channels gave them and whenever the user cancelled, ends in `completed`
-- exactly if the adapter succeeded, `store_batch` took each batch in turn, and the file of the
-- results, if there is one, could be finished; one that ends in `completed` has no error, and one that
-- ends in `failed` has one.
pub submitted_query_outcome :
    {B X : Type 0} (arrow : Arrow B X) (limits : ServiceLimits) (s : SessionSnapshot) (sql : String)
    (parameters : Option (List B)) (service service' : QueryService B) (h : QueryHandle B)
    (items : List (ℕ × Item B)) (disk : Disk) (now : ℕ)
    → submit_with_parameters s sql parameters service ≡ (ok h, service')
    → Drains h.channels items
    → let c = collect_items arrow limits items (start_collecting (new_data {B = B} {X = X})) in
      let d = end_query disk now (finish h) c in
      ((d.state ≡ completed) ↔ (
        (finish h ≡ ok tt) × AllStored arrow limits items disk (new_data {B = B} {X = X}).retained))
      × (d.state ≡ completed → d.error ≡ none)
      × (d.state ≡ failed → is_some d.error ≡ true)
unfolding sent_events start_collecting
submitted_query_outcome {B = B} {X = X} arrow limits s sql parameters service service' h items disk
      now made drains =
    let (x, events, is_open, are_open, task) =
      submit_with_parameters-ok s sql parameters service service' h made in
    let all : events_of items ≡ sent_events x =
      events_of-Drains h.channels items (still_open is_open, still_open are_open) drains ∙ events in
    let told : (collect_items arrow limits items
          (start_collecting (new_data {B = B} {X = X}))).terminal_event
        ≡ some (state_event (final_state (finish h))) =
      collect_items-terminal_event arrow limits items (start_collecting (new_data {B = B} {X = X}))
      ∙ ap (λ es. last_ending es none) all
      ∙ last_ending-append (state_event submitted ∷ x.events) (final_state_of x.outcome) none
          (final_state_of-is_terminal x.outcome)
      ∙ ap (λ q. some (state_event q)) (ap final_state_of (sym task) ∙ final_state-driver h.task) in
    let (outcome, sound, broken) =
      collect_query_outcome arrow limits items disk now (finish h) told in
    let stored =
      collect_items-AllStored arrow limits items disk
        (start_collecting (new_data {B = B} {X = X})) in
    (
      (
        λ done. let (ran, fits) = outcome.0 done in (ran, (stored.0 fits).1),
        λ (ran, all). outcome.1 (ran, stored.1 (refl, all)),
      ),
      sound,
      broken,
    )
