-- ===== src/Query/Examples.antt =====
-- crates/qcli-core/src/lib.rs: a query with one event and one batch, drained and collected.
use conflux_query.Base.{
  is_some, string_eq, nat_eq, ok, ℕ, ◌≡◌, refl, ◌↔◌, Bool, true, false, none, List, [], ◌∷◌, arith,
}
use conflux_query.Dict.{lookup}
use conflux_query.Driver.{completed, failed, state_event, rows_produced, submitted}
use conflux_query.Limits.{default_limits}
use conflux_query.Session.{SessionSnapshot}
use conflux_query.Results.Retention.{sound_disk}
use conflux_query.Results.Examples.{lists}
use conflux_query.Record.{new_data}
use conflux_query.Record.Collect.{
  Item, event, batch, user_cancel, start_collecting, collect_items, end_query,
}
use conflux_query.Record.Keeping.{AllStored}
use conflux_query.Query.{
  Execution, QueryService, QueryHandle, handle_of, submit_with_parameters, finish, next_item,
  rounds, sent_events, final_state_of,
}
use conflux_query.Query.Draining.{IsSound, Drains, no_more, then_event, then_batch, then_cancel}
use conflux_query.Query.Ending.{HasAll, take_all, take_all_lem}
use conflux_query.Query.Outcome.{submitted_query_outcome}

abbrev execution : Execution (List ℕ)
execution = record { events = rows_produced 2 ∷ []; batches = (1 ∷ 2 ∷ []) ∷ []; outcome = ok tt }

abbrev service : QueryService (List ℕ)
service = record {
  next_id = 1;
  adapters =
      ("demo", record { execute = λ r. execution; execute_prepared = λ r parameters. execution })
      ∷ [];
}

abbrev demo_session : SessionSnapshot
demo_session = record {
  id = "s1";
  version = 1;
  target = "lake";
  engine = "demo";
  properties = [];
  overrides = [];
}

abbrev handle : QueryHandle (List ℕ)
handle = handle_of 1 demo_session execution

submitted_run :
    submit_with_parameters demo_session "select 1" none service
    ≡ (ok handle, record service { next_id = 2 })
unfolding submit_with_parameters lookup
submitted_run = refl

abbrev alternate : ℕ → Bool
alternate n = true

abbrev batches_first : ℕ → Bool
batches_first n = false

abbrev items : List (ℕ × Item (List ℕ))
items =
    (1, event (state_event submitted))
    ∷ (2, batch sound_disk (1 ∷ 2 ∷ []))
    ∷ (3, user_cancel)
    ∷ (4, event (rows_produced 2))
    ∷ (5, event (state_event completed))
    ∷ []

drained : Drains handle.channels items
unfolding next_item rounds sent_events final_state_of
drained = then_event alternate 1 _ _ _ _ refl (
    then_batch batches_first 2 _ _ _ _ _ refl (
      then_cancel 3 _ _ (
        then_event alternate 4 _ _ _ _ refl
          (then_event alternate 5 _ _ _ _ refl (no_more alternate _ _ refl)))))

submitted_query_outcome_example :
    let c = collect_items lists default_limits items (start_collecting new_data) in
    let d = end_query sound_disk 6 (finish handle) c in
    ((d.state ≡ completed) ↔ (
      (finish handle ≡ ok tt)
      × AllStored lists default_limits items sound_disk
          (new_data {B = List ℕ} {X = Unit {0}}).retained))
    × (d.state ≡ completed → d.error ≡ none)
    × (d.state ≡ failed → is_some d.error ≡ true)
submitted_query_outcome_example =
    submitted_query_outcome lists default_limits demo_session "select 1" none service
      (record service { next_id = 2 }) handle items sound_disk 6 submitted_run drained

handle-IsSound : IsSound handle.channels
handle-IsSound = ((λ done. cc), (λ done. cc))

take_all_lem_example :
    HasAll handle.channels.events handle.channels.batches
      (take_all 5 (λ n. batches_first) handle.channels)
unfolding sent_events
take_all_lem_example =
    take_all_lem 5 (λ n. batches_first) handle.channels handle-IsSound (omega arith)
