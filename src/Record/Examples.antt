-- ===== src/Record/Examples.antt =====
-- crates/qcli-service/src/lib.rs: a query that runs, is cancelled by its user and ends, and the
-- redaction of its session properties.
use conflux_query.Base.{string_eq, nat_eq, length, drop, ok, ℕ, ◌<◌, ◌≡◌, List, [], ◌∷◌, arith}
use conflux_query.Driver.{state_event, session_properties, rows_produced, running, completed}
use conflux_query.Limits.{default_limits}
use conflux_query.Results.Retention.{sound_disk}
use conflux_query.Results.Examples.{lists}
use conflux_query.Record.Collect.{
  Item, event, batch, user_cancel, Collecting, start_collecting, collect_items, end_query,
}
use conflux_query.Record.Events.{
  IsNumbered, new_data-IsNumbered, record_event-IsNumbered, events_after, events_after_lem,
}
use conflux_query.Record.Redacted.{AllSafe, events_hide_secrets}
use conflux_query.Record.Endings.{IsEnded, collect_query_ends}
use conflux_query.Record.{QueryData, new_data, record_event, push_event, enter_state}

abbrev items : List (ℕ × Item (List ℕ))
items =
    (1, event (state_event running))
    ∷ (2, batch sound_disk (7 ∷ 8 ∷ []))
    ∷ (3, user_cancel)
    ∷ (4, event (session_properties (("api_token", "x") ∷ [])))
    ∷ (5, event (state_event completed))
    ∷ []

collected : Collecting (List ℕ) (Unit {0})
collected = collect_items lists default_limits items (start_collecting new_data)

collect_query_ends_example : IsEnded 6 (
    end_query sound_disk 6
      (ok tt)
      (collect_items lists default_limits items (start_collecting new_data)))
collect_query_ends_example = collect_query_ends lists default_limits items sound_disk 6 (ok tt)

abbrev two_events : QueryData (List ℕ) (Unit {0})
two_events = record_event 2 (rows_produced 5) (record_event 1 (state_event running) new_data)

two_events-IsNumbered : IsNumbered two_events
two_events-IsNumbered =
    record_event-IsNumbered 2 (rows_produced 5) _
      (record_event-IsNumbered 1 (state_event running) _ new_data-IsNumbered)

two_only : length two_events.events < 18446744073709551616
unfolding record_event push_event enter_state new_data
two_only = omega arith

events_after_lem_example : events_after 1 two_events.events ≡ drop 1 two_events.events
events_after_lem_example = events_after_lem 1 two_events two_events-IsNumbered two_only

events_hide_secrets_example :
    AllSafe
      (end_query sound_disk 6
        (ok tt)
        (collect_items lists default_limits items (start_collecting new_data))).events
events_hide_secrets_example =
    (events_hide_secrets lists default_limits items sound_disk 6 (ok tt)).0
