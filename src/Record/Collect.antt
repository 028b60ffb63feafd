-- ===== src/Record/Collect.antt =====
-- crates/qcli-service/src/lib.rs: `collect_query`, the task that drains a query. The items are what
-- `next_item` returns, in any interleaving of events and batches. `cancel` runs in other tasks, so
-- it may come between any two items.
use conflux_query.Base.{
  if◌then◌else◌, ◌==◌, nat_eq, string_eq, Result, ok, err, ℕ, String, Bool, true, false, Option,
  none, some, List, [], ◌∷◌,
}
use conflux_query.Dict.{Dict, extend}
use conflux_query.Driver.{
  QueryState, completed, cancelling, cancelled, failed, QueryEvent, state_event, session_properties,
}
use conflux_query.Limits.{ServiceLimits}
use conflux_query.Session.{CoreError, driver}
use conflux_query.Results.{Arrow, Disk, store_batch, finish_results}
use conflux_query.Record.{state_changed, QueryData, is_terminal, push_event, record_event}

pub data Item (B : Type 0) : Type 0 where
  event : QueryEvent → Item B
  batch : Disk → B → Item B
  user_cancel : Item B

-- The record of the query and the local variables of the loop.
pub record Collecting (B X : Type 0) : Type 0 where
  pub details : QueryData B X
  pub cancel : Bool
  pub overflow : Bool
  pub session_updates : Dict String String
  pub terminal_event : Option QueryEvent

module _ {B X : Type 0} where
  unfoldable pub start_collecting : QueryData B X → Collecting B X
  start_collecting d = record {
    details = d;
    cancel = false;
    overflow = false;
    session_updates = [];
    terminal_event = none;
  }

note_updates : QueryEvent → Dict String String → Dict String String
note_updates (session_properties ps) updates = extend updates ps
note_updates _ updates = updates

-- The states that end a query.
unfoldable pub is_ending : QueryEvent → Bool
is_ending (state_event s) = is_terminal s
is_ending _ = false

module _ {B X : Type 0} where
  unfoldable pub collect_event : ℕ → QueryEvent → Collecting B X → Collecting B X
  unfolding note_updates is_ending
  collect_event now e c =
      let noted = record c { session_updates = note_updates e c.session_updates } in
      if is_ending e
      then record noted { terminal_event = some e }
      else record noted { details = record_event now e c.details }

  -- `cancel`, as far as it concerns the record: the flag, and an event.
  unfoldable pub cancel_record : ℕ → Collecting B X → Collecting B X
  cancel_record now c = record c {
    cancel = true;
    details = push_event now (state_changed cancelling) false c.details;
  }

module _ {B X : Type 0} (arrow : Arrow B X) where
  unfoldable pub collect_batch : Disk → ServiceLimits → B → Collecting B X → Collecting B X
  collect_batch disk limits b c =
      let (result, retained) = store_batch arrow disk limits b c.details.retained in
      elim result [
        | ok _ ↦ record c { details = record c.details { retained = retained } }
        | err e ↦ record c {
          details = record c.details { retained = retained; error = some e };
          overflow = true;
          cancel = true;
        }
      ]

  unfoldable pub collect_item : ServiceLimits → ℕ → Item B → Collecting B X → Collecting B X
  unfolding collect_event collect_batch cancel_record
  collect_item limits now (event e) c = collect_event now e c
  collect_item limits now (batch disk b) c = collect_batch disk limits b c
  collect_item limits now user_cancel c = cancel_record now c

  -- The loop, each item with the time at which it is handled.
  unfoldable pub collect_items : ServiceLimits → List (ℕ × Item B) → Collecting B X → Collecting B X
  unfolding collect_item
  collect_items limits [] c = c
  collect_items limits ((now, item) ∷ items) c =
      collect_items limits items (collect_item limits now item c)

-- `matches!(&error, CoreError::Driver(driver) if driver.code == "cancelled")`
unfoldable pub is_cancelled : CoreError → Bool
is_cancelled (driver e) = e.code == "cancelled"
is_cancelled _ = false

abbrev pub or_event : Option QueryEvent → QueryState → QueryEvent
or_event none s = state_event s
or_event (some e) s = e

module _ {B X : Type 0} where
  -- `finish_results`, and its error.
  unfoldable pub close_storage : Disk → Collecting B X → Collecting B X
  close_storage disk c =
      let (result, retained) = finish_results disk c.details.retained in
      elim result [
        | ok _ ↦ record c { details = record c.details { retained = retained } }
        | err e ↦ record c {
          details = record c.details { retained = retained; error = some e };
          overflow = true;
        }
      ]

  -- The error of a driver stands unless there was one already.
  unfoldable pub fail_query : QueryData B X → QueryData B X
  fail_query d = elim d.error [
    | none ↦ record d { error = some (record { code = "query_failed" }) }
    | some e ↦ d
  ]

  -- The outcome, once the results are closed.
  unfoldable pub conclude : ℕ → Result CoreError (Unit {0}) → Collecting B X → QueryData B X
  unfolding fail_query is_cancelled
  conclude now (ok _) c =
      if c.overflow
      then push_event now (state_changed failed) true c.details
      else record_event now (or_event c.terminal_event completed) c.details
  conclude now (err error) c =
      if is_cancelled error
      then record_event now (or_event c.terminal_event cancelled) c.details
      else push_event now (state_changed failed) true (fail_query c.details)

  -- What follows `handle.finish()`, as far as it concerns the record.
  unfoldable pub end_query : Disk → ℕ → Result CoreError (Unit {0}) → Collecting B X → QueryData B X
  unfolding close_storage conclude
  end_query disk now finish c = conclude now finish (close_storage disk c)
