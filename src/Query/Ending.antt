-- ===== src/Query/Ending.antt =====
-- crates/qcli-core/src/lib.rs: a client that takes one item after the other comes to the end.
use conflux_query.Base.{
  length, ℕ, zero, suc, ◌+◌, ◌<◌, ◌≡◌, refl, sym, ap, ◌∙◌, Bool, true, false, none, some, List, [],
  ◌∷◌, arith,
}
use conflux_query.Driver.{QueryEvent}
use conflux_query.Query.{Channels, QueryItem, event_item, batch_item, Received, next_item}
use conflux_query.Query.Draining.{IsSound, Takes, next_item-Takes}

module _ {B : Type 0} where
  -- The client's loop: what it got, and whether it was told that there is no more. `picks` says
  -- which channel each call takes from.
  abbrev onto : QueryItem B → List (QueryItem B) × Bool → List (QueryItem B) × Bool
  onto item (items, ended) = (item ∷ items, ended)

  abbrev go_on : Received B → (Channels B → List (QueryItem B) × Bool) → List (QueryItem B) × Bool
  go_on (none, d) next = ([], true)
  go_on (some item, d) next = onto item (next d)

  abbrev pub take_all :
      (calls : ℕ) → (picks : ℕ → ℕ → Bool) → Channels B → List (QueryItem B) × Bool
  take_all zero picks c = ([], false)
  take_all (suc n) picks c = go_on (next_item (picks n) c) (take_all n picks)

  abbrev pub events_in : List (QueryItem B) → List QueryEvent
  events_in [] = []
  events_in (event_item e ∷ items) = e ∷ events_in items
  events_in (batch_item b ∷ items) = events_in items

  abbrev pub batches_in : List (QueryItem B) → List B
  batches_in [] = []
  batches_in (event_item e ∷ items) = batches_in items
  batches_in (batch_item b ∷ items) = b ∷ batches_in items

  -- The client was told of the end, and has got these events and batches in their orders.
  abbrev pub HasAll : List QueryEvent → List B → List (QueryItem B) × Bool → Type 0
  HasAll es bs (items, ended) = (ended ≡ true) × (events_in items ≡ es) × (batches_in items ≡ bs)

  go_on-HasAll :
      (es : List QueryEvent) (bs : List B) (n : ℕ) (next : Channels B → List (QueryItem B) × Bool)
      (r : Received B)
      → ((d : Channels B)
          → IsSound d
          → length d.events + length d.batches < n
          → HasAll d.events d.batches (next d))
      → Takes es bs r
      → length es + length bs < suc n
      → HasAll es bs (go_on r next)
  go_on-HasAll es bs n next (none, d) rest (no_events, no_batches) fuel =
      (refl, sym no_events, sym no_batches)
  go_on-HasAll es bs n next (some (event_item e), d) rest (taken, same, sound) fuel =
      let (ended, events, batches) =
        rest d sound (omega (arith, fuel, ap length taken, ap length same)) in
      (ended, ap (λ l. e ∷ l) events ∙ sym taken, batches ∙ sym same)
  go_on-HasAll es bs n next (some (batch_item b), d) rest (same, taken, sound) fuel =
      let (ended, events, batches) =
        rest d sound (omega (arith, fuel, ap length taken, ap length same)) in
      (ended, events ∙ sym same, ap (λ l. b ∷ l) batches ∙ sym taken)

-- Whichever channel each call of `next_item` takes from, a client has every event and every batch
-- of a query in the order in which it was sent, and is told that there is no more, within one call
-- more than there were items to come. No channel is marked as done that has something left.
pub take_all_lem :
    {B : Type 0} (n : ℕ) (picks : ℕ → ℕ → Bool) (c : Channels B)
    → IsSound c
    → length c.events + length c.batches < n
    → HasAll c.events c.batches (take_all n picks c)
take_all_lem zero picks c sound fuel = absurd (omega (arith, fuel))
take_all_lem (suc n) picks c sound fuel =
    go_on-HasAll c.events c.batches n (take_all n picks) (next_item (picks n) c)
      (take_all_lem n picks) (next_item-Takes (picks n) c sound) fuel
