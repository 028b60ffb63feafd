-- ===== src/Query/Draining.antt =====
-- crates/qcli-core/src/lib.rs: what a client has got from a handle when `next_item` has nothing more.
use conflux_query.Base.{
  if◌then◌else◌, ℕ, zero, suc, ◌<◌, ◌≡◌, refl, sym, ap, ◌∙◌, subst, Bool, true, false, none, some,
  List, [], ◌∷◌, arith,
}
use conflux_query.Driver.{QueryEvent}
use conflux_query.Results.{Disk}
use conflux_query.Record.Collect.{Item, event, batch, user_cancel}
use conflux_query.Query.{channels, Channels, event_item, batch_item, Received, rounds, next_item}

-- The events among what the collecting task handles, in order.
abbrev pub events_of : {B : Type 0} → List (ℕ × Item B) → List QueryEvent
events_of [] = []
events_of ((now, event e) ∷ items) = e ∷ events_of items
events_of ((now, batch disk b) ∷ items) = events_of items
events_of ((now, user_cancel) ∷ items) = events_of items

-- The items that the collecting task handles: each is the next of the handle, whichever channel it
-- comes from, and the user may cancel between any two. It is done when there is no next one.
pub data Drains {B : Type 0} : Channels B → List (ℕ × Item B) → Type 0 where
  no_more : (pick : ℕ → Bool) (c d : Channels B) → next_item pick c ≡ (none, d) → Drains c []
  then_event :
      (pick : ℕ → Bool) (now : ℕ) (e : QueryEvent) (c d : Channels B) (items : List (ℕ × Item B))
      → next_item pick c ≡ (some (event_item e), d)
      → Drains d items
      → Drains c ((now, event e) ∷ items)
  then_batch :
      (pick : ℕ → Bool) (now : ℕ) (disk : Disk) (b : B) (c d : Channels B)
      (items : List (ℕ × Item B))
      → next_item pick c ≡ (some (batch_item b), d)
      → Drains d items
      → Drains c ((now, batch disk b) ∷ items)
  then_cancel :
      (now : ℕ) (c : Channels B) (items : List (ℕ × Item B))
      → Drains c items
      → Drains c ((now, user_cancel) ∷ items)

abbrev open_channels : Bool → Bool → ℕ
open_channels true true = 0
open_channels true false = 1
open_channels false true = 1
open_channels false false = 2

-- A channel is known to be done only when nothing is left on it.
abbrev pub IsDrained : {A : Type 0} → Bool → List A → Type 0
IsDrained finished left = finished ≡ true → left ≡ []

open_channels-le : (ed bd : Bool) → open_channels ed bd < 3
open_channels-le true true = omega arith
open_channels-le true false = omega arith
open_channels-le false true = omega arith
open_channels-le false false = omega arith

module _ {B : Type 0} where
  abbrev pub IsSound : Channels B → Type 0
  IsSound c = IsDrained c.events_done c.events × IsDrained c.batches_done c.batches

  -- What one call returns and leaves on the channels.
  abbrev pub Takes : List QueryEvent → List B → Received B → Type 0
  Takes es bs (some (event_item e), d) = (es ≡ e ∷ d.events) × (bs ≡ d.batches) × IsSound d
  Takes es bs (some (batch_item b), d) = (es ≡ d.events) × (bs ≡ b ∷ d.batches) × IsSound d
  Takes es bs (none, d) = (es ≡ []) × (bs ≡ [])

  Takes-if :
      (es : List QueryEvent) (bs : List B) (b : Bool) (x y : Received B)
      → Takes es bs x
      → Takes es bs y
      → Takes es bs (if b then x else y)
  Takes-if es bs true x y first second = first
  Takes-if es bs false x y first second = second

  rounds-Takes :
      (n : ℕ) (pick : ℕ → Bool) (ed bd : Bool) (es : List QueryEvent) (bs : List B)
      → open_channels ed bd < n
      → IsDrained ed es
      → IsDrained bd bs
      → Takes es bs (rounds n pick ed bd es bs)
  unfolding rounds
  rounds-Takes zero pick ed bd es bs fuel de db = absurd (omega (arith, fuel))
  rounds-Takes (suc n) pick true true es bs fuel de db = (de refl, db refl)
  rounds-Takes (suc n) pick false true [] bs fuel de db =
      rounds-Takes n pick true true [] bs (omega (arith, fuel)) (λ h. refl) db
  rounds-Takes (suc n) pick false true (e ∷ es) bs fuel de db = (refl, refl, ((λ h. cc), db))
  rounds-Takes (suc n) pick true false es [] fuel de db =
      rounds-Takes n pick true true es [] (omega (arith, fuel)) de (λ h. refl)
  rounds-Takes (suc n) pick true false es (b ∷ bs) fuel de db = (refl, refl, (de, λ h. cc))
  rounds-Takes (suc n) pick false false [] [] fuel de db =
      Takes-if [] [] (pick n) (rounds n pick true false [] []) (rounds n pick false true [] [])
        (rounds-Takes n pick true false [] [] (omega (arith, fuel)) (λ h. refl) db)
        (rounds-Takes n pick false true [] [] (omega (arith, fuel)) de (λ h. refl))
  rounds-Takes (suc n) pick false false [] (b ∷ bs) fuel de db =
      Takes-if [] (b ∷ bs) (pick n) (rounds n pick true false [] (b ∷ bs))
        (some (batch_item b), channels false false [] bs)
        (rounds-Takes n pick true false [] (b ∷ bs) (omega (arith, fuel)) (λ h. refl) db)
        (refl, refl, (de, λ h. cc))
  rounds-Takes (suc n) pick false false (e ∷ es) [] fuel de db =
      Takes-if (e ∷ es) [] (pick n) (some (event_item e), channels false false es [])
        (rounds n pick false true (e ∷ es) []) (refl, refl, ((λ h. cc), db))
        (rounds-Takes n pick false true (e ∷ es) [] (omega (arith, fuel)) de (λ h. refl))
  rounds-Takes (suc n) pick false false (e ∷ es) (b ∷ bs) fuel de db =
      Takes-if (e ∷ es) (b ∷ bs) (pick n) (some (event_item e), channels false false es (b ∷ bs))
        (some (batch_item b), channels false false (e ∷ es) bs) (refl, refl, ((λ h. cc), db))
        (refl, refl, (de, λ h. cc))

  pub next_item-Takes :
      (pick : ℕ → Bool) (c : Channels B) → IsSound c → Takes c.events c.batches (next_item pick c)
  unfolding next_item
  next_item-Takes pick c sound =
      rounds-Takes 3 pick c.events_done c.batches_done c.events c.batches
        (open_channels-le c.events_done c.batches_done) sound.0 sound.1

-- Whichever channel each call of `next_item` takes from, and whenever the user cancels, the events
-- that a client has got when there is no next item are all that were sent, in order.
pub events_of-Drains :
    {B : Type 0} (c : Channels B) (items : List (ℕ × Item B))
    → IsSound c
    → Drains c items
    → events_of items ≡ c.events
events_of-Drains c items sound (no_more pick _ d h) =
    sym (subst (Takes c.events c.batches) h (next_item-Takes pick c sound)).0
events_of-Drains c items sound (then_event pick now e _ d rest h more) =
    let (taken, _, sound') = subst (Takes c.events c.batches) h (next_item-Takes pick c sound) in
    ap (λ es. e ∷ es) (events_of-Drains d rest sound' more) ∙ sym taken
events_of-Drains c items sound (then_batch pick now disk b _ d rest h more) =
    let (taken, _, sound') = subst (Takes c.events c.batches) h (next_item-Takes pick c sound) in
    events_of-Drains d rest sound' more ∙ sym taken
events_of-Drains c items sound (then_cancel now _ rest more) = events_of-Drains c rest sound more
