-- ===== src/Record/Events.antt =====
-- crates/qcli-service/src/lib.rs: the events of a query, and `event_history`.
use conflux_query.Base.{
  ltb, length, drop, keep, length-append, drop_eq, drop-nil, ℕ, suc, ◌+◌, ◌-◌, ◌%◌, ◌≤◌, ◌<◌, ◌≡◌,
  refl, sym, ap, ◌∙◌, subst, Bool, true, false, List, [], ◌∷◌, ◌++◌, arith, dec_lt,
}
use conflux_query.Driver.{
  QueryEvent, state_event, engine_query_id, rows_produced, progress, session_properties,
}
use conflux_query.Record.{
  ServiceEvent, QueryData, Payload, state_changed, push_event, record_event, new_data, enter_state,
}

-- The body of `event_history`: the events after one that the client has seen.
unfoldable pub events_after : ℕ → List ServiceEvent → List ServiceEvent
events_after after events = keep (λ e. ltb after e.id) events

abbrev pub id_mod : ℕ
id_mod = 18446744073709551616

-- The ids go up by one from `n` on.
abbrev pub Numbered : ℕ → List ServiceEvent → Type 0
Numbered n [] = Unit
Numbered n (e ∷ events) = (e.id ≡ n % id_mod) × Numbered (n + 1) events

Numbered-append :
    (n : ℕ) (xs ys : List ServiceEvent)
    → Numbered n xs
    → Numbered (n + length xs) ys
    → Numbered n (xs ++ ys)
Numbered-append n [] ys h k = subst (λ m. Numbered m ys) (omega arith) k
Numbered-append n (x ∷ xs) ys h k =
    (h.0, Numbered-append (n + 1) xs ys h.1 (subst (λ m. Numbered m ys) (omega arith) k))

pub record IsNumbered {B X : Type 0} (d : QueryData B X) : Type 0 where
  pub numbered : Numbered 1 d.events
  pub next : d.next_event_id ≡ (1 + length d.events) % id_mod

module _ {B X : Type 0} where
  pub new_data-IsNumbered : IsNumbered (new_data {B = B} {X = X})
  unfolding new_data
  new_data-IsNumbered = record { numbered = tt; next = refl }

  pub enter_state-keeps :
      (now : ℕ) (p : Payload) (terminal : Bool) (d : QueryData B X)
      → ((enter_state now p terminal d).events ≡ d.events)
        × ((enter_state now p terminal d).next_event_id ≡ d.next_event_id)
        × ((enter_state now p terminal d).error ≡ d.error)
        × ((enter_state now p terminal d).retained ≡ d.retained)
  unfolding enter_state
  enter_state-keeps now (state_changed s) terminal d = (refl, refl, refl, refl)
  enter_state-keeps now _ terminal d = (refl, refl, refl, refl)

  pub push_event-events :
      (now : ℕ) (p : Payload) (terminal : Bool) (d : QueryData B X)
      → (push_event now p terminal d).events
        ≡ d.events ++ record { id = d.next_event_id; payload = p; terminal = terminal } ∷ []
  unfolding push_event
  push_event-events now p terminal d = ground (arith, enter_state-keeps now p terminal d)

  pub push_event-IsNumbered :
      (now : ℕ) (p : Payload) (terminal : Bool) (d : QueryData B X)
      → IsNumbered d
      → IsNumbered (push_event now p terminal d)
  unfolding push_event
  push_event-IsNumbered now p terminal d v =
      let (same, next, _, _) = enter_state-keeps now p terminal d in
      record {
        numbered =
            subst (Numbered 1) (sym (push_event-events now p terminal d))
              (Numbered-append 1 d.events _ v.numbered (v.next, tt));
        next = omega (
          arith,
          next,
          v.next,
          ap length (push_event-events now p terminal d),
          length-append {0} d.events
              (record { id = d.next_event_id; payload = p; terminal = terminal } ∷ []),
        );
      }

  -- Recording an event keeps the events of a query numbered from 1 on, and the next number right.
  pub record_event-IsNumbered :
      (now : ℕ) (e : QueryEvent) (d : QueryData B X)
      → IsNumbered d
      → IsNumbered (record_event now e d)
  unfolding record_event
  record_event-IsNumbered now (state_event s) d v = push_event-IsNumbered now _ _ d v
  record_event-IsNumbered now (engine_query_id id) d v =
      push_event-IsNumbered now _ _ _ (record { numbered = v.numbered; next = v.next })
  record_event-IsNumbered now (rows_produced n) d v = push_event-IsNumbered now _ _ d v
  record_event-IsNumbered now (progress p) d v = push_event-IsNumbered now _ _ d v
  record_event-IsNumbered now (session_properties ps) d v = push_event-IsNumbered now _ _ d v

keep-drop :
    (after n : ℕ) (xs : List ServiceEvent)
    → Numbered n xs
    → n + length xs ≤ id_mod
    → events_after after xs ≡ drop (after + 1 - n) xs
unfolding events_after
keep-drop after n [] h fits = sym (drop-nil (after + 1 - n))
keep-drop after n (x ∷ xs) (e, h) fits =
    let ih = keep-drop after (n + 1) xs h (omega arith) in
    elim (dec_lt after n) [
      | yes new ↦
          let seen : ltb after x.id ≡ true = ground arith in
          rw (seen, events_after)
            (ap (◌∷◌ x) (ih ∙ drop_eq (after + 1 - (n + 1)) 0 xs (omega arith))
              ∙ drop_eq 0 (after + 1 - n) (x ∷ xs) (omega arith))
      | no old ↦
          let seen : ltb after x.id ≡ false = ground arith in
          rw (seen, events_after)
            (ih ∙ drop_eq (suc (after + 1 - (n + 1))) (after + 1 - n) (x ∷ xs) (omega arith))
    ]

-- Where the events of a query are numbered as the code numbers them, and are fewer than 2 ^ 64, a
-- client that has seen the events up to some id gets exactly those that follow, in order.
pub events_after_lem :
    {B X : Type 0} (after : ℕ) (d : QueryData B X)
    → IsNumbered d
    → length d.events < id_mod
    → events_after after d.events ≡ drop after d.events
events_after_lem after d v few =
    keep-drop after 1 d.events v.numbered (omega arith)
    ∙ drop_eq (after + 1 - 1) after d.events (omega arith)
