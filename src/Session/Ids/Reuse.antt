-- ===== src/Session/Ids/Reuse.antt =====
-- crates/qcli-core/src/lib.rs: when two session ids of one minute are the same.
use Prim.Native.Char.{code}
use text.Mathlib.TextLemmas.{append_cancel_left}
use conflux_query.Base.{
  string_eq, ◌==◌, nat_eq, eq_iff_eq, ℕ, zero, suc, ◌+◌, ◌-◌, ◌*◌, ◌%◌, ◌≤◌, ◌<◌, String, ◌≡◌, refl,
  sym, ap, ◌∙◌, ◌↔◌, Bool, true, ◌&&◌, arith, dec_lt,
}
use conflux_query.Session.Ids.{
  SessionIdState, next_counter, next_session_id, two_digits, safe_username,
}

-- The state after `n` further sessions of one minute.
unfoldable pub advance : ℕ → String → SessionIdState → SessionIdState
advance zero minute ids = ids
advance (suc n) minute ids = advance n minute (next_counter minute ids)

advance-suc :
    (n : ℕ) (minute : String) (ids : SessionIdState)
    → advance (suc n) minute ids ≡ next_counter minute (advance n minute ids)
unfolding advance
advance-suc zero minute ids = refl
advance-suc (suc n) minute ids = advance-suc n minute (next_counter minute ids)

-- The state of an id that was made at `minute`.
pub record Made (minute : String) (ids : SessionIdState) : Type 0 where
  pub at : ids.minute ≡ minute
  pub low : 1 ≤ ids.counter
  pub high : ids.counter ≤ 99

pub next_counter-Made :
    (minute : String) (ids : SessionIdState) → Made minute (next_counter minute ids)
unfolding next_counter
next_counter-Made minute ids = ground arith

next_counter-counter :
    (minute : String) (ids : SessionIdState)
    → Made minute ids
    → (next_counter minute ids).counter ≡ ids.counter % 99 + 1
unfolding next_counter
next_counter-counter minute ids h = ground (arith, eq_iff_eq ids.minute minute)

pub advance-counter :
    (n : ℕ) (minute : String) (ids : SessionIdState)
    → Made minute ids
    → (advance n minute ids).counter ≡ (ids.counter - 1 + n) % 99 + 1
unfolding advance
advance-counter zero minute ids h = omega arith
advance-counter (suc n) minute ids h = omega (
  arith,
  advance-counter n minute (next_counter minute ids) (next_counter-Made minute ids),
  next_counter-counter minute ids h,
  (next_counter-Made minute ids).low,
  (next_counter-Made minute ids).high,
)

read_digits : String → ℕ
read_digits (String.◌∷◌ c (String.◌∷◌ d String.[])) = (code c - 48) * 10 + (code d - 48)
read_digits s = 0

-- Whether every counter below `n` can be read back from its two digits.
read_back_below : ℕ → Bool
read_back_below zero = true
read_back_below (suc n) = (read_digits (two_digits n) == n) && read_back_below n

read-two_digits : (n a : ℕ) → read_back_below n ≡ true → a < n → read_digits (two_digits a) ≡ a
unfolding read_back_below
read-two_digits zero a table below = absurd (omega arith)
read-two_digits (suc n) a table below = elim (dec_lt a n) [
  | yes lower ↦ read-two_digits n a (ground (arith, table)) lower
  | no last ↦
      let e : a ≡ n = omega arith in
      let top = (eq_iff_eq (read_digits (two_digits n)) n).0 (ground (arith, table)) in
      ap (λ k. read_digits (two_digits k)) e ∙ top ∙ sym e
]

digits_table : read_back_below 100 ≡ true
unfolding read_back_below read_digits two_digits
digits_table = refl

pub two_digits_injective : (a b : ℕ) → a < 100 → b < 100 → two_digits a ≡ two_digits b → a ≡ b
two_digits_injective a b ha hb e =
    sym (read-two_digits 100 a digits_table ha)
    ∙ ap read_digits e
    ∙ read-two_digits 100 b digits_table hb

-- Two ids of one minute and user are the same exactly when their counters are.
pub same_id_iff :
    (minute username : String) (a b : SessionIdState)
    → (next_session_id minute username a).0 ≡ (next_session_id minute username b).0
      ↔ ((next_counter minute a).counter ≡ (next_counter minute b).counter)
unfolding next_session_id
same_id_iff minute username a b = (
  λ e.
      two_digits_injective _ _ (omega (arith, (next_counter-Made minute a).high))
        (omega (arith, (next_counter-Made minute b).high))
        (append_cancel_left "_" _ _ (
          append_cancel_left minute _ _
            (append_cancel_left "_" _ _ (append_cancel_left (safe_username username) _ _ e)))),
  λ e. rw e,
)

-- Within a minute the ids of one user are distinct for 99 sessions, and the hundredth has the id of
-- the first.
pub reuse_after_99 :
    (minute username : String) (ids : SessionIdState) (n : ℕ)
    → n < 99
    → (next_session_id minute username (advance n minute (next_counter minute ids))).0
        ≡ (next_session_id minute username ids).0
      ↔ (n ≡ 98)
reuse_after_99 minute username ids n h =
    let made = next_counter-Made minute ids in
    let later = advance-counter (suc n) minute (next_counter minute ids) made in
    let split = advance-suc n minute (next_counter minute ids) in
    let iff = same_id_iff minute username (advance n minute (next_counter minute ids)) ids in
    (
      λ e. omega (
        arith,
        iff.0 e,
        ap (λ (s : SessionIdState). s.counter) split,
        later,
        made.low,
        made.high,
      ),
      λ e.
          iff.1 (
            omega
              (arith, ap (λ (s : SessionIdState). s.counter) split, later, made.low, made.high)),
    )
