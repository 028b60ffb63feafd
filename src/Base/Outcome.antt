-- ===== src/Base/Outcome.antt =====
-- Rust's `Result`, and methods that change state and may fail: what was written before an error
-- stays written, so the state comes back beside the error too.
use mathlib.Core.Path.{◌≡◌, refl, ap}
use mathlib.Core.Logic.{◌⊎◌, inl, inr}
use mathlib.Core.Bool.{Bool, true, false}
use mathlib.Core.Option.{Option, none, some}

pub data Result {ℓ} (E A : Type ℓ) : Type ℓ where
  ok : A → Result E A
  err : E → Result E A

module _ {ℓ} {E A : Type ℓ} where
  -- `ok_or_else`
  abbrev pub ok_or : Option A → E → Result E A
  ok_or none e = err e
  ok_or (some a) e = ok a

  pub ok_or-ok : (o : Option A) (e : E) (a : A) → ok_or o e ≡ ok a → o ≡ some a
  ok_or-ok none e a h = cc
  ok_or-ok (some b) e a h = cc

  abbrev pub is_ok : Result E A → Bool
  is_ok (ok a) = true
  is_ok (err e) = false

  pub Result-cases : (r : Result E A) → ((a : A) × (r ≡ ok a)) ⊎ ((e : E) × (r ≡ err e))
  Result-cases (ok a) = inl (a, refl)
  Result-cases (err e) = inr (e, refl)

  -- `ok`
  abbrev pub to_option : Result E A → Option A
  to_option (ok a) = some a
  to_option (err e) = none

abbrev pub map_err {ℓ} : {E F A : Type ℓ} → (E → F) → Result E A → Result F A
map_err f (ok a) = ok a
map_err f (err e) = err (f e)

abbrev pub Exec {ℓ} : Type ℓ → Type ℓ → Type ℓ → Type ℓ
Exec S E A = S → Result E A × S

module _ {ℓ} {S E A : Type ℓ} where
  abbrev pub pure : A → Exec S E A
  pure a s = (ok a, s)

  abbrev pub raise : E → Exec S E A
  raise e s = (err e, s)

  abbrev pub lift : Result E A → Exec S E A
  lift r s = (r, s)

  abbrev pub gets : (S → A) → Exec S E A
  gets f s = (ok (f s), s)

  -- `.ok()` on a result that is dropped: the writes stay.
  abbrev pub state_of : Exec S E A → S → S
  state_of m s = (m s).1

abbrev pub modify {ℓ} : {S E : Type ℓ} → (S → S) → Exec S E (Unit {ℓ})
modify f s = (ok tt, f s)

abbrev pub guard {ℓ} : {S E : Type ℓ} → Bool → E → Exec S E (Unit {ℓ})
guard true e s = (ok tt, s)
guard false e s = (err e, s)

module _ {ℓ} {S E A B : Type ℓ} where
  abbrev continue : Result E A → (A → Exec S E B) → Exec S E B
  continue (ok a) f s = f a s
  continue (err e) f s = (err e, s)

  infixl 5 ◌>>=◌ ◌>>◌
  abbrev pub ◌>>=◌ : Exec S E A → (A → Exec S E B) → Exec S E B
  ◌>>=◌ m f s = let (r, s') = m s in continue r f s'

  abbrev pub ◌>>◌ : Exec S E A → Exec S E B → Exec S E B
  m >> n = m >>= λ _. n

  continue-ok :
      (p : Result E A × S) (f : A → Exec S E B) (b : B) (s' : S)
      → continue p.0 f p.1 ≡ (ok b, s')
      → (a : A) × (t : S) × (p ≡ (ok a, t)) × (f a t ≡ (ok b, s'))
  continue-ok (ok a, t) f b s' h = (a, t, refl, h)
  continue-ok (err e, t) f b s' h = cc

  -- Where a chain of steps succeeds, its first step does, and so does the rest from there.
  pub bind-ok :
      (m : Exec S E A) (f : A → Exec S E B) (s : S) (b : B) (s' : S)
      → (m >>= f) s ≡ (ok b, s')
      → (a : A) × (t : S) × (m s ≡ (ok a, t)) × (f a t ≡ (ok b, s'))
  bind-ok m f s b s' h = continue-ok (m s) f b s' h

  -- A step that fails ends the chain, and one that succeeds hands its result on.
  pub bind-err :
      (m : Exec S E A) (f : A → Exec S E B) (s s' : S) (e : E)
      → m s ≡ (err e, s')
      → (m >>= f) s ≡ (err e, s')
  bind-err m f s s' e h = ap (λ (p : Result E A × S). continue p.0 f p.1) h

  pub bind-step :
      (m : Exec S E A) (f : A → Exec S E B) (s s' : S) (a : A)
      → m s ≡ (ok a, s')
      → (m >>= f) s ≡ f a s'
  bind-step m f s s' a h = ap (λ (p : Result E A × S). continue p.0 f p.1) h

  continue-err :
      (p : Result E A × S) (f : A → Exec S E B) (e : E) (s' : S)
      → continue p.0 f p.1 ≡ (err e, s')
      → (p ≡ (err e, s')) ⊎ ((a : A) × (t : S) × (p ≡ (ok a, t)) × (f a t ≡ (err e, s')))
  continue-err (ok a, t) f e s' h = inr (a, t, refl, h)
  continue-err (err x, t) f e s' h = inl cc

  -- Where a chain of steps fails, its first step fails or the rest does.
  pub bind-failed :
      (m : Exec S E A) (f : A → Exec S E B) (s : S) (e : E) (s' : S)
      → (m >>= f) s ≡ (err e, s')
      → (m s ≡ (err e, s')) ⊎ ((a : A) × (t : S) × (m s ≡ (ok a, t)) × (f a t ≡ (err e, s')))
  bind-failed m f s e s' h = continue-err (m s) f e s' h
