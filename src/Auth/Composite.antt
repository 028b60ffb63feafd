-- ===== src/Auth/Composite.antt =====
-- crates/qcli-auth/src/lib.rs: `CompositeAuthenticator`. A provider may change its own state; the
-- state here is that of all of them.
use conflux_query.Base.{
  Result, ok, err, String, ◌≡◌, refl, ap, ◌≢◌, ◌⊎◌, inl, inr, List, [], ◌∷◌, ◌++◌,
}
use conflux_query.Gateway.{Principal}
use conflux_query.Auth.{AuthenticationErrorKind, missing, invalid, configuration}

module _ {ℓ} (S : Type ℓ) where
  abbrev pub Provider : Type ℓ
  Provider = String → S → Result AuthenticationErrorKind Principal × S

  abbrev unless_invalid :
      Result AuthenticationErrorKind Principal × S
      → (S → Result AuthenticationErrorKind Principal × S)
      → Result AuthenticationErrorKind Principal × S
  unless_invalid (ok p, s) next = (ok p, s)
  unless_invalid (err missing, s) next = (err missing, s)
  unless_invalid (err configuration, s) next = (err configuration, s)
  unless_invalid (err invalid, s) next = next s

  unfoldable pub authenticate_immediate : List Provider → Provider
  authenticate_immediate [] bearer s = (err invalid, s)
  authenticate_immediate (provider ∷ providers) bearer s =
      unless_invalid (provider bearer s) (authenticate_immediate providers bearer)

  -- Each of these providers, asked in turn, finds the credential invalid.
  abbrev pub Declined : String → List Provider → S → S → Type ℓ
  Declined bearer [] s u = s ≡ u
  Declined bearer (provider ∷ providers) s u =
      (t : S) × (provider bearer s ≡ (err invalid, t)) × Declined bearer providers t u

  -- One of the providers answers, and those before it decline.
  abbrev pub IsAnswered :
      String → List Provider → S → Result AuthenticationErrorKind Principal → S → Type ℓ
  IsAnswered bearer providers s r u =
      (before after : List Provider) × (provider : Provider) × (t : S) × (providers
        ≡ before ++ (provider ∷ after))
      × Declined bearer before s t
      × (provider bearer t ≡ (r, u))
      × (r ≢ err invalid)

  unless_invalid-cases :
      (bearer : String) (providers : List Provider) (u : S)
      (r : Result AuthenticationErrorKind Principal)
      (first : Result AuthenticationErrorKind Principal × S)
      → unless_invalid first (authenticate_immediate providers bearer) ≡ (r, u)
      → ((t : S) × (first ≡ (err invalid, t))
          × (authenticate_immediate providers bearer t ≡ (r, u)))
        ⊎ ((first ≡ (r, u)) × (r ≢ err invalid))
  unless_invalid-cases bearer providers u r (ok p, t) h = inr (h, λ e. cc)
  unless_invalid-cases bearer providers u r (err missing, t) h = inr (h, λ e. cc)
  unless_invalid-cases bearer providers u r (err configuration, t) h = inr (h, λ e. cc)
  unless_invalid-cases bearer providers u r (err invalid, t) h = inl (t, refl, h)

-- The composite answers as the first of its providers does that does not find the credential
-- invalid, be it a principal or another error, and asks none after it; where all find it invalid,
-- so does the composite.
pub composite_lem {ℓ} :
    (S : Type ℓ) (providers : List (Provider S)) (bearer : String) (s u : S)
    (r : Result AuthenticationErrorKind Principal)
    → authenticate_immediate S providers bearer s ≡ (r, u)
    → ((r ≡ err invalid) × Declined S bearer providers s u) ⊎ IsAnswered S bearer providers s r u
unfolding authenticate_immediate
composite_lem S [] bearer s u r h = inl (cc, cc)
composite_lem S (provider ∷ providers) bearer s u r h =
    elim (unless_invalid-cases S bearer providers u r (provider bearer s) h) [
      | inr (asked, other) ↦ inr ([], providers, provider, s, refl, refl, asked, other)
      | inl (t, declined, next) ↦ elim (composite_lem S providers bearer t u r next) [
        | inl (e, all) ↦ inl (e, (t, declined, all))
        | inr (before, after, answering, v, split, before_declined, asked, other) ↦ inr (
          provider ∷ before,
          after,
          answering,
          v,
          ap (λ ps. provider ∷ ps) split,
          (t, declined, before_declined),
          asked,
          other,
        )
      ]
    ]
