-- ===== src/Auth/Keys/Accepted.antt =====
-- crates/qcli-auth/src/lib.rs: what an API key has that was accepted.
use conflux_query.Base.{
  Bool-cases, Option-cases, string_eq, nat_eq, ok, ℕ, String, ◌≡◌, refl, sym, ap, ◌∙◌, inl, inr,
  Bool, true, false, not, ◌||◌, Option, none, some, arith,
}
use conflux_query.Dict.{lookup}
use conflux_query.Gateway.{Principal}
use conflux_query.Auth.Keys.{
  PrincipalEntry, KeyEntry, ApiKeyAuthenticator, Hashing, parse_api_key, hash_of, has_expired,
  principal_of, admit, authenticate_immediate,
}

admit-ok :
    (auth : ApiKeyAuthenticator) (now : ℕ) (verified : Bool) (found : Option KeyEntry)
    (p : Principal)
    → admit auth now verified found ≡ ok p
    → (key : KeyEntry) × (policy : PrincipalEntry) × (found ≡ some key)
      × (verified ≡ true)
      × (key.enabled ≡ true)
      × (has_expired now key.expires_at ≡ false)
      × (lookup key.principal auth.principals ≡ some policy)
      × (p ≡ principal_of key.principal policy)
unfolding admit
admit-ok auth now verified none p h = absurd (ground (arith, h))
admit-ok auth now verified (some key) p h =
    elim (Bool-cases (not verified || not key.enabled || has_expired now key.expires_at)) [
      | inl refused ↦ absurd (ground (arith, h, refused))
      | inr live ↦ elim (Option-cases (lookup key.principal auth.principals)) [
        | inl missing ↦ absurd (ground (arith, h, live, missing))
        | inr (policy, there) ↦ (
          key,
          policy,
          refl,
          ground (arith, live),
          ground (arith, live),
          ground (arith, live),
          there,
          ground (arith, h, live, there),
        )
      ]
    ]

-- An API key is accepted only where its id has an entry that is enabled and has not expired, whose
-- hash verifies the key's secret, and whose principal has a policy. The answer is that principal
-- with that policy.
pub authenticate_immediate-ok :
    (lib : Hashing) (now : ℕ) (auth : ApiKeyAuthenticator) (bearer : String) (p : Principal)
    → authenticate_immediate lib now auth bearer ≡ ok p
    → (key_id secret : String) × (key : KeyEntry) × (policy : PrincipalEntry) × (parse_api_key
          bearer
        ≡ some (key_id, secret))
      × (lookup key_id auth.keys ≡ some key)
      × (lib.verify_password secret key.secret_hash ≡ true)
      × (key.enabled ≡ true)
      × (has_expired now key.expires_at ≡ false)
      × (lookup key.principal auth.principals ≡ some policy)
      × (p ≡ principal_of key.principal policy)
unfolding authenticate_immediate
authenticate_immediate-ok lib now auth bearer p h = elim (Option-cases (parse_api_key bearer)) [
  | inl malformed ↦ absurd (ground (arith, h, malformed))
  | inr ((key_id, secret), parsed) ↦
      let hash = hash_of auth (lookup key_id auth.keys) in
      elim (Bool-cases (lib.is_hash hash)) [
        | inr bad ↦ absurd (ground (arith, h, parsed, bad))
        | inl good ↦
            let (key, policy, found, verified, enabled, live, there, e) =
              admit-ok auth now (lib.verify_password secret hash) (lookup key_id auth.keys) p
                (ground (arith, h, parsed, good)) in
            (
              key_id,
              secret,
              key,
              policy,
              parsed,
              found,
              ap (λ k. lib.verify_password secret (hash_of auth k)) (sym found) ∙ verified,
              enabled,
              live,
              there,
              e,
            )
      ]
]
