-- ===== src/Auth/Oidc/Rotation.antt =====
-- crates/qcli-auth/src/lib.rs: the keys that are in use while their file changes.
use conflux_query.Base.{
  Bool-cases, Option-cases, string_eq, ◌==◌, nat_eq, eq_iff_eq, ok, state_of, String, ◌≡◌, refl,
  sym, ap, ◌∙◌, inl, inr, Bool, Option, none, some, List, [], ◌∷◌, arith,
}
use conflux_query.Auth.Oidc.{Library, JwksSnapshot, OidcAuthenticator, refresh}

module _ (lib : Library) where
  -- The keys in use are those that the text beside them spells.
  abbrev pub IsCurrent : OidcAuthenticator lib → Type 0
  IsCurrent auth = lib.parse_keys auth.jwks.source ≡ some auth.jwks.keys

  -- What the files of a row of refreshes leave in use: the last one that is a set of keys.
  abbrev pub snapshot_or : JwksSnapshot lib → String → Option lib.KeySet → JwksSnapshot lib
  snapshot_or old source none = old
  snapshot_or old source (some keys) = record { source = source; keys = keys }

  abbrev pub last_valid : List (Option String) → JwksSnapshot lib → JwksSnapshot lib
  last_valid [] old = old
  last_valid (none ∷ files) old = last_valid files old
  last_valid (some source ∷ files) old =
      last_valid files (snapshot_or old source (lib.parse_keys source))

  abbrev pub refreshes : List (Option String) → OidcAuthenticator lib → OidcAuthenticator lib
  refreshes [] auth = auth
  refreshes (file ∷ files) auth = refreshes files (state_of (refresh lib file) auth)

  pub refresh-ok :
      (file : Option String) (auth auth' : OidcAuthenticator lib) (changed : Bool)
      → IsCurrent auth
      → refresh lib file auth ≡ (ok changed, auth')
      → (source : String) × (keys : lib.KeySet) × (file ≡ some source)
        × (lib.parse_keys source ≡ some keys)
        × (auth' ≡ record auth { jwks = record { source = source; keys = keys } })
  unfolding refresh
  refresh-ok none auth auth' changed current h = absurd (ground (arith, h))
  refresh-ok (some source) auth auth' changed current h =
      elim (Bool-cases (auth.jwks.source == source)) [
        | inl same ↦
            let e = (eq_iff_eq auth.jwks.source source).0 same in
            let kept : auth ≡ auth' = ground (arith, h, same) in
            (
              source,
              auth.jwks.keys,
              refl,
              sym (ap lib.parse_keys e) ∙ current,
              sym kept
                  ∙ ap
                      (λ (s : String). record auth {
                        jwks = record { source = s; keys = auth.jwks.keys };
                      })
                      e,
            )
        | inr other ↦ elim (Option-cases (lib.parse_keys source)) [
          | inl malformed ↦ absurd (ground (arith, h, other, malformed))
          | inr (keys, parsed) ↦
              (source, keys, refl, parsed, sym (ground (arith, h, other, parsed)))
        ]
      ]

  refresh-jwks :
      (source : String) (auth : OidcAuthenticator lib)
      → IsCurrent auth
      → (state_of (refresh lib (some source)) auth).jwks
        ≡ snapshot_or auth.jwks source (lib.parse_keys source)
  unfolding refresh
  refresh-jwks source auth current = elim (Bool-cases (auth.jwks.source == source)) [
    | inl same ↦
        let e = (eq_iff_eq auth.jwks.source source).0 same in
        ground (
          arith,
          same,
          current,
          ap lib.parse_keys e,
          ap (λ (s : String). snapshot_or auth.jwks s (some auth.jwks.keys)) e,
        )
    | inr other ↦ ground (arith, other)
  ]

  snapshot_or-IsCurrent :
      (source : String) (auth : OidcAuthenticator lib)
      → IsCurrent auth
      → IsCurrent (state_of (refresh lib (some source)) auth)
  unfolding refresh
  snapshot_or-IsCurrent source auth current = elim (Option-cases (lib.parse_keys source)) [
    | inl malformed ↦ ground (arith, current, malformed)
    | inr (keys, parsed) ↦ ground (arith, current, parsed)
  ]

-- After any row of refreshes the keys in use are those of the last file that was a set of keys, with
-- its text; files that cannot be read or are no set of keys change nothing.
pub refreshes-jwks :
    (lib : Library) (files : List (Option String)) (auth : OidcAuthenticator lib)
    → IsCurrent lib auth
    → (refreshes lib files auth).jwks ≡ last_valid lib files auth.jwks
unfolding refresh
refreshes-jwks lib [] auth current = refl
refreshes-jwks lib (none ∷ files) auth current = refreshes-jwks lib files auth current
refreshes-jwks lib (some source ∷ files) auth current =
    refreshes-jwks lib files (state_of (refresh lib (some source)) auth)
      (snapshot_or-IsCurrent lib source auth current)
    ∙ ap (last_valid lib files) (refresh-jwks lib source auth current)
