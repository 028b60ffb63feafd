-- ===== src/Auth/Oidc/Tokens.antt =====
-- crates/qcli-auth/src/lib.rs: what a token has that was accepted.
use Prim.Native.String.{◌++◌}
use conflux_query.Base.{String, ◌≡◌, ◌≢◌, true, some, []}
use conflux_query.Gateway.{Principal}
use conflux_query.Auth.Oidc.Algorithms.{has_algorithm}
use conflux_query.Auth.Oidc.{
  Library, Header, OidcAuthenticator, validation_of, policy_of, subject_of,
}

module _ (lib : Library) where
  -- The token's header names an algorithm that is allowed and a key of the set, and with that key
  -- the token has these claims.
  abbrev pub IsVerified : OidcAuthenticator lib → lib.KeySet → String → lib.Value → Type 0
  IsVerified auth keys bearer claims =
      (header : Header) × (kid : String) × (jwk : lib.Jwk) × (key : lib.Key) × (lib.decode_header
          bearer
        ≡ some header)
      × (has_algorithm header.alg auth.algorithms ≡ true)
      × (header.kid ≡ some kid)
      × (lib.find keys kid ≡ some jwk)
      × (lib.from_jwk jwk ≡ some key)
      × (lib.decode bearer key (validation_of lib auth header.alg) ≡ some claims)

  -- The principal that claims stand for.
  abbrev pub IsPrincipal : OidcAuthenticator lib → lib.Value → Principal → Type 0
  IsPrincipal auth claims p =
      (subject : String) × (subject_of lib claims ≡ some subject)
      × (p.id ≡ auth.issuer ++ ("#" ++ subject))
      × (p.allowed_targets ≡ (policy_of lib auth claims).targets)
      × (p.max_sessions ≡ (policy_of lib auth claims).max_sessions)
      × (p.max_concurrent_queries ≡ (policy_of lib auth claims).max_concurrent_queries)
      × (p.allowed_targets ≢ [])
