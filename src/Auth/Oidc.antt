-- ===== src/Auth/Oidc.antt =====
-- crates/qcli-auth/src/lib.rs: the provider for JSON web tokens.
pub mod Algorithms
pub mod Policies
pub mod Rotation
pub mod Tokens
use Prim.Native.String.{◌++◌}
use Algorithms.{Algorithm, parse_algorithms, has_algorithm}
use Policies.{OidcPolicy, set_of, merge_policies}
use conflux_query.Base.{
  if◌then◌else◌, string_eq, ◌==◌, nat_eq, Result, ok, err, ok_or, Exec, lift, ◌>>=◌, ℕ, String,
  Bool, true, false, not, ◌||◌, Option, none, some, List, [], ◌∷◌,
}
use conflux_query.Dict.{Dict}
use conflux_query.Text.{is_empty, trim}
use conflux_query.Gateway.{Principal}
use conflux_query.Auth.{AuthenticationErrorKind, invalid, configuration}

-- `Validation`, with what is set of it. The claims `exp` and `sub` are required.
pub record Validation : Type 0 where
  pub algorithm : Algorithm
  pub issuer : String
  pub audiences : List String
  pub leeway : ℕ

pub record Header : Type 0 where
  pub alg : Algorithm
  pub kid : Option String

-- What is used of the crates `jsonwebtoken` and `serde_json`: a set of keys and its reader, a
-- token's header and its claims, and the values that a claim can have.
pub record Library : Type 1 where
  pub KeySet : Type 0
  pub Jwk : Type 0
  pub Key : Type 0
  pub Value : Type 0
  pub parse_keys : String → Option KeySet
  pub find : KeySet → String → Option Jwk
  pub from_jwk : Jwk → Option Key
  pub decode_header : String → Option Header
  pub decode : String → Key → Validation → Option Value
  pub get : Value → String → Option Value
  pub as_str : Value → Option String
  pub as_array : Value → Option (List Value)

module _ (lib : Library) where
  pub record JwksSnapshot : Type 0 where
    pub source : String
    pub keys : lib.KeySet

  pub record OidcAuthenticator : Type 0 where
    pub issuer : String
    pub audiences : List String
    pub algorithms : List Algorithm
    pub groups_claim : String
    pub clock_skew_seconds : ℕ
    pub defaults : OidcPolicy
    pub group_policies : Dict String OidcPolicy
    pub jwks : JwksSnapshot

  -- The file of the keys is `none` where it cannot be read.
  unfoldable pub load_jwks : (file : Option String) → Result AuthenticationErrorKind JwksSnapshot
  load_jwks none = err configuration
  load_jwks (some source) = elim (lib.parse_keys source) [
    | none ↦ err configuration
    | some keys ↦ ok (record { source = source; keys = keys })
  ]

  unfoldable pub refresh :
      (file : Option String) → Exec OidcAuthenticator AuthenticationErrorKind Bool
  refresh none auth = (err configuration, auth)
  refresh (some source) auth =
      if auth.jwks.source == source then (ok false, auth) else elim (lib.parse_keys source) [
        | none ↦ (err configuration, auth)
        | some keys ↦ (ok true, record auth { jwks = record { source = source; keys = keys } })
      ]

  abbrev onto_names : Option String → List String → List String
  onto_names none names = names
  onto_names (some name) names = name ∷ names

  abbrev strings : List lib.Value → List String
  strings [] = []
  strings (value ∷ values) = onto_names (lib.as_str value) (strings values)

  -- A text is one name, a list gives those of its items that are texts, anything else none.
  unfoldable pub claim_strings : Option lib.Value → List String
  claim_strings none = []
  claim_strings (some value) = elim (lib.as_str value) [
    | some name ↦ name ∷ []
    | none ↦ elim (lib.as_array value) [ none ↦ [] | some values ↦ set_of (strings values) ]
  ]

  abbrev pub validation_of : OidcAuthenticator → Algorithm → Validation
  validation_of auth alg = record {
    algorithm = alg;
    issuer = auth.issuer;
    audiences = auth.audiences;
    leeway = auth.clock_skew_seconds;
  }

  -- The claims of a token whose header and key are in order.
  unfoldable pub verify :
      OidcAuthenticator → (bearer : String) → Result AuthenticationErrorKind lib.Value
  verify auth bearer = elim (lib.decode_header bearer) [
    | none ↦ err invalid
    | some header ↦
        if not (has_algorithm header.alg auth.algorithms) then err invalid else elim header.kid [
          | none ↦ err invalid
          | some kid ↦ elim (lib.find auth.jwks.keys kid) [
            | none ↦ err invalid
            | some jwk ↦ elim (lib.from_jwk jwk) [
              | none ↦ err invalid
              | some key ↦ ok_or (lib.decode bearer key (validation_of auth header.alg)) invalid
            ]
          ]
        ]
  ]

  abbrev text_claim : Option lib.Value → Option String
  text_claim none = none
  text_claim (some value) = lib.as_str value

  abbrev filled : Option String → Option String
  filled none = none
  filled (some s) = if is_empty s then none else some s

  abbrev pub is_no_target : List String → Bool
  is_no_target [] = true
  is_no_target (t ∷ ts) = false

  abbrev pub policy_of : OidcAuthenticator → lib.Value → OidcPolicy
  policy_of auth claims =
      merge_policies auth.group_policies (claim_strings (lib.get claims auth.groups_claim))
        auth.defaults

  abbrev pub subject_of : lib.Value → Option String
  subject_of claims = filled (text_claim (lib.get claims "sub"))

  -- The principal of the claims.
  unfoldable pub principal_of_claims :
      OidcAuthenticator → lib.Value → Result AuthenticationErrorKind Principal
  unfolding merge_policies claim_strings
  principal_of_claims auth claims =
      let policy = policy_of auth claims in
      elim (subject_of claims) [
        | none ↦ err invalid
        | some subject ↦
            if is_no_target policy.targets
            then err invalid
            else ok (record {
              id = auth.issuer ++ ("#" ++ subject);
              allowed_targets = policy.targets;
              max_sessions = policy.max_sessions;
              max_concurrent_queries = policy.max_concurrent_queries;
            })
      ]

  unfoldable pub checked_principal :
      OidcAuthenticator → (bearer : String) → Result AuthenticationErrorKind Principal
  unfolding verify principal_of_claims
  checked_principal auth bearer = elim (verify auth bearer) [
    | err e ↦ err e
    | ok claims ↦ principal_of_claims auth claims
  ]

  unfoldable pub authenticate_immediate :
      (file : Option String)
      → (bearer : String) → Exec OidcAuthenticator AuthenticationErrorKind Principal
  unfolding refresh checked_principal
  authenticate_immediate file bearer =
      refresh file >>= λ _. λ auth. lift (checked_principal auth bearer) auth

  -- The decoded configuration file; its defaults are filled in by the reader of the crate `toml`.
  pub record OidcFile : Type 0 where
    pub issuer : String
    pub audiences : List String
    pub algorithms : List String
    pub groups_claim : String
    pub clock_skew_seconds : ℕ
    pub defaults : OidcPolicy
    pub group_policies : Dict String OidcPolicy

  abbrev no_audience : List String → Bool
  no_audience [] = true
  no_audience (a ∷ more) = false

  unfoldable pub load :
      (decode : String → Option OidcFile)
      → (source jwks : Option String) → Result AuthenticationErrorKind OidcAuthenticator
  unfolding load_jwks parse_algorithms trim
  load decode source jwks = elim (ok_or source configuration) [
    | err e ↦ err e
    | ok text ↦ elim (ok_or (decode text) configuration) [
      | err e ↦ err e
      | ok file ↦
          if is_empty (trim file.issuer) || no_audience file.audiences
          then err configuration
          else elim (parse_algorithms file.algorithms) [
            | err e ↦ err e
            | ok algorithms ↦ elim (load_jwks jwks) [
              | err e ↦ err e
              | ok snapshot ↦ ok (record {
                issuer = file.issuer;
                audiences = file.audiences;
                algorithms = algorithms;
                groups_claim = file.groups_claim;
                clock_skew_seconds = file.clock_skew_seconds;
                defaults = file.defaults;
                group_policies = file.group_policies;
                jwks = snapshot;
              })
            ]
          ]
    ]
  ]
