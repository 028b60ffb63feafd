-- ===== src/Auth/Examples.antt =====
-- crates/qcli-auth/src/lib.rs: the providers with concrete libraries in the place of the crates.

use conflux_query.Base.{
  if◌then◌else◌, string_eq, ◌==◌, nat_eq, eq_iff_eq, Result, ok, err, ℕ, String, ◌≡◌, refl, ◌↔◌,
  ◌⊎◌, true, false, Option, none, some, List, [], ◌∷◌, arith,
}
use conflux_query.Dict.{lookup}
use conflux_query.Text.{is_empty, all_chars, split_once, strip_prefix}
use conflux_query.Gateway.{Principal, contains}
use conflux_query.Auth.{AuthenticationErrorKind, invalid, configuration, validate_auth_permissions}
use conflux_query.Auth.Keys.{
  PrincipalEntry, KeyEntry, AuthFile, ApiKeyAuthenticator, Hashing, IsHashing, Draws, parse_api_key,
  generate_api_key_material, check_keys, load, has_expired, principal_of, admit,
  authenticate_immediate,
}
use conflux_query.Auth.Keys.Accepted.{authenticate_immediate-ok}
use conflux_query.Auth.Keys.Generated.{generated_key_is_accepted}
use conflux_query.Auth.Oidc.Algorithms.{hs256}
use conflux_query.Auth.Oidc.Policies.{
  OidcPolicy, merge_policies, IsGranted, merge_policies-IsGranted,
}
use conflux_query.Auth.Oidc
use conflux_query.Auth.Oidc.{Library, OidcAuthenticator}
use conflux_query.Auth.Oidc.Rotation.{refreshes, refreshes-jwks}
use conflux_query.Auth.Composite
use conflux_query.Auth.Composite.{Provider, Declined, IsAnswered, composite_lem}

-- Each secret is its own hash.
abbrev plain_hashing : Hashing
plain_hashing = record {
  encode_salt = λ salt. some salt;
  hash_password = λ secret salt. some secret;
  is_hash = λ hash. true;
  verify_password = λ secret hash. secret == hash;
}

plain_hashing-IsHashing : IsHashing plain_hashing
plain_hashing-IsHashing = record {
  verifies = λ secret salt hash made. ground (arith, eq_iff_eq secret hash, made);
  readable = λ secret salt hash made. refl;
}

abbrev draws : Draws
draws = record { first = "0a"; second = "1b"; salt = "ab" }

abbrev analysts : PrincipalEntry
analysts = record { targets = "trino" ∷ []; max_sessions = 2; max_concurrent_queries = 3 }

abbrev entry : KeyEntry
entry = record {
  principal = "analysts";
  secret_hash = "0a1b";
  enabled = true;
  expires_at = some 1000;
}

abbrev auth_file : AuthFile
auth_file = record { principals = ("analysts", analysts) ∷ []; keys = ("a-1", entry) ∷ [] }

abbrev authenticator : ApiKeyAuthenticator
authenticator = record {
  principals = ("analysts", analysts) ∷ [];
  keys = ("a-1", entry) ∷ [];
  dummy_hash = "0a1b";
}

abbrev decode : String → Option AuthFile
decode text = if text == "[keys.a-1]" then some auth_file else none

generated : generate_api_key_material plain_hashing draws "a-1" ≡ ok ("qcli_k1_a-1_0a1b", "0a1b")
unfolding generate_api_key_material all_chars
generated = refl

keys_loaded : load plain_hashing draws decode (some 384) (some "[keys.a-1]") ≡ ok authenticator
unfolding load validate_auth_permissions check_keys generate_api_key_material all_chars lookup
keys_loaded = refl

entry_found : lookup "a-1" authenticator.keys ≡ some entry
unfolding lookup
entry_found = refl

key_accepted :
    authenticate_immediate plain_hashing 999 authenticator "qcli_k1_a-1_0a1b"
    ≡ ok (principal_of "analysts" analysts)
unfolding authenticate_immediate parse_api_key admit lookup strip_prefix split_once
key_accepted = refl

generated_key_is_accepted_example :
    (policy : PrincipalEntry) × (lookup "analysts" authenticator.principals ≡ some policy)
    × (authenticate_immediate plain_hashing 999 authenticator "qcli_k1_a-1_0a1b"
        ≡ ok (principal_of "analysts" policy))
generated_key_is_accepted_example =
    generated_key_is_accepted plain_hashing draws draws "a-1" "qcli_k1_a-1_0a1b" "0a1b" decode
      (some 384) (some "[keys.a-1]") authenticator entry 999 plain_hashing-IsHashing refl generated
      keys_loaded entry_found refl refl refl

authenticate_immediate-ok_example :
    (key_id secret : String) × (key : KeyEntry) × (policy : PrincipalEntry) × (parse_api_key
        "qcli_k1_a-1_0a1b"
      ≡ some (key_id, secret))
    × (lookup key_id authenticator.keys ≡ some key)
    × (plain_hashing.verify_password secret key.secret_hash ≡ true)
    × (key.enabled ≡ true)
    × (has_expired 999 key.expires_at ≡ false)
    × (lookup key.principal authenticator.principals ≡ some policy)
    × (principal_of "analysts" analysts ≡ principal_of key.principal policy)
authenticate_immediate-ok_example =
    authenticate_immediate-ok plain_hashing 999 authenticator "qcli_k1_a-1_0a1b"
      (principal_of "analysts" analysts) key_accepted

-- A set of keys is the id of its only key; a token is that id, and its claims are a text.
abbrev plain_tokens : Library
plain_tokens = record {
  KeySet = String;
  Jwk = String;
  Key = String;
  Value = String;
  parse_keys = λ text. if is_empty text then none else some text;
  find = λ keys kid. if keys == kid then some kid else none;
  from_jwk = λ jwk. some jwk;
  decode_header = λ token. some (record { alg = hs256; kid = some token });
  decode = λ token key validation. some "claims";
  get = λ claims name. if name == "sub" then some "alice" else some "analysts";
  as_str = λ value. some value;
  as_array = λ value. none;
}

abbrev policy : List String → ℕ → OidcPolicy
policy targets n = record { targets = targets; max_sessions = n; max_concurrent_queries = n }

abbrev oidc : String → OidcAuthenticator plain_tokens
oidc keys = record {
  issuer = "https://idp";
  audiences = "qcli" ∷ [];
  algorithms = hs256 ∷ [];
  groups_claim = "groups";
  clock_skew_seconds = 30;
  defaults = policy [] 1;
  group_policies = ("analysts", policy ("trino" ∷ "snow" ∷ []) 4) ∷ [];
  jwks = record { source = keys; keys = keys };
}

abbrev alice : Principal
alice = record {
  id = "https://idp#alice";
  allowed_targets = "snow" ∷ "trino" ∷ [];
  max_sessions = 4;
  max_concurrent_queries = 4;
}

abbrev second_file : Option String
second_file = some "second"

abbrev rotations : List (Option String)
rotations = some "second" ∷ none ∷ some "" ∷ []

refreshes-jwks_example :
    (refreshes plain_tokens rotations (oidc "first")).jwks ≡ (oidc "second").jwks
refreshes-jwks_example = refreshes-jwks plain_tokens rotations (oidc "first") refl

merge_policies-IsGranted_example :
    (contains "snow"
        (merge_policies (oidc "first").group_policies ("analysts" ∷ []) (policy [] 1)).targets
      ≡ true)
    ↔ IsGranted (oidc "first").group_policies ("analysts" ∷ []) (policy [] 1) "snow"
merge_policies-IsGranted_example =
    merge_policies-IsGranted (oidc "first").group_policies ("analysts" ∷ []) (policy [] 1) "snow"

abbrev never : Provider (Unit {0})
never bearer s = (err invalid, s)

abbrev broken : Provider (Unit {0})
broken bearer s = (err configuration, s)

abbrev always : Provider (Unit {0})
always bearer s = (ok alice, s)

abbrev refused : Result AuthenticationErrorKind Principal
refused = err configuration

first_answer :
    Composite.authenticate_immediate (Unit {0}) (never ∷ broken ∷ always ∷ []) "t" tt
    ≡ (err configuration, tt)
unfolding Composite.authenticate_immediate
first_answer = refl

composite_lem_example :
    ((refused ≡ err invalid) × Declined (Unit {0}) "t" (never ∷ broken ∷ always ∷ []) tt tt)
    ⊎ IsAnswered (Unit {0}) "t" (never ∷ broken ∷ always ∷ []) tt refused tt
composite_lem_example =
    composite_lem (Unit {0}) (never ∷ broken ∷ always ∷ []) "t" tt tt refused first_answer
