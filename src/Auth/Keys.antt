-- ===== src/Auth/Keys.antt =====
-- crates/qcli-auth/src/lib.rs: opaque API keys, from their generation to their authentication.
pub mod Accepted
pub mod Generated
use Prim.Native.Char.{Char, code}
use Prim.Native.String.{◌++◌}
use conflux_query.Base.{
  leb, if◌then◌else◌, is_some, string_eq, ◌==◌, nat_eq, Result, ok, err, ok_or, ℕ, String, ◌≡◌,
  Bool, true, false, not, ◌&&◌, ◌||◌, Option, none, some, List, [], ◌∷◌,
}
use conflux_query.Dict.{Dict, lookup}
use conflux_query.Text.{is_alphanumeric, is_empty, all_chars, split_once, strip_prefix}
use conflux_query.Gateway.{Principal}
use conflux_query.Auth.{AuthenticationErrorKind, invalid, configuration, validate_auth_permissions}

pub record PrincipalEntry : Type 0 where
  pub targets : List String
  pub max_sessions : ℕ
  pub max_concurrent_queries : ℕ

-- `expires_at` in the unit of the clock.
pub record KeyEntry : Type 0 where
  pub principal : String
  pub secret_hash : String
  pub enabled : Bool
  pub expires_at : Option ℕ

pub record AuthFile : Type 0 where
  pub principals : Dict String PrincipalEntry
  pub keys : Dict String KeyEntry

pub record ApiKeyAuthenticator : Type 0 where
  pub principals : Dict String PrincipalEntry
  pub keys : Dict String KeyEntry
  pub dummy_hash : String

-- What is used of the crate `argon2`: `is_hash` is `PasswordHash::new(…).is_ok()`.
pub record Hashing : Type 0 where
  pub encode_salt : String → Option String
  pub hash_password : (secret salt : String) → Option String
  pub is_hash : String → Bool
  pub verify_password : (secret hash : String) → Bool

-- What the crate says of its hashes: it reads them, and they verify the password hashed.
pub record IsHashing (lib : Hashing) : Type 0 where
  pub verifies :
      (secret salt hash : String)
      → lib.hash_password secret salt ≡ some hash
      → lib.verify_password secret hash ≡ true
  pub readable :
      (secret salt hash : String)
      → lib.hash_password secret salt ≡ some hash
      → lib.is_hash hash ≡ true

-- Three new UUIDs: two in their simple form, and the bytes of one.
pub record Draws : Type 0 where
  pub first : String
  pub second : String
  pub salt : String

-- The simple form of a UUID has 32 characters.
abbrev pub HasText : Draws → Type 0
HasText draws = is_empty draws.first ≡ false

abbrev key_parts : String × String → Option (String × String)
key_parts (key_id, secret) =
    if not (is_empty key_id) && not (is_empty secret) then some (key_id, secret) else none

unfoldable pub parse_api_key : String → Option (String × String)
unfolding strip_prefix split_once
parse_api_key key = elim (strip_prefix "qcli_k1_" key) [
  | none ↦ none
  | some rest ↦ elim (split_once b'_' rest) [ none ↦ none | some parts ↦ key_parts parts ]
]

abbrev pub is_id_char : Char → Bool
is_id_char c = is_alphanumeric c || code c == b'-'

abbrev pub raw_key : (key_id secret : String) → String
raw_key key_id secret = "qcli_k1_" ++ (key_id ++ ("_" ++ secret))

unfoldable pub generate_api_key_material :
    Hashing → Draws → (key_id : String) → Result AuthenticationErrorKind (String × String)
unfolding all_chars
generate_api_key_material lib draws key_id =
    let secret = draws.first ++ draws.second in
    if is_empty key_id || not (all_chars is_id_char key_id)
    then err configuration
    else elim (lib.encode_salt draws.salt) [
      | none ↦ err configuration
      | some salt ↦ elim (lib.hash_password secret salt) [
        | none ↦ err configuration
        | some hash ↦ ok (raw_key key_id secret, hash)
      ]
    ]

-- The loop of `load` over the keys.
unfoldable pub check_keys :
    Hashing
    → Dict String PrincipalEntry
    → Dict String KeyEntry
    → Result AuthenticationErrorKind (Unit {0})
check_keys lib principals [] = ok tt
check_keys lib principals ((key_id, key) ∷ keys) =
    let rest = check_keys lib principals keys in
    if not (is_some (lookup key.principal principals))
    then err configuration
    else if not (lib.is_hash key.secret_hash)
    then err configuration
    else rest

-- The source is `none` where the file cannot be read; `decode` is the reader of the crate `toml`.
unfoldable pub load :
    Hashing
    → Draws
    → (decode : String → Option AuthFile) → (mode : Option ℕ) → (source : Option String)
    → Result AuthenticationErrorKind ApiKeyAuthenticator
unfolding validate_auth_permissions check_keys generate_api_key_material
load lib draws decode mode source = elim (validate_auth_permissions mode) [
  | err e ↦ err e
  | ok safe ↦ elim (ok_or source configuration) [
    | err e ↦ err e
    | ok text ↦ elim (ok_or (decode text) configuration) [
      | err e ↦ err e
      | ok file ↦ elim (check_keys lib file.principals file.keys) [
        | err e ↦ err e
        | ok sound ↦ elim (generate_api_key_material lib draws "dummy") [
          | err e ↦ err e
          | ok (_, dummy) ↦
              ok (record { principals = file.principals; keys = file.keys; dummy_hash = dummy })
        ]
      ]
    ]
  ]
]

abbrev pub hash_of : ApiKeyAuthenticator → Option KeyEntry → String
hash_of auth none = auth.dummy_hash
hash_of auth (some key) = key.secret_hash

-- `expires_at.is_some_and(|expiry| expiry <= now)`
abbrev pub has_expired : (now : ℕ) → Option ℕ → Bool
has_expired now none = false
has_expired now (some expiry) = leb expiry now

abbrev pub principal_of : String → PrincipalEntry → Principal
principal_of id policy = record {
  id = id;
  allowed_targets = policy.targets;
  max_sessions = policy.max_sessions;
  max_concurrent_queries = policy.max_concurrent_queries;
}

-- What `authenticate_immediate` does with the entry of the key, once its hash was verified or not.
unfoldable pub admit :
    ApiKeyAuthenticator
    → (now : ℕ) → (verified : Bool) → Option KeyEntry
    → Result AuthenticationErrorKind Principal
admit auth now verified none = err invalid
admit auth now verified (some key) =
    if not verified || not key.enabled || has_expired now key.expires_at
    then err invalid
    else elim (lookup key.principal auth.principals) [
      | none ↦ err invalid
      | some policy ↦ ok (principal_of key.principal policy)
    ]

unfoldable pub authenticate_immediate :
    Hashing
    → (now : ℕ) → ApiKeyAuthenticator
    → (bearer : String) → Result AuthenticationErrorKind Principal
unfolding parse_api_key admit
authenticate_immediate lib now auth bearer = elim (parse_api_key bearer) [
  | none ↦ err invalid
  | some (key_id, secret) ↦
      let key = lookup key_id auth.keys in
      let hash = hash_of auth key in
      if not (lib.is_hash hash)
      then err invalid
      else admit auth now (lib.verify_password secret hash) key
]
