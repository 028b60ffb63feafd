-- ===== src/Auth/Keys/Generated.antt =====
-- crates/qcli-auth/src/lib.rs: a generated key at the provider that has its hash.
use Prim.Native.Char.{Char, char, code}
use Prim.Native.String.{◌++◌}
use text.Mathlib.TextLemmas.{nil-append, cons-append}
use conflux_query.Base.{
  Bool-cases, Option-cases, string_eq, ◌==◌, nat_eq, Result, ok, Result-cases, ℕ, String, ◌≡◌, refl,
  sym, ap, ◌∙◌, inl, inr, true, false, not, ◌||◌, Option, some, [], ◌∷◌, arith,
}
use conflux_query.Dict.{Dict, lookup}
use conflux_query.Text.{is_empty, all_chars, has_char, split_once}
use conflux_query.Text.Laws.{split_once-append, strip_prefix-append}
use conflux_query.Auth.{AuthenticationErrorKind, validate_auth_permissions}
use conflux_query.Auth.Keys.{
  PrincipalEntry, KeyEntry, AuthFile, ApiKeyAuthenticator, Hashing, IsHashing, Draws, HasText,
  parse_api_key, is_id_char, raw_key, generate_api_key_material, check_keys, load, has_expired,
  principal_of, admit, authenticate_immediate,
}

is_id_char-underscore : (c : Char) → is_id_char c ≡ true → (code c == b'_') ≡ false
is_id_char-underscore c h = ground (arith, h)

no_underscore : (s : String) → all_chars is_id_char s ≡ true → has_char b'_' s ≡ false
unfolding all_chars has_char
no_underscore String.[] h = refl
no_underscore (String.◌∷◌ c s) h = ground (arith, h, is_id_char-underscore c, no_underscore s)

is_empty-append : (a b : String) → is_empty a ≡ false → is_empty (a ++ b) ≡ false
is_empty-append String.[] b h = cc
is_empty-append (String.◌∷◌ c a) b h = rw cons-append refl

abbrev underscore : Char
underscore = char 95 tt

underscore-append : (b : String) → "_" ++ b ≡ String.◌∷◌ underscore b
underscore-append b = rw (cons-append, nil-append) refl

-- A raw key comes apart into its id and its secret.
parse_api_key-raw_key :
    (key_id secret : String)
    → is_empty key_id ≡ false
    → is_empty secret ≡ false
    → has_char b'_' key_id ≡ false
    → parse_api_key (raw_key key_id secret) ≡ some (key_id, secret)
unfolding parse_api_key
parse_api_key-raw_key key_id secret named filled clean = ground (
  arith,
  strip_prefix-append "qcli_k1_" (key_id ++ ("_" ++ secret)),
  ap (λ s. split_once b'_' (key_id ++ s)) (underscore-append secret)
      ∙ split_once-append b'_' underscore key_id secret refl clean,
  named,
  filled,
)

-- What a generated key is made of.
generate_api_key_material-ok :
    (lib : Hashing) (draws : Draws) (key_id key hash : String)
    → generate_api_key_material lib draws key_id ≡ ok (key, hash)
    → (salt : String) × (is_empty key_id ≡ false)
      × (all_chars is_id_char key_id ≡ true)
      × (lib.hash_password (draws.first ++ draws.second) salt ≡ some hash)
      × (key ≡ raw_key key_id (draws.first ++ draws.second))
unfolding generate_api_key_material
generate_api_key_material-ok lib draws key_id key hash h =
    elim (Bool-cases (is_empty key_id || not (all_chars is_id_char key_id))) [
      | inl bad ↦ absurd (ground (arith, h, bad))
      | inr good ↦ elim (Option-cases (lib.encode_salt draws.salt)) [
        | inl no_salt ↦ absurd (ground (arith, h, good, no_salt))
        | inr (salt, salted) ↦
            elim (Option-cases (lib.hash_password (draws.first ++ draws.second) salt)) [
              | inl no_hash ↦ absurd (ground (arith, h, good, salted, no_hash))
              | inr (made, hashed) ↦
                  let e : (Path (Result AuthenticationErrorKind (String × String))
                      (ok (raw_key key_id (draws.first ++ draws.second), made)) (ok (key, hash))) =
                    ground (arith, h, good, salted, hashed) in
                  (salt, ground (arith, good), ground (arith, good), cc, cc)
            ]
      ]
    ]

-- A key that was generated comes apart into its id and its secret.
pub generate_api_key_material-parse_api_key :
    (lib : Hashing) (draws : Draws) (key_id key hash : String)
    → HasText draws
    → generate_api_key_material lib draws key_id ≡ ok (key, hash)
    → parse_api_key key ≡ some (key_id, draws.first ++ draws.second)
generate_api_key_material-parse_api_key lib draws key_id key hash text h =
    let (salt, named, clean, hashed, e) =
      generate_api_key_material-ok lib draws key_id key hash h in
    ap parse_api_key e
    ∙ parse_api_key-raw_key key_id (draws.first ++ draws.second) named
        (is_empty-append draws.first draws.second text) (no_underscore key_id clean)

check_keys-lookup :
    (lib : Hashing) (principals : Dict String PrincipalEntry) (keys : Dict String KeyEntry)
    (key_id : String) (key : KeyEntry)
    → check_keys lib principals keys ≡ ok tt
    → lookup key_id keys ≡ some key
    → (policy : PrincipalEntry) × (lookup key.principal principals ≡ some policy)
unfolding check_keys lookup
check_keys-lookup lib principals [] key_id key h found = cc
check_keys-lookup lib principals ((n, x) ∷ keys) key_id key h found =
    elim (Option-cases (lookup x.principal principals)) [
      | inl missing ↦ absurd (ground (arith, h, missing))
      | inr (policy, there) ↦ elim (Bool-cases (lib.is_hash x.secret_hash)) [
        | inr bad ↦ absurd (ground (arith, h, there, bad))
        | inl good ↦ elim (Bool-cases (n == key_id)) [
          | inr other ↦
              check_keys-lookup lib principals keys key_id key (ground (arith, h, there, good))
                (ground (arith, found, other))
          | inl here ↦
              let same : x ≡ key = ground (arith, found, here) in
              (policy, ap (λ (k : KeyEntry). lookup k.principal principals) (sym same) ∙ there)
        ]
      ]
    ]

-- The authenticator that was loaded has a policy for each of its keys.
load-lookup :
    (lib : Hashing) (draws : Draws) (decode : String → Option AuthFile) (mode : Option ℕ)
    (source : Option String) (auth : ApiKeyAuthenticator) (key_id : String) (key : KeyEntry)
    → load lib draws decode mode source ≡ ok auth
    → lookup key_id auth.keys ≡ some key
    → (policy : PrincipalEntry) × (lookup key.principal auth.principals ≡ some policy)
unfolding load
load-lookup lib draws decode mode source auth key_id key h found =
    elim (Result-cases (validate_auth_permissions mode)) [
      | inr (e, bad) ↦ absurd (ground (arith, h, bad))
      | inl (_, safe) ↦ elim (Option-cases source) [
        | inl unread ↦ absurd (ground (arith, h, safe, unread))
        | inr (text, read) ↦ elim (Option-cases (decode text)) [
          | inl malformed ↦ absurd (ground (arith, h, safe, read, malformed))
          | inr (file, decoded) ↦ elim (Result-cases (check_keys lib file.principals file.keys)) [
            | inr (e, bad) ↦ absurd (ground (arith, h, safe, read, decoded, bad))
            | inl (_, sound) ↦ elim (Result-cases (generate_api_key_material lib draws "dummy")) [
              | inr (e, bad) ↦ absurd (ground (arith, h, safe, read, decoded, sound, bad))
              | inl ((_, dummy), made) ↦
                  let e : auth ≡ record {
                    principals = file.principals;
                    keys = file.keys;
                    dummy_hash = dummy;
                  } =
                    ground (arith, h, safe, read, decoded, sound, made) in
                  let (policy, there) =
                    check_keys-lookup lib file.principals file.keys key_id key sound
                      (sym (ap (λ (a : ApiKeyAuthenticator). lookup key_id a.keys) e) ∙ found) in
                  (
                    policy,
                    ap (λ (a : ApiKeyAuthenticator). lookup key.principal a.principals) e ∙ there,
                  )
            ]
          ]
        ]
      ]
    ]

-- A key that was generated is accepted by every authenticator that was loaded with its hash under
-- its id, while the entry is enabled and has not expired: the answer is the entry's principal with
-- the limits and targets that the file gives it.
pub generated_key_is_accepted :
    (lib : Hashing) (draws draws' : Draws) (key_id key hash : String)
    (decode : String → Option AuthFile) (mode : Option ℕ) (source : Option String)
    (auth : ApiKeyAuthenticator) (entry : KeyEntry) (now : ℕ)
    → IsHashing lib
    → HasText draws
    → generate_api_key_material lib draws key_id ≡ ok (key, hash)
    → load lib draws' decode mode source ≡ ok auth
    → lookup key_id auth.keys ≡ some entry
    → entry.secret_hash ≡ hash
    → entry.enabled ≡ true
    → has_expired now entry.expires_at ≡ false
    → (policy : PrincipalEntry) × (lookup entry.principal auth.principals ≡ some policy)
      × (authenticate_immediate lib now auth key ≡ ok (principal_of entry.principal policy))
unfolding authenticate_immediate admit
generated_key_is_accepted lib draws draws' key_id key hash decode mode source auth entry now laws
      text made loaded found hashes enabled live =
    let secret = draws.first ++ draws.second in
    let (salt, named, clean, hashed, e) =
      generate_api_key_material-ok lib draws key_id key hash made in
    let (policy, there) =
      load-lookup lib draws' decode mode source auth key_id entry loaded found in
    let verified : lib.verify_password secret entry.secret_hash ≡ true =
      ap (lib.verify_password secret) hashes ∙ laws.verifies secret salt hash hashed in
    let readable : lib.is_hash entry.secret_hash ≡ true =
      ap lib.is_hash hashes ∙ laws.readable secret salt hash hashed in
    (
      policy,
      there,
      ground (
        arith,
        generate_api_key_material-parse_api_key lib draws key_id key hash text made,
        found,
        verified,
        readable,
        enabled,
        live,
        there,
      ),
    )
