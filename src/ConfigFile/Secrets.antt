-- ===== src/ConfigFile/Secrets.antt =====
-- crates/qcli-config/src/lib.rs: which files a configuration with secrets is read from.
use conflux_query.Base.{
  Bool-cases, Option-cases, string_eq, ◌==◌, nat_eq, eq_iff_eq, ok, Result-cases, ℕ, ◌%◌, String,
  ◌≡◌, sym, ap, ◌∙◌, ◌⊎◌, inl, inr, true, Option, none, some, [], ◌∷◌, arith,
}
use conflux_query.Dict.{Dict, lookup, insert, remove, keys}
use conflux_query.Dict.Laws.{or_else, lookup-insert, lookup-remove}
use conflux_query.Target.{ConfigValue, ResolvedTarget, Config}
use conflux_query.ConfigFile.{ParsedValue, Properties, ParsedSections}
use conflux_query.ConfigFile.Substitution.{Environment, expand_environment}
use conflux_query.ConfigFile.Names.{is_secret, validate_typed_value}
use conflux_query.ConfigFile.Sections.{parse}
use conflux_query.ConfigFile.Resolve.{
  validate_property, validate_properties, resolve_target, resolve_targets, section_or_empty,
  some_targets, resolve, is_known, any_secret, contains_secrets, validate_permissions, load,
}
use conflux_query.ConfigFile.Inheritance.{validated, lookup-validate_properties, resolve_target-ok}

validate_property-secret :
    (env : Environment) (engine : Option String) (p : String) (raw : ParsedValue) (v : ConfigValue)
    → validate_property env engine p raw ≡ ok v
    → v.secret ≡ is_secret p
unfolding validate_property
validate_property-secret env engine p raw v h = elim (Bool-cases (is_known engine p)) [
  | inr unknown ↦ absurd (ground (arith, h, unknown))
  | inl known ↦ elim (Result-cases (expand_environment env raw.line raw.value)) [
    | inr (e, bad) ↦ absurd (ground (arith, h, known, bad))
    | inl (text, good) ↦ elim (Result-cases (validate_typed_value raw.line p text)) [
      | inr (e, bad) ↦ absurd (ground (arith, h, known, good, bad))
      | inl (_, typed) ↦
          let e : v ≡ record { value = text; secret = is_secret p } =
            ground (arith, h, known, good, typed) in
          ap (λ (x : ConfigValue). x.secret) e
    ]
  ]
]

lookup-any_secret :
    (p : String) (raw : ParsedValue) (ps : Properties)
    → lookup p ps ≡ some raw
    → is_secret p ≡ true
    → any_secret (keys ps) ≡ true
unfolding lookup
lookup-any_secret p raw [] found s = cc
lookup-any_secret p raw ((n, x) ∷ ps) found s = elim (Bool-cases (n == p)) [
  | inl here ↦ ground (arith, s, ap is_secret ((eq_iff_eq n p).0 here))
  | inr there ↦ ground (arith, lookup-any_secret p raw ps (ground (arith, found, there)) s)
]

-- A secret property among the validated ones is a raw one with a secret name.
validated-any_secret :
    (env : Environment) (engine : Option String) (p : String) (v : ConfigValue) (ps : Properties)
    → validated env engine p (lookup p ps) ≡ some v
    → v.secret ≡ true
    → any_secret (keys ps) ≡ true
validated-any_secret env engine p v ps h s = elim (Option-cases (lookup p ps)) [
  | inl missing ↦ absurd (ground (arith, h, missing))
  | inr (raw, found) ↦ elim (Result-cases (validate_property env engine p raw)) [
    | inr (e, bad) ↦ absurd (ground (arith, h, found, bad))
    | inl (w, good) ↦
        lookup-any_secret p raw ps found
          (ground (arith, h, found, good, s, validate_property-secret env engine p raw w good))
  ]
]

lookup-contains_secrets :
    (name : String) (ps : Properties) (sections : ParsedSections)
    → lookup name sections ≡ some ps
    → any_secret (keys ps) ≡ true
    → contains_secrets sections ≡ true
unfolding lookup
lookup-contains_secrets name ps [] found s = cc
lookup-contains_secrets name ps ((n, qs) ∷ rest) found s = elim (Bool-cases (n == name)) [
  | inl here ↦
      let same : qs ≡ ps = ground (arith, found, here) in
      ground (arith, s, ap (λ (x : Properties). any_secret (keys x)) same)
  | inr there ↦
      ground (arith, lookup-contains_secrets name ps rest (ground (arith, found, there)) s)
]

section_or_empty-contains_secrets :
    (sections : ParsedSections)
    → any_secret (keys (section_or_empty (lookup "default" sections))) ≡ true
    → contains_secrets sections ≡ true
section_or_empty-contains_secrets sections s = elim (Option-cases (lookup "default" sections)) [
  | inl missing ↦ absurd (ground (arith, s, missing))
  | inr (ps, found) ↦ lookup-contains_secrets "default" ps sections found (ground (arith, s, found))
]

-- Every target comes from a section of its name.
lookup-resolve_targets :
    (env : Environment) (defaults : Dict String ConfigValue) (name : String)
    (sections : ParsedSections) (targets : Dict String ResolvedTarget) (t : ResolvedTarget)
    → resolve_targets env defaults sections ≡ ok targets
    → lookup name targets ≡ some t
    → (ps : Properties) × (lookup name sections ≡ some ps)
      × (resolve_target env defaults name ps ≡ ok t)
unfolding resolve_targets lookup
lookup-resolve_targets env defaults name [] targets t h found = absurd (ground (arith, h, found))
lookup-resolve_targets env defaults name ((n, ps) ∷ rest) targets t h found =
    elim (Result-cases (resolve_target env defaults n ps)) [
      | inr (e, bad) ↦ absurd (ground (arith, h, bad))
      | inl (made, good) ↦ elim (Result-cases (resolve_targets env defaults rest)) [
        | inr (e, bad) ↦ absurd (ground (arith, h, good, bad))
        | inl (ts, more) ↦
            let e : targets ≡ insert n made ts = ground (arith, h, good, more) in
            let seen : lookup name (insert n made ts) ≡ some t = sym (ap (lookup name) e) ∙ found in
            elim (Bool-cases (n == name)) [
              | inl here ↦
                  let same = (eq_iff_eq n name).0 here in
                  let mine : made ≡ t = ground (arith, seen, lookup-insert n name made ts, here) in
                  (
                    ps,
                    ground (arith, here),
                    ap (λ x. resolve_target env defaults x ps) (sym same)
                        ∙ good
                        ∙ ap (λ (x : ResolvedTarget). ok x) mine,
                  )
              | inr there ↦
                  let (ps', found', good') =
                    lookup-resolve_targets env defaults name rest ts t more
                      (ground (arith, seen, lookup-insert n name made ts, there)) in
                  (ps', ground (arith, there, found'), good')
            ]
      ]
    ]

or_else-cases {ℓ} :
    {A : Type ℓ} (m n : Option A) (a : A) → or_else m n ≡ some a → (m ≡ some a) ⊎ (n ≡ some a)
or_else-cases none n a h = inr h
or_else-cases (some b) n a h = inl h

some_targets-ok :
    (defaults : Dict String ConfigValue) (targets : Dict String ResolvedTarget) (config : Config)
    → some_targets defaults targets ≡ ok config
    → config.targets ≡ targets
some_targets-ok defaults [] config h = cc
some_targets-ok defaults (t ∷ ts) config h =
    let e : config ≡ record { defaults = defaults; targets = t ∷ ts } = cc in
    ap (λ (c : Config). c.targets) e

resolve-contains_secrets :
    (env : Environment) (parsed : ParsedSections) (config : Config) (name p : String)
    (t : ResolvedTarget) (v : ConfigValue)
    → resolve env parsed ≡ ok config
    → lookup name config.targets ≡ some t
    → lookup p t.properties ≡ some v
    → v.secret ≡ true
    → contains_secrets parsed ≡ true
unfolding resolve
resolve-contains_secrets env parsed config name p t v h found has s =
    let common = section_or_empty (lookup "default" parsed) in
    elim (Result-cases (validate_properties env none common)) [
      | inr (e, bad) ↦ absurd (ground (arith, h, bad))
      | inl (defaults, good) ↦
          elim (Result-cases (resolve_targets env defaults (remove "default" parsed))) [
            | inr (e, bad) ↦ absurd (ground (arith, h, good, bad))
            | inl (targets, all) ↦
                let told : some_targets defaults targets ≡ ok config =
                  ground (arith, h, good, all) in
                let there : lookup name targets ≡ some t =
                  ap (lookup name) (sym (some_targets-ok defaults targets config told)) ∙ found in
                let (ps, mine, made) =
                  lookup-resolve_targets env defaults name (remove "default" parsed) targets t all
                    there in
                let from : lookup p t.properties
                    ≡ or_else (validated env (some t.engine) p (lookup p ps)) (lookup p defaults) =
                  (resolve_target-ok env defaults name ps t made).2 p in
                elim (or_else-cases _ _ v (sym from ∙ has)) [
                  | inl own ↦
                      lookup-contains_secrets name ps parsed
                        (ground (arith, mine, lookup-remove "default" name parsed))
                        (validated-any_secret env (some t.engine) p v ps own s)
                  | inr shared ↦ section_or_empty-contains_secrets parsed (
                      validated-any_secret env none p v common
                        (sym (lookup-validate_properties env none p common defaults good) ∙ shared)
                        s)
                ]
          ]
    ]

-- Where a file was loaded and a property of one of the targets is secret, no bit of the file's mode
-- lets anyone but its owner read, write or run it.
pub load_guards_secrets :
    (env : Environment) (mode : ℕ) (source : String) (config : Config) (name p : String)
    (t : ResolvedTarget) (v : ConfigValue)
    → load env mode source ≡ ok config
    → lookup name config.targets ≡ some t
    → lookup p t.properties ≡ some v
    → v.secret ≡ true
    → mode % 64 ≡ 0
unfolding load validate_permissions
load_guards_secrets env mode source config name p t v h found has s =
    elim (Result-cases (parse source)) [
      | inr (e, bad) ↦ absurd (ground (arith, h, bad))
      | inl (parsed, good) ↦ elim (Result-cases (validate_permissions mode parsed)) [
        | inr (e, bad) ↦ absurd (ground (arith, h, good, bad))
        | inl (_, safe) ↦
            let resolved : resolve env parsed ≡ ok config = ground (arith, h, good, safe) in
            ground (
              arith,
              safe,
              resolve-contains_secrets env parsed config name p t v resolved found has s,
              eq_iff_eq (mode % 64) 0,
            )
      ]
    ]
