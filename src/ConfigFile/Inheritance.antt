-- ===== src/ConfigFile/Inheritance.antt =====
-- crates/qcli-config/src/lib.rs: where the properties of a resolved target come from.
use conflux_query.Base.{
  Bool-cases, Option-cases, string_eq, ◌==◌, nat_eq, eq_iff_eq, eq-false_of_ne, ok, Result-cases,
  to_option, String, ◌≡◌, refl, sym, ap, ap₂, ◌∙◌, subst, ◌≢◌, inl, inr, true, Option, none, some,
  [], ◌∷◌, arith,
}
use conflux_query.Dict.{Dict, lookup, insert, remove, extend}
use conflux_query.Dict.Laws.{or_else, lookup-insert, lookup-remove, lookup-extend}
use conflux_query.Target.{ConfigValue, ResolvedTarget, Config}
use conflux_query.ConfigFile.{ParsedValue, Properties, ParsedSections}
use conflux_query.ConfigFile.Substitution.{Environment, expand_environment}
use conflux_query.ConfigFile.Names.{is_engine, validate_engine}
use conflux_query.ConfigFile.Resolve.{
  validate_property, validate_properties, engine_of, some_properties, resolve_target,
  resolve_targets, section_or_empty, some_targets, resolve,
}
use conflux_query.Text.{lowercase}

-- What a raw property becomes in a section of an engine, if it is one there.
abbrev pub validated :
    Environment → Option String → String → Option ParsedValue → Option ConfigValue
validated env engine name none = none
validated env engine name (some raw) = to_option (validate_property env engine name raw)

validate_properties-cons :
    (env : Environment) (engine : Option String) (name : String) (raw : ParsedValue)
    (rest : Properties) (vs : Dict String ConfigValue)
    → validate_properties env engine ((name, raw) ∷ rest) ≡ ok vs
    → (v : ConfigValue) × (ws : Dict String ConfigValue) × (validate_property env engine name raw
        ≡ ok v)
      × (validate_properties env engine rest ≡ ok ws)
      × (vs ≡ insert name v ws)
unfolding validate_properties
validate_properties-cons env engine name raw rest vs h =
    elim (Result-cases (validate_property env engine name raw)) [
      | inr (e, bad) ↦ absurd (ground (arith, h, bad))
      | inl (v, good) ↦ elim (Result-cases (validate_properties env engine rest)) [
        | inr (e, bad) ↦ absurd (ground (arith, h, good, bad))
        | inl (ws, more) ↦ (v, ws, good, more, ground (arith, h, good, more))
      ]
    ]

validate_properties-nil :
    (env : Environment) (engine : Option String) (p : String) (vs : Dict String ConfigValue)
    → validate_properties env engine [] ≡ ok vs
    → lookup p vs ≡ none
unfolding validate_properties lookup
validate_properties-nil env engine p [] h = refl
validate_properties-nil env engine p (v ∷ vs) h = cc

same_name :
    (env : Environment) (engine : Option String) (name p : String) (raw : ParsedValue)
    (v : ConfigValue)
    → validate_property env engine name raw ≡ ok v
    → name ≡ p
    → validate_property env engine p raw ≡ ok v
same_name env engine name p raw v h e = subst (λ n. validate_property env engine n raw ≡ ok v) e h

engine_of-is_engine :
    (env : Environment) (properties : Properties) (engine : String)
    → engine_of env properties ≡ ok engine
    → is_engine engine ≡ true
unfolding engine_of validate_engine
engine_of-is_engine env properties engine h = elim (Option-cases (lookup "engine" properties)) [
  | inl missing ↦ absurd (ground (arith, h, missing))
  | inr (v, found) ↦ elim (Result-cases (expand_environment env v.line v.value)) [
    | inr (e, bad) ↦ absurd (ground (arith, h, found, bad))
    | inl (text, good) ↦ elim (Bool-cases (is_engine (lowercase text))) [
      | inr unknown ↦ absurd (ground (arith, h, found, good, unknown))
      | inl known ↦
          let e : engine ≡ lowercase text = ground (arith, h, found, good, known) in
          ap is_engine e ∙ known
    ]
  ]
]

some_targets-targets :
    (defaults : Dict String ConfigValue) (targets : Dict String ResolvedTarget) (config : Config)
    (name : String) (t : ResolvedTarget)
    → some_targets defaults targets ≡ ok config
    → lookup name targets ≡ some t
    → lookup name config.targets ≡ some t
unfolding lookup
some_targets-targets defaults [] config name t h found = cc
some_targets-targets defaults (x ∷ targets) config name t h found =
    let e : config ≡ record { defaults = defaults; targets = x ∷ targets } = cc in
    ap (λ (c : Config). lookup name c.targets) e ∙ found

pub lookup-validate_properties :
    (env : Environment) (engine : Option String) (p : String) (ps : Properties)
    (vs : Dict String ConfigValue)
    → validate_properties env engine ps ≡ ok vs
    → lookup p vs ≡ validated env engine p (lookup p ps)
unfolding lookup
lookup-validate_properties env engine p [] vs h = validate_properties-nil env engine p vs h
lookup-validate_properties env engine p ((name, raw) ∷ rest) vs h =
    let (v, ws, good, more, e) = validate_properties-cons env engine name raw rest vs h in
    ground (
      arith,
      ap (lookup p) e,
      lookup-insert name p v ws,
      lookup-validate_properties env engine p rest ws more,
      good,
      eq_iff_eq name p,
      same_name env engine name p raw v good,
    )

module _ (env : Environment) (defaults : Dict String ConfigValue) where
  pub resolve_target-ok :
      (name : String) (properties : Properties) (t : ResolvedTarget)
      → resolve_target env defaults name properties ≡ ok t
      → (t.name ≡ name)
        × (is_engine t.engine ≡ true)
        × ((p : String)
            → lookup p t.properties
              ≡ or_else (validated env (some t.engine) p (lookup p properties)) (lookup p defaults))
  unfolding resolve_target
  resolve_target-ok name properties t h = elim (Result-cases (some_properties properties)) [
    | inr (e, bad) ↦ absurd (ground (arith, h, bad))
    | inl (_, filled) ↦ elim (Result-cases (engine_of env properties)) [
      | inr (e, bad) ↦ absurd (ground (arith, h, filled, bad))
      | inl (engine, known) ↦
          elim (Result-cases (validate_properties env (some engine) properties)) [
            | inr (e, bad) ↦ absurd (ground (arith, h, filled, known, bad))
            | inl (values, good) ↦
                let e : t
                    ≡ record { name = name; engine = engine; properties = extend defaults values } =
                  ground (arith, h, filled, known, good) in
                (
                  ap (λ (x : ResolvedTarget). x.name) e,
                  ap (λ (x : ResolvedTarget). is_engine x.engine) e
                      ∙ engine_of-is_engine env properties engine known,
                  λ p.
                      ap (λ (x : ResolvedTarget). lookup p x.properties) e
                      ∙ lookup-extend p defaults values
                      ∙ ap (λ o. or_else o (lookup p defaults))
                          (lookup-validate_properties env (some engine) p properties values good)
                      ∙ ap
                          (λ (x : ResolvedTarget).
                            or_else (validated env (some x.engine) p (lookup p properties))
                              (lookup p defaults))
                          (sym e),
                )
          ]
    ]
  ]

  resolve_targets-ok :
      (name : String) (sections : ParsedSections) (raw : Properties)
      (targets : Dict String ResolvedTarget)
      → resolve_targets env defaults sections ≡ ok targets
      → lookup name sections ≡ some raw
      → (t : ResolvedTarget) × (lookup name targets ≡ some t)
        × (resolve_target env defaults name raw ≡ ok t)
  unfolding resolve_targets lookup
  resolve_targets-ok name [] raw targets h found = cc
  resolve_targets-ok name ((n, ps) ∷ rest) raw targets h found =
      elim (Result-cases (resolve_target env defaults n ps)) [
        | inr (e, bad) ↦ absurd (ground (arith, h, bad))
        | inl (t, good) ↦ elim (Result-cases (resolve_targets env defaults rest)) [
          | inr (e, bad) ↦ absurd (ground (arith, h, good, bad))
          | inl (ts, more) ↦
              let e : targets ≡ insert n t ts = ground (arith, h, good, more) in
              elim (Bool-cases (n == name)) [
                | inl here ↦
                    let same = (eq_iff_eq n name).0 here in
                    let mine : ps ≡ raw = ground (arith, found, here) in
                    (
                      t,
                      ground (arith, ap (lookup name) e, lookup-insert n name t ts, here),
                      ap₂ (resolve_target env defaults) (sym same) (sym mine) ∙ good,
                    )
                | inr there ↦
                    let (t', found', good') =
                      resolve_targets-ok name rest raw ts more (ground (arith, found, there)) in
                    (
                      t',
                      ground (arith, ap (lookup name) e, lookup-insert n name t ts, there, found'),
                      good',
                    )
              ]
        ]
      ]

-- Where a configuration is resolved, each of its sections but `default` has become a target of that
-- name with a supported engine, and each property of the target is the one of its own section,
-- validated for the engine, or else the one of the `default` section.
pub resolve_lem :
    (env : Environment) (parsed : ParsedSections) (config : Config) (name : String)
    (raw : Properties)
    → resolve env parsed ≡ ok config
    → name ≢ "default"
    → lookup name parsed ≡ some raw
    → (t : ResolvedTarget) × (lookup name config.targets ≡ some t)
      × (t.name ≡ name)
      × (is_engine t.engine ≡ true)
      × ((p : String)
          → lookup p t.properties
            ≡ or_else
                (validated env (some t.engine) p (lookup p raw))
                (validated env none p (lookup p (section_or_empty (lookup "default" parsed)))))
unfolding resolve
resolve_lem env parsed config name raw h other found =
    let common = section_or_empty (lookup "default" parsed) in
    elim (Result-cases (validate_properties env none common)) [
      | inr (e, bad) ↦ absurd (ground (arith, h, bad))
      | inl (defaults, good) ↦
          elim (Result-cases (resolve_targets env defaults (remove "default" parsed))) [
            | inr (e, bad) ↦ absurd (ground (arith, h, good, bad))
            | inl (targets, all) ↦
                let told : some_targets defaults targets ≡ ok config =
                  ground (arith, h, good, all) in
                let kept : lookup name (remove "default" parsed) ≡ some raw = ground (
                  arith,
                  lookup-remove "default" name parsed,
                  found,
                  eq-false_of_ne "default" name (λ e. other (sym e)),
                ) in
                let (t, there, made) =
                  resolve_targets-ok env defaults name (remove "default" parsed) raw targets all
                    kept in
                let (named, engine, properties) = resolve_target-ok env defaults name raw t made in
                (
                  t,
                  some_targets-targets defaults targets config name t told there,
                  named,
                  engine,
                  λ p.
                      properties p
                      ∙ ap (or_else (validated env (some t.engine) p (lookup p raw)))
                          (lookup-validate_properties env none p common defaults good),
                )
          ]
    ]
