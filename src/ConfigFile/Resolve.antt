-- ===== src/ConfigFile/Resolve.antt =====
-- crates/qcli-config/src/lib.rs: `validate_properties`, `resolve`, `validate_permissions` and `load`.
use conflux_query.Base.{
  if◌then◌else◌, is_some, string_eq, ◌==◌, nat_eq, Result, ok, err, ℕ, ◌%◌, String, Bool, false,
  not, ◌&&◌, ◌||◌, Option, none, some, List, [], ◌∷◌,
}
use conflux_query.Dict.{Dict, lookup, insert, remove, extend, keys}
use conflux_query.Text.{strip_prefix, lowercase, is_one_of}
use conflux_query.Target.{ConfigValue, ResolvedTarget, Config}
use conflux_query.ConfigFile.{
  ConfigError, empty_target, no_engine, no_targets, unknown_property, broad_permissions, at,
  whole_file, ParsedValue, Properties, ParsedSections,
}
use conflux_query.ConfigFile.Sections.{parse}
use conflux_query.ConfigFile.Substitution.{Environment, expand_environment}
use conflux_query.ConfigFile.Names.{
  allowed_properties, validate_engine, validate_typed_value, is_secret, closest,
}

abbrev pub is_known : Option String → String → Bool
is_known engine name =
    is_one_of name (allowed_properties engine) || is_some (strip_prefix "session." name)

-- The body of the loop of `validate_properties`.
unfoldable pub validate_property :
    Environment → Option String → String → ParsedValue → Result ConfigError ConfigValue
unfolding closest expand_environment validate_typed_value is_secret
validate_property env engine name parsed =
    if not (is_known engine name)
    then err (at parsed.line (unknown_property (closest name (allowed_properties engine))))
    else elim (expand_environment env parsed.line parsed.value) [
      | err e ↦ err e
      | ok value ↦ elim (validate_typed_value parsed.line name value) [
        | err e ↦ err e
        | ok valid ↦ ok (record { value = value; secret = is_secret name })
      ]
    ]

unfoldable pub validate_properties :
    Environment → Option String → Properties → Result ConfigError (Dict String ConfigValue)
unfolding validate_property
validate_properties env engine [] = ok []
validate_properties env engine ((name, parsed) ∷ rest) =
    elim (validate_property env engine name parsed) [
      | err e ↦ err e
      | ok value ↦ elim (validate_properties env engine rest) [
        | err e ↦ err e
        | ok values ↦ ok (insert name value values)
      ]
    ]

-- The engine of a target section, with its variables replaced and in lower case.
unfoldable pub engine_of : Environment → Properties → Result ConfigError String
unfolding validate_engine expand_environment
engine_of env properties = elim (lookup "engine" properties) [
  | none ↦ err (whole_file no_engine)
  | some value ↦ elim (expand_environment env value.line value.value) [
    | err e ↦ err e
    | ok engine ↦ elim (validate_engine value.line (lowercase engine)) [
      | err e ↦ err e
      | ok valid ↦ ok (lowercase engine)
    ]
  ]
]

abbrev pub some_properties : Properties → Result ConfigError (Unit {0})
some_properties [] = err (whole_file empty_target)
some_properties (p ∷ ps) = ok tt

-- The body of the loop of `resolve`.
unfoldable pub resolve_target :
    Environment → Dict String ConfigValue → String → Properties → Result ConfigError ResolvedTarget
unfolding engine_of validate_properties
resolve_target env defaults name properties = elim (some_properties properties) [
  | err e ↦ err e
  | ok filled ↦ elim (engine_of env properties) [
    | err e ↦ err e
    | ok engine ↦ elim (validate_properties env (some engine) properties) [
      | err e ↦ err e
      | ok values ↦
          ok (record { name = name; engine = engine; properties = extend defaults values })
    ]
  ]
]

unfoldable pub resolve_targets :
    Environment
    → Dict String ConfigValue
    → ParsedSections
    → Result ConfigError (Dict String ResolvedTarget)
unfolding resolve_target
resolve_targets env defaults [] = ok []
resolve_targets env defaults ((name, properties) ∷ rest) =
    elim (resolve_target env defaults name properties) [
      | err e ↦ err e
      | ok t ↦ elim (resolve_targets env defaults rest) [
        | err e ↦ err e
        | ok targets ↦ ok (insert name t targets)
      ]
    ]

abbrev pub section_or_empty : Option Properties → Properties
section_or_empty none = []
section_or_empty (some properties) = properties

abbrev pub some_targets :
    Dict String ConfigValue → Dict String ResolvedTarget → Result ConfigError Config
some_targets defaults [] = err (whole_file no_targets)
some_targets defaults (t ∷ targets) = ok (record { defaults = defaults; targets = t ∷ targets })

unfoldable pub resolve : Environment → ParsedSections → Result ConfigError Config
unfolding validate_properties resolve_targets
resolve env parsed =
    elim (validate_properties env none (section_or_empty (lookup "default" parsed))) [
      | err e ↦ err e
      | ok defaults ↦ elim (resolve_targets env defaults (remove "default" parsed)) [
        | err e ↦ err e
        | ok targets ↦ some_targets defaults targets
      ]
    ]

abbrev pub any_secret : List String → Bool
any_secret [] = false
any_secret (name ∷ names) = is_secret name || any_secret names

abbrev pub contains_secrets : ParsedSections → Bool
contains_secrets [] = false
contains_secrets ((name, properties) ∷ rest) = any_secret (keys properties) || contains_secrets rest

-- On Unix: `mode & 0o077 != 0`, of a file whose mode can be read.
unfoldable pub validate_permissions : (mode : ℕ) → ParsedSections → Result ConfigError (Unit {0})
validate_permissions mode parsed =
    if contains_secrets parsed && not (mode % 64 == 0)
    then err (whole_file broad_permissions)
    else ok tt

-- `Config::load` of a file that can be read.
unfoldable pub load : Environment → (mode : ℕ) → (source : String) → Result ConfigError Config
unfolding parse validate_permissions resolve
load env mode source = elim (parse source) [
  | err e ↦ err e
  | ok parsed ↦ elim (validate_permissions mode parsed) [
    | err e ↦ err e
    | ok safe ↦ resolve env parsed
  ]
]

-- `Config::discover_targets`: the engines as they are written, none of them expanded.
unfoldable pub discover : ParsedSections → Result ConfigError (List (String × String))
unfolding validate_engine
discover [] = ok []
discover ((name, properties) ∷ rest) = elim (some_properties properties) [
  | err e ↦ err e
  | ok filled ↦ elim (lookup "engine" properties) [
    | none ↦ err (whole_file no_engine)
    | some value ↦ elim (validate_engine value.line (lowercase value.value)) [
      | err e ↦ err e
      | ok valid ↦ elim (discover rest) [
        | err e ↦ err e
        | ok found ↦ ok ((name, lowercase value.value) ∷ found)
      ]
    ]
  ]
]

abbrev pub some_found : List (String × String) → Result ConfigError (List (String × String))
some_found [] = err (whole_file no_targets)
some_found (t ∷ ts) = ok (t ∷ ts)

unfoldable pub discover_targets :
    (mode : ℕ) → (source : String) → Result ConfigError (List (String × String))
unfolding parse validate_permissions discover
discover_targets mode source = elim (parse source) [
  | err e ↦ err e
  | ok parsed ↦ elim (validate_permissions mode parsed) [
    | err e ↦ err e
    | ok safe ↦ elim (discover (remove "default" parsed)) [
      | err e ↦ err e
      | ok found ↦ some_found found
    ]
  ]
]
