-- ===== src/ConfigFile/Examples.antt =====
-- crates/qcli-config/src/lib.rs: a configuration with two targets.

use conflux_query.Base.{
  if◌then◌else◌, string_eq, ◌==◌, nat_eq, eq_iff_eq, ok, ◌%◌, String, ◌≡◌, refl, true, false, none,
  some, [], ◌∷◌, arith,
}
use conflux_query.Dict.{lookup, insert, remove, extend}
use conflux_query.Dict.Laws.{or_else}
use conflux_query.Target.{ConfigValue, ResolvedTarget, Config}
use conflux_query.ConfigFile.{Properties, ParsedSections}
use conflux_query.ConfigFile.Substitution.{
  Environment, expand_environment, expand_from, resolve_variable,
}
use conflux_query.ConfigFile.Sections.{
  parse, parse_lines, some_sections, parse_text, parse_header, parse_property, add_property,
  strip_comment, strip_from, validate_section_name, validate_property_name, parse_value, unquote,
}
use conflux_query.Text.{
  strip_last, trim, trim_start, trim_end, split_once, split_last, lines, lines_from, all_chars,
  lowercase, contains_text, strip_prefix,
}
use conflux_query.ConfigFile.Resolve.{
  load, resolve, validate_properties, resolve_targets, resolve_target, engine_of, validate_property,
  validate_permissions, section_or_empty,
}
use conflux_query.ConfigFile.Names.{
  nearest, rows_from, first_row, next_row, validate_engine, validate_typed_value, valid_duration,
  parses_u64, is_secret, is_number, closest, edit_distance, allowed_properties, is_engine,
}
use conflux_query.ConfigFile.Inheritance.{validated, resolve_lem}
use conflux_query.ConfigFile.Secrets.{load_guards_secrets}

abbrev env : Environment
env name = if name == "HOST" then some "db" else none

abbrev two_targets : String
two_targets =
    "[default]\ndecimal_places = 3\n\n[trino]\nengine = Trino # an engine\nurl = https://${HOST}.test\ndecimal_places = 10\n[snow]\nengine = 'snowflake'\n"

abbrev raw_trino : Properties
raw_trino =
    ("engine", record { value = "Trino"; line = 5 })
    ∷ ("url", record { value = "https://${HOST}.test"; line = 6 })
    ∷ ("decimal_places", record { value = "10"; line = 7 })
    ∷ []

abbrev sections : ParsedSections
sections =
    ("default", ("decimal_places", record { value = "3"; line = 2 }) ∷ [])
    ∷ ("trino", raw_trino)
    ∷ ("snow", ("engine", record { value = "snowflake"; line = 9 }) ∷ [])
    ∷ []

abbrev places : String → ConfigValue
places n = record { value = n; secret = false }

abbrev url : ConfigValue
url = record { value = "https://db.test"; secret = true }

abbrev trino : ResolvedTarget
trino = record {
  name = "trino";
  engine = "trino";
  properties =
      ("decimal_places", places "10")
      ∷ ("engine", record { value = "Trino"; secret = false })
      ∷ ("url", url)
      ∷ [];
}

abbrev snow : ResolvedTarget
snow = record {
  name = "snow";
  engine = "snowflake";
  properties =
      ("decimal_places", places "3")
      ∷ ("engine", record { value = "snowflake"; secret = false })
      ∷ [];
}

abbrev config : Config
config = record {
  defaults = ("decimal_places", places "3") ∷ [];
  targets = ("snow", snow) ∷ ("trino", trino) ∷ [];
}

parses : parse two_targets ≡ ok sections
unfolding parse parse_lines some_sections parse_text parse_header parse_property add_property
    strip_comment strip_from validate_section_name validate_property_name parse_value unquote lookup
    insert strip_last trim trim_start trim_end split_once split_last lines lines_from all_chars
parses = refl

resolves : resolve env sections ≡ ok config
unfolding resolve validate_properties resolve_targets resolve_target engine_of validate_engine
    validate_property expand_environment expand_from resolve_variable validate_typed_value
    valid_duration parses_u64 is_secret lookup insert remove extend lowercase contains_text
    all_chars strip_prefix strip_last allowed_properties is_number
resolves = refl

loads : load env 384 two_targets ≡ ok config
unfolding load validate_permissions is_secret lowercase contains_text
loads = ground (arith, parses, resolves)

suggestion : closest "decimal_place" (allowed_properties (some "trino")) ≡ some "decimal_places"
unfolding closest allowed_properties nearest edit_distance rows_from first_row next_row
suggestion = refl

found : lookup "trino" config.targets ≡ some trino
unfolding lookup
found = refl

secret_url : lookup "url" trino.properties ≡ some url
unfolding lookup
secret_url = refl

trino_section : lookup "trino" sections ≡ some raw_trino
unfolding lookup
trino_section = refl

load_guards_secrets_example : 384 % 64 ≡ 0
load_guards_secrets_example =
    load_guards_secrets env 384 two_targets config "trino" "url" trino url loads found secret_url
      refl

resolve_lem_example :
    (t : ResolvedTarget) × (lookup "trino" config.targets ≡ some t)
    × (t.name ≡ "trino")
    × (is_engine t.engine ≡ true)
    × ((p : String)
        → lookup p t.properties
          ≡ or_else
              (validated env (some t.engine) p (lookup p raw_trino))
              (validated env none p (lookup p (section_or_empty (lookup "default" sections)))))
resolve_lem_example =
    resolve_lem env sections config "trino" raw_trino resolves
      (λ e. ground (arith, eq_iff_eq {A = String} "trino" "default")) trino_section
