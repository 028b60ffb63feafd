-- ===== src/ConfigFile.antt =====
-- crates/qcli-config/src/lib.rs: reading a configuration. An error has the line that the source gives
-- it, and the cause stands for its message; the path of the file is left out. The keys of the parsed
-- sections and properties are distinct, and their order is not modelled.
pub mod Sections
pub mod Substitution
pub mod Names
pub mod Resolve
pub mod Inheritance
pub mod Secrets
pub mod Examples
use conflux_query.Base.{ℕ, String, Option, none, some}
use conflux_query.Dict.{Dict}

pub data Cause : Type 0 where
  open_header empty_section_name invalid_section_name duplicate_section outside_section : Cause
  no_equals_sign invalid_property_name unterminated_quote duplicate_property no_sections : Cause
  unterminated_substitution invalid_variable unset_variable : Cause
  empty_target no_engine unsupported_engine no_targets : Cause
  unknown_property : (suggestion : Option String) → Cause
  not_boolean not_unsigned not_duration broad_permissions : Cause

pub record ConfigError : Type 0 where
  pub line : Option ℕ
  pub cause : Cause

-- `ConfigError::at` and `ConfigError::file`
abbrev pub at : ℕ → Cause → ConfigError
at line cause = record { line = some line; cause = cause }

abbrev pub whole_file : Cause → ConfigError
whole_file cause = record { line = none; cause = cause }

pub record ParsedValue : Type 0 where
  pub value : String
  pub line : ℕ

abbrev pub Properties : Type 0
Properties = Dict String ParsedValue

abbrev pub ParsedSections : Type 0
ParsedSections = Dict String Properties
