-- ===== src/Target.antt =====
-- crates/qcli-config/src/lib.rs: resolved targets, and the configuration as the gateway reads it.
use conflux_query.Base.{nat_eq, string_eq, String, Bool, Option}
use conflux_query.Dict.{Dict, lookup, map_values}

pub record ConfigValue : Type 0 where
  pub value : String
  pub secret : Bool

-- `ConfigValue::expose`
abbrev pub expose : ConfigValue → String
expose v = v.value

pub record ResolvedTarget : Type 0 where
  pub name : String
  pub engine : String
  pub properties : Dict String ConfigValue

pub record Config : Type 0 where
  pub defaults : Dict String ConfigValue
  pub targets : Dict String ResolvedTarget

-- `Config::target`
abbrev pub target : Config → String → Option ResolvedTarget
target c name = lookup name c.targets

-- The properties of a target with their values in clear, as they go to an adapter.
unfoldable pub exposed : ResolvedTarget → Dict String String
exposed t = map_values expose t.properties
