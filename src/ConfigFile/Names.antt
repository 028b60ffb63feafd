-- ===== src/ConfigFile/Names.antt =====
-- crates/qcli-config/src/lib.rs: the properties that there are, their types, which are secret, and
-- the suggestion for a name that there is not.
use Prim.Native.Char.{Char, code}
use Prim.Native.Nat.{Ordering}
use Prim.Native.String.{compare}
use conflux_query.Base.{
  ltb, leb, if◌then◌else◌, string_eq, ◌==◌, nat_eq, Result, ok, err, ℕ, ◌+◌, ◌-◌, ◌*◌, min, String,
  Bool, false, not, ◌&&◌, ◌||◌, Option, none, some, List, [], ◌∷◌, ◌++◌,
}
use conflux_query.Text.{
  is_digit, is_empty, all_chars, strip_last, lowercase, contains_text, is_one_of,
}
use conflux_query.ConfigFile.{
  ConfigError, unsupported_engine, not_boolean, not_unsigned, not_duration, at,
}

abbrev engines : List String
engines = "trino" ∷ "databricks" ∷ "snowflake" ∷ "demo" ∷ []

abbrev pub is_engine : String → Bool
is_engine engine = is_one_of engine engines

unfoldable pub validate_engine : ℕ → String → Result ConfigError (Unit {0})
validate_engine line engine = if is_engine engine then ok tt else err (at line unsupported_engine)

abbrev common_properties : List String
common_properties =
    "engine" ∷ "output_format" ∷ "decimal_places" ∷ "decimal_rounding"
    ∷ "strip_trailing_decimal_zeros" ∷ "string_truncate" ∷ "binary_format" ∷ "null_value"
    ∷ "table_style" ∷ "color" ∷ "expanded" ∷ "headers" ∷ "row_numbers" ∷ "max_column_width"
    ∷ "timestamp_format" ∷ "timezone" ∷ "timing" ∷ "query_timeout" ∷ "connect_timeout"
    ∷ "fetch_size" ∷ "page_size" ∷ "max_display_rows" ∷ "progress" ∷ "retry" ∷ "history"
    ∷ "history_limit" ∷ "syntax_highlight" ∷ "completion" ∷ "pager" ∷ "editor" ∷ "prompt"
    ∷ "confirm_target_switch" ∷ "tls_verify" ∷ "show_query_id" ∷ "log_level" ∷ []

abbrev trino_properties : List String
trino_properties =
    "url" ∷ "user" ∷ "password" ∷ "token" ∷ "catalog" ∷ "schema" ∷ "source" ∷ "client_tags" ∷ []

abbrev databricks_properties : List String
databricks_properties =
    "auth_type" ∷ "host" ∷ "http_path" ∷ "token" ∷ "catalog" ∷ "schema" ∷ "user" ∷ []

abbrev snowflake_properties : List String
snowflake_properties =
    "auth_type" ∷ "account" ∷ "user" ∷ "password" ∷ "private_key" ∷ "warehouse" ∷ "database"
    ∷ "schema" ∷ "role" ∷ []

-- The extra properties of an engine; the section of the defaults has no engine.
abbrev extra_properties : Option String → List String
extra_properties none = []
extra_properties (some engine) =
    if engine == "trino"
    then trino_properties
    else if engine == "databricks"
    then databricks_properties
    else if engine == "snowflake"
    then snowflake_properties
    else []

-- A `BTreeSet` of names, in their order.
abbrev insert_name : String → List String → List String
insert_name name [] = name ∷ []
insert_name name (n ∷ ns) =
    let later = n ∷ insert_name name ns in
    elim (compare name n) [
      | Ordering.lt ↦ name ∷ n ∷ ns
      | Ordering.eq ↦ n ∷ ns
      | Ordering.gt ↦ later
    ]

abbrev name_set : List String → List String
name_set [] = []
name_set (n ∷ ns) = insert_name n (name_set ns)

unfoldable pub allowed_properties : Option String → List String
allowed_properties engine = name_set (common_properties ++ extra_properties engine)

abbrev is_boolean_property : String → Bool
is_boolean_property name = is_one_of name (
    "strip_trailing_decimal_zeros" ∷ "headers" ∷ "row_numbers" ∷ "timing" ∷ "history"
    ∷ "syntax_highlight" ∷ "completion" ∷ "confirm_target_switch" ∷ "tls_verify" ∷ "show_query_id"
    ∷ [])

abbrev is_unsigned_property : String → Bool
is_unsigned_property name = is_one_of name (
    "decimal_places" ∷ "string_truncate" ∷ "max_column_width" ∷ "fetch_size" ∷ "page_size"
    ∷ "max_display_rows" ∷ "history_limit" ∷ [])

abbrev is_duration_property : String → Bool
is_duration_property name = is_one_of name ("query_timeout" ∷ "connect_timeout" ∷ [])

-- The number that digits spell, after those already read.
abbrev digits_value : ℕ → String → ℕ
digits_value n String.[] = n
digits_value n (String.◌∷◌ c s) = digits_value (n * 10 + (code c - b'0')) s

-- `all(is_ascii_digit)` on a text that is not empty.
unfoldable pub is_number : String → Bool
unfolding all_chars
is_number s = not (is_empty s) && all_chars is_digit s

-- A leading plus sign is left out, as `parse` does.
abbrev without_plus : String → String
without_plus String.[] = String.[]
without_plus (String.◌∷◌ c s) = if code c == b'+' then s else String.◌∷◌ c s

-- `value.parse::<u64>().is_ok()`
unfoldable pub parses_u64 : String → Bool
unfolding is_number
parses_u64 value =
    is_number (without_plus value) && ltb (digits_value 0 (without_plus value)) 18446744073709551616

abbrev number_before : Option String → Bool
number_before none = false
number_before (some s) = is_number s

abbrev strip_two : ℕ → ℕ → String → Option String
strip_two first second s = elim (strip_last second s) [ none ↦ none | some t ↦ strip_last first t ]

unfoldable pub valid_duration : String → Bool
unfolding strip_last is_number
valid_duration value =
    number_before (strip_two b'm' b's' value)
    || number_before (strip_last b's' value)
    || number_before (strip_last b'm' value)
    || number_before (strip_last b'h' value)

abbrev is_boolean : String → Bool
is_boolean value = (value == "true") || (value == "false")

unfoldable pub validate_typed_value : ℕ → (name value : String) → Result ConfigError (Unit {0})
unfolding parses_u64 valid_duration
validate_typed_value line name value =
    if is_boolean_property name && not (is_boolean value)
    then err (at line not_boolean)
    else if is_unsigned_property name && not (parses_u64 value)
    then err (at line not_unsigned)
    else if is_duration_property name && not (valid_duration value)
    then err (at line not_duration)
    else ok tt

unfoldable pub is_secret : String → Bool
unfolding lowercase contains_text
is_secret name =
    let lower = lowercase name in
    (lower == "url")
    || contains_text "password" lower
    || contains_text "token" lower
    || contains_text "secret" lower
    || contains_text "private_key" lower

-- One row of the table: `left` is what stands to the left in the new row, `diagonal` what stands
-- above that, and the list what follows it above.
abbrev one_if_ne : ℕ → ℕ → ℕ
one_if_ne a b = if a == b then 0 else 1

unfoldable pub next_row : ℕ → String → (left diagonal : ℕ) → List ℕ → List ℕ
next_row l String.[] left diagonal above = left ∷ []
next_row l (String.◌∷◌ c right) left diagonal [] = left ∷ []
next_row l (String.◌∷◌ c right) left diagonal (a ∷ above) =
    left ∷ next_row l right (min (min (left + 1) (a + 1)) (diagonal + one_if_ne l (code c))) a above

abbrev step_row : ℕ → Char → String → List ℕ → List ℕ
step_row i c right [] = []
step_row i c right (diagonal ∷ above) = next_row (code c) right (i + 1) diagonal above

unfoldable pub rows_from : ℕ → (left right : String) → List ℕ → List ℕ
unfolding next_row
rows_from i String.[] right previous = previous
rows_from i (String.◌∷◌ c left) right previous =
    rows_from (i + 1) left right (step_row i c right previous)

-- `(0..=right.len())`, from `n` on.
unfoldable pub first_row : ℕ → String → List ℕ
first_row n String.[] = n ∷ []
first_row n (String.◌∷◌ c right) = n ∷ first_row (n + 1) right

abbrev last_or : ℕ → List ℕ → ℕ
last_or d [] = d
last_or d (x ∷ xs) = last_or x xs

-- The texts that are compared are ASCII here: a byte is a character.
unfoldable pub edit_distance : (left right : String) → ℕ
unfolding rows_from first_row
edit_distance left right = last_or 0 (rows_from 0 left right (first_row 0 right))

-- `min_by_key`: the first of the nearest candidates, with its distance.
unfoldable pub nearest : String → List String → Option (String × ℕ)
unfolding edit_distance
nearest name [] = none
nearest name (candidate ∷ rest) =
    let here = edit_distance name candidate in
    elim (nearest name rest) [
      | none ↦ some (candidate, here)
      | some (other, there) ↦ if leb here there then some (candidate, here) else some (other, there)
    ]

unfoldable pub closest : String → List String → Option String
unfolding nearest
closest name allowed = elim (nearest name allowed) [
  | none ↦ none
  | some (candidate, distance) ↦ if leb distance 3 then some candidate else none
]
