-- ===== src/ConfigFile/Substitution.antt =====
-- crates/qcli-config/src/lib.rs: `expand_environment`. The environment is a function.
use Prim.Native.Char.{Char, code}
use Prim.Native.String.{◌++◌}
use conflux_query.Base.{
  if◌then◌else◌, string_eq, ◌==◌, nat_eq, Result, ok, err, ok_or, ℕ, String, Bool, not, ◌&&◌, ◌||◌,
  Option, none, some,
}
use conflux_query.Text.{is_alphanumeric, is_empty, all_chars}
use conflux_query.ConfigFile.{
  ConfigError, unterminated_substitution, invalid_variable, unset_variable, at,
}

abbrev pub Environment : Type 0
Environment = String → Option String

abbrev pub is_variable_char : Char → Bool
is_variable_char c = code c == b'_' || is_alphanumeric c

-- The value of a variable, if its name is one.
unfoldable pub resolve_variable : Environment → ℕ → String → Result ConfigError String
unfolding all_chars
resolve_variable env line name =
    if is_empty name || not (all_chars is_variable_char name)
    then err (at line invalid_variable)
    else ok_or (env name) (at line unset_variable)

abbrev pub in_front : String → Result ConfigError String → Result ConfigError String
in_front s (ok t) = ok (s ++ t)
in_front s (err e) = err e

-- The loop over the value. Before `${` the name is `none`; behind it, it is what has been read of
-- the name up to the next brace.
unfoldable pub expand_from : Environment → ℕ → Option String → String → Result ConfigError String
unfolding resolve_variable
expand_from env line none String.[] = ok String.[]
expand_from env line none (String.◌∷◌ c String.[]) = ok (String.◌∷◌ c String.[])
expand_from env line none (String.◌∷◌ c (String.◌∷◌ d s)) =
    let opened = expand_from env line (some String.[]) s in
    let plain = in_front (String.◌∷◌ c String.[]) (expand_from env line none (String.◌∷◌ d s)) in
    if code c == b'$' && (code d == b'{') then opened else plain
expand_from env line (some name) String.[] = err (at line unterminated_substitution)
expand_from env line (some name) (String.◌∷◌ c s) =
    let rest = expand_from env line none s in
    let closed : Result ConfigError String = elim (resolve_variable env line name) [
      | err e ↦ err e
      | ok value ↦ in_front value rest
    ] in
    let longer = expand_from env line (some (name ++ String.◌∷◌ c String.[])) s in
    if code c == b'}' then closed else longer

unfoldable pub expand_environment : Environment → ℕ → String → Result ConfigError String
unfolding expand_from
expand_environment env line value = expand_from env line none value
