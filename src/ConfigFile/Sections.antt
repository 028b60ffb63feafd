-- ===== src/ConfigFile/Sections.antt =====
-- crates/qcli-config/src/lib.rs: `parse`, from the text of a file to its sections.
use Prim.Native.Char.{Char, code}
use conflux_query.Base.{
  if◌then◌else◌, string_eq, ◌==◌, nat_eq, Result, ok, err, ℕ, ◌+◌, String, Bool, true, false, not,
  ◌&&◌, ◌||◌, Option, none, some, List, [], ◌∷◌,
}
use conflux_query.Dict.{lookup, insert}
use conflux_query.Text.{is_alphanumeric, is_empty, all_chars, split_once, strip_last, trim, lines}
use conflux_query.ConfigFile.{
  ConfigError, open_header, empty_section_name, invalid_section_name, duplicate_section,
  outside_section, no_equals_sign, invalid_property_name, unterminated_quote, duplicate_property,
  no_sections, at, whole_file, ParsedSections,
}

-- The loop of `strip_comment`: the quote that is open, by its number, and whether the character
-- before was a backslash.
unfoldable pub strip_from : Option ℕ → Bool → String → String
strip_from quote escaped String.[] = String.[]
strip_from quote true (String.◌∷◌ c s) = String.◌∷◌ c (strip_from quote false s)
strip_from none false (String.◌∷◌ c s) =
    let opened = String.◌∷◌ c (strip_from (some (code c)) false s) in
    let plain = String.◌∷◌ c (strip_from none false s) in
    if code c == b'\'' || code c == b'"'
    then opened
    else if code c == b'#'
    then String.[]
    else plain
strip_from (some q) false (String.◌∷◌ c s) =
    let escape = String.◌∷◌ c (strip_from (some q) true s) in
    let closed = String.◌∷◌ c (strip_from none false s) in
    let inside = String.◌∷◌ c (strip_from (some q) false s) in
    if code c == b'\\' && (q == b'"') then escape else if code c == q then closed else inside

unfoldable pub strip_comment : String → String
unfolding strip_from
strip_comment = strip_from none false

abbrev pub is_name_char : Char → Bool
is_name_char c = is_alphanumeric c || code c == b'_' || code c == b'-' || code c == b'.'

unfoldable pub validate_section_name : ℕ → String → Result ConfigError (Unit {0})
unfolding all_chars
validate_section_name line name =
    if is_empty name
    then err (at line empty_section_name)
    else if all_chars is_name_char name
    then ok tt
    else err (at line invalid_section_name)

unfoldable pub validate_property_name : ℕ → String → Result ConfigError (Unit {0})
unfolding all_chars
validate_property_name line name =
    if is_empty name || not (all_chars is_name_char name)
    then err (at line invalid_property_name)
    else ok tt

-- The text between its first character, a quote, and its last, the same quote.
unfoldable pub unquote : ℕ → Char → String → Result ConfigError String
unfolding strip_last
unquote line quote rest = elim (strip_last (code quote) rest) [
  | none ↦ err (at line unterminated_quote)
  | some inner ↦ ok inner
]

unfoldable pub parse_value : ℕ → String → Result ConfigError String
unfolding unquote
parse_value line String.[] = ok String.[]
parse_value line (String.◌∷◌ c s) =
    if code c == b'"' || code c == b'\'' then unquote line c s else ok (String.◌∷◌ c s)

-- The loop's variables: the sections, and the current one.
pub record Parsing : Type 0 where
  pub sections : ParsedSections
  pub current : Option String

-- A line that starts with a bracket, from the character after it.
unfoldable pub parse_header : ℕ → String → Parsing → Result ConfigError Parsing
unfolding strip_last validate_section_name
parse_header line rest p = elim (strip_last b']' rest) [
  | none ↦ err (at line open_header)
  | some inner ↦ elim (validate_section_name line (trim inner)) [
    | err e ↦ err e
    | ok valid ↦ elim (lookup (trim inner) p.sections) [
      | some old ↦ err (at line duplicate_section)
      | none ↦
          ok (record { sections = insert (trim inner) [] p.sections; current = some (trim inner) })
    ]
  ]
]

-- The current section exists, so the first case is never taken (`expect` in the source).
unfoldable pub add_property : ℕ → String → String → String → Parsing → Result ConfigError Parsing
add_property line section key value p = elim (lookup section p.sections) [
  | none ↦ ok p
  | some properties ↦ elim (lookup key properties) [
    | some old ↦ err (at line duplicate_property)
    | none ↦ ok (record p {
      sections =
          insert section (insert key (record { value = value; line = line }) properties) p.sections;
    })
  ]
]

unfoldable pub parse_property : ℕ → String → Parsing → Result ConfigError Parsing
unfolding validate_property_name parse_value add_property
parse_property line text p = elim p.current [
  | none ↦ err (at line outside_section)
  | some section ↦ elim (split_once b'=' text) [
    | none ↦ err (at line no_equals_sign)
    | some (raw_key, raw_value) ↦ elim (validate_property_name line (trim raw_key)) [
      | err e ↦ err e
      | ok valid ↦ elim (parse_value line (trim raw_value)) [
        | err e ↦ err e
        | ok value ↦ add_property line section (trim raw_key) value p
      ]
    ]
  ]
]

-- A line without comment and outer blanks.
unfoldable pub parse_text : ℕ → String → Parsing → Result ConfigError Parsing
unfolding parse_header parse_property
parse_text line String.[] p = ok p
parse_text line (String.◌∷◌ c s) p =
    if code c == b'[' then parse_header line s p else parse_property line (String.◌∷◌ c s) p

unfoldable pub parse_lines : ℕ → List String → Parsing → Result ConfigError Parsing
unfolding parse_text strip_comment
parse_lines line [] p = ok p
parse_lines line (raw ∷ rest) p = elim (parse_text line (trim (strip_comment raw)) p) [
  | err e ↦ err e
  | ok q ↦ parse_lines (line + 1) rest q
]

unfoldable pub some_sections : ParsedSections → Result ConfigError ParsedSections
some_sections [] = err (whole_file no_sections)
some_sections (s ∷ sections) = ok (s ∷ sections)

unfoldable pub parse : String → Result ConfigError ParsedSections
unfolding parse_lines some_sections
parse source = elim (parse_lines 1 (lines source) (record { sections = []; current = none })) [
  | err e ↦ err e
  | ok p ↦ some_sections p.sections
]
