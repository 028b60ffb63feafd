-- ===== src/Text.antt =====
-- The methods of Rust's `str` that the program uses, on texts as lists of characters. A character
-- is looked at by its number.
pub mod Laws
use Prim.Native.Char.{Char, code}
use Prim.Native.String.{◌++◌}
use conflux_query.Base.{
  leb, if◌then◌else◌, is_some, string_eq, ◌==◌, nat_eq, ℕ, String, Bool, true, false, ◌&&◌, ◌||◌,
  Option, none, some, List, [], ◌∷◌,
}

-- `char::is_ascii_digit`
abbrev pub is_digit : Char → Bool
is_digit c = leb b'0' (code c) && leb (code c) b'9'

-- `char::is_ascii_alphanumeric`
abbrev pub is_alphanumeric : Char → Bool
is_alphanumeric c =
    is_digit c
    || (leb b'A' (code c) && leb (code c) b'Z')
    || (leb b'a' (code c) && leb (code c) b'z')

-- `char::is_whitespace`, Unicode's White_Space.
abbrev pub is_whitespace : Char → Bool
is_whitespace c =
    (leb 9 (code c) && leb (code c) 13)
    || code c == 32
    || code c == 133
    || code c == 160
    || code c == 5760
    || (leb 8192 (code c) && leb (code c) 8202)
    || code c == 8232
    || code c == 8233
    || code c == 8239
    || code c == 8287
    || code c == 12288

abbrev pub is_empty : String → Bool
is_empty String.[] = true
is_empty (String.◌∷◌ c s) = false

-- `chars().all(p)`
unfoldable pub all_chars : (Char → Bool) → String → Bool
all_chars p String.[] = true
all_chars p (String.◌∷◌ c s) = p c && all_chars p s

-- `chars().any(|c| c == wanted)`
unfoldable pub has_char : ℕ → String → Bool
has_char wanted String.[] = false
has_char wanted (String.◌∷◌ c s) = (code c == wanted) || has_char wanted s

-- A character in front of the first half.
abbrev pub onto_first : Char → Option (String × String) → Option (String × String)
onto_first c none = none
onto_first c (some (a, b)) = some (String.◌∷◌ c a, b)

-- `split_once(separator)`
unfoldable pub split_once : ℕ → String → Option (String × String)
split_once separator String.[] = none
split_once separator (String.◌∷◌ c s) =
    let rest = onto_first c (split_once separator s) in
    if code c == separator then some (String.[], s) else rest

-- `strip_prefix`
unfoldable pub strip_prefix : (part s : String) → Option String
strip_prefix String.[] s = some s
strip_prefix (String.◌∷◌ p part) String.[] = none
strip_prefix (String.◌∷◌ p part) (String.◌∷◌ c s) =
    let rest = strip_prefix part s in if code c == code p then rest else none

-- The last character with what is before it.
unfoldable pub split_last : String → Option (String × Char)
split_last String.[] = none
split_last (String.◌∷◌ c s) = elim (split_last s) [
  | none ↦ some (String.[], c)
  | some (a, d) ↦ some (String.◌∷◌ c a, d)
]

-- `strip_suffix` for one character.
unfoldable pub strip_last : ℕ → String → Option String
unfolding split_last
strip_last wanted s = elim (split_last s) [
  | none ↦ none
  | some (a, d) ↦ if code d == wanted then some a else none
]

unfoldable pub trim_start : String → String
trim_start String.[] = String.[]
trim_start (String.◌∷◌ c s) =
    let rest = trim_start s in if is_whitespace c then rest else String.◌∷◌ c s

-- A character in front, unless it is white and nothing follows.
abbrev pub onto_trimmed : Char → String → String
onto_trimmed c String.[] = if is_whitespace c then String.[] else String.◌∷◌ c String.[]
onto_trimmed c (String.◌∷◌ d s) = String.◌∷◌ c (String.◌∷◌ d s)

unfoldable pub trim_end : String → String
trim_end String.[] = String.[]
trim_end (String.◌∷◌ c s) = onto_trimmed c (trim_end s)

unfoldable pub trim : String → String
unfolding trim_start trim_end
trim s = trim_end (trim_start s)

-- The character at the place of `c` in a text of the same length.
abbrev pub translate : (from to : String) → Char → Char
translate (String.◌∷◌ a from) (String.◌∷◌ b to) c =
    let rest = translate from to c in if code c == code a then b else rest
translate _ _ c = c

-- `char::to_ascii_lowercase`
abbrev pub lower_char : Char → Char
lower_char = translate "ABCDEFGHIJKLMNOPQRSTUVWXYZ" "abcdefghijklmnopqrstuvwxyz"

-- `to_ascii_lowercase`
unfoldable pub lowercase : String → String
lowercase String.[] = String.[]
lowercase (String.◌∷◌ c s) = String.◌∷◌ (lower_char c) (lowercase s)

-- `contains(part)`
unfoldable pub contains_text : (part s : String) → Bool
unfolding strip_prefix
contains_text part String.[] = is_empty part
contains_text part (String.◌∷◌ c s) =
    is_some (strip_prefix part (String.◌∷◌ c s)) || contains_text part s

-- A line without the carriage return at its end.
abbrev pub without_return : String → String
without_return s = elim (strip_last 13 s) [ none ↦ s | some a ↦ a ]

-- `lines()`: the parts between line feeds, without an empty last one.
unfoldable pub lines_from : (line rest : String) → List String
unfolding strip_last
lines_from String.[] String.[] = []
lines_from (String.◌∷◌ d line) String.[] = String.◌∷◌ d line ∷ []
lines_from line (String.◌∷◌ c s) =
    let new = without_return line ∷ lines_from String.[] s in
    let longer = lines_from (line ++ String.◌∷◌ c String.[]) s in
    if code c == 10 then new else longer

unfoldable pub lines : String → List String
unfolding lines_from
lines s = lines_from String.[] s

-- Membership in a table of names.
abbrev pub is_one_of : String → List String → Bool
is_one_of name [] = false
is_one_of name (n ∷ ns) = (n == name) || is_one_of name ns
