-- ===== src/Session/Ids.antt =====
-- crates/qcli-core/src/lib.rs: `next_session_id` and `safe_username`. The local time enters as the
-- text of the current minute.
pub mod Reuse
use Prim.Native.Char.{Char, code}
use Prim.Native.String
use Prim.Native.String.{◌++◌}
use conflux_query.Base.{
  ltb, leb, if◌then◌else◌, ◌==◌, nat_eq, string_eq, ℕ, ◌+◌, ◌/◌, ◌%◌, String, Bool, not, ◌&&◌, ◌||◌,
}

pub record SessionIdState : Type 0 where
  pub minute : String
  pub counter : ℕ

abbrev pub is_ascii_alphanumeric : ℕ → Bool
is_ascii_alphanumeric c =
    (leb b'0' c && leb c b'9') || (leb b'A' c && leb c b'Z') || (leb b'a' c && leb c b'z')

safe_char : Char → Char
safe_char c = if is_ascii_alphanumeric (code c) || code c == b'_' then c else "_"

unfoldable pub sanitized : String → String
unfolding safe_char
sanitized String.[] = ""
sanitized (String.◌∷◌ c s) = String.◌∷◌ (safe_char c) (sanitized s)

unfoldable pub safe_username : String → String
unfolding sanitized
safe_username name = if sanitized name == "" then "qcli" else sanitized name

digit : ℕ → String
digit d =
    if d == 0
    then "0"
    else if d == 1
    then "1"
    else if d == 2
    then "2"
    else if d == 3
    then "3"
    else if d == 4
    then "4"
    else if d == 5
    then "5"
    else if d == 6
    then "6"
    else if d == 7
    then "7"
    else if d == 8
    then "8"
    else "9"

-- `{:02}` of a `u8`.
pub two_digits : ℕ → String
unfolding digit
two_digits n =
    if ltb n 100
    then digit (n / 10) ++ digit (n % 10)
    else digit (n / 100) ++ (digit (n / 10 % 10) ++ digit (n % 10))

-- The counter starts again with each minute, and at 1 after 99.
unfoldable pub next_counter : String → SessionIdState → SessionIdState
next_counter minute ids =
    let counter = if not (ids.minute == minute) then 0 else ids.counter in
    record { minute = minute; counter = counter % 99 + 1 }

unfoldable pub next_session_id : String → String → SessionIdState → String × SessionIdState
unfolding next_counter two_digits safe_username
next_session_id minute username ids =
    let ids' = next_counter minute ids in
    (safe_username username ++ ("_" ++ (minute ++ ("_" ++ two_digits ids'.counter))), ids')
