-- ===== src/Auth.antt =====
-- crates/qcli-auth/src/lib.rs: the providers that turn a bearer credential into a principal. Of an
-- `AuthenticationError` only the kind is modelled. What a provider reads of files and of the clock
-- is an argument.
pub mod Keys
pub mod Oidc
pub mod Composite
pub mod Examples
use conflux_query.Base.{
  if◌then◌else◌, string_eq, ◌==◌, nat_eq, Result, ok, err, ℕ, ◌%◌, Bool, true, false, Option, none,
  some,
}

pub data AuthenticationErrorKind : Type 0 where
  missing invalid configuration : AuthenticationErrorKind

abbrev pub is_invalid : AuthenticationErrorKind → Bool
is_invalid missing = false
is_invalid invalid = true
is_invalid configuration = false

-- The check of `mode & 0o077` on Unix; the mode is `none` where it cannot be read.
unfoldable pub validate_auth_permissions :
    (mode : Option ℕ) → Result AuthenticationErrorKind (Unit {0})
validate_auth_permissions none = err configuration
validate_auth_permissions (some mode) = if mode % 64 == 0 then ok tt else err configuration
