-- ===== src/Redaction.antt =====
-- crates/qcli-service/src/lib.rs: `is_sensitive_name`, and the redaction of session properties in
-- events. A name is read as its code points.
pub mod Sensitive
use Prim.Native.Char.{code}
use conflux_query.Base.{
  leb, if◌then◌else◌, ◌==◌, nat_eq, string_eq, eq_iff_eq, ℕ, ◌+◌, String, ◌≡◌, refl, Bool, true,
  false, ◌&&◌, ◌||◌, none, some, List, [], ◌∷◌, map, arith,
}
use conflux_query.Dict.{Dict, lookup}

abbrev pub codes : String → List ℕ
codes String.[] = []
codes (String.◌∷◌ c s) = code c ∷ codes s

-- `to_ascii_lowercase`
pub lower_code : ℕ → ℕ
lower_code c = if leb b'A' c && leb c b'Z' then c + 32 else c

pub begins_with : List ℕ → List ℕ → Bool
begins_with s [] = true
begins_with [] (p ∷ part) = false
begins_with (c ∷ s) (p ∷ part) = (c == p) && begins_with s part

-- `str::contains`
pub contains : List ℕ → List ℕ → Bool
unfolding begins_with
contains [] part = begins_with [] part
contains (c ∷ s) part = begins_with (c ∷ s) part || contains s part

pub is_sensitive_name : String → Bool
unfolding lower_code contains
is_sensitive_name name =
    let lower = map lower_code (codes name) in
    contains lower (codes "password")
    || contains lower (codes "token")
    || contains lower (codes "secret")
    || contains lower (codes "credential")
    || contains lower (codes "private_key")

-- The properties of a session as an event shows them.
pub redacted : Dict String String → Dict String String
unfolding is_sensitive_name
redacted [] = []
redacted ((name, value) ∷ rest) =
    (name, if is_sensitive_name name then "<redacted>" else value) ∷ redacted rest

-- The value of a property after the redaction.
pub lookup-redacted :
    (name : String) (ps : Dict String String)
    → lookup name (redacted ps) ≡ (elim (lookup name ps) [
      | none ↦ none
      | some value ↦ some (if is_sensitive_name name then "<redacted>" else value)
    ])
unfolding lookup redacted
lookup-redacted name [] = refl
lookup-redacted name ((j, value) ∷ rest) =
    ground (arith, eq_iff_eq j name, lookup-redacted name rest)
