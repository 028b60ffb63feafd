-- ===== src/Auth/Oidc/Algorithms.antt =====
-- crates/qcli-auth/src/lib.rs: the algorithms that a token can be signed with.
use conflux_query.Base.{
  if◌then◌else◌, string_eq, ◌==◌, nat_eq, Result, ok, err, ℕ, String, Bool, false, ◌||◌, List, [],
  ◌∷◌,
}
use conflux_query.Auth.{AuthenticationErrorKind, configuration}

pub data Algorithm : Type 0 where
  rs256 rs384 rs512 es256 es384 hs256 : Algorithm
  other_algorithm : Algorithm

-- The algorithm by its name in the configuration.
unfoldable pub parse_algorithm : String → Result AuthenticationErrorKind Algorithm
parse_algorithm value =
    if value == "RS256"
    then ok rs256
    else if value == "RS384"
    then ok rs384
    else if value == "RS512"
    then ok rs512
    else if value == "ES256"
    then ok es256
    else if value == "ES384"
    then ok es384
    else if value == "HS256"
    then ok hs256
    else err configuration

unfoldable pub parse_algorithms : List String → Result AuthenticationErrorKind (List Algorithm)
unfolding parse_algorithm
parse_algorithms [] = ok []
parse_algorithms (value ∷ values) = elim (parse_algorithm value) [
  | err e ↦ err e
  | ok a ↦ elim (parse_algorithms values) [ err e ↦ err e | ok more ↦ ok (a ∷ more) ]
]

abbrev algorithm_number : Algorithm → ℕ
algorithm_number rs256 = 0
algorithm_number rs384 = 1
algorithm_number rs512 = 2
algorithm_number es256 = 3
algorithm_number es384 = 4
algorithm_number hs256 = 5
algorithm_number other_algorithm = 6

abbrev pub has_algorithm : Algorithm → List Algorithm → Bool
has_algorithm a [] = false
has_algorithm a (b ∷ more) = algorithm_number a == algorithm_number b || has_algorithm a more
