-- ===== src/Redaction/Sensitive.antt =====
-- crates/qcli-service/src/lib.rs: which names `is_sensitive_name` finds, and what is left of their values.
use conflux_query.Base.{
  if◌then◌else◌, Bool-cases, nat_eq, string_eq, eq_iff_eq, ℕ, String, ◌≡◌, refl, ap, ◌∙◌, ◌↔◌, ◌⊎◌,
  inl, inr, Bool, true, false, ◌||◌, List, [], ◌∷◌, ◌++◌, map, arith,
}
use conflux_query.Dict.{Dict, lookup}
use conflux_query.Redaction.{
  codes, lower_code, begins_with, contains, is_sensitive_name, redacted, lookup-redacted,
}

-- The name has the word somewhere in it, in capitals or not.
abbrev pub Has : String → String → Type 0
Has name word =
    (before : List ℕ) × (after : List ℕ) × (map lower_code (codes name)
      ≡ before ++ (codes word ++ after))

abbrev pub IsSensitive : String → Type 0
IsSensitive name =
    (((Has name "password" ⊎ Has name "token") ⊎ Has name "secret") ⊎ Has name "credential")
    ⊎ Has name "private_key"

-- No entry with a sensitive name shows a value.
abbrev pub HidesSecrets : Dict String String → Type 0
HidesSecrets [] = Unit {0}
HidesSecrets ((name, value) ∷ rest) = (IsSensitive name → value ≡ "<redacted>") × HidesSecrets rest

begins_with-append : (part after : List ℕ) → begins_with (part ++ after) part ≡ true
unfolding begins_with
begins_with-append [] [] = refl
begins_with-append [] (c ∷ after) = refl
begins_with-append (p ∷ part) after = ground (arith, eq_iff_eq p p, begins_with-append part after)

contains-begins : (s part : List ℕ) → begins_with s part ≡ true → contains s part ≡ true
unfolding contains
contains-begins [] part h = h
contains-begins (c ∷ s) part h = ground (arith, h)

contains-append : (before part after : List ℕ) → contains (before ++ (part ++ after)) part ≡ true
unfolding contains
contains-append [] part after = contains-begins (part ++ after) part (begins_with-append part after)
contains-append (c ∷ before) part after = ground (arith, contains-append before part after)

begins_with-true :
    (s part : List ℕ) → begins_with s part ≡ true → (after : List ℕ) × (s ≡ part ++ after)
unfolding begins_with
begins_with-true s [] h = (s, refl)
begins_with-true [] (p ∷ part) h = cc
begins_with-true (c ∷ s) (p ∷ part) h =
    let same : c ≡ p = ground (arith, h, eq_iff_eq c p) in
    let rest : begins_with s part ≡ true = ground (arith, h) in
    let (after, e) = begins_with-true s part rest in (after, cc)

contains-true :
    (s part : List ℕ)
    → contains s part ≡ true
    → (before : List ℕ) × (after : List ℕ) × (s ≡ before ++ (part ++ after))
unfolding contains
contains-true [] part h = let (after, e) = begins_with-true [] part h in ([], after, e)
contains-true (c ∷ s) part h = elim (Bool-cases (begins_with (c ∷ s) part)) [
  | inl here ↦ let (after, e) = begins_with-true (c ∷ s) part here in ([], after, e)
  | inr there ↦
      let (before, after, e) = contains-true s part (ground (arith, h, there)) in
      (c ∷ before, after, ap (◌∷◌ c) e)
]

contains-Has :
    (name word : String)
    → (contains (map lower_code (codes name)) (codes word) ≡ true) ↔ Has name word
contains-Has name word = (
  contains-true (map lower_code (codes name)) (codes word),
  λ (before, after, e).
      ap (λ s. contains s (codes word)) e ∙ contains-append before (codes word) after,
)

or_iff : {P Q : Type 0} (a b : Bool) → (a ≡ true) ↔ P → (b ≡ true) ↔ Q → ((a || b) ≡ true) ↔ (P ⊎ Q)
or_iff true b p q = ((λ h. inl (p.0 refl)), (λ h. refl))
or_iff false b p q =
    ((λ h. inr (q.0 h)), λ h. elim h [ inl x ↦ absurd (let e = p.1 x in cc) | inr y ↦ q.1 y ])

pub is_sensitive_name-IsSensitive :
    (name : String) → (is_sensitive_name name ≡ true) ↔ IsSensitive name
unfolding is_sensitive_name
is_sensitive_name-IsSensitive name =
    let has = contains-Has name in
    or_iff _ _
      (or_iff _ _ (or_iff _ _ (or_iff _ _ (has "password") (has "token")) (has "secret"))
        (has "credential"))
      (has "private_key")

pub redacted-HidesSecrets : (ps : Dict String String) → HidesSecrets (redacted ps)
unfolding redacted
redacted-HidesSecrets [] = tt
redacted-HidesSecrets ((name, value) ∷ rest) = (
  λ sensitive.
      let found = (is_sensitive_name-IsSensitive name).1 sensitive in
      ap (λ b. if b then "<redacted>" else value) found,
  redacted-HidesSecrets rest,
)

-- What has no sensitive name is shown as it is.
pub redacted-shows :
    (name : String) (ps : Dict String String)
    → ¬ IsSensitive name
    → lookup name (redacted ps) ≡ lookup name ps
redacted-shows name ps plain = elim (Bool-cases (is_sensitive_name name)) [
  | inl found ↦ absurd (plain ((is_sensitive_name-IsSensitive name).0 found))
  | inr other ↦ ground (arith, other, lookup-redacted name ps)
]
