-- ===== src/Auth/Oidc/Policies.antt =====
-- crates/qcli-auth/src/lib.rs: the policy of a user from the policies of the groups.
use conflux_query.Base.{
  if◌then◌else◌, Bool-cases, Option-cases, string_eq, ◌==◌, nat_eq, eq_iff_eq, eq_self, ℕ, max,
  String, ◌≡◌, sym, ap, ◌∙◌, ◌↔◌, ◌⊎◌, inl, inr, true, ◌||◌, Option, none, some, List, [], ◌∷◌,
  arith,
}
use conflux_query.Dict.{Dict, lookup}
use conflux_query.Gateway.{contains}

pub record OidcPolicy : Type 0 where
  pub targets : List String
  pub max_sessions : ℕ
  pub max_concurrent_queries : ℕ

abbrev add : String → List String → List String
add name set = if contains name set then set else name ∷ set

-- `extend` of a `BTreeSet`, without its order.
unfoldable pub add_all : List String → List String → List String
add_all set [] = set
add_all set (name ∷ names) = add_all (add name set) names

unfoldable pub set_of : List String → List String
unfolding add_all
set_of names = add_all [] names

abbrev pub widened : OidcPolicy → Option OidcPolicy → OidcPolicy
widened policy none = policy
widened policy (some more) = record {
  targets = add_all policy.targets more.targets;
  max_sessions = max policy.max_sessions more.max_sessions;
  max_concurrent_queries = max policy.max_concurrent_queries more.max_concurrent_queries;
}

-- The loop over the groups, from the defaults.
unfoldable pub merge_policies : Dict String OidcPolicy → List String → OidcPolicy → OidcPolicy
unfolding add_all
merge_policies policies [] policy = policy
merge_policies policies (group ∷ groups) policy =
    merge_policies policies groups (widened policy (lookup group policies))

contains-add :
    (wanted name : String) (set : List String)
    → contains wanted (add name set) ≡ (name == wanted || contains wanted set)
contains-add wanted name set = elim (Bool-cases (contains name set)) [
  | inr new ↦ ground (arith, new)
  | inl old ↦ elim (Bool-cases (name == wanted)) [
    | inr other ↦ ground (arith, old, other)
    | inl same ↦
        let e = (eq_iff_eq name wanted).0 same in
        ground (arith, old, same, ap (λ n. contains n set) e)
  ]
]

pub contains-add_all :
    (wanted : String) (names set : List String)
    → contains wanted (add_all set names) ≡ (contains wanted set || contains wanted names)
unfolding add_all
contains-add_all wanted [] set = ground arith
contains-add_all wanted (name ∷ names) set =
    ground (arith, contains-add_all wanted names (add name set), contains-add wanted name set)

-- What gives a user a target: the defaults, or the policy of one of the user's groups.
abbrev pub IsGranted : Dict String OidcPolicy → List String → OidcPolicy → String → Type 0
IsGranted policies groups defaults target =
    (contains target defaults.targets ≡ true)
    ⊎ ((group : String) × (policy : OidcPolicy) × (contains group groups ≡ true)
        × (lookup group policies ≡ some policy)
        × (contains target policy.targets ≡ true))

module _ (policies : Dict String OidcPolicy) (target : String) where
  IsGranted-merge_policies :
      (groups : List String) (defaults : OidcPolicy)
      → contains target (merge_policies policies groups defaults).targets ≡ true
      → IsGranted policies groups defaults target
  unfolding merge_policies
  IsGranted-merge_policies [] defaults h = inl h
  IsGranted-merge_policies (group ∷ groups) defaults h =
      elim (IsGranted-merge_policies groups (widened defaults (lookup group policies)) h) [
        | inr (g, policy, member, known, has) ↦ inr (g, policy, ground (arith, member), known, has)
        | inl early ↦ elim (Option-cases (lookup group policies)) [
          | inl unknown ↦
              inl (sym (ap (λ o. contains target (widened defaults o).targets) unknown) ∙ early)
          | inr (policy, known) ↦
              let both =
                sym (contains-add_all target policy.targets defaults.targets)
                ∙ sym (ap (λ o. contains target (widened defaults o).targets) known)
                ∙ early in
              elim (Bool-cases (contains target defaults.targets)) [
                | inl default ↦ inl default
                | inr not_default ↦ inr (
                  group,
                  policy,
                  ground (arith, eq_self group),
                  known,
                  ground (arith, both, not_default),
                )
              ]
        ]
      ]

  merge_policies-keeps :
      (groups : List String) (defaults : OidcPolicy)
      → contains target defaults.targets ≡ true
      → contains target (merge_policies policies groups defaults).targets ≡ true
  unfolding merge_policies
  merge_policies-keeps [] defaults h = h
  merge_policies-keeps (group ∷ groups) defaults h =
      merge_policies-keeps groups (widened defaults (lookup group policies))
        (elim (Option-cases (lookup group policies)) [
          | inl unknown ↦ ap (λ o. contains target (widened defaults o).targets) unknown ∙ h
          | inr (policy, known) ↦
              ap (λ o. contains target (widened defaults o).targets) known
              ∙ contains-add_all target policy.targets defaults.targets
              ∙ ground (arith, h)
        ])

  merge_policies-adds :
      (groups : List String) (defaults : OidcPolicy) (group : String) (policy : OidcPolicy)
      → contains group groups ≡ true
      → lookup group policies ≡ some policy
      → contains target policy.targets ≡ true
      → contains target (merge_policies policies groups defaults).targets ≡ true
  unfolding merge_policies
  merge_policies-adds [] defaults group policy member known has = cc
  merge_policies-adds (g ∷ groups) defaults group policy member known has =
      elim (Bool-cases (g == group)) [
        | inr other ↦
            merge_policies-adds groups (widened defaults (lookup g policies)) group policy
              (ground (arith, member, other)) known has
        | inl same ↦ merge_policies-keeps groups (widened defaults (lookup g policies)) (
            ap (λ n. contains target (widened defaults (lookup n policies)).targets)
              ((eq_iff_eq g group).0 same)
            ∙ ap (λ o. contains target (widened defaults o).targets) known
            ∙ contains-add_all target policy.targets defaults.targets
            ∙ ground (arith, has))
      ]

-- The merged policy allows a target exactly where the defaults or the policy of one of the groups
-- do, in whatever order the groups come.
pub merge_policies-IsGranted :
    (policies : Dict String OidcPolicy) (groups : List String) (defaults : OidcPolicy)
    (target : String)
    → (contains target (merge_policies policies groups defaults).targets ≡ true)
      ↔ IsGranted policies groups defaults target
merge_policies-IsGranted policies groups defaults target = (
  IsGranted-merge_policies policies target groups defaults,
  λ granted. elim granted [
    | inl default ↦ merge_policies-keeps policies target groups defaults default
    | inr (group, policy, member, known, has) ↦
        merge_policies-adds policies target groups defaults group policy member known has
  ],
)
