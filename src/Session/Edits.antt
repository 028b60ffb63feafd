-- ===== src/Session/Edits.antt =====
-- crates/qcli-core/src/lib.rs: what the session manager promises of a session's versions, of its
-- properties and of the other sessions.
use mathlib.Core.Option
use conflux_query.Base.{
  Bool-cases, Option-cases, ◌==◌, nat_eq, string_eq, eq_iff_eq, eq_self, eq-false_of_ne,
  ne_of_eq-false, ok, err, Exec, ℕ, ◌+◌, ◌%◌, String, ◌≡◌, refl, sym, ap, ◌∙◌, ◌≢◌, inl, inr,
  Option, none, some, [], ◌∷◌, arith,
}
use conflux_query.Dict.{Dict, lookup}
use conflux_query.Dict.Laws.{
  or_else, lookup-insert, lookup-remove, lookup-extend, lookup-map_values,
}
use conflux_query.Target.{ResolvedTarget, expose, exposed}
use conflux_query.Session.{
  SessionSnapshot, Session, CoreError, session_not_found, version_conflict, Manager, u64_mod, bump,
  snapshot, put_session, snapshot_of, if_current, set_options, switch_target, mutated, mutate,
  apply_values, add_overrides, replace_target,
}

-- An override wins over the target's own property of that name.
pub effective_properties :
    (s : Session) (name : String)
    → lookup name (snapshot s).properties
      ≡ or_else (lookup name s.overrides) (Option.map expose (lookup name s.target.properties))
unfolding snapshot exposed
effective_properties s name = ground (
  arith,
  lookup-extend name (exposed s.target) s.overrides,
  lookup-map_values expose name s.target.properties,
)

-- What `mutate` leaves as the override of a name: the value it is given, nothing where it is given
-- none, and otherwise what stood there.
pub lookup-apply_values :
    (m : Dict String String) (values : Dict String (Option String)) (name : String)
    → lookup name (apply_values m values)
      ≡ (elim (lookup name values) [ none ↦ lookup name m | some value ↦ value ])
unfolding apply_values lookup
lookup-apply_values m [] name = refl
lookup-apply_values m ((j, none) ∷ rest) name =
    ground (arith, lookup-remove j name (apply_values m rest), lookup-apply_values m rest name)
lookup-apply_values m ((j, some v) ∷ rest) name =
    ground (arith, lookup-insert j name v (apply_values m rest), lookup-apply_values m rest name)

-- An edit of the manager as the callers see it: the three methods differ in `change` only.
module _ (change : Session → Session) (id : String) (expected : ℕ) (m : Manager) where
  if_current-stale :
      (s : Session)
      → lookup id m.sessions ≡ some s
      → s.version ≢ expected
      → if_current change id expected m ≡ (err (version_conflict expected s.version), m)
  unfolding if_current
  if_current-stale s found h = ground (arith, eq_iff_eq s.version expected)

  if_current-fresh :
      (s : Session)
      → lookup id m.sessions ≡ some s
      → s.version ≡ expected
      → if_current change id expected m ≡ (
        ok (snapshot (record (change s) { version = bump expected })),
        put_session id (record (change s) { version = bump expected }) m,
      )
  unfolding if_current
  if_current-fresh s found h = ground (arith, eq_iff_eq s.version expected)

  if_current-missing :
      lookup id m.sessions ≡ none
      → if_current change id expected m ≡ (err (session_not_found id), m)
  unfolding if_current
  if_current-missing h = ground arith

-- A method that fails has changed nothing.
if_current-err :
    (change : Session → Session) (id : String) (expected : ℕ) (m m' : Manager) (e : CoreError)
    → if_current change id expected m ≡ (err e, m')
    → m' ≡ m
unfolding if_current
if_current-err change id expected m m' e h = ground arith

pub if_current-ok :
    (change : Session → Session) (id : String) (expected : ℕ) (m m' : Manager)
    (snap : SessionSnapshot)
    → if_current change id expected m ≡ (ok snap, m')
    → (s : Session) × (lookup id m.sessions ≡ some s)
      × (s.version ≡ expected)
      × (snap ≡ snapshot (record (change s) { version = bump expected }))
      × (m' ≡ put_session id (record (change s) { version = bump expected }) m)
if_current-ok change id expected m m' snap h = elim (Option-cases (lookup id m.sessions)) [
  | inl missing ↦ absurd (ground (arith, if_current-missing change id expected m missing))
  | inr (s, found) ↦ elim (Bool-cases (s.version == expected)) [
    | inl same ↦
        let e = (eq_iff_eq s.version expected).0 same in
        let path = if_current-fresh change id expected m s found e in
        (s, found, e, ground arith, ground arith)
    | inr other ↦ absurd (
        ground (
          arith,
          if_current-stale change id expected m s found (ne_of_eq-false s.version expected other),
        ))
  ]
]

bump-ne : (v : ℕ) → v ≢ bump v
unfolding bump
bump-ne v = omega arith

lookup-put_session :
    (id : String) (s : Session) (m m' : Manager)
    → m' ≡ put_session id s m
    → lookup id m'.sessions ≡ some s
unfolding put_session
lookup-put_session id s m m' wrote =
    ap (λ (n : Manager). lookup id n.sessions) wrote
    ∙ lookup-insert id id s m.sessions
    ∙ rw eq_self refl

-- Two writers that read the same version: once one of them has succeeded, the other fails with the
-- version that the first one made, and changes nothing.
if_current_once :
    (first second : Session → Session) (id : String) (version : ℕ) (m m' : Manager)
    (snap : SessionSnapshot)
    → ((s : Session) → (first s).version ≡ s.version)
    → if_current first id version m ≡ (ok snap, m')
    → if_current second id version m' ≡ (err (version_conflict version snap.version), m')
unfolding put_session snapshot
if_current_once first second id version m m' snap keeps h =
    let (s, found, same, made, wrote) = if_current-ok first id version m m' snap h in
    let next : Session = record (first s) { version = bump version } in
    let there = lookup-put_session id next m m' wrote in
    let fails = if_current-stale second id version m' next there (λ e. bump-ne version (sym e)) in
    fails ∙ ap (λ v. (err (version_conflict version v), m')) (ap (λ t. t.version) (sym made))

-- The three methods that edit a session under optimistic concurrency.
pub data Edit : Type 0 where
  options : Dict String String → Edit
  retarget : ResolvedTarget → Edit
  mutation : Option ResolvedTarget → Dict String (Option String) → Edit

abbrev change_of : Edit → Session → Session
change_of (options values) = add_overrides values
change_of (retarget t) = replace_target t
change_of (mutation t values) = mutated t values

unfoldable pub apply_edit : Edit → String → ℕ → Exec Manager CoreError SessionSnapshot
unfolding set_options switch_target mutate if_current
apply_edit (options values) id expected = set_options id expected values
apply_edit (retarget t) id expected = switch_target id expected t
apply_edit (mutation t values) id expected = mutate id expected t values

-- Each method is the shared version test with its own change.
apply_edit-if_current : (e : Edit) → apply_edit e ≡ if_current (change_of e)
unfolding apply_edit
apply_edit-if_current (options values) = refl
apply_edit-if_current (retarget t) = refl
apply_edit-if_current (mutation t values) = refl

change_of-version : (e : Edit) (s : Session) → (change_of e s).version ≡ s.version
unfolding add_overrides replace_target mutated
change_of-version (options values) s = refl
change_of-version (retarget t) s = refl
change_of-version (mutation none values) s = refl
change_of-version (mutation (some t) values) s = refl

-- No lost update: once an edit of a session has succeeded from some version, any edit that was
-- prepared from the same version fails with a conflict that names the new version, and the manager
-- stays as it is.
pub edit_once :
    (first second : Edit) (id : String) (version : ℕ) (m m' : Manager) (snap : SessionSnapshot)
    → apply_edit first id version m ≡ (ok snap, m')
    → apply_edit second id version m' ≡ (err (version_conflict version snap.version), m')
edit_once first second id version m m' snap h = rw apply_edit-if_current (
    if_current_once (change_of first) (change_of second) id version m m' snap
      (change_of-version first) (rw apply_edit-if_current at h))

-- An edit that fails, for whatever reason, has changed nothing.
pub edit_failed :
    (e : Edit) (id : String) (version : ℕ) (m m' : Manager) (error : CoreError)
    → apply_edit e id version m ≡ (err error, m')
    → m' ≡ m
edit_failed e id version m m' error h =
    if_current-err (change_of e) id version m m' error (rw apply_edit-if_current at h)

-- An edit that succeeds found the session at the version that it names, returns what the session
-- holds afterwards at the next version, and leaves every other session alone.
pub edit_done :
    (e : Edit) (id : String) (version : ℕ) (m m' : Manager) (snap : SessionSnapshot)
    → apply_edit e id version m ≡ (ok snap, m')
    → (snap.version ≡ (version + 1) % u64_mod)
      × (snapshot_of id m' ≡ ok snap)
      × ((other : String) → other ≢ id → lookup other m'.sessions ≡ lookup other m.sessions)
unfolding snapshot_of put_session bump
edit_done e id version m m' snap h =
    let (s, found, same, made, wrote) =
      if_current-ok (change_of e) id version m m' snap (rw apply_edit-if_current at h) in
    let next : Session = record (change_of e s) { version = bump version } in
    let there = lookup-put_session id next m m' wrote in
    (
      unfold snapshot in rw made refl,
      rw (there, snapshot_of) (ap ok (sym made)),
      λ other ne. rw wrote (rw lookup-insert (rw (eq-false_of_ne id other (λ q. ne (sym q))) refl)),
    )
