-- ===== src/Session/Hydration.antt =====
-- crates/qcli-core/src/lib.rs: `restore`, `close`, and what `mutate` makes of target and overrides.
use conflux_query.Base.{
  Option-cases, nat_eq, string_eq, eq_iff_eq, ok, err, ℕ, String, ◌≡◌, ap, ◌∙◌, ◌≢◌, ◌⊎◌, inl, inr,
  Option, none, some, [], arith,
}
use conflux_query.Dict.{Dict, lookup}
use conflux_query.Dict.Laws.{lookup-insert, lookup-remove}
use conflux_query.Target.{ResolvedTarget}
use conflux_query.Session.Edits.{if_current-ok, lookup-apply_values}
use conflux_query.Session.{
  SessionSnapshot, Session, session_not_found, Manager, snapshot, put_session, restore, snapshot_of,
  mutated, mutate, replace_target, close,
}

-- The session that another node hydrates from a snapshot and the target that the snapshot was taken
-- at gives the same snapshot again, whatever that node held under the id before.
pub snapshot_of-restore :
    (s : Session) (m : Manager)
    → (restore (snapshot s) s.target m).0 ≡ ok tt
      × (snapshot_of s.id (restore (snapshot s) s.target m).1 ≡ ok (snapshot s))
unfolding restore snapshot_of snapshot put_session
snapshot_of-restore s m = ground (
  arith,
  eq_iff_eq s.target.name s.target.name,
  eq_iff_eq s.target.engine s.target.engine,
  eq_iff_eq s.id s.id,
  lookup-insert s.id s.id s m.sessions,
)

-- A snapshot whose target or engine is not the one that this node resolved is refused, and nothing
-- is stored.
pub restore_refused :
    (snap : SessionSnapshot) (t : ResolvedTarget) (m : Manager)
    → (snap.target ≢ t.name) ⊎ (snap.engine ≢ t.engine)
    → restore snap t m ≡ (err (session_not_found snap.id), m)
unfolding restore
restore_refused snap t m h =
    ground (arith, eq_iff_eq snap.target t.name, eq_iff_eq snap.engine t.engine)

-- After a successful `mutate`, the override of each name is the value that the request gives it,
-- none where the request takes it away, and otherwise what the session had, unless the target was
-- replaced; the target is the one requested, or else the old one.
pub mutate_lem :
    (id : String) (version : ℕ) (t : Option ResolvedTarget) (values : Dict String (Option String))
    (m m' : Manager) (snap : SessionSnapshot)
    → mutate id version t values m ≡ (ok snap, m')
    → (s : Session) × (lookup id m.sessions ≡ some s)
      × (snap.target ≡ (elim t [ none ↦ s.target.name | some new ↦ new.name ]))
      × ((name : String)
          → lookup name snap.overrides ≡ (elim (lookup name values) [
            | none ↦ elim t [ none ↦ lookup name s.overrides | some new ↦ none ]
            | some value ↦ value
          ]))
unfolding mutate mutated replace_target snapshot lookup
mutate_lem id version none values m m' snap h =
    let (s, found, same, made, wrote) =
      if_current-ok (mutated none values) id version m m' snap h in
    (
      s,
      found,
      ap (λ n. n.target) made,
      λ name. ap (λ n. lookup name n.overrides) made ∙ lookup-apply_values s.overrides values name,
    )
mutate_lem id version (some t) values m m' snap h =
    let (s, found, same, made, wrote) =
      if_current-ok (mutated (some t) values) id version m m' snap h in
    (
      s,
      found,
      ap (λ n. n.target) made,
      λ name. ap (λ n. lookup name n.overrides) made ∙ lookup-apply_values [] values name,
    )

-- Closing a session takes it away, and it alone; a second close fails and changes nothing.
pub close_lem :
    (id : String) (m m' : Manager)
    → close id m ≡ (ok tt, m')
    → (snapshot_of id m' ≡ err (session_not_found id))
      × (close id m' ≡ (err (session_not_found id), m'))
      × ((other : String) → other ≢ id → lookup other m'.sessions ≡ lookup other m.sessions)
unfolding close snapshot_of
close_lem id m m' h = elim (Option-cases (lookup id m.sessions)) [
  | inl missing ↦ absurd (ground arith)
  | inr (s, found) ↦
      let gone : lookup id m'.sessions ≡ none =
        ground (arith, lookup-remove id id m.sessions, eq_iff_eq id id) in
      (
        rw (gone, snapshot_of),
        rw (gone, close),
        λ other ne. ground (arith, lookup-remove id other m.sessions, eq_iff_eq id other),
      )
]
