-- ===== src/Session/Collisions.antt =====
-- crates/qcli-core/src/lib.rs: sessions that are created within one minute.
use conflux_query.Base.{
  nat_eq, string_eq, eq_iff_eq, length, ok, ◌<◌, String, ◌≡◌, refl, ◌↔◌, List, [], ◌∷◌, arith,
}
use conflux_query.Dict.{Dict}
use conflux_query.Dict.Laws.{lookup-insert}
use conflux_query.Target.{ResolvedTarget}
use conflux_query.Session.Ids.{next_counter, next_session_id}
use conflux_query.Session.Ids.Reuse.{advance, reuse_after_99}
use conflux_query.Session.{
  Session, Manager, Surroundings, user_name, snapshot, put_session, create_with_overrides,
  snapshot_of,
}

abbrev pub Request : Type 0
Request = ResolvedTarget × Dict String String

-- The manager after a row of sessions that are created in one minute.
pub creates : Surroundings → List Request → Manager → Manager
creates env [] m = m
creates env ((t, overrides) ∷ rest) m = creates env rest (create_with_overrides env t overrides m).1

creates-ids :
    (env : Surroundings) (rest : List Request) (m : Manager)
    → (creates env rest m).ids ≡ advance (length rest) env.minute m.ids
unfolding creates create_with_overrides advance next_session_id put_session
creates-ids env [] m = refl
creates-ids env ((t, overrides) ∷ rest) m =
    creates-ids env rest (create_with_overrides env t overrides m).1

create-id :
    (env : Surroundings) (t : ResolvedTarget) (overrides : Dict String String) (m : Manager)
    → (create_with_overrides env t overrides m).0.id
      ≡ (next_session_id env.minute (user_name env t) m.ids).0
unfolding create_with_overrides snapshot
create-id env t overrides m = refl

create-ids :
    (env : Surroundings) (t : ResolvedTarget) (overrides : Dict String String) (m : Manager)
    → (create_with_overrides env t overrides m).1.ids ≡ next_counter env.minute m.ids
unfolding create_with_overrides next_session_id put_session
create-ids env t overrides m = refl

-- A new session is at version 1 and is found under its id, whatever stood there before.
pub create_lem :
    (env : Surroundings) (t : ResolvedTarget) (overrides : Dict String String) (m : Manager)
    → ((create_with_overrides env t overrides m).0.version ≡ 1)
      × (snapshot_of
            (create_with_overrides env t overrides m).0.id
            (create_with_overrides env t overrides m).1
          ≡ ok (create_with_overrides env t overrides m).0)
unfolding create_with_overrides snapshot_of snapshot put_session
create_lem env t overrides m =
    let id = (next_session_id env.minute (user_name env t) m.ids).0 in
    let s : Session = record { id = id; version = 1; target = t; overrides = overrides } in
    (refl, ground (arith, lookup-insert id id s m.sessions, eq_iff_eq id id))

-- Two sessions of one user, with fewer than 99 others of any users created between them in the same
-- minute, share their id exactly when the others are 98 in number.
pub same_id_after_98 :
    (env : Surroundings) (first last : Request) (between : List Request) (m : Manager)
    → user_name env last.0 ≡ user_name env first.0
    → length between < 99
    → let m₁ = (create_with_overrides env first.0 first.1 m).1 in
      ((create_with_overrides env last.0 last.1 (creates env between m₁)).0.id
        ≡ (create_with_overrides env first.0 first.1 m).0.id)
      ↔ (length between ≡ 98)
same_id_after_98 env (t, o) (t', o') between m same few =
    rw
      (
        create-id env t' o',
        create-id env t o m,
        creates-ids env between,
        create-ids env t o m,
        same,
      )
      (reuse_after_99 env.minute (user_name env t) m.ids (length between) few)
