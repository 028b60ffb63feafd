-- ===== src/Session.antt =====
-- crates/qcli-core/src/lib.rs: the session manager. `Manager` is `SessionManager` with the
-- process-wide state of `next_session_id`. A method takes the lock once, so it is one step on the
-- manager; a poisoned lock is not modelled.
pub mod Ids
pub mod Edits
pub mod Hydration
pub mod Collisions
pub mod Examples
use Ids.{SessionIdState, next_session_id}
use conflux_query.Base.{
  if◌then◌else◌, string_eq, ◌==◌, nat_eq, Result, ok, err, Exec, ℕ, ◌+◌, ◌%◌, String, not, ◌||◌,
  Option, none, some, [], ◌∷◌,
}
use conflux_query.Dict.{Dict, lookup, insert, remove, extend}
use conflux_query.Dict.Laws.{or_else}
use conflux_query.Target.{ResolvedTarget, exposed}
use conflux_query.Driver.{DriverError}

pub record SessionSnapshot : Type 0 where
  pub id : String
  pub version : ℕ
  pub target : String
  pub engine : String
  pub properties : Dict String String
  pub overrides : Dict String String

pub record Session : Type 0 where
  pub id : String
  pub version : ℕ
  pub target : ResolvedTarget
  pub overrides : Dict String String

pub data CoreError : Type 0 where
  session_not_found : String → CoreError
  version_conflict : (expected actual : ℕ) → CoreError
  adapter_not_found : String → CoreError
  driver : DriverError → CoreError
  task : String → CoreError

pub record Manager : Type 0 where
  pub sessions : Dict String Session
  pub ids : SessionIdState

-- `u64 += 1`, as a release build wraps it.
abbrev pub u64_mod : ℕ
u64_mod = 18446744073709551616

unfoldable pub bump : ℕ → ℕ
bump version = (version + 1) % u64_mod

unfoldable pub snapshot : Session → SessionSnapshot
snapshot s = record {
  id = s.id;
  version = s.version;
  target = s.target.name;
  engine = s.target.engine;
  properties = extend (exposed s.target) s.overrides;
  overrides = s.overrides;
}

unfoldable pub put_session : String → Session → Manager → Manager
put_session id s m = record m { sessions = insert id s m.sessions }

unfoldable pub restore : SessionSnapshot → ResolvedTarget → Exec Manager CoreError (Unit {0})
unfolding put_session
restore snap t m =
    if not (snap.target == t.name) || not (snap.engine == t.engine)
    then (err (session_not_found snap.id), m)
    else (ok tt, put_session snap.id session m)
  where
    session : Session
    session = record {
      id = snap.id;
      version = snap.version;
      target = t;
      overrides = snap.overrides;
    }

-- What `create_with_overrides` reads of its surroundings: the environment and the local time.
pub record Surroundings : Type 0 where
  pub user : Option String
  pub username : Option String
  pub minute : String

or_default : String → Option String → String
or_default d none = d
or_default d (some s) = s

pub user_name : Surroundings → ResolvedTarget → String
unfolding or_default
user_name env t =
    or_default "qcli" (or_else (lookup "user" (exposed t)) (or_else env.user env.username))

unfoldable pub create_with_overrides :
    Surroundings → ResolvedTarget → Dict String String → Manager → SessionSnapshot × Manager
unfolding put_session
create_with_overrides env t overrides m =
    let (id, ids) = next_session_id env.minute (user_name env t) m.ids in
    let s : Session = record { id = id; version = 1; target = t; overrides = overrides } in
    (snapshot s, put_session id s (record m { ids = ids }))

unfoldable pub create : Surroundings → ResolvedTarget → Manager → SessionSnapshot × Manager
unfolding create_with_overrides
create env t m = create_with_overrides env t [] m

unfoldable pub snapshot_of : String → Manager → Result CoreError SessionSnapshot
snapshot_of id m = elim (lookup id m.sessions) [
  | none ↦ err (session_not_found id)
  | some s ↦ ok (snapshot s)
]

-- The test of the version that `set_options`, `switch_target` and `mutate` share, with the change
-- that each makes; the version goes up by one in all three.
unfoldable pub if_current :
    (Session → Session) → String → ℕ → Exec Manager CoreError SessionSnapshot
unfolding put_session bump
if_current change id expected m = elim (lookup id m.sessions) [
  | none ↦ (err (session_not_found id), m)
  | some s ↦
      if not (s.version == expected) then (err (version_conflict expected s.version), m) else (
        ok (snapshot (record (change s) { version = bump s.version })),
        put_session id (record (change s) { version = bump s.version }) m,
      )
]

add_overrides : Dict String String → Session → Session
add_overrides values s = record s { overrides = extend s.overrides values }

unfoldable pub set_options :
    String → ℕ → Dict String String → Exec Manager CoreError SessionSnapshot
unfolding if_current add_overrides
set_options id expected values = if_current (add_overrides values) id expected

unfoldable pub set_option : String → ℕ → String → String → Exec Manager CoreError SessionSnapshot
unfolding set_options
set_option id expected name value = set_options id expected ((name, value) ∷ [])

replace_target : ResolvedTarget → Session → Session
replace_target t s = record s { target = t; overrides = [] }

unfoldable pub switch_target : String → ℕ → ResolvedTarget → Exec Manager CoreError SessionSnapshot
unfolding if_current replace_target
switch_target id expected t = if_current (replace_target t) id expected

-- The loop over `values`: a value sets an override, and none takes it away.
unfoldable pub apply_values : Dict String String → Dict String (Option String) → Dict String String
apply_values m [] = m
apply_values m ((name, some value) ∷ rest) = insert name value (apply_values m rest)
apply_values m ((name, none) ∷ rest) = remove name (apply_values m rest)

unfoldable pub mutated : Option ResolvedTarget → Dict String (Option String) → Session → Session
unfolding replace_target apply_values
mutated none values s = record s { overrides = apply_values s.overrides values }
mutated (some t) values s = record s { target = t; overrides = apply_values [] values }

unfoldable pub mutate :
    String
    → ℕ
    → Option ResolvedTarget
    → Dict String (Option String)
    → Exec Manager CoreError SessionSnapshot
unfolding if_current mutated
mutate id expected t values = if_current (mutated t values) id expected

unfoldable pub close : String → Exec Manager CoreError (Unit {0})
close id m = elim (lookup id m.sessions) [
  | none ↦ (err (session_not_found id), m)
  | some s ↦ (ok tt, record m { sessions = remove id m.sessions })
]
