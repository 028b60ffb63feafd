-- ===== src/Session/Examples.antt =====
-- crates/qcli-core/src/lib.rs: the session manager on concrete sessions.
use conflux_query.Base.{
  string_eq, nat_eq, eq_iff_eq, length, ok, err, ℕ, zero, suc, String, ◌≡◌, refl, ◌≢◌, ◌↔◌, true,
  false, none, some, List, [], ◌∷◌, arith,
}
use conflux_query.Dict.{lookup, insert, remove, extend}
use conflux_query.Target.{ResolvedTarget}
use conflux_query.Session.{
  Session, Manager, Surroundings, version_conflict, bump, snapshot, put_session, snapshot_of,
  set_options, switch_target, mutate, mutated, if_current, apply_values, close,
  create_with_overrides, add_overrides, replace_target,
}
use conflux_query.Session.Ids.{SessionIdState}
use conflux_query.Session.Edits.{Edit, options, retarget, apply_edit, edit_once, edit_done}
use conflux_query.Session.Hydration.{mutate_lem}
use conflux_query.Session.Collisions.{Request, creates, same_id_after_98}

abbrev pub lake : ResolvedTarget
lake = record {
  name = "lake";
  engine = "trino";
  properties =
      ("user", record { value = "ann"; secret = false })
      ∷ ("password", record { value = "x"; secret = true })
      ∷ [];
}

abbrev warehouse : ResolvedTarget
warehouse = record { name = "warehouse"; engine = "spark"; properties = [] }

abbrev pub ann_session : Session
ann_session = record { id = "s1"; version = 1; target = lake; overrides = ("catalog", "raw") ∷ [] }

abbrev pub two_sessions : Manager
two_sessions = record {
  sessions =
      ("s1", ann_session)
      ∷ ("s2", record { id = "s2"; version = 7; target = warehouse; overrides = [] })
      ∷ [];
  ids = record { minute = "202401010900"; counter = 2 };
}

abbrev edited : Session
edited = record ann_session { version = 2; overrides = ("catalog", "raw") ∷ ("limit", "5") ∷ [] }

abbrev after_edit : Manager
after_edit = record two_sessions {
  sessions =
      ("s1", edited)
      ∷ ("s2", record { id = "s2"; version = 7; target = warehouse; overrides = [] })
      ∷ [];
}

abbrev limit_edit : Edit
limit_edit = options (("limit", "5") ∷ [])

edit_run : apply_edit limit_edit "s1" 1 two_sessions ≡ (ok (snapshot edited), after_edit)
unfolding apply_edit set_options if_current add_overrides extend insert lookup put_session bump
edit_run = refl

stale_run :
    apply_edit (retarget warehouse) "s2" 1 two_sessions ≡ (err (version_conflict 1 7), two_sessions)
unfolding apply_edit switch_target if_current replace_target lookup
stale_run = refl

edit_once_example :
    apply_edit (retarget warehouse) "s1" 1 after_edit
    ≡ (err (version_conflict 1 (snapshot edited).version), after_edit)
edit_once_example =
    edit_once limit_edit (retarget warehouse) "s1" 1 two_sessions after_edit (snapshot edited)
      edit_run

edit_done_example :
    ((snapshot edited).version ≡ 2)
    × (snapshot_of "s1" after_edit ≡ ok (snapshot edited))
    × ((other : String)
        → other ≢ "s1"
        → lookup other after_edit.sessions ≡ lookup other two_sessions.sessions)
edit_done_example = edit_done limit_edit "s1" 1 two_sessions after_edit (snapshot edited) edit_run

engines_differ : (snapshot ann_session).engine ≢ "spark"
unfolding snapshot
engines_differ h = ground (arith, eq_iff_eq {A = String} "trino" "spark")

abbrev moved : Session
moved = record { id = "s1"; version = 2; target = warehouse; overrides = ("limit", "5") ∷ [] }

mutate_run :
    mutate "s1" 1 (some warehouse) (("limit", some "5") ∷ ("catalog", none) ∷ []) two_sessions
    ≡ (ok (snapshot moved), put_session "s1" moved two_sessions)
unfolding mutate if_current mutated apply_values insert remove lookup put_session bump
mutate_run = refl

mutate_lem_example :
    (s : Session) × (lookup "s1" two_sessions.sessions ≡ some s)
    × ((snapshot moved).target ≡ "warehouse")
    × ((name : String)
        → lookup name (snapshot moved).overrides
          ≡ (elim (lookup name (("limit", some "5") ∷ ("catalog", none) ∷ [])) [
            | none ↦ none
            | some value ↦ value
          ]))
mutate_lem_example =
    mutate_lem "s1" 1 (some warehouse) (("limit", some "5") ∷ ("catalog", none) ∷ []) two_sessions
      (put_session "s1" moved two_sessions) (snapshot moved) mutate_run

abbrev after_close : Manager
after_close = record two_sessions {
  sessions = ("s2", record { id = "s2"; version = 7; target = warehouse; overrides = [] }) ∷ [];
}

close_run : close "s1" two_sessions ≡ (ok tt, after_close)
unfolding close lookup remove
close_run = refl

abbrev pub morning : Surroundings
morning = record { user = some "bob"; username = none; minute = "202401010900" }

abbrev request : Request
request = (lake, [])

abbrev repeated : ℕ → List Request
repeated zero = []
repeated (suc n) = request ∷ repeated n

-- The hundredth session of a minute and the first.
same_id_after_98_example :
    let m₁ = (create_with_overrides morning lake [] two_sessions).1 in
    ((create_with_overrides morning lake [] (creates morning (repeated 98) m₁)).0.id
      ≡ (create_with_overrides morning lake [] two_sessions).0.id)
    ↔ (length (repeated 98) ≡ 98)
same_id_after_98_example =
    same_id_after_98 morning request request (repeated 98) two_sessions refl (omega arith)

abbrev started : SessionIdState
started = record { minute = "202401010900"; counter = 40 }
