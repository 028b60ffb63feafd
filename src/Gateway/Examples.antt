-- ===== src/Gateway/Examples.antt =====
-- crates/qcli-service/src/lib.rs: a gateway with two sessions and one query.
use mathlib.Core.Option
use conflux_query.Base.{
  string_eq, nat_eq, eq_iff_eq, length, ok, err, ℕ, ◌-◌, ◌≤◌, ◌<◌, String, ◌≡◌, refl, ◌≢◌, true,
  false, none, some, List, [], ◌∷◌, arith,
}
use conflux_query.Dict.{lookup, remove, retain, map_values}
use conflux_query.Dict.Laws.{filter_option}
use conflux_query.Limits.{default_limits}
use conflux_query.Driver.{completed, submitted}
use conflux_query.Session.{SessionSnapshot, close, snapshot, create_with_overrides}
use conflux_query.Session.Examples.{lake, two_sessions, morning, ann_session}
use conflux_query.Results.{memory}
use conflux_query.Results.Examples.{lists}
use conflux_query.Record.{QueryRecord, QueryStatus, query_status}
use conflux_query.Gateway.{
  require_session_owner, error, invalid_argument, Gateway, Setup, Principal, SessionOwner,
  can_use_target, ensure_available, audit, authorized_target, enforce_session_quota, owned_sessions,
  enforce_query_quota, active_queries,
}
use conflux_query.Gateway.Cleanup.{
  cleanup_expired, record_fresh, expired_prepared_sessions, drop_statements, expire_sessions,
  expire_session, drop_records, expired_sessions, cancel_session, drop_session,
}
use conflux_query.Gateway.Sessions.{
  close_session, on_sessions, forget_session, create_session, open_session, session,
}
use conflux_query.Gateway.Queries.{
  submit_in_new_session, cancel, submit_query, check_sql, check_records, check_adapter, register,
  new_record, cancelled_record,
}
use conflux_query.Gateway.Reading.{query_running, page_source, count_batches, reader_source}
use conflux_query.Gateway.Expiry.{calm, cleanup_expired-records, cleanup_expired-session_owners}
use conflux_query.Gateway.Access.{
  NotOwned, NotTheirs, query_not_found, session_missing, queries_private, sessions_private,
}
use conflux_query.Gateway.Quotas.{create_session_quota, submit_query_quota}
use conflux_query.Gateway.Closing.{IsClosed, close_session_lem, refused_query_closes}
use conflux_query.Gateway.Cancellation.{cancelled_record-unreadable, open_session_exclusive}

abbrev pub setup : Setup (List ℕ) (Unit {0})
setup = record {
  config = record { defaults = []; targets = ("lake", lake) ∷ [] };
  limits = default_limits;
  query_adapters = "trino" ∷ [];
  capabilities = [];
  arrow = lists;
  same_schema = λ x y. true;
}

abbrev pub ann : Principal
ann = record {
  id = "ann";
  allowed_targets = "lake" ∷ [];
  max_sessions = 2;
  max_concurrent_queries = 1;
}

abbrev pub bob : Principal
bob = record ann { id = "bob"; allowed_targets = "*" ∷ [] }

abbrev ended_query : QueryRecord (List ℕ) (Unit {0})
ended_query = record {
  id = "q1";
  owner = "ann";
  session_id = "s1";
  session_version = 1;
  target = "lake";
  engine = "trino";
  cancel = false;
  details = record {
    state = completed;
    engine_query_id = none;
    retained = record {
      rows = 2;
      retained_bytes = 16;
      schema = some tt;
      storage = memory ((1 ∷ 2 ∷ []) ∷ []);
    };
    events = [];
    next_event_id = 1;
    error = none;
    completed_at = some 1700000;
  };
}

abbrev pub gateway : Gateway (List ℕ) (Unit {0})
gateway = record {
  sessions = two_sessions;
  session_owners =
      ("s1", record { principal = "ann"; last_access = 1000000 })
      ∷ ("s2", record { principal = "bob"; last_access = 10 })
      ∷ [];
  records = ("q1", ended_query) ∷ [];
  prepared = [];
  audits = [];
  shutting_down = false;
}

cleanup_expired-records_example :
    Option.map calm (lookup "q1" (cleanup_expired default_limits 9000000 gateway).records)
    ≡ Option.map calm
        (filter_option (record_fresh default_limits 9000000) (lookup "q1" gateway.records))
cleanup_expired-records_example = cleanup_expired-records default_limits 9000000 "q1" gateway

abbrev ann_owns : SessionOwner
ann_owns = record { principal = "ann"; last_access = 1000000 }

left : lookup "s1" (cleanup_expired default_limits 1900000 gateway).session_owners ≡ some ann_owns
unfolding cleanup_expired expired_prepared_sessions drop_statements expire_sessions expire_session
    drop_records expired_sessions cancel_session drop_session audit close lookup remove retain
    map_values
left = refl

cleanup_expired-session_owners_example :
    (1900000 - ann_owns.last_access < default_limits.session_ttl)
    × (lookup "s1" gateway.session_owners ≡ some ann_owns)
cleanup_expired-session_owners_example =
    cleanup_expired-session_owners default_limits 1900000 "s1" ann_owns gateway left

bob-NotOwned : NotOwned bob "q1" gateway
unfolding lookup
bob-NotOwned r found e = ground (arith, found, e, eq_iff_eq {A = String} "ann" "bob")

queries_private_example :
    cancel setup 1800000 bob "q1" gateway
    ≡ (err query_not_found, cleanup_expired setup.limits 1800000 gateway)
queries_private_example = (queries_private setup 1800000 bob "q1" gateway bob-NotOwned).1

bob-NotTheirs : NotTheirs bob "s1" gateway
unfolding lookup
bob-NotTheirs o found e = ground (arith, found, e, eq_iff_eq {A = String} "ann" "bob")

sessions_private_example : session 1800000 bob "s1" gateway ≡ (err session_missing, gateway)
sessions_private_example = (sessions_private setup 1800000 bob "s1" gateway bob-NotTheirs refl).0

abbrev pub created : SessionSnapshot
created = (create_with_overrides morning lake [] two_sessions).0

abbrev with_session : Gateway (List ℕ) (Unit {0})
with_session = (create_session setup 1800000 morning ann "lake" [] gateway).1

create_run : create_session setup 1800000 morning ann "lake" [] gateway ≡ (ok created, with_session)
unfolding create_session ensure_available cleanup_expired expired_prepared_sessions drop_statements
    expire_sessions expire_session drop_records expired_sessions cancel_session drop_session audit
    close lookup remove retain map_values enforce_session_quota owned_sessions authorized_target
    can_use_target open_session
create_run = refl

create_session_quota_example : owned_sessions ann with_session ≤ 2
create_session_quota_example =
    create_session_quota setup 1800000 morning ann "lake" [] gateway with_session created create_run

abbrev accepted : QueryStatus
accepted = query_status (new_record {B = List ℕ} {X = Unit {0}} "7f" ann (snapshot ann_session))

abbrev with_query : Gateway (List ℕ) (Unit {0})
with_query = (submit_query setup 1800000 "7f" ann (snapshot ann_session) "select 1" gateway).1

submit_run :
    submit_query setup 1800000 "7f" ann (snapshot ann_session) "select 1" gateway
    ≡ (ok accepted, with_query)
unfolding submit_query ensure_available check_sql cleanup_expired expired_prepared_sessions
    drop_statements expire_sessions expire_session drop_records expired_sessions cancel_session
    drop_session audit close lookup remove retain map_values enforce_query_quota active_queries
    check_records check_adapter register snapshot
submit_run = refl

submit_query_quota_example :
    (active_queries ann with_query ≤ 1)
    × (length with_query.records ≤ 128)
    × (lookup accepted.id with_query.records ≡ some (new_record "7f" ann (snapshot ann_session)))
    × (accepted.state ≡ submitted)
submit_query_quota_example =
    submit_query_quota setup 1800000 "7f" ann (snapshot ann_session) "select 1" gateway with_query
      accepted submit_run

cancelled_record-unreadable_example :
    (page_source (cancelled_record 1800000 ended_query).details ≡ err query_running)
    × (count_batches (cancelled_record 1800000 ended_query).details ≡ err query_running)
    × (reader_source (cancelled_record 1800000 ended_query).details ≡ err query_running)
cancelled_record-unreadable_example = cancelled_record-unreadable 1800000 ended_query refl

names_differ : bob.id ≢ ann.id
names_differ h = ground (arith, h, eq_iff_eq {A = String} "bob" "ann")

open_session_exclusive_example :
    let g' = (open_session 1800000 morning ann lake [] gateway).1 in
    ((session 1800000 ann created.id g').0 ≡ ok created)
    × (session 1800000 bob created.id g' ≡ (err session_missing, g'))
open_session_exclusive_example =
    open_session_exclusive 1800000 morning ann bob lake [] gateway names_differ

abbrev without_session : Gateway (List ℕ) (Unit {0})
without_session = (close_session 1800000 ann "s1" gateway).1

closing_run : close_session 1800000 ann "s1" gateway ≡ (ok tt, without_session)
unfolding close_session require_session_owner cancel_session on_sessions close forget_session audit
    lookup
closing_run = refl

close_session_lem_example : IsClosed "s1" without_session
close_session_lem_example =
    (close_session_lem 1800000 ann "s1" gateway without_session closing_run).0

abbrev refused : Gateway (List ℕ) (Unit {0})
refused = (submit_in_new_session setup 1800000 "7f" ann (snapshot ann_session) "" gateway).1

refused_run :
    submit_in_new_session setup 1800000 "7f" ann (snapshot ann_session) "" gateway
    ≡ (err (error invalid_argument "invalid_sql_size"), refused)
unfolding submit_in_new_session submit_query ensure_available check_sql
refused_run = refl

refused_query_closes_example :
    (lookup "s1" refused.sessions.sessions ≡ none) × (lookup "s1" refused.session_owners ≡ none)
unfolding snapshot
refused_query_closes_example =
    refused_query_closes setup 1800000 "7f" ann (snapshot ann_session) ""
      (error invalid_argument "invalid_sql_size") gateway refused refused_run
