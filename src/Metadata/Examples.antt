-- ===== src/Metadata/Examples.antt =====
-- crates/qcli-metadata/src/lib.rs: calls for the catalogs of two targets, with an invalidation.
use conflux_query.Base.{ok, ℕ, ◌+◌, String, ◌≡◌, none, List, [], ◌∷◌, arith}
use conflux_query.Dict.{Dict}
use conflux_query.Metadata.Keys.{MetadataRequest}
use conflux_query.Metadata.{Adapter, Call}
use conflux_query.Metadata.Unbounded.{
  Event, asked, invalidated, ask_catalogs, outcomes, ideal_outcomes,
}
use conflux_query.Metadata.Expiry.{metadata_refines}

abbrev demo : String → Adapter
demo name = record {
  list_catalogs = λ request. ok (record { name = name } ∷ []);
  list_schemas = λ request. ok [];
  list_objects = λ request. ok [];
  describe_object = λ request object. ok [];
}

abbrev call : (now : ℕ) → String → Call
call now name = record { adapters = ("demo", demo name) ∷ []; now = now; later = now + 1 }

abbrev request : String → MetadataRequest
request target = record {
  identity = "u";
  target = target;
  engine = "demo";
  properties = [];
  catalog = none;
  schema = none;
  pattern_text = none;
}

abbrev hash : Dict String String → ℕ
hash properties = 7

abbrev events : List Event
events =
    asked (call 1 "a") (ask_catalogs (request "one"))
    ∷ asked (call 5 "b") (ask_catalogs (request "one"))
    ∷ invalidated "one"
    ∷ asked (call 6 "c") (ask_catalogs (request "one"))
    ∷ asked (call 30 "d") (ask_catalogs (request "one"))
    ∷ []

metadata_refines_example : outcomes 10 hash events [] ≡ ideal_outcomes 10 hash events (λ key. none)
metadata_refines_example =
    metadata_refines 10 hash events (omega arith, (omega arith, (omega arith, (omega arith, tt))))
