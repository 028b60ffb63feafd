-- ===== src/Driver.antt =====
-- crates/qcli-driver-api/src/lib.rs: what the gateway and the engine adapters exchange.
-- `B` is the type of Arrow record batches and `X` that of Arrow schemas, which come from the crates
-- arrow_array and arrow_schema.
use conflux_query.Base.{ℕ, String, Bool, Option}
use conflux_query.Dict.{Dict}

pub data QueryState : Type 0 where
  submitted running producing_results completed cancelling cancelled failed : QueryState

pub record QueryProgress : Type 0 where
  pub state : Option String
  pub scheduled : Option Bool
  pub completed_splits : Option ℕ
  pub total_splits : Option ℕ
  pub processed_rows : Option ℕ
  pub processed_bytes : Option ℕ
  pub elapsed_millis : Option ℕ

pub data QueryEvent : Type 0 where
  state_event : QueryState → QueryEvent
  engine_query_id : String → QueryEvent
  rows_produced : ℕ → QueryEvent
  progress : QueryProgress → QueryEvent
  session_properties : Dict String String → QueryEvent

pub record DriverError : Type 0 where
  pub code : String
  pub message : String

pub data AdapterCapability : Type 0 where
  stream_results cancel_query list_catalogs list_schemas list_objects describe_object
        prepared_statements typed_parameters statement_updates bulk_ingest :
      AdapterCapability

pub record PreparedStatementMetadata (X : Type 0) : Type 0 where
  pub dataset_schema : X
  pub parameter_schema : X
