-- ===== src/Gateway/Reading.antt =====
-- crates/qcli-service/src/lib.rs: what a client reads of the results of its query. A file that has
-- been written can be read: the errors of reading it are not modelled here.
use conflux_query.Base.{
  leb, if◌then◌else◌, ◌==◌, nat_eq, string_eq, length, Result, ok, err, pure, lift, ◌>>=◌, ◌>>◌, ℕ,
  ◌+◌, ◌-◌, String, Bool, true, false, ◌||◌, Option, none, some, List, [],
}
use conflux_query.Driver.{QueryState, completed, cancelled}
use conflux_query.Results.{
  ResultStorage, memory, spill, ResultPage, page_of, ResultBatchReader, partition_start,
}
use conflux_query.Record.{QueryData, is_terminal}
use conflux_query.Gateway.{
  Setup, Principal, ServiceError, failed_precondition, invalid_argument, upstream, Action, error,
}
use conflux_query.Gateway.Queries.{owned_record}

abbrev pub query_running : ServiceError
query_running = error failed_precondition "query_running"

-- `data.state != "completed"`
abbrev pub is_completed : QueryState → Bool
is_completed completed = true
is_completed _ = false

-- `matches!(data.state.as_str(), "completed" | "cancelled")`
abbrev pub is_readable : QueryState → Bool
is_readable completed = true
is_readable cancelled = true
is_readable _ = false

-- The batches of a storage that nothing is being written to.
abbrev pub closed_batches : {B : Type 0} → ResultStorage B → Result ServiceError (List B)
closed_batches (memory batches) = ok batches
closed_batches (spill batches true) = err query_running
closed_batches (spill batches false) = ok batches

module _ {B X : Type 0} where
  unfoldable pub check_readable :
      (QueryState → Bool) → QueryData B X → List B → Result ServiceError (List B)
  check_readable readable d batches = elim d.error [
    | some e ↦ err (error failed_precondition e.code)
    | none ↦ if readable d.state then ok batches else err query_running
  ]

  unfoldable pub count_batches : QueryData B X → Result ServiceError ℕ
  count_batches d =
      if is_completed d.state
      then elim (closed_batches d.retained.storage) [
        | ok batches ↦ ok (length batches)
        | err e ↦ err e
      ]
      else err query_running

  unfoldable pub page_source : QueryData B X → Result ServiceError (List B)
  unfolding check_readable
  page_source d = elim (closed_batches d.retained.storage) [
    | err e ↦ err e
    | ok batches ↦ check_readable is_terminal d batches
  ]

  -- The tests of `result_reader_range` come before it looks at the storage.
  unfoldable pub reader_source : QueryData B X → Result ServiceError (List B)
  unfolding check_readable
  reader_source d = elim (check_readable is_readable d []) [
    | err e ↦ err e
    | ok none_yet ↦ closed_batches d.retained.storage
  ]

  unfoldable pub check_partition : (partition partitions : ℕ) → Action B X (Unit {0})
  check_partition partition partitions g =
      if (partitions == 0) || leb partitions partition
      then (err (error invalid_argument "invalid_result_partition"), g)
      else (ok tt, g)

module _ {B X : Type 0} (setup : Setup B X) where
  unfoldable pub schema_of : QueryData B X → Result ServiceError X
  schema_of d = elim d.error [
    | some e ↦ err (error upstream e.code)
    | none ↦ elim d.retained.schema [
      | some x ↦ ok x
      | none ↦ if is_terminal d.state then ok setup.arrow.empty_schema else err query_running
    ]
  ]

module _ {B X : Type 0} (setup : Setup B X) (now : ℕ) where
  unfoldable pub result_page : Principal → String → (offset limit : ℕ) → Action B X (ResultPage B)
  unfolding owned_record page_source page_of
  result_page p query_id offset limit = do
    r ← owned_record setup now p query_id
    batches ← lift (page_source r.details)
    pure (page_of setup.arrow batches r.details.retained.rows offset limit)

  unfoldable pub result_batch_count : Principal → String → Action B X ℕ
  unfolding owned_record count_batches
  result_batch_count p query_id = do
    r ← owned_record setup now p query_id
    lift (count_batches r.details)

  unfoldable pub result_reader_range :
      Principal → String → (skip : ℕ) → (remaining : Option ℕ) → Action B X (ResultBatchReader B)
  unfolding owned_record reader_source
  result_reader_range p query_id skip remaining = do
    r ← owned_record setup now p query_id
    batches ← lift (reader_source r.details)
    pure (record { source = batches; skip = skip; remaining = remaining })

  unfoldable pub result_reader : Principal → String → Action B X (ResultBatchReader B)
  unfolding result_reader_range
  result_reader p query_id = result_reader_range p query_id 0 none

  unfoldable pub result_partition_reader :
      Principal → String → (partition partitions : ℕ) → Action B X (ResultBatchReader B)
  unfolding check_partition result_batch_count partition_start result_reader_range
  result_partition_reader p query_id partition partitions = do
    check_partition partition partitions
    batches ← result_batch_count p query_id
    let start = partition_start batches partition partitions
    let end = partition_start batches (partition + 1) partitions
    result_reader_range p query_id start (some (end - start))

  unfoldable pub query_schema : Principal → String → Action B X X
  unfolding owned_record schema_of
  query_schema p query_id = do
    r ← owned_record setup now p query_id
    lift (schema_of setup r.details)
