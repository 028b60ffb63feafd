-- ===== src/Results.antt =====
-- crates/qcli-service/src/lib.rs: the retained results of a query, from the batches that arrive to
-- the pages and partitions that are read back.
pub mod Slices
pub mod Pages
pub mod Partitions
pub mod Retention
pub mod Examples
use conflux_query.Base.{
  ltb, leb, if◌then◌else◌, length, take, drop, Result, ok, err, Exec, ◌>>=◌, ℕ, zero, suc, ◌+◌, ◌-◌,
  ◌*◌, ◌/◌, ◌%◌, ◌≤◌, min, max, String, ◌≡◌, Bool, true, false, Option, none, some, List, [], ◌∷◌,
  ◌++◌,
}
use conflux_query.Limits.{ServiceLimits}

-- What the code uses of arrow_array and arrow_schema: `B` is `RecordBatch`, `X` is `SchemaRef`.
pub record Arrow (B X : Type 0) : Type 0 where
  pub num_rows : B → ℕ
  pub schema : B → X
  -- `get_array_memory_size` of each column
  pub column_sizes : B → List ℕ
  -- `RecordBatch::slice(offset, length)`
  pub slice : B → ℕ → ℕ → B
  pub empty_schema : X

-- What is documented of `num_rows` and `slice`, over the rows of a batch.
pub record ArrowLaws {B X : Type 0} (arrow : Arrow B X) (R : Type 0) : Type 0 where
  pub rows : B → List R
  pub length-rows : (b : B) → length (rows b) ≡ arrow.num_rows b
  pub rows-slice :
      (b : B) (offset len : ℕ)
      → offset + len ≤ arrow.num_rows b
      → rows (arrow.slice b offset len) ≡ take len (drop offset (rows b))

abbrev pub usize_max : ℕ
usize_max = 18446744073709551615

abbrev pub saturating_add : ℕ → ℕ → ℕ
saturating_add a b = min (a + b) usize_max

abbrev pub saturating_mul : ℕ → ℕ → ℕ
saturating_mul a b = min (a * b) usize_max

-- `usize += n`, as a release build wraps it.
abbrev pub usize_add : ℕ → ℕ → ℕ
usize_add a b = (a + b) % 18446744073709551616

-- Batches in memory, or in a file; the flag says that the writer of the file is still there. The
-- path of the file is not modelled, its batches are.
pub data ResultStorage (B : Type 0) : Type 0 where
  memory : List B → ResultStorage B
  spill : List B → Bool → ResultStorage B

-- Where an operation on the spill file fails, with the text of its error.
pub record Disk : Type 0 where
  pub open_file : Option String
  pub write_existing : Option String
  pub write_batch : Option String
  pub finish_file : Option String
  pub read_file : Option String

-- The message of a `QueryError` is not modelled.
pub record QueryError : Type 0 where
  pub code : String

-- The part of `QueryData` that `store_batch` writes.
pub record Retained (B X : Type 0) : Type 0 where
  pub rows : ℕ
  pub retained_bytes : ℕ
  pub schema : Option X
  pub storage : ResultStorage B

abbrev pub storage_error : QueryError
storage_error = record { code = "result_storage" }

abbrev pub sum : List ℕ → ℕ
sum [] = 0
sum (n ∷ ns) = n + sum ns

module _ {B : Type 0} where
  -- The last match of `store_batch`.
  unfoldable pub push_batch : Disk → B → ResultStorage B → Result QueryError (ResultStorage B)
  push_batch disk batch (memory batches) = ok (memory (batches ++ batch ∷ []))
  push_batch disk batch (spill written true) = elim disk.write_batch [
    | some _ ↦ err storage_error
    | none ↦ ok (spill (written ++ batch ∷ []) true)
  ]
  push_batch disk batch (spill written false) = err storage_error

module _ {B X : Type 0} where
  -- The move of the batches in memory to a new file. If the existing batches cannot be written,
  -- memory has been emptied already.
  unfoldable pub spill_over :
      Disk → List B → Retained B X → Result QueryError (Unit {0}) × Retained B X
  spill_over disk existing d = elim disk.open_file [
    | some _ ↦ (err storage_error, d)
    | none ↦ elim disk.write_existing [
      | some _ ↦ (err storage_error, record d { storage = memory [] })
      | none ↦ (ok tt, record d { storage = spill existing true })
    ]
  ]

  -- Memory is left when the batch would take it over its limit.
  unfoldable pub make_room :
      Disk → ServiceLimits → ℕ → Retained B X → Result QueryError (Unit {0}) × Retained B X
  unfolding spill_over
  make_room disk limits bytes d = elim d.storage [
    | spill written writer ↦ (ok tt, d)
    | memory existing ↦
        if ltb limits.memory_result_bytes_per_query (saturating_add d.retained_bytes bytes)
        then spill_over disk existing d
        else (ok tt, d)
  ]

  -- The batches of the file are complete once the writer has been taken away and has finished.
  unfoldable pub finish_results : Disk → Exec (Retained B X) QueryError (Unit {0})
  finish_results disk d = elim d.storage [
    | memory batches ↦ (ok tt, d)
    | spill written false ↦ (ok tt, d)
    | spill written true ↦ elim disk.finish_file [
      | none ↦ (ok tt, record d { storage = spill written false })
      | some _ ↦ (err storage_error, record d { storage = spill written false })
    ]
  ]

module _ {B X : Type 0} (arrow : Arrow B X) where
  abbrev pub batch_bytes : B → ℕ
  batch_bytes batch = sum (arrow.column_sizes batch)

  unfoldable pub note_schema : B → Retained B X → Retained B X
  note_schema batch d = elim d.schema [
    | none ↦ record d { schema = some (arrow.schema batch) }
    | some x ↦ d
  ]

  unfoldable pub append_batch :
      Disk → B → Retained B X → Result QueryError (Unit {0}) × Retained B X
  unfolding push_batch
  append_batch disk batch d = elim (push_batch disk batch d.storage) [
    | err e ↦ (err e, d)
    | ok storage ↦ (
      ok tt,
      record {
        rows = usize_add d.rows (arrow.num_rows batch);
        retained_bytes = usize_add d.retained_bytes (batch_bytes batch);
        schema = d.schema;
        storage = storage;
      },
    )
  ]

  unfoldable pub store_batch : Disk → ServiceLimits → B → Exec (Retained B X) QueryError (Unit {0})
  unfolding note_schema make_room append_batch
  store_batch disk limits batch d =
      let noted = note_schema batch d in
      if ltb limits.max_result_bytes_per_query (saturating_add d.retained_bytes (batch_bytes batch))
      then (err (record { code = "result_limit" }), noted)
      else (make_room disk limits (batch_bytes batch) >>= λ _. append_batch disk batch) noted

  -- The loop of `slice_batches`, from the row `cursor` on.
  unfoldable pub slice_from : (start end cursor : ℕ) → List B → List B
  slice_from start end cursor [] = []
  slice_from start end cursor (batch ∷ batches) =
      let batch_end = usize_add cursor (arrow.num_rows batch) in
      let overlap_start = max start cursor in
      let overlap_end = min end batch_end in
      let more = slice_from start end batch_end batches in
      let rest = if leb end batch_end then [] else more in
      if ltb overlap_start overlap_end
      then arrow.slice batch (overlap_start - cursor) (overlap_end - overlap_start) ∷ rest
      else rest

  unfoldable pub slice_batches : List B → (start end : ℕ) → List B
  unfolding slice_from
  slice_batches batches start end = slice_from start end 0 batches

pub record ResultPage (B : Type 0) : Type 0 where
  pub batches : List B
  pub total_rows : ℕ
  pub next_offset : Option ℕ

module _ {B X : Type 0} (arrow : Arrow B X) where
  -- The end of `result_page`, and of `result_page_clustered`, over the batches that are retained.
  unfoldable pub page_of : List B → (rows offset limit : ℕ) → ResultPage B
  unfolding slice_batches
  page_of batches rows offset limit =
      let start = min offset rows in
      let end = min (saturating_add start (max limit 1)) rows in
      record {
        batches = slice_batches arrow batches start end;
        total_rows = rows;
        next_offset = if ltb end rows then some end else none;
      }

-- The range of `result_partition_reader` over the number of batches.
unfoldable pub partition_start : (batches partition partitions : ℕ) → ℕ
partition_start batches partition partitions = saturating_mul batches partition / partitions

pub record ResultBatchReader (B : Type 0) : Type 0 where
  pub source : List B
  pub skip : ℕ
  pub remaining : Option ℕ

module _ {B : Type 0} where
  -- The loop over `skip`: what is left of the source, or none where it ends before.
  skip_batches : ℕ → List B → Option (List B)
  skip_batches zero batches = some batches
  skip_batches (suc n) [] = none
  skip_batches (suc n) (batch ∷ batches) = skip_batches n batches

  take_one : List B → Option ℕ → Option B × ResultBatchReader B
  take_one batches (some zero) = (none, record { source = batches; skip = 0; remaining = some 0 })
  take_one [] remaining = (none, record { source = []; skip = 0; remaining = remaining })
  take_one (batch ∷ rest) (some (suc n)) =
      (some batch, record { source = rest; skip = 0; remaining = some n })
  take_one (batch ∷ rest) none = (some batch, record { source = rest; skip = 0; remaining = none })

  -- `ResultBatchReader::next_batch`, where the file can be read. A source that ends while it is
  -- skipped stays at its end.
  pub next_batch : ResultBatchReader B → Option B × ResultBatchReader B
  unfolding skip_batches take_one
  next_batch r = elim (skip_batches r.skip r.source) [
    | none ↦ (none, record r { source = [] })
    | some batches ↦ take_one batches r.remaining
  ]

  -- A client that reads until there is no more, as `encode_reader` does.
  pub read_all : ℕ → ResultBatchReader B → List B
  unfolding next_batch
  read_all zero r = []
  read_all (suc fuel) r =
      let (batch, r') = next_batch r in
      let rest = read_all fuel r' in elim batch [ none ↦ [] | some b ↦ b ∷ rest ]

  unfoldable pub partition_reader : List B → (partition partitions : ℕ) → ResultBatchReader B
  unfolding partition_start
  partition_reader batches partition partitions =
      let start = partition_start (length batches) partition partitions in
      let end = partition_start (length batches) (partition + 1) partitions in
      record { source = batches; skip = start; remaining = some (end - start) }
