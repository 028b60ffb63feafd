-- ===== src/Results/Retention.antt =====
-- crates/qcli-service/src/lib.rs: `store_batch` and `finish_results`, within the limits of a query.
use conflux_query.Base.{
  ltb, if◌then◌else◌, Bool-cases, ok, err, bind-ok, ℕ, ◌+◌, ◌%◌, ◌≤◌, ◌<◌, ◌≡◌, sym, ap, ◌∙◌, subst,
  ◌≢◌, inl, inr, true, none, List, [], ◌∷◌, ◌++◌, arith,
}
use conflux_query.Limits.{ServiceLimits}
use conflux_query.Results.{
  Arrow, ResultStorage, memory, spill, Disk, Retained, batch_bytes, note_schema, make_room,
  append_batch, store_batch, usize_max, saturating_add,
}

abbrev pub stored : {B : Type 0} → ResultStorage B → List B
stored (memory batches) = batches
stored (spill written writer) = written

-- A disk on which nothing fails.
abbrev pub sound_disk : Disk
sound_disk = record {
  open_file = none;
  write_existing = none;
  write_batch = none;
  finish_file = none;
  read_file = none;
}

-- What is in memory fits there.
abbrev pub FitsMemory : {B : Type 0} → ServiceLimits → ResultStorage B → ℕ → Type 0
FitsMemory limits (memory batches) bytes = bytes ≤ limits.memory_result_bytes_per_query
FitsMemory limits (spill written writer) bytes = Unit

abbrev pub IsOpen : {B : Type 0} → ResultStorage B → Type 0
IsOpen (memory batches) = Unit
IsOpen (spill written writer) = writer ≡ true

module _ {B X : Type 0} (arrow : Arrow B X) where
  abbrev pub total_bytes : List B → ℕ
  total_bytes [] = 0
  total_bytes (b ∷ bs) = batch_bytes arrow b + total_bytes bs

  abbrev pub total_rows : List B → ℕ
  total_rows [] = 0
  total_rows (b ∷ bs) = arrow.num_rows b + total_rows bs

  total_bytes-append :
      (as' bs : List B) → total_bytes (as' ++ bs) ≡ total_bytes as' + total_bytes bs
  total_bytes-append [] bs = omega arith
  total_bytes-append (a ∷ as') bs = omega (arith, total_bytes-append as' bs)

  total_rows-append : (as' bs : List B) → total_rows (as' ++ bs) ≡ total_rows as' + total_rows bs
  total_rows-append [] bs = omega arith
  total_rows-append (a ∷ as') bs = omega (arith, total_rows-append as' bs)

  -- The counters tell what is stored, within both limits.
  pub record IsRetained (limits : ServiceLimits) (d : Retained B X) : Type 0 where
    pub within : d.retained_bytes ≤ limits.max_result_bytes_per_query
    pub light : FitsMemory limits d.storage d.retained_bytes
    pub sized : d.retained_bytes ≡ total_bytes (stored d.storage)
    pub counted : d.rows ≡ total_rows (stored d.storage) % 18446744073709551616

  make_room-ok :
      (disk : Disk) (limits : ServiceLimits) (bytes : ℕ) (d d' : Retained B X)
      → make_room disk limits bytes d ≡ (ok tt, d')
      → (stored d'.storage ≡ stored d.storage)
        × (d'.rows ≡ d.rows)
        × (d'.retained_bytes ≡ d.retained_bytes)
        × (d.retained_bytes + bytes ≤ limits.max_result_bytes_per_query
            → limits.max_result_bytes_per_query < usize_max
            → FitsMemory limits d'.storage (d.retained_bytes + bytes))
  unfolding make_room
  make_room-ok disk limits bytes d d' h = ground arith

  append_batch-ok :
      (disk : Disk) (batch : B) (d d' : Retained B X)
      → append_batch arrow disk batch d ≡ (ok tt, d')
      → (stored d'.storage ≡ stored d.storage ++ batch ∷ [])
        × (d'.rows ≡ (d.rows + arrow.num_rows batch) % 18446744073709551616)
        × (d'.retained_bytes ≡ (d.retained_bytes + batch_bytes arrow batch) % 18446744073709551616)
  unfolding append_batch
  append_batch-ok disk batch d d' h = ground arith

  append_batch-memory :
      (disk : Disk) (limits : ServiceLimits) (batch : B) (d d' : Retained B X)
      → append_batch arrow disk batch d ≡ (ok tt, d')
      → FitsMemory limits d.storage (d.retained_bytes + batch_bytes arrow batch)
      → d.retained_bytes + batch_bytes arrow batch ≤ usize_max
      → FitsMemory limits d'.storage d'.retained_bytes
  unfolding append_batch
  append_batch-memory disk limits batch d d' h fits small = ground arith

  -- The two parts of a successful `store_batch`.
  store_batch-parts :
      (disk : Disk) (limits : ServiceLimits) (batch : B) (d d' : Retained B X)
      → store_batch arrow disk limits batch d ≡ (ok tt, d')
      → (saturating_add d.retained_bytes (batch_bytes arrow batch)
          ≤ limits.max_result_bytes_per_query)
        × (mid : Retained B X) × (make_room disk limits
              (batch_bytes arrow batch)
              (note_schema arrow batch d)
            ≡ (ok tt, mid))
        × (append_batch arrow disk batch mid ≡ (ok tt, d'))
  unfolding store_batch
  store_batch-parts disk limits batch d d' h =
      let over =
        ltb limits.max_result_bytes_per_query
          (saturating_add d.retained_bytes (batch_bytes arrow batch)) in
      elim (Bool-cases over) [
        | inl yes_over ↦ absurd (ground arith)
        | inr fits ↦
            let (_, mid, made, appended) =
              bind-ok (make_room disk limits (batch_bytes arrow batch))
                (λ _. append_batch arrow disk batch) (note_schema arrow batch d) tt d'
                (rw fits at h) in
            (ground arith, mid, made, appended)
      ]

  note_schema-keeps :
      (batch : B) (d : Retained B X)
      → ((note_schema arrow batch d).storage ≡ d.storage)
        × ((note_schema arrow batch d).rows ≡ d.rows)
        × ((note_schema arrow batch d).retained_bytes ≡ d.retained_bytes)
  unfolding note_schema
  note_schema-keeps batch d = ground arith

  -- From a state whose counters tell what is stored, within both limits, and with a limit below
  -- the end of `usize`: a batch that is taken stands behind those that were there, in memory or on
  -- disk, and the counters and both limits hold again.
  pub store_batch_lem :
      (disk : Disk) (limits : ServiceLimits) (batch : B) (d d' : Retained B X)
      → limits.max_result_bytes_per_query < usize_max
      → IsRetained limits d
      → store_batch arrow disk limits batch d ≡ (ok tt, d')
      → (stored d'.storage ≡ stored d.storage ++ batch ∷ []) × IsRetained limits d'
  store_batch_lem disk limits batch d d' small inv h =
      let (fits, mid, made, appended) = store_batch-parts disk limits batch d d' h in
      let (noted, noted_rows, noted_bytes) = note_schema-keeps batch d in
      let bytes = batch_bytes arrow batch in
      let (kept, rows, size, light) =
        make_room-ok disk limits bytes (note_schema arrow batch d) mid made in
      let (pushed, new_rows, new_size) = append_batch-ok disk batch mid d' appended in
      let path : stored d'.storage ≡ stored d.storage ++ batch ∷ [] =
        pushed ∙ ap (λ xs. xs ++ batch ∷ []) (kept ∙ ap stored noted) in
      (
        path,
        record {
          within = omega arith;
          light =
              append_batch-memory disk limits batch mid d' appended
                (subst (λ n. FitsMemory limits mid.storage (n + bytes)) (sym size)
                  (light (omega arith) small))
                (omega arith);
          sized =
              omega
                (arith, ap total_bytes path, total_bytes-append (stored d.storage) (batch ∷ []));
          counted =
              omega (arith, ap total_rows path, total_rows-append (stored d.storage) (batch ∷ []));
        },
      )

  -- On a sound disk, and while the file is being written, a batch is refused exactly where it would
  -- take the query over its limit; then the code is `result_limit`, and nothing is stored.
  pub store_batch_decides :
      (limits : ServiceLimits) (batch : B) (d : Retained B X)
      → IsOpen d.storage
      → ((store_batch arrow sound_disk limits batch d).0 ≡ (
          if ltb limits.max_result_bytes_per_query
            (saturating_add d.retained_bytes (batch_bytes arrow batch))
          then err (record { code = "result_limit" })
          else ok tt))
        × ((store_batch arrow sound_disk limits batch d).0 ≢ ok tt
            → ((store_batch arrow sound_disk limits batch d).1.storage ≡ d.storage)
              × ((store_batch arrow sound_disk limits batch d).1.rows ≡ d.rows))
  unfolding store_batch
  store_batch_decides limits batch d op = ground arith
