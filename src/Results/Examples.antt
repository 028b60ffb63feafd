-- ===== src/Results/Examples.antt =====
-- crates/qcli-service/src/lib.rs: retained results on concrete batches. A batch is the list of its
-- rows, and a row takes eight bytes.
use conflux_query.Base.{
  ltb, if◌then◌else◌, length, take, drop, ok, ℕ, ◌-◌, ◌*◌, ◌≤◌, ◌<◌, ◌≡◌, refl, true, none, some,
  List, [], ◌∷◌, ◌++◌, arith,
}
use conflux_query.Limits.{ServiceLimits, default_limits}
use conflux_query.Results.{
  Arrow, ArrowLaws, memory, spill, Retained, store_batch, page_of, usize_max, note_schema,
  make_room, spill_over, append_batch, push_batch,
}
use conflux_query.Results.Slices.{all_rows}
use conflux_query.Results.Pages.{follow_pages, row_count, page_lem, follow_pages_lem}
use conflux_query.Results.Partitions.{read_partitions, read_partitions_lem}
use conflux_query.Results.Retention.{stored, sound_disk, IsRetained, store_batch_lem}

abbrev pub lists : Arrow (List ℕ) (Unit {0})
lists = record {
  num_rows = length;
  schema = λ b. tt;
  column_sizes = λ b. 8 * length b ∷ [];
  slice = λ b offset len. take len (drop offset b);
  empty_schema = tt;
}

lists_laws : ArrowLaws lists ℕ
lists_laws = record { rows = λ b. b; length-rows = λ b. refl; rows-slice = λ b offset len h. refl }

abbrev three : List (List ℕ)
three = (1 ∷ 2 ∷ []) ∷ [] ∷ (3 ∷ 4 ∷ 5 ∷ []) ∷ []

few_rows : row_count lists_laws three ≤ usize_max
unfolding lists_laws
few_rows = omega arith

page_lem_example :
    let page = page_of lists three (row_count lists_laws three) 3 2 in
    (all_rows lists_laws page.batches ≡ take 2 (drop 3 (all_rows lists_laws three)))
    × (page.next_offset ≡ (if ltb 5 (row_count lists_laws three) then some 5 else none))
page_lem_example = page_lem lists_laws three 3 2 few_rows

enough_fuel : row_count lists_laws three - 0 < 6
unfolding lists_laws
enough_fuel = omega arith

follow_pages_lem_example :
    (all : List (List ℕ)) × (follow_pages lists 6 three (row_count lists_laws three) 0 2 ≡ some all)
    × (all_rows lists_laws all ≡ drop 0 (all_rows lists_laws three))
follow_pages_lem_example = follow_pages_lem lists_laws 6 three 0 2 few_rows enough_fuel

read_partitions_lem_example : read_partitions three 0 2 2 ≡ three
read_partitions_lem_example = read_partitions_lem three 2 (omega arith) (omega arith)

abbrev small_limits : ServiceLimits
small_limits = record default_limits {
  memory_result_bytes_per_query = 20;
  max_result_bytes_per_query = 100;
}

abbrev two_rows : Retained (List ℕ) (Unit {0})
two_rows = record {
  rows = 2;
  retained_bytes = 16;
  schema = some tt;
  storage = memory ((1 ∷ 2 ∷ []) ∷ []);
}

-- The second batch does not fit in memory, so both go to the file.
abbrev spilled : Retained (List ℕ) (Unit {0})
spilled = record {
  rows = 3;
  retained_bytes = 24;
  schema = some tt;
  storage = spill ((1 ∷ 2 ∷ []) ∷ (3 ∷ []) ∷ []) true;
}

two_rows-IsRetained : IsRetained lists small_limits two_rows
two_rows-IsRetained = record {
  within = omega arith;
  light = omega arith;
  sized = refl;
  counted = refl;
}

store_run : store_batch lists sound_disk small_limits (3 ∷ []) two_rows ≡ (ok tt, spilled)
unfolding store_batch note_schema make_room spill_over append_batch push_batch
store_run = refl

store_batch_lem_example :
    (stored spilled.storage ≡ stored two_rows.storage ++ (3 ∷ []) ∷ [])
    × IsRetained lists small_limits spilled
store_batch_lem_example =
    store_batch_lem lists sound_disk small_limits (3 ∷ []) two_rows spilled (omega arith)
      two_rows-IsRetained store_run
