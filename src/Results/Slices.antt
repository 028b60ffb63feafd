-- ===== src/Results/Slices.antt =====
-- crates/qcli-service/src/lib.rs: `slice_batches` against the rows of the batches.
use conflux_query.Base.{
  ltb, leb, if◌then◌else◌, Bool-cases, length, take, drop, length-drop, length-append, ◌%◌, take_eq,
  drop_eq, take-nil, drop-nil, take-append, drop-append, take_min_eq, take_none, ℕ, ◌+◌, ◌-◌, ◌≤◌,
  ◌<◌, min, max, ◌≡◌, sym, ap, ap₂, ◌∙◌, inl, inr, List, [], ◌∷◌, ◌++◌, arith,
}
use conflux_query.Results.{usize_max, Arrow, ArrowLaws, slice_from, slice_batches}

module _ {B X R : Type 0} {arrow : Arrow B X} (laws : ArrowLaws arrow R) where
  -- The rows of a result, batch after batch.
  abbrev pub all_rows : List B → List R
  all_rows [] = []
  all_rows (batch ∷ batches) = laws.rows batch ++ all_rows batches

  -- The part of one batch that lies in the window.
  window_of_batch :
      (start end cursor : ℕ) (batch : B)
      → max start cursor < min end (cursor + arrow.num_rows batch)
      → laws.rows (
          arrow.slice batch
            (max start cursor - cursor)
            (min end (cursor + arrow.num_rows batch) - max start cursor))
        ≡ take (end - max start cursor) (drop (start - cursor) (laws.rows batch))
  window_of_batch start end cursor batch h =
      let xs = laws.rows batch in
      let n = laws.length-rows batch in
      let e = cursor + arrow.num_rows batch in
      laws.rows-slice batch _ _ (omega arith)
      ∙ ap (take (min end e - max start cursor))
          (drop_eq (max start cursor - cursor) (start - cursor) xs (omega arith))
      ∙ take_min_eq (min end e - max start cursor) (end - max start cursor)
          (drop (start - cursor) xs) (omega (arith, length-drop (start - cursor) xs, n))

  no_window_of_batch :
      (start end cursor : ℕ) (batch : B)
      → min end (cursor + arrow.num_rows batch) ≤ max start cursor
      → take (end - max start cursor) (drop (start - cursor) (laws.rows batch)) ≡ []
  no_window_of_batch start end cursor batch h =
      let xs = laws.rows batch in
      take_none (end - max start cursor) (drop (start - cursor) xs)
        (omega (arith, length-drop (start - cursor) xs, laws.length-rows batch))

  -- What the loop returns holds the rows of the window that lie at `cursor` or after it.
  all_rows-slice_from :
      (start end cursor : ℕ) (batches : List B)
      → cursor + length (all_rows batches) ≤ usize_max
      → all_rows (slice_from arrow start end cursor batches)
        ≡ take (end - max start cursor) (drop (start - cursor) (all_rows batches))
  unfolding slice_from
  all_rows-slice_from start end cursor [] fits =
      sym (ap (take (end - max start cursor)) (drop-nil (start - cursor)) ∙ take-nil _)
  all_rows-slice_from start end cursor (batch ∷ batches) fits =
      let xs = laws.rows batch in
      let ys = all_rows batches in
      let next = cursor + arrow.num_rows batch in
      let a = end - max start cursor in
      let b = start - cursor in
      let n = laws.length-rows batch in
      let size = length-append {0} xs ys in
      let no_wrap : (cursor + arrow.num_rows batch) % 18446744073709551616 ≡ next =
        omega (arith, n, size, fits) in
      let later = slice_from arrow start end next batches in
      let split : take a (drop b (xs ++ ys))
          ≡ take a (drop b xs) ++ take (end - max start next) (drop (start - next) ys) =
        ap (take a) (drop-append b xs ys)
        ∙ take-append a (drop b xs) (drop (b - length xs) ys)
        ∙ ap (◌++◌ (take a (drop b xs))) (
            ap (take (a - length (drop b xs)))
              (drop_eq (b - length xs) (start - next) ys (omega (arith, n)))
            ∙ take_min_eq (a - length (drop b xs)) (end - max start next) (drop (start - next) ys)
                (omega (arith, n, length-drop b xs))) in
      let rest : all_rows (if leb end next then [] else later)
          ≡ take (end - max start next) (drop (start - next) ys) =
        elim (Bool-cases (leb end next)) [
          | inl stop ↦
              rw stop (
                sym
                  (take_none (end - max start next) (drop (start - next) ys) (inl (ground arith))))
          | inr go ↦
              rw go (all_rows-slice_from start end next batches (omega (arith, n, size, fits)))
        ] in
      rw no_wrap (elim (Bool-cases (ltb (max start cursor) (min end next))) [
        | inl some_rows ↦
            rw some_rows
              (ap₂ ◌++◌ (window_of_batch start end cursor batch (ground arith)) rest ∙ sym split)
        | inr no_rows ↦ rw no_rows (
            rest
            ∙ ap (λ zs. zs ++ take (end - max start next) (drop (start - next) ys))
                (sym (no_window_of_batch start end cursor batch (ground arith)))
            ∙ sym split)
      ])

  -- The rows of `slice_batches` are the rows from `start` on and before `end`, in their order,
  -- whatever batches they stand in, where the rows fit in `usize`.
  pub all_rows-slice_batches :
      (batches : List B) (start end : ℕ)
      → length (all_rows batches) ≤ usize_max
      → all_rows (slice_batches arrow batches start end)
        ≡ take (end - start) (drop start (all_rows batches))
  unfolding slice_batches
  all_rows-slice_batches batches start end fits =
      all_rows-slice_from start end 0 batches (omega arith)
      ∙ take_eq (end - max start 0) (end - start) _ (omega arith)
      ∙ ap (take (end - start)) (drop_eq (start - 0) start (all_rows batches) (omega arith))
