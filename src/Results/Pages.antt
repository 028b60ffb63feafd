-- ===== src/Results/Pages.antt =====
-- crates/qcli-service/src/lib.rs: the pages of a result, and a client that follows `next_offset`.
use conflux_query.Base.{
  ltb, if◌then◌else◌, Bool-cases, length, take, drop, length-drop, take-append-drop, take_all,
  drop-drop, take_min_eq, drop_min_eq, ℕ, zero, suc, ◌+◌, ◌-◌, ◌≤◌, ◌<◌, min, max, ◌≡◌, refl, sym,
  ap, ap₂, ◌∙◌, inl, inr, Option, none, some, List, [], ◌∷◌, ◌++◌, arith,
}
use conflux_query.Results.{Arrow, ArrowLaws, page_of, saturating_add, usize_max}
use mathlib.Core.List.{append_assoc}
use conflux_query.Results.Slices.{all_rows, all_rows-slice_batches}

module _ {B X : Type 0} (arrow : Arrow B X) where
  -- A client that asks for a page, and for the next one while there is an offset for it. `none`
  -- means that the fuel ran out.
  pub follow_pages : ℕ → List B → (rows offset limit : ℕ) → Option (List B)
  follow_pages zero batches rows offset limit = none
  follow_pages (suc fuel) batches rows offset limit =
      let page = page_of arrow batches rows offset limit in
      elim page.next_offset [
        | none ↦ some page.batches
        | some next ↦ elim (follow_pages fuel batches rows next limit) [
          | none ↦ none
          | some more ↦ some (page.batches ++ more)
        ]
      ]

module _ {B X R : Type 0} {arrow : Arrow B X} (laws : ArrowLaws arrow R) where
  all_rows-append :
      (cs bs : List B) → all_rows laws (cs ++ bs) ≡ all_rows laws cs ++ all_rows laws bs
  all_rows-append [] bs = refl
  all_rows-append (a ∷ cs) bs =
      ap (◌++◌ (laws.rows a)) (all_rows-append cs bs) ∙ sym (append_assoc (laws.rows a) _ _)

  abbrev pub row_count : List B → ℕ
  row_count batches = length (all_rows laws batches)

  -- Where the rows of a result can be counted in a `usize`: a page starts at its offset, or at the
  -- end of the result where the offset is beyond it. It holds as many rows as the limit allows,
  -- one at least, and the next offset is where it ends; there is none exactly when it ends with
  -- the result.
  pub page_lem :
      (batches : List B) (offset limit : ℕ)
      → row_count batches ≤ usize_max
      → let page = page_of arrow batches (row_count batches) offset limit in
        (all_rows laws page.batches ≡ take (max limit 1) (drop offset (all_rows laws batches)))
        × (page.next_offset ≡ (
            if ltb (offset + max limit 1) (row_count batches)
            then some (offset + max limit 1)
            else none))
  unfolding page_of
  page_lem batches offset limit fits =
      let xs = all_rows laws batches in
      let rows = length xs in
      let start = min offset rows in
      let end = min (saturating_add start (max limit 1)) rows in
      (
        all_rows-slice_batches laws batches start end fits
            ∙ ap (take (end - start)) (drop_min_eq start offset xs (omega arith))
            ∙ take_min_eq (end - start) (max limit 1) (drop offset xs)
                (omega (arith, length-drop offset xs)),
        ground arith,
      )

  -- Where the rows of a result can be counted in a `usize`, and with fuel for one page more than
  -- there are rows left, a client that follows the pages from some offset comes to an end, and has
  -- every row from there on once, in order.
  pub follow_pages_lem :
      (fuel : ℕ) (batches : List B) (offset limit : ℕ)
      → row_count batches ≤ usize_max
      → row_count batches - offset < fuel
      → (all : List B) × (follow_pages arrow fuel batches (row_count batches) offset limit
          ≡ some all)
        × (all_rows laws all ≡ drop offset (all_rows laws batches))
  unfolding follow_pages
  follow_pages_lem zero batches offset limit fits enough = absurd (omega arith)
  follow_pages_lem (suc fuel) batches offset limit fits enough =
      let xs = all_rows laws batches in
      let page = page_of arrow batches (row_count batches) offset limit in
      let size = max limit 1 in
      let (here, next) = page_lem batches offset limit fits in
      elim (Bool-cases (ltb (offset + size) (length xs))) [
        | inl more ↦
            let on : page.next_offset ≡ some (offset + size) = next ∙ rw more in
            let (rest, found, rows) =
              follow_pages_lem fuel batches (offset + size) limit fits (ground arith) in
            (
              page.batches ++ rest,
              rw (on, follow_pages) (rw (found, follow_pages)),
              all_rows-append page.batches rest
                  ∙ ap₂ ◌++◌ here (rows ∙ sym (drop-drop size offset xs))
                  ∙ take-append-drop size (drop offset xs),
            )
        | inr last ↦
            let off : page.next_offset ≡ none = next ∙ rw last in
            (
              page.batches,
              rw (off, follow_pages),
              here ∙ take_all size (drop offset xs) (ground (arith, length-drop offset xs)),
            )
      ]
