-- ===== src/Results/Partitions.antt =====
-- crates/qcli-service/src/lib.rs: reading a result by partitions.
use native.Mathlib.Nat.{le-div_iff_mul-le, div-mul-le_self, mul-le-mul_left, mul-div_cancel}
use conflux_query.Base.{
  length, take, drop, length-drop, take_eq, drop_eq, take-nil, take_all, drop_all, drop-drop,
  take-drop-append, take_none, ℕ, zero, suc, ◌+◌, ◌-◌, ◌*◌, ◌/◌, ◌≤◌, ◌<◌, min, ◌≡◌, refl, sym, ap,
  ap₂, ◌∙◌, inl, Option, none, some, List, [], ◌∷◌, ◌++◌, arith, dec_le,
}
use conflux_query.Results.{
  ResultBatchReader, skip_batches, next_batch, read_all, partition_start, partition_reader,
  usize_max,
}

div_mono : (a b c : ℕ) → 0 < c → a ≤ b → a / c ≤ b / c
div_mono a b c pos h = (le-div_iff_mul-le pos).1 (omega (arith, div-mul-le_self a c))

module _ {B : Type 0} where
  skip_batches-some : (k : ℕ) (xs : List B) → k ≤ length xs → skip_batches k xs ≡ some (drop k xs)
  unfolding skip_batches
  skip_batches-some zero xs h = refl
  skip_batches-some (suc k) [] h = absurd (omega arith)
  skip_batches-some (suc k) (x ∷ xs) h = skip_batches-some k xs (omega arith)

  skip_batches-none : (k : ℕ) (xs : List B) → length xs < k → skip_batches k xs ≡ none
  unfolding skip_batches
  skip_batches-none zero xs h = absurd (omega arith)
  skip_batches-none (suc k) [] h = refl
  skip_batches-none (suc k) (x ∷ xs) h = skip_batches-none k xs (omega arith)

  abbrev at_front : List B → ℕ → ResultBatchReader B
  at_front xs n = record { source = xs; skip = 0; remaining = some n }

  read_front :
      (fuel : ℕ) (xs : List B) (n : ℕ)
      → length xs < fuel
      → read_all fuel (at_front xs n) ≡ take n xs
  unfolding read_all
  read_front zero xs n h = absurd (omega arith)
  read_front (suc fuel) [] zero h = refl
  read_front (suc fuel) [] (suc n) h = refl
  read_front (suc fuel) (x ∷ xs) zero h = refl
  read_front (suc fuel) (x ∷ xs) (suc n) h = ap (◌∷◌ x) (read_front fuel xs n (omega arith))

  next_batch-skip :
      (xs : List B) (k n : ℕ)
      → k ≤ length xs
      → next_batch (record { source = xs; skip = k; remaining = some n })
        ≡ next_batch (at_front (drop k xs) n)
  unfolding next_batch
  next_batch-skip xs k n h = rw (skip_batches-some k xs h, next_batch) refl

  next_batch-end :
      (xs : List B) (k n : ℕ)
      → length xs < k
      → (next_batch (record { source = xs; skip = k; remaining = some n })).0 ≡ none
  unfolding next_batch
  next_batch-end xs k n h = rw (skip_batches-none k xs h, next_batch) refl

  -- A reader with a limit gives, after the batches that it skips, as many as the limit says.
  pub read_all_lem :
      (fuel : ℕ) (xs : List B) (k n : ℕ)
      → length xs < fuel
      → read_all fuel (record { source = xs; skip = k; remaining = some n }) ≡ take n (drop k xs)
  unfolding read_all
  read_all_lem zero xs k n h = absurd (omega arith)
  read_all_lem (suc fuel) xs k n h = elim (dec_le k (length xs)) [
    | yes inside ↦
        ap {B = List B}
          (λ (p : Option B × ResultBatchReader B). elim p.0 [
            | none ↦ []
            | some b ↦ b ∷ read_all fuel p.1
          ])
          (next_batch-skip xs k n inside)
        ∙ read_front (suc fuel) (drop k xs) n (omega (arith, length-drop k xs))
    | no outside ↦ ground (arith, next_batch-end xs k n, drop_all k xs, take-nil {A = B} n)
  ]

  -- The batches of `k` partitions from `partition` on, each read to its end.
  pub read_partitions : List B → (partition k partitions : ℕ) → List B
  read_partitions batches partition zero partitions = []
  read_partitions batches partition (suc k) partitions =
      read_all (suc (length batches)) (partition_reader batches partition partitions)
      ++ read_partitions batches (partition + 1) k partitions

-- No product overflows while there are no more partitions than fit.
start_mono :
    (l p q parts : ℕ)
    → 0 < parts
    → p ≤ q
    → q ≤ parts
    → l * parts ≤ usize_max
    → partition_start l p parts ≤ partition_start l q parts
unfolding partition_start
start_mono l p q parts pos h last fits =
    let a : l * q ≤ l * parts = mul-le-mul_left l last in
    let b : l * p ≤ l * q = mul-le-mul_left l h in
    div_mono (min (l * p) usize_max) (min (l * q) usize_max) parts pos (omega arith)

start_first : (l parts : ℕ) → partition_start l 0 parts ≡ 0
unfolding partition_start
start_first l parts = omega arith

start_last : (l parts : ℕ) → 0 < parts → l * parts ≤ usize_max → partition_start l parts parts ≡ l
unfolding partition_start
start_last l parts pos fits =
    let e : min (l * parts) usize_max ≡ l * parts = omega arith in
    ap (λ n. n / parts) e ∙ mul-div_cancel l pos

module _ {B : Type 0} where
  partitions_from :
      (xs : List B) (k p parts : ℕ)
      → p + k ≤ parts
      → 0 < parts
      → length xs * parts ≤ usize_max
      → read_partitions xs p k parts
        ≡ take
            (partition_start (length xs) (p + k) parts - partition_start (length xs) p parts)
            (drop (partition_start (length xs) p parts) xs)
  unfolding read_partitions partition_reader
  partitions_from xs zero p parts h pos fits =
      let e : p + 0 ≡ p = omega arith in
      sym (
        take_none _ (drop (partition_start (length xs) p parts) xs)
          (inl (omega (arith, ap (λ n. partition_start (length xs) n parts) e))))
  partitions_from xs (suc k) p parts h pos fits =
      let l = length xs in
      let here = partition_start l p parts in
      let next = partition_start l (p + 1) parts in
      let last = partition_start l (p + 1 + k) parts in
      let up = start_mono l p (p + 1) parts pos (omega arith) (omega arith) fits in
      let on = start_mono l (p + 1) (p + 1 + k) parts pos (omega arith) (omega arith) fits in
      let e : p + 1 + k ≡ p + suc k = omega arith in
      ap₂ ◌++◌ (read_all_lem (suc l) xs here (next - here) (omega arith)) (
        partitions_from xs k (p + 1) parts (omega arith) pos fits
        ∙ ap (take (last - next)) (
            drop_eq next (here + (next - here)) xs (omega arith)
            ∙ sym (drop-drop (next - here) here xs)))
      ∙ take-drop-append (next - here) (last - next) (drop here xs)
      ∙ take_eq (next - here + (last - next)) (partition_start l (p + suc k) parts - here)
          (drop here xs) (omega (arith, ap (λ n. partition_start l n parts) e))

  -- The partitions of a result, at least one, each read to its end and one after the other, give
  -- every batch once and in order, as long as the product of batches and partitions fits in a
  -- `usize`.
  pub read_partitions_lem :
      (xs : List B) (parts : ℕ)
      → 0 < parts
      → length xs * parts ≤ usize_max
      → read_partitions xs 0 parts parts ≡ xs
  read_partitions_lem xs parts pos fits =
      let e : 0 + parts ≡ parts = omega arith in
      let first = start_first (length xs) parts in
      partitions_from xs parts 0 parts (omega arith) pos fits
      ∙ take_all _ (drop (partition_start (length xs) 0 parts) xs) (
          omega (
            arith,
            start_last (length xs) parts pos fits,
            ap (λ n. partition_start (length xs) n parts) e,
            length-drop (partition_start (length xs) 0 parts) xs,
          ))
      ∙ drop_eq (partition_start (length xs) 0 parts) 0 xs first
