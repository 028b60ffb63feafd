-- ===== src/Base/Windows.antt =====
-- `take` and `drop` of an append: windows of a list.
use Prim.Native.Nat.{ℕ, zero, suc, ◌+◌, ◌-◌, ◌≤◌}
use mathlib.Core.Path.{◌≡◌, refl, sym, ap, ◌∙◌}
use mathlib.Core.List.{List, [], ◌∷◌, ◌++◌}
use mathlib.Core.Logic.{◌⊎◌, inl, inr}
use native.Mathlib.Omega.{arith}
use conflux_query.Base.Lists.{length, take, drop}

module _ {ℓ} {A : Type ℓ} where
  pub take_eq : (j k : ℕ) (xs : List A) → j ≡ k → take j xs ≡ take k xs
  take_eq j k xs e = ap (λ n. take n xs) e

  pub drop_eq : (j k : ℕ) (xs : List A) → j ≡ k → drop j xs ≡ drop k xs
  drop_eq j k xs e = ap (λ n. drop n xs) e

module _ {ℓ} {A : Type ℓ} where
  pub take-nil : (k : ℕ) → take {A = A} k [] ≡ []
  take-nil zero = refl
  take-nil (suc k) = refl

  pub drop-nil : (k : ℕ) → drop {A = A} k [] ≡ []
  drop-nil zero = refl
  drop-nil (suc k) = refl

module _ {ℓ} {A : Type ℓ} where
  pub take-append :
      (k : ℕ) (xs ys : List A) → take k (xs ++ ys) ≡ take k xs ++ take (k - length xs) ys
  take-append zero [] ys = refl
  take-append zero (x ∷ xs) ys = take_eq 0 (0 - length (x ∷ xs)) ys (omega arith)
  take-append (suc k) [] ys = take_eq (suc k) (suc k - 0) ys (omega arith)
  take-append (suc k) (x ∷ xs) ys = ap (◌∷◌ x) (
      take-append k xs ys
      ∙ ap (◌++◌ (take k xs)) (take_eq (k - length xs) (suc k - suc (length xs)) ys (omega arith)))

  pub drop-append :
      (k : ℕ) (xs ys : List A) → drop k (xs ++ ys) ≡ drop k xs ++ drop (k - length xs) ys
  drop-append zero [] ys = refl
  drop-append zero (x ∷ xs) ys =
      ap (◌++◌ (x ∷ xs)) (drop_eq 0 (0 - suc (length xs)) ys (omega arith))
  drop-append (suc k) [] ys = drop_eq (suc k) (suc k - 0) ys (omega arith)
  drop-append (suc k) (x ∷ xs) ys =
      drop-append k xs ys
      ∙ ap (◌++◌ (drop k xs)) (drop_eq (k - length xs) (suc k - suc (length xs)) ys (omega arith))

  pub take_all : (k : ℕ) (xs : List A) → length xs ≤ k → take k xs ≡ xs
  take_all zero [] h = refl
  take_all zero (x ∷ xs) h = absurd (omega arith)
  take_all (suc k) [] h = refl
  take_all (suc k) (x ∷ xs) h = ap (◌∷◌ x) (take_all k xs (omega arith))

  pub drop_all : (k : ℕ) (xs : List A) → length xs ≤ k → drop k xs ≡ []
  drop_all zero [] h = refl
  drop_all zero (x ∷ xs) h = absurd (omega arith)
  drop_all (suc k) [] h = refl
  drop_all (suc k) (x ∷ xs) h = drop_all k xs (omega arith)

  pub drop-drop : (j k : ℕ) (xs : List A) → drop j (drop k xs) ≡ drop (k + j) xs
  drop-drop j zero xs = drop_eq j (0 + j) xs (omega arith)
  drop-drop j (suc k) [] = drop-nil j ∙ sym (drop-nil (suc k + j))
  drop-drop j (suc k) (x ∷ xs) =
      drop-drop j k xs ∙ drop_eq (suc (k + j)) (suc k + j) (x ∷ xs) (omega arith)

  -- Two windows side by side are one.
  pub take-drop-append : (j k : ℕ) (xs : List A) → take j xs ++ take k (drop j xs) ≡ take (j + k) xs
  take-drop-append zero k xs = take_eq k (0 + k) xs (omega arith)
  take-drop-append (suc j) k [] = take-nil k ∙ sym (take-nil (suc j + k))
  take-drop-append (suc j) k (x ∷ xs) =
      ap (◌∷◌ x) (take-drop-append j k xs)
      ∙ take_eq (suc (j + k)) (suc j + k) (x ∷ xs) (omega arith)

module _ {ℓ} {A : Type ℓ} where
  -- `take` sees no further than the end of the list.
  pub take_min_eq :
      (j k : ℕ) (xs : List A)
      → (j ≡ k) ⊎ ((length xs ≤ j) × (length xs ≤ k))
      → take j xs ≡ take k xs
  take_min_eq j k xs (inl e) = take_eq j k xs e
  take_min_eq j k xs (inr (p, q)) = take_all j xs p ∙ sym (take_all k xs q)

  pub take_none : (k : ℕ) (xs : List A) → (k ≡ 0) ⊎ (length xs ≡ 0) → take k xs ≡ []
  take_none k xs (inl e) = take_eq k 0 xs e
  take_none k [] (inr e) = take-nil k
  take_none k (x ∷ xs) (inr e) = absurd (omega arith)

  pub drop_min_eq :
      (j k : ℕ) (xs : List A)
      → (j ≡ k) ⊎ ((length xs ≤ j) × (length xs ≤ k))
      → drop j xs ≡ drop k xs
  drop_min_eq j k xs (inl e) = drop_eq j k xs e
  drop_min_eq j k xs (inr (p, q)) = drop_all j xs p ∙ sym (drop_all k xs q)
