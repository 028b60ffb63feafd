-- ===== src/Dict/Counting.antt =====
-- How many values of a dictionary pass a test, after each operation.
use conflux_query.Base.{
  if◌then◌else◌, Eq, nat_eq, string_eq, length, count_by, ℕ, ◌+◌, ◌≤◌, ◌≡◌, refl, Bool, Option,
  none, some, [], ◌∷◌, arith,
}
use conflux_query.Dict.{Dict, lookup, insert, remove, retain, map_values, values}

-- `values().filter(p).count()`
abbrev pub count_values {ℓ} : {K V : Type ℓ} → (V → Bool) → Dict K V → ℕ
count_values p m = count_by p (values m)

abbrev pub tally {ℓ} : {V : Type ℓ} → (V → Bool) → Option V → ℕ
tally p none = 0
tally p (some v) = if p v then 1 else 0

abbrev pub present {ℓ} : {V : Type ℓ} → Option V → ℕ
present none = 0
present (some v) = 1

module _ {ℓ} {K V : Type ℓ} ⦃e : Eq K⦄ where
  pub count-insert :
      (p : V → Bool) (k : K) (v : V) (m : Dict K V)
      → count_values p (insert k v m) + tally p (lookup k m)
        ≡ count_values p m + (if p v then 1 else 0)
  unfolding lookup insert
  count-insert p k v [] = ground arith
  count-insert p k v ((j, w) ∷ m) = ground (arith, count-insert p k v m)

  pub count-remove :
      (p : V → Bool) (k : K) (m : Dict K V) → count_values p (remove k m) ≤ count_values p m
  unfolding remove
  count-remove p k [] = omega arith
  count-remove p k ((j, w) ∷ m) = ground (arith, count-remove p k m)

  pub count-retain :
      (p : V → Bool) (q : K → V → Bool) (m : Dict K V)
      → count_values p (retain q m) ≤ count_values p m
  unfolding retain
  count-retain p q [] = omega arith
  count-retain p q ((j, w) ∷ m) = ground (arith, count-retain p q m, count-remove p j (retain q m))

  pub length-insert :
      (k : K) (v : V) (m : Dict K V) → length (insert k v m) + present (lookup k m) ≡ length m + 1
  unfolding lookup insert
  length-insert k v [] = ground arith
  length-insert k v ((j, w) ∷ m) = ground (arith, length-insert k v m)

  pub length-remove : (k : K) (m : Dict K V) → length (remove k m) ≤ length m
  unfolding remove
  length-remove k [] = omega arith
  length-remove k ((j, w) ∷ m) = ground (arith, length-remove k m)

  pub length-retain : (q : K → V → Bool) (m : Dict K V) → length (retain q m) ≤ length m
  unfolding retain
  length-retain q [] = omega arith
  length-retain q ((j, w) ∷ m) = ground (arith, length-retain q m, length-remove j (retain q m))

module _ {ℓ} {K V : Type ℓ} where
  pub length-map_values :
      {W : Type ℓ} (f : V → W) (m : Dict K V) → length (map_values f m) ≡ length m
  unfolding map_values
  length-map_values f [] = refl
  length-map_values f (kv ∷ m) = omega (arith, length-map_values f m)

  pub count-map_values :
      {W : Type ℓ} (p : W → Bool) (f : V → W) (m : Dict K V)
      → count_values p (map_values f m) ≡ count_values (λ v. p (f v)) m
  unfolding map_values
  count-map_values p f [] = refl
  count-map_values p f (kv ∷ m) = ground (arith, count-map_values p f m)
