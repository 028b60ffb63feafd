-- ===== src/Dict.antt =====
-- `HashMap` and `BTreeMap` with the standard library's operations, as association lists. The order
-- of entries is not modelled. The keys of a map are distinct; the operations are written so that
-- their laws hold for lists with a repeated key too, whose first entry counts.
pub mod Laws
pub mod Counting
use conflux_query.Base.{
  if◌then◌else◌, Eq, ◌==◌, nat_eq, string_eq, Bool, Option, none, some, List, [], ◌∷◌, map,
}

abbrev pub Dict {ℓ} : Type ℓ → Type ℓ → Type ℓ
Dict K V = List (K × V)

module _ {ℓ} {K V : Type ℓ} ⦃e : Eq K⦄ where
  -- `get`, `get_mut`
  unfoldable pub lookup : K → Dict K V → Option V
  lookup wanted [] = none
  lookup wanted ((key, value) ∷ rest) = if key == wanted then some value else lookup wanted rest

  -- `insert`: an old value is replaced.
  unfoldable pub insert : K → V → Dict K V → Dict K V
  insert key new [] = (key, new) ∷ []
  insert key new ((other, old) ∷ rest) =
      if other == key then (key, new) ∷ rest else (other, old) ∷ insert key new rest

  unfoldable pub remove : K → Dict K V → Dict K V
  remove k [] = []
  remove k ((j, w) ∷ m) = let rest = remove k m in if j == k then rest else (j, w) ∷ rest

  -- `extend`: the entries of the second dictionary win. Its keys are distinct, so the order of the
  -- insertions does not show.
  unfoldable pub extend : Dict K V → Dict K V → Dict K V
  extend m [] = m
  extend m ((k, v) ∷ new) = insert k v (extend m new)

  -- `retain`: a key whose entry is dropped is gone.
  unfoldable pub retain : (K → V → Bool) → Dict K V → Dict K V
  retain p [] = []
  retain p ((j, w) ∷ m) = let rest = retain p m in if p j w then (j, w) ∷ rest else remove j rest

module _ {ℓ} {K V : Type ℓ} where
  -- A change of every value in place, as `values().for_each` makes on shared values.
  unfoldable pub map_values {κ} : {W : Type κ} → (V → W) → List (K × V) → List (K × W)
  map_values f = map λ kv. (kv.0, f kv.1)

  abbrev pub values : Dict K V → List V
  values = map λ kv. kv.1

  abbrev pub keys : Dict K V → List K
  keys = map λ kv. kv.0
