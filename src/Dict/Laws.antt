-- ===== src/Dict/Laws.antt =====
-- What `lookup` returns after each operation on a dictionary.
use mathlib.Core.Option
use conflux_query.Base.{
  if◌then◌else◌, Eq, ◌==◌, nat_eq, string_eq, eq_iff_eq, ◌≡◌, refl, Bool, Option, none, some, [],
  ◌∷◌, arith,
}
use conflux_query.Dict.{Dict, lookup, insert, remove, extend, retain, map_values}

module _ {ℓ} {V : Type ℓ} where
  abbrev pub or_else : Option V → Option V → Option V
  or_else none b = b
  or_else (some a) b = some a

  abbrev pub filter_option : (V → Bool) → Option V → Option V
  filter_option p none = none
  filter_option p (some a) = if p a then some a else none

module _ {ℓ} {K V : Type ℓ} ⦃e : Eq K⦄ where
  pub lookup-insert :
      (key wanted : K) (new : V) (m : Dict K V)
      → lookup wanted (insert key new m) ≡ (if key == wanted then some new else lookup wanted m)
  unfolding lookup insert
  lookup-insert key wanted new [] = refl
  lookup-insert key wanted new ((i, w) ∷ rest) = ground (
    arith,
    eq_iff_eq i wanted,
    eq_iff_eq i key,
    eq_iff_eq key wanted,
    lookup-insert key wanted new rest,
  )

  pub lookup-remove :
      (k j : K) (m : Dict K V) → lookup j (remove k m) ≡ (if k == j then none else lookup j m)
  unfolding lookup remove
  lookup-remove k j [] = ground arith
  lookup-remove k j ((i, w) ∷ m) =
      ground (arith, eq_iff_eq k j, eq_iff_eq i k, eq_iff_eq i j, lookup-remove k j m)

  pub lookup-extend :
      (j : K) (m new : Dict K V) → lookup j (extend m new) ≡ or_else (lookup j new) (lookup j m)
  unfolding lookup extend
  lookup-extend j m [] = refl
  lookup-extend j m ((k, v) ∷ new) =
      ground (arith, lookup-insert k j v (extend m new), lookup-extend j m new)

  pub lookup-retain :
      (p : K → V → Bool) (j : K) (m : Dict K V)
      → lookup j (retain p m) ≡ filter_option (p j) (lookup j m)
  unfolding lookup retain
  lookup-retain p j [] = refl
  lookup-retain p j ((k, v) ∷ m) =
      ground (arith, eq_iff_eq k j, lookup-remove k j (retain p m), lookup-retain p j m)

  pub lookup-map_values :
      {W : Type ℓ} (f : V → W) (j : K) (m : Dict K V)
      → lookup j (map_values f m) ≡ Option.map f (lookup j m)
  unfolding lookup map_values
  lookup-map_values f j [] = refl
  lookup-map_values f j ((k, v) ∷ m) = ground (arith, lookup-map_values f j m)

pub ruleset dict_laws = (lookup-insert, lookup-remove, lookup-extend, lookup-retain)
