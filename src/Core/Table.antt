-- ===== src/Core/Table.antt =====
-- `map[core.Target]V` as an association list. Its order stands for the order of iteration, of which
-- Go promises nothing; the theorems hold for every order.
use gobetween.Base.{
  ◌≡◌, refl, inl, inr, Bool, false, Option, none, some, List, [], ◌∷◌, if◌then◌else◌, arith,
  Bool-cases,
}
use mathlib.Core.Option
use gobetween.Core.{Target, ◌=t◌, =t_iff}

module _ {ℓ} {V : Type ℓ} where
  -- `m[t]`, with `ok`.
  unfoldable pub lookup : Target → List (Target × V) → Option V
  lookup t [] = none
  lookup t ((u, v) ∷ m) = if u =t t then some v else lookup t m

  -- `m[t] = v`.
  unfoldable pub insert : Target → V → List (Target × V) → List (Target × V)
  insert t v [] = (t, v) ∷ []
  insert t v ((u, w) ∷ m) = if u =t t then (u, v) ∷ m else (u, w) ∷ insert t v m

  unfoldable pub map_values : (V → V) → List (Target × V) → List (Target × V)
  map_values f [] = []
  map_values f ((t, v) ∷ m) = (t, f v) ∷ map_values f m

  -- Keeps the entries whose value passes.
  unfoldable pub keep_values : (V → Bool) → List (Target × V) → List (Target × V)
  keep_values p [] = []
  keep_values p ((t, v) ∷ m) = if p v then (t, v) ∷ keep_values p m else keep_values p m

  -- No key twice: what a Go map is.
  abbrev pub IsTable : List (Target × V) → Type ℓ
  IsTable [] = Unit
  IsTable ((t, v) ∷ m) = (lookup t m ≡ none) × IsTable m

  pub lookup-insert :
      (t u : Target) (v : V) (m : List (Target × V))
      → lookup u (insert t v m) ≡ (if t =t u then some v else lookup u m)
  unfolding lookup insert
  lookup-insert t u v [] = refl
  lookup-insert t u v ((k, w) ∷ m) =
      ground (arith, =t_iff t u, =t_iff k t, =t_iff k u, lookup-insert t u v m)

  pub lookup-map_values :
      (f : V → V) (t : Target) (m : List (Target × V))
      → lookup t (map_values f m) ≡ Option.map f (lookup t m)
  unfolding lookup map_values
  lookup-map_values f t [] = refl
  lookup-map_values f t ((u, v) ∷ m) = ground (arith, lookup-map_values f t m)

  abbrev pub only_if : (V → Bool) → Option V → Option V
  only_if p none = none
  only_if p (some v) = if p v then some v else none

  pub lookup-keep_values :
      (p : V → Bool) (t : Target) (m : List (Target × V))
      → IsTable m
      → lookup t (keep_values p m) ≡ only_if p (lookup t m)
  unfolding lookup keep_values
  lookup-keep_values p t [] h = refl
  lookup-keep_values p t ((u, v) ∷ m) h =
      ground (arith, =t_iff u t, lookup-keep_values p t m h.1, lookup-keep_values p u m h.1)

  pub insert-IsTable :
      (t : Target) (v : V) (m : List (Target × V)) → IsTable m → IsTable (insert t v m)
  unfolding insert lookup
  insert-IsTable t v [] h = (refl, tt)
  insert-IsTable t v ((u, w) ∷ m) h = elim (Bool-cases (u =t t)) [
    | inl e ↦ rw e h
    | inr e ↦ rw e (absent e, insert-IsTable t v m h.1)
  ]
    where
      absent : (u =t t) ≡ false → lookup u (insert t v m) ≡ none
      absent e = ground (arith, lookup-insert t u v m, =t_iff t u, =t_iff u t)

  pub map_values-IsTable :
      (f : V → V) (m : List (Target × V)) → IsTable m → IsTable (map_values f m)
  unfolding map_values
  map_values-IsTable f [] h = tt
  map_values-IsTable f ((t, v) ∷ m) h =
      (rw (lookup-map_values f t m, h.0), map_values-IsTable f m h.1)

  pub keep_values-IsTable :
      (p : V → Bool) (m : List (Target × V)) → IsTable m → IsTable (keep_values p m)
  unfolding keep_values
  keep_values-IsTable p [] h = tt
  keep_values-IsTable p ((t, v) ∷ m) h = elim (Bool-cases (p v)) [
    | inl e ↦ rw e (rw (lookup-keep_values p t m h.1, h.0), keep_values-IsTable p m h.1)
    | inr e ↦ rw e (keep_values-IsTable p m h.1)
  ]
