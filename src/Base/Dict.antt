-- ===== src/Base/Dict.antt =====
-- `map[string]V` as an association list. Its order stands for the order of iteration, of which Go
-- promises nothing.
use mathlib.Core.Path.{◌≡◌, refl, ap}
use mathlib.Core.Logic.{inl, inr}
use mathlib.Core.Bool.{Bool, true, false}
use mathlib.Core.Option.{Option, none, some}
use mathlib.Core.List.{List, [], ◌∷◌, ◌++◌}
use Prim.Native.String.{String}
use native.Mathlib.Omega.{arith}
use text.Mathlib.TextEquality.{eq_iff}
use gobetween.Base.Tests.{Bool-cases, ◌=s◌, if◌then◌else◌}

abbrev pub Dict {ℓ} : Type ℓ → Type ℓ
Dict V = List (String × V)

-- Whether a name is on a list.
unfoldable pub listed : String → List String → Bool
listed k [] = false
listed k (j ∷ js) = if j =s k then true else listed k js

module _ {ℓ} {V : Type ℓ} where
  -- `m[k]`, with `ok`.
  unfoldable pub find : String → Dict V → Option V
  find k [] = none
  find k ((j, v) ∷ m) = if j =s k then some v else find k m

  -- `m[k] = v`
  unfoldable pub set : String → V → Dict V → Dict V
  set k v [] = (k, v) ∷ []
  set k v ((j, w) ∷ m) = if j =s k then (j, v) ∷ m else (j, w) ∷ set k v m

  -- `delete(m, k)`
  unfoldable pub erase : String → Dict V → Dict V
  erase k [] = []
  erase k ((j, v) ∷ m) = if j =s k then erase k m else (j, v) ∷ erase k m

  pub find-set :
      (k j : String) (v : V) (m : Dict V)
      → find j (set k v m) ≡ (if k =s j then some v else find j m)
  unfolding find set
  find-set k j v [] = refl
  find-set k j v ((i, w) ∷ m) = ground (arith, eq_iff k j, eq_iff i k, eq_iff i j, find-set k j v m)

  pub find-erase :
      (k j : String) (m : Dict V) → find j (erase k m) ≡ (if k =s j then none else find j m)
  unfolding find erase
  find-erase k j [] = ground arith
  find-erase k j ((i, w) ∷ m) = ground (arith, eq_iff k j, eq_iff i k, eq_iff i j, find-erase k j m)

  -- No name twice.
  abbrev pub IsUnique : Dict V → Type ℓ
  IsUnique [] = Unit
  IsUnique ((k, v) ∷ m) = (find k m ≡ none) × IsUnique m

  pub set-absent :
      (k : String) (v : V) (m : Dict V) → find k m ≡ none → set k v m ≡ m ++ ((k, v) ∷ [])
  unfolding find set
  set-absent k v [] h = refl
  set-absent k v ((j, w) ∷ m) h = elim (Bool-cases (j =s k)) [
    | inl t ↦ absurd (ground arith)
    | inr f ↦ rw f (ap (λ x. (j, w) ∷ x) (set-absent k v m (rw f at h)))
  ]

  pub set-IsUnique : (k : String) (v : V) (m : Dict V) → IsUnique m → IsUnique (set k v m)
  unfolding find set
  set-IsUnique k v [] u = (refl, tt)
  set-IsUnique k v ((j, w) ∷ m) u = elim (Bool-cases (j =s k)) [
    | inl t ↦ rw t u
    | inr f ↦
        rw f
          ((ground (arith, eq_iff k j, eq_iff j k, find-set k j v m, u.0), set-IsUnique k v m u.1))
  ]

  pub erase-IsUnique : (k : String) (m : Dict V) → IsUnique m → IsUnique (erase k m)
  unfolding find erase
  erase-IsUnique k [] u = u
  erase-IsUnique k ((j, w) ∷ m) u = elim (Bool-cases (j =s k)) [
    | inl t ↦ rw t (erase-IsUnique k m u.1)
    | inr f ↦ rw f ((ground (arith, eq_iff k j, find-erase k j m, u.0), erase-IsUnique k m u.1))
  ]
