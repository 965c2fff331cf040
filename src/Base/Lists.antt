-- ===== src/Base/Lists.antt =====
-- Lists measured and indexed by native numbers, and predicates on lists by recursion.
use Prim.Native.Nat.{ℕ, zero, suc, ◌+◌, ◌<◌}
use mathlib.Core.Path.{◌≡◌, refl, sym, subst}
use mathlib.Core.Logic.{◌⊎◌, inl, inr}
use mathlib.Core.Bool.{Bool, true, false}
use mathlib.Core.List.{List, [], ◌∷◌, ◌++◌}
use mathlib.Core.Option.{Option, none, some}
use native.Mathlib.Omega.{arith}
use gobetween.Base.Tests.{if◌then◌else◌, Bool-cases}

module _ {ℓ} {A : Type ℓ} where
  abbrev pub length : List A → ℕ
  length [] = 0
  length (x ∷ xs) = suc (length xs)

  abbrev pub get_elem? : List A → ℕ → Option A
  get_elem? [] i = none
  get_elem? (x ∷ xs) zero = some x
  get_elem? (x ∷ xs) (suc i) = get_elem? xs i

  abbrev pub is_empty : List A → Bool
  is_empty [] = true
  is_empty (x ∷ xs) = false

  -- The elements that pass a test, in order.
  abbrev pub keep : (A → Bool) → List A → List A
  keep p [] = []
  keep p (x ∷ xs) = if p x then x ∷ keep p xs else keep p xs

  pub length-append : (xs ys : List A) → length (xs ++ ys) ≡ length xs + length ys
  length-append [] ys = omega arith
  length-append (x ∷ xs) ys = omega (arith, length-append xs ys)

  pub get_elem?_total : (xs : List A) (i : ℕ) → i < length xs → (x : A) × (get_elem? xs i ≡ some x)
  get_elem?_total [] i h = elim h [ ]
  get_elem?_total (x ∷ xs) zero h = (x, refl)
  get_elem?_total (x ∷ xs) (suc i) h = get_elem?_total xs i (omega arith)

module _ {ℓ} {A : Type ℓ} where
  pub get_elem?-last : (xs : List A) (a : A) → get_elem? (xs ++ (a ∷ [])) (length xs) ≡ some a
  get_elem?-last [] a = refl
  get_elem?-last (x ∷ xs) a = get_elem?-last xs a

module _ {ℓ κ} {A : Type ℓ} where
  abbrev pub All : (A → Type κ) → List A → Type κ
  All P [] = Unit
  All P (x ∷ xs) = P x × All P xs

module _ {ℓ κ} {A : Type ℓ} (P : A → Type κ) where
  pub All_of : ((x : A) → P x) → (xs : List A) → All P xs
  All_of h [] = tt
  All_of h (x ∷ xs) = (h x, All_of h xs)

-- Membership, by recursion, so that the tactics read it.
abbrev pub Member : {A : Type 0} → A → List A → Type 0
Member a [] = ⊥
Member a (x ∷ xs) = (a ≡ x) ⊎ Member a xs

module _ {A : Type 0} where
  pub get_elem?-Member : (xs : List A) (i : ℕ) {x : A} → get_elem? xs i ≡ some x → Member x xs
  get_elem?-Member [] i h = cc
  get_elem?-Member (x ∷ xs) zero h = inl (ground arith)
  get_elem?-Member (x ∷ xs) (suc i) h = inr (get_elem?-Member xs i h)

  pub All-Member {κ} : (P : A → Type κ) (xs : List A) {a : A} → All P xs → Member a xs → P a
  All-Member P [] h m = absurd m
  All-Member P (x ∷ xs) h (inl e) = subst P (sym e) h.0
  All-Member P (x ∷ xs) h (inr m) = All-Member P xs h.1 m

module _ {A : Type 0} (p : A → Bool) where
  pub Member-keep : (a : A) (xs : List A) → Member a (keep p xs) → Member a xs × (p a ≡ true)
  Member-keep a [] h = absurd h
  Member-keep a (x ∷ xs) h = elim (Bool-cases (p x)) [
    | inl e ↦ first (Member-keep a xs) e (rw e at h)
    | inr e ↦ let m = Member-keep a xs (rw e at h) in (inr m.0, m.1)
  ]
    where
      first :
          (Member a (keep p xs) → Member a xs × (p a ≡ true))
          → p x ≡ true
          → (a ≡ x) ⊎ Member a (keep p xs)
          → Member a (x ∷ xs) × (p a ≡ true)
      first rest e (inl q) = (inl q, rw q e)
      first rest e (inr m) = let r = rest m in (inr r.0, r.1)

  pub Member_of_keep : (a : A) (xs : List A) → Member a xs → p a ≡ true → Member a (keep p xs)
  Member_of_keep a [] h e = h
  Member_of_keep a (x ∷ xs) (inl q) e = let q' : p x ≡ true = rw (← q) e in rw q' (inl q)
  Member_of_keep a (x ∷ xs) (inr m) e = elim (Bool-cases (p x)) [
    | inl t ↦ rw t (inr (Member_of_keep a xs m e))
    | inr f ↦ rw f (Member_of_keep a xs m e)
  ]

module _ {A : Type 0} where
  pub Member-append_right : (a : A) (xs ys : List A) → Member a ys → Member a (xs ++ ys)
  Member-append_right a [] ys m = m
  Member-append_right a (x ∷ xs) ys m = inr (Member-append_right a xs ys m)

  pub Member-append : (a : A) (xs ys : List A) → Member a (xs ++ ys) → Member a xs ⊎ Member a ys
  Member-append a [] ys m = inr m
  Member-append a (x ∷ xs) ys (inl e) = inl (inl e)
  Member-append a (x ∷ xs) ys (inr m) = elim (Member-append a xs ys m) [
    | inl h ↦ inl (inr h)
    | inr h ↦ inr h
  ]
