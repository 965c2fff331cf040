-- ===== src/Manager/Plan.antt =====
-- manager/manager.go: `planReload`.
use gobetween.Base.{
  ◌≡◌, refl, String, Bool, false, not, ◌&&◌, ◌||◌, Option, none, some, List, [], ◌∷◌, ◌=s◌,
  if◌then◌else◌, is_some, inl, inr, Bool-cases, arith, eq_iff, subst, ◌∙◌,
}
use gobetween.Base.Bytes.{str_ltb}
use gobetween.Base.Dict.{Dict, find, listed, IsUnique}
use gobetween.Config.{Server}

-- `sort.Strings`, on names that are all different.
insert_name : String → List String → List String
insert_name n [] = n ∷ []
insert_name n (m ∷ ms) = if str_ltb m n then m ∷ insert_name n ms else n ∷ m ∷ ms

unfoldable pub sort_names : List String → List String
unfolding insert_name
sort_names [] = []
sort_names (n ∷ ns) = insert_name n (sort_names ns)

pub record ReloadPlan : Type 0 where
  pub added : List String
  pub modified : List String
  pub removed : List String

-- `reflect.DeepEqual` of two configurations is the parameter `same`.
module _ (same : Server → Server → Bool) where
  -- Whether a name is kept, with another configuration.
  unfoldable pub is_modified : Option Server → Option Server → Bool
  is_modified (some c) (some d) = not (same c d)
  is_modified (some c) none = false
  is_modified none o = false

  -- The names of `current` that are wanted with another configuration.
  pub modified_names : Dict Server → Dict Server → List String
  unfolding is_modified
  modified_names [] desired = []
  modified_names ((n, c) ∷ current) desired =
      let rest = modified_names current desired in
      if is_modified (some c) (find n desired) then n ∷ rest else rest

  -- The names of the first map that the second has not.
  pub missing_names : Dict Server → Dict Server → List String
  missing_names [] other = []
  missing_names ((n, c) ∷ m) other =
      let rest = missing_names m other in if is_some (find n other) then rest else n ∷ rest

  -- `planReload`
  unfoldable pub plan_reload : Dict Server → Dict Server → ReloadPlan
  unfolding modified_names missing_names
  plan_reload current desired = record {
    added = sort_names (missing_names desired current);
    modified = sort_names (modified_names current desired);
    removed = sort_names (missing_names current desired);
  }

  listed-insert_name :
      (k n : String) (ns : List String) → listed k (insert_name n ns) ≡ (n =s k) || listed k ns
  unfolding insert_name listed
  listed-insert_name k n [] = ground arith
  listed-insert_name k n (m ∷ ms) = ground (arith, listed-insert_name k n ms)

  pub listed-sort_names : (k : String) (ns : List String) → listed k (sort_names ns) ≡ listed k ns
  unfolding sort_names listed
  listed-sort_names k [] = refl
  listed-sort_names k (n ∷ ns) =
      ground (arith, listed-insert_name k n (sort_names ns), listed-sort_names k ns)

  listed-missing_names :
      (k : String) (m other : Dict Server)
      → listed k (missing_names m other) ≡ is_some (find k m) && not (is_some (find k other))
  unfolding missing_names find listed
  listed-missing_names k [] other = refl
  listed-missing_names k ((n, c) ∷ m) other = elim (Bool-cases (n =s k)) [
    | inl t ↦
        subst
          (λ x.
            listed x (missing_names ((n, c) ∷ m) other)
            ≡ is_some (find x ((n, c) ∷ m)) && not (is_some (find x other)))
          ((eq_iff n k).0 t) (ground (arith, eq_iff n n, listed-missing_names n m other))
    | inr f ↦ ground (arith, listed-missing_names k m other)
  ]

  listed-modified_names :
      (k : String) (m other : Dict Server)
      → IsUnique m
      → listed k (modified_names m other) ≡ is_modified (find k m) (find k other)
  unfolding modified_names find listed
  listed-modified_names k [] other u = refl
  listed-modified_names k ((n, c) ∷ m) other u = elim (Bool-cases (n =s k)) [
    | inl t ↦
        subst
          (λ x.
            listed x (modified_names ((n, c) ∷ m) other)
            ≡ is_modified (find x ((n, c) ∷ m)) (find x other))
          ((eq_iff n k).0 t) (ground (arith, eq_iff n n, listed-modified_names n m other u.1, u.0))
    | inr f ↦ ground (arith, listed-modified_names k m other u.1)
  ]

  -- A plan adds just the names that are wanted and missing, removes just those that are there and not
  -- wanted, and modifies just those whose configurations differ.
  pub plan_reload-listed :
      (k : String) (current desired : Dict Server)
      → IsUnique current
      → (listed k (plan_reload current desired).added
          ≡ is_some (find k desired) && not (is_some (find k current)))
        × (listed k (plan_reload current desired).removed
            ≡ is_some (find k current) && not (is_some (find k desired)))
        × (listed k (plan_reload current desired).modified
            ≡ is_modified (find k current) (find k desired))
  unfolding plan_reload
  plan_reload-listed k current desired u = (
    listed-sort_names k (missing_names desired current) ∙ listed-missing_names k desired current,
    listed-sort_names k (missing_names current desired) ∙ listed-missing_names k current desired,
    listed-sort_names k (modified_names current desired)
        ∙ listed-modified_names k current desired u,
  )
