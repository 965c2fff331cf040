-- ===== src/Balance/Weight/Members.antt =====
-- Whatever weight.go elects was on its list, also where some backends are not valid.
use gobetween.Base.{
  ℕ, ◌+◌, ◌≡◌, refl, subst, ◌⊎◌, List, [], ◌∷◌, ◌++◌, arith, inl, inr, u64, ◌==◌, Member,
  Member-append, get_elem?, get_elem?-Member, Bool-cases, Option-cases, length,
}
use gobetween.Base.Int.{pos_part}
use gobetween.Core.{Backend}
use gobetween.Balance.Types.{Env, elected}
use gobetween.Balance.Weight.{
  Group, consider, collect, pick, draw, decide, at_random, or_panic, by_weight, reaches, elect,
}

consider-members :
    (g : Group) (b : Backend)
    → ((consider g b).members ≡ g.members)
      ⊎ ((consider g b).members ≡ b ∷ [])
      ⊎ ((consider g b).members ≡ g.members ++ b ∷ [])
unfolding consider
consider-members g b = ground arith

consider-Member :
    (x : Backend) (g : Group) (b : Backend)
    → Member x (consider g b).members
    → Member x g.members ⊎ (x ≡ b)
unfolding consider
consider-Member x g b m = elim (consider-members g b) [
  | inl e ↦ inl (subst (Member x) e m)
  | inr (inl e) ↦ elim (subst (Member x) e m) [ inl q ↦ inr q | inr h ↦ absurd h ]
  | inr (inr e) ↦ elim (Member-append x g.members (b ∷ []) (subst (Member x) e m)) [
    | inl h ↦ inl h
    | inr (inl q) ↦ inr q
    | inr (inr h) ↦ absurd h
  ]
]

collect-Member :
    (x : Backend) (g : Group) (bs : List Backend)
    → Member x (collect g bs).members
    → Member x g.members ⊎ Member x bs
unfolding collect
collect-Member x g [] m = inl m
collect-Member x g (b ∷ bs) m = elim (collect-Member x (consider g b) bs m) [
  | inr h ↦ inr (inr h)
  | inl h ↦ elim (consider-Member x g b h) [ inl k ↦ inl k | inr e ↦ inr (inl e) ]
]

pick-Member : (r p : ℕ) (bs : List Backend) (e : Backend) → pick r p bs ≡ elected e → Member e bs
unfolding pick
pick-Member r p [] e q = cc
pick-Member r p (b ∷ bs) e q = elim (Bool-cases (reaches r (u64 (p + pos_part b.weight)))) [
  | inl t ↦ inr (pick-Member r (u64 (p + pos_part b.weight)) bs e (ground arith))
  | inr f ↦ inl (ground arith)
]

by_weight-Member :
    (env : Env) (g : Group) (e : Backend) → by_weight env g ≡ elected e → Member e g.members
unfolding by_weight
by_weight-Member env g e q = elim (Option-cases (draw env g.sum_weight)) [
  | inl p ↦ absurd (ground arith)
  | inr (r, p) ↦ pick-Member r 0 g.members e (ground arith)
]

at_random-Member :
    (env : Env) (xs : List Backend) (e : Backend) → at_random env xs ≡ elected e → Member e xs
unfolding at_random
at_random-Member env xs e q = elim (Option-cases (draw env (length xs))) [
  | inl p ↦ absurd (ground arith)
  | inr (i, p) ↦ at i (ground arith)
]
  where
    at : (i : ℕ) → or_panic (get_elem? xs i) ≡ elected e → Member e xs
    at i h = elim (Option-cases (get_elem? xs i)) [
      | inl p ↦ absurd (ground arith)
      | inr (a, p) ↦ get_elem?-Member xs i (ground arith)
    ]

decide-Member :
    (env : Env) (g : Group) (xs : List Backend) (e : Backend)
    → g.members ≡ xs
    → decide env g xs ≡ elected e
    → Member e xs
unfolding decide
decide-Member env g (x ∷ []) e p q = inl (ground arith)
decide-Member env g xs e p q = elim (Bool-cases (g.sum_weight == 0)) [
  | inl t ↦ at_random-Member env xs e (ground arith)
  | inr f ↦ subst (Member e) p (by_weight-Member env g e (ground arith))
]

pub elect-Member :
    (env : Env) (bs : List Backend) (e : Backend) → elect env bs ≡ elected e → Member e bs
unfolding elect
elect-Member env [] e q = cc
elect-Member env (b ∷ bs) e q =
    let start : Group = record { min_priority = b.priority; members = []; sum_weight = 0 } in
    let g = collect start (b ∷ bs) in
    elim (collect-Member e start (b ∷ bs) (decide-Member env g g.members e refl q)) [
      | inl h ↦ absurd h
      | inr h ↦ h
    ]
