-- ===== src/Balance/Weight/Election.antt =====
-- Which backend weight.go elects: with valid backends always one of the lowest priority, and by
-- weight within those.
use gobetween.Base.{
  ℕ, ◌+◌, ◌≤◌, ◌<◌, ◌≡◌, refl, sym, ap, subst, ◌∙◌, Bool, true, false, List, [], ◌∷◌, ◌++◌, ◌==◌,
  u64, inl, inr, half_word, if◌then◌else◌, arith, keep, All, Member, Bool-cases, length,
  get_elem?_total, get_elem?-Member, Member-keep, leb, is_empty, inr,
}
use gobetween.Base.Int.{ℤ, pos, pos_part, ◌≤ℤ◌, ◌<ℤ◌}
use gobetween.Core.{Backend}
use gobetween.Balance.Types.{Env, elected, panics}
use gobetween.Balance.Weight.{Group, collect, pick, decide, consider, elect, at_random, by_weight}
use gobetween.Balance.Weight.FirstPass.{
  IsValid, lowest, has_priority, weights, lowest-All, collect_lem, sum-collect, weights-append,
  weights-keep-le, length-keep-le, attained, same_ℤ,
}

-- The documented range of `rand.Intn`.
abbrev pub IsIntn : (ℕ → ℕ) → Type 0
IsIntn intn = (n : ℕ) → 0 < n → intn n < n

-- The second loop: a draw that falls into a backend's share elects it. `p` is the weight passed.
pick_lem :
    (before after : List Backend) (e : Backend) (r p : ℕ)
    → p + weights (before ++ e ∷ after) < half_word
    → p + weights before ≤ r
    → r < p + weights before + pos_part e.weight
    → pick r p (before ++ e ∷ after) ≡ elected e
unfolding pick weights
pick_lem [] after e r p few lo hi = ground arith
pick_lem (b ∷ before) after e r p few lo hi =
    ground (arith, pick_lem before after e r (p + pos_part b.weight))

-- Every draw below the sum falls into some share.
pick_total :
    (xs : List Backend) (r p : ℕ)
    → p + weights xs < half_word
    → p ≤ r
    → r < p + weights xs
    → (e : Backend) × (pick r p xs ≡ elected e) × Member e xs
unfolding pick weights
pick_total [] r p few lo hi = absurd (omega arith)
pick_total (b ∷ xs) r p few lo hi = elim (Bool-cases (leb (p + pos_part b.weight) r)) [
  | inl past ↦
      let (e, q, m) =
        pick_total xs r (p + pos_part b.weight) (omega arith) (ground arith) (omega arith) in
      (e, ground arith, inr m)
  | inr here ↦ (b, ground arith, inl refl)
]

at_random_total :
    (env : Env) (xs : List Backend)
    → IsIntn env.intn
    → 0 < length xs
    → length xs < half_word
    → (e : Backend) × (at_random env xs ≡ elected e) × Member e xs
unfolding at_random
at_random_total env xs law some_left few =
    let (e, q) = get_elem?_total xs (env.intn (length xs)) (law (length xs) some_left) in
    (e, ground arith, get_elem?-Member xs (env.intn (length xs)) q)

by_weight_total :
    (env : Env) (g : Group)
    → IsIntn env.intn
    → g.sum_weight ≡ weights g.members
    → 0 < g.sum_weight
    → g.sum_weight < half_word
    → (e : Backend) × (by_weight env g ≡ elected e) × Member e g.members
unfolding by_weight
by_weight_total env g law sum positive few =
    let (e, q, m) =
      pick_total g.members (env.intn g.sum_weight) 0 (omega arith) (omega arith)
        (omega (arith, law g.sum_weight positive)) in
    (e, ground arith, m)

decide_total :
    (env : Env) (g : Group) (xs : List Backend)
    → IsIntn env.intn
    → g.members ≡ xs
    → is_empty xs ≡ false
    → g.sum_weight ≡ weights xs
    → g.sum_weight < half_word
    → length xs < half_word
    → (e : Backend) × (decide env g xs ≡ elected e) × Member e xs
unfolding decide
decide_total env g [] law e full sum few short = cc
decide_total env g (x ∷ []) law e full sum few short = (x, refl, inl refl)
decide_total env g (x ∷ y ∷ zs) law e full sum few short = elim (Bool-cases (g.sum_weight == 0)) [
  | inl idle ↦ rw idle (at_random_total env (x ∷ y ∷ zs) law (omega arith) short)
  | inr busy ↦ rw busy (
      subst (λ ms. (e : Backend) × (by_weight env g ≡ elected e) × Member e ms) e
        (by_weight_total env g law (rw e sum) (ground arith) few))
]

by_weight_share :
    (env : Env) (g : Group) (before after : List Backend) (e : Backend)
    → g.members ≡ before ++ e ∷ after
    → g.sum_weight ≡ weights (before ++ e ∷ after)
    → g.sum_weight < half_word
    → weights before ≤ env.intn g.sum_weight
    → env.intn g.sum_weight < weights before + pos_part e.weight
    → (0 < g.sum_weight) × (by_weight env g ≡ elected e)
unfolding by_weight weights
by_weight_share env g before after e p sum few lo hi =
    let positive : 0 < g.sum_weight = omega (arith, weights-append before (e ∷ after)) in
    (positive, ground (arith, pick_lem before after e (env.intn g.sum_weight) 0))

only : (x e : Backend) (before after : List Backend) → x ∷ [] ≡ before ++ e ∷ after → x ≡ e
only x e [] after q = cc
only x e (y ∷ []) after q = cc
only x e (y ∷ z ∷ before) after q = cc

decide_share :
    (env : Env) (g : Group) (xs before after : List Backend) (e : Backend)
    → xs ≡ before ++ e ∷ after
    → ((0 < g.sum_weight) × (by_weight env g ≡ elected e))
    → decide env g xs ≡ elected e
unfolding decide
decide_share env g [] [] after e q h = cc
decide_share env g [] (y ∷ before) after e q h = cc
decide_share env g (x ∷ []) before after e q h = ap elected (only x e before after q)
decide_share env g (x ∷ y ∷ zs) before after e q h = ground arith

-- The state before the first pass, and after it.
abbrev first : Backend → Group
first b = record { min_priority = b.priority; members = []; sum_weight = 0 }

abbrev passed : Backend → List Backend → Group
passed b bs = collect (first b) (b ∷ bs)

-- The lowest priority of a list that is not empty, and the backends that have it.
abbrev pub lowest_of : Backend → List Backend → ℤ
lowest_of b bs = lowest b.priority (b ∷ bs)

abbrev pub group_of : Backend → List Backend → List Backend
group_of b bs = keep (has_priority (lowest_of b bs)) (b ∷ bs)

nothing_kept :
    (c : Bool) (ks : List Backend) → ◌≡◌ {A = List Backend} ((if c then [] else []) ++ ks) ks
nothing_kept true ks = refl
nothing_kept false ks = refl

passed-members :
    (b : Backend) (bs : List Backend) → All IsValid (b ∷ bs) → (passed b bs).members ≡ group_of b bs
passed-members b bs v =
    collect_lem (first b) (b ∷ bs) (lowest_of b bs) v refl
    ∙ nothing_kept (same_ℤ (lowest_of b bs) b.priority) (group_of b bs)

no_weight : (b : Backend) → (first b).sum_weight ≡ u64 (weights (first b).members)
unfolding weights
no_weight b = refl

passed-sum :
    (b : Backend) (bs : List Backend)
    → All IsValid (b ∷ bs)
    → weights (b ∷ bs) < half_word
    → (passed b bs).sum_weight ≡ weights (group_of b bs)
passed-sum b bs v few =
    let sum = sum-collect (first b) (b ∷ bs) v (no_weight b) in
    let in_group = ap weights (passed-members b bs v) in
    omega (arith, sum, in_group, weights-keep-le (has_priority (lowest_of b bs)) (b ∷ bs))

All-le :
    (m : ℤ) (e : Backend) (xs : List Backend)
    → has_priority m e ≡ true
    → All (λ x. m ≤ℤ x.priority) xs
    → All (λ x. e.priority ≤ℤ x.priority) xs
All-le m e [] h a = tt
All-le m e (x ∷ xs) h a = (ground arith, All-le m e xs h a.1)

-- With valid backends, whose number and whose sum of weights fit an int, and a random source in
-- its documented range, an election by weight always elects, and it elects a backend of the lowest
-- priority.
pub elect-lowest :
    (env : Env) (b : Backend) (bs : List Backend)
    → IsIntn env.intn
    → All IsValid (b ∷ bs)
    → weights (b ∷ bs) < half_word
    → length (b ∷ bs) < half_word
    → (e : Backend) × (elect env (b ∷ bs) ≡ elected e)
      × Member e (b ∷ bs)
      × All (λ x. e.priority ≤ℤ x.priority) (b ∷ bs)
unfolding elect
elect-lowest env b bs law v few short =
    let p = has_priority (lowest_of b bs) in
    let group = passed-members b bs v in
    let sum = passed-sum b bs v few in
    let (e, q, m) =
      decide_total env (passed b bs) (group_of b bs) law group (attained b bs _ refl) sum
        (omega (arith, weights-keep-le p (b ∷ bs))) (omega (arith, length-keep-le p (b ∷ bs))) in
    let (in_list, has) = Member-keep p e (b ∷ bs) m in
    (
      e,
      subst (λ ms. decide env (passed b bs) ms ≡ elected e) (sym group) q,
      in_list,
      All-le (lowest_of b bs) e (b ∷ bs) has (lowest-All b.priority (b ∷ bs)),
    )

-- With valid backends whose sum of weights fits an int, a backend of the lowest priority is
-- elected by each draw between the sum of the weights before it in its group and that sum plus its
-- own weight.
pub elect-share :
    (env : Env) (b : Backend) (bs before after : List Backend) (e : Backend)
    → All IsValid (b ∷ bs)
    → weights (b ∷ bs) < half_word
    → group_of b bs ≡ before ++ e ∷ after
    → weights before ≤ env.intn (weights (group_of b bs))
    → env.intn (weights (group_of b bs)) < weights before + pos_part e.weight
    → elect env (b ∷ bs) ≡ elected e
unfolding elect
elect-share env b bs before after e v few split lo hi =
    let group = passed-members b bs v ∙ split in
    let sum = passed-sum b bs v few in
    decide_share env (passed b bs) _ before after e group (
      by_weight_share env (passed b bs) before after e group (sum ∙ ap weights split)
        (omega (arith, weights-keep-le (has_priority (lowest_of b bs)) (b ∷ bs))) (rw sum lo)
        (rw sum hi))

collect_negative : (g : Group) (bs : List Backend) → g.min_priority <ℤ pos 0 → collect g bs ≡ g
unfolding collect consider
collect_negative g [] h = refl
collect_negative g (b ∷ bs) h =
    let skipped : consider g b ≡ g = ground arith in rw skipped (collect_negative g bs h)

-- If the first backend has a negative priority, an election by weight panics, whatever the other
-- backends are.
pub elect-negative :
    (env : Env) (b : Backend) (bs : List Backend)
    → b.priority <ℤ pos 0
    → elect env (b ∷ bs) ≡ panics
unfolding elect
elect-negative env b bs h =
    let empty : collect (first b) (b ∷ bs) ≡ first b = collect_negative (first b) (b ∷ bs) h in
    ap (λ g. decide env g g.members) empty
