-- ===== src/Balance/Weight.antt =====
-- balance/weight.go. `int` sums wrap at 2 ^ 64, and a pattern from 2 ^ 63 on is negative.
use gobetween.Base.{
  ℕ, ◌+◌, ◌≤◌, ◌<◌, ◌≡◌, Bool, ◌||◌, Option, none, some, List, [], ◌∷◌, ◌++◌, leb, ltb, ◌==◌, u64,
  half_word, if◌then◌else◌, length, get_elem?,
}
use gobetween.Base.Int.{ℤ, pos, pos_part, ltb_ℤ}
use gobetween.Core.{Backend}
use gobetween.Balance.Types.{Env, Outcome, elected, refused, panics, backends_empty, cannot_elect}
pub mod FirstPass
pub mod Election
pub mod Members

-- The variables of the first pass.
pub record Group : Type 0 where
  pub min_priority : ℤ
  pub members : List Backend
  pub sum_weight : ℕ

-- `group = append(group, backend); groupSumWeight += backend.Weight`, for a weight of at least 0.
join : Group → Backend → Group
join g b = record g {
  members = g.members ++ b ∷ [];
  sum_weight = u64 (g.sum_weight + pos_part b.weight);
}

reset : Group → Backend → Group
reset g b =
    if ltb_ℤ b.priority g.min_priority
    then record { min_priority = b.priority; members = []; sum_weight = 0 }
    else g

-- The body of the first loop.
pub consider : Group → Backend → Group
unfolding join reset
consider g b =
    if ltb_ℤ g.min_priority b.priority || ltb_ℤ b.priority (pos 0) || ltb_ℤ b.weight (pos 0)
    then g
    else join (reset g b) b

pub collect : Group → List Backend → Group
collect g [] = g
collect g (b ∷ bs) = collect (consider g b) bs

-- `rand.Intn(n)` panics unless n is positive.
pub draw : Env → ℕ → Option ℕ
draw env n = if n == 0 || leb half_word n then none else some (env.intn n)

-- `r >= pos` between two `int`s, for r that is not negative.
abbrev reaches : ℕ → ℕ → Bool
reaches r p = leb half_word p || leb p r

-- The second loop.
pub pick : ℕ → ℕ → List Backend → Outcome
pick r p [] = refused cannot_elect
pick r p (b ∷ bs) =
    let p' = u64 (p + pos_part b.weight) in if reaches r p' then pick r p' bs else elected b

or_panic : Option Backend → Outcome
or_panic none = panics
or_panic (some b) = elected b

pub at_random : Env → List Backend → Outcome
unfolding draw or_panic
at_random env members = elim (draw env (length members)) [
  | none ↦ panics
  | some i ↦ or_panic (get_elem? members i)
]

pub by_weight : Env → Group → Outcome
unfolding draw pick
by_weight env g = elim (draw env g.sum_weight) [ none ↦ panics | some r ↦ pick r 0 g.members ]

-- What follows the first pass.
pub decide : Env → Group → List Backend → Outcome
decide env g (b ∷ []) = elected b
decide env g members = if g.sum_weight == 0 then at_random env members else by_weight env g

unfoldable pub elect : Env → List Backend → Outcome
unfolding collect consider decide at_random by_weight
elect env [] = refused backends_empty
elect env (b ∷ bs) =
    let g = collect (record { min_priority = b.priority; members = []; sum_weight = 0 }) (b ∷ bs) in
    decide env g g.members
