-- ===== src/Balance/Iphash/Range.antt =====
-- iphash.go elects a backend of its list, and always does.
use gobetween.Base.{
  ℕ, ◌%◌, ◌<◌, ◌≡◌, List, [], ◌∷◌, ◌==◌, length, arith, Member, get_elem?_total, Bool-cases, inl,
  inr,
}
use gobetween.Core.{Backend}
use gobetween.Balance.Types.{Context, elected}
use gobetween.Balance.Fnv.{sum32, u32_mod}
use gobetween.Balance.Roundrobin.{sort_stable}
use gobetween.Balance.Roundrobin.Sorting.{Member-sort_stable, index-Member, length-sort_stable}
use gobetween.Balance.Iphash.{hashed, elect}

pub elect-Member :
    (ctx : Context) (bs : List Backend) (e : Backend) → elect ctx bs ≡ elected e → Member e bs
unfolding elect
elect-Member ctx [] e q = cc
elect-Member ctx (b ∷ bs) e q =
    let sorted = sort_stable (b ∷ bs) in
    elim (Bool-cases (length sorted % u32_mod == 0)) [
      | inl t ↦ absurd (ground arith)
      | inr f ↦
          Member-sort_stable e (b ∷ bs)
            (index-Member sorted (sum32 ctx.ip % (length sorted % u32_mod)) e (ground arith))
    ]

hashed_total :
    (h : ℕ) (xs : List Backend)
    → 0 < length xs
    → length xs < u32_mod
    → (e : Backend) × (hashed h xs ≡ elected e)
unfolding hashed
hashed_total h xs some_left short =
    let small : length xs % u32_mod ≡ length xs = omega arith in
    let (e, q) = get_elem?_total xs (h % length xs) (omega arith) in (e, rw small (ground arith))

-- On every list that is not empty, and shorter than 2 ^ 32, iphash elects a backend of the list,
-- without a panic.
pub elect_total :
    (ctx : Context) (b : Backend) (bs : List Backend)
    → length (b ∷ bs) < u32_mod
    → (e : Backend) × (elect ctx (b ∷ bs) ≡ elected e) × Member e (b ∷ bs)
unfolding elect
elect_total ctx b bs short =
    let size = length-sort_stable (b ∷ bs) in
    let (e, q) =
      hashed_total (sum32 ctx.ip) (sort_stable (b ∷ bs)) (omega (arith, size))
        (omega (arith, size)) in
    (e, q, elect-Member ctx (b ∷ bs) e q)
