-- ===== src/Balance/Roundrobin.antt =====
-- balance/roundrobin.go, and the stable sort by address that balance/iphash.go shares with it.
use gobetween.Base.{
  ℕ, zero, suc, ◌+◌, ◌≤◌, ◌≡◌, refl, Bool, Option, none, some, List, [], ◌∷◌, leb, if◌then◌else◌,
  length, get_elem?, is_empty,
}
use gobetween.Base.Bytes.{str_ltb}
use gobetween.Core.{Backend, address}
use gobetween.Balance.Types.{Outcome, elected, refused, panics, backends_empty}
pub mod Sorting
pub mod Cycle

-- `backends[i].Target.String() < backends[j].Target.String()`
unfoldable pub before : Backend → Backend → Bool
unfolding address
before a b = str_ltb (address a.target) (address b.target)

unfoldable pub insert : Backend → List Backend → List Backend
insert a [] = a ∷ []
insert a (b ∷ bs) = if before b a then b ∷ insert a bs else a ∷ b ∷ bs

-- `sort.SliceStable`: backends with equal addresses keep their order.
unfoldable pub sort_stable : List Backend → List Backend
unfolding insert before
sort_stable [] = []
sort_stable (b ∷ bs) = insert b (sort_stable bs)

-- `backends[i]`
abbrev pub index : List Backend → ℕ → Outcome
index bs i = elim (get_elem? bs i) [ none ↦ panics | some b ↦ elected b ]

-- `if b.current >= len(backends) { b.current = 0 }`
abbrev pub wrapped : ℕ → ℕ → ℕ
wrapped current n = if leb n current then 0 else current

-- The outcome, and the new `current`.
unfoldable pub elect : ℕ → List Backend → Outcome × ℕ
unfolding sort_stable
elect current [] = (refused backends_empty, current)
elect current (b ∷ bs) =
    let sorted = sort_stable (b ∷ bs) in
    let i = wrapped current (length sorted) in (index sorted i, i + 1)
