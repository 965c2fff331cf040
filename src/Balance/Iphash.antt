-- ===== src/Balance/Iphash.antt =====
-- balance/iphash.go and balance/iphash1.go.
use gobetween.Base.{
  ℕ, ◌+◌, ◌%◌, ◌≤◌, ◌<◌, ◌≡◌, refl, sym, Bool, true, false, Option, none, some, List, [], ◌∷◌, ◌++◌,
  leb, ltb, ◌==◌, if◌then◌else◌, length, arith,
}
use gobetween.Base.Bytes.{bytes}
use gobetween.Core.{Backend, address}
use gobetween.Balance.Types.{Context, Outcome, elected, nothing, refused, panics, backends_empty}
use gobetween.Balance.Fnv.{sum32, u32_mod}
use gobetween.Balance.Roundrobin.{sort_stable, index}
pub mod Stable
pub mod Range

-- `backends[hash.Sum32()%uint32(len(backends))]`; a division by zero panics.
hashed : ℕ → List Backend → Outcome
hashed h bs = let n = length bs % u32_mod in if n == 0 then panics else index bs (h % n)

unfoldable pub elect : Context → List Backend → Outcome
unfolding hashed sum32 sort_stable
elect ctx [] = refused backends_empty
elect ctx (b ∷ bs) = hashed (sum32 ctx.ip) (sort_stable (b ∷ bs))

-- The hash of the client's address and the backend's.
unfoldable pub hash_of : Context → Backend → ℕ
unfolding sum32 bytes address
hash_of ctx b = sum32 (ctx.ip ++ bytes (address b.target))

-- The loop of iphash1 over `bestHash` and `result`.
pub best : (Backend → ℕ) → ℕ → Option Backend → List Backend → Option Backend
best hash best_hash result [] = result
best hash best_hash result (b ∷ bs) =
    let better = ltb best_hash (hash b) in
    best hash (if better then hash b else best_hash) (if better then some b else result) bs

or_nothing : Option Backend → Outcome
or_nothing none = nothing
or_nothing (some b) = elected b

unfoldable pub elect1 : Context → List Backend → Outcome
unfolding best or_nothing hash_of
elect1 ctx [] = refused backends_empty
elect1 ctx (b ∷ bs) = or_nothing (best (hash_of ctx) 0 none (b ∷ bs))
