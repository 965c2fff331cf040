-- ===== src/Balance/Leastconn.antt =====
-- balance/leastconn.go and balance/leastbandwidth.go.
use gobetween.Base.{ℕ, ◌+◌, ◌≡◌, refl, Bool, List, [], ◌∷◌, leb, ltb, u64, arith}
use gobetween.Core.{Backend}
use gobetween.Balance.Types.{Outcome, elected, refused, backends_empty}
use gobetween.Balance.Scan.{scan, IsFound, scan-IsFound}

abbrev pub active : Backend → ℕ
active b = b.stats.active_connections

-- The test of leastconn's loop: a later backend replaces the least one also on equality.
abbrev pub no_busier : Backend → Backend → Bool
no_busier b least = leb (active b) (active least)

unfoldable pub elect : List Backend → Outcome
unfolding scan
elect [] = refused backends_empty
elect (b ∷ bs) = elected (scan no_busier b (b ∷ bs))

-- On a list that is not empty leastconn elects the last of the backends with the fewest active
-- connections: those before it have no fewer, and those after it have more.
pub elect-IsFound :
    (b : Backend) (bs : List Backend)
    → (e : Backend) × (elect (b ∷ bs) ≡ elected e) × IsFound no_busier (b ∷ bs) e
unfolding elect
elect-IsFound b bs = (
  scan no_busier b (b ∷ bs),
  refl,
  scan-IsFound no_busier (λ e x l p q. ground arith) (λ e l x p q. ground arith) b bs,
)

-- The sum of two `uint` wraps.
abbrev pub bandwidth : Backend → ℕ
bandwidth b = u64 (b.stats.tx_second + b.stats.rx_second)

-- The test of leastbandwidth's loop.
abbrev pub less_loaded : Backend → Backend → Bool
less_loaded b least = ltb (bandwidth b) (bandwidth least)

unfoldable pub elect_bandwidth : List Backend → Outcome
unfolding scan
elect_bandwidth [] = refused backends_empty
elect_bandwidth (b ∷ bs) = elected (scan less_loaded b (b ∷ bs))

-- On a list that is not empty leastbandwidth elects the first of the backends with the least
-- wrapped bandwidth: those before it have more, and those after it have no less.
pub elect_bandwidth-IsFound :
    (b : Backend) (bs : List Backend)
    → (e : Backend) × (elect_bandwidth (b ∷ bs) ≡ elected e) × IsFound less_loaded (b ∷ bs) e
unfolding elect_bandwidth
elect_bandwidth-IsFound b bs = (
  scan less_loaded b (b ∷ bs),
  refl,
  scan-IsFound less_loaded (λ e x l p q. ground arith) (λ e l x p q. ground arith) b bs,
)
