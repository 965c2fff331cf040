-- ===== src/Balance/Registry.antt =====
-- balance/registry.go, and `Elect` over every balancer that it can build.
use gobetween.Base.{
  ℕ, String, Bool, true, false, Option, none, some, List, [], ◌∷◌, ◌=s◌, if◌then◌else◌, is_empty,
  map,
}
use gobetween.Core.{Backend}
use gobetween.Balance.Types.{Env, Context, Outcome, elected, refused, panics, all_at_limit}
use gobetween.Balance.Leastconn
use gobetween.Balance.Weight
use gobetween.Balance.Roundrobin
use gobetween.Balance.Iphash
use gobetween.Config.{Sni}
use gobetween.Balance.Middleware.{Selection, delegate, reject, eligible, select}
pub mod Sound

-- The implementations of `core.Balancer`, with their state.
pub data Balancer : Type 0 where
  leastconn weight iphash iphash1 leastbandwidth : Balancer
  roundrobin : ℕ → Balancer
  max_connections : Balancer → Balancer
  with_sni : Sni → Balancer → Balancer

-- The zero value that `reflect.New` makes; a name that is not registered panics.
unfoldable pub base : String → Option Balancer
base name =
    if name =s "leastconn"
    then some leastconn
    else if name =s "roundrobin"
    then some (roundrobin 0)
    else if name =s "weight"
    then some weight
    else if name =s "iphash"
    then some iphash
    else if name =s "iphash1"
    then some iphash1
    else if name =s "leastbandwidth"
    then some leastbandwidth
    else none

wrap_sni : Option Sni → Balancer → Balancer
wrap_sni none b = b
wrap_sni (some conf) b = with_sni conf b

-- `New`.
unfoldable pub new : Option Sni → String → Option Balancer
unfolding base wrap_sni
new conf name = elim (base name) [ none ↦ none | some b ↦ some (wrap_sni conf (max_connections b)) ]

-- `MaxConnectionsMiddleware.Elect`, for a delegate.
limited : (List Backend → Outcome × Balancer) → Balancer → List Backend → Outcome × Balancer
limited call b bs = elim (is_empty bs) [ true ↦ (refused all_at_limit, b) | false ↦ call bs ]

-- `SniMiddleware.Elect`, for a delegate.
selected : (List Backend → Outcome × Balancer) → Balancer → Selection → Outcome × Balancer
selected call b (delegate bs) = call bs
selected call b (reject e) = (refused e, b)

-- `Elect`: the outcome, and the balancer with its new state.
unfoldable pub elect : Env → Balancer → Context → List Backend → Outcome × Balancer
unfolding limited selected
elect env leastconn ctx bs = (Leastconn.elect bs, leastconn)
elect env weight ctx bs = (Weight.elect env bs, weight)
elect env iphash ctx bs = (Iphash.elect ctx bs, iphash)
elect env iphash1 ctx bs = (Iphash.elect1 ctx bs, iphash1)
elect env leastbandwidth ctx bs = (Leastconn.elect_bandwidth bs, leastbandwidth)
elect env (roundrobin current) ctx bs =
    let (o, next) = Roundrobin.elect current bs in (o, roundrobin next)
elect env (max_connections b) ctx bs =
    let (o, b') = limited (elect env b ctx) b (eligible bs) in (o, max_connections b')
elect env (with_sni conf b) ctx bs =
    let (o, b') = selected (elect env b ctx) b (select env conf ctx bs) in (o, with_sni conf b')
