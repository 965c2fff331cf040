-- ===== src/Balance/Middleware.antt =====
-- balance/middleware/: the parts of the two middlewares that come before the call of the delegate.
use gobetween.Base.{
  ℕ, String, Bool, false, not, ◌&&◌, Option, none, some, List, [], leb, ◌=s◌, if◌then◌else◌,
  is_empty, keep,
}
use gobetween.Base.Int.{ℤ, pos, negsuc}
use gobetween.Core.{Backend}
use gobetween.Config.{Sni}
use gobetween.Balance.Types.{Env, Context, Error, no_matching_sni}

-- `MaxConnections > 0 && ActiveConnections >= uint(MaxConnections)`
at_limit_of : ℤ → ℕ → Bool
at_limit_of (pos n) active = not (leb n 0) && leb n active
at_limit_of (negsuc n) active = false

unfoldable pub at_limit : Backend → Bool
unfolding at_limit_of
at_limit b = at_limit_of b.max_connections b.stats.active_connections

-- The loop of `MaxConnectionsMiddleware.Elect`.
unfoldable pub eligible : List Backend → List Backend
unfolding at_limit
eligible = keep (λ b. not (at_limit b))

-- `none` stands for an error.
unfoldable pub match_sni : Env → Sni → String → String → Option Bool
match_sni env conf requested sni =
    if conf.hostname_matching_strategy =s "regexp"
    then (if sni =s "" && not (requested =s "") then some false else env.regexp sni requested)
    else if conf.hostname_matching_strategy =s "exact"
    then some (env.to_lower requested =s env.to_lower sni)
    else none

-- An error is logged, and the backend is passed over.
abbrev pub matched : Option Bool → Bool
matched none = false
matched (some b) = b

unfoldable pub matching_backends : Env → Sni → String → List Backend → List Backend
unfolding match_sni
matching_backends env conf requested = keep (λ b. matched (match_sni env conf requested b.sni))

-- What `SniMiddleware.Elect` hands to its delegate, or the error that it returns.
pub data Selection : Type 0 where
  delegate : List Backend → Selection
  reject : Error → Selection

unfoldable pub unexpected : Env → Sni → String → List Backend → Selection
unexpected env conf requested bs =
    if conf.unexpected_hostname_strategy =s "reject"
    then reject (no_matching_sni requested)
    else if conf.unexpected_hostname_strategy =s "any"
    then delegate bs
    else if requested =s ""
    then delegate []
    else delegate (matching_backends env conf "" bs)

unfoldable pub select : Env → Sni → Context → List Backend → Selection
unfolding matching_backends unexpected
select env conf ctx bs =
    let found = matching_backends env conf ctx.sni bs in
    if is_empty found then unexpected env conf ctx.sni bs else delegate found
