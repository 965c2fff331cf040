-- ===== src/Scheduler/Elect.antt =====
-- `HandleBackendElect`: whom the scheduler hands to a client.
use gobetween.Base.{
  ◌≡◌, refl, subst, true, false, ◌&&◌, some, List, ◌∷◌, arith, Member, Member-keep,
}
use gobetween.Core.{Backend}
use gobetween.Balance.Types.{Env, Context, Outcome, elected, nothing, refused, panics}
use gobetween.Balance.Middleware.{at_limit}
use gobetween.Balance.Registry
use gobetween.Balance.Registry.Sound.{elect-Member, elect-at_limit}
use gobetween.Scheduler.{Scheduler, Effect, respond, handle_elect, candidates, values}
use gobetween.Scheduler.WellFormed.{IsWellFormed}

-- A backend that a well-formed scheduler answers with is in its table, live, discovered and below
-- its limit of connections, and the table stays as it is.
pub elect_lem :
    (env : Env) (s s' : Scheduler) (ctx : Context) (b : Backend) (sent : List Effect)
    → IsWellFormed s
    → handle_elect env s ctx ≡ some (s', respond b ∷ sent)
    → Member b (values s.backends)
      × (b.stats.live ≡ true)
      × (b.stats.discovered ≡ true)
      × (at_limit b ≡ false)
      × (s'.backends ≡ s.backends)
unfolding handle_elect
elect_lem env s s' ctx b sent w e =
    chosen (Registry.elect env s.balancer ctx (candidates s.backends)).0 refl
  where
    facts :
        (Registry.elect env s.balancer ctx (candidates s.backends)).0 ≡ elected b
        → s'.backends ≡ s.backends
        → Member b (values s.backends)
          × (b.stats.live ≡ true)
          × (b.stats.discovered ≡ true)
          × (at_limit b ≡ false)
          × (s'.backends ≡ s.backends)
    facts q same =
        let m = elect-Member env s.balancer ctx (candidates s.backends) b q in
        let (h, k) =
          Member-keep (λ x. x.stats.live && x.stats.discovered) b (values s.backends) m in
        (
          h,
          ground arith,
          ground arith,
          elect-at_limit env s.balancer ctx (candidates s.backends) b w.limited q,
          same,
        )

    chosen :
        (o : Outcome)
        → (Registry.elect env s.balancer ctx (candidates s.backends)).0 ≡ o
        → Member b (values s.backends)
          × (b.stats.live ≡ true)
          × (b.stats.discovered ≡ true)
          × (at_limit b ≡ false)
          × (s'.backends ≡ s.backends)
    chosen (elected c) q =
        let same : c ≡ b = ground arith in
        facts
          (subst (λ x. (Registry.elect env s.balancer ctx (candidates s.backends)).0 ≡ elected x)
            same q)
          (ground arith)
    chosen nothing q = absurd (ground arith)
    chosen (refused x) q = absurd (ground arith)
    chosen panics q = absurd (ground arith)
