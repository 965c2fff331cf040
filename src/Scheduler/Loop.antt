-- ===== src/Scheduler/Loop.antt =====
-- The loop of `Scheduler.Start`: which handler an event of the `select` runs, and what it sends on.
use gobetween.Base.{Option, some, List, [], ◌∷◌, ◌++◌}
use gobetween.Core.{Backend}
use gobetween.Healthcheck.Types.{healthy, CheckResult, same}
use gobetween.Balance.Types.{Env, Context}
use gobetween.Stats.Counter.{BandwidthStats}
use gobetween.Scheduler.{
  Scheduler, Effect, to_healthcheck, to_counter, to_stats, Op, targets, values,
  handle_backends_update, handle_stats_change, handle_live_change, handle_elect, handle_op, ◌>>=◌,
}

-- The channels of the `select`, but for `stop`, which ends the run.
pub data Event : Type 0 where
  discovered : List Backend → Event
  checked : CheckResult → Event
  push_tick : Event
  bandwidth : BandwidthStats → Event
  operation : Op → Event
  elect_request : Context → Event

unfoldable pub sync : Scheduler → List Effect
sync s = to_healthcheck (targets s.backends) ∷ to_counter (targets s.backends) ∷ []

unfoldable pub step : Env → Scheduler → Event → Option (Scheduler × List Effect)
unfolding sync targets values
step env s (discovered bs) = do (s', sent) ← handle_backends_update s bs; some (s', sent ++ sync s')
step env s (checked r) = some (handle_live_change s r.target (same r.status healthy))
step env s push_tick = some (s, to_stats (values s.backends) ∷ [])
step env s (bandwidth bs) = some (handle_stats_change s bs)
step env s (operation op) = handle_op s op
step env s (elect_request ctx) = handle_elect env s ctx

unfoldable pub run : Env → Scheduler → List Event → Option Scheduler
run env s [] = some s
run env s (e ∷ es) = do (s', sent) ← step env s e; run env s' es
