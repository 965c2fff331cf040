-- ===== src/Metrics/Observed.antt =====
-- server/scheduler/scheduler.go: the calls of the metrics, run beside the scheduler.
use gobetween.Base.{String, Option, some, List, [], ◌∷◌}
use gobetween.Core.{Target, Backend}
use gobetween.Balance.Types.{Env}
use gobetween.Scheduler.{
  Scheduler, Effect, report_stats, report_op, report_live, remove_metric, forget_server, stop,
  ◌>>=◌,
}
use gobetween.Scheduler.Loop.{Event, step}
use gobetween.Metrics
use gobetween.Metrics.{Client, report_backend_stats_change, report_live_change, remove_backend}

module _ {Vec Num : Type 0} (client : Client Vec Num) (server : String) where
  -- The call that an effect of the scheduler is, with the table at that time.
  unfoldable pub call :
      List (Target × Backend) → Metrics.Metrics Vec → Effect → Option (Metrics.Metrics Vec)
  call m mtr (report_stats t) = report_backend_stats_change client server t m mtr
  call m mtr (report_op t) = Metrics.report_op client server t m mtr
  call m mtr (report_live t is_live) = some (report_live_change client server t is_live mtr)
  call m mtr (remove_metric b) = some (remove_backend client server b mtr)
  call m mtr (forget_server m') = some (Metrics.remove_server client server m' mtr)
  call m mtr _ = some mtr

  unfoldable pub calls :
      List (Target × Backend) → Metrics.Metrics Vec → List Effect → Option (Metrics.Metrics Vec)
  calls m mtr [] = some mtr
  calls m mtr (e ∷ es) = do mtr' ← call m mtr e; calls m mtr' es

  unfoldable pub observe :
      Env → Scheduler → Metrics.Metrics Vec → Event → Option (Scheduler × Metrics.Metrics Vec)
  unfolding calls call
  observe env s mtr e = do
    (s', sent) ← step env s e
    mtr' ← calls s'.backends mtr sent
    some (s', mtr')

  -- A run of the loop up to its stop.
  unfoldable pub observe_all :
      Env → Scheduler → Metrics.Metrics Vec → List Event → Option (Metrics.Metrics Vec)
  unfolding observe calls
  observe_all env s mtr [] = calls s.backends mtr (stop s)
  observe_all env s mtr (e ∷ es) = do (s', mtr') ← observe env s mtr e; observe_all env s' mtr' es
