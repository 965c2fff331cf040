-- ===== src/Metrics/Reports.antt =====
-- The gauges of the backends after a report.
use gobetween.Metrics.Update.{Kept}
use gobetween.Base.{
  length, ℕ, String, ◌≡◌, refl, ap, subst, inl, inr, Bool, Option, none, some, List, arith,
  Option-cases,
}
use gobetween.Core.{Target, Backend, BackendStats, =t_iff}
use gobetween.Core.Table.{lookup, insert, lookup-insert}
use gobetween.Scheduler.{
  forward, increment_connection, increment_refused, decrement_connection, increment_tx,
  increment_rx, report_op, report_stats, report_live, OpAction, perform, ◌>>=◌, Scheduler, Effect,
  with_stats,
}
use gobetween.Metrics
use gobetween.Metrics.{
  report_with, report_backend_stats_change, report_live_change, with_live, with_op,
  with_backend_stats, Client, Gauges, Metrics, backend_labels, when_enabled, without_backend,
  remove_backends, remove_backend, without_server, remove_server,
}
use gobetween.Metrics.Series.{
  with_live-Confined, with_op-Confined, with_backend_stats-Confined, IsClient, Confined,
}
use gobetween.Metrics.Observed.{call, calls}
use gobetween.Metrics.Removed.{on, IsCovered, Confined-IsCovered, Confined-OthersKept}

module _ {Vec Num : Type 0} (client : Client Vec Num) (server : String) where
  module _ (laws : IsClient client) where
    -- A call about a target of the table does not panic, and touches only its gauges.
    abbrev pub CallConfined : Target → Effect → Type 0
    CallConfined t r =
        (m : List (Target × Backend)) (b : Backend) (gs : Gauges Vec)
        → lookup t m ≡ some b
        → (gs' : Gauges Vec) × (call client server m (on gs) r ≡ some (on gs'))
          × Confined client server t gs gs'

    pub stats-CallConfined : (t : Target) → CallConfined t (report_stats t)
    unfolding call report_backend_stats_change report_with when_enabled
    stats-CallConfined t m b gs h = (
      with_backend_stats client server t (length m) b.stats gs,
      rw h refl,
      with_backend_stats-Confined client laws server t (length m) gs b.stats,
    )

    op-CallConfined : (t : Target) → CallConfined t (report_op t)
    unfolding call Metrics.report_op report_with when_enabled
    op-CallConfined t m b gs h = (
      with_op client server t b.stats gs,
      rw h refl,
      with_op-Confined client laws server t gs b.stats,
    )

    pub live-CallConfined : (t : Target) (is_live : Bool) → CallConfined t (report_live t is_live)
    unfolding call report_live_change when_enabled
    live-CallConfined t is_live m b gs h = (
      with_live client server t is_live gs,
      refl,
      with_live-Confined client laws server t is_live gs,
    )

    pub stats-Kept :
        (s : Scheduler) (t : Target) (r : Effect) (f : BackendStats → BackendStats)
        (gs : Gauges Vec)
        → CallConfined t r
        → IsCovered client server s.backends gs
        → Kept client server gs (with_stats s t r f).0.backends (with_stats s t r f).1
    unfolding with_stats calls
    stats-Kept s t r f gs c h = elim (Option-cases (lookup t s.backends)) [
      | inl p ↦ rw (p, with_stats) (gs, refl, h, λ g other u d. refl)
      | inr (b, p) ↦
          let b' : Backend = record b { stats = f b.stats } in
          let (gs', q, k) =
            c (insert t b' s.backends) b' gs
              (ground (arith, =t_iff t t, lookup-insert t t b' s.backends)) in
          rw (p, with_stats)
            (
              gs',
              ap (λ o. o >>= λ mtr. some mtr) q,
              Confined-IsCovered client server t b' s.backends gs gs' k h,
              Confined-OthersKept client server t gs gs' k,
            )
    ]

    pub Kept-result :
        (r : Scheduler × List Effect) (s' : Scheduler) (sent : List Effect) (gs : Gauges Vec)
        → some r ≡ some (s', sent)
        → Kept client server gs r.0.backends r.1
        → Kept client server gs s'.backends sent
    Kept-result r s' sent gs e k =
        let same : r ≡ (s', sent) = ground arith in
        subst (λ (x : Scheduler × List Effect). Kept client server gs x.0.backends x.1) same k

    pub perform-Kept :
        (s s' : Scheduler) (a : OpAction) (t : Target) (param : Option ℕ) (sent : List Effect)
        (gs : Gauges Vec)
        → perform s a t param ≡ some (s', sent)
        → IsCovered client server s.backends gs
        → Kept client server gs s'.backends sent
    unfolding perform forward calls call
    perform-Kept s s' increment_tx t none sent gs e h = cc
    perform-Kept s s' increment_rx t none sent gs e h = cc
    perform-Kept s s' increment_tx t (some n) sent gs e h =
        Kept-result _ s' sent gs e (gs, refl, h, λ g other u d. refl)
    perform-Kept s s' increment_rx t (some n) sent gs e h =
        Kept-result _ s' sent gs e (gs, refl, h, λ g other u d. refl)
    perform-Kept s s' increment_connection t param sent gs e h =
        Kept-result _ s' sent gs e (stats-Kept s t _ _ gs (op-CallConfined t) h)
    perform-Kept s s' decrement_connection t param sent gs e h =
        Kept-result _ s' sent gs e (stats-Kept s t _ _ gs (op-CallConfined t) h)
    perform-Kept s s' increment_refused t param sent gs e h =
        Kept-result _ s' sent gs e (stats-Kept s t _ _ gs (op-CallConfined t) h)
