-- ===== src/Metrics/Swept.antt =====
-- The gauges of the backends through a run of the scheduler, up to its stop.
use gobetween.Metrics.Update.{Kept, update-Kept}
use gobetween.Metrics.Reports.{
  stats-CallConfined, live-CallConfined, stats-Kept, Kept-result, perform-Kept,
}
use gobetween.Base.{
  String, ◌≡◌, refl, ◌∙◌, ap, subst, inl, inr, none, some, List, [], ◌∷◌, ◌++◌, arith, Option-cases,
}
use gobetween.Core.{Target, Backend}
use gobetween.Core.Table.{lookup}
use gobetween.Balance.Types.{Env, Context, Outcome, elected, nothing, refused, panics}
use gobetween.Balance.Registry
use gobetween.Scheduler.{
  handle_elect, handle_op, handle_live_change, handle_stats_change, stop, respond, respond_error,
  answer, candidates, Scheduler, Effect, values, handle_backends_update,
}
use gobetween.Scheduler.Loop.{
  run, step, sync, Event, discovered, checked, push_tick, bandwidth, operation, elect_request,
}
use gobetween.Scheduler.WellFormed.{step-IsWellFormed, IsKeyed, IsWellFormed}
use gobetween.Metrics.{
  Client, Gauges, Metrics, backend_labels, when_enabled, without_server, remove_server,
}
use gobetween.Metrics.Series.{IsClient, BackendGauge, gauge, without_server-same}
use gobetween.Metrics.Observed.{call, calls, observe, observe_all}
use gobetween.Metrics.Removed.{
  Swept, on, IsCovered, removed, remove_backends-on, removed-gone, removed-none, removed-OthersKept,
  lookup-Member,
}

module _ {Vec Num : Type 0} (client : Client Vec Num) (server : String) where
  module _ (laws : IsClient client) where
    answer_quiet :
        (o : Outcome) (m : List (Target × Backend)) (mtr : Metrics Vec) (sent : List Effect)
        → answer o ≡ some sent
        → calls client server m mtr sent ≡ some mtr
    unfolding answer calls call
    answer_quiet (elected b) m mtr sent e =
        let q : respond b ∷ [] ≡ sent = ground arith in rw (← q) refl
    answer_quiet nothing m mtr sent e = cc
    answer_quiet (refused x) m mtr sent e =
        let q : respond_error x ∷ [] ≡ sent = ground arith in rw (← q) refl
    answer_quiet panics m mtr sent e = cc

    elect-Kept :
        (env : Env) (s s' : Scheduler) (ctx : Context) (sent : List Effect) (gs : Gauges Vec)
        → handle_elect env s ctx ≡ some (s', sent)
        → IsCovered client server s.backends gs
        → Kept client server gs s'.backends sent
    unfolding handle_elect
    elect-Kept env s s' ctx sent gs e h =
        elim (Option-cases (answer (Registry.elect env s.balancer ctx (candidates s.backends)).0)) [
          | inl p ↦ absurd (ground arith)
          | inr (sent1, p) ↦
              let same : sent1 ≡ sent = ground arith in
              let now : s.backends ≡ s'.backends = ground arith in
              subst (λ (m : List (Target × Backend)). Kept client server gs m sent) now
                (
                  gs,
                  rw (← same) (answer_quiet _ s.backends (on gs) sent1 p),
                  h,
                  λ g other u d. refl,
                )
        ]

    step-Kept :
        (env : Env) (s s' : Scheduler) (e : Event) (sent : List Effect) (gs : Gauges Vec)
        → step env s e ≡ some (s', sent)
        → IsWellFormed s
        → IsCovered client server s.backends gs
        → Kept client server gs s'.backends sent
    unfolding step handle_live_change handle_stats_change handle_op calls call
    step-Kept env s s' (discovered bs) sent gs q w h =
        elim (Option-cases (handle_backends_update s bs)) [
          | inl p ↦ absurd (ground arith)
          | inr ((s1, sent1), p) ↦
              Kept-result client server laws (s1, sent1 ++ sync s1) s' sent gs (ground arith)
                (update-Kept client server laws s s1 bs sent1 gs p w h)
        ]
    step-Kept env s s' (checked r) sent gs q w h = Kept-result client server laws _ s' sent gs q (
        stats-Kept client server laws s r.target _ _ gs
          (live-CallConfined client server laws r.target _) h)
    step-Kept env s s' push_tick sent gs q w h =
        Kept-result client server laws _ s' sent gs q (gs, refl, h, λ g other u d. refl)
    step-Kept env s s' (bandwidth bs) sent gs q w h =
        Kept-result client server laws _ s' sent gs q (
          stats-Kept client server laws s bs.target _ _ gs
            (stats-CallConfined client server laws bs.target) h)
    step-Kept env s s' (operation op) sent gs q w h =
        perform-Kept client server laws s s' op.action op.target op.param sent gs q h
    step-Kept env s s' (elect_request ctx) sent gs q w h = elect-Kept env s s' ctx sent gs q h

    all_gone :
        (m : List (Target × Backend)) (gs : Gauges Vec)
        → IsKeyed m
        → IsCovered client server m gs
        → (g : BackendGauge) (t : Target)
        → client.value (backend_labels server t) (gauge g (removed client server (values m) gs))
          ≡ none
    all_gone m gs k h g t = elim (Option-cases (lookup t m)) [
      | inl q ↦ removed-none client laws server _ gs g t (h g t q)
      | inr (b, q) ↦
          subst
            (λ (u : Target).
              client.value (backend_labels server u) (gauge g (removed client server (values m) gs))
              ≡ none)
            (k.1 t b q) (removed-gone client laws server (values m) gs g b (lookup-Member t b m q))
    ]

    stop-Swept :
        (s : Scheduler) (gs : Gauges Vec)
        → IsWellFormed s
        → IsCovered client server s.backends gs
        → Swept client server gs (calls client server s.backends (on gs) (stop s))
    unfolding stop calls call remove_server when_enabled
    stop-Swept s gs w h =
        let gs1 = without_server client server gs in
        let h1 : IsCovered client server s.backends gs1 = λ g t q.
          ap (client.value (backend_labels server t)) (without_server-same client server gs g)
          ∙ h g t q in
        (
          removed client server (values s.backends) gs1,
          ap some (remove_backends-on client server (values s.backends) gs1),
          λ g t. all_gone s.backends gs1 w.keyed h1 g t,
          λ g other t d.
              removed-OthersKept client laws server (values s.backends) gs1 g other t d
              ∙ ap (client.value (backend_labels other t)) (without_server-same client server gs g),
        )

    -- In every run of a well-formed scheduler that does not panic, from gauges with values only
    -- for its table, the calls of the metrics do not panic either, and after the stop no gauge
    -- shows a backend of the server, while what the gauges show of other servers is as before.
    pub observe_all-Swept :
        (env : Env) (s s' : Scheduler) (es : List Event) (gs : Gauges Vec)
        → run env s es ≡ some s'
        → IsWellFormed s
        → IsCovered client server s.backends gs
        → Swept client server gs (observe_all client server env s (on gs) es)
    unfolding run observe_all observe
    observe_all-Swept env s s' [] gs e w h = stop-Swept s gs w h
    observe_all-Swept env s s' (x ∷ es) gs e w h = elim (Option-cases (step env s x)) [
      | inl p ↦ absurd (ground arith)
      | inr ((s1, sent), p) ↦
          let (gs1, q, h1, o1) = step-Kept env s s1 x sent gs p w h in
          let (gs2, r, gone, o2) =
            observe_all-Swept env s1 s' es gs1 (rw p at e) (step-IsWellFormed env s s1 x sent p w)
              h1 in
          (gs2, rw p (rw q r), gone, λ g other t d. o2 g other t d ∙ o1 g other t d)
    ]
