-- ===== src/Metrics/Update.antt =====
-- The gauges of the backends after an update of the table.
use gobetween.Base.{
  String, ◌≡◌, refl, ◌∙◌, ap, subst, inl, inr, false, not, none, some, List, [], ◌∷◌, ◌++◌, map,
  arith, Option-cases, keep, Member_of_keep,
}
use gobetween.Core.{Target, Backend}
use gobetween.Core.Table.{
  lookup, map_values, keep_values, lookup-insert, lookup-keep_values, lookup-map_values,
}
use gobetween.Config.{HealthcheckConfig}
use gobetween.Scheduler.{
  Scheduler, Effect, values, retained, discover, discover_one, set_discovered, remove_metric,
  rediscover, handle_backends_update,
}
use gobetween.Scheduler.Loop.{sync}
use gobetween.Scheduler.Discovery.{one_known, one_new}
use gobetween.Scheduler.WellFormed.{marked-IsKeyed, discover-IsKeyed, IsKeyed, IsWellFormed}
use gobetween.Metrics.{Client, Gauges, Metrics, backend_labels, remove_backends, remove_backend}
use gobetween.Metrics.Series.{IsClient, gauge}
use gobetween.Metrics.Observed.{call, calls}
use gobetween.Metrics.Removed.{
  on, IsCovered, OthersKept, removed, remove_backends-on, removed-gone, removed-none,
  removed-OthersKept, lookup-Member,
}

one_keeps :
    (cfg : HealthcheckConfig) (m m' : List (Target × Backend)) (b : Backend) (t : Target)
    → discover_one cfg m b ≡ some m'
    → lookup t m' ≡ none
    → lookup t m ≡ none
one_keeps cfg m m' b t e h = elim (Option-cases (lookup b.target m)) [
  | inl k ↦ let (a, _, q) = one_new cfg m m' b e k in ground (arith, lookup-insert b.target t a m)
  | inr (old, k) ↦
      let q = one_known cfg m m' b old e k in
      ground (arith, lookup-insert b.target t (rediscover old b) m)
]

discover_keeps :
    (cfg : HealthcheckConfig) (m m' : List (Target × Backend)) (bs : List Backend) (t : Target)
    → discover cfg m bs ≡ some m'
    → lookup t m' ≡ none
    → lookup t m ≡ none
unfolding discover
discover_keeps cfg m m' [] t e h = ground arith
discover_keeps cfg m m' (b ∷ bs) t e h = elim (Option-cases (discover_one cfg m b)) [
  | inl p ↦ absurd (ground arith)
  | inr (m1, p) ↦ one_keeps cfg m m1 b t p (discover_keeps cfg m1 m' bs t (ground arith) h)
]

unmarked :
    (t : Target) (m : List (Target × Backend))
    → lookup t (map_values (set_discovered false) m) ≡ none
    → lookup t m ≡ none
unmarked t m h = ground (arith, lookup-map_values (set_discovered false) t m)

module _ {Vec Num : Type 0} (client : Client Vec Num) (server : String) where
  -- The calls of metrics that an event makes do not panic and keep the gauges covered.
  abbrev pub Kept : Gauges Vec → List (Target × Backend) → List Effect → Type 0
  Kept gs m sent =
      (gs' : Gauges Vec) × (calls client server m (on gs) sent ≡ some (on gs'))
      × IsCovered client server m gs'
      × OthersKept client server gs gs'

  removals :
      (m : List (Target × Backend)) (mtr : Metrics Vec) (bs : List Backend) (rest : List Effect)
      → calls client server m mtr (map remove_metric bs ++ rest)
        ≡ calls client server m (remove_backends client server bs mtr) rest
  unfolding calls call remove_backends
  removals m mtr [] rest = refl
  removals m mtr (b ∷ bs) rest = removals m (remove_backend client server b mtr) bs rest

  module _ (laws : IsClient client) where
    swept-IsCovered :
        (m : List (Target × Backend)) (gs : Gauges Vec)
        → IsKeyed m
        → IsCovered client server m gs
        → IsCovered client server
            (keep_values retained m)
            (removed client server (keep (λ b. not (retained b)) (values m)) gs)
    swept-IsCovered m gs k h g t p = elim (Option-cases (lookup t m)) [
      | inl q ↦ removed-none client laws server _ gs g t (h g t q)
      | inr (b, q) ↦
          let r : retained b ≡ false = ground (arith, lookup-keep_values retained t m k.0) in
          subst
            (λ (u : Target).
              client.value (backend_labels server u)
                (gauge g (removed client server (keep (λ b. not (retained b)) (values m)) gs))
              ≡ none)
            (k.1 t b q)
            (removed-gone client laws server _ gs g b (
              Member_of_keep (λ b. not (retained b)) b (values m) (lookup-Member t b m q)
                (rw r refl)))
    ]

    sweep-Kept :
        (m : List (Target × Backend)) (s' : Scheduler) (sent : List Effect) (gs : Gauges Vec)
        → keep_values retained m ≡ s'.backends
        → map remove_metric (keep (λ b. not (retained b)) (values m)) ≡ sent
        → IsKeyed m
        → IsCovered client server m gs
        → Kept gs s'.backends (sent ++ sync s')
    unfolding sync calls call
    sweep-Kept m s' sent gs now all k h =
        subst (λ es. Kept gs s'.backends (es ++ sync s')) all
          (subst
            (λ (x : List (Target × Backend)).
              Kept gs x (map remove_metric (keep (λ b. not (retained b)) (values m)) ++ sync s'))
            now
            (
              removed client server (keep (λ b. not (retained b)) (values m)) gs,
              removals _ (on gs) _ (sync s') ∙ ap some (remove_backends-on client server _ gs),
              swept-IsCovered m gs k h,
              removed-OthersKept client laws server _ gs,
            ))

    -- The events of the loop.
    pub update-Kept :
        (s s' : Scheduler) (bs : List Backend) (sent : List Effect) (gs : Gauges Vec)
        → handle_backends_update s bs ≡ some (s', sent)
        → IsWellFormed s
        → IsCovered client server s.backends gs
        → Kept gs s'.backends (sent ++ sync s')
    unfolding handle_backends_update
    update-Kept s s' bs sent gs e w h =
        elim (Option-cases
          (discover s.healthcheck (map_values (set_discovered false) s.backends) bs)) [
            | inl p ↦ absurd (ground arith)
            | inr (m, p) ↦
                sweep-Kept m s' sent gs (ground arith) (ground arith)
                  (discover-IsKeyed s.healthcheck _ m bs p (marked-IsKeyed s.backends w.keyed))
                  (λ g t q.
                    h g t (unmarked t s.backends (discover_keeps s.healthcheck _ m bs t p q)))
          ]
