-- ===== src/Scheduler/Totality.antt =====
-- `HandleBackendsUpdate` and its panics.
use gobetween.Base.{◌≡◌, refl, ap, ◌∙◌, inl, inr, false, some, List, [], ◌∷◌, arith, Option-cases}
use gobetween.Core.{Target, Backend}
use gobetween.Core.Table.{map_values}
use gobetween.Config.{HealthcheckConfig}
use gobetween.Healthcheck.Types.{IsStatusName, initial_status_total}
use gobetween.Scheduler.{
  Scheduler, Effect, set_discovered, admit, discover, discover_one, handle_backends_update, ◌>>=◌,
}

admit_total :
    (cfg : HealthcheckConfig) (b : Backend)
    → IsStatusName cfg.initial_status
    → (a : Backend) × (admit cfg b ≡ some a)
unfolding admit
admit_total cfg b v = elim (Option-cases (admit cfg b)) [
  | inl p ↦ let (st, q, _) = initial_status_total cfg v in absurd (ground arith)
  | inr r ↦ r
]

one_total :
    (cfg : HealthcheckConfig) (m : List (Target × Backend)) (b : Backend)
    → IsStatusName cfg.initial_status
    → (m' : List (Target × Backend)) × (discover_one cfg m b ≡ some m')
unfolding discover_one
one_total cfg m b v = elim (Option-cases (discover_one cfg m b)) [
  | inl p ↦ let (a, q) = admit_total cfg b v in absurd (ground arith)
  | inr r ↦ r
]

discover_total :
    (cfg : HealthcheckConfig) (m : List (Target × Backend)) (bs : List Backend)
    → IsStatusName cfg.initial_status
    → (m' : List (Target × Backend)) × (discover cfg m bs ≡ some m')
unfolding discover
discover_total cfg m [] v = (m, refl)
discover_total cfg m (b ∷ bs) v =
    let (m1, p) = one_total cfg m b v in
    let (m', q) = discover_total cfg m1 bs v in (m', ap (λ o. o >>= λ x. discover cfg x bs) p ∙ q)

-- With a validated first status of the healthcheck an update of the backends never panics.
pub update_total :
    (s : Scheduler) (bs : List Backend)
    → IsStatusName s.healthcheck.initial_status
    → (r : Scheduler × List Effect) × (handle_backends_update s bs ≡ some r)
unfolding handle_backends_update
update_total s bs v = elim (Option-cases (handle_backends_update s bs)) [
  | inl p ↦
      let (m, q) =
        discover_total s.healthcheck (map_values (set_discovered false) s.backends) bs v in
      absurd (ground arith)
  | inr r ↦ r
]
