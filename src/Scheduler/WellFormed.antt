-- ===== src/Scheduler/WellFormed.antt =====
-- What holds of a scheduler between two events.
use mathlib.Core.Option
use gobetween.Base.{
  ℕ, ◌≡◌, refl, ◌∙◌, subst, inl, inr, false, Option, none, some, List, [], ◌∷◌, if◌then◌else◌,
  arith, Bool-cases, Option-cases,
}
use gobetween.Core.{Target, Backend, BackendStats, ◌=t◌, =t_iff}
use gobetween.Core.Table.{
  lookup, insert, map_values, keep_values, IsTable, lookup-insert, lookup-map_values,
  lookup-keep_values, insert-IsTable, map_values-IsTable, keep_values-IsTable, only_if,
}
use gobetween.Config.{HealthcheckConfig}
use gobetween.Scheduler.{
  Scheduler, set_discovered, rediscover, admit, discover, discover_one, retained, with_stats,
  Effect, OpAction, increment_connection, decrement_connection, increment_refused, increment_tx,
  increment_rx, handle_backends_update, handle_elect, handle_live_change, handle_stats_change,
  handle_op, answer, candidates, perform, counted,
}
use gobetween.Balance.Types.{Env, Context}
use gobetween.Balance.Registry
use gobetween.Balance.Registry.Sound.{HasLimit, HasLimit-elect}
use gobetween.Scheduler.Loop.{
  Event, step, discovered, checked, push_tick, bandwidth, operation, elect_request,
}
use gobetween.Scheduler.Discovery.{one_known, one_new}

-- The table has each key once, and each backend stands under its own target.
abbrev pub IsKeyed : List (Target × Backend) → Type 0
IsKeyed m = IsTable m × ((t : Target) (b : Backend) → lookup t m ≡ some b → b.target ≡ t)

insert-IsKeyed :
    (t : Target) (v : Backend) (m : List (Target × Backend))
    → v.target ≡ t
    → IsKeyed m
    → IsKeyed (insert t v m)
insert-IsKeyed t v m e h = (insert-IsTable t v m h.0, λ u b p. at u b (rw lookup-insert at p))
  where
    at :
        (u : Target) (b : Backend) → (if t =t u then some v else lookup u m) ≡ some b → b.target ≡ u
    at u b p = elim (Bool-cases (t =t u)) [
      | inl same ↦
          let v_is_b : v ≡ b = ground arith in
          subst (λ (x : Backend). x.target ≡ u) v_is_b (e ∙ (=t_iff t u).0 same)
      | inr other ↦ h.1 u b (ground arith)
    ]

with_stats-IsKeyed :
    (s : Scheduler) (t : Target) (r : Effect) (f : BackendStats → BackendStats)
    → IsKeyed s.backends
    → IsKeyed (with_stats s t r f).0.backends
unfolding with_stats
with_stats-IsKeyed s t r f h = elim (Option-cases (lookup t s.backends)) [
  | inl p ↦ rw (p, with_stats) h
  | inr (b, p) ↦
      rw (p, with_stats)
        (insert-IsKeyed t (record b { stats = f b.stats }) s.backends (h.1 t b p) h)
]

admit-target :
    (cfg : HealthcheckConfig) (b a : Backend) → admit cfg b ≡ some a → a.target ≡ b.target
unfolding admit
admit-target cfg b a e = ground arith

one-IsKeyed :
    (cfg : HealthcheckConfig) (m m' : List (Target × Backend)) (b : Backend)
    → discover_one cfg m b ≡ some m'
    → IsKeyed m
    → IsKeyed m'
unfolding discover_one rediscover
one-IsKeyed cfg m m' b e h = elim (Option-cases (lookup b.target m)) [
  | inl k ↦
      let (a, adm, q) = one_new cfg m m' b e k in
      subst IsKeyed q (insert-IsKeyed b.target a m (admit-target cfg b a adm) h)
  | inr (old, k) ↦
      subst IsKeyed (one_known cfg m m' b old e k)
        (insert-IsKeyed b.target (rediscover old b) m (h.1 b.target old k) h)
]

pub discover-IsKeyed :
    (cfg : HealthcheckConfig) (m m' : List (Target × Backend)) (bs : List Backend)
    → discover cfg m bs ≡ some m'
    → IsKeyed m
    → IsKeyed m'
unfolding discover
discover-IsKeyed cfg m m' [] e h = let same : m ≡ m' = ground arith in subst IsKeyed same h
discover-IsKeyed cfg m m' (b ∷ bs) e h = elim (Option-cases (discover_one cfg m b)) [
  | inl p ↦ absurd (ground arith)
  | inr (m1, p) ↦ discover-IsKeyed cfg m1 m' bs (ground arith) (one-IsKeyed cfg m m1 b p h)
]

marked-target : (b : Backend) → (set_discovered false b).target ≡ b.target
unfolding set_discovered
marked-target b = refl

pub marked-IsKeyed :
    (m : List (Target × Backend)) → IsKeyed m → IsKeyed (map_values (set_discovered false) m)
marked-IsKeyed m h = (
  map_values-IsTable (set_discovered false) m h.0,
  λ t b p. at t b (rw (lookup-map_values (set_discovered false) t m) at p),
)
  where
    at :
        (t : Target) (b : Backend)
        → Option.map (set_discovered false) (lookup t m) ≡ some b
        → b.target ≡ t
    at t b p = elim (Option-cases (lookup t m)) [
      | inl q ↦ absurd (ground arith)
      | inr (old, q) ↦
          let same : set_discovered false old ≡ b = ground arith in
          subst (λ (x : Backend). x.target ≡ t) same (marked-target old ∙ h.1 t old q)
    ]

kept-IsKeyed : (m : List (Target × Backend)) → IsKeyed m → IsKeyed (keep_values retained m)
kept-IsKeyed m h = (
  keep_values-IsTable retained m h.0,
  λ t b p. h.1 t b (at t b (rw (lookup-keep_values retained t m h.0) at p)),
)
  where
    at : (t : Target) (b : Backend) → only_if retained (lookup t m) ≡ some b → lookup t m ≡ some b
    at t b p = ground arith

-- The table is keyed, and the balancer has its middleware for connection limits.
pub record IsWellFormed (s : Scheduler) : Type 0 where
  pub keyed : IsKeyed s.backends
  pub limited : HasLimit s.balancer

same_state :
    (r : Scheduler × List Effect) (s' : Scheduler) (sent : List Effect)
    → some r ≡ some (s', sent)
    → IsWellFormed r.0
    → IsWellFormed s'
same_state r s' sent e h = let same : r.0 ≡ s' = ground arith in subst IsWellFormed same h

pub update-IsWellFormed :
    (s s' : Scheduler) (bs : List Backend) (sent : List Effect)
    → handle_backends_update s bs ≡ some (s', sent)
    → IsWellFormed s
    → IsWellFormed s'
unfolding handle_backends_update
update-IsWellFormed s s' bs sent e h =
    elim (Option-cases (discover s.healthcheck (map_values (set_discovered false) s.backends) bs)) [
      | inl p ↦ absurd (ground arith)
      | inr (m, p) ↦
          let now : record s { backends = keep_values retained m } ≡ s' = ground arith in
          subst IsWellFormed now (record {
            keyed =
                kept-IsKeyed m
                  (discover-IsKeyed s.healthcheck _ m bs p (marked-IsKeyed s.backends h.keyed));
            limited = h.limited;
          })
    ]

with_stats-IsWellFormed :
    (s : Scheduler) (t : Target) (r : Effect) (f : BackendStats → BackendStats)
    → IsWellFormed s
    → IsWellFormed (with_stats s t r f).0
unfolding with_stats
with_stats-IsWellFormed s t r f h = record {
  keyed = with_stats-IsKeyed s t r f h.keyed;
  limited = rw same h.limited;
}
  where
    same : (with_stats s t r f).0.balancer ≡ s.balancer
    same = ground arith

pub elect-IsWellFormed :
    (env : Env) (s s' : Scheduler) (ctx : Context) (sent : List Effect)
    → handle_elect env s ctx ≡ some (s', sent)
    → IsWellFormed s
    → IsWellFormed s'
unfolding handle_elect
elect-IsWellFormed env s s' ctx sent e h =
    elim (Option-cases (answer (Registry.elect env s.balancer ctx (candidates s.backends)).0)) [
      | inl p ↦ absurd (ground arith)
      | inr (sent', p) ↦
          let now : record s {
            balancer = (Registry.elect env s.balancer ctx (candidates s.backends)).1;
          }
              ≡ s' =
            ground arith in
          subst IsWellFormed now (record {
            keyed = h.keyed;
            limited = HasLimit-elect env s.balancer ctx (candidates s.backends) h.limited;
          })
    ]

perform-IsWellFormed :
    (s s' : Scheduler) (a : OpAction) (t : Target) (param : Option ℕ) (sent : List Effect)
    → perform s a t param ≡ some (s', sent)
    → IsWellFormed s
    → IsWellFormed s'
unfolding perform
perform-IsWellFormed s s' increment_connection t param sent e h =
    same_state _ s' sent e (with_stats-IsWellFormed s t _ (counted increment_connection) h)
perform-IsWellFormed s s' decrement_connection t param sent e h =
    same_state _ s' sent e (with_stats-IsWellFormed s t _ (counted decrement_connection) h)
perform-IsWellFormed s s' increment_refused t param sent e h =
    same_state _ s' sent e (with_stats-IsWellFormed s t _ (counted increment_refused) h)
perform-IsWellFormed s s' increment_tx t none sent e h = cc
perform-IsWellFormed s s' increment_tx t (some n) sent e h = same_state _ s' sent e h
perform-IsWellFormed s s' increment_rx t none sent e h = cc
perform-IsWellFormed s s' increment_rx t (some n) sent e h = same_state _ s' sent e h

-- Every event that does not panic keeps a scheduler well formed: its table has each key once, each
-- backend under its own target, and its balancer keeps the limit of connections.
pub step-IsWellFormed :
    (env : Env) (s s' : Scheduler) (e : Event) (sent : List Effect)
    → step env s e ≡ some (s', sent)
    → IsWellFormed s
    → IsWellFormed s'
unfolding step handle_live_change handle_stats_change handle_op
step-IsWellFormed env s s' (discovered bs) sent q h =
    elim (Option-cases (handle_backends_update s bs)) [
      | inl p ↦ absurd (ground arith)
      | inr ((s1, sent1), p) ↦
          let now : s1 ≡ s' = ground arith in
          subst IsWellFormed now (update-IsWellFormed s s1 bs sent1 p h)
    ]
step-IsWellFormed env s s' (checked r) sent q h =
    same_state _ s' sent q (with_stats-IsWellFormed s r.target _ _ h)
step-IsWellFormed env s s' push_tick sent q h = same_state _ s' sent q h
step-IsWellFormed env s s' (bandwidth bs) sent q h =
    same_state _ s' sent q (with_stats-IsWellFormed s bs.target _ _ h)
step-IsWellFormed env s s' (operation op) sent q h =
    perform-IsWellFormed s s' op.action op.target op.param sent q h
step-IsWellFormed env s s' (elect_request ctx) sent q h = elect-IsWellFormed env s s' ctx sent q h
