-- ===== src/Scheduler/Ledger.antt =====
-- The connection counter of a backend over a run of the scheduler.
use gobetween.Base.{
  ℕ, ◌+◌, ◌-◌, ◌≤◌, ◌<◌, ◌≡◌, refl, ap, ◌∙◌, subst, inl, inr, false, Option, none, some, List, [],
  ◌∷◌, if◌then◌else◌, arith, Bool-cases, Option-cases, word,
}
use gobetween.Core.{Target, Backend, BackendStats, ReadWriteCount, ◌=t◌, =t_iff}
use gobetween.Core.Table.{lookup, insert, IsTable, lookup-insert}
use gobetween.Balance.Types.{Env}
use gobetween.Scheduler.{
  Scheduler, Effect, OpAction, increment_connection, decrement_connection, increment_refused,
  increment_tx, increment_rx, active, with_stats, handle_stats_change, handle_live_change,
  handle_op, handle_elect, handle_backends_update, set_discovered, rediscover, perform, forward,
  written, read, traffic, answer, candidates,
}
use gobetween.Balance.Registry
use gobetween.Scheduler.WellFormed.{IsWellFormed, step-IsWellFormed}
use gobetween.Scheduler.Update.{update-Computed, Computed}
use gobetween.Scheduler.Discovery.{first_for, last_for}
use gobetween.Scheduler.Loop.{
  Event, step, run, discovered, checked, push_tick, bandwidth, operation, elect_request,
}

opened : Target → Target → OpAction → ℕ
opened t u increment_connection = if u =t t then 1 else 0
opened t u a = 0

closed : Target → Target → OpAction → ℕ
closed t u decrement_connection = if u =t t then 1 else 0
closed t u a = 0

-- What an event adds to and takes from the connections of a target.
unfoldable pub opens : Target → Event → ℕ
unfolding opened
opens t (operation op) = opened t op.target op.action
opens t e = 0

unfoldable pub closes : Target → Event → ℕ
unfolding closed
closes t (operation op) = closed t op.target op.action
closes t e = 0

-- A target is in the table, with so many active connections.
abbrev pub Tracks : Target → ℕ → List (Target × Backend) → Type 0
Tracks t n m = (b : Backend) × (lookup t m ≡ some b) × (active b ≡ n)

with_stats-Tracks :
    (rep : Effect) (s : Scheduler) (t u : Target) (f : BackendStats → BackendStats) (n k : ℕ)
    → Tracks t n s.backends
    → ((st : BackendStats) → st.active_connections ≡ n → (f st).active_connections ≡ k)
    → Tracks t (if u =t t then k else n) (with_stats s u rep f).0.backends
unfolding with_stats
with_stats-Tracks rep s t u f n k (b, q, a) h = elim (Option-cases (lookup u s.backends)) [
  | inl p ↦ (b, rw (p, with_stats) q, absent p)
  | inr (c, p) ↦
      let c' : Backend = record c { stats = f c.stats } in rw (p, with_stats) (found c c' p refl)
]
  where
    found :
        (c c' : Backend)
        → lookup u s.backends ≡ some c
        → c' ≡ record c { stats = f c.stats }
        → Tracks t (if u =t t then k else n) (insert u c' s.backends)
    found c c' p r = elim (Bool-cases (u =t t)) [
      | inl h' ↦
          let same : c ≡ b = ground (arith, =t_iff u t) in
          let st : c.stats.active_connections ≡ n = ap active same ∙ a in
          (c', ground (arith, lookup-insert u t c' s.backends), ground (arith, h c.stats st))
      | inr h' ↦ (b, ground (arith, lookup-insert u t c' s.backends), ground arith)
    ]

    absent : lookup u s.backends ≡ none → active b ≡ (if u =t t then k else n)
    absent p = ground (arith, =t_iff u t)

Tracks-eq :
    (t : Target) (n k : ℕ) (m : List (Target × Backend)) → n ≡ k → Tracks t n m → Tracks t k m
Tracks-eq t n k m e = subst (λ i. Tracks t i m) e

-- The state of a result.
moved :
    (r : Scheduler × List Effect) (s' : Scheduler) (sent : List Effect)
    → some r ≡ some (s', sent)
    → r.0 ≡ s'
moved r s' sent e = ground arith

stats-Tracks :
    (rep : Effect) (s s' : Scheduler) (t u : Target) (f : BackendStats → BackendStats)
    (sent : List Effect) (n k l : ℕ)
    → some (with_stats s u rep f) ≡ some (s', sent)
    → Tracks t n s.backends
    → ((st : BackendStats) → st.active_connections ≡ n → (f st).active_connections ≡ k)
    → (if u =t t then k else n) ≡ l
    → Tracks t l s'.backends
stats-Tracks rep s s' t u f sent n k l e h act eq =
    subst (λ (x : Scheduler). Tracks t l x.backends) (moved (with_stats s u rep f) s' sent e)
      (Tracks-eq t (if u =t t then k else n) l _ eq (with_stats-Tracks _ s t u f n k h act))

forward-same :
    (s s' : Scheduler) (c : Option ReadWriteCount) (sent : List Effect)
    → forward s c ≡ some (s', sent)
    → s ≡ s'
unfolding forward
forward-same s s' none sent e = cc
forward-same s s' (some c) sent e = moved (s, traffic c ∷ []) s' sent e

perform-Tracks :
    (s s' : Scheduler) (t u : Target) (a : OpAction) (param : Option ℕ) (sent : List Effect) (n : ℕ)
    → perform s a u param ≡ some (s', sent)
    → 0 < n
    → n + 1 < word
    → Tracks t n s.backends
    → Tracks t (n + opened t u a - closed t u a) s'.backends
unfolding perform opened closed
perform-Tracks s s' t u increment_connection param sent n e pos few h =
    stats-Tracks _ s s' t u _ sent n (n + 1) _ e h (λ st p. ground arith) (ground arith)
perform-Tracks s s' t u decrement_connection param sent n e pos few h =
    stats-Tracks _ s s' t u _ sent n (n - 1) _ e h (λ st p. ground arith) (ground arith)
perform-Tracks s s' t u increment_refused param sent n e pos few h =
    stats-Tracks _ s s' t u _ sent n n _ e h (λ st p. p) (ground arith)
perform-Tracks s s' t u increment_tx param sent n e pos few h = Tracks-eq t n _ _ (omega arith) (
    subst (λ (x : Scheduler). Tracks t n x.backends) (forward-same s s' (written u param) sent e) h)
perform-Tracks s s' t u increment_rx param sent n e pos few h =
    Tracks-eq t n _ _ (omega arith)
      (subst (λ (x : Scheduler). Tracks t n x.backends) (forward-same s s' (read u param) sent e) h)

discovered-Tracks :
    (s s' : Scheduler) (t : Target) (bs : List Backend) (sent : List Effect) (n : ℕ)
    → handle_backends_update s bs ≡ some (s', sent)
    → IsTable s.backends
    → 0 < n
    → Tracks t n s.backends
    → Tracks t n s'.backends
unfolding rediscover set_discovered
discovered-Tracks s s' t bs sent n e w pos (b, q, a) = survive (last_for t bs) (
    subst (λ o. Computed s.healthcheck o (first_for t bs) (last_for t bs) (lookup t s'.backends)) q
      (update-Computed s s' bs sent t e w))
  where
    survive :
        (last : Option Backend)
        → Computed s.healthcheck (some b) (first_for t bs) last (lookup t s'.backends)
        → Tracks t n s'.backends
    survive none h = (set_discovered false b, ground arith, a)
    survive (some c) h = (rediscover b c, h, a)

step-Tracks :
    (env : Env) (s s' : Scheduler) (t : Target) (e : Event) (sent : List Effect) (n : ℕ)
    → step env s e ≡ some (s', sent)
    → IsTable s.backends
    → 0 < n
    → n + 1 < word
    → Tracks t n s.backends
    → Tracks t (n + opens t e - closes t e) s'.backends
unfolding step opens closes handle_live_change handle_stats_change handle_op handle_elect
step-Tracks env s s' t (discovered bs) sent n q w pos few h =
    elim (Option-cases (handle_backends_update s bs)) [
      | inl p ↦ absurd (ground arith)
      | inr ((s1, sent1), p) ↦
          let now : s1 ≡ s' = ground arith in
          Tracks-eq t n _ _ (omega arith) (
            subst (λ (x : Scheduler). Tracks t n x.backends) now
              (discovered-Tracks s s1 t bs sent1 n p w pos h))
    ]
step-Tracks env s s' t (checked r) sent n q w pos few h =
    stats-Tracks _ s s' t r.target _ sent n n _ q h (λ st p. p) (ground arith)
step-Tracks env s s' t push_tick sent n q w pos few h =
    Tracks-eq t n _ _ (omega arith)
      (subst (λ (x : Scheduler). Tracks t n x.backends) (moved _ s' sent q) h)
step-Tracks env s s' t (bandwidth bs) sent n q w pos few h =
    stats-Tracks _ s s' t bs.target _ sent n n _ q h (λ st p. p) (ground arith)
step-Tracks env s s' t (operation op) sent n q w pos few h =
    perform-Tracks s s' t op.target op.action op.param sent n q pos few h
step-Tracks env s s' t (elect_request ctx) sent n q w pos few h =
    elim (Option-cases (answer (Registry.elect env s.balancer ctx (candidates s.backends)).0)) [
      | inl p ↦ absurd (ground arith)
      | inr (sent', p) ↦
          let same : s.backends ≡ s'.backends = ground arith in
          Tracks-eq t n _ _ (omega arith) (subst (Tracks t n) same h)
    ]

-- The connections of a target stay open, and countable, up to the last event of a run.
abbrev pub StaysOpen : Target → ℕ → List Event → Type 0
StaysOpen t n [] = Unit
StaysOpen t n (e ∷ es) = (0 < n) × (n + 1 < word) × StaysOpen t (n + opens t e - closes t e) es

unfoldable pub all_opens : Target → List Event → ℕ
all_opens t [] = 0
all_opens t (e ∷ es) = opens t e + all_opens t es

unfoldable pub all_closes : Target → List Event → ℕ
all_closes t [] = 0
all_closes t (e ∷ es) = closes t e + all_closes t es

closes-le : (t : Target) (e : Event) → closes t e ≤ 1
unfolding closes closed
closes-le t (operation op) = ground arith
closes-le t e = omega arith

-- In a run from a well-formed scheduler to an end, a target whose connections stay open, and
-- countable, up to the last event is never dropped, by no discovery that leaves it out, and its
-- counter is what it was, plus what was opened, less what was closed.
pub run-ledger :
    (env : Env) (s s' : Scheduler) (t : Target) (es : List Event) (n : ℕ)
    → IsWellFormed s
    → run env s es ≡ some s'
    → Tracks t n s.backends
    → StaysOpen t n es
    → (b : Backend) × (lookup t s'.backends ≡ some b)
      × (active b + all_closes t es ≡ n + all_opens t es)
unfolding run all_opens all_closes
run-ledger env s s' t [] n w q (b, p, a) o =
    let same : s ≡ s' = ground arith in
    (b, subst (λ (x : Scheduler). lookup t x.backends ≡ some b) same p, omega arith)
run-ledger env s s' t (e ∷ es) n w q h (pos, few, o) = elim (Option-cases (step env s e)) [
  | inl p ↦ absurd (ground arith)
  | inr ((s1, sent), p) ↦
      let rest : run env s1 es ≡ some s' = ground arith in
      let now = step-Tracks env s s1 t e sent n p w.keyed.0 pos few h in
      let (b, p', a) =
        run-ledger env s1 s' t es (n + opens t e - closes t e)
          (step-IsWellFormed env s s1 e sent p w) rest now o in
      (b, p', omega (arith, closes-le t e))
]
