-- ===== src/Healthcheck/Worker.antt =====
-- healthcheck/worker.go: the worker of one target. `int` counters do not reach 2 ^ 63.
use gobetween.Base.{
  ℕ, ◌+◌, ◌≡◌, refl, sym, subst, Bool, false, ◌&&◌, ◌||◌, Option, none, some, List, [], ◌∷◌, ◌++◌,
  ◌==◌, if◌then◌else◌, arith, All, Option-cases, inl, inr,
}
use gobetween.Base.Int.{ℤ, pos, leb_ℤ, ◌≤ℤ◌, ◌<ℤ◌}
use gobetween.Core.{Target}
use gobetween.Healthcheck.Types.{Status, initial, unhealthy, healthy, CheckResult, same}

-- The thresholds are those of the configuration, which the manager makes positive.
pub record Worker : Type 0 where
  pub target : Target
  pub max_fails : ℤ
  pub max_passes : ℤ
  pub last_result : CheckResult
  pub passes : ℕ
  pub fails : ℕ

-- The two counters after a result that differs from the last one.
count : Worker → Status → Worker
count w unhealthy = record w { passes = 0; fails = w.fails + 1 }
count w healthy = record w { fails = 0; passes = w.passes + 1 }
count w initial = w

confirmed : Worker → Bool
confirmed w =
    (w.passes == 0 && leb_ℤ w.max_fails (pos w.fails))
    || (w.fails == 0 && leb_ℤ w.max_passes (pos w.passes))

-- `process`: the new worker, and what it sends to the scheduler.
unfoldable pub process : Worker → CheckResult → Worker × Option CheckResult
unfolding count confirmed
process w r =
    if same r.status w.last_result.status
    then (w, none)
    else let w' = count w r.status in
      if confirmed w' then (record w' { last_result = r }, some r) else (w', none)

abbrev push : Option CheckResult → List CheckResult → List CheckResult
push none rest = rest
push (some x) rest = x ∷ rest

-- A sequence of results, with what is sent, in order.
pub run : Worker → List CheckResult → Worker × List CheckResult
run w [] = (w, [])
run w (r ∷ rs) =
    let (w', sent) = process w r in let (w'', rest) = run w' rs in (w'', push sent rest)

-- A check reports one of two statuses.
abbrev pub IsDefinite : CheckResult → Type 0
IsDefinite r = same r.status initial ≡ false

-- Each result differs in status from the one before it.
abbrev pub Alternates : Status → List CheckResult → Type 0
Alternates s [] = Unit {0}
Alternates s (r ∷ rs) = (same r.status s ≡ false) × Alternates r.status rs

process_silent :
    (w : Worker) (r : CheckResult)
    → (process w r).1 ≡ none
    → (process w r).0.last_result ≡ w.last_result
unfolding process
process_silent w r h = ground arith

process_sends :
    (w : Worker) (r s : CheckResult)
    → (process w r).1 ≡ some s
    → (s ≡ r) × (same r.status w.last_result.status ≡ false) × ((process w r).0.last_result ≡ r)
unfolding process
process_sends w r s h = ground arith

-- A worker tells the scheduler of changes only: no two results in a row that it sends have one
-- status, and the first differs from the last one confirmed before.
pub run-Alternates :
    (w : Worker) (rs : List CheckResult) → Alternates w.last_result.status (run w rs).1
unfolding run
run-Alternates w [] = tt
run-Alternates w (r ∷ rs) = elim (Option-cases (process w r).1) [
  | inl q ↦ rw q (
      subst (λ (c : CheckResult). Alternates c.status (run (process w r).0 rs).1)
        (process_silent w r q) (run-Alternates (process w r).0 rs))
  | inr (s, q) ↦
      let (same_result, changed, last) = process_sends w r s q in
      rw (q, same_result)
        (
          changed,
          subst (λ (c : CheckResult). Alternates c.status (run (process w r).0 rs).1) last
              (run-Alternates (process w r).0 rs),
        )
]

-- How many of the results are of a status.
unfoldable pub occurrences : Status → List CheckResult → ℕ
occurrences s [] = 0
occurrences s (r ∷ rs) = let rest = occurrences s rs in if same r.status s then rest + 1 else rest

-- One result, for a worker that last confirmed `healthy`.
process_healthy :
    (w : Worker) (r : CheckResult)
    → IsDefinite r
    → w.last_result.status ≡ healthy
    → pos (w.fails + occurrences unhealthy (r ∷ [])) <ℤ w.max_fails
    → ((process w r).1 ≡ none)
      × ((process w r).0.last_result.status ≡ healthy)
      × ((process w r).0.max_fails ≡ w.max_fails)
      × ((process w r).0.fails ≡ w.fails + occurrences unhealthy (r ∷ []))
unfolding process occurrences
process_healthy w r d l b = ground arith

occurrences-cons :
    (r : CheckResult) (rs : List CheckResult)
    → occurrences unhealthy (r ∷ rs) ≡ occurrences unhealthy (r ∷ []) + occurrences unhealthy rs
unfolding occurrences
occurrences-cons r rs = ground arith

-- A worker that last confirmed healthy sends nothing as long as the fails among its definite
-- results since then are below the threshold, and it counts them all.
pub run_below :
    (w : Worker) (rs : List CheckResult)
    → All IsDefinite rs
    → w.last_result.status ≡ healthy
    → pos (w.fails + occurrences unhealthy rs) <ℤ w.max_fails
    → ((run w rs).1 ≡ []) × ((run w rs).0.fails ≡ w.fails + occurrences unhealthy rs)
unfolding run occurrences
run_below w [] d l b = (refl, omega arith)
run_below w (r ∷ rs) d l b =
    let total = occurrences-cons r rs in
    let (silent, still, limit, fails) = process_healthy w r d.0 l (omega arith) in
    let more = run_below (process w r).0 rs d.1 still (
      subst (λ m. pos ((process w r).0.fails + occurrences unhealthy rs) <ℤ m) (sym limit)
        (omega arith)) in
    (rw silent more.0, omega arith)

process_reaches :
    (w : Worker) (r : CheckResult)
    → r.status ≡ unhealthy
    → w.last_result.status ≡ healthy
    → w.max_fails ≤ℤ pos (w.fails + 1)
    → ((process w r).1 ≡ some r) × ((process w r).0.last_result ≡ r)
unfolding process
process_reaches w r h l b = ground arith

-- Of the definite results that a worker gets after it confirmed healthy, the first and only one
-- that it sends is the fail by which all fails since then reach the threshold, whatever the passes
-- between them: the fails need not be consecutive.
pub run_reaches :
    (w : Worker) (rs : List CheckResult) (r : CheckResult)
    → All IsDefinite rs
    → w.last_result.status ≡ healthy
    → r.status ≡ unhealthy
    → pos (w.fails + occurrences unhealthy rs) <ℤ w.max_fails
    → w.max_fails ≤ℤ pos (w.fails + occurrences unhealthy rs + 1)
    → (run w (rs ++ r ∷ [])).1 ≡ r ∷ []
unfolding run occurrences
run_reaches w [] r d l u lo hi = rw ((process_reaches w r u l (omega (arith, hi))).0) refl
run_reaches w (x ∷ rs) r d l u lo hi =
    let total = occurrences-cons x rs in
    let (silent, still, limit, fails) = process_healthy w x d.0 l (omega arith) in
    let rest =
      run_reaches (process w x).0 rs r d.1 still u
        (subst (λ m. pos ((process w x).0.fails + occurrences unhealthy rs) <ℤ m) (sym limit)
          (omega arith))
        (subst (λ m. m ≤ℤ pos ((process w x).0.fails + occurrences unhealthy rs + 1)) (sym limit)
          (omega arith)) in
    rw silent rest
