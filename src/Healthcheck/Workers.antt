-- ===== src/Healthcheck/Workers.antt =====
-- healthcheck/healthcheck.go: `UpdateWorkers`, which brings the workers in line with the targets.
use mathlib.Core.Path.{ap₂}
use gobetween.Base.{
  ◌≡◌, refl, sym, subst, ◌⊎◌, inl, inr, Bool, true, false, not, Option, none, some, List, [], ◌∷◌,
  if◌then◌else◌, arith, Member, keep, map, Bool-cases, Option-cases, Member_of_keep, Member-keep,
}
use gobetween.Core.{Target, ◌=t◌, =t_iff}
use gobetween.Config.{HealthcheckConfig}
use gobetween.Healthcheck.Types.{initial}
use gobetween.Healthcheck.Worker.{Worker}

-- The first worker of a target.
unfoldable pub find : Target → List Worker → Option Worker
find t [] = none
find t (w ∷ ws) = if t =t w.target then some w else find t ws

-- The target of the initial `LastResult` is the zero value, which nothing reads.
pub fresh : HealthcheckConfig → Target → Worker
fresh cfg t = record {
  target = t;
  max_fails = cfg.fails;
  max_passes = cfg.passes;
  last_result = record { target = record { host = ""; port = "" }; status = initial };
  passes = 0;
  fails = 0;
}

-- The worker that a target gets, and whether it has to be started.
or_fresh : HealthcheckConfig → Target → Option Worker → Worker
or_fresh cfg t none = fresh cfg t
or_fresh cfg t (some w) = w

pub worker_for : HealthcheckConfig → List Worker → Target → Worker
unfolding find fresh or_fresh
worker_for cfg ws t = or_fresh cfg t (find t ws)

pub wanted : List Target → Worker → Bool
wanted [] w = false
wanted (t ∷ ts) w = if w.target =t t then true else wanted ts w

-- The targets that no worker has, for which a worker is made and started.
pub missing : List Worker → List Target → List Target
unfolding find
missing ws = keep (λ t. elim (find t ws) [ none ↦ true | some w ↦ false ])

pub record Update : Type 0 where
  pub workers : List Worker
  pub started : List Target
  pub stopped : List Worker

unfoldable pub update_workers : HealthcheckConfig → List Worker → List Target → Update
unfolding worker_for missing wanted
update_workers cfg ws ts = record {
  workers = map (worker_for cfg ws) ts;
  started = missing ws ts;
  stopped = keep (λ w. not (wanted ts w)) ws;
}

find-target :
    (t : Target) (ws : List Worker) (w : Worker) → find t ws ≡ some w → (w.target ≡ t) × Member w ws
unfolding find
find-target t [] w e = cc
find-target t (v ∷ ws) w e = elim (Bool-cases (t =t v.target)) [
  | inl h ↦
      let same : v ≡ w = ground arith in
      (subst (λ (x : Worker). x.target ≡ t) same (sym ((=t_iff t v.target).0 h)), inl (sym same))
  | inr h ↦ let (e', m) = find-target t ws w (ground arith) in (e', inr m)
]

worker_for-target :
    (cfg : HealthcheckConfig) (ws : List Worker) (t : Target) → (worker_for cfg ws t).target ≡ t
unfolding worker_for
worker_for-target cfg ws t = elim (Option-cases (find t ws)) [
  | inl e ↦ rw e
  | inr (w, e) ↦ rw e (find-target t ws w e).0
]

-- After an update the workers are those of the targets, one for each, in their order.
pub update_workers-targets :
    (cfg : HealthcheckConfig) (ws : List Worker) (ts : List Target)
    → map (λ w. w.target) (update_workers cfg ws ts).workers ≡ ts
unfolding update_workers
update_workers-targets cfg ws [] = refl
update_workers-targets cfg ws (t ∷ ts) =
    ap₂ ◌∷◌ (worker_for-target cfg ws t) (update_workers-targets cfg ws ts)

-- A worker that is found under its own target is the one that the target gets.
kept :
    (cfg : HealthcheckConfig) (ws : List Worker) (ts : List Target) (w : Worker)
    → find w.target ws ≡ some w
    → wanted ts w ≡ true
    → Member w (map (worker_for cfg ws) ts)
unfolding wanted worker_for
kept cfg ws [] w f h = cc
kept cfg ws (t ∷ ts) w f h = elim (Bool-cases (w.target =t t)) [
  | inl e ↦ let same : w.target ≡ t = (=t_iff w.target t).0 e in inl (rw (← same) (rw f))
  | inr e ↦ inr (kept cfg ws ts w f (ground arith))
]

-- Of the workers that are the first for their targets, one whose target is still wanted stays as
-- it is, with its counters, and is not stopped; any other is stopped.
pub update_workers-cases :
    (cfg : HealthcheckConfig) (ws : List Worker) (ts : List Target) (w : Worker)
    → Member w ws
    → find w.target ws ≡ some w
    → ((wanted ts w ≡ true)
        × Member w (update_workers cfg ws ts).workers
        × ¬ Member w (update_workers cfg ws ts).stopped)
      ⊎ ((wanted ts w ≡ false) × Member w (update_workers cfg ws ts).stopped)
unfolding update_workers
update_workers-cases cfg ws ts w m f = elim (Bool-cases (wanted ts w)) [
  | inl h ↦
      inl (
        h,
        kept cfg ws ts w f h,
        λ s. let k = (Member-keep (λ v. not (wanted ts v)) w ws s).1 in cc,
      )
  | inr h ↦ inr (h, Member_of_keep (λ v. not (wanted ts v)) w ws m (rw h))
]
