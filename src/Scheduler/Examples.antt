-- ===== src/Scheduler/Examples.antt =====
-- The theorems on the scheduler, applied to a table of two backends.
use gobetween.Base.{
  ℕ, ◌+◌, ◌≡◌, refl, String, true, false, none, some, List, [], ◌∷◌, arith, Member,
}
use gobetween.Base.Int.{pos}
use gobetween.Core.{merge_from, Target, Backend, =t_iff}
use gobetween.Core.Table.{lookup, insert, keep_values, map_values}
use gobetween.Balance.Types.{Env, Context}
use gobetween.Balance.Registry
use gobetween.Balance.Registry.{max_connections, leastconn}
use gobetween.Balance.Middleware.{at_limit, eligible}
use gobetween.Balance.Leastconn
use gobetween.Balance.Scan.{scan}
use gobetween.Scheduler.{
  rediscover, discover_one, discover, Scheduler, active, values, handle_backends_update,
  handle_elect, candidates, set_discovered, retained, handle_op,
}
use gobetween.Scheduler.Loop.{Event, step, run, discovered}
use gobetween.Scheduler.Discovery.{first_for, last_for}
use gobetween.Scheduler.Update.{update-Updated, IsRenewed}
use gobetween.Scheduler.WellFormed.{IsWellFormed, step-IsWellFormed}
use gobetween.Scheduler.Ledger.{opens, closes, all_opens, all_closes, run-ledger}
use gobetween.Scheduler.Elect.{elect_lem}
use gobetween.Scheduler.Underflow.{connect, disconnect, run-wraps}

abbrev backend : String → ℕ → Backend
backend host open_connections = record {
  target = record { host = host; port = "80" };
  priority = pos 1;
  weight = pos 1;
  max_connections = pos 0;
  sni = "";
  stats = record {
    live = true;
    discovered = true;
    total_connections = 0;
    active_connections = open_connections;
    refused_connections = 0;
    rx_bytes = 0;
    tx_bytes = 0;
    rx_second = 0;
    tx_second = 0;
  };
}

abbrev busy : Backend
busy = backend "a" 1

abbrev idle : Backend
idle = backend "b" 0

abbrev scheduler : Scheduler
scheduler = record {
  balancer = max_connections leastconn;
  healthcheck = record {
    kind = "none";
    interval = "";
    passes = pos 1;
    fails = pos 1;
    timeout = "";
    proxy_protocol = none;
    initial_status = none;
    probe = none;
  };
  backends = (busy.target, busy) ∷ (idle.target, idle) ∷ [];
}

abbrev env : Env
env = record { intn = λ n. 0; to_lower = λ s. s; regexp = λ p s. none }

abbrev client : Context
client = record { ip = 10 ∷ 0 ∷ 0 ∷ 1 ∷ []; sni = "" }

scheduler-IsWellFormed : IsWellFormed scheduler
unfolding lookup
scheduler-IsWellFormed = record { keyed = ((refl, (refl, tt)), λ t b e. at t b e); limited = tt }
  where
    at : (t : Target) (b : Backend) → lookup t scheduler.backends ≡ some b → b.target ≡ t
    at t b e = ground (arith, =t_iff busy.target t, =t_iff idle.target t)

step-IsWellFormed_example :
    IsWellFormed (record scheduler { backends = (busy.target, set_discovered false busy) ∷ [] })
unfolding step handle_backends_update retained keep_values map_values
step-IsWellFormed_example =
    step-IsWellFormed env scheduler
      (record scheduler { backends = (busy.target, set_discovered false busy) ∷ [] })
      (discovered []) _ refl scheduler-IsWellFormed

elect_lem_example :
    Member idle (values scheduler.backends)
    × (idle.stats.live ≡ true)
    × (idle.stats.discovered ≡ true)
    × (at_limit idle ≡ false)
    × (scheduler.backends ≡ scheduler.backends)
unfolding handle_elect candidates Registry.elect eligible at_limit Leastconn.elect scan
elect_lem_example = elect_lem env scheduler scheduler client idle [] scheduler-IsWellFormed refl

-- What is left of the table when a discovery finds nothing.
abbrev drained : Scheduler
drained = record scheduler { backends = (busy.target, set_discovered false busy) ∷ [] }

-- What a discovery that gives one of the backends again, under a name, leaves of it.
abbrev named : Backend
named = record idle { sni = "example.com" }

abbrev renamed : Scheduler
renamed = record scheduler {
  backends = (busy.target, set_discovered false busy) ∷ (idle.target, named) ∷ [];
}

update-Updated_example :
    (c : Backend) × (lookup idle.target renamed.backends ≡ some c) × IsRenewed idle named c
unfolding handle_backends_update discover discover_one rediscover merge_from set_discovered insert
    retained keep_values map_values lookup first_for last_for
update-Updated_example =
    update-Updated scheduler renamed (named ∷ []) _ idle.target refl (refl, (refl, tt))

abbrev events : List Event
events = connect busy.target ∷ discovered [] ∷ disconnect busy.target ∷ []

abbrev survivor : Backend
survivor =
    let st = busy.stats in
    record busy { stats = record st { discovered = false; total_connections = 1 } }

abbrev served : Scheduler
served = record scheduler { backends = (busy.target, survivor) ∷ [] }

run-ledger_example :
    (b : Backend) × (lookup busy.target served.backends ≡ some b)
    × (active b + all_closes busy.target events ≡ 1 + all_opens busy.target events)
unfolding run step handle_op handle_backends_update retained keep_values map_values lookup insert
    opens closes
run-ledger_example =
    run-ledger env scheduler served busy.target events 1 scheduler-IsWellFormed refl
      (busy, refl, refl)
      (omega arith, omega arith, (omega arith, omega arith, (omega arith, omega arith, tt)))

-- The first discovery leaves one backend out, the second gives it again.
run-wraps_example :
    (s' : Scheduler) × (run env scheduler (
        discovered (busy ∷ [])
        ∷ connect idle.target
        ∷ discovered (busy ∷ idle ∷ [])
        ∷ disconnect idle.target
        ∷ [])
      ≡ some s')
    × (c : Backend) × (lookup idle.target s'.backends ≡ some c)
    × (active c ≡ 18446744073709551615)
unfolding lookup first_for last_for
run-wraps_example =
    run-wraps env scheduler idle.target idle idle (busy ∷ []) (busy ∷ idle ∷ [])
      scheduler-IsWellFormed tt refl refl refl refl refl
