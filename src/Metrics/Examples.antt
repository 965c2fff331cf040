-- ===== src/Metrics/Examples.antt =====
-- The theorem on the gauges, applied to a client whose vectors are functions.
use gobetween.Base.{ℕ, refl, String, true, Option, none, some, List, [], ◌∷◌, arith, if◌then◌else◌}
use gobetween.Base.Int.{pos}
use gobetween.Core.{Backend}
use gobetween.Core.Table.{lookup, insert, keep_values, map_values}
use gobetween.Balance.Types.{Env}
use gobetween.Balance.Registry.{max_connections, leastconn}
use gobetween.Healthcheck.Types
use gobetween.Scheduler.{admit, retained, handle_backends_update, handle_op, Scheduler}
use gobetween.Scheduler.Loop.{step, Event, run, discovered}
use gobetween.Scheduler.Underflow.{connect}
use gobetween.Scheduler.WellFormed.{IsWellFormed}
use gobetween.Metrics.{Client, define_metrics}
use gobetween.Metrics.Series.{
  ◌=l◌, IsClient, active, refused, total, rx_bytes, tx_bytes, rx_second, tx_second, live,
}
use gobetween.Metrics.Removed.{IsCovered}
use gobetween.Metrics.Swept.{observe_all-Swept}
use gobetween.Metrics.Observed.{observe_all}
use gobetween.Metrics.Removed.{on, Swept}

abbrev Vec : Type 0
Vec = List String → Option ℕ

abbrev client : Client Vec ℕ
client = record {
  new_gauge_vec = λ subsystem name ks ls. none;
  set = λ ks n v ls. if ks =l ls then some n else v ls;
  delete_label_values = λ ks v ls. if ks =l ls then none else v ls;
  value = λ ls v. v ls;
  float64 = λ n. n;
  float64_int64 = λ n. n;
}

client-IsClient : IsClient client
client-IsClient = record {
  value-new = λ subsystem name ks ls. refl;
  value-set = λ ks ls n v. refl;
  value-delete = λ ks ls v. refl;
}

abbrev backend : Backend
backend = record {
  target = record { host = "a"; port = "80" };
  priority = pos 1;
  weight = pos 1;
  max_connections = pos 0;
  sni = "";
  stats = record {
    live = true;
    discovered = true;
    total_connections = 0;
    active_connections = 0;
    refused_connections = 0;
    rx_bytes = 0;
    tx_bytes = 0;
    rx_second = 0;
    tx_second = 0;
  };
}

abbrev scheduler : Scheduler
scheduler = record {
  balancer = max_connections leastconn;
  healthcheck = record {
    kind = "none";
    interval = "";
    passes = pos 1;
    fails = pos 1;
    timeout = "";
    proxy_protocol = none;
    initial_status = none;
    probe = none;
  };
  backends = [];
}

scheduler-IsWellFormed : IsWellFormed scheduler
unfolding lookup
scheduler-IsWellFormed = record { keyed = (tt, λ t b e. absurd (ground arith)); limited = tt }

abbrev env : Env
env = record { intn = λ n. 0; to_lower = λ s. s; regexp = λ p s. none }

abbrev events : List Event
events = discovered (backend ∷ []) ∷ connect backend.target ∷ []

abbrev served : Backend
served =
    let st = backend.stats in
    record backend { stats = record st { active_connections = 1; total_connections = 1 } }

new_gauges-IsCovered : IsCovered client "s" [] (define_metrics client)
unfolding define_metrics
new_gauges-IsCovered active t h = refl
new_gauges-IsCovered refused t h = refl
new_gauges-IsCovered total t h = refl
new_gauges-IsCovered rx_bytes t h = refl
new_gauges-IsCovered tx_bytes t h = refl
new_gauges-IsCovered rx_second t h = refl
new_gauges-IsCovered tx_second t h = refl
new_gauges-IsCovered live t h = refl

observe_all-Swept_example :
    Swept client "s"
      (define_metrics client)
      (observe_all client "s" env scheduler (on (define_metrics client)) events)
unfolding run step handle_op handle_backends_update retained keep_values map_values lookup insert
    admit Types.initial_status
observe_all-Swept_example =
    observe_all-Swept client "s" client-IsClient env scheduler
      (record scheduler { backends = (backend.target, served) ∷ [] }) events (define_metrics client)
      refl scheduler-IsWellFormed new_gauges-IsCovered
