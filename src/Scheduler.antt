-- ===== src/Scheduler.antt =====
-- server/scheduler/scheduler.go: the goroutine that owns the backends of a server. Each case of its
-- `select` is an event, and what it sends on channels or reports to metrics is a list of effects.
use gobetween.Base.{
  ℕ, ◌+◌, ◌<◌, ◌≡◌, Bool, true, false, not, ◌&&◌, ◌||◌, Option, none, some, List, [], ◌∷◌, ◌++◌,
  map, ltb, inc, dec, if◌then◌else◌, keep,
}
use gobetween.Core.{Target, Backend, BackendStats, ReadWriteCount, merge_from}
use gobetween.Core.Table.{lookup, insert, map_values, keep_values}
use gobetween.Config.{HealthcheckConfig}
use gobetween.Healthcheck.Types.{Status, healthy, CheckResult, same, initial_status}
use gobetween.Balance.Types.{Env, Context, Outcome, elected, nothing, refused, panics, Error}
use gobetween.Balance.Registry.{Balancer}
use gobetween.Balance.Registry
use gobetween.Stats.Counter.{BandwidthStats}
pub mod Loop
pub mod Discovery
pub mod Update
pub mod Totality
pub mod WellFormed
pub mod Ledger
pub mod Elect
pub mod Underflow
mod Examples

pub data OpAction : Type 0 where
  increment_connection decrement_connection increment_refused increment_tx increment_rx : OpAction

-- `param` is an `interface{}` that holds a `uint` or nil.
pub record Op : Type 0 where
  pub target : Target
  pub action : OpAction
  pub param : Option ℕ

pub record Scheduler : Type 0 where
  pub balancer : Balancer
  pub healthcheck : HealthcheckConfig
  pub backends : List (Target × Backend)

pub data Effect : Type 0 where
  to_healthcheck to_counter : List Target → Effect
  to_stats : List Backend → Effect
  traffic : ReadWriteCount → Effect
  respond : Backend → Effect
  respond_error : Error → Effect
  report_stats report_op : Target → Effect
  report_live : Target → Bool → Effect
  remove_metric : Backend → Effect
  stop_discovery stop_healthcheck : Effect
  forget_server : List (Target × Backend) → Effect

abbrev pub active : Backend → ℕ
active b = b.stats.active_connections

pub set_discovered : Bool → Backend → Backend
set_discovered d b = let s = b.stats in record b { stats = record s { discovered = d } }

pub targets : List (Target × Backend) → List Target
targets = map λ e. e.0

unfoldable pub values : List (Target × Backend) → List Backend
values = map λ e. e.1

-- A backend that is known gets its new discovery properties, and keeps its statistics.
unfoldable pub rediscover : Backend → Backend → Backend
unfolding set_discovered merge_from
rediscover old b = set_discovered true (merge_from old b)

-- A new backend, live as the healthcheck says; `none` is a panic.
admit_as : Backend → Option Status → Option Backend
admit_as b none = none
admit_as b (some st) =
    let s = b.stats in
    some (record b { stats = record s { discovered = true; live = same st healthy } })

unfoldable pub admit : HealthcheckConfig → Backend → Option Backend
unfolding admit_as
admit cfg b = admit_as b (initial_status cfg)

pub enter : List (Target × Backend) → Target → Option Backend → Option (List (Target × Backend))
enter m t none = none
enter m t (some b) = some (insert t b m)

-- The body of the second loop of `HandleBackendsUpdate`.
unfoldable pub discover_one :
    HealthcheckConfig → List (Target × Backend) → Backend → Option (List (Target × Backend))
unfolding enter
discover_one cfg m b = elim (lookup b.target m) [
  | some old ↦ enter m b.target (some (rediscover old b))
  | none ↦ enter m b.target (admit cfg b)
]

-- `none` is a panic, which ends the process.
infixl 5 ◌>>=◌
abbrev pub ◌>>=◌ {ℓ κ} : {A : Type ℓ} {B : Type κ} → Option A → (A → Option B) → Option B
none >>= f = none
some a >>= f = f a

unfoldable pub discover :
    HealthcheckConfig → List (Target × Backend) → List Backend → Option (List (Target × Backend))
discover cfg m [] = some m
discover cfg m (b ∷ bs) = do m' ← discover_one cfg m b; discover cfg m' bs

-- `Discovered || ActiveConnections > 0`
unfoldable pub retained : Backend → Bool
retained b = b.stats.discovered || ltb 0 (active b)

-- `HandleBackendsUpdate`.
unfoldable pub handle_backends_update : Scheduler → List Backend → Option (Scheduler × List Effect)
unfolding discover discover_one set_discovered
handle_backends_update s bs = do
  m ← discover s.healthcheck (map_values (set_discovered false) s.backends) bs
  some (
    record s { backends = keep_values retained m },
    map remove_metric (keep (λ b. not (retained b)) (values m)),
  )

-- The statistics of a known backend change, which is then reported.
unfoldable pub with_stats :
    Scheduler → Target → Effect → (BackendStats → BackendStats) → Scheduler × List Effect
with_stats s t r f = elim (lookup t s.backends) [
  | none ↦ (s, [])
  | some b ↦
      let stats' = f b.stats in
      (record s { backends = insert t (record b { stats = stats' }) s.backends }, r ∷ [])
]

-- `HandleBackendStatsChange`.
unfoldable pub handle_stats_change : Scheduler → BandwidthStats → Scheduler × List Effect
unfolding with_stats
handle_stats_change s bs = with_stats s bs.target (report_stats bs.target) λ st. record st {
  rx_bytes = bs.rx_total;
  tx_bytes = bs.tx_total;
  rx_second = bs.rx_second;
  tx_second = bs.tx_second;
}

-- `HandleBackendLiveChange`.
unfoldable pub handle_live_change : Scheduler → Target → Bool → Scheduler × List Effect
unfolding with_stats
handle_live_change s t is_live =
    with_stats s t (report_live t is_live) λ st. record st { live = is_live }

-- `HandleBackendElect`: the backends that are live and discovered, and the election among them.
unfoldable pub candidates : List (Target × Backend) → List Backend
unfolding values
candidates m = keep (λ b. b.stats.live && b.stats.discovered) (values m)

-- A panic, or the nil backend that is then dereferenced, ends the process.
unfoldable pub answer : Outcome → Option (List Effect)
answer (elected b) = some (respond b ∷ [])
answer nothing = none
answer (refused e) = some (respond_error e ∷ [])
answer panics = none

unfoldable pub handle_elect : Env → Scheduler → Context → Option (Scheduler × List Effect)
unfolding candidates answer
handle_elect env s ctx = do
  let (o, balancer') = Registry.elect env s.balancer ctx (candidates s.backends)
  sent ← answer o
  some (record s { balancer = balancer' }, sent)

-- `HandleOp`. A missing parameter fails the type assertion; the effects of counted bytes do not need
-- a backend.
pub counted : OpAction → BackendStats → BackendStats
counted increment_refused st = record st { refused_connections = inc st.refused_connections }
counted increment_connection st = record st {
  active_connections = inc st.active_connections;
  total_connections = inc st.total_connections;
}
counted decrement_connection st = record st { active_connections = dec st.active_connections }
counted increment_tx st = st
counted increment_rx st = st

unfoldable pub forward : Scheduler → Option ReadWriteCount → Option (Scheduler × List Effect)
forward s none = none
forward s (some c) = some (s, traffic c ∷ [])

pub written : Target → Option ℕ → Option ReadWriteCount
written t none = none
written t (some n) = some (record { count_read = 0; count_write = n; target = t })

pub read : Target → Option ℕ → Option ReadWriteCount
read t none = none
read t (some n) = some (record { count_read = n; count_write = 0; target = t })

unfoldable pub perform : Scheduler → OpAction → Target → Option ℕ → Option (Scheduler × List Effect)
unfolding forward written read counted with_stats
perform s increment_tx t param = forward s (written t param)
perform s increment_rx t param = forward s (read t param)
perform s action t param = some (with_stats s t (report_op t) (counted action))

unfoldable pub handle_op : Scheduler → Op → Option (Scheduler × List Effect)
unfolding perform
handle_op s op = perform s op.action op.target op.param

-- The case of `stop`, which ends the loop.
unfoldable pub stop : Scheduler → List Effect
stop s = stop_discovery ∷ stop_healthcheck ∷ forget_server s.backends ∷ []
