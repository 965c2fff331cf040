-- ===== src/Metrics.antt =====
-- metrics/metrics.go: the gauges that are shown to Prometheus. Its client library is a parameter.
use gobetween.Base.{
  ◌++◌, ℕ, String, Bool, true, false, ◌&&◌, Option, none, some, List, [], ◌∷◌, ◌=s◌, if◌then◌else◌,
  length,
}
use gobetween.Core.{Target, Backend, BackendStats}
use gobetween.Core.Table.{lookup}
use gobetween.Config.{MetricsConfig}
use gobetween.Stats.Counter.{BandwidthStats}
use gobetween.Scheduler.{values}
pub mod Observed
pub mod Series
pub mod Removed
pub mod Update
pub mod Reports
pub mod Swept
mod Examples

-- `prometheus.GaugeVec`: values under lists of labels. `value` is what a scrape shows.
pub record Client (Vec Num : Type 0) : Type 0 where
  pub new_gauge_vec : String → String → List String → Vec
  pub set : List String → Num → Vec → Vec
  pub delete_label_values : List String → Vec → Vec
  pub value : List String → Vec → Option Num
  pub float64 : ℕ → Num
  -- of the pattern of an `int64`
  pub float64_int64 : ℕ → Num

pub record Gauges (Vec : Type 0) : Type 0 where
  pub build_info : Vec
  pub server_count : Vec
  pub server_active_connections : Vec
  pub server_rx_total : Vec
  pub server_tx_total : Vec
  pub server_rx_second : Vec
  pub server_tx_second : Vec
  pub backend_active_connections : Vec
  pub backend_refused_connections : Vec
  pub backend_total_connections : Vec
  pub backend_rx_bytes : Vec
  pub backend_tx_bytes : Vec
  pub backend_rx_second : Vec
  pub backend_tx_second : Vec
  pub backend_live : Vec

-- The variables of the package. The gauges are nil until `defineMetrics` sets all of them.
pub record Metrics (Vec : Type 0) : Type 0 where
  pub metrics_disabled : Bool
  pub gauges : Option (Gauges Vec)

pub data Effect (Vec : Type 0) : Type 0 where
  must_register : Vec → Effect Vec
  listen_and_serve : String → Effect Vec

-- The labels of a backend.
unfoldable pub backend_labels : String → Target → List String
backend_labels server t = server ∷ t.host ∷ t.port ∷ []

module _ {Vec : Type 0} where
  -- `metricsDisabled || ... == nil`, and what is done otherwise.
  unfoldable pub when_enabled : (Gauges Vec → Gauges Vec) → Metrics Vec → Metrics Vec
  when_enabled f mtr = elim mtr.gauges [
    | none ↦ mtr
    | some gs ↦ if mtr.metrics_disabled then mtr else record mtr { gauges = some (f gs) }
  ]

module _ {Vec Num : Type 0} (client : Client Vec Num) where
  unfoldable pub define_metrics : Gauges Vec
  define_metrics = record {
    build_info =
        client.new_gauge_vec "" "build_info" ("version" ∷ "revision" ∷ "branch" ∷ "goversion" ∷ []);
    server_count = client.new_gauge_vec "server" "count" ("server" ∷ []);
    server_active_connections = client.new_gauge_vec "server" "active_connections" ("server" ∷ []);
    server_rx_total = client.new_gauge_vec "server" "rx_total" ("server" ∷ []);
    server_tx_total = client.new_gauge_vec "server" "tx_total" ("server" ∷ []);
    server_rx_second = client.new_gauge_vec "server" "rx_second" ("server" ∷ []);
    server_tx_second = client.new_gauge_vec "server" "tx_second" ("server" ∷ []);
    backend_active_connections =
        client.new_gauge_vec "backend" "active_connections" ("server" ∷ "host" ∷ "port" ∷ []);
    backend_refused_connections =
        client.new_gauge_vec "backend" "refused_connections" ("server" ∷ "host" ∷ "port" ∷ []);
    backend_total_connections =
        client.new_gauge_vec "backend" "total_connections" ("server" ∷ "host" ∷ "port" ∷ []);
    backend_rx_bytes = client.new_gauge_vec "backend" "rx_bytes" ("server" ∷ "host" ∷ "port" ∷ []);
    backend_tx_bytes = client.new_gauge_vec "backend" "tx_bytes" ("server" ∷ "host" ∷ "port" ∷ []);
    backend_rx_second =
        client.new_gauge_vec "backend" "rx_second" ("server" ∷ "host" ∷ "port" ∷ []);
    backend_tx_second =
        client.new_gauge_vec "backend" "tx_second" ("server" ∷ "host" ∷ "port" ∷ []);
    backend_live = client.new_gauge_vec "backend" "live" ("server" ∷ "host" ∷ "port" ∷ []);
  }

  unfoldable pub register_all : Gauges Vec → List (Effect Vec)
  register_all gs =
      must_register gs.build_info
      ∷ must_register gs.server_count
      ∷ must_register gs.server_active_connections
      ∷ must_register gs.server_rx_total
      ∷ must_register gs.server_tx_total
      ∷ must_register gs.server_rx_second
      ∷ must_register gs.server_tx_second
      ∷ must_register gs.backend_active_connections
      ∷ must_register gs.backend_refused_connections
      ∷ must_register gs.backend_total_connections
      ∷ must_register gs.backend_rx_bytes
      ∷ must_register gs.backend_tx_bytes
      ∷ must_register gs.backend_rx_second
      ∷ must_register gs.backend_tx_second
      ∷ must_register gs.backend_live
      ∷ []

  -- `Start`, with the labels of the build.
  unfoldable pub start : MetricsConfig → List String → Metrics Vec → Metrics Vec × List (Effect Vec)
  unfolding define_metrics register_all
  start cfg build mtr =
      if cfg.enabled
      then (
        record mtr {
          gauges = some (record define_metrics {
            build_info = client.set build (client.float64 1) define_metrics.build_info;
          });
        },
        register_all define_metrics ++ listen_and_serve cfg.bind ∷ [],
      )
      else (record mtr { metrics_disabled = true }, [])

  -- The body of `RemoveBackend`; a target stands for the host and the port of the backend.
  unfoldable pub without_backend : String → Target → Gauges Vec → Gauges Vec
  without_backend server t gs =
      let remove = client.delete_label_values (backend_labels server t) in
      record gs {
        backend_active_connections = remove gs.backend_active_connections;
        backend_refused_connections = remove gs.backend_refused_connections;
        backend_total_connections = remove gs.backend_total_connections;
        backend_rx_bytes = remove gs.backend_rx_bytes;
        backend_tx_bytes = remove gs.backend_tx_bytes;
        backend_rx_second = remove gs.backend_rx_second;
        backend_tx_second = remove gs.backend_tx_second;
        backend_live = remove gs.backend_live;
      }

  unfoldable pub remove_backend : String → Backend → Metrics Vec → Metrics Vec
  unfolding without_backend
  remove_backend server b = when_enabled (without_backend server b.target)

  unfoldable pub remove_backends : String → List Backend → Metrics Vec → Metrics Vec
  remove_backends server [] mtr = mtr
  remove_backends server (b ∷ bs) mtr = remove_backends server bs (remove_backend server b mtr)

  unfoldable pub without_server : String → Gauges Vec → Gauges Vec
  without_server server gs =
      let remove = client.delete_label_values (server ∷ []) in
      record gs {
        server_count = remove gs.server_count;
        server_active_connections = remove gs.server_active_connections;
        server_rx_total = remove gs.server_rx_total;
        server_tx_total = remove gs.server_tx_total;
        server_rx_second = remove gs.server_rx_second;
        server_tx_second = remove gs.server_tx_second;
      }

  -- `RemoveServer`.
  unfoldable pub remove_server : String → List (Target × Backend) → Metrics Vec → Metrics Vec
  unfolding without_server remove_backends
  remove_server server m mtr =
      remove_backends server (values m) (when_enabled (without_server server) mtr)

  bit : Bool → ℕ
  bit true = 1
  bit false = 0

  unfoldable pub with_live : String → Target → Bool → Gauges Vec → Gauges Vec
  unfolding bit
  with_live server t is_live gs = record gs {
    backend_live =
        client.set (backend_labels server t) (client.float64 (bit is_live)) gs.backend_live;
  }

  unfoldable pub report_live_change : String → Target → Bool → Metrics Vec → Metrics Vec
  unfolding with_live
  report_live_change server t is_live = when_enabled (with_live server t is_live)

  unfoldable pub report_connections_change : String → ℕ → Metrics Vec → Metrics Vec
  report_connections_change server n = when_enabled λ gs. record gs {
    server_active_connections =
        client.set (server ∷ []) (client.float64 n) gs.server_active_connections;
  }

  unfoldable pub report_stats_change : String → BandwidthStats → Metrics Vec → Metrics Vec
  report_stats_change server bs =
      let put : ℕ → Vec → Vec = λ n. client.set (server ∷ []) (client.float64 n) in
      when_enabled λ gs. record gs {
        server_rx_total = put bs.rx_total gs.server_rx_total;
        server_tx_total = put bs.tx_total gs.server_tx_total;
        server_rx_second = put bs.rx_second gs.server_rx_second;
        server_tx_second = put bs.tx_second gs.server_tx_second;
      }

  unfoldable pub with_backend_stats : String → Target → ℕ → BackendStats → Gauges Vec → Gauges Vec
  with_backend_stats server t n st gs =
      let put : ℕ → Vec → Vec = λ x. client.set (backend_labels server t) (client.float64 x) in
      record gs {
        server_count = client.set (server ∷ []) (client.float64 n) gs.server_count;
        backend_rx_bytes = put st.rx_bytes gs.backend_rx_bytes;
        backend_tx_bytes = put st.tx_bytes gs.backend_tx_bytes;
        backend_rx_second = put st.rx_second gs.backend_rx_second;
        backend_tx_second = put st.tx_second gs.backend_tx_second;
      }

  unfoldable pub with_op : String → Target → BackendStats → Gauges Vec → Gauges Vec
  with_op server t st gs =
      let ls = backend_labels server t in
      record gs {
        backend_active_connections =
            client.set ls (client.float64 st.active_connections) gs.backend_active_connections;
        backend_refused_connections =
            client.set ls (client.float64 st.refused_connections) gs.backend_refused_connections;
        backend_total_connections =
            client.set ls (client.float64_int64 st.total_connections) gs.backend_total_connections;
      }

  -- `metricsDisabled || ... == nil` of the reports that read a backend.
  unfoldable pub is_off : Metrics Vec → Bool
  is_off mtr = elim mtr.gauges [ none ↦ true | some gs ↦ mtr.metrics_disabled ]

  -- A report on a target that is not in the table panics at the nil backend; `none` is the panic.
  unfoldable pub report_with :
      (BackendStats → Gauges Vec → Gauges Vec) → Option Backend → Metrics Vec → Option (Metrics Vec)
  unfolding is_off
  report_with f none mtr = if is_off mtr then some mtr else none
  report_with f (some b) mtr = some (when_enabled (f b.stats) mtr)

  unfoldable pub report_backend_stats_change :
      String → Target → List (Target × Backend) → Metrics Vec → Option (Metrics Vec)
  unfolding report_with with_backend_stats
  report_backend_stats_change server t m =
      report_with (with_backend_stats server t (length m)) (lookup t m)

  unfoldable pub report_op :
      String → Target → List (Target × Backend) → Metrics Vec → Option (Metrics Vec)
  unfolding report_with with_op
  report_op server t m = report_with (with_op server t) (lookup t m)
