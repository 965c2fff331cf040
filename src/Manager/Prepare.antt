-- ===== src/Manager/Prepare.antt =====
-- manager/manager.go: `normalizeDefaults` and `prepareConfig`.
use gobetween.Base.{
  ℕ, ◌≡◌, refl, sym, subst, ap, ◌∙◌, ◌⊎◌, inl, inr, String, Bool, true, false, not, ◌&&◌, ◌||◌,
  Option, none, some, ◌=s◌, ◌==◌, if◌then◌else◌, arith, eq_iff, Bool-cases, Option-cases, is_some,
  is_empty, List, [],
}
use gobetween.Base.Int.{ℤ, pos}
use gobetween.Config.{
  Server, ConnectionOptions, DiscoveryConfig, HealthcheckConfig, Sni, Udp, ProxyProtocol, Tls,
  BackendsTls,
}
use gobetween.Manager.Verdict.{
  Verdict, ok, refused, panics, Refusal, ◌>>=◌, ◌>>◌, guard, refuse_if, or_refuse, or_panic,
  Library, >>=-eq-ok, no_bind, bind_and_binds, no_discovery, proxy_version_missing, proxy_version,
  proxy_protocol, proxy_version_udp, timeout_parsing, interval_parsing, backends_tls_paths,
  tls_paths, source_subnet, tls_section, backends_tls_udp, udp_limits, sources_transparent,
  unknown_protocol, ping_udp, unknown_balance,
}
use gobetween.Manager.Healthcheck.{or_none, prepare_healthcheck}
use gobetween.Manager.Discovery.{prepare_discovery, prepare_sni}
pub mod Stages
pub mod Sound
pub mod Again

-- What `normalizeDefaults` makes of the section of defaults: its pointers are all set.
pub record Defaults : Type 0 where
  pub max_connections : ℤ
  pub client_idle_timeout : String
  pub backend_idle_timeout : String
  pub backend_connection_timeout : String
  pub client_tcp_keepalive : Bool
  pub client_tcp_keepalive_period : String
  pub backend_tcp_keepalive : Bool
  pub backend_tcp_keepalive_period : String
  pub sources : String

abbrev pub or_value {ℓ} : {A : Type ℓ} → Option A → A → A
or_value none a = a
or_value (some x) a = x

unfoldable pub normalize_defaults : ConnectionOptions → Defaults
normalize_defaults o = record {
  max_connections = or_value o.max_connections (pos 0);
  client_idle_timeout = or_value o.client_idle_timeout "0";
  backend_idle_timeout = or_value o.backend_idle_timeout "0";
  backend_connection_timeout = or_value o.backend_connection_timeout "0";
  client_tcp_keepalive = or_value o.client_tcp_keepalive true;
  client_tcp_keepalive_period = or_value o.client_tcp_keepalive_period "15s";
  backend_tcp_keepalive = or_value o.backend_tcp_keepalive true;
  backend_tcp_keepalive_period = or_value o.backend_tcp_keepalive_period "15s";
  sources = or_value o.sources "";
}

-- `server.ProxyProtocol` against the protocol that is configured.
check_version : String → ProxyProtocol → Verdict (Unit {0})
check_version protocol p = do
  refuse_if (p.version =s "") proxy_version_missing
  guard (p.version =s "1" || p.version =s "2") (proxy_version p.version)
  guard (protocol =s "tcp" || protocol =s "udp") (proxy_protocol protocol)
  refuse_if (protocol =s "udp" && not (p.version =s "2")) proxy_version_udp

unfoldable pub check_proxy : Server → Verdict (Unit {0})
unfolding check_version
check_proxy s = elim s.proxy_protocol [ none ↦ ok tt | some p ↦ check_version s.protocol p ]

unfoldable pub check_durations : Library → HealthcheckConfig → Verdict (Unit {0})
check_durations lib h =
    guard (is_some (lib.parse_duration h.timeout)) timeout_parsing
    >> guard (is_some (lib.parse_duration h.interval)) interval_parsing

-- `(KeyPath == nil) != (CertPath == nil)`
half_set : Option BackendsTls → Bool
half_set none = false
half_set (some t) = if is_some t.key_path then not (is_some t.cert_path) else is_some t.cert_path

no_certificate : Option Tls → Bool
no_certificate none = false
no_certificate (some t) = is_empty t.acme_hosts && (t.key_path =s "" || t.cert_path =s "")

-- `Sources != nil && *Sources != ""`
abbrev pub has_sources : Option String → Bool
has_sources none = false
has_sources (some s) = not (s =s "")

bad_sources : Library → Option String → Bool
bad_sources lib none = false
bad_sources lib (some s) = not (s =s "") && not (lib.is_source_pool s)

unfoldable pub check_tls : Library → Server → Verdict (Unit {0})
unfolding half_set no_certificate bad_sources
check_tls lib s = do
  refuse_if (half_set s.backends_tls) backends_tls_paths
  refuse_if (no_certificate s.tls) tls_paths
  refuse_if (bad_sources lib s.sources) source_subnet

-- The protocol, and the section of UDP.
pub record Transport : Type 0 where
  pub protocol : String
  pub udp : Option Udp

abbrev pub no_udp : Udp
no_udp = record { max_requests = 0; max_responses = 0; transparent = false }

pub unbounded : Server → Udp → Bool
unbounded s u =
    u.max_requests == 0
    && u.max_responses == 0
    && not (is_some s.client_idle_timeout)
    && not (is_some s.backend_idle_timeout)

pub prepare_udp : Server → Verdict Transport
unfolding unbounded
prepare_udp s = do
  let u = or_value s.udp no_udp
  refuse_if (is_some s.backends_tls) backends_tls_udp
  refuse_if (unbounded s u) udp_limits
  refuse_if (u.transparent && has_sources s.sources) sources_transparent
  ok (record { protocol = "udp"; udp = some u })

unfoldable pub prepare_transport : Server → Verdict Transport
unfolding prepare_udp
prepare_transport s =
    if s.protocol =s ""
    then ok (record { protocol = "tcp"; udp = s.udp })
    else if s.protocol =s "tls"
    then (guard (is_some s.tls) tls_section >> ok (record { protocol = "tls"; udp = s.udp }))
    else if s.protocol =s "tcp"
    then ok (record { protocol = "tcp"; udp = s.udp })
    else if s.protocol =s "udp"
    then prepare_udp s
    else refused (unknown_protocol s.protocol)

abbrev pub is_balance : String → Bool
is_balance b =
    b =s "weight"
    || b =s "leastconn"
    || b =s "roundrobin"
    || b =s "leastbandwidth"
    || b =s "iphash1"
    || b =s "iphash"

unfoldable pub prepare_balance : String → Verdict String
prepare_balance b =
    if is_balance b then ok b else if b =s "" then ok "weight" else refused (unknown_balance b)

-- A keepalive option is set back for UDP.
abbrev pub tcp_only {ℓ} : {A : Type ℓ} → String → A → Option A
tcp_only protocol a = if protocol =s "udp" then none else some a

-- The overrides at the end.
pub overridden : Defaults → String → ConnectionOptions → ConnectionOptions
overridden d protocol o = record {
  max_connections = some (or_value o.max_connections d.max_connections);
  client_idle_timeout = some (or_value o.client_idle_timeout d.client_idle_timeout);
  backend_idle_timeout = some (or_value o.backend_idle_timeout d.backend_idle_timeout);
  backend_connection_timeout =
      some (or_value o.backend_connection_timeout d.backend_connection_timeout);
  client_tcp_keepalive = tcp_only protocol (or_value o.client_tcp_keepalive d.client_tcp_keepalive);
  client_tcp_keepalive_period =
      tcp_only protocol (or_value o.client_tcp_keepalive_period d.client_tcp_keepalive_period);
  backend_tcp_keepalive =
      tcp_only protocol (or_value o.backend_tcp_keepalive d.backend_tcp_keepalive);
  backend_tcp_keepalive_period =
      tcp_only protocol (or_value o.backend_tcp_keepalive_period d.backend_tcp_keepalive_period);
  sources = some (or_value o.sources d.sources);
}

unfoldable pub check_front : String → Server → Verdict (Unit {0})
check_front name s =
    refuse_if (s.bind =s "") (no_bind name) >> guard (is_empty s.binds) (bind_and_binds name)

unfoldable pub check_ping : HealthcheckConfig → Transport → Verdict (Unit {0})
check_ping h t = refuse_if (h.kind =s "ping" && t.protocol =s "udp") ping_udp

-- The server that is returned.
unfoldable pub assembled :
    Defaults
    → Server
    → HealthcheckConfig
    → Option Sni
    → Transport
    → String
    → DiscoveryConfig
    → Server
unfolding overridden
assembled defaults s h n t b d = record s {
  options = overridden defaults t.protocol s.options;
  protocol = t.protocol;
  udp = t.udp;
  balance = b;
  sni = n;
  discovery = some d;
  healthcheck = some h;
}

-- `prepareConfig`.
unfoldable pub prepare_config : Library → String → Defaults → Server → Verdict Server
prepare_config lib name defaults s = do
  check_front name s
  d ← or_refuse s.discovery (no_discovery name)
  h ← prepare_healthcheck lib (or_none s.healthcheck)
  check_proxy s
  n ← prepare_sni lib s.sni
  check_durations lib h
  check_tls lib s
  t ← prepare_transport s
  check_ping h t
  b ← prepare_balance s.balance
  d' ← prepare_discovery lib d
  ok (assembled defaults s h n t b d')

-- What the caller's copy of the configuration has become: the sections behind its pointers are the
-- ones that `prepareConfig` wrote to.
pub left_section {ℓ} : {A : Type ℓ} → Option A → Option A → Option A
left_section none s = none
left_section (some a) s = s

unfoldable pub left_behind : Server → Server → Server
unfolding left_section
left_behind s s' = record s {
  healthcheck = left_section s.healthcheck s'.healthcheck;
  discovery = left_section s.discovery s'.discovery;
  sni = left_section s.sni s'.sni;
}
