-- ===== src/Config.antt =====
-- config/config.go: the sections of the configuration that the program reads.
-- `*T` is `Option T`; an embedded pointer keeps its own record.
use gobetween.Base.{ℕ, String, Bool, Option, List}
use gobetween.Base.Dict.{Dict}
use gobetween.Base.Int.{ℤ}

pub record ConnectionOptions : Type 0 where
  pub max_connections : Option ℤ
  pub client_idle_timeout : Option String
  pub backend_idle_timeout : Option String
  pub backend_connection_timeout : Option String
  pub client_tcp_keepalive : Option Bool
  pub client_tcp_keepalive_period : Option String
  pub backend_tcp_keepalive : Option Bool
  pub backend_tcp_keepalive_period : Option String
  pub sources : Option String

pub record ProxyProtocol : Type 0 where
  pub version : String

pub record Sni : Type 0 where
  pub hostname_matching_strategy : String
  pub unexpected_hostname_strategy : String
  pub read_timeout : String

pub record Tls : Type 0 where
  pub acme_hosts : List String
  pub cert_path : String
  pub key_path : String

pub record BackendsTls : Type 0 where
  pub ignore_verify : Bool
  pub root_ca_cert_path : Option String
  pub cert_path : Option String
  pub key_path : Option String

-- The counts are `uint64`.
pub record Udp : Type 0 where
  pub max_requests : ℕ
  pub max_responses : ℕ
  pub transparent : Bool

pub record AccessConfig : Type 0 where
  pub default : String
  pub rules : List String

pub record StaticDiscoveryConfig : Type 0 where
  pub static_list : List String

pub record SrvDiscoveryConfig : Type 0 where
  pub srv_lookup_server : String
  pub srv_lookup_pattern : String
  pub srv_dns_protocol : String

pub record LxdDiscoveryConfig : Type 0 where
  pub lxd_server_address : String
  pub lxd_server_remote_name : String
  pub lxd_config_directory : String
  pub lxd_container_interface : String
  pub lxd_container_address_type : String

pub record JsonDiscoveryConfig : Type 0 where
  pub json_endpoint : String
  pub json_host_pattern : String
  pub json_port_pattern : String
  pub json_weight_pattern : String
  pub json_priority_pattern : String
  pub json_sni_pattern : String
  pub json_max_connections_pattern : String

pub record PlaintextDiscoveryConfig : Type 0 where
  pub plaintext_endpoint : String
  pub plaintext_regexp_pattern : String

-- The other kinds of discovery have sections that only their own fetchers read.
pub record DiscoveryConfig : Type 0 where
  pub kind : String
  pub failpolicy : String
  pub interval : String
  pub timeout : String
  pub static : Option StaticDiscoveryConfig
  pub srv : Option SrvDiscoveryConfig
  pub lxd : Option LxdDiscoveryConfig
  pub json : Option JsonDiscoveryConfig
  pub plaintext : Option PlaintextDiscoveryConfig

pub record ProbeHealthcheckConfig : Type 0 where
  pub probe_protocol : String
  pub probe_strategy : String
  pub probe_send : String
  pub probe_recv : String
  pub probe_recv_len : ℤ

pub record HealthcheckConfig : Type 0 where
  pub kind : String
  pub interval : String
  pub passes : ℤ
  pub fails : ℤ
  pub timeout : String
  pub proxy_protocol : Option ProxyProtocol
  pub initial_status : Option String
  pub probe : Option ProbeHealthcheckConfig

pub record Server : Type 0 where
  pub options : ConnectionOptions
  pub open options use *
  pub bind : String
  pub binds : List String
  pub bind_ips : List String
  pub bind_ports : List ℤ
  pub match_port : Bool
  pub bind_name_template : String
  pub protocol : String
  pub balance : String
  pub sni : Option Sni
  pub tls : Option Tls
  pub backends_tls : Option BackendsTls
  pub udp : Option Udp
  pub access : Option AccessConfig
  pub proxy_protocol : Option ProxyProtocol
  pub discovery : Option DiscoveryConfig
  pub healthcheck : Option HealthcheckConfig

pub record LoggingConfig : Type 0 where
  pub level : String
  pub output : String
  pub format : String

pub record ApiBasicAuthConfig : Type 0 where
  pub login : String
  pub password : String

pub record ApiTlsConfig : Type 0 where
  pub cert_path : String
  pub key_path : String

pub record ApiConfig : Type 0 where
  pub enabled : Bool
  pub bind : String
  pub basic_auth : Option ApiBasicAuthConfig
  pub tls : Option ApiTlsConfig
  pub cors : Bool

pub record MetricsConfig : Type 0 where
  pub enabled : Bool
  pub bind : String

pub record AcmeConfig : Type 0 where
  pub challenge : String
  pub http_bind : String
  pub cache_dir : String

pub record ProfilerConfig : Type 0 where
  pub enabled : Bool
  pub bind : String

-- The whole file.
pub record Config : Type 0 where
  pub logging : LoggingConfig
  pub api : ApiConfig
  pub metrics : MetricsConfig
  pub defaults : ConnectionOptions
  pub acme : Option AcmeConfig
  pub profiler : Option ProfilerConfig
  pub servers : Dict Server
