-- ===== src/Manager/Sample.antt =====
-- A server with static backends, and what preparing it gives.
use gobetween.Base.{
  if◌then◌else◌, ◌≡◌, refl, String, true, Option, none, some, [], ◌∷◌, ◌=s◌, if◌then◌else◌,
}
use gobetween.Base.Int.{pos}
use gobetween.Config.{Server, ConnectionOptions, DiscoveryConfig}
use gobetween.Manager.Verdict.{Verdict, ok, Library}
use gobetween.Manager.Healthcheck.{prepare_healthcheck, fill, check_interval, with_probe}
use gobetween.Manager.Discovery.{
  prepare_discovery, fill_discovery, prepare_srv, prepare_lxd, prepare_sni,
}
use gobetween.Manager.Prepare.{
  Defaults, normalize_defaults, check_front, check_proxy, check_durations, check_tls,
  prepare_transport, check_ping, prepare_balance, assembled, prepare_config,
}
use gobetween.Manager.Reload.{zero_server}

-- Durations are all a second, texts are what they are in quotes but for one.
abbrev pub unquoted : String → Option String
unquoted s = some (if s =s "\\\\n" then "\\n" else s)

abbrev pub lib : Library
lib = record {
  parse_duration = λ s. some (pos 1000000000);
  unquote = unquoted;
  compiles = λ s. true;
  expand_env = λ s. s;
  is_source_pool = λ s. true;
}

abbrev pub static : DiscoveryConfig
static = record {
  kind = "static";
  failpolicy = "";
  interval = "";
  timeout = "";
  static = some (record { static_list = "10.0.0.1:80" ∷ [] });
  srv = none;
  lxd = none;
  json = none;
  plaintext = none;
}

abbrev pub server : Server
server = record zero_server { bind = ":80"; discovery = some static }

abbrev pub no_options : ConnectionOptions
no_options = zero_server.options

abbrev pub defaults : Defaults
defaults = normalize_defaults no_options

abbrev pub prepared : Verdict Server → Server
prepared (ok s) = s
prepared v = zero_server

abbrev pub ready : Server
ready = prepared (prepare_config lib "web" defaults server)

pub ready_run : prepare_config lib "web" defaults server ≡ ok ready
unfolding prepare_config check_front prepare_healthcheck fill check_interval with_probe check_proxy
    prepare_sni check_durations check_tls prepare_transport check_ping prepare_balance
    prepare_discovery fill_discovery prepare_srv prepare_lxd assembled normalize_defaults
ready_run = refl

-- The same with a kind of discovery that there is not.
abbrev pub misspelt : Server
misspelt = record server { discovery = some (record static { kind = "statik" }) }

abbrev pub misspelt_ready : Server
misspelt_ready = prepared (prepare_config lib "web" defaults misspelt)

pub misspelt_run : prepare_config lib "web" defaults misspelt ≡ ok misspelt_ready
unfolding prepare_config check_front prepare_healthcheck fill check_interval with_probe check_proxy
    prepare_sni check_durations check_tls prepare_transport check_ping prepare_balance
    prepare_discovery fill_discovery prepare_srv prepare_lxd assembled normalize_defaults
misspelt_run = refl

abbrev pub misspelt_section : DiscoveryConfig
misspelt_section = record static {
  kind = "statik";
  failpolicy = "keeplast";
  interval = "0";
  timeout = "0";
}

pub misspelt_discovery : misspelt_ready.discovery ≡ some misspelt_section
unfolding prepare_config check_front prepare_healthcheck fill check_interval with_probe check_proxy
    prepare_sni check_durations check_tls prepare_transport check_ping prepare_balance
    prepare_discovery fill_discovery prepare_srv prepare_lxd assembled normalize_defaults
misspelt_discovery = refl
