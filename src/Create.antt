-- ===== src/Create.antt =====
-- server/server.go, and New of server/tcp/server.go and server/udp/server.go: a server is made from its
-- configuration. The connections, and what is done with them, are in Tcp and Udp.
use gobetween.Base.{ℕ, String, Bool, true, false, ◌||◌, Option, none, some, [], ◌=s◌, if◌then◌else◌}
use gobetween.Config.{
  Server, BackendsTls, AccessConfig, HealthcheckConfig, DiscoveryConfig, ProxyProtocol, Sni,
  JsonDiscoveryConfig, PlaintextDiscoveryConfig,
}
use gobetween.Access.{Net, Access, new_access}
use gobetween.Balance.Registry.{Balancer}
use gobetween.Balance.Registry
use gobetween.Scheduler.{Scheduler}
use gobetween.Discovery.Fetch.Lines.{default_backend_pattern}
use gobetween.Stats.Handler.{Store, new_handler}
use gobetween.Utils.Sources.{
  NetLibrary, SourcePool, Made, no_pool, invalid_subnet, not_ipv6, no_host_bit, made,
  new_ipv6_source_pool,
}
pub mod Sections
pub mod Panics
mod Examples

-- Whether the registry of the discoveries has a kind.
unfoldable pub is_registered : String → Bool
is_registered k =
    k =s "static"
    || k =s "srv"
    || k =s "docker"
    || k =s "json"
    || k =s "exec"
    || k =s "plaintext"
    || k =s "consul"
    || k =s "lxd"

or_default : String → String → String
or_default default s = if s =s "" then default else s

-- The options of `NewJsonDiscovery`, where they are left out.
unfoldable pub with_json : DiscoveryConfig → JsonDiscoveryConfig → DiscoveryConfig
unfolding or_default
with_json d j = record d {
  json = some (record j {
    json_host_pattern = or_default "host" j.json_host_pattern;
    json_port_pattern = or_default "port" j.json_port_pattern;
    json_weight_pattern = or_default "weight" j.json_weight_pattern;
    json_priority_pattern = or_default "priority" j.json_priority_pattern;
    json_sni_pattern = or_default "sni" j.json_sni_pattern;
    json_max_connections_pattern = or_default "max_connections" j.json_max_connections_pattern;
  });
}

-- The option of `NewPlaintextDiscovery`.
unfoldable pub with_plaintext : DiscoveryConfig → PlaintextDiscoveryConfig → DiscoveryConfig
unfolding or_default
with_plaintext d p = record d {
  plaintext = some (record p {
    plaintext_regexp_pattern = or_default default_backend_pattern p.plaintext_regexp_pattern;
  });
}

-- The constructor of a kind that is registered. Two of them read their section, which panics where it
-- is nil; the others keep the configuration as it is.
unfoldable pub constructed : DiscoveryConfig → Option DiscoveryConfig
unfolding with_json with_plaintext
constructed d =
    if d.kind =s "json"
    then (elim d.json [ none ↦ none | some j ↦ some (with_json d j) ])
    else if d.kind =s "plaintext"
    then (elim d.plaintext [ none ↦ none | some p ↦ some (with_plaintext d p) ])
    else some d

-- `discovery.New`: the configuration that the discovery keeps; `none` is a panic: a kind that is not
-- registered is the call of a nil function, and a nil pointer or section is read.
unfoldable pub new_discovery : Option DiscoveryConfig → Option DiscoveryConfig
unfolding is_registered constructed
new_discovery none = none
new_discovery (some d) = if is_registered d.kind then constructed d else none

pub data Failure : Type 0 where
  bad_access bad_backends_tls bad_sources unknown_protocol : Failure

-- A panic, an error, or what was made.
pub data Creation {ℓ} (S : Type ℓ) : Type ℓ where
  panics : Creation S
  failed : Failure → Creation S
  created : S → Creation S

infixl 5 ◌>>=◌
abbrev pub ◌>>=◌ {ℓ κ} : {S : Type ℓ} {T : Type κ} → Creation S → (S → Creation T) → Creation T
panics >>= next = panics
failed e >>= next = failed e
created s >>= next = next s

-- A nil pointer that is read.
pub deref {ℓ} : {S : Type ℓ} → Option S → Creation S
deref none = panics
deref (some s) = created s

pub or_fail {ℓ} : {S : Type ℓ} → Failure → Option S → Creation S
or_fail e none = failed e
or_fail e (some s) = created s

-- `scheduler.Scheduler` before its start.
pub new_scheduler : Option Sni → Option ProxyProtocol → Server → Creation Scheduler
unfolding deref
new_scheduler sni proxy s = do
  h ← deref s.healthcheck
  b ← deref (Registry.new sni s.balance)
  d ← deref (new_discovery s.discovery)
  created
      (record { balancer = b; healthcheck = record h { proxy_protocol = proxy }; backends = [] })

sources_of : Made → Creation (Option SourcePool)
sources_of no_pool = created none
sources_of (made p) = created (some p)
sources_of _ = failed bad_sources

-- The pool of sources, where some are set.
pub new_sources : NetLibrary → Option String → Creation (Option SourcePool)
unfolding sources_of
new_sources lib none = created none
new_sources lib (some text) =
    if text =s "" then created none else sources_of (new_ipv6_source_pool lib text)

module _ {Ip Network : Type 0} (net : Net Ip Network) where
  pub new_accesses : Option AccessConfig → Creation (Option (Access Ip Network))
  unfolding or_fail
  new_accesses none = created none
  new_accesses (some cfg) = do
    access ← or_fail bad_access (new_access net cfg).1
    created (some access)

pub data ServerKind : Type 0 where
  tcp udp : ServerKind

-- What the servers of both kinds have before their start. `handler` is the number of the handler of
-- the statistics.
pub record NewServer (Ip Network TlsConfig : Type 0) : Type 0 where
  pub kind_of_server : ServerKind
  pub name : String
  pub cfg : Server
  pub handler : ℕ
  pub scheduler : Scheduler
  pub access : Option (Access Ip Network)
  pub backends_tls_config : Option TlsConfig
  pub source_pool : Option SourcePool

pub kept_proxy : Option HealthcheckConfig → Option ProxyProtocol
kept_proxy none = none
kept_proxy (some h) = h.proxy_protocol

module _ {Ip Network TlsConfig : Type 0} (net : Net Ip Network) (lib : NetLibrary)
    (make_backend_tls_config : Option BackendsTls → Option (Option TlsConfig)) where
  -- `New` of the TCP server, after its handler is made.
  unfoldable pub tcp_body : String → Server → ℕ → Creation (NewServer Ip Network TlsConfig)
  unfolding new_scheduler new_accesses new_sources or_fail
  tcp_body name s handler = do
    scheduler ← new_scheduler s.sni s.proxy_protocol s
    access ← new_accesses net s.access
    tls ← or_fail bad_backends_tls (make_backend_tls_config s.backends_tls)
    pool ← new_sources lib s.sources
    created (record {
      kind_of_server = tcp;
      name = name;
      cfg = s;
      handler = handler;
      scheduler = scheduler;
      access = access;
      backends_tls_config = tls;
      source_pool = pool;
    })

  -- `New` of the UDP server, which has no SNI, keeps its healthcheck as it is, and tests the sources
  -- first.
  pub udp_body : String → Server → ℕ → Creation (NewServer Ip Network TlsConfig)
  unfolding new_scheduler new_accesses new_sources kept_proxy
  udp_body name s handler = do
    scheduler ← new_scheduler none (kept_proxy s.healthcheck) s
    pool ← new_sources lib s.sources
    access ← new_accesses net s.access
    created (record {
      kind_of_server = udp;
      name = name;
      cfg = s;
      handler = handler;
      scheduler = scheduler;
      access = access;
      backends_tls_config = none;
      source_pool = pool;
    })

  -- Both start with the handler, which registers itself.
  pub with_handler :
      (String → Server → ℕ → Creation (NewServer Ip Network TlsConfig))
      → String
      → Server
      → Store
      → Creation (NewServer Ip Network TlsConfig) × Store
  with_handler body name s store =
      let (handler, store') = new_handler name store in (body name s handler, store')

  -- `server.New`
  unfoldable pub new_server :
      String → Server → Store → Creation (NewServer Ip Network TlsConfig) × Store
  unfolding with_handler tcp_body udp_body
  new_server name s store =
      if s.protocol =s "tls" || s.protocol =s "tcp"
      then with_handler tcp_body name s store
      else if s.protocol =s "udp"
      then with_handler udp_body name s store
      else (failed unknown_protocol, store)
