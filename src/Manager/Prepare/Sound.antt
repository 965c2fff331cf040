-- ===== src/Manager/Prepare/Sound.antt =====
-- What a configuration that `prepareConfig` takes is good for.
use gobetween.Base.{
  ◌≡◌, refl, sym, subst, ap, ◌∙◌, inl, inr, String, Bool, true, ◌&&◌, ◌||◌, Option, none, some,
  ◌=s◌, arith, Bool-cases, Option-cases, is_some,
}
use gobetween.Config.{Server, DiscoveryConfig, HealthcheckConfig, Sni, Udp}
use gobetween.Balance.Registry
use gobetween.Balance.Registry.{Balancer, base}
use gobetween.Manager.Verdict.{ok, refused, Library, sources_transparent}
use gobetween.Manager.Healthcheck.Taken.{IsTaken, prepare_healthcheck-IsTaken}
use gobetween.Manager.Discovery.{is_failpolicy, prepare_discovery_again}
use gobetween.Manager.Prepare.{
  udp_limits, backends_tls_udp, refuse_if, >>=-eq-ok, unbounded, no_udp, prepare_udp, overridden,
  or_value, Defaults, Transport, prepare_transport, prepare_balance, assembled, prepare_config,
  is_balance, has_sources,
}
use gobetween.Manager.Prepare.Stages.{stages}

abbrev pub is_protocol : String → Bool
is_protocol p = p =s "tcp" || p =s "tls" || p =s "udp"

-- What the constructors of a server, its balancer and its scheduler rely on.
pub record IsReady (s : Server) : Type 0 where
  pub healthcheck : (h : HealthcheckConfig) × (s.healthcheck ≡ some h) × IsTaken h
  pub discovery :
      (d : DiscoveryConfig) × (s.discovery ≡ some d) × (is_failpolicy d.failpolicy ≡ true)
  pub balancer : (b : Balancer) × (Registry.new s.sni s.balance ≡ some b)
  pub protocol : is_protocol s.protocol ≡ true
  pub options :
      (is_some s.max_connections
        && is_some s.client_idle_timeout
        && is_some s.backend_idle_timeout
        && is_some s.backend_connection_timeout
        && is_some s.sources)
      ≡ true

base_of_balance : (c : String) → is_balance c ≡ true → is_some (base c) ≡ true
unfolding base
base_of_balance c h = ground arith

base-some : (c : String) → is_some (base c) ≡ true → (x : Balancer) × (base c ≡ some x)
base-some c h = elim (Option-cases (base c)) [ inl n ↦ absurd (ground arith) | inr r ↦ r ]

balance-is_balance : (b c : String) → prepare_balance b ≡ ok c → is_balance c ≡ true
unfolding prepare_balance
balance-is_balance b c e = elim (Bool-cases (is_balance b)) [
  | inl t ↦ let same : b ≡ c = ground arith in subst (λ x. is_balance x ≡ true) same t
  | inr f ↦ let same : "weight" ≡ c = ground arith in subst (λ x. is_balance x ≡ true) same refl
]

balance-base : (b c : String) → prepare_balance b ≡ ok c → (x : Balancer) × (base c ≡ some x)
balance-base b c e = base-some c (base_of_balance c (balance-is_balance b c e))

base-new :
    (conf : Option Sni) (c : String) (x : Balancer)
    → base c ≡ some x
    → (b : Balancer) × (Registry.new conf c ≡ some b)
unfolding Registry.new
base-new conf c x e = elim (Option-cases (Registry.new conf c)) [
  | inl n ↦ absurd (ground arith)
  | inr r ↦ r
]

udp_taken :
    (s : Server) (t : Transport)
    → prepare_udp s ≡ ok t
    → (t.protocol ≡ "udp") × (t.udp ≡ some (or_value s.udp no_udp)) × (s.backends_tls ≡ none)
unfolding prepare_udp
udp_taken s t e =
    let (a, g, e1) = >>=-eq-ok (refuse_if (is_some s.backends_tls) backends_tls_udp) _ e in
    let (b, g', e2) = >>=-eq-ok (refuse_if (unbounded s (or_value s.udp no_udp)) udp_limits) _ e1 in
    let (c, g'', e3) =
      >>=-eq-ok
        (refuse_if ((or_value s.udp no_udp).transparent && has_sources s.sources)
          sources_transparent)
        _ e2 in
    (ground arith, ground arith, ground arith)

transport-protocol :
    (s : Server) (t : Transport) → prepare_transport s ≡ ok t → is_protocol t.protocol ≡ true
unfolding prepare_transport
transport-protocol s t e = elim (Bool-cases (s.protocol =s "")) [
  | inl a ↦
      let same : t.protocol ≡ "tcp" = ground arith in
      subst (λ x. is_protocol x ≡ true) (sym same) refl
  | inr a ↦ elim (Bool-cases (s.protocol =s "tls")) [
    | inl b ↦
        let same : t.protocol ≡ "tls" = ground arith in
        subst (λ x. is_protocol x ≡ true) (sym same) refl
    | inr b ↦ elim (Bool-cases (s.protocol =s "tcp")) [
      | inl c ↦
          let same : t.protocol ≡ "tcp" = ground arith in
          subst (λ x. is_protocol x ≡ true) (sym same) refl
      | inr c ↦ elim (Bool-cases (s.protocol =s "udp")) [
        | inl d ↦ subst (λ x. is_protocol x ≡ true) (sym (udp_taken s t (ground arith)).0) refl
        | inr d ↦ absurd (ground arith)
      ]
    ]
  ]
]

-- A configuration that is taken has a healthcheck with thresholds of at least 1, a known kind and
-- a known first status, a discovery with a known fail policy, a strategy of which the registry
-- makes a balancer, one of the three protocols, and all options that every protocol has.
pub prepare_config-IsReady :
    (lib : Library) (name : String) (defaults : Defaults) (s s' : Server)
    → prepare_config lib name defaults s ≡ ok s'
    → IsReady s'
unfolding assembled
prepare_config-IsReady lib name defaults s s' e =
    let p = stages lib name defaults s s' e in
    let (x, q) = balance-base s.balance p.balance p.balance_ok in
    let (_, policy, _) = prepare_discovery_again lib p.section p.discovery p.discovery_ok in
    subst IsReady p.result (record {
      healthcheck =
          (p.healthcheck, refl, prepare_healthcheck-IsTaken lib _ p.healthcheck p.healthcheck_ok);
      discovery = (p.discovery, refl, policy);
      balancer = base-new p.sni p.balance x q;
      protocol = transport-protocol s p.transport p.transport_ok;
      options = refl;
    })

udp-transport :
    (s : Server) (t : Transport) (u : Udp)
    → prepare_transport s ≡ ok t
    → s.protocol ≡ "udp"
    → s.udp ≡ some u
    → (t.protocol ≡ "udp") × (t.udp ≡ some u) × (s.backends_tls ≡ none)
unfolding prepare_transport
udp-transport s t u e k q =
    let (a, b, c) = udp_taken s t (rw k at e) in (a, b ∙ ap (λ x. some (or_value x no_udp)) q, c)

transparent_refused :
    (s : Server) (u : Udp)
    → s.protocol ≡ "udp"
    → s.udp ≡ some u
    → u.transparent ≡ true
    → s.backends_tls ≡ none
    → is_some s.client_idle_timeout ≡ true
    → has_sources s.sources ≡ true
    → prepare_transport s ≡ refused sources_transparent
unfolding prepare_transport prepare_udp unbounded
transparent_refused s u k q tr b c h = rw (k, q) (ground arith)

-- A UDP server in transparent mode that has no sources, while the defaults have some, is taken
-- with these sources and in transparent mode, and its transport is then refused for just that when
-- it is prepared once more.
pub prepare_config_transparent :
    (lib : Library) (name : String) (defaults : Defaults) (s s' : Server) (u : Udp)
    → prepare_config lib name defaults s ≡ ok s'
    → s.protocol ≡ "udp"
    → s.udp ≡ some u
    → u.transparent ≡ true
    → s.sources ≡ none
    → has_sources (some defaults.sources) ≡ true
    → (s'.udp ≡ some u)
      × (has_sources s'.sources ≡ true)
      × (prepare_transport s' ≡ refused sources_transparent)
unfolding assembled overridden
prepare_config_transparent lib name defaults s s' u e k q tr absent given =
    let p = stages lib name defaults s s' e in
    let (a, b, c) = udp-transport s p.transport u p.transport_ok k q in
    let sources : has_sources (some (or_value s.sources defaults.sources)) ≡ true =
      subst (λ x. has_sources (some (or_value x defaults.sources)) ≡ true) (sym absent) given in
    subst
      (λ x.
        (x.udp ≡ some u)
        × (has_sources x.sources ≡ true)
        × (prepare_transport x ≡ refused sources_transparent))
      p.result (b, sources, transparent_refused _ u a b tr c refl sources)
