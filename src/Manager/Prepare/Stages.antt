-- ===== src/Manager/Prepare/Stages.antt =====
-- `prepareConfig` taken apart into its stages.
use gobetween.Base.{false, ◌=s◌, is_empty, String, ◌≡◌, some, Option, arith}
use gobetween.Config.{Server, DiscoveryConfig, HealthcheckConfig, Sni}
use gobetween.Manager.Verdict.{
  guard, refuse_if, refuse_if-ok, no_bind, bind_and_binds, ok, Library, or_refuse, no_discovery,
  >>=-eq-ok,
}
use gobetween.Manager.Healthcheck.{or_none, prepare_healthcheck}
use gobetween.Manager.Discovery.{prepare_discovery, prepare_sni}
use gobetween.Manager.Prepare.{
  Defaults, Transport, check_front, check_proxy, check_durations, check_tls, prepare_transport,
  check_ping, prepare_balance, assembled, prepare_config,
}

-- All stages of a configuration that is taken, with what they give.
pub record Stages (lib : Library) (name : String) (defaults : Defaults) (s s' : Server)
    : Type 0 where
  pub section : DiscoveryConfig
  pub healthcheck : HealthcheckConfig
  pub sni : Option Sni
  pub transport : Transport
  pub balance : String
  pub discovery : DiscoveryConfig
  pub front : check_front name s ≡ ok tt
  pub found : s.discovery ≡ some section
  pub healthcheck_ok : prepare_healthcheck lib (or_none s.healthcheck) ≡ ok healthcheck
  pub proxy : check_proxy s ≡ ok tt
  pub sni_ok : prepare_sni lib s.sni ≡ ok sni
  pub durations : check_durations lib healthcheck ≡ ok tt
  pub tls : check_tls lib s ≡ ok tt
  pub transport_ok : prepare_transport s ≡ ok transport
  pub ping : check_ping healthcheck transport ≡ ok tt
  pub balance_ok : prepare_balance s.balance ≡ ok balance
  pub discovery_ok : prepare_discovery lib section ≡ ok discovery
  pub result : assembled defaults s healthcheck sni transport balance discovery ≡ s'

pub stages :
    (lib : Library) (name : String) (defaults : Defaults) (s s' : Server)
    → prepare_config lib name defaults s ≡ ok s'
    → Stages lib name defaults s s'
unfolding prepare_config
stages lib name defaults s s' e =
    let (a, front, e1) = >>=-eq-ok (check_front name s) _ e in
    let (d, found, e2) = >>=-eq-ok (or_refuse s.discovery (no_discovery name)) _ e1 in
    let (h, health, e3) = >>=-eq-ok (prepare_healthcheck lib (or_none s.healthcheck)) _ e2 in
    let (b, proxy, e4) = >>=-eq-ok (check_proxy s) _ e3 in
    let (n, sni, e5) = >>=-eq-ok (prepare_sni lib s.sni) _ e4 in
    let (c, durations, e6) = >>=-eq-ok (check_durations lib h) _ e5 in
    let (f, tls, e7) = >>=-eq-ok (check_tls lib s) _ e6 in
    let (t, transport, e8) = >>=-eq-ok (prepare_transport s) _ e7 in
    let (g, ping, e9) = >>=-eq-ok (check_ping h t) _ e8 in
    let (l, balance, e10) = >>=-eq-ok (prepare_balance s.balance) _ e9 in
    let (d', discovery, e11) = >>=-eq-ok (prepare_discovery lib d) _ e10 in
    record {
      section = d;
      healthcheck = h;
      sni = n;
      transport = t;
      balance = l;
      discovery = d';
      front = front;
      found = ground arith;
      healthcheck_ok = health;
      proxy = proxy;
      sni_ok = sni;
      durations = durations;
      tls = tls;
      transport_ok = transport;
      ping = ping;
      balance_ok = balance;
      discovery_ok = discovery;
      result = ground arith;
    }

-- And back.
pub prepare_config_back :
    (lib : Library) (name : String) (defaults : Defaults) (s s' : Server)
    → Stages lib name defaults s s'
    → prepare_config lib name defaults s ≡ ok s'
unfolding prepare_config
prepare_config_back lib name defaults s s' p = ground arith

pub prepare_config-bind :
    (lib : Library) (name : String) (defaults : Defaults) (s s' : Server)
    → prepare_config lib name defaults s ≡ ok s'
    → (s.bind =s "") ≡ false
unfolding check_front
prepare_config-bind lib name defaults s s' e =
    let (_, b, _) =
      >>=-eq-ok (refuse_if (s.bind =s "") (no_bind name))
        (λ _. guard (is_empty s.binds) (bind_and_binds name))
        (stages lib name defaults s s' e).front in
    refuse_if-ok (s.bind =s "") (no_bind name) b
