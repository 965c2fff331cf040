-- ===== src/Manager/Prepare/Again.antt =====
-- A configuration that was prepared once is prepared to the same once more.
use gobetween.Base.{◌≡◌, refl, sym, subst, ap, ◌∙◌, String, false, Option, none, some, ◌=s◌}
use gobetween.Config.{Server, DiscoveryConfig, HealthcheckConfig, Sni}
use gobetween.Manager.Verdict.{ok, Library}
use gobetween.Manager.Healthcheck.{or_none, prepare_healthcheck}
use gobetween.Manager.Healthcheck.Taken.{prepare_healthcheck_again}
use gobetween.Manager.Discovery.{prepare_sni, prepare_sni_again, prepare_discovery_again}
use gobetween.Manager.Prepare.{
  Defaults, check_front, check_proxy, check_tls, prepare_transport, assembled, prepare_config,
  left_behind, left_section,
}
use gobetween.Manager.Prepare.Stages.{stages, prepare_config_back}

-- The stages that read none of the three sections.
blind :
    (lib : Library) (name : String) (s s' : Server)
    → (check_front name (left_behind s s') ≡ check_front name s)
      × (check_proxy (left_behind s s') ≡ check_proxy s)
      × (check_tls lib (left_behind s s') ≡ check_tls lib s)
      × (prepare_transport (left_behind s s') ≡ prepare_transport s)
unfolding check_front check_proxy check_tls prepare_transport left_behind
blind lib name s s' = (refl, refl, refl, refl)

left_healthcheck :
    (lib : Library) (o : Option HealthcheckConfig) (h : HealthcheckConfig)
    → prepare_healthcheck lib (or_none o) ≡ ok h
    → ((or_none o).kind =s "probe") ≡ false
    → prepare_healthcheck lib (or_none (left_section o (some h))) ≡ ok h
unfolding left_section
left_healthcheck lib none h e k = e
left_healthcheck lib (some g) h e k = prepare_healthcheck_again lib g h e k

left_sni :
    (lib : Library) (o n : Option Sni)
    → prepare_sni lib o ≡ ok n
    → prepare_sni lib (left_section o n) ≡ ok n
unfolding left_section
left_sni lib none n e = e
left_sni lib (some g) n e = prepare_sni_again lib (some g) n e

left_found :
    (o : Option DiscoveryConfig) (d d' : DiscoveryConfig)
    → o ≡ some d
    → left_section o (some d') ≡ some d'
unfolding left_section
left_found o d d' e = rw e refl

-- Unless the healthcheck is a probe, preparing what a first preparation has left of a
-- configuration, its sections rewritten in place, gives the same result as the first.
pub prepare_config_again :
    (lib : Library) (name : String) (defaults : Defaults) (s s' : Server)
    → prepare_config lib name defaults s ≡ ok s'
    → ((or_none s.healthcheck).kind =s "probe") ≡ false
    → prepare_config lib name defaults (left_behind s s') ≡ ok s'
unfolding left_behind assembled
prepare_config_again lib name defaults s s' e k =
    let p = stages lib name defaults s s' e in
    let (front, proxy, tls, transport) = blind lib name s s' in
    let health : s'.healthcheck ≡ some p.healthcheck = sym (ap (λ x. x.healthcheck) p.result) in
    let found : s'.discovery ≡ some p.discovery = sym (ap (λ x. x.discovery) p.result) in
    let sni : s'.sni ≡ p.sni = sym (ap (λ x. x.sni) p.result) in
    prepare_config_back lib name defaults (left_behind s s') s' (record {
      section = p.discovery;
      healthcheck = p.healthcheck;
      sni = p.sni;
      transport = p.transport;
      balance = p.balance;
      discovery = p.discovery;
      front = front ∙ p.front;
      found =
          ap (left_section s.discovery) found
          ∙ left_found s.discovery p.section p.discovery p.found;
      healthcheck_ok =
          subst
            (λ x.
              prepare_healthcheck lib (or_none (left_section s.healthcheck x)) ≡ ok p.healthcheck)
            (sym health) (left_healthcheck lib s.healthcheck p.healthcheck p.healthcheck_ok k);
      proxy = proxy ∙ p.proxy;
      sni_ok =
          subst (λ x. prepare_sni lib (left_section s.sni x) ≡ ok p.sni) (sym sni)
            (left_sni lib s.sni p.sni p.sni_ok);
      durations = p.durations;
      tls = tls ∙ p.tls;
      transport_ok = transport ∙ p.transport_ok;
      ping = p.ping;
      balance_ok = p.balance_ok;
      discovery_ok = (prepare_discovery_again lib p.section p.discovery p.discovery_ok).0;
      result = p.result;
    })
