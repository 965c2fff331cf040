-- ===== src/Manager/Healthcheck.antt =====
-- manager/manager.go, `prepareConfig`: the section of the healthcheck.
use gobetween.Base.{
  ◌∙◌, ◌≢◌, Option-cases, sym, ap, subst, ◌≡◌, refl, inl, inr, String, Bool, true, false, ◌&&◌,
  ◌||◌, Option, none, some, ◌=s◌, if◌then◌else◌, arith, Bool-cases,
}
use gobetween.Base.Int.{ℤ, pos, ◌≤ℤ◌, leb_ℤ, ltb_ℤ}
use gobetween.Config.{HealthcheckConfig, ProbeHealthcheckConfig}
use gobetween.Healthcheck.Types.{IsStatusName}
use gobetween.Manager.Verdict.{
  >>=-eq-ok, Verdict, ok, refused, ◌>>=◌, ◌>>◌, guard, refuse_if, or_refuse, or_panic, Library,
  healthcheck_kind, healthcheck_interval, healthcheck_interval_zero, healthcheck_initial_status,
  probe_protocol, probe_fields, probe_send, probe_recv_len_redundant, probe_recv,
  probe_recv_len_missing, probe_strategy,
}
pub mod Taken
pub mod Probes

-- The section of a server that has none.
abbrev pub no_healthcheck : HealthcheckConfig
no_healthcheck = record {
  kind = "none";
  interval = "0";
  passes = pos 0;
  fails = pos 0;
  timeout = "0";
  proxy_protocol = none;
  initial_status = none;
  probe = none;
}

abbrev pub or_none : Option HealthcheckConfig → HealthcheckConfig
or_none none = no_healthcheck
or_none (some h) = h

abbrev pub or_text : String → String → String
or_text s default = if s =s "" then default else s

abbrev pub at_least_one : ℤ → ℤ
at_least_one n = if leb_ℤ n (pos 0) then pos 1 else n

-- The fields that are filled in.
unfoldable pub fill : HealthcheckConfig → HealthcheckConfig
fill h = record h {
  interval = or_text h.interval "0";
  timeout = or_text h.timeout "0";
  fails = at_least_one h.fails;
  passes = at_least_one h.passes;
}

abbrev pub is_kind : String → Bool
is_kind k = k =s "ping" || k =s "probe" || k =s "exec" || k =s "none"

positive : ℤ → Verdict (Unit {0})
positive d = refuse_if (leb_ℤ d (pos 0)) healthcheck_interval_zero

unfoldable pub check_interval : Library → HealthcheckConfig → Verdict (Unit {0})
unfolding positive
check_interval lib h =
    if h.kind =s "none"
    then ok tt
    else (or_refuse (lib.parse_duration h.interval) healthcheck_interval >>= positive)

abbrev pub is_status_name : Option String → Bool
is_status_name none = true
is_status_name (some s) = s =s "healthy" || s =s "unhealthy"

-- `probe_recv` under the strategy.
unfoldable pub received : Library → ProbeHealthcheckConfig → Verdict ProbeHealthcheckConfig
received lib p =
    if p.probe_strategy =s "starts_with"
    then (refuse_if (ltb_ℤ (pos 0) p.probe_recv_len) probe_recv_len_redundant
        >> (or_refuse (lib.unquote p.probe_recv) probe_recv >>= λ r.
            ok (record p { probe_recv = r })))
    else if p.probe_strategy =s "regexp"
    then (refuse_if (leb_ℤ p.probe_recv_len (pos 0) && leb_ℤ (pos 0) p.probe_recv_len)
          probe_recv_len_missing
        >> (guard (lib.compiles p.probe_recv) probe_recv >> ok p))
    else refused (probe_strategy p.probe_strategy)

unfoldable pub prepare_probe : Library → ProbeHealthcheckConfig → Verdict ProbeHealthcheckConfig
unfolding received
prepare_probe lib p = do
  guard (p.probe_protocol =s "tcp" || p.probe_protocol =s "udp" || p.probe_protocol =s "tls")
      probe_protocol
  refuse_if (p.probe_send =s "" || p.probe_recv =s "") probe_fields
  s ← or_refuse (lib.unquote p.probe_send) probe_send
  received lib
      (record p { probe_strategy = or_text p.probe_strategy "starts_with"; probe_send = s })

unfoldable pub with_probe : Library → HealthcheckConfig → Verdict HealthcheckConfig
unfolding prepare_probe
with_probe lib h =
    if h.kind =s "probe"
    then (or_panic h.probe >>= λ p.
        (prepare_probe lib p >>= λ p'. ok (record h { probe = some p' })))
    else ok h

-- The first part of `prepareConfig`.
unfoldable pub prepare_healthcheck : Library → HealthcheckConfig → Verdict HealthcheckConfig
prepare_healthcheck lib h = do
  guard (is_kind h.kind) (healthcheck_kind h.kind)
  check_interval lib (fill h)
  guard (is_status_name h.initial_status) healthcheck_initial_status
  with_probe lib (fill h)
