-- ===== src/Manager/Healthcheck/Probes.antt =====
-- A probe of a configuration that is taken.
use gobetween.Base.{String, ◌≡◌, ◌⊎◌, Bool, true, ◌=s◌}
use gobetween.Config.{ProbeHealthcheckConfig}
use gobetween.Manager.Healthcheck.{probe_recv}
use gobetween.Manager.Healthcheck

-- What a probe that is taken is regexp_end with.
abbrev pub IsMatchable : (String → Bool) → ProbeHealthcheckConfig → Type 0
IsMatchable compiles p =
    ((p.probe_strategy =s "starts_with") ≡ true)
    ⊎ (((p.probe_strategy =s "regexp") ≡ true) × (compiles p.probe_recv ≡ true))
