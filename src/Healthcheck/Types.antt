-- ===== src/Healthcheck/Types.antt =====
-- healthcheck/healthcheck.go: statuses, check results, and the status of a new backend.
use gobetween.Base.{
  ◌≡◌, refl, ◌⊎◌, inl, inr, Bool-cases, String, Bool, true, false, not, Option, none, some, ◌=s◌,
  if◌then◌else◌, arith,
}
use gobetween.Core.{Target}
use gobetween.Config.{HealthcheckConfig}

pub data Status : Type 0 where
  initial unhealthy healthy : Status

pub record CheckResult : Type 0 where
  pub target : Target
  pub status : Status

-- `==` of two statuses.
abbrev pub same : Status → Status → Bool
same initial initial = true
same unhealthy unhealthy = true
same healthy healthy = true
same _ _ = false

unfoldable pub has_check : HealthcheckConfig → Bool
has_check cfg = not (cfg.kind =s "none")

named_status : Option String → Option Status
named_status none = some healthy
named_status (some s) =
    if s =s "unhealthy" then some unhealthy else if s =s "healthy" then some healthy else none

-- `InitialBackendHealthCheckStatus`; `none` is its panic.
unfoldable pub initial_status : HealthcheckConfig → Option Status
unfolding has_check named_status
initial_status cfg =
    let named = named_status cfg.initial_status in if has_check cfg then named else some healthy

-- What the manager validates of the field.
abbrev pub IsStatusName : Option String → Type 0
IsStatusName none = Unit {0}
IsStatusName (some s) = ((s =s "healthy") ≡ true) ⊎ ((s =s "unhealthy") ≡ true)

named_status_total :
    (o : Option String)
    → IsStatusName o
    → (s : Status) × (named_status o ≡ some s) × (same s initial ≡ false)
unfolding named_status
named_status_total none v = (healthy, refl, refl)
named_status_total (some s) v = elim (Bool-cases (s =s "unhealthy")) [
  | inl t ↦ (unhealthy, rw t, refl)
  | inr f ↦ (healthy, ground arith, refl)
]

-- A configuration whose first status is absent, "healthy" or "unhealthy" gives a status without a
-- panic, and one that is not the unchecked one.
pub initial_status_total :
    (cfg : HealthcheckConfig)
    → IsStatusName cfg.initial_status
    → (s : Status) × (initial_status cfg ≡ some s) × (same s initial ≡ false)
unfolding initial_status
initial_status_total cfg v = elim (Bool-cases (has_check cfg)) [
  | inl t ↦ rw t (named_status_total cfg.initial_status v)
  | inr f ↦ rw f (healthy, refl, refl)
]

-- Whether a new backend is live: without a check it is, and else as the configuration says, which is
-- by default that it is.
abbrev pub StartsLive : HealthcheckConfig → Bool → Type 0
StartsLive cfg live =
    ((cfg.kind =s "none") ≡ true) × (live ≡ true)
    ⊎ ((cfg.kind =s "none") ≡ false)
      × ((cfg.initial_status ≡ none) × (live ≡ true)
          ⊎ (s : String) × (cfg.initial_status ≡ some s)
            × (((s =s "healthy") ≡ true) × (live ≡ true)
                ⊎ ((s =s "unhealthy") ≡ true) × (live ≡ false)))

named_status-live :
    (s : String) (st : Status)
    → named_status (some s) ≡ some st
    → ((s =s "healthy") ≡ true) × (same st healthy ≡ true)
      ⊎ ((s =s "unhealthy") ≡ true) × (same st healthy ≡ false)
unfolding named_status
named_status-live s st e = elim (Bool-cases (s =s "unhealthy")) [
  | inl t ↦ inr (t, ground arith)
  | inr f ↦ elim (Bool-cases (s =s "healthy")) [
    | inl t ↦ inl (t, ground arith)
    | inr g ↦ absurd (ground arith)
  ]
]

named-StartsLive :
    (cfg : HealthcheckConfig) (o : Option String) (st : Status)
    → cfg.initial_status ≡ o
    → (cfg.kind =s "none") ≡ false
    → named_status o ≡ some st
    → StartsLive cfg (same st healthy)
unfolding named_status
named-StartsLive cfg none st q f e = inr (f, inl (q, ground arith))
named-StartsLive cfg (some s) st q f e = inr (f, inr (s, q, named_status-live s st e))

pub initial_status-StartsLive :
    (cfg : HealthcheckConfig) (st : Status)
    → initial_status cfg ≡ some st
    → StartsLive cfg (same st healthy)
unfolding initial_status has_check
initial_status-StartsLive cfg st e = elim (Bool-cases (cfg.kind =s "none")) [
  | inl t ↦ inl (t, ground arith)
  | inr f ↦
      named-StartsLive cfg cfg.initial_status st refl f (rw (f, initial_status, has_check) at e)
]
