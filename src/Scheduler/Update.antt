-- ===== src/Scheduler/Update.antt =====
-- `HandleBackendsUpdate` against its specification: what it makes of each target.
use mathlib.Core.Option.{some_inj}
use mathlib.Core.Option
use gobetween.Base.{
  ◌⊎◌, Bool-cases, ◌≡◌, refl, sym, ap, subst, ◌∙◌, ◌⊎◌, Bool-cases, inl, inr, true, false, Option,
  none, some, List, ltb, if◌then◌else◌, arith, Option-cases,
}
use gobetween.Core.{Target, Backend}
use gobetween.Core.Table.{
  lookup, map_values, keep_values, IsTable, lookup-map_values, lookup-keep_values,
  map_values-IsTable, only_if,
}
use gobetween.Config.{HealthcheckConfig}
use gobetween.Healthcheck.Types.{
  Status, healthy, same, initial_status, StartsLive, initial_status-StartsLive,
}
use gobetween.Scheduler.{
  initial_status, Scheduler, Effect, set_discovered, rediscover, admit, discover, retained,
  handle_backends_update, active,
}
use gobetween.Scheduler.Discovery.{
  first_for, last_for, renewed, Arrived, discover_known, discover_new, discover-IsTable,
}

-- In the terms of the code, what the update makes of a target: its backend before, and the first and
-- the last of those that the discovery gives for it.
abbrev pub Computed :
    HealthcheckConfig → Option Backend → Option Backend → Option Backend → Option Backend → Type 0
Computed cfg (some old) first none now =
    now ≡ (if ltb 0 (active old) then some (set_discovered false old) else none)
Computed cfg (some old) first (some b) now = now ≡ some (rediscover old b)
Computed cfg none none last now = now ≡ none
Computed cfg none (some b) last now =
    (a : Backend) × (admit cfg b ≡ some a) × (now ≡ some (renewed a last))

finish_known :
    (cfg : HealthcheckConfig) (old : Backend) (first last now : Option Backend)
    → now ≡ only_if retained (some (renewed (set_discovered false old) last))
    → Computed cfg (some old) first last now
unfolding retained set_discovered rediscover
finish_known cfg old first none now e = e
finish_known cfg old first (some b) now e = e

renewed-retained :
    (cfg : HealthcheckConfig) (b a : Backend) (last : Option Backend)
    → admit cfg b ≡ some a
    → retained (renewed a last) ≡ true
unfolding retained admit rediscover
renewed-retained cfg b a none e = ground arith
renewed-retained cfg b a (some c) e = refl

finish_new :
    (cfg : HealthcheckConfig) (first last found now : Option Backend)
    → Arrived cfg first last found
    → now ≡ only_if retained found
    → Computed cfg none first last now
finish_new cfg none last found now h e = e ∙ ap (only_if retained) h
finish_new cfg (some b) last found now (a, adm, q) e = (a, adm, e ∙ ap (only_if retained) q ∙ kept)
  where
    kept : only_if retained (some (renewed a last)) ≡ some (renewed a last)
    kept = rw (renewed-retained cfg b a last adm)

-- What an update makes of a target, in the terms of the code.
pub update-Computed :
    (s s' : Scheduler) (bs : List Backend) (sent : List Effect) (t : Target)
    → handle_backends_update s bs ≡ some (s', sent)
    → IsTable s.backends
    → Computed s.healthcheck
        (lookup t s.backends)
        (first_for t bs)
        (last_for t bs)
        (lookup t s'.backends)
unfolding handle_backends_update
update-Computed s s' bs sent t e h =
    elim (Option-cases (discover s.healthcheck (map_values (set_discovered false) s.backends) bs)) [
      | inl p ↦ absurd (ground arith)
      | inr (m, p) ↦
          let now : keep_values retained m ≡ s'.backends = ground arith in
          let filtered =
            ap (lookup t) (sym now)
            ∙ lookup-keep_values retained t m (
                discover-IsTable s.healthcheck _ m bs p
                  (map_values-IsTable (set_discovered false) s.backends h)) in
          let before = lookup-map_values (set_discovered false) t s.backends in
          elim (Option-cases (lookup t s.backends)) [
            | inl q ↦ rw q (
                finish_new s.healthcheck _ _ _ _
                  (discover_new s.healthcheck t _ m bs p
                    (before ∙ ap (Option.map (set_discovered false)) q))
                  filtered)
            | inr (old, q) ↦
                let marked = before ∙ ap (Option.map (set_discovered false)) q in
                rw q (
                  finish_known s.healthcheck old (first_for t bs) (last_for t bs) _ (
                    filtered
                    ∙ ap (only_if retained) (discover_known s.healthcheck t _ m bs _ p marked)))
          ]
    ]

-- The properties that a discovery gives.
abbrev pub HasProperties : Backend → Backend → Type 0
HasProperties b c =
    (c.priority ≡ b.priority)
    × (c.weight ≡ b.weight)
    × (c.max_connections ≡ b.max_connections)
    × (c.sni ≡ b.sni)

-- A known backend that is given again.
pub record IsRenewed (old b c : Backend) : Type 0 where
  pub target : c.target ≡ old.target
  pub properties : HasProperties b c
  pub stats : let s = old.stats in c.stats ≡ record s { discovered = true }

abbrev pub newest : Backend → Option Backend → Backend
newest b none = b
newest b (some c) = c

-- A new backend, which may be given more than once.
pub record IsAdmitted (cfg : HealthcheckConfig) (b : Backend) (last : Option Backend) (c : Backend)
    : Type 0 where
  pub target : c.target ≡ b.target
  pub properties : HasProperties (newest b last) c
  pub starts : StartsLive cfg c.stats.live
  pub stats : let s = b.stats in c.stats ≡ record s { discovered = true; live = c.stats.live }

-- What the update makes of a target.
abbrev pub Updated :
    HealthcheckConfig → Option Backend → Option Backend → Option Backend → Option Backend → Type 0
Updated cfg (some old) first none now =
    let s = old.stats in
    (((ltb 0 s.active_connections) ≡ true)
        × (now ≡ some (record old { stats = record s { discovered = false } }))
      ⊎ ((ltb 0 s.active_connections) ≡ false) × (now ≡ none))
Updated cfg (some old) first (some b) now = (c : Backend) × (now ≡ some c) × IsRenewed old b c
Updated cfg none none last now = now ≡ none
Updated cfg none (some b) last now = (c : Backend) × (now ≡ some c) × IsAdmitted cfg b last c

abbrev admitted_with : Backend → Status → Backend
admitted_with b st =
    let s = b.stats in record b { stats = record s { discovered = true; live = same st healthy } }

admitted_with-IsAdmitted :
    (cfg : HealthcheckConfig) (b : Backend) (last : Option Backend) (st : Status)
    → StartsLive cfg (same st healthy)
    → IsAdmitted cfg b last (renewed (admitted_with b st) last)
unfolding rediscover set_discovered
admitted_with-IsAdmitted cfg b none st l = record {
  target = refl;
  properties = (refl, refl, refl, refl);
  starts = l;
  stats = refl;
}
admitted_with-IsAdmitted cfg b (some c) st l = record {
  target = refl;
  properties = (refl, refl, refl, refl);
  starts = l;
  stats = refl;
}

admit-IsAdmitted :
    (cfg : HealthcheckConfig) (b a : Backend) (last : Option Backend)
    → admit cfg b ≡ some a
    → IsAdmitted cfg b last (renewed a last)
unfolding admit
admit-IsAdmitted cfg b a last e = elim (Option-cases (initial_status cfg)) [
  | inl p ↦ absurd (ground arith)
  | inr (st, p) ↦
      let given : some (admitted_with b st) ≡ some a = rw (p, admit) at e in
      let same_one : admitted_with b st ≡ a = ground arith in
      subst (λ x. IsAdmitted cfg b last (renewed x last)) same_one
        (admitted_with-IsAdmitted cfg b last st (initial_status-StartsLive cfg st p))
]

Computed-Updated :
    (cfg : HealthcheckConfig) (before first last now : Option Backend)
    → Computed cfg before first last now
    → Updated cfg before first last now
unfolding rediscover set_discovered
Computed-Updated cfg (some old) first none now e = elim (Bool-cases (ltb 0 (active old))) [
  | inl t ↦ inl (t, rw t at e)
  | inr f ↦ inr (f, rw f at e)
]
Computed-Updated cfg (some old) first (some b) now e = (
  rediscover old b,
  e,
  record { target = refl; properties = (refl, refl, refl, refl); stats = refl },
)
Computed-Updated cfg none none last now e = e
Computed-Updated cfg none (some b) last now (a, adm, e) =
    (renewed a last, e, admit-IsAdmitted cfg b a last adm)

-- After an update of a table without doubled keys, a backend that is discovered again has the
-- priority, weight, limit and host name that are given last for it, and its old target and
-- statistics; one that is not stays, marked so, only while it has active connections; and a new
-- one has what is given last for it, and is live as the first status that the healthcheck is
-- configured with says.
pub update-Updated :
    (s s' : Scheduler) (bs : List Backend) (sent : List Effect) (t : Target)
    → handle_backends_update s bs ≡ some (s', sent)
    → IsTable s.backends
    → Updated s.healthcheck
        (lookup t s.backends)
        (first_for t bs)
        (last_for t bs)
        (lookup t s'.backends)
update-Updated s s' bs sent t e h =
    Computed-Updated s.healthcheck _ _ _ _ (update-Computed s s' bs sent t e h)
