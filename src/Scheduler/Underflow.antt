-- ===== src/Scheduler/Underflow.antt =====
-- An increment that comes while its backend is out of the table is dropped, and the decrement that
-- belongs to it is not.
use gobetween.Base.{
  ◌≡◌, refl, ◌∙◌, subst, ap, false, Option, none, some, List, [], ◌∷◌, arith, inl, inr,
  Option-cases, dec,
}
use gobetween.Core.{Target, Backend, =t_refl}
use gobetween.Core.Table.{lookup, lookup-insert, map_values}
use gobetween.Balance.Types.{Env}
use gobetween.Healthcheck.Types.{IsStatusName}
use gobetween.Config.{HealthcheckConfig}
use gobetween.Scheduler.{
  Scheduler, Effect, increment_connection, decrement_connection, active, handle_op, ◌>>=◌,
  handle_backends_update, discover, set_discovered, admit, rediscover,
}
use gobetween.Scheduler.Update.{Computed, update-Computed}
use gobetween.Scheduler.Discovery.{first_for, last_for, renewed}
use gobetween.Scheduler.Totality.{update_total}
use gobetween.Scheduler.WellFormed.{IsWellFormed, update-IsWellFormed}
use gobetween.Scheduler.Loop.{Event, step, run, discovered, operation}

abbrev pub connect : Target → Event
connect t = operation (record { target = t; action = increment_connection; param = none })

abbrev pub disconnect : Target → Event
disconnect t = operation (record { target = t; action = decrement_connection; param = none })

-- An operation on a target that is not in the table changes nothing.
pub connect_untracked :
    (env : Env) (s : Scheduler) (t : Target)
    → lookup t s.backends ≡ none
    → step env s (connect t) ≡ some (s, [])
unfolding step handle_op
connect_untracked env s t h = ground arith

-- The decrement of a counter that is 0 wraps around, to a number that no limit of connections
-- admits.
pub disconnect_wraps :
    (env : Env) (s s' : Scheduler) (t : Target) (b : Backend) (sent : List Effect)
    → lookup t s.backends ≡ some b
    → active b ≡ 0
    → step env s (disconnect t) ≡ some (s', sent)
    → (c : Backend) × (lookup t s'.backends ≡ some c) × (active c ≡ 18446744073709551615)
unfolding step handle_op
disconnect_wraps env s s' t b sent h z e = (after b, kept, ground (arith))
  where
    after : Backend → Backend
    after b =
        let st = b.stats in
        record b { stats = record st { active_connections = dec st.active_connections } }

    kept : lookup t s'.backends ≡ some (after b)
    kept = ground (arith, lookup-insert t t (after b) s.backends, =t_refl t)

connect-kept :
    (env : Env) (s : Scheduler) (t : Target) (es : List Event)
    → lookup t s.backends ≡ none
    → run env s (connect t ∷ es) ≡ run env s es
unfolding run
connect-kept env s t es h =
    ap (λ r. r >>= λ (s', sent). run env s' es) (connect_untracked env s t h)

update-healthcheck :
    (s s' : Scheduler) (bs : List Backend) (sent : List Effect)
    → handle_backends_update s bs ≡ some (s', sent)
    → s.healthcheck ≡ s'.healthcheck
unfolding handle_backends_update
update-healthcheck s s' bs sent e =
    elim (Option-cases (discover s.healthcheck (map_values (set_discovered false) s.backends) bs)) [
      | inl p ↦ absurd (ground arith)
      | inr (m, p) ↦ ground arith
    ]

run-discovered :
    (env : Env) (s s' : Scheduler) (bs : List Backend) (sent : List Effect) (es : List Event)
    → handle_backends_update s bs ≡ some (s', sent)
    → run env s (discovered bs ∷ es) ≡ run env s' es
unfolding run step
run-discovered env s s' bs sent es e = rw e refl

-- The decrement that ends a run.
run-disconnect :
    (env : Env) (s : Scheduler) (t : Target) (b : Backend)
    → lookup t s.backends ≡ some b
    → active b ≡ 0
    → (s' : Scheduler) × (run env s (disconnect t ∷ []) ≡ some s')
      × (c : Backend) × (lookup t s'.backends ≡ some c)
      × (active c ≡ 18446744073709551615)
unfolding run step handle_op
run-disconnect env s t b h z = elim (Option-cases (step env s (disconnect t))) [
  | inl p ↦ absurd (ground arith)
  | inr ((s', sent), p) ↦
      let (c, q, wrapped) = disconnect_wraps env s s' t b sent h z p in
      (s', ap (λ r. r >>= λ (x, e). some x) p, c, q, wrapped)
]

-- What an update makes of a target without connections that the discovery leaves out.
update-drops :
    (s s' : Scheduler) (t : Target) (b : Backend) (bs : List Backend) (sent : List Effect)
    → handle_backends_update s bs ≡ some (s', sent)
    → IsWellFormed s
    → lookup t s.backends ≡ some b
    → active b ≡ 0
    → last_for t bs ≡ none
    → lookup t s'.backends ≡ none
update-drops s s' t b bs sent e w h z l =
    let now =
      subst (λ o. Computed s.healthcheck (some b) (first_for t bs) o (lookup t s'.backends)) l
        (subst
          (λ o. Computed s.healthcheck o (first_for t bs) (last_for t bs) (lookup t s'.backends)) h
          (update-Computed s s' bs sent t e w.keyed.0)) in
    ground arith

renewed-active : (a : Backend) (last : Option Backend) → active (renewed a last) ≡ active a
unfolding rediscover
renewed-active a none = refl
renewed-active a (some c) = refl

admit-active :
    (cfg : HealthcheckConfig) (b a : Backend) → admit cfg b ≡ some a → active a ≡ active b
unfolding admit
admit-active cfg b a e = ground arith

-- What it makes of a target that comes back.
update-admits :
    (s s' : Scheduler) (t : Target) (b : Backend) (bs : List Backend) (sent : List Effect)
    → handle_backends_update s bs ≡ some (s', sent)
    → IsWellFormed s
    → lookup t s.backends ≡ none
    → first_for t bs ≡ some b
    → (c : Backend) × (lookup t s'.backends ≡ some c) × (active c ≡ active b)
update-admits s s' t b bs sent e w h f =
    let known : Computed s.healthcheck none (some b) (last_for t bs) (lookup t s'.backends) =
      subst (λ o. Computed s.healthcheck none o (last_for t bs) (lookup t s'.backends)) f
        (subst
          (λ o. Computed s.healthcheck o (first_for t bs) (last_for t bs) (lookup t s'.backends)) h
          (update-Computed s s' bs sent t e w.keyed.0)) in
    let (a, adm, q) = known in
    (
      renewed a (last_for t bs),
      q,
      renewed-active a (last_for t bs) ∙ admit-active s.healthcheck b a adm,
    )

-- For a target of a well-formed scheduler that has no active connections, with a validated
-- healthcheck, four events in a row: a discovery that leaves the target out, an increment for it,
-- a discovery whose first backend for it comes with no active connections, and a decrement. They
-- do not panic, and leave its counter of active connections at 2 ^ 64 - 1.
pub run-wraps :
    (env : Env) (s : Scheduler) (t : Target) (b old : Backend) (gone back : List Backend)
    → IsWellFormed s
    → IsStatusName s.healthcheck.initial_status
    → lookup t s.backends ≡ some old
    → active old ≡ 0
    → last_for t gone ≡ none
    → first_for t back ≡ some b
    → active b ≡ 0
    → (s' : Scheduler) × (run env s
          (discovered gone ∷ connect t ∷ discovered back ∷ disconnect t ∷ [])
        ≡ some s')
      × (c : Backend) × (lookup t s'.backends ≡ some c)
      × (active c ≡ 18446744073709551615)
run-wraps env s t b old gone back w v h z l f z' =
    let ((s1, sent1), p1) = update_total s gone v in
    let dropped = update-drops s s1 t old gone sent1 p1 w h z l in
    let ((s2, sent2), p2) = update_total s1 back (
      subst (λ (x : HealthcheckConfig). IsStatusName x.initial_status)
        (update-healthcheck s s1 gone sent1 p1) v) in
    let (c, q, same) =
      update-admits s1 s2 t b back sent2 p2 (update-IsWellFormed s s1 gone sent1 p1 w) dropped f in
    let (s3, r, c', q', wrapped) = run-disconnect env s2 t c q (same ∙ z') in
    (
      s3,
      run-discovered env s s1 gone sent1 _ p1
          ∙ connect-kept env s1 t _ dropped
          ∙ run-discovered env s1 s2 back sent2 _ p2
          ∙ r,
      c',
      q',
      wrapped,
    )
