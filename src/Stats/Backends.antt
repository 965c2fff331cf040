-- ===== src/Stats/Backends.antt =====
-- stats/counters/backendscounter.go: a counter for each target.
use mathlib.Core.Option
use gobetween.Base.{
  ◌≡◌, refl, inl, inr, Bool, true, false, not, Option, none, some, List, [], ◌∷◌, if◌then◌else◌,
  arith, Option-cases, keep,
}
use gobetween.Core.{Target, ReadWriteCount, ◌=t◌, =t_iff}
use gobetween.Core.Table.{lookup, insert, lookup-insert}
use gobetween.Stats.Counter.{BandwidthCounter, new_counter, receive}

unfoldable pub in_targets : List Target → Target → Bool
in_targets [] u = false
in_targets (t ∷ ts) u = if u =t t then true else in_targets ts u

or_new : Target → Option BandwidthCounter → BandwidthCounter
or_new t none = new_counter t
or_new t (some c) = c

-- The counter that a target gets.
pub counter_for : List (Target × BandwidthCounter) → Target → BandwidthCounter
unfolding or_new
counter_for m t = or_new t (lookup t m)

-- The first loop of `UpdateCounters`.
pub gather_counters :
    List (Target × BandwidthCounter)
    → List (Target × BandwidthCounter)
    → List Target
    → List (Target × BandwidthCounter)
gather_counters m result [] = result
gather_counters m result (t ∷ ts) = gather_counters m (insert t (counter_for m t) result) ts

-- `UpdateCounters`: the new table, and the counters that are stopped.
unfoldable pub update_counters :
    List (Target × BandwidthCounter)
    → List Target
    → List (Target × BandwidthCounter) × List (Target × BandwidthCounter)
unfolding gather_counters in_targets
update_counters m ts = (gather_counters m [] ts, keep (λ e. not (in_targets ts e.0)) m)

-- The case of new traffic, which goes to the counter of its target, if there is one.
unfoldable pub route :
    List (Target × BandwidthCounter) → ReadWriteCount → List (Target × BandwidthCounter)
route m rwc = elim (lookup rwc.target m) [ none ↦ m | some c ↦ insert rwc.target (receive c rwc) m ]

abbrev pub chosen : Bool → BandwidthCounter → Option BandwidthCounter → Option BandwidthCounter
chosen true c o = some c
chosen false c o = o

gather_counters-lookup :
    (m result : List (Target × BandwidthCounter)) (ts : List Target) (t : Target)
    → lookup t (gather_counters m result ts)
      ≡ chosen (in_targets ts t) (counter_for m t) (lookup t result)
unfolding gather_counters in_targets
gather_counters-lookup m result [] t = refl
gather_counters-lookup m result (u ∷ ts) t = ground (
  arith,
  gather_counters-lookup m (insert u (counter_for m u) result) ts t,
  lookup-insert u t (counter_for m u) result,
  =t_iff u t,
  =t_iff t u,
)

-- After an update of the counters a target has one just where it is among the targets: the one
-- that it had, with its totals, or else a new one.
pub update_counters-lookup :
    (m : List (Target × BandwidthCounter)) (ts : List Target) (t : Target)
    → lookup t (update_counters m ts).0 ≡ (if in_targets ts t then some (counter_for m t) else none)
unfolding update_counters lookup
update_counters-lookup m ts t = ground (arith, gather_counters-lookup m [] ts t)

-- New traffic goes to the counter of its target only.
pub route-lookup :
    (m : List (Target × BandwidthCounter)) (rwc : ReadWriteCount) (t : Target)
    → lookup t (route m rwc)
      ≡ (if rwc.target =t t then Option.map (λ c. receive c rwc) (lookup t m) else lookup t m)
unfolding route
route-lookup m rwc t = elim (Option-cases (lookup rwc.target m)) [
  | inl p ↦ ground (arith, =t_iff rwc.target t)
  | inr (c, p) ↦ ground (arith, =t_iff rwc.target t, lookup-insert rwc.target t (receive c rwc) m)
]
