-- ===== src/Discovery.antt =====
-- discovery/discovery.go: the loop that fetches backends. A phase says where its goroutine is; a
-- label is what it does next, alone or with the other end of a channel.
use gobetween.Base.{
  ℕ, ◌≡◌, Bool, true, false, Option, none, some, List, [], ◌∷◌, ◌++◌, ◌==◌, if◌then◌else◌,
}
use gobetween.Core.{Backend}
pub mod Trace
pub mod Fetch
mod Examples

-- What the loop reads of its configuration: whether `Failpolicy` is "setempty", and the interval in
-- nanoseconds.
pub record Policy : Type 0 where
  pub set_empty : Bool
  pub interval : ℕ

-- What follows a send.
pub data Sequel : Type 0 where
  retry pause : Sequel

pub data Phase : Type 0 where
  fetching : Phase
  -- At the `select` after a fetch; `none` is an error.
  fetched : Option (List Backend) → Phase
  -- At the `select` of `send`.
  sending : Sequel → Phase
  -- At `this.out <- *this.backends`.
  offering : Sequel → Phase
  waiting : Phase
  exited : Phase

pub record Discovery : Type 0 where
  pub backends : List Backend
  pub phase : Phase

pub data Label : Type 0 where
  -- The fetch returns.
  fetch_returns : Option (List Backend) → Label
  -- The goroutine receives from `this.stop`.
  receive_stop : Label
  -- It takes the default of a `select`.
  go_on : Label
  -- The scheduler receives from `this.out`.
  taken : Label
  -- The timer of `wait` fires.
  timer : Label

at : Discovery → Phase → Discovery
at d p = record d { phase = p }

-- The branches on the error, up to the next `select`.
judge : Policy → Discovery → Option (List Backend) → Discovery
judge policy d none =
    if policy.set_empty
    then record { backends = []; phase = sending retry }
    else record d { phase = waiting }
judge policy d (some bs) = record { backends = bs; phase = sending pause }

-- After a send that came through.
after : Policy → Sequel → Phase
after policy retry = waiting
after policy pause = if policy.interval == 0 then exited else waiting

pub move : Policy → Discovery → Phase → Label → Option Discovery
unfolding at judge after
move policy d fetching (fetch_returns r) = some (at d (fetched r))
move policy d (fetched r) receive_stop = some (at d exited)
move policy d (fetched r) go_on = some (judge policy d r)
move policy d (sending k) receive_stop = some (at d exited)
move policy d (sending k) go_on = some (at d (offering k))
move policy d (offering k) taken = some (at d (after policy k))
move policy d waiting timer = some (at d fetching)
move policy d waiting receive_stop = some (at d exited)
move policy d p l = none

-- One step of `Start`; `none` where the label is not possible.
unfoldable pub step : Policy → Discovery → Label → Option Discovery
unfolding move
step policy d l = move policy d d.phase l

-- What the scheduler gets by a step.
unfoldable pub output : Discovery → Label → List (List Backend)
output d taken = d.backends ∷ []
output d l = []

-- The state after a sequence of steps, and what the scheduler gets in it.
unfoldable pub run : Policy → Discovery → List Label → Option (Discovery × List (List Backend))
unfolding step output
run policy d [] = some (d, [])
run policy d (l ∷ ls) = elim (step policy d l) [
  | none ↦ none
  | some d' ↦ elim (run policy d' ls) [
    | none ↦ none
    | some (d'', sent) ↦ some (d'', output d l ++ sent)
  ]
]

unfoldable pub start : Discovery
start = record { backends = []; phase = fetching }
