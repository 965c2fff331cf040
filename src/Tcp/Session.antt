-- ===== src/Tcp/Session.antt =====
-- What `handle` tells the scheduler of one connection.
use gobetween.Base.{
  ℕ, ◌≡◌, refl, ◌⊎◌, inl, inr, Bool, true, false, Option, none, some, List, [], ◌∷◌, ◌++◌, ◌||◌,
  arith, Bool-cases, if◌then◌else◌,
}
use gobetween.Core.{Target, Backend}
use gobetween.Config.{ProxyProtocol}
use gobetween.Access.{Net, Access}
use gobetween.Scheduler.{
  OpAction, increment_connection, decrement_connection, increment_refused, increment_tx,
  increment_rx,
}
use gobetween.Scheduler.Loop.{Event, operation}
use gobetween.Scheduler.Ledger.{opens, closes, all_opens, all_closes}
use gobetween.Tcp.Handle.{
  Report, from_backend, from_client, Action, close_client, operate, op, pump, forwarded,
  decremented, take, announce, Meeting, serve, admitted, handle,
}

-- The events that the scheduler gets.
abbrev pub events : List Action → List Event
events [] = []
events (close_client ∷ rest) = events rest
events (operate o ∷ rest) = operation o ∷ events rest

abbrev pub IsTraffic : Action → Type 0
IsTraffic close_client = ⊥
IsTraffic (operate o) = (o.action ≡ increment_tx) ⊎ (o.action ≡ increment_rx)

-- Neither opens nor closes.
abbrev pub IsFlat : Target → List Action → Type 0
IsFlat t acts = (all_opens t (events acts) ≡ 0) × (all_closes t (events acts) ≡ 0)

IsFlat-nil : (t : Target) → IsFlat t []
unfolding all_opens all_closes
IsFlat-nil t = (refl, refl)

IsFlat-cons :
    (t : Target) (b : Backend) (a : OpAction) (param : Option ℕ) (acts : List Action)
    → (a ≡ increment_tx) ⊎ (a ≡ increment_rx)
    → IsFlat t acts
    → IsFlat t (op b a param ∷ acts)
unfolding op all_opens all_closes opens closes
IsFlat-cons t b increment_tx param acts k h = (omega (arith, h.0), omega (arith, h.1))
IsFlat-cons t b increment_rx param acts k h = (omega (arith, h.0), omega (arith, h.1))
IsFlat-cons t b a param acts k h = ground arith

-- The part of a session between the increment and the decrement.
abbrev pub Waits : Target → Option (List Action) → Type 0
Waits t none = Unit {0}
Waits t (some acts) = IsFlat t acts

forwarded-Waits :
    (t : Target) (b : Backend) (is_open : Bool) (a : OpAction) (param : Option ℕ)
    (next : Option (List Action))
    → (a ≡ increment_tx) ⊎ (a ≡ increment_rx)
    → Waits t next
    → Waits t (forwarded is_open (op b a param) next)
unfolding forwarded
forwarded-Waits t b is_open a param none k h = tt
forwarded-Waits t b true a param (some acts) k h = IsFlat-cons t b a param acts k h
forwarded-Waits t b false a param (some acts) k h = h

if-Waits :
    (t : Target) (c : Bool) (next : Option (List Action))
    → Waits t next
    → Waits t (if c then next else some [])
if-Waits t true next h = h
if-Waits t false next h = IsFlat-nil t

pump-Waits :
    (t : Target) (b : Backend) (tx rx : Bool) (reports : List Report)
    → Waits t (pump b tx rx reports)
unfolding pump
pump-Waits t b tx rx [] = if-Waits t (tx || rx) none tt
pump-Waits t b tx rx (from_backend none ∷ rest) =
    if-Waits t (tx || rx) _ (pump-Waits t b tx false rest)
pump-Waits t b tx rx (from_backend (some n) ∷ rest) =
    if-Waits t (tx || rx) _
      (forwarded-Waits t b rx increment_rx (some n) _ (inr refl) (pump-Waits t b tx rx rest))
pump-Waits t b tx rx (from_client none ∷ rest) =
    if-Waits t (tx || rx) _ (pump-Waits t b false rx rest)
pump-Waits t b tx rx (from_client (some n) ∷ rest) =
    if-Waits t (tx || rx) _
      (forwarded-Waits t b tx increment_tx (some n) _ (inl refl) (pump-Waits t b tx rx rest))

-- The four ways in which a session ends.
abbrev pub Ended : Bool → Option Backend → Bool → List Action → Type 0
Ended false taken dialed acts = acts ≡ close_client ∷ []
Ended true none dialed acts = acts ≡ []
Ended true (some b) false acts = acts ≡ op b increment_refused none ∷ []
Ended true (some b) true acts =
    (middle : List Action) × (acts
      ≡ op b increment_connection none ∷ middle ++ op b decrement_connection none ∷ [])
    × ((t : Target) → IsFlat t middle)

served-Ended :
    (b : Backend) (next : Option (List Action)) (acts : List Action)
    → decremented b next ≡ some acts
    → ((t : Target) → Waits t next)
    → Ended true (some b) true acts
unfolding decremented
served-Ended b none acts e h = cc
served-Ended b (some middle) acts e h = (middle, ground arith, h)

announced-Waits :
    (c : Bool) (t : Target) (next : Option (List Action))
    → Waits t next
    → Waits t (if c then next else some [])
announced-Waits c t next h = if-Waits t c next h

take-Ended :
    {Ip : Type 0} (header : Option ProxyProtocol) (m : Meeting Ip) (taken : Option Backend)
    (dialed : Bool) (acts : List Action)
    → take header (record m { dialed = dialed }) taken ≡ some acts
    → Ended true taken dialed acts
unfolding take serve
take-Ended header m none dialed acts e = ground arith
take-Ended header m (some b) false acts e = ground arith
take-Ended header m (some b) true acts e =
    served-Ended b _ acts e
      λ t. announced-Waits (announce header m.header_sent) t _ (pump-Waits t b true true m.reports)

-- When handle returns, it has ended in one of four ways: a client whose address is not allowed is
-- closed and the scheduler is told nothing; without an elected backend it is told nothing; where
-- dialing fails it is told of one refused connection; else it is told first of the increment and
-- last of the decrement of that backend, with nothing between them that opens or closes a
-- connection of any target.
pub handle-Ended :
    {Ip Network : Type 0} (net : Net Ip Network) (access : Option (Access Ip Network))
    (header : Option ProxyProtocol) (m : Meeting Ip) (acts : List Action)
    → handle net access header m ≡ some acts
    → Ended (admitted net access m.ip) m.taken m.dialed acts
unfolding handle
handle-Ended net access header m acts e = elim (Bool-cases (admitted net access m.ip)) [
  | inl t ↦ rw t (take-Ended header m m.taken m.dialed acts (ground arith))
  | inr f ↦ rw f (ground arith)
]
