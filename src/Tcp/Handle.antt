-- ===== src/Tcp/Handle.antt =====
-- server/tcp/server.go: `handle`, which serves one client and tells the scheduler of it.
use gobetween.Base.{
  ℕ, Bool, true, false, ◌||◌, Option, none, some, List, [], ◌∷◌, ◌++◌, ◌=s◌, if◌then◌else◌,
}
use gobetween.Core.{Backend}
use gobetween.Config.{ProxyProtocol}
use gobetween.Access.{Net, Access, allows}
use gobetween.Scheduler.{
  Op, OpAction, increment_connection, decrement_connection, increment_refused, increment_tx,
  increment_rx,
}

-- What `cs` (from the backend to the client) and `bs` (from the client to the backend) give: the
-- bytes written, or that they are closed.
pub data Report : Type 0 where
  from_backend from_client : Option ℕ → Report

pub data Action : Type 0 where
  close_client : Action
  operate : Op → Action

unfoldable pub op : Backend → OpAction → Option ℕ → Action
op b action param = operate (record { target = b.target; action = action; param = param })

-- A nil channel is never ready, so a report of a closed side does not come.
unfoldable pub forwarded : Bool → Action → Option (List Action) → Option (List Action)
forwarded is_open a none = none
forwarded is_open a (some rest) = some (if is_open then a ∷ rest else rest)

-- The loop `for isTx || isRx`; `none` while it waits for more reports.
unfoldable pub pump : Backend → Bool → Bool → List Report → Option (List Action)
unfolding op forwarded
pump b is_tx is_rx [] = if is_tx || is_rx then none else some []
pump b is_tx is_rx (from_backend none ∷ rest) =
    let next = pump b is_tx false rest in if is_tx || is_rx then next else some []
pump b is_tx is_rx (from_backend (some n) ∷ rest) =
    let next = pump b is_tx is_rx rest in
    if is_tx || is_rx then forwarded is_rx (op b increment_rx (some n)) next else some []
pump b is_tx is_rx (from_client none ∷ rest) =
    let next = pump b false is_rx rest in if is_tx || is_rx then next else some []
pump b is_tx is_rx (from_client (some n) ∷ rest) =
    let next = pump b is_tx is_rx rest in
    if is_tx || is_rx then forwarded is_tx (op b increment_tx (some n)) next else some []

-- Whether the connection goes on after the header of the proxy protocol; `sent` says if the header
-- is sent without an error.
unfoldable pub announce : Option ProxyProtocol → Bool → Bool
announce none sent = true
announce (some p) sent = if p.version =s "1" || p.version =s "2" then sent else false

-- What a connection meets: the address of the client, the backend of `TakeBackend` or an error,
-- whether dialing it works, whether its header is sent, and the reports of both directions.
pub record Meeting (Ip : Type 0) : Type 0 where
  pub ip : Ip
  pub taken : Option Backend
  pub dialed : Bool
  pub header_sent : Bool
  pub reports : List Report

-- The deferred decrement comes last.
unfoldable pub decremented : Backend → Option (List Action) → Option (List Action)
unfolding op
decremented b none = none
decremented b (some done) =
    some (op b increment_connection none ∷ done ++ op b decrement_connection none ∷ [])

-- `none` while the connection is still served.
unfoldable pub serve :
    Option ProxyProtocol → Bool → Bool → List Report → Backend → Option (List Action)
unfolding pump announce decremented op
serve header dialed sent reports b =
    if dialed
    then decremented b (if announce header sent then pump b true true reports else some [])
    else some (op b increment_refused none ∷ [])

-- What `this.access` says, if it is set.
unfoldable pub admitted :
    {Ip Network : Type 0} → Net Ip Network → Option (Access Ip Network) → Ip → Bool
admitted net none ip = true
admitted net (some access) ip = allows net access ip

unfoldable pub take :
    {Ip : Type 0} → Option ProxyProtocol → Meeting Ip → Option Backend → Option (List Action)
unfolding serve
take header m none = some []
take header m (some b) = serve header m.dialed m.header_sent m.reports b

unfoldable pub handle :
    {Ip Network : Type 0}
    → Net Ip Network
    → Option (Access Ip Network)
    → Option ProxyProtocol
    → Meeting Ip
    → Option (List Action)
unfolding take admitted
handle net access header m =
    if admitted net access m.ip then take header m m.taken else some (close_client ∷ [])
