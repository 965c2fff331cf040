-- ===== src/Tcp/Totality.antt =====
-- A session ends when both directions do.
use gobetween.Base.{
  ◌≡◌, refl, Bool, true, false, not, ◌&&◌, Option, none, some, List, [], ◌∷◌, arith, if◌then◌else◌,
  is_some,
}
use gobetween.Core.{Backend}
use gobetween.Config.{ProxyProtocol}
use gobetween.Access.{Net, Access}
use gobetween.Scheduler.{increment_rx, increment_tx}
use gobetween.Tcp.Handle.{
  Report, from_backend, from_client, Action, op, pump, forwarded, announce, Meeting, serve, handle,
  decremented, take,
}

-- Whether a direction is reported closed.
unfoldable pub backend_ends : List Report → Bool
backend_ends [] = false
backend_ends (from_backend none ∷ rest) = true
backend_ends (r ∷ rest) = backend_ends rest

unfoldable pub client_ends : List Report → Bool
client_ends [] = false
client_ends (from_client none ∷ rest) = true
client_ends (r ∷ rest) = client_ends rest

forwarded_total :
    (c : Bool) (a : Action) (next : Option (List Action))
    → is_some next ≡ true
    → is_some (forwarded c a next) ≡ true
unfolding forwarded
forwarded_total c a none h = h
forwarded_total c a (some x) h = refl

pump_total :
    (b : Backend) (tx rx : Bool) (reports : List Report)
    → (tx && not (client_ends reports)) ≡ false
    → (rx && not (backend_ends reports)) ≡ false
    → is_some (pump b tx rx reports) ≡ true
unfolding pump client_ends backend_ends
pump_total b tx rx [] h k = ground arith
pump_total b tx rx (from_backend none ∷ rest) h k =
    ground (arith, pump_total b tx false rest h refl)
pump_total b tx rx (from_backend (some n) ∷ rest) h k = ground (
  arith,
  forwarded_total rx (op b increment_rx (some n)) (pump b tx rx rest) (pump_total b tx rx rest h k),
)
pump_total b tx rx (from_client none ∷ rest) h k = ground (arith, pump_total b false rx rest refl k)
pump_total b tx rx (from_client (some n) ∷ rest) h k = ground (
  arith,
  forwarded_total tx (op b increment_tx (some n)) (pump b tx rx rest) (pump_total b tx rx rest h k),
)

decremented_total :
    (b : Backend) (next : Option (List Action))
    → is_some next ≡ true
    → is_some (decremented b next) ≡ true
unfolding decremented
decremented_total b none h = h
decremented_total b (some x) h = refl

take_total :
    {Ip : Type 0} (header : Option ProxyProtocol) (m : Meeting Ip) (taken : Option Backend)
    (dialed : Bool)
    → client_ends m.reports ≡ true
    → backend_ends m.reports ≡ true
    → is_some (take header (record m { dialed = dialed }) taken) ≡ true
unfolding take serve
take_total header m none dialed h k = refl
take_total header m (some b) false h k = refl
take_total header m (some b) true h k =
    decremented_total b _ (through (announce header m.header_sent))
  where
    through : (c : Bool) → is_some (if c then pump b true true m.reports else some []) ≡ true
    through true = pump_total b true true m.reports (rw h) (rw k)
    through false = refl

-- When both directions are reported closed, handle returns, whatever comes between and in
-- whichever order.
pub handle_total :
    {Ip Network : Type 0} (net : Net Ip Network) (access : Option (Access Ip Network))
    (header : Option ProxyProtocol) (m : Meeting Ip)
    → client_ends m.reports ≡ true
    → backend_ends m.reports ≡ true
    → is_some (handle net access header m) ≡ true
unfolding handle
handle_total net access header m h k = ground (arith, take_total header m m.taken m.dialed h k)
