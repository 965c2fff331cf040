-- ===== src/Stats/Handler.antt =====
-- stats/handler.go, stats/store.go and stats/stats.go: the handlers of the servers, and the store that
-- has them by name. A pointer to a handler is its number on the heap.
use mathlib.Core.Option
use gobetween.Base.{
  ℕ, zero, suc, ◌==◌, String, Bool, true, false, Option, none, some, List, [], ◌∷◌, ◌++◌,
  if◌then◌else◌, length, get_elem?,
}
use gobetween.Base.Dict.{Dict, find, set, erase}
use gobetween.Core.{Backend, ReadWriteCount}
use gobetween.Stats.Counter.{BandwidthStats}
pub mod Current

pub record Stats : Type 0 where
  pub active_connections : ℕ
  pub rx_total : ℕ
  pub tx_total : ℕ
  pub rx_second : ℕ
  pub tx_second : ℕ
  pub backends : List Backend

-- `is_running` says that the goroutine of `Start` has not returned.
pub record Handler : Type 0 where
  pub name : String
  pub latest_stats : Stats
  pub is_running : Bool

pub record Store : Type 0 where
  pub heap : List Handler
  pub handlers : Dict ℕ

pub data Event : Type 0 where
  stop : Event
  server_stats : BandwidthStats → Event
  backends : List Backend → Event
  connections : ℕ → Event
  traffic : ReadWriteCount → Event

pub data Effect : Type 0 where
  stop_server_counter stop_backends_counter : Effect
  close_server_stats close_traffic close_connections : Effect
  send_stats_change : String → BandwidthStats → Effect
  send_connections_change : String → ℕ → Effect
  to_server_counter to_backends_counter : ReadWriteCount → Effect

unfoldable pub no_stats : Stats
no_stats = record {
  active_connections = 0;
  rx_total = 0;
  tx_total = 0;
  rx_second = 0;
  tx_second = 0;
  backends = [];
}

-- `NewHandler`: the number of the new handler, and the store with it. A handler of the same name is
-- replaced.
unfoldable pub new_handler : String → Store → ℕ × Store
unfolding no_stats
new_handler name store = (
  length store.heap,
  record {
    heap = store.heap ++ record { name = name; latest_stats = no_stats; is_running = true } ∷ [];
    handlers = set name (length store.heap) store.handlers;
  },
)

-- `GetStats`
unfoldable pub get_stats : String → Store → Option Stats
get_stats name store = elim (find name store.handlers) [
  | none ↦ none
  | some i ↦ Option.map (λ h. h.latest_stats) (get_elem? store.heap i)
]

unfoldable pub change_at : (Handler → Handler) → List Handler → ℕ → List Handler
change_at f [] i = []
change_at f (h ∷ heap) zero = f h ∷ heap
change_at f (h ∷ heap) (suc i) = h ∷ change_at f heap i

-- `current == this`
unfoldable pub is_handler : ℕ → Option ℕ → Bool
is_handler i none = false
is_handler i (some j) = j == i

with_server_stats : BandwidthStats → Stats → Stats
with_server_stats b st = record st {
  rx_total = b.rx_total;
  tx_total = b.tx_total;
  rx_second = b.rx_second;
  tx_second = b.tx_second;
}

-- What an event does to the handler itself.
unfoldable pub apply_event : Event → Handler → Handler
unfolding with_server_stats
apply_event stop h = record h { is_running = false }
apply_event (server_stats b) h = record h { latest_stats = with_server_stats b h.latest_stats }
apply_event (backends bs) h =
    let st = h.latest_stats in record h { latest_stats = record st { backends = bs } }
apply_event (connections n) h =
    let st = h.latest_stats in record h { latest_stats = record st { active_connections = n } }
apply_event (traffic rwc) h = h

-- What it does to the map: a newer handler of the same name is not deleted.
unfoldable pub unregister : ℕ → String → Event → Dict ℕ → Dict ℕ
unfolding is_handler
unregister i name stop m = if is_handler i (find name m) then erase name m else m
unregister i name _ m = m

effects : String → Event → List Effect
effects name stop =
    stop_server_counter ∷ stop_backends_counter ∷ close_server_stats ∷ close_traffic
    ∷ close_connections ∷ []
effects name (server_stats b) = send_stats_change name b ∷ []
effects name (backends bs) = []
effects name (connections n) = send_connections_change name n ∷ []
effects name (traffic rwc) = to_server_counter rwc ∷ to_backends_counter rwc ∷ []

-- A case of the `select` in `Start`, of the handler with a number. One that has returned takes nothing.
unfoldable pub take_event : ℕ → Event → Store → Store × List Effect
unfolding change_at apply_event unregister effects
take_event i e store = elim (get_elem? store.heap i) [
  | none ↦ (store, [])
  | some h ↦
      if h.is_running
      then (
        record {
          heap = change_at (apply_event e) store.heap i;
          handlers = unregister i h.name e store.handlers;
        },
        effects h.name e,
      )
      else (store, [])
]

-- What the servers do to the store.
pub data Action : Type 0 where
  make : String → Action
  give : ℕ → Event → Action

unfoldable pub run : List Action → Store → Store
unfolding new_handler take_event
run [] store = store
run (make name ∷ rest) store = run rest (new_handler name store).1
run (give i e ∷ rest) store = run rest (take_event i e store).0
