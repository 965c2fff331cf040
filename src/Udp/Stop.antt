-- ===== src/Udp/Stop.antt =====
-- server/udp/server.go: Start, the options of the sessions, and the case of `stop`.
use gobetween.Base.{
  ℕ, String, Bool, true, false, ◌==◌, Option, none, some, List, [], ◌∷◌, ◌++◌, map, if◌then◌else◌,
}
use gobetween.Base.Dict.{Dict}
use gobetween.Base.Int.{ℤ, pos, ltb_ℤ}
use gobetween.Config
use gobetween.Config.{Udp}
use gobetween.Utils.Time.{parse_duration_or_default}
use gobetween.Udp.Session.{Session, SessionConfig, closed}
use gobetween.Udp.Server.{Server, change}
pub mod Sessions

-- The options of the sessions in `serve`, and whether the pool of `fireAndForget` is made; `none` is
-- the panic at a nil pointer.
unfoldable pub session_config : (String → Option ℤ) → Config.Server → Option (SessionConfig × Bool)
session_config parse_duration s = elim s.udp [
  | none ↦ none
  | some u ↦ elim s.client_idle_timeout [
    | none ↦ none
    | some client ↦ elim s.backend_idle_timeout [
      | none ↦ none
      | some backend ↦ some (
        record {
          max_requests = u.max_requests;
          max_responses = u.max_responses;
          client_idle_timeout =
              ltb_ℤ (pos 0) (parse_duration_or_default parse_duration client (pos 0));
          backend_idle_timeout =
              ltb_ℤ (pos 0) (parse_duration_or_default parse_duration backend (pos 0));
          transparent = u.transparent;
        },
        u.max_requests == 1,
      )
    ]
  ]
]

pub data StartCall : Type 0 where
  listen start_stats start_scheduler serve cleanup_loop : StartCall

-- `Start` with `listen`: the calls, and whether it gives no error; `resolved` and `bound` say whether
-- the address is resolved and is free.
unfoldable pub start : Bool → Bool → List StartCall × Bool
start false bound = (listen ∷ [], false)
start true false = (listen ∷ [], false)
start true true = (listen ∷ start_stats ∷ start_scheduler ∷ serve ∷ cleanup_loop ∷ [], true)

-- The connections that `close` of the pool closes; the map becomes nil.
unfoldable pub close_pool : Dict ℕ → List ℕ × Dict ℕ
close_pool pool = (map (λ e. e.1) pool, [])

-- The loop over the sessions at a stop.
unfoldable pub close_sessions : List Session → Dict ℕ → List Session
close_sessions heap [] = heap
close_sessions heap ((k, id) ∷ m) = close_sessions (change closed heap id) m

pub data StopCall : Type 0 where
  store_stopped stop_ticker close_connection stop_stats stop_scheduler : StopCall

-- The case of `stop` in `Start`.
unfoldable pub stop : Server → Server × List StopCall
unfolding close_sessions
stop v = (
  record v { heap = close_sessions v.heap v.sessions; sessions = [] },
  store_stopped ∷ stop_ticker ∷ close_connection ∷ stop_stats ∷ stop_scheduler ∷ [],
)
