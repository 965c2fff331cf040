-- ===== src/Udp/Examples.antt =====
-- The theorems on UDP, applied to a session with limits and a timer.
use gobetween.Base.{ℕ, ◌≡◌, ◌≤◌, refl, true, false, Option, none, some, List, [], ◌∷◌, ◌++◌, arith}
use gobetween.Base.Int.{pos}
use gobetween.Base.Dict.{find}
use gobetween.Core.{Backend}
use gobetween.Scheduler.{Op}
use gobetween.Udp.Session.{
  SessionConfig, Session, Label, read_error, write, close, expire, take_timer, take_stop,
  take_packet, read_response, run, new_session,
}
use gobetween.Udp.Session.Counts.{is_open, is_close, one, run-connections}
use gobetween.Udp.Session.Runs.{count_ops}
use gobetween.Udp.Session.Responses.{is_response, run-responses}
use gobetween.Udp.Session.Stuck.{run-stuck}
use gobetween.Udp.Server.{Server, get_or_create_session}
use gobetween.Udp.Server.Sessions.{Gives, still_open, get_or_create_session-Gives}

abbrev backend : Backend
backend = record {
  target = record { host = "10.0.0.1"; port = "53" };
  priority = pos 1;
  weight = pos 1;
  max_connections = pos 0;
  sni = "";
  stats = record {
    live = true;
    discovered = true;
    total_connections = 0;
    active_connections = 0;
    refused_connections = 0;
    rx_bytes = 0;
    tx_bytes = 0;
    rx_second = 0;
    tx_second = 0;
  };
}

abbrev config : SessionConfig
config = record {
  max_requests = 2;
  max_responses = 1;
  client_idle_timeout = true;
  backend_idle_timeout = false;
  transparent = false;
}

-- A packet to the backend, its response, and the end of the session.
abbrev labels : List Label
labels = write 5 ∷ take_packet (some 5) ∷ read_response 9 (some 9) ∷ take_stop ∷ []

abbrev result : Option (Session × List Op) → Session × List Op
result none = new_session config backend
result (some r) = r

abbrev ended : Session × List Op
ended = result (run (new_session config backend).0 labels)

ended_run : run (new_session config backend).0 labels ≡ some (ended.0, ended.1)
unfolding run new_session
ended_run = refl

run-connections_example :
    (count_ops is_open ((new_session config backend).1 ++ ended.1) ≡ 1)
    × (count_ops is_close ((new_session config backend).1 ++ ended.1) ≡ one ended.0.stopped)
run-connections_example = run-connections config backend labels ended.0 ended.1 ended_run

run-responses_example : count_ops is_response ended.1 ≤ config.max_responses
run-responses_example =
    run-responses config backend labels ended.0 ended.1 (omega arith) (omega arith) ended_run

-- A session with one packet to write, whose timer has ended.
abbrev expired : Session
expired = (result (run (new_session config backend).0 (write 5 ∷ expire ∷ []))).0

-- A packet comes and a response fails once the time of the timer is received.
abbrev between : List Label
between = write 7 ∷ read_error ∷ []

-- A packet is taken, and then the server closes the session.
abbrev late : List Label
late = take_timer ∷ (between ++ (take_packet (some 5) ∷ close ∷ []))

abbrev stuck : Session × List Op
stuck = result (run expired late)

stuck_run : run expired late ≡ some (stuck.0, stuck.1)
unfolding run new_session
stuck_run = refl

run-stuck_example : (stuck.0.stopped ≡ false) × (count_ops is_close stuck.1 ≡ 0)
unfolding run new_session
run-stuck_example =
    run-stuck expired stuck.0 between (close ∷ []) (some 5) stuck.1 refl (refl, (refl, tt))
      stuck_run

-- A session that has ended is in the map.
abbrev server : Server
server = record { heap = ended.0 ∷ []; sessions = ("192.0.2.1:4000", 0) ∷ []; pool = [] }

get_or_create_session-Gives_example :
    Gives "192.0.2.1:4000"
      (some backend)
      server
      (get_or_create_session config "192.0.2.1:4000" (some backend) server)
    × ((id : ℕ)
        → still_open server.heap (find "192.0.2.1:4000" server.sessions) ≡ some id
        → get_or_create_session config "192.0.2.1:4000" (some backend) server
          ≡ (some id, server, []))
get_or_create_session-Gives_example =
    get_or_create_session-Gives config "192.0.2.1:4000" (some backend) server
