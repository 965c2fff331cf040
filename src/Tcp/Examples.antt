-- ===== src/Tcp/Examples.antt =====
-- The theorems on the TCP server, applied to single sessions.
use gobetween.Base.{Member, map, ◌++◌, inl, inr}
use gobetween.Tcp.Clients.{Event, disconnect, close}
use gobetween.Tcp.Server.{on_clients, event, stop, loop}
use gobetween.Tcp.Server.Closing.{conn_of, stop-closes}
use gobetween.Base.{
  ℕ, ◌≤◌, ◌≡◌, refl, true, none, some, List, [], ◌∷◌, arith, is_some, String, ◌==◌, length,
}
use gobetween.Base.Int.{pos}
use gobetween.Core.{Backend}
use gobetween.Access.{Net}
use gobetween.Tcp.Clients.{Conn, connect, run, run_bounded}
use gobetween.Tcp.Proxy.{
  Counts, tick, copied, start, gather, written_bytes, copied_bytes, gather-written_bytes,
}
use gobetween.Tcp.Handle.{Meeting, Action, from_backend, from_client, handle, op}
use gobetween.Tcp.Session.{Ended, handle-Ended}
use gobetween.Tcp.Totality.{handle_total, backend_ends, client_ends}
use gobetween.Scheduler.{increment_connection, increment_rx, decrement_connection}

abbrev conn : String → Conn
conn s = record { remote = s; serial = 1 }

run_bounded_example :
    length (run (pos 2) [] (connect (conn "a") ∷ connect (conn "b") ∷ connect (conn "c") ∷ [])).0
    ≤ 2
run_bounded_example =
    run_bounded 2 [] (connect (conn "a") ∷ connect (conn "b") ∷ connect (conn "c") ∷ [])
      (omega arith) (omega arith)

abbrev counts : ℕ → Counts
counts n = record { count_read = n; count_write = n }

gather-written_bytes_example :
    written_bytes (gather start (copied (counts 5) ∷ tick ∷ copied (counts 7) ∷ [])) ≡ 12
unfolding copied_bytes
gather-written_bytes_example =
    gather-written_bytes (copied (counts 5) ∷ tick ∷ copied (counts 7) ∷ []) (refl, tt)
      (omega arith)

abbrev net : Net ℕ ℕ
net = record {
  parse_ip = λ s. some 1;
  parse_cidr = λ s. none;
  ip_equal = λ a b. a == b;
  contains = λ n a. n == a;
}

abbrev backend : Backend
backend = record {
  target = record { host = "a"; port = "80" };
  priority = pos 1;
  weight = pos 1;
  max_connections = pos 0;
  sni = "";
  stats = record {
    live = true;
    discovered = true;
    total_connections = 0;
    active_connections = 0;
    refused_connections = 0;
    rx_bytes = 0;
    tx_bytes = 0;
    rx_second = 0;
    tx_second = 0;
  };
}

abbrev meeting : Meeting ℕ
meeting = record {
  ip = 1;
  taken = some backend;
  dialed = true;
  header_sent = true;
  reports = from_backend (some 9) ∷ from_client none ∷ from_backend none ∷ [];
}

abbrev told : List Action
told =
    op backend increment_connection none
    ∷ op backend increment_rx (some 9)
    ∷ op backend decrement_connection none
    ∷ []

handle-Ended_example : Ended true (some backend) true told
unfolding handle
handle-Ended_example = handle-Ended net none none meeting told refl

handle_total_example : is_some (handle net none none meeting) ≡ true
unfolding backend_ends client_ends
handle_total_example = handle_total net none none meeting refl refl

abbrev two_clients : List Event
two_clients = connect (conn "a") ∷ connect (conn "b") ∷ disconnect (conn "a") ∷ []

two_clients_differ :
    (d e : Conn)
    → Member d (map conn_of two_clients)
    → Member e (map conn_of two_clients)
    → d.remote ≡ e.remote
    → d ≡ e
two_clients_differ d e p q r = ground arith

stop-closes_example :
    Member
      (on_clients (close (conn "b")))
      (loop (pos 1) true [] (map event two_clients ++ stop ∷ [])).1
stop-closes_example = stop-closes (pos 1) two_clients (conn "b") two_clients_differ (inr (inl refl))
