-- ===== src/Tcp/Server.antt =====
-- server/tcp/server.go: the server around its map of clients: Start, Listen, the hand-over of a
-- connection, the settings of a dial, and Stop.
use gobetween.Base.{
  ℕ, String, Bool, true, false, Option, none, some, List, [], ◌∷◌, ◌++◌, map, if◌then◌else◌,
}
use gobetween.Base.Int.{ℤ, pos, negsuc, ltb_ℤ}
use gobetween.Config.{ConnectionOptions}
use gobetween.Utils.Time.{parse_duration_or_default}
use gobetween.Utils.Sources.{SourcePool, next_source}
use gobetween.Tcp.Clients.{Conn, handle_connect, handle_disconnect, Event, connect, disconnect}
use gobetween.Tcp.Clients
pub mod Closing

-- `*b` is there and true; a period is there.
is_set : Option Bool → Bool
is_set none = false
is_set (some b) = b

is_unset : Option Bool → Bool
is_unset none = false
is_unset (some true) = false
is_unset (some false) = true

pub data KeepaliveCall : Type 0 where
  set_keep_alive : Bool → KeepaliveCall
  set_keep_alive_period : ℤ → KeepaliveCall

module _ (parse_duration : String → Option ℤ) where
  -- A period that counts: one that parses to a positive duration.
  pub period_of : Option String → Option ℤ
  period_of none = none
  period_of (some text) =
      let period = parse_duration_or_default parse_duration text (pos 0) in
      if ltb_ℤ (pos 0) period then some period else none

  period_calls : Option ℤ → List KeepaliveCall
  period_calls none = []
  period_calls (some period) = set_keep_alive_period period ∷ []

  -- `configureClientKeepalive`, of a connection that is TCP or not; `works` says whether SetKeepAlive
  -- gives no error.
  unfoldable pub configure_client_keepalive : ConnectionOptions → Bool → Bool → List KeepaliveCall
  unfolding is_set period_calls period_of
  configure_client_keepalive opts is_tcp works =
      let enabled = is_set opts.client_tcp_keepalive in
      if is_tcp
      then set_keep_alive enabled
        ∷ (if works
            then (if enabled then period_calls (period_of opts.client_tcp_keepalive_period) else [])
            else [])
      else []

  -- The fields of `net.Dialer` that `handle` sets. A keepalive of 0 is the default of the library, a
  -- negative one turns it off.
  pub record Dialer : Type 0 where
    pub timeout : ℤ
    pub keep_alive : ℤ
    pub local_addr : Option (List ℕ)

  or_zero : Option ℤ → ℤ
  or_zero none = pos 0
  or_zero (some period) = period

  -- The dialer of `handle`, with the pool after it; `none` is the panic at a nil timeout.
  unfoldable pub dialer :
      ConnectionOptions → Option SourcePool → Option (Dialer × Option SourcePool)
  unfolding is_unset or_zero period_of
  dialer opts pool = elim opts.backend_connection_timeout [
    | none ↦ none
    | some text ↦
        let (ip, pool') = next_source pool in
        some (
          record {
            timeout = parse_duration_or_default parse_duration text (pos 0);
            keep_alive =
                if is_unset opts.backend_tcp_keepalive
                then negsuc 0
                else or_zero (period_of opts.backend_tcp_keepalive_period);
            local_addr = ip;
          },
          pool',
        )
  ]

-- What `wrap` comes to.
pub data Wrapped : Type 0 where
  closed : Wrapped
  -- the host name, and whether TLS is spoken
  handed_over : String → Bool → Wrapped

-- `wrap`; `sniffed` is the host name that `sni.Sniff` gives, if it is no error.
unfoldable pub wrap_conn : Bool → Option String → Bool → Wrapped
wrap_conn false sniffed tls = handed_over "" tls
wrap_conn true none tls = closed
wrap_conn true (some hostname) tls = handed_over hostname tls

pub data Effect : Type 0 where
  on_clients : Clients.Effect → Effect
  stop_scheduler stop_stats close_listener : Effect

-- What the goroutine of `Start` takes.
pub data Input : Type 0 where
  event : Event → Input
  stop : Input

pub close_all : List (String × Conn) → List Effect
close_all [] = []
close_all ((k, c) ∷ m) = on_clients (Clients.close c) ∷ close_all m

-- The case of `stop`; `listening` says whether there is a listener.
unfoldable pub stop_effects : Bool → List (String × Conn) → List Effect
unfolding close_all
stop_effects listening m =
    stop_scheduler ∷ stop_stats ∷ (if listening then close_listener ∷ close_all m else [])

-- The loop of `Start`, with the map of clients; it returns at the stop, and takes nothing after it.
unfoldable pub loop :
    ℤ → Bool → List (String × Conn) → List Input → List (String × Conn) × List Effect
unfolding stop_effects
loop max listening m [] = (m, [])
loop max listening m (event e ∷ rest) =
    let (m', sent) = Clients.step max m e in
    let (m'', more) = loop max listening m' rest in (m'', map on_clients sent ++ more)
loop max listening m (stop ∷ rest) = ([], stop_effects listening m)

pub data StartCall : Type 0 where
  start_loop start_stats start_scheduler listen accept_loop stop_server : StartCall

-- `Start`: the calls that it makes, and whether it gives no error; `tls` says whether MakeTlsConfig
-- works, and `bound` whether the address is free.
unfoldable pub start : Bool → Bool → List StartCall × Bool
start false bound = ([], false)
start true true = (start_loop ∷ start_stats ∷ start_scheduler ∷ listen ∷ accept_loop ∷ [], true)
start true false = (start_loop ∷ start_stats ∷ start_scheduler ∷ listen ∷ stop_server ∷ [], false)
