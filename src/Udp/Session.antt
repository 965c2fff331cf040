-- ===== src/Udp/Session.antt =====
-- server/udp/session: a session, the goroutine that writes to the backend, and the one that listens to
-- its responses.
use gobetween.Base.{
  ℕ, suc, ◌+◌, ◌≡◌, Bool, true, false, not, ◌&&◌, ◌||◌, Option, none, some, List, [], ◌∷◌, ◌++◌,
  length, ltb, leb, ◌==◌, if◌then◌else◌, inc,
}
use gobetween.Core.{Backend}
use gobetween.Scheduler.{
  Op, OpAction, increment_connection, decrement_connection, increment_tx, increment_rx,
}
pub mod Runs
pub mod Counts
pub mod Responses
pub mod Requests
pub mod Stuck

-- `Config`; whether the timeouts are above 0 is all that is read of them here.
pub record SessionConfig : Type 0 where
  pub max_requests : ℕ
  pub max_responses : ℕ
  pub client_idle_timeout : Bool
  pub backend_idle_timeout : Bool
  pub transparent : Bool

-- The timer `t`: there is none, it runs, its time is in the channel, or was received from there.
pub data Timer : Type 0 where
  absent armed fired received : Timer

-- The goroutine that writes: in its `select`, waiting for good on `<-t.C`, or returned.
pub data Writer : Type 0 where
  selecting waiting returned : Writer

-- `out` has the lengths of the packets, the oldest first; `closing` tells if `stopC` is full.
pub record Session : Type 0 where
  pub config : SessionConfig
  pub backend : Backend
  pub sent : ℕ
  pub recv : ℕ
  pub out : List ℕ
  pub closing : Bool
  pub stopped : Bool
  pub timer : Timer
  pub writer : Writer
  pub listens : Bool

-- What happens next: a call of `Write` or `Close`, the end of the timer, a case of the `select` (with
-- what `conn.Write` gives, if it is no error), or a read of the listening goroutine (with what is
-- read, if it is no error, and what `WriteToUDP` gives, if it is no error). A response that was read
-- before the session stops may be reported after it.
pub data Label : Type 0 where
  write : ℕ → Label
  close expire take_timer take_stop : Label
  take_packet : Option ℕ → Label
  read_error : Label
  read_response : ℕ → Option ℕ → Label

abbrev pub max_packets_queue : ℕ
max_packets_queue = 10000

-- `Close`
unfoldable pub closed : Session → Session
closed s = record s { closing = true }

-- `Write`
pub enqueue : Session → ℕ → Session
enqueue s n =
    if s.stopped
    then s
    else if ltb (length s.out) max_packets_queue
    then record s { out = s.out ++ (n ∷ []) }
    else s

abbrev pub op : Session → OpAction → Option ℕ → Op
op s action param = record { target = s.backend.target; action = action; param = param }

-- What follows the write of a packet. The three `break` end the `select` only, so the loop goes on.
pub after_write : Session → ℕ → Option ℕ → Session × List Op
after_write s len none = (s, [])
after_write s len (some n) =
    if n == len
    then (
      if ltb 0 s.config.max_requests then record s { sent = inc s.sent } else s,
      op s increment_tx (some n) ∷ [],
    )
    else (s, [])

-- The case of a packet, for each state of the timer; a timer whose time was received is waited for.
pub send_at : Timer → Session → ℕ → Option ℕ → Session × List Op
unfolding after_write
send_at absent s len result = after_write s len result
send_at armed s len result = after_write s len result
send_at fired s len result = after_write (record s { timer = armed }) len result
send_at received s len result = (record s { writer = waiting }, [])

pub take_head : Session → List ℕ → Option ℕ → Option (Session × List Op)
unfolding send_at
take_head s [] result = none
take_head s (len ∷ rest) result = some (send_at s.timer (record s { out = rest }) len result)

-- The case of `stopC`.
pub stop_now : Session → Session × List Op
stop_now s = (
  record s { closing = false; stopped = true; out = []; timer = received; writer = returned },
  op s decrement_connection none ∷ [],
)

-- The listening goroutine returns, and its deferred `Close` is called.
pub stop_listening : Session → Session
unfolding closed
stop_listening s = closed (record s { listens = false })

-- A response that is read.
pub respond : Session → ℕ → Option ℕ → Session
unfolding stop_listening
respond s n none = stop_listening s
respond s n (some m) =
    if m == n
    then (if ltb 0 s.config.max_responses
        then (if leb s.config.max_responses (inc s.recv)
            then stop_listening (record s { recv = inc s.recv })
            else record s { recv = inc s.recv })
        else s)
    else stop_listening s

abbrev pub is_selecting : Writer → Bool
is_selecting selecting = true
is_selecting w = false

abbrev pub is_fired : Timer → Bool
is_fired fired = true
is_fired t = false

abbrev pub is_armed : Timer → Bool
is_armed armed = true
is_armed t = false

-- One step with the operations that it sends to the scheduler; `none` where it cannot happen.
pub step : Session → Label → Option (Session × List Op)
unfolding take_head stop_now respond enqueue closed
step s (write n) = some (enqueue s n, [])
step s close = some (closed s, [])
step s expire = if is_armed s.timer then some (record s { timer = fired }, []) else none
step s take_timer =
    if is_selecting s.writer && is_fired s.timer
    then some (closed (record s { timer = received }), [])
    else none
step s take_stop = if is_selecting s.writer && s.closing then some (stop_now s) else none
step s (take_packet result) = if is_selecting s.writer then take_head s s.out result else none
step s read_error = if s.listens then some (stop_listening s, []) else none
step s (read_response n result) =
    if s.listens then some (respond s n result, op s increment_rx (some n) ∷ []) else none

unfoldable pub run : Session → List Label → Option (Session × List Op)
unfolding step
run s [] = some (s, [])
run s (l ∷ ls) = elim (step s l) [
  | none ↦ none
  | some r ↦ elim (run r.0 ls) [ none ↦ none | some q ↦ some (q.0, r.1 ++ q.1) ]
]

-- `NewSession`, with `ListenResponses` where the server calls it.
unfoldable pub new_session : SessionConfig → Backend → Session × List Op
new_session config b =
    let s : Session = record {
      config = config;
      backend = b;
      sent = 0;
      recv = 0;
      out = [];
      closing = false;
      stopped = false;
      timer = (if config.client_idle_timeout then armed else absent);
      writer = selecting;
      listens = not config.transparent;
    } in
    (s, op s increment_connection none ∷ [])
