-- ===== src/Healthcheck/Probe.antt =====
-- healthcheck/probe.go, ping.go and exec.go: one check of a target, over what its calls give.
use gobetween.Base.{
  ◌++◌, ℕ, String, Bool, true, false, ◌||◌, Option, none, some, List, [], ◌∷◌, ◌==◌, ◌=s◌, length,
  if◌then◌else◌,
}
use gobetween.Base.Int.{ℤ, pos, negsuc, ltb_ℤ}
use gobetween.Base.Bytes.{bytes}
use gobetween.Config.{ProxyProtocol, HealthcheckConfig, ProbeHealthcheckConfig}
use gobetween.Healthcheck.Types.{Status, initial, unhealthy, healthy}
pub mod Received
pub mod Verdicts

pub data Call : Type 0 where
  dial_tls : Call
  dial_net : String → Call
  send_header : String → Call
  set_write_deadline set_read_deadline : Call
  write : List ℕ → Call
  read_full : ℕ → Call
  close : Call

-- What the calls give: whether dialing, the header and the deadlines work, the datagram with its header
-- before it, how many bytes of a text `conn.Write` writes, and the bytes that `io.ReadFull` reads into
-- a slice of a length, each if it is no error.
pub record Answers : Type 0 where
  pub dialed : Bool
  pub header_sent : Bool
  pub prepended : Option (List ℕ)
  pub write_deadline : Bool
  pub wrote : List ℕ → Option ℕ
  pub read_deadline : Bool
  pub got : ℕ → Option (List ℕ)

-- How a check ends: with a status for the result, or in a panic.
pub data End : Type 0 where
  ends : Status → End
  panics : End

pub record Outcome : Type 0 where
  pub calls : List Call
  pub end : End

unfoldable pub stop_at : End → Outcome
stop_at e = record { calls = []; end = e }

-- A call, and the rest.
unfoldable pub do_call : Call → Outcome → Outcome
do_call c o = record o { calls = c ∷ o.calls }

-- A call that may give an error, after which the target is unhealthy.
unfoldable pub try_call : Call → Bool → Outcome → Outcome
unfolding do_call stop_at
try_call c works rest = do_call c (if works then rest else stop_at (ends unhealthy))

unfoldable pub same_bytes : List ℕ → List ℕ → Bool
same_bytes [] [] = true
same_bytes (a ∷ xs) (b ∷ ys) = if a == b then same_bytes xs ys else false
same_bytes _ _ = false

-- The end of the function; `compile` is `regexp.Compile`, whose result matches bytes.
unfoldable pub regexp_end : Option (List ℕ → Bool) → List ℕ → End
regexp_end none actual = panics
regexp_end (some match) actual = if match actual then ends healthy else ends unhealthy

-- `recvLen`
unfoldable pub recv_len : ProbeHealthcheckConfig → ℤ
recv_len p = elim p.probe_recv_len [
  | pos n ↦ if n == 0 then pos (length (bytes p.probe_recv)) else pos n
  | negsuc n ↦ negsuc n
]

unfoldable pub deadline : Bool → Call → Bool → Outcome → Outcome
unfolding try_call
deadline timed c works rest = if timed then try_call c works rest else rest

-- Whether all bytes are written.
unfoldable pub complete : List ℕ → Option ℕ → Bool
complete send none = false
complete send (some n) = n == length send

-- `conn.Close()` is deferred, so it is the last call, also of a panic.
unfoldable pub with_close : Outcome → Outcome
with_close o = record o { calls = o.calls ++ close ∷ [] }

unfoldable pub dial_call : ProbeHealthcheckConfig → Call
dial_call p = if p.probe_protocol =s "tls" then dial_tls else dial_net p.probe_protocol

module _ (compile : String → Option (List ℕ → Bool)) where
  unfoldable pub compare_bytes : ProbeHealthcheckConfig → List ℕ → End
  unfolding regexp_end
  compare_bytes p actual =
      if p.probe_strategy =s "starts_with"
      then (if same_bytes actual (bytes p.probe_recv) then ends healthy else ends unhealthy)
      else if p.probe_strategy =s "regexp"
      then regexp_end (compile p.probe_recv) actual
      else panics

  unfoldable pub response_end : ProbeHealthcheckConfig → Option (List ℕ) → End
  unfolding compare_bytes
  response_end p none = ends unhealthy
  response_end p (some actual) = compare_bytes p actual

  -- The read; `make` panics at a negative length.
  unfoldable pub read_back : ProbeHealthcheckConfig → Answers → ℤ → Outcome
  unfolding response_end
  read_back p a (negsuc n) = stop_at panics
  read_back p a (pos n) = do_call (read_full n) (stop_at (response_end p (a.got n)))

  -- From the deadline for writing on; `timed` says whether the timeout is above 0.
  unfoldable pub exchange : Bool → ProbeHealthcheckConfig → Answers → List ℕ → Outcome
  unfolding read_back recv_len deadline try_call
  exchange timed p a send = deadline timed set_write_deadline a.write_deadline (
      try_call (write send) (complete send (a.wrote send))
        (deadline timed set_read_deadline a.read_deadline (read_back p a (recv_len p))))

  unfoldable pub prepended_exchange :
      Bool → ProbeHealthcheckConfig → Answers → Option (List ℕ) → Outcome
  unfolding exchange
  prepended_exchange timed p a none = stop_at (ends unhealthy)
  prepended_exchange timed p a (some send) = exchange timed p a send

  -- The header of the proxy protocol. A probe over TLS gets none.
  unfoldable pub with_header :
      Bool → ProbeHealthcheckConfig → Answers → Option ProxyProtocol → Outcome
  unfolding exchange prepended_exchange
  with_header timed p a none = exchange timed p a (bytes p.probe_send)
  with_header timed p a (some pp) =
      if pp.version =s "1" || pp.version =s "2"
      then (if p.probe_protocol =s "tcp"
          then try_call (send_header pp.version) a.header_sent
              (exchange timed p a (bytes p.probe_send))
          else if p.probe_protocol =s "udp"
          then (if pp.version =s "2"
              then prepended_exchange timed p a a.prepended
              else stop_at (ends unhealthy))
          else exchange timed p a (bytes p.probe_send))
      else stop_at (ends unhealthy)

  -- `probe`
  unfoldable pub probe : Bool → Option ProxyProtocol → ProbeHealthcheckConfig → Answers → Outcome
  unfolding with_header with_close dial_call
  probe timed proxy p a =
      do_call (dial_call p)
        (if a.dialed then with_close (with_header timed p a proxy) else stop_at (ends unhealthy))

-- `ping`
unfoldable pub ping : Option ProxyProtocol → Bool → Bool → Status
ping proxy dialed header_sent = elim proxy [
  | none ↦ if dialed then healthy else unhealthy
  | some pp ↦
      if dialed
      then (if pp.version =s "1" || pp.version =s "2"
          then (if header_sent then healthy else unhealthy)
          else unhealthy)
      else unhealthy
]

-- `exec`, with the two outputs that are expected, and the output, if there is no error. An output that
-- is not expected leaves the status at its zero, which is no result.
unfoldable pub exec : String → String → Option String → Status
exec positive negative out = elim out [
  | none ↦ unhealthy
  | some text ↦
      if text =s positive then healthy else if text =s negative then unhealthy else initial
]
