-- ===== src/Udp/Session/Requests.antt =====
-- The limit of requests, which the goroutine that writes does not keep.
use gobetween.Base.{
  ℕ, zero, suc, ◌≡◌, refl, ap, Bool, true, false, not, some, List, [], ◌∷◌, inl, inr, Bool-cases,
  if◌then◌else◌, ltb, inc,
}
use gobetween.Core.{Backend}
use gobetween.Scheduler.{Op, OpAction, increment_tx}
use gobetween.Udp.Session.{
  SessionConfig, Session, Label, write, take_packet, absent, armed, selecting, step, run,
  new_session, send_at, after_write, take_head, enqueue,
}
use gobetween.Udp.Session.Runs.{count_ops, run-step}

abbrev pub is_request : OpAction → Bool
is_request increment_tx = true
is_request a = false

-- The client sends a packet of one byte and it is written, `n` times.
abbrev pub rounds : ℕ → List Label
rounds zero = []
rounds (suc n) = write 1 ∷ take_packet (some 1) ∷ rounds n

-- A session with nothing to write, after `k` packets; its timer runs, or there is none.
abbrev idle : SessionConfig → Backend → Bool → ℕ → Session
idle config b timed k = record {
  config = config;
  backend = b;
  sent = k;
  recv = 0;
  out = [];
  closing = false;
  stopped = false;
  timer = (if timed then armed else absent);
  writer = selecting;
  listens = not config.transparent;
}

-- `n` rounds are run to the end, report `n` packets, and do not stop the session.
abbrev Goes : Session → ℕ → Type 0
Goes m n =
    (s : Session) × (ops : List Op) × (run m (rounds n) ≡ some (s, ops))
    × (count_ops is_request ops ≡ n)
    × (s.stopped ≡ false)

-- With one packet of one byte to write.
abbrev queued : SessionConfig → Backend → Bool → ℕ → Session
queued config b timed k = record (idle config b timed k) { out = 1 ∷ [] }

abbrev sent_after : SessionConfig → ℕ → ℕ
sent_after config k = if ltb 0 config.max_requests then inc k else k

abbrev one_packet : Backend → Op
one_packet b = record { target = b.target; action = increment_tx; param = some 1 }

step-write :
    (config : SessionConfig) (b : Backend) (timed : Bool) (k : ℕ)
    → step (idle config b timed k) (write 1) ≡ some (queued config b timed k, [])
unfolding step enqueue
step-write config b timed k = refl

step-take_packet :
    (config : SessionConfig) (b : Backend) (timed : Bool) (k : ℕ)
    → step (queued config b timed k) (take_packet (some 1))
      ≡ some (idle config b timed (sent_after config k), one_packet b ∷ [])
unfolding step take_head send_at after_write
step-take_packet config b true k = elim (Bool-cases (ltb 0 config.max_requests)) [
  | inl t ↦ rw t refl
  | inr f ↦ rw f refl
]
step-take_packet config b false k = elim (Bool-cases (ltb 0 config.max_requests)) [
  | inl t ↦ rw t refl
  | inr f ↦ rw f refl
]

rounds_from :
    (config : SessionConfig) (b : Backend) (timed : Bool) (n k : ℕ) → Goes (idle config b timed k) n
unfolding run count_ops
rounds_from config b timed zero k = (idle config b timed k, [], refl, refl, refl)
rounds_from config b timed (suc n) k =
    let (s, ops, e, c, f) = rounds_from config b timed n (sent_after config k) in
    (
      s,
      one_packet b ∷ ops,
      run-step (idle config b timed k) (queued config b timed k) (write 1)
          (take_packet (some 1) ∷ rounds n) [] (step-write config b timed k)
          (run-step (queued config b timed k) (idle config b timed (sent_after config k))
            (take_packet (some 1)) (rounds n) (one_packet b ∷ [])
            (step-take_packet config b timed k) e),
      ap suc c,
      f,
    )

-- Whatever the limit of requests, any number of packets is written, each is reported, and the session
-- does not stop.
pub run-requests :
    (config : SessionConfig) (b : Backend) (n : ℕ)
    → (s : Session) × (ops : List Op) × (run (new_session config b).0 (rounds n) ≡ some (s, ops))
      × (count_ops is_request ops ≡ n)
      × (s.stopped ≡ false)
unfolding new_session
run-requests config b n = rounds_from config b config.client_idle_timeout n 0
