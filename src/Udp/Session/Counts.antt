-- ===== src/Udp/Session/Counts.antt =====
-- The connections that a session reports.
use gobetween.Base.{
  subst, ℕ, ◌+◌, ◌≡◌, refl, sym, subst, ap, ◌∙◌, Bool, true, false, ◌&&◌, Option, none, some, List,
  [], ◌∷◌, ◌++◌, arith, if◌then◌else◌,
}
use gobetween.Core.{Backend}
use gobetween.Scheduler.{Op, OpAction, increment_connection, decrement_connection}
use gobetween.Udp.Session.{
  SessionConfig, Session, Label, write, close, expire, take_timer, take_stop, take_packet,
  read_error, read_response, Timer, absent, armed, fired, received, is_selecting, step, run,
  new_session, send_at, after_write, take_head, stop_now, respond, stop_listening, enqueue, closed,
}
use gobetween.Udp.Session.Runs.{
  count_ops, count_ops-append, some_inj, run-cons, guarded, guarded_option,
}

-- One for a session that is stopped, none for another.
abbrev pub one : Bool → ℕ
one b = if b then 1 else 0

abbrev pub is_open : OpAction → Bool
is_open increment_connection = true
is_open a = false

abbrev pub is_close : OpAction → Bool
is_close decrement_connection = true
is_close a = false

-- A session whose writer is in its loop is not stopped.
abbrev pub IsLive : Session → Type 0
IsLive s = is_selecting s.writer ≡ true → s.stopped ≡ false

abbrev stops : Session → ℕ
stops s = one s.stopped

-- What one step keeps, and adds to the counts.
pub record IsCounted (s : Session) (r : Session × List Op) : Type 0 where
  pub live : IsLive r.0
  pub closes : count_ops is_close r.1 + stops s ≡ stops r.0
  pub opens : count_ops is_open r.1 ≡ 0

if_one : {a b : Bool} → a ≡ b → one b ≡ one a
if_one e = ap one (sym e)

-- A step that neither stops the session nor reports a connection.
quiet :
    (s : Session) (r : Session × List Op)
    → IsLive s
    → (r.0.stopped ≡ s.stopped) × (r.0.writer ≡ s.writer)
    → count_ops is_close r.1 ≡ 0
    → count_ops is_open r.1 ≡ 0
    → IsCounted s r
quiet s r h (e, w) c o = record {
  live = λ t. e ∙ h (subst (λ x. is_selecting x ≡ true) w t);
  closes = omega (arith, c, if_one e);
  opens = o;
}

pub enqueue-same :
    (s : Session) (n : ℕ) → ((enqueue s n).stopped ≡ s.stopped) × ((enqueue s n).writer ≡ s.writer)
unfolding enqueue
enqueue-same s n = ground arith

after_write-same :
    (s : Session) (len : ℕ) (result : Option ℕ)
    → ((after_write s len result).0.stopped ≡ s.stopped)
      × ((after_write s len result).0.writer ≡ s.writer)
unfolding after_write
after_write-same s len none = (refl, refl)
after_write-same s len (some n) = ground arith

after_write-none :
    (s : Session) (len : ℕ) (result : Option ℕ)
    → (count_ops is_close (after_write s len result).1 ≡ 0)
      × (count_ops is_open (after_write s len result).1 ≡ 0)
unfolding after_write count_ops
after_write-none s len none = (refl, refl)
after_write-none s len (some n) = ground arith

after_write-IsCounted :
    (s : Session) (len : ℕ) (result : Option ℕ) → IsLive s → IsCounted s (after_write s len result)
after_write-IsCounted s len result h =
    let (c, o) = after_write-none s len result in quiet s _ h (after_write-same s len result) c o

send_at-IsCounted :
    (t : Timer) (s : Session) (len : ℕ) (result : Option ℕ)
    → IsLive s
    → IsCounted s (send_at t s len result)
unfolding send_at count_ops
send_at-IsCounted absent s len result h = after_write-IsCounted s len result h
send_at-IsCounted armed s len result h = after_write-IsCounted s len result h
send_at-IsCounted fired s len result h =
    let c = after_write-IsCounted (record s { timer = armed }) len result h in
    record { live = c.live; closes = c.closes; opens = c.opens }
send_at-IsCounted received s len result h = record {
  live = λ w. absurd (ground arith);
  closes = omega arith;
  opens = refl;
}

take_head-IsCounted :
    (s : Session) (out : List ℕ) (result : Option ℕ) (r : Session × List Op)
    → IsLive s
    → take_head s out result ≡ some r
    → IsCounted s r
unfolding take_head
take_head-IsCounted s [] result r h e = absurd (ground arith)
take_head-IsCounted s (len ∷ rest) result r h e =
    let c = send_at-IsCounted s.timer (record s { out = rest }) len result h in
    subst (IsCounted s) (some_inj e) (record { live = c.live; closes = c.closes; opens = c.opens })

pub respond-same :
    (s : Session) (n : ℕ) (result : Option ℕ)
    → ((respond s n result).stopped ≡ s.stopped) × ((respond s n result).writer ≡ s.writer)
unfolding respond stop_listening closed
respond-same s n none = (refl, refl)
respond-same s n (some m) = ground arith

stop_now-IsCounted :
    (s : Session) → is_selecting s.writer ≡ true → IsLive s → IsCounted s (stop_now s)
unfolding stop_now count_ops
stop_now-IsCounted s w h = record {
  live = λ t. absurd (ground arith);
  closes = omega (arith, if_one (h w));
  opens = refl;
}

step-IsCounted :
    (s : Session) (l : Label) (r : Session × List Op) → IsLive s → step s l ≡ some r → IsCounted s r
unfolding step count_ops closed stop_listening
step-IsCounted s (write n) r h e =
    subst (IsCounted s) (some_inj e) (quiet s _ h (enqueue-same s n) refl refl)
step-IsCounted s close r h e = subst (IsCounted s) (some_inj e) (quiet s _ h (refl, refl) refl refl)
step-IsCounted s expire r h e =
    subst (IsCounted s) (guarded _ _ r e).1 (quiet s _ h (refl, refl) refl refl)
step-IsCounted s take_timer r h e =
    subst (IsCounted s) (guarded _ _ r e).1 (quiet s _ h (refl, refl) refl refl)
step-IsCounted s take_stop r h e =
    let (b, q) = guarded (is_selecting s.writer && s.closing) (stop_now s) r e in
    subst (IsCounted s) q (stop_now-IsCounted s (ground (arith, b)) h)
step-IsCounted s (take_packet result) r h e =
    take_head-IsCounted s s.out result r h
      (guarded_option (is_selecting s.writer) (take_head s s.out result) r e)
step-IsCounted s read_error r h e =
    subst (IsCounted s) (guarded _ _ r e).1 (quiet s _ h (refl, refl) refl refl)
step-IsCounted s (read_response n result) r h e =
    subst (IsCounted s) (guarded _ _ r e).1 (quiet s _ h (respond-same s n result) refl refl)

run-IsCounted :
    (s s' : Session) (ls : List Label) (ops : List Op)
    → IsLive s
    → run s ls ≡ some (s', ops)
    → IsCounted s (s', ops)
unfolding run count_ops
run-IsCounted s s' [] ops h e =
    subst (IsCounted s) (some_inj e) (quiet s (s, []) h (refl, refl) refl refl)
run-IsCounted s s' (l ∷ ls) ops h e =
    let (m, os, rest, e1, e2, q) = run-cons s l ls s' ops e in
    let first = step-IsCounted s l (m, os) h e1 in
    let next = run-IsCounted m s' ls rest first.live e2 in
    record {
      live = next.live;
      closes = omega (
        arith,
        ap (count_ops is_close) q,
        count_ops-append is_close os rest,
        first.closes,
        next.closes,
      );
      opens = omega (
        arith,
        ap (count_ops is_open) q,
        count_ops-append is_open os rest,
        first.opens,
        next.opens,
      );
    }

-- In every run of a new session the scheduler gets one increment of the connections of the
-- backend, and one decrement just when the session has stopped.
pub run-connections :
    (config : SessionConfig) (b : Backend) (ls : List Label) (s : Session) (ops : List Op)
    → run (new_session config b).0 ls ≡ some (s, ops)
    → (count_ops is_open ((new_session config b).1 ++ ops) ≡ 1)
      × (count_ops is_close ((new_session config b).1 ++ ops) ≡ one s.stopped)
unfolding new_session count_ops
run-connections config b ls s ops e =
    let r = run-IsCounted (new_session config b).0 s ls ops (λ w. refl) e in
    (omega (arith, r.opens), omega (arith, r.closes))
