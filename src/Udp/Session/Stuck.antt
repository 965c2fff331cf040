-- ===== src/Udp/Session/Stuck.antt =====
-- A packet that is taken after the time of the timer was received.
use gobetween.Base.{
  none, All, Bool, Bool-cases, ◌++◌, inl, inr, ℕ, ◌≡◌, refl, subst, ap, ◌∙◌, true, false, Option,
  some, List, [], ◌∷◌, arith,
}
use gobetween.Scheduler.{Op}
use gobetween.Udp.Session.{
  respond, is_selecting, Session, Label, write, close, expire, take_timer, take_stop, take_packet,
  read_error, read_response, waiting, received, step, run, send_at, take_head, stop_listening,
  enqueue, closed,
}
use gobetween.Udp.Session.Counts.{is_close, respond-same, enqueue-same}
use gobetween.Udp.Session.Runs.{count_ops, count_ops-append, run-cons, some_inj, guarded}

abbrev Left : Session → (Session × List Op) → Type 0
Left s r = (r.0.writer ≡ waiting) × (r.0.stopped ≡ s.stopped) × (count_ops is_close r.1 ≡ 0)

-- A step leaves a writer that waits for good where it is.
waiting_step :
    (s : Session) (l : Label) (r : Session × List Op)
    → s.writer ≡ waiting
    → step s l ≡ some r
    → (r.0.writer ≡ waiting) × (r.0.stopped ≡ s.stopped) × (count_ops is_close r.1 ≡ 0)
unfolding step count_ops stop_listening closed
waiting_step s (write n) r w e =
    subst (Left s) (some_inj e) (((enqueue-same s n).1 ∙ w), (enqueue-same s n).0, refl)
waiting_step s close r w e = subst (Left s) (some_inj e) (w, refl, refl)
waiting_step s expire r w e = subst (Left s) (guarded _ _ r e).1 (w, refl, refl)
waiting_step s take_timer r w e = absurd (ground (arith, w))
waiting_step s take_stop r w e = absurd (ground (arith, w))
waiting_step s (take_packet result) r w e = absurd (ground (arith, w))
waiting_step s read_error r w e = subst (Left s) (guarded _ _ r e).1 (w, refl, refl)
waiting_step s (read_response n result) r w e =
    subst (Left s) (guarded _ _ r e).1
      (((respond-same s n result).1 ∙ w), (respond-same s n result).0, refl)

waiting_run :
    (s s' : Session) (ls : List Label) (ops : List Op)
    → s.writer ≡ waiting
    → run s ls ≡ some (s', ops)
    → (s'.stopped ≡ s.stopped) × (count_ops is_close ops ≡ 0)
unfolding run count_ops
waiting_run s s' [] ops w e =
    subst (λ r. (r.0.stopped ≡ s.stopped) × (count_ops is_close r.1 ≡ 0)) (some_inj e) (refl, refl)
waiting_run s s' (l ∷ ls) ops w e =
    let (m, os, rest, e1, e2, q) = run-cons s l ls s' ops e in
    let (w1, same, none_now) = waiting_step s l (m, os) w e1 in
    let (same', none_later) = waiting_run m s' ls rest w1 e2 in
    (
      same' ∙ same,
      omega (
        arith,
        ap (count_ops is_close) q,
        count_ops-append is_close os rest,
        none_now,
        none_later,
      ),
    )

-- A session that has not stopped, after the time of its timer was received.
abbrev IsLate : Session → Type 0
IsLate s = (s.timer ≡ received) × (s.stopped ≡ false)

abbrev StaysLate : (Session × List Op) → Type 0
StaysLate r = IsLate r.0 × (count_ops is_close r.1 ≡ 0)

-- The label of the case of `stopC`.
abbrev pub is_stop : Label → Bool
is_stop take_stop = true
is_stop _ = false

abbrev pub GoesOn : Label → Type 0
GoesOn l = is_stop l ≡ false

enqueue-IsLate : (s : Session) (n : ℕ) → IsLate s → IsLate (enqueue s n)
unfolding enqueue
enqueue-IsLate s n h = ground arith

respond-IsLate : (s : Session) (n : ℕ) (result : Option ℕ) → IsLate s → IsLate (respond s n result)
unfolding respond stop_listening closed
respond-IsLate s n none h = h
respond-IsLate s n (some m) h = ground arith

-- A packet that is taken late makes the writer wait, and leaves the session late.
late_head :
    (s : Session) (out : List ℕ) (result : Option ℕ) (r : Session × List Op)
    → IsLate s
    → take_head s out result ≡ some r
    → StaysLate r × (r.0.writer ≡ waiting)
unfolding take_head send_at count_ops
late_head s [] result r h e = cc
late_head s (len ∷ rest) result r h e =
    subst (λ x. StaysLate x × (x.0.writer ≡ waiting)) (some_inj (rw h.0 at e))
      (((refl, h.1), refl), refl)

late_packet :
    (s : Session) (result : Option ℕ) (r : Session × List Op)
    → IsLate s
    → step s (take_packet result) ≡ some r
    → StaysLate r × (r.0.writer ≡ waiting)
unfolding step
late_packet s result r h e = elim (Bool-cases (is_selecting s.writer)) [
  | inl t ↦ late_head s s.out result r h (rw (t, step) at e)
  | inr f ↦ absurd (ground arith)
]

late_step :
    (s : Session) (l : Label) (r : Session × List Op)
    → IsLate s
    → GoesOn l
    → step s l ≡ some r
    → StaysLate r
unfolding step count_ops stop_listening closed
late_step s (write n) r h g e = subst StaysLate (some_inj e) (enqueue-IsLate s n h, refl)
late_step s close r h g e = subst StaysLate (some_inj e) (h, refl)
late_step s expire r h g e = absurd (ground (arith, h.0))
late_step s take_timer r h g e = absurd (ground (arith, h.0))
late_step s take_stop r h g e = absurd (ground arith)
late_step s (take_packet result) r h g e = (late_packet s result r h e).0
late_step s read_error r h g e = subst StaysLate (guarded _ _ r e).1 (h, refl)
late_step s (read_response n result) r h g e =
    subst StaysLate (guarded _ _ r e).1 (respond-IsLate s n result h, refl)

-- How the counts of a step and of the rest of a run add up.
count_close :
    (os rest ops : List Op)
    → ops ≡ os ++ rest
    → count_ops is_close os ≡ 0
    → count_ops is_close rest ≡ 0
    → count_ops is_close ops ≡ 0
count_close os rest ops q a b =
    omega (arith, ap (count_ops is_close) q, count_ops-append is_close os rest, a, b)

late_run :
    (s s' : Session) (mid ls : List Label) (result : Option ℕ) (ops : List Op)
    → IsLate s
    → All GoesOn mid
    → run s (mid ++ (take_packet result ∷ ls)) ≡ some (s', ops)
    → (s'.stopped ≡ false) × (count_ops is_close ops ≡ 0)
late_run s s' [] ls result ops h g e =
    let (m, os, rest, e1, e2, q) = run-cons s (take_packet result) ls s' ops e in
    let ((still, none_now), w) = late_packet s result (m, os) h e1 in
    let (same, none_later) = waiting_run m s' ls rest w e2 in
    (same ∙ still.1, count_close os rest ops q none_now none_later)
late_run s s' (l ∷ mid) ls result ops h g e =
    let (m, os, rest, e1, e2, q) = run-cons s l (mid ++ (take_packet result ∷ ls)) s' ops e in
    let (still, none_now) = late_step s l (m, os) h g.0 e1 in
    let (open_later, none_later) = late_run m s' mid ls result rest still g.1 e2 in
    (open_later, count_close os rest ops q none_now none_later)

timer_taken :
    (s : Session) (r : Session × List Op)
    → s.stopped ≡ false
    → step s take_timer ≡ some r
    → StaysLate r
unfolding step count_ops closed
timer_taken s r h e = subst StaysLate (guarded _ _ r e).1 ((refl, h), refl)

-- In a session that has not stopped, once the time of its timer is received and then, before the
-- stop is, a packet is taken, the session never stops and sends no decrement from then on,
-- whatever happens before, in between and after, a call of Close included.
pub run-stuck :
    (s s' : Session) (mid ls : List Label) (result : Option ℕ) (ops : List Op)
    → s.stopped ≡ false
    → All GoesOn mid
    → run s (take_timer ∷ (mid ++ (take_packet result ∷ ls))) ≡ some (s', ops)
    → (s'.stopped ≡ false) × (count_ops is_close ops ≡ 0)
run-stuck s s' mid ls result ops h g e =
    let (m, os, rest, e1, e2, q) =
      run-cons s take_timer (mid ++ (take_packet result ∷ ls)) s' ops e in
    let (still, none_now) = timer_taken s (m, os) h e1 in
    let (open_later, none_later) = late_run m s' mid ls result rest still g e2 in
    (open_later, count_close os rest ops q none_now none_later)
