-- ===== src/Udp/Session/Responses.antt =====
-- The limit of responses.
use gobetween.Base.{
  ℕ, ◌+◌, ◌≤◌, ◌<◌, ◌≡◌, refl, sym, subst, ap, ◌∙◌, Bool, true, false, Option, none, some, List, [],
  ◌∷◌, inl, inr, Bool-cases, arith, if◌then◌else◌, word, inc, ltb, leb, ◌==◌,
}
use gobetween.Core.{Backend}
use gobetween.Scheduler.{Op, OpAction, increment_rx}
use gobetween.Udp.Session.{
  SessionConfig, Session, Label, write, close, expire, take_timer, take_stop, take_packet,
  read_error, read_response, Timer, absent, armed, fired, received, is_selecting, step, run,
  new_session, send_at, after_write, take_head, stop_now, respond, stop_listening, enqueue, closed,
}
use gobetween.Udp.Session.Runs.{
  count_ops, count_ops-append, run-cons, some_inj, guarded, guarded_option,
}

abbrev pub is_response : OpAction → Bool
is_response increment_rx = true
is_response a = false

-- How many of the responses that are allowed are used up, at most.
abbrev pub used : Session → ℕ
used s = if s.listens then s.recv else s.config.max_responses

-- The listening goroutine stops in time, and the limit fits a counter.
pub record IsBounded (s : Session) : Type 0 where
  pub some_limit : 1 ≤ s.config.max_responses
  pub fits : s.config.max_responses < word
  pub below : s.listens ≡ true → s.recv < s.config.max_responses

-- A step keeps the limit, and reports no more responses than it uses up.
pub record IsUsed (s : Session) (r : Session × List Op) : Type 0 where
  pub config : r.0.config ≡ s.config
  pub bounded : IsBounded r.0
  pub responses : count_ops is_response r.1 + used s ≤ used r.0

-- A step of the other goroutine.
apart :
    (s : Session) (r : Session × List Op)
    → IsBounded s
    → (r.0.config ≡ s.config) × (r.0.listens ≡ s.listens) × (r.0.recv ≡ s.recv)
    → count_ops is_response r.1 ≡ 0
    → IsUsed s r
apart s r b (c, l, v) n =
    let limit = ap (λ x. x.max_responses) c in
    record {
      config = c;
      bounded = record {
        some_limit = subst (λ x. 1 ≤ x) (sym limit) b.some_limit;
        fits = subst (λ x. x < word) (sym limit) b.fits;
        below = λ t. omega (arith, b.below (sym l ∙ t), v, limit);
      };
      responses = ground (arith, n, l, v, limit);
    }

enqueue-apart :
    (s : Session) (n : ℕ)
    → ((enqueue s n).config ≡ s.config)
      × ((enqueue s n).listens ≡ s.listens)
      × ((enqueue s n).recv ≡ s.recv)
unfolding enqueue
enqueue-apart s n = ground arith

after_write-apart :
    (s : Session) (len : ℕ) (result : Option ℕ)
    → ((after_write s len result).0.config ≡ s.config)
      × ((after_write s len result).0.listens ≡ s.listens)
      × ((after_write s len result).0.recv ≡ s.recv)
unfolding after_write
after_write-apart s len none = (refl, refl, refl)
after_write-apart s len (some n) = ground arith

after_write-silent :
    (s : Session) (len : ℕ) (result : Option ℕ)
    → count_ops is_response (after_write s len result).1 ≡ 0
unfolding after_write count_ops
after_write-silent s len none = refl
after_write-silent s len (some n) = ground arith

send_at-IsUsed :
    (t : Timer) (s : Session) (len : ℕ) (result : Option ℕ)
    → IsBounded s
    → IsUsed s (send_at t s len result)
unfolding send_at count_ops
send_at-IsUsed absent s len result b =
    apart s _ b (after_write-apart s len result) (after_write-silent s len result)
send_at-IsUsed armed s len result b =
    apart s _ b (after_write-apart s len result) (after_write-silent s len result)
send_at-IsUsed fired s len result b =
    apart s _ b (after_write-apart (record s { timer = armed }) len result)
      (after_write-silent (record s { timer = armed }) len result)
send_at-IsUsed received s len result b = apart s _ b (refl, refl, refl) refl

take_head-IsUsed :
    (s : Session) (out : List ℕ) (result : Option ℕ) (r : Session × List Op)
    → IsBounded s
    → take_head s out result ≡ some r
    → IsUsed s r
unfolding take_head
take_head-IsUsed s [] result r b e = absurd (ground arith)
take_head-IsUsed s (len ∷ rest) result r b e =
    let c =
      send_at-IsUsed s.timer (record s { out = rest }) len result
        (record { some_limit = b.some_limit; fits = b.fits; below = b.below }) in
    subst (IsUsed s) (some_inj e)
      (record { config = c.config; bounded = c.bounded; responses = c.responses })

-- The goroutine that listens returns.
ended-IsUsed :
    (s : Session) (os : List Op)
    → IsBounded s
    → s.listens ≡ true
    → count_ops is_response os ≤ 1
    → IsUsed s (stop_listening s, os)
unfolding stop_listening closed
ended-IsUsed s os b l n = record {
  config = refl;
  bounded = record { some_limit = b.some_limit; fits = b.fits; below = λ t. absurd (ground arith) };
  responses = ground (arith, n, l, b.below l);
}

-- A response that is passed on, the last one or not.
counted-IsUsed :
    (s : Session) (os : List Op)
    → IsBounded s
    → s.listens ≡ true
    → count_ops is_response os ≤ 1
    → (leb s.config.max_responses (inc s.recv) ≡ true
        → IsUsed s (stop_listening (record s { recv = inc s.recv }), os))
      × (leb s.config.max_responses (inc s.recv) ≡ false
          → IsUsed s (record s { recv = inc s.recv }, os))
unfolding stop_listening closed
counted-IsUsed s os b l c =
    let next : inc s.recv ≡ s.recv + 1 = ground (arith, b.below l, b.fits) in
    (
      λ t. record {
        config = refl;
        bounded = record {
          some_limit = b.some_limit;
          fits = b.fits;
          below = λ u. absurd (ground arith);
        };
        responses = ground (arith, c, l, b.below l);
      },
      λ f. record {
        config = refl;
        bounded = record {
          some_limit = b.some_limit;
          fits = b.fits;
          below = λ u. ground (arith, f);
        };
        responses = ground (arith, c, l, next);
      },
    )

respond-IsUsed :
    (s : Session) (n : ℕ) (result : Option ℕ) (os : List Op)
    → IsBounded s
    → s.listens ≡ true
    → count_ops is_response os ≤ 1
    → IsUsed s (respond s n result, os)
unfolding respond
respond-IsUsed s n none os b l c = ended-IsUsed s os b l c
respond-IsUsed s n (some m) os b l c = elim (Bool-cases (m == n)) [
  | inr f ↦ rw f (ended-IsUsed s os b l c)
  | inl t ↦
      let limited : ltb 0 s.config.max_responses ≡ true = ground (arith, b.some_limit) in
      let (last, more) = counted-IsUsed s os b l c in
      elim (Bool-cases (leb s.config.max_responses (inc s.recv))) [
        | inl v ↦ rw (t, limited, v) (last v)
        | inr v ↦ rw (t, limited, v) (more v)
      ]
]

step-IsUsed :
    (s : Session) (l : Label) (r : Session × List Op) → IsBounded s → step s l ≡ some r → IsUsed s r
unfolding step count_ops closed stop_now
step-IsUsed s (write n) r b e = subst (IsUsed s) (some_inj e) (apart s _ b (enqueue-apart s n) refl)
step-IsUsed s close r b e = subst (IsUsed s) (some_inj e) (apart s _ b (refl, refl, refl) refl)
step-IsUsed s expire r b e =
    subst (IsUsed s) (guarded _ _ r e).1 (apart s _ b (refl, refl, refl) refl)
step-IsUsed s take_timer r b e =
    subst (IsUsed s) (guarded _ _ r e).1 (apart s _ b (refl, refl, refl) refl)
step-IsUsed s take_stop r b e =
    subst (IsUsed s) (guarded _ _ r e).1 (apart s _ b (refl, refl, refl) refl)
step-IsUsed s (take_packet result) r b e =
    take_head-IsUsed s s.out result r b
      (guarded_option (is_selecting s.writer) (take_head s s.out result) r e)
step-IsUsed s read_error r b e =
    let (l, q) = guarded _ _ r e in subst (IsUsed s) q (ended-IsUsed s [] b l (omega arith))
step-IsUsed s (read_response n result) r b e =
    let (l, q) = guarded _ _ r e in
    subst (IsUsed s) q (respond-IsUsed s n result _ b l (omega arith))

run-IsUsed :
    (s s' : Session) (ls : List Label) (ops : List Op)
    → IsBounded s
    → run s ls ≡ some (s', ops)
    → IsUsed s (s', ops)
unfolding run count_ops
run-IsUsed s s' [] ops b e =
    subst (IsUsed s) (some_inj e) (apart s (s, []) b (refl, refl, refl) refl)
run-IsUsed s s' (l ∷ ls) ops b e =
    let (m, os, rest, e1, e2, q) = run-cons s l ls s' ops e in
    let first = step-IsUsed s l (m, os) b e1 in
    let next = run-IsUsed m s' ls rest first.bounded e2 in
    record {
      config = next.config ∙ first.config;
      bounded = next.bounded;
      responses = omega (
        arith,
        ap (count_ops is_response) q,
        count_ops-append is_response os rest,
        first.responses,
        next.responses,
      );
    }

used_bounded : (s : Session) → IsBounded s → used s ≤ s.config.max_responses
used_bounded s b = elim (Bool-cases s.listens) [
  | inl t ↦ ground (arith, t, b.below t)
  | inr f ↦ ground (arith, f)
]

-- With a limit of responses that fits a word, no run of a new session reports more responses than
-- the limit.
pub run-responses :
    (config : SessionConfig) (b : Backend) (ls : List Label) (s : Session) (ops : List Op)
    → 1 ≤ config.max_responses
    → config.max_responses < word
    → run (new_session config b).0 ls ≡ some (s, ops)
    → count_ops is_response ops ≤ config.max_responses
unfolding new_session
run-responses config b ls s ops h k e =
    let r =
      run-IsUsed (new_session config b).0 s ls ops
        (record { some_limit = h; fits = k; below = λ t. h }) e in
    omega (arith, r.responses, used_bounded s r.bounded, ap (λ x. x.max_responses) r.config)
