-- ===== src/Healthcheck/Probe/Verdicts.antt =====
-- When a probe finds its target healthy, and when it panics.
use gobetween.Base.{
  ◌++◌, subst, ◌∷◌, ◌∙◌, [], ap, length, ℕ, String, ◌≡◌, refl, ◌⊎◌, inl, inr, Bool, true, false,
  ◌||◌, Option, none, some, List, ◌=s◌, arith, Bool-cases, Option-cases, if◌then◌else◌,
}
use gobetween.Base.Int.{ℤ, pos, negsuc}
use gobetween.Base.Bytes.{bytes}
use gobetween.Config.{ProxyProtocol, ProbeHealthcheckConfig}
use gobetween.Healthcheck.Types.{unhealthy, healthy}
use gobetween.Healthcheck.Probe.Received.{
  complete-length, IsAsked, recv_len-IsAsked, Matches, compare_bytes-Matches,
}
use gobetween.Healthcheck.Probe.{
  set_read_deadline, write, close, dial_net, dial_tls, set_write_deadline, read_full, dial_call,
  send_header, Call, Answers, Outcome, End, ends, stop_at, try_call, do_call, exchange, read_back,
  recv_len, with_header, with_close, probe, deadline, prepended_exchange,
}

-- What is written, the text of the probe or the datagram with its header, and the call for a header
-- before it.
abbrev pub IsSent :
    Option ProxyProtocol → ProbeHealthcheckConfig → Answers → List ℕ → List Call → Type 0
IsSent none p a send header = (send ≡ bytes p.probe_send) × (header ≡ [])
IsSent (some pp) p a send header =
    ((pp.version =s "1" || pp.version =s "2") ≡ true)
    × (((p.probe_protocol =s "tcp") ≡ true)
          × (a.header_sent ≡ true)
          × (send ≡ bytes p.probe_send)
          × (header ≡ send_header pp.version ∷ [])
        ⊎ (((p.probe_protocol =s "udp") ≡ true)
              × ((pp.version =s "2") ≡ true)
              × (a.prepended ≡ some send)
              × (header ≡ [])
            ⊎ (((p.probe_protocol =s "tcp" || p.probe_protocol =s "udp") ≡ false)
                × (send ≡ bytes p.probe_send)
                × (header ≡ []))))

-- How a check ends.
unfoldable pub HasEnd : End → Outcome → Type 0
HasEnd e o = o.end ≡ e

-- A call that is made where there is a timeout.
abbrev pub timed_call : Bool → Call → List Call
timed_call timed c = if timed then c ∷ [] else []

-- An end that is not an early one.
module _ (e : End) (late : ends unhealthy ≡ e → ⊥) where
  abbrev pub Ends : Outcome → Type 0
  Ends o = HasEnd e o

  pub try_call-Ends :
      (c : Call) (works : Bool) (rest : Outcome)
      → Ends (try_call c works rest)
      → (works ≡ true) × Ends rest
  unfolding HasEnd try_call do_call stop_at
  try_call-Ends c true rest h = (refl, h)
  try_call-Ends c false rest h = absurd (late h)

  pub deadline-Ends :
      (timed : Bool) (c : Call) (works : Bool) (rest : Outcome)
      → Ends (deadline timed c works rest)
      → Ends rest
  unfolding deadline
  deadline-Ends true c works rest h = (try_call-Ends c works rest h).1
  deadline-Ends false c works rest h = h

  try_call-calls :
      (c : Call) (works : Bool) (rest : Outcome)
      → Ends (try_call c works rest)
      → (try_call c works rest).calls ≡ c ∷ rest.calls
  unfolding HasEnd try_call do_call stop_at
  try_call-calls c true rest h = refl
  try_call-calls c false rest h = absurd (late h)

  deadline-calls :
      (timed : Bool) (c : Call) (works : Bool) (rest : Outcome)
      → Ends (deadline timed c works rest)
      → (deadline timed c works rest).calls ≡ timed_call timed c ++ rest.calls
  unfolding deadline
  deadline-calls true c works rest h = try_call-calls c works rest h
  deadline-calls false c works rest h = refl

  pub if-Ends :
      (c : Bool) (x y : Outcome)
      → Ends (if c then x else y)
      → (c ≡ true) × Ends x ⊎ ((c ≡ false) × Ends y)
  if-Ends true x y h = inl (refl, h)
  if-Ends false x y h = inr (refl, h)

  pub stop-Ends {ℓ} : {A : Type ℓ} → Ends (stop_at (ends unhealthy)) → A
  unfolding HasEnd stop_at
  stop-Ends h = absurd (late h)

  module _ (compile : String → Option (List ℕ → Bool)) where
    datagram-Ends :
        (timed : Bool) (p : ProbeHealthcheckConfig) (a : Answers) (o : Option (List ℕ))
        → Ends (prepended_exchange compile timed p a o)
        → (send : List ℕ) × (o ≡ some send)
          × (prepended_exchange compile timed p a o ≡ exchange compile timed p a send)
    unfolding prepended_exchange
    datagram-Ends timed p a none h = stop-Ends h
    datagram-Ends timed p a (some send) h = (send, refl, refl)

    -- What an outcome with a header comes to.
    abbrev pub Exchanged :
        Bool → Option ProxyProtocol → ProbeHealthcheckConfig → Answers → Outcome → Type 0
    Exchanged timed proxy p a o =
        (send : List ℕ) × (header : List Call) × IsSent proxy p a send header
        × Ends (exchange compile timed p a send)
        × (o.calls ≡ header ++ (exchange compile timed p a send).calls)

    pub header-Ends :
        (timed : Bool) (proxy : Option ProxyProtocol) (p : ProbeHealthcheckConfig) (a : Answers)
        → Ends (with_header compile timed p a proxy)
        → Exchanged timed proxy p a (with_header compile timed p a proxy)
    unfolding with_header
    header-Ends timed none p a h = (bytes p.probe_send, [], (refl, refl), h, refl)
    header-Ends timed (some pp) p a h =
        let refuses : Outcome = stop_at (ends unhealthy) in
        let plain : Outcome = exchange compile timed p a (bytes p.probe_send) in
        let tcp : Outcome = try_call (send_header pp.version) a.header_sent plain in
        let udp : Outcome =
          if pp.version =s "2" then prepended_exchange compile timed p a a.prepended else refuses in
        let other : Outcome = if p.probe_protocol =s "udp" then udp else plain in
        let known : Outcome = if p.probe_protocol =s "tcp" then tcp else other in
        elim (if-Ends (pp.version =s "1" || pp.version =s "2") known refuses h) [
          | inr (f, k) ↦ stop-Ends k
          | inl (v, k) ↦ elim (if-Ends (p.probe_protocol =s "tcp") tcp other k) [
            | inl (t, k) ↦
                let (w, k') = try_call-Ends (send_header pp.version) a.header_sent plain k in
                (
                  bytes p.probe_send,
                  send_header pp.version ∷ [],
                  (v, inl (t, w, refl, refl)),
                  k',
                  rw (v, t, with_header) (try_call-calls _ _ plain k),
                )
            | inr (t, k) ↦ elim (if-Ends (p.probe_protocol =s "udp") udp plain k) [
              | inr (u, k) ↦ (
                bytes p.probe_send,
                [],
                (v, inr (inr (ground arith, refl, refl))),
                k,
                rw (v, t, u, with_header) refl,
              )
              | inl (u, k) ↦
                  elim (if-Ends (pp.version =s "2")
                    (prepended_exchange compile timed p a a.prepended) refuses k) [
                      | inr (w, k) ↦ stop-Ends k
                      | inl (w, k) ↦
                          let (send, e, q) = datagram-Ends timed p a a.prepended k in
                          (
                            send,
                            [],
                            (v, inr (inl (u, w, e, refl))),
                            subst Ends q k,
                            rw (v, t, u, w, with_header) (ap (λ (o : Outcome). o.calls) q),
                          )
                    ]
            ]
          ]
        ]

module _ (compile : String → Option (List ℕ → Bool)) where
  -- What was written whole and answered with as many bytes as were asked for, that match.
  abbrev pub IsAnswered : ProbeHealthcheckConfig → Answers → List ℕ → ℕ → Type 0
  IsAnswered p a send n =
      (a.wrote send ≡ some (length send))
      × IsAsked p n
      × (actual : List ℕ) × (a.got n ≡ some actual)
      × Matches compile p actual

  -- The calls of an exchange that comes to its end.
  abbrev pub exchange_calls : Bool → List ℕ → ℕ → List Call
  exchange_calls timed send n =
      timed_call timed set_write_deadline
      ++ (write send ∷ (timed_call timed set_read_deadline ++ (read_full n ∷ [])))

  read_back-healthy :
      (p : ProbeHealthcheckConfig) (a : Answers) (len : ℤ)
      → HasEnd (ends healthy) (read_back compile p a len)
      → (n : ℕ) × (len ≡ pos n)
        × (actual : List ℕ) × (a.got n ≡ some actual)
        × Matches compile p actual
        × ((read_back compile p a len).calls ≡ read_full n ∷ [])
  unfolding HasEnd read_back do_call stop_at
  read_back-healthy p a (negsuc n) h = cc
  read_back-healthy p a (pos n) h = elim (Option-cases (a.got n)) [
    | inl q ↦ absurd (ground arith)
    | inr (actual, q) ↦
        (n, refl, actual, q, compare_bytes-Matches compile p actual (ground arith), refl)
  ]

  not_unhealthy : ends unhealthy ≡ ends healthy → ⊥
  not_unhealthy h = absurd (ground arith)

  exchange-healthy :
      (timed : Bool) (p : ProbeHealthcheckConfig) (a : Answers) (send : List ℕ)
      → HasEnd (ends healthy) (exchange compile timed p a send)
      → (n : ℕ) × IsAnswered p a send n
        × ((exchange compile timed p a send).calls ≡ exchange_calls timed send n)
  unfolding exchange
  exchange-healthy timed p a send h =
      let k0 = deadline-Ends (ends healthy) not_unhealthy timed _ _ _ h in
      let (t, k) = try_call-Ends (ends healthy) not_unhealthy _ _ _ k0 in
      let (n, l, actual, r, c, q) =
        read_back-healthy p a (recv_len p)
          (deadline-Ends (ends healthy) not_unhealthy timed _ _ _ k) in
      (
        n,
        (complete-length send (a.wrote send) t, recv_len-IsAsked p n l, actual, r, c),
        deadline-calls (ends healthy) not_unhealthy timed _ _ _ h
            ∙ ap (λ x. timed_call timed set_write_deadline ++ x)
                (try_call-calls (ends healthy) not_unhealthy _ _ _ k0
                  ∙ ap (λ x. write send ∷ x)
                      (deadline-calls (ends healthy) not_unhealthy timed _ _ _ k
                        ∙ ap (λ x. timed_call timed set_read_deadline ++ x) q)),
      )

  probe-calls :
      (timed : Bool) (proxy : Option ProxyProtocol) (p : ProbeHealthcheckConfig) (a : Answers)
      → a.dialed ≡ true
      → (probe compile timed proxy p a).calls
        ≡ (if p.probe_protocol =s "tls" then dial_tls else dial_net p.probe_protocol)
          ∷ ((with_header compile timed p a proxy).calls ++ (close ∷ []))
  unfolding probe dial_call do_call with_close
  probe-calls timed proxy p a t =
      ap
        (λ d.
          dial_call p
          ∷ (if d
              then with_close (with_header compile timed p a proxy)
              else stop_at (ends unhealthy)).calls)
        t

  -- A probe that finds its target healthy has made these calls and no other: it has dialed, has
  -- sent the header of the proxy protocol where it is to, has written its text or the datagram
  -- with its header, has read as many bytes as it is told, or as it expects, and has closed the
  -- connection, with the deadlines in between where there is a timeout. The write was of all
  -- bytes, and what was read equals the text expected, or matches it where that is a regular
  -- expression.
  pub probe-healthy :
      (timed : Bool) (proxy : Option ProxyProtocol) (p : ProbeHealthcheckConfig) (a : Answers)
      → (probe compile timed proxy p a).end ≡ ends healthy
      → (a.dialed ≡ true)
        × (send : List ℕ) × (header : List Call) × (n : ℕ) × IsSent proxy p a send header
        × IsAnswered p a send n
        × ((probe compile timed proxy p a).calls
            ≡ (if p.probe_protocol =s "tls" then dial_tls else dial_net p.probe_protocol)
              ∷ ((header ++ exchange_calls timed send n) ++ (close ∷ [])))
  unfolding HasEnd probe with_close do_call stop_at
  probe-healthy timed proxy p a h = elim (Bool-cases a.dialed) [
    | inl t ↦
        let (send, header, s, k, q) =
          header-Ends (ends healthy) not_unhealthy compile timed proxy p a (rw t at h) in
        let (n, x, q') = exchange-healthy timed p a send k in
        let all = q ∙ ap (λ y. header ++ y) q' in
        (
          t,
          send,
          header,
          n,
          s,
          x,
          probe-calls timed proxy p a t
              ∙ ap
                  (λ y.
                    (if p.probe_protocol =s "tls" then dial_tls else dial_net p.probe_protocol)
                    ∷ (y ++ (close ∷ [])))
                  all,
        )
    | inr f ↦ absurd (ground arith)
  ]
