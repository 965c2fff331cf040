-- ===== src/Manager/Healthcheck/Taken.antt =====
-- What a section of the healthcheck that is taken is like, and what a second preparation makes of it.
use gobetween.Manager.Healthcheck.{
  or_text, at_least_one, fill, is_kind, check_interval, is_status_name, received, prepare_probe,
  with_probe, prepare_healthcheck,
}
use gobetween.Base.{
  ◌∙◌, ◌≢◌, Option-cases, sym, ap, subst, ◌≡◌, refl, inl, inr, String, true, false, Option, none,
  some, ◌=s◌, arith, Bool-cases,
}
use gobetween.Base.Int.{ℤ, pos, ◌≤ℤ◌}
use gobetween.Config.{HealthcheckConfig, ProbeHealthcheckConfig}
use gobetween.Healthcheck.Types.{IsStatusName}
use gobetween.Manager.Verdict.{
  >>=-eq-ok, ok, ◌>>=◌, guard, or_panic, Library, healthcheck_kind, healthcheck_initial_status,
}

-- A section that was taken.
pub record IsTaken (h : HealthcheckConfig) : Type 0 where
  pub kind : is_kind h.kind ≡ true
  pub fails : pos 1 ≤ℤ h.fails
  pub passes : pos 1 ≤ℤ h.passes
  pub status : IsStatusName h.initial_status

pub taken :
    (lib : Library) (h h' : HealthcheckConfig)
    → prepare_healthcheck lib h ≡ ok h'
    → (is_kind h.kind ≡ true)
      × (check_interval lib (fill h) ≡ ok tt)
      × (is_status_name h.initial_status ≡ true)
      × (with_probe lib (fill h) ≡ ok h')
unfolding prepare_healthcheck
taken lib h h' e =
    let (a, k, e1) = >>=-eq-ok (guard (is_kind h.kind) (healthcheck_kind h.kind)) _ e in
    let (b, c, e2) = >>=-eq-ok (check_interval lib (fill h)) _ e1 in
    let (d, s, e3) =
      >>=-eq-ok (guard (is_status_name h.initial_status) healthcheck_initial_status) _ e2 in
    (ground arith, c, ground arith, e3)

pub fill_idem : (h : HealthcheckConfig) → fill (fill h) ≡ fill h
unfolding fill
fill_idem h = ground arith

pub fill-kind :
    (h : HealthcheckConfig)
    → ((fill h).kind ≡ h.kind) × ((fill h).initial_status ≡ h.initial_status)
unfolding fill
fill-kind h = (refl, refl)

pub prepare_healthcheck_again :
    (lib : Library) (h h' : HealthcheckConfig)
    → prepare_healthcheck lib h ≡ ok h'
    → (h.kind =s "probe") ≡ false
    → prepare_healthcheck lib h' ≡ ok h'
unfolding prepare_healthcheck with_probe
prepare_healthcheck_again lib h h' e k =
    let (kind, interval, status, rest) = taken lib h h' e in
    let same : fill h ≡ h' = ground (arith, fill-kind h) in
    subst (λ x. prepare_healthcheck lib x ≡ ok x) same (ground (arith, fill-kind h, fill_idem h))

-- What the probe leaves alone.
pub with_probe-fields :
    (lib : Library) (h h' : HealthcheckConfig)
    → with_probe lib h ≡ ok h'
    → (h'.kind ≡ h.kind)
      × (h'.fails ≡ h.fails)
      × (h'.passes ≡ h.passes)
      × (h'.initial_status ≡ h.initial_status)
      × (((h.kind =s "probe") ≡ true)
          → (p : ProbeHealthcheckConfig) × (p' : ProbeHealthcheckConfig) × (h.probe ≡ some p)
            × (prepare_probe lib p ≡ ok p')
            × (h'.probe ≡ some p'))
unfolding with_probe
with_probe-fields lib h h' e = elim (Bool-cases (h.kind =s "probe")) [
  | inr f ↦
      let same : h ≡ h' = ground arith in
      (
        ap (λ x. x.kind) (sym same),
        ap (λ x. x.fails) (sym same),
        ap (λ x. x.passes) (sym same),
        ap (λ x. x.initial_status) (sym same),
        λ t. absurd (ground arith),
      )
  | inl t ↦
      let (p, q, e1) =
        >>=-eq-ok (or_panic h.probe)
          (λ p. (prepare_probe lib p >>= λ p'. ok (record h { probe = some p' }))) (probed t) in
      let (p', q', e2) =
        >>=-eq-ok (prepare_probe lib p) (λ p'. ok (record h { probe = some p' })) e1 in
      (
        ground arith,
        ground arith,
        ground arith,
        ground arith,
        λ _. (p, p', found p q, q', ground arith),
      )
]
  where
    probed :
        (h.kind =s "probe") ≡ true
        → (or_panic h.probe >>= λ p.
            (prepare_probe lib p >>= λ p'. ok (record h { probe = some p' })))
          ≡ ok h'
    probed t = ground arith

    found : (p : ProbeHealthcheckConfig) → or_panic h.probe ≡ ok p → h.probe ≡ some p
    found p q = ground arith

pub named : (o : Option String) → is_status_name o ≡ true → IsStatusName o
named none h = tt
named (some s) h = elim (Bool-cases (s =s "healthy")) [ inl t ↦ inl t | inr f ↦ inr (ground arith) ]

pub at_least_one-pos : (n : ℤ) → pos 1 ≤ℤ at_least_one n
at_least_one-pos n = ground arith

pub prepare_healthcheck-IsTaken :
    (lib : Library) (h h' : HealthcheckConfig) → prepare_healthcheck lib h ≡ ok h' → IsTaken h'
unfolding fill
prepare_healthcheck-IsTaken lib h h' e =
    let (kind, interval, status, rest) = taken lib h h' e in
    let (k, f, p, s, _) = with_probe-fields lib (fill h) h' rest in
    record {
      kind = subst (λ x. is_kind x ≡ true) (sym k) kind;
      fails = subst (λ x. pos 1 ≤ℤ x) (sym f) (at_least_one-pos h.fails);
      passes = subst (λ x. pos 1 ≤ℤ x) (sym p) (at_least_one-pos h.passes);
      status = subst IsStatusName (sym s) (named h.initial_status status);
    }

pub received-send :
    (lib : Library) (p p' : ProbeHealthcheckConfig)
    → received lib p ≡ ok p'
    → p'.probe_send ≡ p.probe_send
unfolding received
received-send lib p p' e = elim (Option-cases (lib.unquote p.probe_recv)) [
  | inl n ↦ ground arith
  | inr (r, n) ↦ ground arith
]

pub unquoted :
    (lib : Library) (p p' : ProbeHealthcheckConfig)
    → prepare_probe lib p ≡ ok p'
    → lib.unquote p.probe_send ≡ some p'.probe_send
unfolding prepare_probe
unquoted lib p p' e = elim (Option-cases (lib.unquote p.probe_send)) [
  | inl n ↦ absurd (ground arith)
  | inr (r, n) ↦
      let q = record p {
        probe_strategy = or_text p.probe_strategy "starts_with";
        probe_send = r;
      } in
      let last : received lib q ≡ ok p' = ground arith in
      n ∙ ap some (sym (received-send lib q p' last))
]

pub fill-probe : (h : HealthcheckConfig) → ((fill h).probe ≡ h.probe) × ((fill h).kind ≡ h.kind)
unfolding fill
fill-probe h = (refl, refl)

-- Where a probe is taken and the text that it sends, once unquoted, is not unquoted to itself,
-- preparing the section a second time does not give it again.
pub prepare_healthcheck_twice :
    (lib : Library) (h h' : HealthcheckConfig) (p : ProbeHealthcheckConfig)
    → prepare_healthcheck lib h ≡ ok h'
    → (h.kind =s "probe") ≡ true
    → h'.probe ≡ some p
    → lib.unquote p.probe_send ≢ some p.probe_send
    → prepare_healthcheck lib h' ≢ ok h'
prepare_healthcheck_twice lib h h' p e k q ne again =
    let (_, _, _, rest) = taken lib h h' e in
    let (same_kind, _, _, _, _) = with_probe-fields lib (fill h) h' rest in
    let (_, _, _, rest') = taken lib h' h' again in
    let (_, _, _, _, probed) = with_probe-fields lib (fill h') h' rest' in
    let kind : ((fill h').kind =s "probe") ≡ true = ground (arith, fill-probe h, fill-probe h') in
    let (p1, p2, q1, r, q2) = probed kind in
    let first : p1 ≡ p = ground (arith, fill-probe h') in
    let second : p2 ≡ p = ground arith in
    ne (
      subst (λ x. lib.unquote x.probe_send ≡ some p.probe_send) first
        (unquoted lib p1 p2 r ∙ ap (λ x. some x.probe_send) second))
