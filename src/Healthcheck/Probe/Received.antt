-- ===== src/Healthcheck/Probe/Received.antt =====
-- What a probe that finds its target healthy has written and received.
use gobetween.Base.{
  ◌==◌, ap, length, ℕ, String, ◌≡◌, refl, ◌⊎◌, inl, inr, Bool, true, Option, none, some, List, [],
  ◌∷◌, ◌∙◌, ◌=s◌, arith, Bool-cases,
}
use gobetween.Base.Int.{ℤ, pos, negsuc}
use gobetween.Base.Bytes.{bytes}
use gobetween.Config.{ProbeHealthcheckConfig}
use gobetween.Healthcheck.Types.{healthy}
use gobetween.Healthcheck.Probe.{ends, recv_len, complete, same_bytes, regexp_end, compare_bytes}

pub complete-length :
    (send : List ℕ) (wrote : Option ℕ) → complete send wrote ≡ true → wrote ≡ some (length send)
unfolding complete
complete-length send none h = cc
complete-length send (some n) h = ap some (ground arith)

-- How many bytes a probe asks for: as many as it is told, or as it expects.
abbrev pub IsAsked : ProbeHealthcheckConfig → ℕ → Type 0
IsAsked p n =
    (p.probe_recv_len ≡ pos n) × ¬ (n ≡ 0)
    ⊎ (p.probe_recv_len ≡ pos 0) × (n ≡ length (bytes p.probe_recv))

pub recv_len-IsAsked : (p : ProbeHealthcheckConfig) (n : ℕ) → recv_len p ≡ pos n → IsAsked p n
unfolding recv_len
recv_len-IsAsked p n e = at p.probe_recv_len refl
  where
    at : (l : ℤ) → p.probe_recv_len ≡ l → IsAsked p n
    at (negsuc k) q = absurd (ground arith)
    at (pos k) q = elim (Bool-cases (k == 0)) [
      | inl t ↦ inr (q ∙ ap pos (ground arith), ground arith)
      | inr f ↦ let same : k ≡ n = ground arith in inl (q ∙ ap pos same, λ z. ground arith)
    ]

same_bytes-same : (xs ys : List ℕ) → same_bytes xs ys ≡ true → xs ≡ ys
unfolding same_bytes
same_bytes-same [] [] h = refl
same_bytes-same [] (y ∷ ys) h = cc
same_bytes-same (x ∷ xs) [] h = cc
same_bytes-same (x ∷ xs) (y ∷ ys) h = elim (Bool-cases (x == y)) [
  | inl t ↦
      let head : x ≡ y = ground arith in
      let rest = same_bytes-same xs ys (rw (t, same_bytes) at h) in rw (head, rest) refl
  | inr f ↦ absurd (ground arith)
]

module _ (compile : String → Option (List ℕ → Bool)) where
  -- Bytes that are as expected.
  abbrev pub Matches : ProbeHealthcheckConfig → List ℕ → Type 0
  Matches p actual =
      ((p.probe_strategy =s "starts_with") ≡ true) × (actual ≡ bytes p.probe_recv)
      ⊎ ((p.probe_strategy =s "regexp") ≡ true)
        × (match : List ℕ → Bool) × (compile p.probe_recv ≡ some match)
        × (match actual ≡ true)

  regexp_end-healthy :
      (o : Option (List ℕ → Bool)) (actual : List ℕ)
      → regexp_end o actual ≡ ends healthy
      → (match : List ℕ → Bool) × (o ≡ some match) × (match actual ≡ true)
  unfolding regexp_end
  regexp_end-healthy none actual h = absurd (ground arith)
  regexp_end-healthy (some match) actual h = (match, refl, ground arith)

  pub compare_bytes-Matches :
      (p : ProbeHealthcheckConfig) (actual : List ℕ)
      → compare_bytes compile p actual ≡ ends healthy
      → Matches p actual
  unfolding compare_bytes
  compare_bytes-Matches p actual h = elim (Bool-cases (p.probe_strategy =s "starts_with")) [
    | inl t ↦ elim (Bool-cases (same_bytes actual (bytes p.probe_recv))) [
      | inl s ↦ inl (t, same_bytes-same actual (bytes p.probe_recv) s)
      | inr s ↦ absurd (ground arith)
    ]
    | inr f ↦ elim (Bool-cases (p.probe_strategy =s "regexp")) [
      | inl t ↦
          let (match, e, m) =
            regexp_end-healthy (compile p.probe_recv) actual (rw (f, t, compare_bytes) at h) in
          inr (t, match, e, m)
      | inr g ↦ absurd (ground arith)
    ]
  ]
