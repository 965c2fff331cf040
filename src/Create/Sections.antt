-- ===== src/Create/Sections.antt =====
-- When `discovery.New` panics.
use gobetween.Base.{
  refl, sym, subst, ap, ◌∙◌, if◌then◌else◌, eq_iff, String, ◌≡◌, ◌⊎◌, inl, inr, true, false, Option,
  none, some, arith, Bool-cases, Option-cases, ◌=s◌,
}
use gobetween.Config.{DiscoveryConfig, JsonDiscoveryConfig, PlaintextDiscoveryConfig}
use gobetween.Create.{is_registered, new_discovery, constructed, with_json, with_plaintext}

-- Where a discovery cannot be made: its kind is not registered, or is one that needs its own section,
-- which is not there.
abbrev pub CannotBeMade : DiscoveryConfig → Type 0
CannotBeMade d =
    (is_registered d.kind ≡ false)
    ⊎ (((d.kind =s "json") ≡ true) × (d.json ≡ none)
        ⊎ ((d.kind =s "plaintext") ≡ true) × (d.plaintext ≡ none))

-- What the constructor of a registered kind makes of its section.
Makes : DiscoveryConfig → Option DiscoveryConfig → Type 0
Makes d none = CannotBeMade d
Makes d (some x) = ¬ (CannotBeMade d)

not_both : (k : String) → (k =s "json") ≡ true → (k =s "plaintext") ≡ true → ⊥
not_both k a b =
    let other : ("json" =s "plaintext") ≡ true =
      subst (λ x. (x =s "plaintext") ≡ true) ((eq_iff k "json").0 a) b in
    cc

json_made :
    (d : DiscoveryConfig) (o : Option JsonDiscoveryConfig)
    → is_registered d.kind ≡ true
    → (d.kind =s "json") ≡ true
    → d.json ≡ o
    → Makes d (elim o [ none ↦ none | some j ↦ some (with_json d j) ])
unfolding Makes
json_made d none g t e = inr (inl (t, e))
json_made d (some j) g t e = λ c. elim c [
  | inl f ↦ absurd (ground arith)
  | inr (inl (_, n)) ↦ absurd (ground arith)
  | inr (inr (p, _)) ↦ not_both d.kind t p
]

plaintext_made :
    (d : DiscoveryConfig) (o : Option PlaintextDiscoveryConfig)
    → is_registered d.kind ≡ true
    → (d.kind =s "plaintext") ≡ true
    → d.plaintext ≡ o
    → Makes d (elim o [ none ↦ none | some p ↦ some (with_plaintext d p) ])
unfolding Makes
plaintext_made d none g t e = inr (inr (t, e))
plaintext_made d (some p) g t e = λ c. elim c [
  | inl f ↦ absurd (ground arith)
  | inr (inl (j, _)) ↦ not_both d.kind j t
  | inr (inr (_, n)) ↦ absurd (ground arith)
]

not_made :
    (d : DiscoveryConfig)
    → is_registered d.kind ≡ true
    → (d.kind =s "json") ≡ false
    → (d.kind =s "plaintext") ≡ false
    → Makes d (some d)
unfolding Makes
not_made d g f h = λ c. elim c [
  | inl k ↦ absurd (ground arith)
  | inr (inl (j, _)) ↦ absurd (ground arith)
  | inr (inr (p, _)) ↦ absurd (ground arith)
]

constructed-Makes : (d : DiscoveryConfig) → is_registered d.kind ≡ true → Makes d (constructed d)
unfolding constructed
constructed-Makes d g = elim (Bool-cases (d.kind =s "json")) [
  | inl t ↦
      subst (Makes d) (sym (ap (λ b. if b then on_json else other) t)) (json_made d d.json g t refl)
  | inr f ↦ subst (Makes d) (sym (ap (λ b. if b then on_json else other) f)) (elsewhere f)
]
  where
    on_json : Option DiscoveryConfig
    on_json = elim d.json [ none ↦ none | some j ↦ some (with_json d j) ]

    on_plaintext : Option DiscoveryConfig
    on_plaintext = elim d.plaintext [ none ↦ none | some p ↦ some (with_plaintext d p) ]

    other : Option DiscoveryConfig
    other = if d.kind =s "plaintext" then on_plaintext else some d

    plain : (d.kind =s "json") ≡ false → (d.kind =s "plaintext") ≡ false → Makes d (some d)
    plain f h = not_made d g f h

    elsewhere : (d.kind =s "json") ≡ false → Makes d other
    elsewhere f = elim (Bool-cases (d.kind =s "plaintext")) [
      | inl t ↦
          subst (Makes d) (sym (ap (λ b. if b then on_plaintext else some d) t))
            (plaintext_made d d.plaintext g t refl)
      | inr h ↦ subst (Makes d) (sym (ap (λ b. if b then on_plaintext else some d) h)) (plain f h)
    ]

-- What New makes of a section that is there.
pub discovery_made :
    (d : DiscoveryConfig)
    → ((new_discovery (some d) ≡ none) × CannotBeMade d)
      ⊎ ((x : DiscoveryConfig) × (new_discovery (some d) ≡ some x) × ¬ (CannotBeMade d))
unfolding new_discovery Makes
discovery_made d = elim (Bool-cases (is_registered d.kind)) [
  | inr f ↦ inl (ap (λ b. if b then constructed d else none) f, inl f)
  | inl t ↦
      let same = ap (λ b. if b then constructed d else none) t in
      elim (Option-cases (constructed d)) [
        | inl n ↦ inl (same ∙ n, subst (Makes d) n (constructed-Makes d t))
        | inr (x, e) ↦ inr (x, same ∙ e, subst (Makes d) e (constructed-Makes d t))
      ]
]
