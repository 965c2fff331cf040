-- ===== src/Access/Build.antt =====
-- `NewAccess`: which configurations it takes, and what it builds.
use gobetween.Base.{
  ◌≡◌, refl, sym, ap, ◌∙◌, subst, ◌⊎◌, inl, inr, String, true, not, Option, none, some, List, [],
  ◌∷◌, ◌=s◌, arith, Bool-cases, Option-cases, map, Member, eq_iff,
}
use mathlib.Core.Path.{ap₂}
use gobetween.Config.{AccessConfig}
use gobetween.Access.{
  Net, AccessRule, Access, parse_rule, parse_rules, new_access, add, with_default,
}

module _ {Ip Network : Type 0} (net : Net Ip Network) where
  abbrev pub Parsed : List String → Option (List (AccessRule Ip Network)) → Type 0
  Parsed ss none = (s : String) × Member s ss × (parse_rule net s ≡ none)
  Parsed ss (some rs) = map (parse_rule net) ss ≡ map some rs

  added :
      (s : String) (ss : List String) (r : AccessRule Ip Network)
      (o : Option (List (AccessRule Ip Network)))
      → parse_rule net s ≡ some r
      → Parsed ss o
      → Parsed (s ∷ ss) (add net r o)
  unfolding add
  added s ss r none p (t, m, q) = (t, inr m, q)
  added s ss r (some rs) p q = ap₂ ◌∷◌ p q

  parse_rules-Parsed : (ss : List String) → Parsed ss (parse_rules net ss)
  unfolding parse_rules
  parse_rules-Parsed [] = refl
  parse_rules-Parsed (s ∷ ss) = elim (Option-cases (parse_rule net s)) [
    | inl p ↦
        let same : none ≡ parse_rules net (s ∷ ss) = sym (rw (p, parse_rules) refl) in
        subst (Parsed (s ∷ ss)) same (s, inl refl, p)
    | inr (r, p) ↦
        let same : add net r (parse_rules net ss) ≡ parse_rules net (s ∷ ss) =
          sym (rw (p, parse_rules) refl) in
        subst (Parsed (s ∷ ss)) same (added s ss r (parse_rules net ss) p (parse_rules-Parsed ss))
  ]

  abbrev pub IsDefault : String → Type 0
  IsDefault d = ((d =s "") ≡ true) ⊎ ((d =s "allow") ≡ true) ⊎ ((d =s "deny") ≡ true)

  abbrev pub Built : AccessConfig → Option (Access Ip Network) → Type 0
  Built cfg none =
      (¬ IsDefault cfg.default) ⊎ ((s : String) × Member s cfg.rules × (parse_rule net s ≡ none))
  Built cfg (some access) =
      IsDefault cfg.default
      × (access.allow_default ≡ not (cfg.default =s "deny"))
      × (map (parse_rule net) cfg.rules ≡ map some access.rules)

  filled :
      (cfg : AccessConfig) (d : String) (o : Option (List (AccessRule Ip Network)))
      → IsDefault cfg.default
      → (d =s "allow") ≡ not (cfg.default =s "deny")
      → Parsed cfg.rules o
      → Built cfg (with_default net d o)
  unfolding with_default
  filled cfg d none v e q = inr q
  filled cfg d (some rs) v e q = (v, e, q)

  -- NewAccess fails just where the default is none of the empty text, "allow" and "deny", or some
  -- rule does not parse; else its rules are those of the configuration, parsed, in order, and its
  -- default denies only for "deny".
  pub new_access-Built : (cfg : AccessConfig) → Built cfg (new_access net cfg).1
  unfolding new_access
  new_access-Built cfg =
      let parsed = parse_rules-Parsed cfg.rules in
      elim (Bool-cases (cfg.default =s "")) [
        | inl t ↦
            let same : with_default net "allow" (parse_rules net cfg.rules)
                ≡ (new_access net cfg).1 =
              ground arith in
            subst (Built cfg) same
              (filled cfg "allow" _ (inl t) (ap (λ d. not (d =s "deny")) (sym (named "" t))) parsed)
        | inr e ↦ elim (Bool-cases (cfg.default =s "allow")) [
          | inl t ↦
              let same : with_default net cfg.default (parse_rules net cfg.rules)
                  ≡ (new_access net cfg).1 =
                ground arith in
              subst (Built cfg) same (
                filled cfg cfg.default _ (inr (inl t))
                  (t ∙ ap (λ d. not (d =s "deny")) (sym (named "allow" t))) parsed)
          | inr a ↦ elim (Bool-cases (cfg.default =s "deny")) [
            | inl t ↦
                let same : with_default net cfg.default (parse_rules net cfg.rules)
                    ≡ (new_access net cfg).1 =
                  ground arith in
                subst (Built cfg) same (filled cfg cfg.default _ (inr (inr t)) (rw (a, t)) parsed)
            | inr d ↦
                let same : none ≡ (new_access net cfg).1 = ground arith in
                subst (Built cfg) same (inl λ v. ground arith)
          ]
        ]
      ]
    where
      named : (d : String) → (cfg.default =s d) ≡ true → cfg.default ≡ d
      named d t = (eq_iff cfg.default d).0 t
