-- ===== src/Access/Rules.antt =====
-- What a chain of access rules decides, and what becomes of the text of a rule.
use Prim.Native.String.{◌++◌ as ◌+++◌}
use gobetween.Base.{
  ◌≡◌, refl, ap, ◌∙◌, subst, ◌⊎◌, inl, inr, String, Bool, true, false, Option, none, some, List, [],
  ◌∷◌, ◌++◌, All, Bool-cases,
}
use gobetween.Base.Bytes.{split_spaces, IsWord, split_spaces-IsWord, split_spaces-append}
use gobetween.Access.{
  Net, Place, host, network, AccessRule, Access, parse_parts, parse_rule, matches, first_match,
  allows,
}

module _ {Ip Network : Type 0} (net : Net Ip Network) where
  abbrev pub Decided : Bool → List (AccessRule Ip Network) → Ip → Bool → Type 0
  Decided default rs ip answer =
      (All (λ r. matches net r ip ≡ false) rs × (answer ≡ default))
      ⊎ ((before : List (AccessRule Ip Network)) × (r : AccessRule Ip Network) × (after : List
            (AccessRule Ip Network))
          × (rs ≡ before ++ r ∷ after)
          × All (λ x. matches net x ip ≡ false) before
          × (matches net r ip ≡ true)
          × (answer ≡ r.allow))

  pass :
      (default answer : Bool) (r : AccessRule Ip Network) (rs : List (AccessRule Ip Network))
      (ip : Ip)
      → matches net r ip ≡ false
      → Decided default rs ip answer
      → Decided default (r ∷ rs) ip answer
  pass default answer r rs ip f (inl (h, e)) = inl ((f, h), e)
  pass default answer r rs ip f (inr (before, x, after, p, h, t, e)) =
      inr (r ∷ before, x, after, ap (◌∷◌ r) p, (f, h), t, e)

  first_match-Decided :
      (default : Bool) (rs : List (AccessRule Ip Network)) (ip : Ip)
      → Decided default rs ip (first_match net default rs ip)
  unfolding first_match
  first_match-Decided default [] ip = inl (tt, refl)
  first_match-Decided default (r ∷ rs) ip = elim (Bool-cases (matches net r ip)) [
    | inl t ↦ inr ([], r, rs, refl, tt, t, rw t)
    | inr f ↦
        let same : first_match net default rs ip ≡ first_match net default (r ∷ rs) ip = rw f in
        pass default _ r rs ip f
          (subst (Decided default rs ip) same (first_match-Decided default rs ip))
  ]

  -- The first rule that matches an address decides on it; where none matches, the default does.
  pub allows-Decided :
      (access : Access Ip Network) (ip : Ip)
      → Decided access.allow_default access.rules ip (allows net access ip)
  unfolding allows
  allows-Decided access ip = first_match-Decided access.allow_default access.rules ip

  abbrev pub verb : Bool → String
  verb true = "allow"
  verb false = "deny"

  verb-IsWord : (allow : Bool) → IsWord (verb allow)
  verb-IsWord true = (refl, (refl, (refl, (refl, (refl, tt)))))
  verb-IsWord false = (refl, (refl, (refl, (refl, tt))))

  split_rule :
      (allow : Bool) (target : String)
      → IsWord target
      → split_spaces (verb allow +++ " " +++ target) ≡ verb allow ∷ target ∷ []
  split_rule allow target h =
      split_spaces-append (verb allow) target (verb-IsWord allow)
      ∙ ap (◌∷◌ (verb allow)) (split_spaces-IsWord target h)

  abbrev pub PlaceOf : String → Option (Place Ip Network) → Type 0
  PlaceOf target none = (net.parse_ip target ≡ none) × (net.parse_cidr target ≡ none)
  PlaceOf target (some (host ip)) = net.parse_ip target ≡ some ip
  PlaceOf target (some (network n)) =
      (net.parse_ip target ≡ none) × (net.parse_cidr target ≡ some n)

  abbrev pub rule_at : Bool → Option (Place Ip Network) → Option (AccessRule Ip Network)
  rule_at allow none = none
  rule_at allow (some p) = some (record { allow = allow; place = p })

  -- The text "allow" or "deny", a space and a target without spaces is parsed to a rule with that
  -- verb, for the address that the target names, else for the network; and refused where it names
  -- neither.
  pub parse_rule-verb :
      (allow : Bool) (target : String) (place : Option (Place Ip Network))
      → IsWord target
      → PlaceOf target place
      → parse_rule net (verb allow +++ " " +++ target) ≡ rule_at allow place
  unfolding parse_rule parse_parts
  parse_rule-verb allow target place h p =
      ap (parse_parts net) (split_rule allow target h) ∙ parsed allow place p
    where
      parsed :
          (a : Bool) (q : Option (Place Ip Network))
          → PlaceOf target q
          → parse_parts net (verb a ∷ target ∷ []) ≡ rule_at a q
      parsed true none p = rw p.0 (rw p.1 refl)
      parsed true (some (host ip)) p = rw p refl
      parsed true (some (network n)) p = rw p.0 (rw p.1 refl)
      parsed false none p = rw p.0 (rw p.1 refl)
      parsed false (some (host ip)) p = rw p refl
      parsed false (some (network n)) p = rw p.0 (rw p.1 refl)
