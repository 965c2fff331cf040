-- ===== src/Balance/Scan.antt =====
-- The scan for the best element that leastconn.go and leastbandwidth.go share in shape, and what it
-- finds.
use gobetween.Base.{
  ◌≡◌, refl, sym, ap, subst, ◌⊎◌, inl, inr, Bool, true, false, List, [], ◌∷◌, ◌++◌, if◌then◌else◌,
  All, Bool-cases,
}

module _ {A : Type 0} (better : A → A → Bool) where
  unfoldable pub scan : A → List A → A
  scan best [] = best
  scan best (x ∷ xs) = scan (if better x best then x else best) xs

  -- `e` stands in the list; it beats all before it, and nothing after it beats it.
  abbrev pub IsFound : List A → A → Type 0
  IsFound xs e =
      (before : List A) × (after : List A) × (xs ≡ before ++ e ∷ after)
      × All (λ x. better e x ≡ true) before
      × All (λ x. better x e ≡ false) after

  module _ (chain : (e x l : A) → better e x ≡ true → better x l ≡ true → better e l ≡ true)
      (steady : (e l x : A) → better e l ≡ true → better x l ≡ false → better e x ≡ true) where
    abbrev Result : A → List A → A → Type 0
    Result l xs e =
        ((e ≡ l) × All (λ x. better x l ≡ false) xs) ⊎ (IsFound xs e × (better e l ≡ true))

    replace : (l x e : A) (xs : List A) → better x l ≡ true → Result x xs e → Result l (x ∷ xs) e
    replace l x e xs t (inl (p, h)) = inr (rw p (([], xs, refl, tt, h), t))
    replace l x e xs t (inr ((before, after, p, h, k), g)) =
        inr ((x ∷ before, after, ap (◌∷◌ x) p, (g, h), k), chain e x l g t)

    stay : (l x e : A) (xs : List A) → better x l ≡ false → Result l xs e → Result l (x ∷ xs) e
    stay l x e xs t (inl (p, h)) = inl (p, (t, h))
    stay l x e xs t (inr ((before, after, p, h, k), g)) =
        inr ((x ∷ before, after, ap (◌∷◌ x) p, (steady e l x g t, h), k), g)

    abbrev Moved : A → A → List A → Bool → Type 0
    Moved l x xs b = Result l (x ∷ xs) (scan (if b then x else l) xs)

    scan-Result : (l : A) (xs : List A) → Result l xs (scan l xs)
    unfolding scan
    scan-Result l [] = inl (refl, tt)
    scan-Result l (x ∷ xs) = elim (Bool-cases (better x l)) [
      | inl t ↦ subst (Moved l x xs) (sym t) (replace l x _ xs t (scan-Result x xs))
      | inr f ↦ subst (Moved l x xs) (sym f) (stay l x _ xs f (scan-Result l xs))
    ]

    start : (x e : A) (xs : List A) → Result x xs e → IsFound (x ∷ xs) e
    start x e xs (inl (p, h)) = rw p ([], xs, refl, tt, h)
    start x e xs (inr ((before, after, p, h, k), g)) = (x ∷ before, after, ap (◌∷◌ x) p, (g, h), k)

    -- Started on the first element, the scan ends on the first element that nothing beats later.
    pub scan-IsFound : (x : A) (xs : List A) → IsFound (x ∷ xs) (scan x (x ∷ xs))
    unfolding scan
    scan-IsFound x xs = elim (Bool-cases (better x x)) [
      | inl t ↦ rw t (start x (scan x xs) xs (scan-Result x xs))
      | inr f ↦ rw f (start x (scan x xs) xs (scan-Result x xs))
    ]
