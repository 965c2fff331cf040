-- ===== src/Balance/Iphash/Stable.antt =====
-- iphash1.go elects the greatest hash, and keeps its choice when another backend goes away.
use gobetween.Base.{
  ℕ, ◌≤◌, ◌<◌, ◌≡◌, refl, ap, subst, ◌≢◌, ◌⊎◌, inl, inr, true, Option, none, some, List, [], ◌∷◌,
  ◌++◌, ltb, if◌then◌else◌, arith, All, Bool-cases,
}
use gobetween.Core.{Backend}
use gobetween.Balance.Types.{Context, elected, nothing}
use gobetween.Balance.Iphash.{best, elect1, hash_of, or_nothing}

module _ (hash : Backend → ℕ) where
  -- The first of the greatest hashes.
  abbrev pub IsBest : List Backend → Backend → Type 0
  IsBest bs e =
      (before : List Backend) × (after : List Backend) × (bs ≡ before ++ e ∷ after)
      × All (λ b. hash b < hash e) before
      × All (λ b. hash b ≤ hash e) after

  abbrev Cases : ℕ → Option Backend → List Backend → Type 0
  Cases h r bs =
      ((best hash h r bs ≡ r) × All (λ b. hash b ≤ h) bs)
      ⊎ ((e : Backend) × (best hash h r bs ≡ some e) × IsBest bs e × (h < hash e))

  taken :
      (h : ℕ) (r : Option Backend) (b : Backend) (bs : List Backend)
      → h < hash b
      → Cases (hash b) (some b) bs
      → (e : Backend) × (best hash (hash b) (some b) bs ≡ some e) × IsBest (b ∷ bs) e × (h < hash e)
  taken h r b bs lt (inl (p, q)) = (b, p, ([], bs, refl, tt, q), lt)
  taken h r b bs lt (inr (e, p, (before, after, q, s, t), u)) =
      (e, p, (b ∷ before, after, ap (◌∷◌ b) q, (u, s), t), omega arith)

  passed :
      (h : ℕ) (r : Option Backend) (b : Backend) (bs : List Backend)
      → hash b ≤ h
      → Cases h r bs
      → ((best hash h r bs ≡ r) × All (λ x. hash x ≤ h) (b ∷ bs))
        ⊎ ((e : Backend) × (best hash h r bs ≡ some e) × IsBest (b ∷ bs) e × (h < hash e))
  passed h r b bs le (inl (p, q)) = inl (p, (le, q))
  passed h r b bs le (inr (e, p, (before, after, q, s, t), u)) =
      inr (e, p, (b ∷ before, after, ap (◌∷◌ b) q, (omega arith, s), t), u)

  best-Cases : (h : ℕ) (r : Option Backend) (bs : List Backend) → Cases h r bs
  unfolding best
  best-Cases h r [] = inl (refl, tt)
  best-Cases h r (b ∷ bs) = elim (Bool-cases (ltb h (hash b))) [
    | inl t ↦ rw t (inr (taken h r b bs (ground arith) (best-Cases (hash b) (some b) bs)))
    | inr f ↦ rw f (passed h r b bs (ground arith) (best-Cases h r bs))
  ]

  -- A higher bar, set by an element that is not chosen, changes nothing.
  best_lower :
      (h k : ℕ) (r : Option Backend) (ys : List Backend) (x e : Backend)
      → h ≤ k
      → best hash k (some x) ys ≡ some e
      → x ≢ e
      → best hash h r ys ≡ some e
  unfolding best
  best_lower h k r [] x e le q ne = absurd (ne (cc))
  best_lower h k r (y ∷ ys) x e le q ne = elim (Bool-cases (ltb k (hash y))) [
    | inl t ↦
        let u : ltb h (hash y) ≡ true = ground arith in
        rw u (
          subst
            (λ c. best hash (if c then hash y else k) (if c then some y else some x) ys ≡ some e) t
            q)
    | inr f ↦
        let q' =
          subst
            (λ c. best hash (if c then hash y else k) (if c then some y else some x) ys ≡ some e) f
            q in
        elim (Bool-cases (ltb h (hash y))) [
          | inl t ↦ rw t (best_lower (hash y) k (some y) ys x e (ground arith) q' ne)
          | inr g ↦ rw g (best_lower h k r ys x e le q' ne)
        ]
  ]

  -- Dropping an element that is not chosen changes nothing.
  best-drop :
      (h : ℕ) (r : Option Backend) (xs ys : List Backend) (x e : Backend)
      → best hash h r (xs ++ x ∷ ys) ≡ some e
      → x ≢ e
      → best hash h r (xs ++ ys) ≡ some e
  unfolding best
  best-drop h r [] ys x e q ne = elim (Bool-cases (ltb h (hash x))) [
    | inl t ↦
        best_lower h (hash x) r ys x e (ground arith)
          (subst (λ c. best hash (if c then hash x else h) (if c then some x else r) ys ≡ some e) t
            q)
          ne
    | inr f ↦
        subst (λ c. best hash (if c then hash x else h) (if c then some x else r) ys ≡ some e) f q
  ]
  best-drop h r (y ∷ xs) ys x e q ne =
      best-drop (if ltb h (hash y) then hash y else h) (if ltb h (hash y) then some y else r) xs ys
        x e q ne

-- On a list that is not empty iphash1 elects the first backend of the greatest hash; it elects
-- nothing, without an error, only where every hash is 0.
pub elect1-cases :
    (ctx : Context) (b : Backend) (bs : List Backend)
    → ((elect1 ctx (b ∷ bs) ≡ nothing) × All (λ x. hash_of ctx x ≤ 0) (b ∷ bs))
      ⊎ ((e : Backend) × (elect1 ctx (b ∷ bs) ≡ elected e) × IsBest (hash_of ctx) (b ∷ bs) e)
unfolding elect1
elect1-cases ctx b bs = elim (best-Cases (hash_of ctx) 0 none (b ∷ bs)) [
  | inl (p, q) ↦ inl (ap or_nothing p, q)
  | inr (e, p, q, _) ↦ inr (e, ap or_nothing p, q)
]

elect1_to :
    (ctx : Context) (bs : List Backend) (e : Backend)
    → best (hash_of ctx) 0 none bs ≡ some e
    → elect1 ctx bs ≡ elected e
unfolding elect1 best
elect1_to ctx [] e p = cc
elect1_to ctx (b ∷ bs) e p = ap or_nothing p

elect1_from :
    (ctx : Context) (bs : List Backend) (e : Backend)
    → elect1 ctx bs ≡ elected e
    → best (hash_of ctx) 0 none bs ≡ some e
unfolding elect1
elect1_from ctx [] e p = cc
elect1_from ctx (b ∷ bs) e p = chosen (best (hash_of ctx) 0 none (b ∷ bs)) p
  where
    chosen : (o : Option Backend) → or_nothing o ≡ elected e → o ≡ some e
    chosen none q = cc
    chosen (some c) q = cc

-- With iphash1 a client keeps its backend when any other backend is removed from the list.
pub elect1-drop :
    (ctx : Context) (xs ys : List Backend) (x e : Backend)
    → elect1 ctx (xs ++ x ∷ ys) ≡ elected e
    → x ≢ e
    → elect1 ctx (xs ++ ys) ≡ elected e
elect1-drop ctx xs ys x e p ne =
    elect1_to ctx (xs ++ ys) e
      (best-drop (hash_of ctx) 0 none xs ys x e (elect1_from ctx (xs ++ x ∷ ys) e p) ne)
