-- ===== src/Balance/Weight/FirstPass.antt =====
-- What the first pass of weight.go collects: the backends of the lowest priority, and their weight.
use gobetween.Base.{
  ℕ, ◌+◌, ◌≤◌, ◌≡◌, refl, sym, ap, subst, ◌∙◌, Bool, true, false, List, [], ◌∷◌, ◌++◌, ◌==◌, u64,
  inl, inr, if◌then◌else◌, arith, keep, All, Bool-cases, append_assoc, append-nil, is_empty, length,
  ◌≤◌, ◌⊎◌,
}
use gobetween.Base.Int.{ℤ, pos, pos_part, neg_part, ltb_ℤ, ◌≤ℤ◌, ◌<ℤ◌}
use gobetween.Core.{Backend}
use gobetween.Balance.Weight.{Group, consider, collect}

-- What RFC 2782 asks of a record, and what `consider` does not skip.
abbrev pub IsValid : Backend → Type 0
IsValid b = (pos 0 ≤ℤ b.priority) × (pos 0 ≤ℤ b.weight)

-- The lowest of a priority and those of a list.
unfoldable pub lowest : ℤ → List Backend → ℤ
lowest m [] = m
lowest m (b ∷ bs) = lowest (if ltb_ℤ b.priority m then b.priority else m) bs

abbrev pub has_priority : ℤ → Backend → Bool
has_priority m b = pos_part b.priority + neg_part m == pos_part m + neg_part b.priority

unfoldable pub weights : List Backend → ℕ
weights [] = 0
weights (b ∷ bs) = pos_part b.weight + weights bs

pub lowest-le : (m : ℤ) (bs : List Backend) → lowest m bs ≤ℤ m
unfolding lowest
lowest-le m [] = omega arith
lowest-le m (b ∷ bs) = ground (arith, lowest-le (if ltb_ℤ b.priority m then b.priority else m) bs)

pub lowest-All : (m : ℤ) (bs : List Backend) → All (λ b. lowest m bs ≤ℤ b.priority) bs
unfolding lowest
lowest-All m [] = tt
lowest-All m (b ∷ bs) = (
  ground (arith, lowest-le (if ltb_ℤ b.priority m then b.priority else m) bs),
  lowest-All (if ltb_ℤ b.priority m then b.priority else m) bs,
)

pub weights-append : (xs ys : List Backend) → weights (xs ++ ys) ≡ weights xs + weights ys
unfolding weights
weights-append [] ys = omega arith
weights-append (x ∷ xs) ys = omega (arith, weights-append xs ys)

abbrev pub same_ℤ : ℤ → ℤ → Bool
same_ℤ a b = pos_part a + neg_part b == pos_part b + neg_part a

-- The lowest priority is that of some backend, or the one started from.
attained_from :
    (m k : ℤ) (bs : List Backend)
    → lowest m bs ≡ k
    → (same_ℤ k m ≡ true) ⊎ (is_empty (keep (has_priority k) bs) ≡ false)
unfolding lowest
attained_from m k [] e = inl (ground arith)
attained_from m k (b ∷ bs) e =
    ground (arith, attained_from (if ltb_ℤ b.priority m then b.priority else m) k bs e)

pub attained :
    (b : Backend) (bs : List Backend) (k : ℤ)
    → lowest b.priority (b ∷ bs) ≡ k
    → is_empty (keep (has_priority k) (b ∷ bs)) ≡ false
attained b bs k e = ground (arith, attained_from b.priority k (b ∷ bs) e)

-- One round, on a valid backend, as the three ways its priority can compare.
consider_above :
    (g : Group) (b : Backend) → ltb_ℤ g.min_priority b.priority ≡ true → consider g b ≡ g
unfolding consider
consider_above g b h = ground arith

consider_below :
    (g : Group) (b : Backend)
    → IsValid b
    → ltb_ℤ b.priority g.min_priority ≡ true
    → consider g b ≡ record {
      min_priority = b.priority;
      members = b ∷ [];
      sum_weight = u64 (0 + pos_part b.weight);
    }
unfolding consider
consider_below g b v h = ground arith

consider_level :
    (g : Group) (b : Backend)
    → IsValid b
    → ltb_ℤ g.min_priority b.priority ≡ false
    → ltb_ℤ b.priority g.min_priority ≡ false
    → consider g b ≡ record g {
      members = g.members ++ b ∷ [];
      sum_weight = u64 (g.sum_weight + pos_part b.weight);
    }
unfolding consider
consider_level g b v h k = ground arith

-- What is left of the members once the lowest priority is known.
abbrev pub kept : ℤ → Group → List Backend
kept m g = if same_ℤ m g.min_priority then g.members else []

abbrev pub Collects : ℤ → Group → List Backend → Type 0
Collects m g bs = (collect g bs).members ≡ kept m g ++ keep (has_priority m) bs

min-consider :
    (g : Group) (b : Backend)
    → IsValid b
    → (consider g b).min_priority
      ≡ (if ltb_ℤ b.priority g.min_priority then b.priority else g.min_priority)
unfolding consider
min-consider g b v = ground arith

regroup :
    (c : Bool) (ms : List Backend) (b : Backend) (ks : List Backend)
    → (if c then ms ++ b ∷ [] else []) ++ ks ≡ (if c then ms else []) ++ (if c then b ∷ ks else ks)
regroup true ms b ks = append_assoc ms (b ∷ []) ks
regroup false ms b ks = refl

not_same : (m n : ℤ) → m <ℤ n → same_ℤ m n ≡ false
not_same m n h = ground arith

not_has : (m : ℤ) (b : Backend) → m <ℤ b.priority → has_priority m b ≡ false
not_has m b h = ground arith

-- The three cases of a round, for the priority `m` that the pass ends on.
step_above :
    (m : ℤ) (g : Group) (b : Backend) (bs : List Backend)
    → m ≤ℤ g.min_priority
    → ltb_ℤ g.min_priority b.priority ≡ true
    → Collects m (consider g b) bs
    → Collects m g (b ∷ bs)
unfolding collect
step_above m g b bs le t ih =
    rw (not_has m b (ground arith))
      (ih ∙ ap (λ h. kept m h ++ keep (has_priority m) bs) (consider_above g b t))

step_below :
    (m : ℤ) (g : Group) (b : Backend) (bs : List Backend)
    → IsValid b
    → m ≤ℤ b.priority
    → ltb_ℤ b.priority g.min_priority ≡ true
    → Collects m (consider g b) bs
    → Collects m g (b ∷ bs)
unfolding collect
step_below m g b bs v le t ih =
    rw (not_same m g.min_priority (ground arith))
      (ih ∙ ap (λ h. kept m h ++ keep (has_priority m) bs) (consider_below g b v t) ∙ first)
  where
    first :
        (if same_ℤ m b.priority then b ∷ [] else []) ++ keep (has_priority m) bs
        ≡ keep (has_priority m) (b ∷ bs)
    first = ground arith

step_level :
    (m : ℤ) (g : Group) (b : Backend) (bs : List Backend)
    → IsValid b
    → ltb_ℤ g.min_priority b.priority ≡ false
    → ltb_ℤ b.priority g.min_priority ≡ false
    → Collects m (consider g b) bs
    → Collects m g (b ∷ bs)
unfolding collect
step_level m g b bs v t u ih =
    ih
    ∙ ap (λ h. kept m h ++ keep (has_priority m) bs) (consider_level g b v t u)
    ∙ regroup (same_ℤ m g.min_priority) g.members b (keep (has_priority m) bs)
    ∙ ap (λ c. kept m g ++ (if c then b ∷ keep (has_priority m) bs else keep (has_priority m) bs))
        level
  where
    level : same_ℤ m g.min_priority ≡ has_priority m b
    level = ground arith

-- The pass keeps exactly the backends of the lowest priority, in order.
pub collect_lem :
    (g : Group) (bs : List Backend) (m : ℤ)
    → All IsValid bs
    → lowest g.min_priority bs ≡ m
    → Collects m g bs
unfolding collect lowest
collect_lem g [] m v e = rw (same m g.min_priority (sym e)) (sym (append-nil g.members))
  where
    same : (a b : ℤ) → a ≡ b → same_ℤ a b ≡ true
    same a b h = ground arith
collect_lem g (b ∷ bs) m v e =
    let rest = collect_lem (consider g b) bs m v.1 (rw (min-consider g b v.0) e) in
    elim (Bool-cases (ltb_ℤ g.min_priority b.priority)) [
      | inl above ↦
          step_above m g b bs
            (subst (λ k. k ≤ℤ g.min_priority) e (lowest-le g.min_priority (b ∷ bs))) above rest
      | inr h ↦ elim (Bool-cases (ltb_ℤ b.priority g.min_priority)) [
        | inl below ↦
            step_below m g b bs v.0
              (subst (λ k. k ≤ℤ b.priority) e ((lowest-All g.min_priority (b ∷ bs)).0)) below rest
        | inr k ↦ step_level m g b bs v.0 h k rest
      ]
    ]

sum-consider :
    (g : Group) (b : Backend)
    → IsValid b
    → g.sum_weight ≡ u64 (weights g.members)
    → (consider g b).sum_weight ≡ u64 (weights (consider g b).members)
unfolding consider weights
sum-consider g b v h = ground (arith, weights-append g.members (b ∷ []))

-- The sum of the group's weights is kept along, as an `int` pattern.
pub sum-collect :
    (g : Group) (bs : List Backend)
    → All IsValid bs
    → g.sum_weight ≡ u64 (weights g.members)
    → (collect g bs).sum_weight ≡ u64 (weights (collect g bs).members)
unfolding collect
sum-collect g [] v h = h
sum-collect g (b ∷ bs) v h = sum-collect (consider g b) bs v.1 (sum-consider g b v.0 h)

-- A sum that stays in range is not wrapped.
pub weights-keep-le : (p : Backend → Bool) (bs : List Backend) → weights (keep p bs) ≤ weights bs
unfolding weights
weights-keep-le p [] = omega arith
weights-keep-le p (b ∷ bs) = ground (arith, weights-keep-le p bs)

pub length-keep-le : (p : Backend → Bool) (bs : List Backend) → length (keep p bs) ≤ length bs
length-keep-le p [] = omega arith
length-keep-le p (b ∷ bs) = ground (arith, length-keep-le p bs)
