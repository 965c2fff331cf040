-- ===== src/Scheduler/Discovery.antt =====
-- The second loop of `HandleBackendsUpdate`: what its rounds make of one target.
use gobetween.Base.{
  ◌≡◌, refl, sym, ap, ◌∙◌, subst, inl, inr, true, false, Option, none, some, List, [], ◌∷◌,
  if◌then◌else◌, arith, Bool-cases, Option-cases,
}
use gobetween.Core.{Target, Backend, ◌=t◌, =t_iff, =t_refl}
use gobetween.Core.Table.{lookup, insert, IsTable, lookup-insert, insert-IsTable}
use gobetween.Config.{HealthcheckConfig}
use gobetween.Scheduler.{rediscover, admit, discover, discover_one}

-- The first and the last backend that a discovery gives for a target.
unfoldable pub first_for : Target → List Backend → Option Backend
first_for t [] = none
first_for t (b ∷ bs) = if b.target =t t then some b else first_for t bs

unfoldable pub last_for : Target → List Backend → Option Backend
last_for t [] = none
last_for t (b ∷ bs) = elim (last_for t bs) [
  | some c ↦ some c
  | none ↦ if b.target =t t then some b else none
]

abbrev pub renewed : Backend → Option Backend → Backend
renewed old none = old
renewed old (some b) = rediscover old b

rediscover_twice : (a b c : Backend) → rediscover (rediscover a b) c ≡ rediscover a c
unfolding rediscover
rediscover_twice a b c = refl

pub rediscover-admit :
    (cfg : HealthcheckConfig) (b a : Backend) → admit cfg b ≡ some a → rediscover a b ≡ a
unfolding rediscover admit
rediscover-admit cfg b a e = ground arith

pub one_known :
    (cfg : HealthcheckConfig) (m m' : List (Target × Backend)) (b old : Backend)
    → discover_one cfg m b ≡ some m'
    → lookup b.target m ≡ some old
    → insert b.target (rediscover old b) m ≡ m'
unfolding discover_one
one_known cfg m m' b old e k = ground arith

pub one_new :
    (cfg : HealthcheckConfig) (m m' : List (Target × Backend)) (b : Backend)
    → discover_one cfg m b ≡ some m'
    → lookup b.target m ≡ none
    → (a : Backend) × (admit cfg b ≡ some a) × (insert b.target a m ≡ m')
unfolding discover_one
one_new cfg m m' b e k = elim (Option-cases (admit cfg b)) [
  | inl p ↦ absurd (ground arith)
  | inr (a, p) ↦ (a, p, ground arith)
]

last_hit :
    (t : Target) (b old : Backend) (bs : List Backend)
    → (b.target =t t) ≡ true
    → renewed old (last_for t (b ∷ bs)) ≡ renewed (rediscover old b) (last_for t bs)
unfolding last_for
last_hit t b old bs h = elim (Option-cases (last_for t bs)) [
  | inl p ↦ rw (p, last_for) (rw h)
  | inr (c, p) ↦ rw (p, last_for) (sym (rediscover_twice old b c))
]

last_miss :
    (t : Target) (b : Backend) (bs : List Backend)
    → (b.target =t t) ≡ false
    → last_for t (b ∷ bs) ≡ last_for t bs
unfolding last_for
last_miss t b bs h = ground arith

-- One round, on a target and on another.
one_at :
    (cfg : HealthcheckConfig) (m m' : List (Target × Backend)) (b old : Backend)
    → discover_one cfg m b ≡ some m'
    → lookup b.target m ≡ some old
    → lookup b.target m' ≡ some (rediscover old b)
one_at cfg m m' b old e k =
    subst (λ x. lookup b.target x ≡ some (rediscover old b)) (one_known cfg m m' b old e k)
      (ground (arith, lookup-insert b.target b.target (rediscover old b) m, =t_refl b.target))

one_off :
    (cfg : HealthcheckConfig) (t : Target) (m m' : List (Target × Backend)) (b : Backend)
    → discover_one cfg m b ≡ some m'
    → (b.target =t t) ≡ false
    → lookup t m' ≡ lookup t m
one_off cfg t m m' b e h = elim (Option-cases (lookup b.target m)) [
  | inl k ↦
      let (a, _, q) = one_new cfg m m' b e k in subst (λ x. lookup t x ≡ lookup t m) q (other a)
  | inr (old, k) ↦
      subst (λ x. lookup t x ≡ lookup t m) (one_known cfg m m' b old e k) (other (rediscover old b))
]
  where
    other : (v : Backend) → lookup t (insert b.target v m) ≡ lookup t m
    other v = ground (arith, lookup-insert b.target t v m)

-- The rounds on one target, for a target that is in the table.
pub discover_known :
    (cfg : HealthcheckConfig) (t : Target) (m m' : List (Target × Backend)) (bs : List Backend)
    (old : Backend)
    → discover cfg m bs ≡ some m'
    → lookup t m ≡ some old
    → lookup t m' ≡ some (renewed old (last_for t bs))
unfolding discover last_for
discover_known cfg t m m' [] old e k = subst (λ x. lookup t x ≡ some old) (ground arith) k
discover_known cfg t m m' (b ∷ bs) old e k = elim (Option-cases (discover_one cfg m b)) [
  | inl p ↦ absurd (ground arith)
  | inr (m1, p) ↦
      let rest : discover cfg m1 bs ≡ some m' = ground arith in
      elim (Bool-cases (b.target =t t)) [
        | inl h ↦
            let same : b.target ≡ t = (=t_iff b.target t).0 h in
            let now : lookup t m1 ≡ some (rediscover old b) =
              subst (λ u. lookup u m1 ≡ some (rediscover old b)) same
                (one_at cfg m m1 b old p (subst (λ u. lookup u m ≡ some old) (sym same) k)) in
            discover_known cfg t m1 m' bs (rediscover old b) rest now
            ∙ ap some (sym (last_hit t b old bs h))
        | inr h ↦
            discover_known cfg t m1 m' bs old rest (one_off cfg t m m1 b p h ∙ k)
            ∙ ap (λ o. some (renewed old o)) (sym (last_miss t b bs h))
      ]
]

-- For a target that is not in the table.
abbrev pub Arrived : HealthcheckConfig → Option Backend → Option Backend → Option Backend → Type 0
Arrived cfg none last found = found ≡ none
Arrived cfg (some b) last found =
    (a : Backend) × (admit cfg b ≡ some a) × (found ≡ some (renewed a last))

pub discover_new :
    (cfg : HealthcheckConfig) (t : Target) (m m' : List (Target × Backend)) (bs : List Backend)
    → discover cfg m bs ≡ some m'
    → lookup t m ≡ none
    → Arrived cfg (first_for t bs) (last_for t bs) (lookup t m')
unfolding discover first_for
discover_new cfg t m m' [] e k =
    let same : m ≡ m' = ground arith in subst (λ x. lookup t x ≡ none) same k
discover_new cfg t m m' (b ∷ bs) e k = elim (Option-cases (discover_one cfg m b)) [
  | inl p ↦ absurd (ground arith)
  | inr (m1, p) ↦
      let rest : discover cfg m1 bs ≡ some m' = ground arith in
      elim (Bool-cases (b.target =t t)) [
        | inl h ↦
            let same : b.target ≡ t = (=t_iff b.target t).0 h in
            let (a, adm, q) = one_new cfg m m1 b p (subst (λ u. lookup u m ≡ none) (sym same) k) in
            let now : lookup t m1 ≡ some a =
              subst (λ x. lookup t x ≡ some a) q (ground (arith, lookup-insert b.target t a m)) in
            rw h (a, adm, discover_known cfg t m1 m' bs a rest now ∙ ap some (unchanged a adm h))
        | inr h ↦ rw h (
            subst (λ l. Arrived cfg (first_for t bs) l (lookup t m')) (sym (last_miss t b bs h))
              (discover_new cfg t m1 m' bs rest (one_off cfg t m m1 b p h ∙ k)))
      ]
]
  where
    unchanged :
        (a : Backend)
        → admit cfg b ≡ some a
        → (b.target =t t) ≡ true
        → renewed a (last_for t bs) ≡ renewed a (last_for t (b ∷ bs))
    unchanged a adm h =
        ap (λ x. renewed x (last_for t bs)) (sym (rediscover-admit cfg b a adm))
        ∙ sym (last_hit t b a bs h)

pub discover-IsTable :
    (cfg : HealthcheckConfig) (m m' : List (Target × Backend)) (bs : List Backend)
    → discover cfg m bs ≡ some m'
    → IsTable m
    → IsTable m'
unfolding discover
discover-IsTable cfg m m' [] e h = let same : m ≡ m' = ground arith in subst IsTable same h
discover-IsTable cfg m m' (b ∷ bs) e h = elim (Option-cases (discover_one cfg m b)) [
  | inl p ↦ absurd (ground arith)
  | inr (m1, p) ↦ discover-IsTable cfg m1 m' bs (ground arith) (one p)
]
  where
    one : {m1 : List (Target × Backend)} → discover_one cfg m b ≡ some m1 → IsTable m1
    one {m1} p = elim (Option-cases (lookup b.target m)) [
      | inl k ↦
          let (a, _, q) = one_new cfg m m1 b p k in subst IsTable q (insert-IsTable b.target a m h)
      | inr (old, k) ↦
          subst IsTable (one_known cfg m m1 b old p k)
            (insert-IsTable b.target (rediscover old b) m h)
    ]
