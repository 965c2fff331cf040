-- ===== src/Udp/Session/Runs.antt =====
-- Runs of a session, taken apart, and the operations of one kind that they report.
use gobetween.Base.{
  subst, ℕ, suc, ◌+◌, ◌≡◌, refl, sym, subst, ap, ◌∙◌, Bool, true, false, Option, none, some, List,
  [], ◌∷◌, ◌++◌, inl, inr, Option-cases, arith, if◌then◌else◌,
}
use gobetween.Scheduler.{Op, OpAction}
use gobetween.Udp.Session.{Session, Label, step, run}

-- The operations of one kind.
unfoldable pub count_ops : (OpAction → Bool) → List Op → ℕ
count_ops p [] = 0
count_ops p (o ∷ os) = let rest = count_ops p os in if p o.action then suc rest else rest

pub count_ops-append :
    (p : OpAction → Bool) (xs ys : List Op)
    → count_ops p (xs ++ ys) ≡ count_ops p xs + count_ops p ys
unfolding count_ops
count_ops-append p [] ys = omega arith
count_ops-append p (x ∷ xs) ys = ground (arith, count_ops-append p xs ys)

pub some_inj {ℓ} : {A : Type ℓ} {a b : A} → some a ≡ some b → a ≡ b
some_inj h = cc

-- The parts of a run that is not empty.
pub run-cons :
    (s : Session) (l : Label) (ls : List Label) (s' : Session) (ops : List Op)
    → run s (l ∷ ls) ≡ some (s', ops)
    → (m : Session) × (os : List Op) × (rest : List Op) × (step s l ≡ some (m, os))
      × (run m ls ≡ some (s', rest))
      × (ops ≡ os ++ rest)
unfolding run
run-cons s l ls s' ops e = elim (Option-cases (step s l)) [
  | inl n ↦ absurd (ground arith)
  | inr (r, n) ↦ elim (Option-cases (run r.0 ls)) [
    | inl k ↦ absurd (ground arith)
    | inr (q, k) ↦
        let whole = parts r q n k in
        (r.0, r.1, q.1, n, k ∙ ap (paired q.1) (ap (λ x. x.0) whole), sym (ap (λ x. x.1) whole))
  ]
]
  where
    paired : List Op → Session → Option (Session × List Op)
    paired os m = some (m, os)

    parts :
        (r q : Session × List Op)
        → step s l ≡ some r
        → run r.0 ls ≡ some q
        → ◌≡◌ {A = Session × List Op} (q.0, r.1 ++ q.1) (s', ops)
    parts r q n k = some_inj (rw (n, k, run) at e)

-- A first step, and then a run.
pub run-step :
    (s m : Session) (l : Label) (ls : List Label) (os : List Op) {s' : Session} {rest : List Op}
    → step s l ≡ some (m, os)
    → run m ls ≡ some (s', rest)
    → run s (l ∷ ls) ≡ some (s', os ++ rest)
unfolding run
run-step s m l ls os e f = rw (e, run) (rw f refl)

-- A step that reports nothing can be left out of the run.
pub run-after :
    (s m : Session) (l : Label) (ls : List Label) (s' : Session) (ops : List Op)
    → step s l ≡ some (m, [])
    → run s (l ∷ ls) ≡ some (s', ops)
    → run m ls ≡ some (s', ops)
run-after s m l ls s' ops e f =
    let (m', os, rest, e1, e2, q) = run-cons s l ls s' ops f in
    let same : ◌≡◌ {A = Session × List Op} (m', os) (m, []) = some_inj (sym e1 ∙ e) in
    let none_first : ops ≡ rest = q ∙ ap (λ x. x.1 ++ rest) same in
    subst (λ x. run x ls ≡ some (s', ops)) (ap (λ x. x.0) same)
      (subst (λ x. run m' ls ≡ some (s', x)) (sym none_first) e2)

pub guarded :
    (b : Bool) (x r : Session × List Op)
    → (if b then some x else none) ≡ some r
    → (b ≡ true) × (x ≡ r)
guarded true x r h = (refl, some_inj h)
guarded false x r h = cc

pub guarded_option :
    (b : Bool) (x : Option (Session × List Op)) (r : Session × List Op)
    → (if b then x else none) ≡ some r
    → x ≡ some r
guarded_option true x r h = h
guarded_option false x r h = cc
