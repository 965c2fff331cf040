-- ===== src/Discovery/Trace.antt =====
-- What a discovery gives to the scheduler, and when it can be stopped.
use gobetween.Base.{
  ◌≡◌, refl, sym, ap, ◌∙◌, subst, ◌⊎◌, inl, inr, true, Option, none, some, List, [], ◌∷◌, ◌++◌,
  ◌==◌, if◌then◌else◌, arith, is_some, Option-cases, Bool-cases, append_assoc, append-nil,
}
use mathlib.Core.Path.{ap₂}
use gobetween.Core.{Backend}
use gobetween.Discovery.{
  Policy, Sequel, retry, pause, Phase, fetching, fetched, sending, offering, waiting, exited,
  Discovery, Label, fetch_returns, receive_stop, go_on, taken, timer, move, step, output, run,
  start, judge, after, at,
}

-- What a result of a fetch is worth to the scheduler.
abbrev pub worth : Policy → Option (List Backend) → List (List Backend)
worth policy (some bs) = bs ∷ []
worth policy none = if policy.set_empty then [] ∷ [] else []

pub worths : Policy → List Label → List (List Backend)
worths policy [] = []
worths policy (fetch_returns r ∷ ls) = worth policy r ++ worths policy ls
worths policy (l ∷ ls) = worths policy ls

-- What is still owed to the scheduler in a phase.
abbrev pub owed : Policy → Discovery → Phase → List (List Backend)
owed policy d (fetched r) = worth policy r
owed policy d (sending k) = d.backends ∷ []
owed policy d (offering k) = d.backends ∷ []
owed policy d p = []

abbrev pub brings : Policy → Label → List (List Backend)
brings policy (fetch_returns r) = worth policy r
brings policy l = []

-- A step keeps the account, unless it stops the loop.
abbrev Kept : Policy → Discovery → Phase → Label → Discovery → Type 0
Kept policy d p l d' =
    ((d'.phase ≡ exited) × (output d l ≡ []))
    ⊎ (output d l ++ owed policy d' d'.phase ≡ owed policy d p ++ brings policy l)

judged :
    (policy : Policy) (d : Discovery) (r : Option (List Backend))
    → owed policy (judge policy d r) (judge policy d r).phase ≡ worth policy r
unfolding judge
judged policy d none = elim (Bool-cases policy.set_empty) [ inl t ↦ rw t refl | inr f ↦ rw f refl ]
judged policy d (some bs) = refl

after-owed :
    (policy : Policy) (d : Discovery) (k : Sequel)
    → owed policy (at d (after policy k)) (after policy k) ≡ []
unfolding after at
after-owed policy d retry = refl
after-owed policy d pause = elim (Bool-cases (policy.interval == 0)) [
  | inl t ↦ rw t refl
  | inr f ↦ rw f refl
]

Kept-eq :
    (policy : Policy) (d d' e : Discovery) (p : Phase) (l : Label)
    → some e ≡ some d'
    → Kept policy d p l e
    → Kept policy d p l d'
Kept-eq policy d d' e p l q k = let same : e ≡ d' = ground arith in subst (Kept policy d p l) same k

move-Kept :
    (policy : Policy) (d d' : Discovery) (p : Phase) (l : Label)
    → move policy d p l ≡ some d'
    → Kept policy d p l d'
unfolding move output at
move-Kept policy d d' fetching (fetch_returns r) e =
    Kept-eq policy d d' (at d (fetched r)) fetching (fetch_returns r) e (inr refl)
move-Kept policy d d' (fetched r) receive_stop e =
    Kept-eq policy d d' (at d exited) (fetched r) receive_stop e (inl (refl, refl))
move-Kept policy d d' (fetched r) go_on e =
    Kept-eq policy d d' (judge policy d r) (fetched r) go_on e
      (inr (judged policy d r ∙ sym (append-nil (worth policy r))))
move-Kept policy d d' (sending k) receive_stop e =
    Kept-eq policy d d' (at d exited) (sending k) receive_stop e (inl (refl, refl))
move-Kept policy d d' (sending k) go_on e =
    Kept-eq policy d d' (at d (offering k)) (sending k) go_on e (inr refl)
move-Kept policy d d' (offering k) taken e =
    Kept-eq policy d d' (at d (after policy k)) (offering k) taken e
      (inr (ap (◌∷◌ d.backends) (after-owed policy d k)))
move-Kept policy d d' waiting timer e =
    Kept-eq policy d d' (at d fetching) waiting timer e (inr refl)
move-Kept policy d d' waiting receive_stop e =
    Kept-eq policy d d' (at d exited) waiting receive_stop e (inl (refl, refl))
move-Kept policy d d' p l e = cc

-- The run in which a stop ends it has no more steps.
stuck :
    (policy : Policy) (d d' : Discovery) (ls : List Label) (sent : List (List Backend))
    → d.phase ≡ exited
    → run policy d ls ≡ some (d', sent)
    → (ls ≡ []) × (sent ≡ []) × (d ≡ d')
unfolding run step move
stuck policy d d' [] sent h e = (refl, ground arith, ground arith)
stuck policy d d' (l ∷ ls) sent h e =
    absurd (no_step (subst (λ p. is_some (move policy d p l) ≡ true) h (moved e)))
  where
    moved : run policy d (l ∷ ls) ≡ some (d', sent) → is_some (move policy d d.phase l) ≡ true
    moved q = ground arith

    no_step : is_some (move policy d exited l) ≡ true → ⊥
    no_step q = cc

-- The first step of a run.
first_step :
    (policy : Policy) (d d' : Discovery) (l : Label) (ls : List Label) (sent : List (List Backend))
    → run policy d (l ∷ ls) ≡ some (d', sent)
    → (next : Discovery) × (rest : List (List Backend)) × (step policy d l ≡ some next)
      × (run policy next ls ≡ some (d', rest))
      × (output d l ++ rest ≡ sent)
unfolding run
first_step policy d d' l ls sent e = elim (Option-cases (step policy d l)) [
  | inl p ↦ absurd (ground arith)
  | inr (next, p) ↦ elim (Option-cases (run policy next ls)) [
    | inl q ↦ absurd (ground arith)
    | inr ((d2, rest), q) ↦
        let same : d2 ≡ d' = ground arith in
        (next, rest, p, q ∙ ap (λ x. some (x, rest)) same, ground arith)
  ]
]

worths-cons :
    (policy : Policy) (l : Label) (ls : List Label)
    → worths policy (l ∷ ls) ≡ brings policy l ++ worths policy ls
unfolding worths
worths-cons policy (fetch_returns r) ls = refl
worths-cons policy receive_stop ls = refl
worths-cons policy go_on ls = refl
worths-cons policy taken ls = refl
worths-cons policy timer ls = refl

abbrev pub Account : Policy → List (List Backend) → Discovery → List (List Backend) → Type 0
Account policy worth d' sent =
    (lost : List (List Backend)) × (worth ≡ sent ++ lost)
    × ((d'.phase ≡ exited) ⊎ (lost ≡ owed policy d' d'.phase))

step-Kept :
    (policy : Policy) (d next : Discovery) (l : Label)
    → step policy d l ≡ some next
    → Kept policy d d.phase l next
unfolding step
step-Kept policy d next l p = move-Kept policy d next d.phase l p

continued :
    (policy : Policy) (d next d' : Discovery) (l : Label) (ls : List Label)
    (rest sent : List (List Backend))
    → run policy next ls ≡ some (d', rest)
    → output d l ++ rest ≡ sent
    → Account policy (owed policy next next.phase ++ worths policy ls) d' rest
    → Kept policy d d.phase l next
    → Account policy (owed policy d d.phase ++ worths policy (l ∷ ls)) d' sent
continued policy d next d' l ls rest sent q out ih (inl (x, y)) =
    let (_, r, last) = stuck policy next d' ls rest x q in
    let silent : [] ≡ sent = sym (ap₂ ◌++◌ y r) ∙ out in
    let all = owed policy d d.phase ++ worths policy (l ∷ ls) in
    (
      all,
      subst (λ s. all ≡ s ++ all) silent refl,
      inl (subst (λ (z : Discovery). z.phase ≡ exited) last x),
    )
continued policy d next d' l ls rest sent q out (lost, w, why) (inr x) = (
  lost,
  ap (λ z. owed policy d d.phase ++ z) (worths-cons policy l ls)
      ∙ sym (append_assoc (owed policy d d.phase) (brings policy l) (worths policy ls))
      ∙ ap (λ z. z ++ worths policy ls) (sym x)
      ∙ append_assoc (output d l) (owed policy next next.phase) (worths policy ls)
      ∙ ap (λ z. output d l ++ z) w
      ∙ sym (append_assoc (output d l) rest lost)
      ∙ ap (λ z. z ++ lost) out,
  why,
)

run-Account :
    (policy : Policy) (d d' : Discovery) (ls : List Label) (sent : List (List Backend))
    → run policy d ls ≡ some (d', sent)
    → Account policy (owed policy d d.phase ++ worths policy ls) d' sent
unfolding run worths
run-Account policy d d' [] sent e =
    let same : d ≡ d' = ground arith in
    let silent : [] ≡ sent = ground arith in
    subst (λ x. Account policy (owed policy d d.phase ++ []) x sent) same
      (subst (λ z. Account policy (owed policy d d.phase ++ []) d z) silent
        (owed policy d d.phase, append-nil (owed policy d d.phase), inr refl))
run-Account policy d d' (l ∷ ls) sent e =
    let (next, rest, p, q, out) = first_step policy d d' l ls sent e in
    continued policy d next d' l ls rest sent q out (run-Account policy next d' ls rest q)
      (step-Kept policy d next l p)

-- In every run of the discovery loop what the scheduler gets is, in order and without gaps, a
-- first part of what the fetches are worth: the backends of a fetch that succeeds, and for one
-- that fails the empty list under the policy "setempty" and nothing else; until the loop exits,
-- the rest is just what it is about to send.
pub run-start :
    (policy : Policy) (d : Discovery) (ls : List Label) (sent : List (List Backend))
    → run policy start ls ≡ some (d, sent)
    → Account policy (worths policy ls) d sent
unfolding start
run-start policy d ls sent e = run-Account policy start d ls sent e

no_step : (policy : Policy) (d : Discovery) (l : Label) → d.phase ≡ exited → step policy d l ≡ none
unfolding step move
no_step policy d l h = ground arith

-- With an interval of 0 the loop exits once the backends of a first fetch that succeeds are taken,
-- and from then on it does nothing: it receives no request to stop.
pub run-static :
    (policy : Policy) (bs : List Backend)
    → policy.interval ≡ 0
    → (d : Discovery) × (run policy start (fetch_returns (some bs) ∷ go_on ∷ go_on ∷ taken ∷ [])
        ≡ some (d, bs ∷ []))
      × ((l : Label) → step policy d l ≡ none)
unfolding run start step move judge after at output
run-static policy bs h =
    let d : Discovery = record { backends = bs; phase = exited } in
    (d, rw h refl, λ l. no_step policy d l refl)
