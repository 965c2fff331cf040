-- ===== src/Balance/Roundrobin/Cycle.antt =====
-- Round robin over a pool that does not change.
use Prim.Native.Nat.add
use mathlib.Core.List.{Perm, map-append, perm_append_comm}
use mathlib.Core.List.Perm
use mathlib.Core.Path.{ap₂, subst₂}
use native.Mathlib.Decide.{dec_le}
use gobetween.Base.{
  ℕ, zero, suc, ◌+◌, ◌≤◌, ◌≡◌, refl, sym, ap, ◌∙◌, subst, List, [], ◌∷◌, ◌++◌, length, arith, map,
  leb, get_elem?, some, append_assoc, length-append, append-nil, false,
}
use gobetween.Core.{Backend}
use gobetween.Balance.Types.{Outcome, elected}
use gobetween.Balance.Roundrobin.{elect, sort_stable, index, wrapped}
use gobetween.Balance.Roundrobin.Sorting.{length-sort_stable, sort_stable-perm}

-- The outcomes of n elections in a row, and the position after them.
pub elections : ℕ → ℕ → List Backend → List Outcome × ℕ
elections zero current bs = ([], current)
elections (suc n) current bs =
    let (o, next) = elect current bs in let (os, last) = elections n next bs in (o ∷ os, last)

get_elem?-append :
    (done rest : List Backend) (x : Backend) → get_elem? (done ++ x ∷ rest) (length done) ≡ some x
get_elem?-append [] rest x = refl
get_elem?-append (d ∷ done) rest x = get_elem?-append done rest x

index_lem :
    (bs : List Backend) (i : ℕ) (x : Backend) → get_elem? bs i ≡ some x → index bs i ≡ elected x
index_lem bs i x e = ground arith

-- One election at a position within the pool.
elect_at :
    (bs done rest : List Backend) (x : Backend)
    → sort_stable bs ≡ done ++ x ∷ rest
    → elect (length done) bs ≡ (elected x, length done + 1)
unfolding elect
elect_at [] [] rest x e = cc
elect_at [] (d ∷ done) rest x e = cc
elect_at (b ∷ bs) done rest x e =
    let here = get_elem?-append done rest x in
    let size = length-append done (x ∷ rest) in
    let within : leb (length (done ++ x ∷ rest)) (length done) ≡ false = ground arith in
    rw (e, within)
      (ap (λ o. (o, length done + 1)) (index_lem (done ++ x ∷ rest) (length done) x here))

-- A run of elections that does not reach the end of the pool.
run_lem :
    (mid bs done rest : List Backend) (c : ℕ)
    → sort_stable bs ≡ done ++ (mid ++ rest)
    → c ≡ length done
    → ((elections (length mid) c bs).0 ≡ map elected mid)
      × ((elections (length mid) c bs).1 ≡ c + length mid)
unfolding elections
run_lem [] bs done rest c e p = (refl, omega arith)
run_lem (x ∷ mid) bs done rest c e p =
    let one : elect c bs ≡ (elected x, c + 1) = rw p (elect_at bs done (mid ++ rest) x e) in
    let more =
      run_lem mid bs (done ++ x ∷ []) rest (c + 1)
        (e ∙ sym (append_assoc done (x ∷ []) (mid ++ rest)))
        (omega (arith, length-append done (x ∷ []))) in
    (
      rw one (ap (◌∷◌ (elected x)) more.0),
      subst (λ (p : Outcome × ℕ). (elections (length mid) p.1 bs).1 ≡ c + suc (length mid))
          (sym one) (omega (arith, more.1)),
    )

elections-add :
    (m n c : ℕ) (bs : List Backend)
    → (elections (m + n) c bs).0 ≡ (elections m c bs).0 ++ (elections n (elections m c bs).1 bs).0
unfolding elections
elections-add zero n c bs = rw add.zero
elections-add (suc m) n c bs =
    rw add.suc (ap (◌∷◌ (elect c bs).0) (elections-add m n (elect c bs).1 bs))

wrapped_past : (c n : ℕ) → n ≤ c → wrapped c n ≡ wrapped 0 n
wrapped_past c n h = ground arith

-- At or past the end of the pool an election starts over.
elect_past :
    (b : Backend) (bs : List Backend) (c : ℕ)
    → length (b ∷ bs) ≤ c
    → elect c (b ∷ bs) ≡ elect 0 (b ∷ bs)
unfolding elect
elect_past b bs c h =
    let sorted = sort_stable (b ∷ bs) in
    ap (λ i. (index sorted i, i + 1))
      (wrapped_past c (length sorted) (omega (arith, length-sort_stable (b ∷ bs))))

elections_past :
    (n : ℕ) (b : Backend) (bs : List Backend) (c : ℕ)
    → length (b ∷ bs) ≤ c
    → (elections n c (b ∷ bs)).0 ≡ (elections n 0 (b ∷ bs)).0
unfolding elections
elections_past zero b bs c h = refl
elections_past (suc n) b bs c h = rw (elect_past b bs c h)

split_at :
    (xs : List Backend) (c : ℕ)
    → c ≤ length xs
    → (done : List Backend) × (rest : List Backend) × (xs ≡ done ++ rest) × (c ≡ length done)
split_at xs zero h = ([], xs, refl, refl)
split_at [] (suc c) h = elim h [ ]
split_at (x ∷ xs) (suc c) h =
    let (done, rest, e, p) = split_at xs c (omega arith) in (x ∷ done, rest, ap (◌∷◌ x) e, ap suc p)

-- From any position within the pool, as many elections as the pool has backends elect a rotation.
rotation :
    (b : Backend) (bs done rest : List Backend)
    → sort_stable (b ∷ bs) ≡ done ++ rest
    → (elections (length rest + length done) (length done) (b ∷ bs)).0 ≡ map elected (rest ++ done)
rotation b bs done rest e =
    let whole = e ∙ ap (◌++◌ done) (sym (append-nil rest)) in
    let tail = run_lem rest (b ∷ bs) done [] (length done) whole refl in
    let head = run_lem done (b ∷ bs) [] rest 0 e refl in
    let last = (elections (length rest) (length done) (b ∷ bs)).1 in
    let size = ap length e ∙ length-append done rest in
    let over =
      elections_past (length done) b bs last
        (omega (arith, tail.1, size, length-sort_stable (b ∷ bs))) in
    elections-add (length rest) (length done) (length done) (b ∷ bs)
    ∙ ap₂ ◌++◌ tail.0 (over ∙ head.0)
    ∙ sym (map-append elected rest done)

within :
    (b : Backend) (bs : List Backend) (current : ℕ)
    → current ≤ length (b ∷ bs)
    → (order : List Backend) × Perm order (b ∷ bs)
      × ((elections (length (b ∷ bs)) current (b ∷ bs)).0 ≡ map elected order)
within b bs current h =
    let (done, rest, e, p) =
      split_at (sort_stable (b ∷ bs)) current (omega (arith, length-sort_stable (b ∷ bs))) in
    let size = ap length e ∙ length-append done rest in
    let n : length (b ∷ bs) ≡ length rest + length done =
      omega (arith, size, length-sort_stable (b ∷ bs)) in
    let sorted = subst (λ xs. Perm xs (b ∷ bs)) e (sort_stable-perm (b ∷ bs)) in
    (
      rest ++ done,
      Perm.trans (perm_append_comm rest done) sorted,
      subst₂ (λ k c. (elections k c (b ∷ bs)).0 ≡ map elected (rest ++ done)) (sym n) (sym p)
          (rotation b bs done rest e),
    )

-- Any run of as many elections as the pool has backends, from any position, elects each backend
-- exactly as often as it is listed.
pub elections-perm :
    (b : Backend) (bs : List Backend) (current : ℕ)
    → (order : List Backend) × Perm order (b ∷ bs)
      × ((elections (length (b ∷ bs)) current (b ∷ bs)).0 ≡ map elected order)
elections-perm b bs current = elim (dec_le current (length (b ∷ bs))) [
  | yes h ↦ within b bs current h
  | no h ↦
      let (order, p, e) = within b bs 0 (omega arith) in
      (order, p, elections_past (length (b ∷ bs)) b bs current (omega arith) ∙ e)
]
