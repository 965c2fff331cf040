-- ===== src/Balance/Roundrobin/Sorting.antt =====
-- The stable sort keeps every backend, once for each time that it is listed.
use mathlib.Core.List.{Perm}
use mathlib.Core.List.Perm
use gobetween.Base.{
  ℕ, suc, ◌≡◌, refl, inl, inr, List, [], ◌∷◌, length, arith, Bool-cases, Member, get_elem?,
  get_elem?-Member, Option-cases,
}
use gobetween.Core.{Backend}
use gobetween.Balance.Types.{elected}
use gobetween.Balance.Roundrobin.{before, insert, sort_stable, index}

insert-perm : (a : Backend) (bs : List Backend) → Perm (insert a bs) (a ∷ bs)
unfolding insert
insert-perm a [] = Perm.refl (a ∷ [])
insert-perm a (b ∷ bs) = elim (Bool-cases (before b a)) [
  | inl t ↦ rw t (Perm.trans (Perm.cons b (insert-perm a bs)) (Perm.swap a b bs))
  | inr f ↦ rw f (Perm.refl (a ∷ b ∷ bs))
]

pub sort_stable-perm : (bs : List Backend) → Perm (sort_stable bs) bs
unfolding sort_stable
sort_stable-perm [] = Perm.refl []
sort_stable-perm (b ∷ bs) =
    Perm.trans (insert-perm b (sort_stable bs)) (Perm.cons b (sort_stable-perm bs))

length-insert : (a : Backend) (bs : List Backend) → length (insert a bs) ≡ suc (length bs)
unfolding insert
length-insert a [] = refl
length-insert a (b ∷ bs) = ground (arith, length-insert a bs)

pub length-sort_stable : (bs : List Backend) → length (sort_stable bs) ≡ length bs
unfolding sort_stable
length-sort_stable [] = refl
length-sort_stable (b ∷ bs) = omega (arith, length-insert b (sort_stable bs), length-sort_stable bs)

Member-insert : (x a : Backend) (bs : List Backend) → Member x (insert a bs) → Member x (a ∷ bs)
unfolding insert
Member-insert x a [] m = m
Member-insert x a (b ∷ bs) m = elim (Bool-cases (before b a)) [
  | inl t ↦ moved (Member-insert x a bs) (rw t at m)
  | inr f ↦ rw f at m
]
  where
    moved :
        (Member x (insert a bs) → Member x (a ∷ bs))
        → Member x (b ∷ insert a bs)
        → Member x (a ∷ b ∷ bs)
    moved rest (inl e) = inr (inl e)
    moved rest (inr k) = elim (rest k) [ inl e ↦ inl e | inr h ↦ inr (inr h) ]

pub Member-sort_stable : (x : Backend) (bs : List Backend) → Member x (sort_stable bs) → Member x bs
unfolding sort_stable
Member-sort_stable x [] m = m
Member-sort_stable x (b ∷ bs) m = elim (Member-insert x b (sort_stable bs) m) [
  | inl e ↦ inl e
  | inr h ↦ inr (Member-sort_stable x bs h)
]

pub index-Member : (bs : List Backend) (i : ℕ) (e : Backend) → index bs i ≡ elected e → Member e bs
index-Member bs i e q = elim (Option-cases (get_elem? bs i)) [
  | inl p ↦ absurd (ground arith)
  | inr (a, p) ↦ get_elem?-Member bs i (ground arith)
]
