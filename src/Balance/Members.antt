-- ===== src/Balance/Members.antt =====
-- Whatever a strategy elects was on its list; for each of the six, with no condition on the list.
use gobetween.Base.{
  ℕ, ◌≡◌, sym, ◌∙◌, subst, List, [], ◌∷◌, ◌++◌, inl, inr, Member, Member-append_right,
}
use gobetween.Core.{Backend}
use gobetween.Balance.Types.{Context, elected}
use gobetween.Balance.Leastconn
use gobetween.Balance.Roundrobin
use gobetween.Balance.Roundrobin.{index}
use gobetween.Balance.Roundrobin.Sorting.{Member-sort_stable, index-Member}
use gobetween.Balance.Iphash
use gobetween.Balance.Iphash.Stable.{elect1-cases}

elected_inj : (a b : Backend) → elected a ≡ elected b → a ≡ b
elected_inj a b e = cc

split-Member :
    (bs before after : List Backend) (a e : Backend)
    → bs ≡ before ++ a ∷ after
    → elected a ≡ elected e
    → Member e bs
split-Member bs before after a e p q =
    subst (Member e) (sym p)
      (Member-append_right e before (a ∷ after) (inl (sym (elected_inj a e q))))

pub leastconn-Member :
    (bs : List Backend) (e : Backend) → Leastconn.elect bs ≡ elected e → Member e bs
unfolding Leastconn.elect
leastconn-Member [] e q = cc
leastconn-Member (b ∷ bs) e q =
    let (a, p, (before, after, r, _, _)) = Leastconn.elect-IsFound b bs in
    split-Member (b ∷ bs) before after a e r (sym p ∙ q)

pub leastbandwidth-Member :
    (bs : List Backend) (e : Backend) → Leastconn.elect_bandwidth bs ≡ elected e → Member e bs
unfolding Leastconn.elect_bandwidth
leastbandwidth-Member [] e q = cc
leastbandwidth-Member (b ∷ bs) e q =
    let (a, p, (before, after, r, _, _)) = Leastconn.elect_bandwidth-IsFound b bs in
    split-Member (b ∷ bs) before after a e r (sym p ∙ q)

pub roundrobin-Member :
    (current : ℕ) (bs : List Backend) (e : Backend)
    → (Roundrobin.elect current bs).0 ≡ elected e
    → Member e bs
unfolding Roundrobin.elect
roundrobin-Member current [] e q = cc
roundrobin-Member current (b ∷ bs) e q =
    Member-sort_stable e (b ∷ bs) (index-Member (Roundrobin.sort_stable (b ∷ bs)) _ e q)

pub iphash1-Member :
    (ctx : Context) (bs : List Backend) (e : Backend)
    → Iphash.elect1 ctx bs ≡ elected e
    → Member e bs
unfolding Iphash.elect1
iphash1-Member ctx [] e q = cc
iphash1-Member ctx (b ∷ bs) e q = elim (elect1-cases ctx b bs) [
  | inl (p, _) ↦ absurd (cc)
  | inr (a, p, (before, after, r, _, _)) ↦ split-Member (b ∷ bs) before after a e r (sym p ∙ q)
]
