-- ===== src/Balance/Registry/Sound.antt =====
-- What holds of an election by any balancer, however the middlewares are nested.
use gobetween.Base.{
  ◌≡◌, refl, sym, subst, ◌⊎◌, String, true, false, not, Option, none, some, List, [], ◌∷◌, is_empty,
  arith, inl, inr, Member, Bool-cases, Option-cases, Member-keep, ◌=s◌,
}
use gobetween.Core.{Backend}
use gobetween.Balance.Types.{Env, Context, Outcome, elected}
use gobetween.Balance.Members.{
  leastconn-Member, leastbandwidth-Member, roundrobin-Member, iphash1-Member,
}
use gobetween.Balance.Weight.Members
use gobetween.Balance.Iphash.Range
use gobetween.Config.{Sni}
use gobetween.Balance.Middleware.{
  Selection, delegate, reject, eligible, at_limit, select, matching_backends, match_sni, matched,
  unexpected,
}
use gobetween.Balance.Registry.{
  Balancer, leastconn, weight, iphash, iphash1, leastbandwidth, roundrobin, max_connections,
  with_sni, elect, new, limited, selected, wrap_sni, base,
}

limited-inv :
    (call : List Backend → Outcome × Balancer) (b : Balancer) (bs : List Backend) (e : Backend)
    → (limited call b bs).0 ≡ elected e
    → (call bs).0 ≡ elected e
unfolding limited
limited-inv call b [] e q = cc
limited-inv call b (x ∷ bs) e q = q

selected-inv :
    (call : List Backend → Outcome × Balancer) (b : Balancer) (s : Selection) (e : Backend)
    → (selected call b s).0 ≡ elected e
    → (bs : List Backend) × (s ≡ delegate bs) × ((call bs).0 ≡ elected e)
unfolding selected
selected-inv call b (delegate bs) e q = (bs, refl, q)
selected-inv call b (reject x) e q = cc

-- The backends whose SNI matches a host name.
abbrev pub IsMatch : Env → Sni → String → Backend → Type 0
IsMatch env conf name b = matched (match_sni env conf name b.sni) ≡ true

-- How a backend may come to be elected under a middleware for SNI.
abbrev pub Fits : Env → Sni → Context → List Backend → Backend → Type 0
Fits env conf ctx bs e =
    IsMatch env conf ctx.sni e
    ⊎ ((matching_backends env conf ctx.sni bs ≡ [])
        × (((conf.unexpected_hostname_strategy =s "any") ≡ true)
            ⊎ (((conf.unexpected_hostname_strategy =s "reject") ≡ false)
                × ((ctx.sni =s "") ≡ false)
                × IsMatch env conf "" e)))

matching-Member :
    (env : Env) (conf : Sni) (name : String) (bs : List Backend) (x : Backend)
    → Member x (matching_backends env conf name bs)
    → Member x bs × IsMatch env conf name x
unfolding matching_backends
matching-Member env conf name bs x m =
    Member-keep (λ b. matched (match_sni env conf name b.sni)) x bs m

is_empty-eq : (xs : List Backend) → is_empty xs ≡ true → xs ≡ []
is_empty-eq [] h = refl
is_empty-eq (x ∷ xs) h = cc

unexpected-Fits :
    (env : Env) (conf : Sni) (ctx : Context) (bs cs : List Backend) (x : Backend)
    → matching_backends env conf ctx.sni bs ≡ []
    → unexpected env conf ctx.sni bs ≡ delegate cs
    → Member x cs
    → Member x bs × Fits env conf ctx bs x
unfolding unexpected
unexpected-Fits env conf ctx bs cs x none_found q m =
    elim (Bool-cases (conf.unexpected_hostname_strategy =s "reject")) [
      | inl r ↦ absurd (ground arith)
      | inr r ↦ elim (Bool-cases (conf.unexpected_hostname_strategy =s "any")) [
        | inl a ↦
            let same : bs ≡ cs = ground arith in
            (subst (Member x) (sym same) m, inr (none_found, inl a))
        | inr a ↦ elim (Bool-cases (ctx.sni =s "")) [
          | inl t ↦ let empty : [] ≡ cs = ground arith in absurd (subst (Member x) (sym empty) m)
          | inr t ↦
              let rest : matching_backends env conf "" bs ≡ cs = ground arith in
              let (h, k) = matching-Member env conf "" bs x (subst (Member x) (sym rest) m) in
              (h, inr (none_found, inr (r, t, k)))
        ]
      ]
    ]

-- What the delegate is handed is part of the list, and fits.
pub delegate-Fits :
    (env : Env) (conf : Sni) (ctx : Context) (bs cs : List Backend) (x : Backend)
    → select env conf ctx bs ≡ delegate cs
    → Member x cs
    → Member x bs × Fits env conf ctx bs x
unfolding select
delegate-Fits env conf ctx bs cs x q m =
    elim (Bool-cases (is_empty (matching_backends env conf ctx.sni bs))) [
      | inl t ↦ unexpected-Fits env conf ctx bs cs x (is_empty-eq _ t) (ground arith) m
      | inr f ↦
          let same : matching_backends env conf ctx.sni bs ≡ cs = ground arith in
          let (h, k) = matching-Member env conf ctx.sni bs x (subst (Member x) (sym same) m) in
          (h, inl k)
    ]

pub eligible-Member :
    (x : Backend) (bs : List Backend) → Member x (eligible bs) → Member x bs × (at_limit x ≡ false)
unfolding eligible
eligible-Member x bs m =
    let (h, k) = Member-keep (λ b. not (at_limit b)) x bs m in (h, ground arith)

-- A balancer, of any strategy and with any middlewares, elects none but a backend of the list that
-- it is given.
pub elect-Member :
    (env : Env) (b : Balancer) (ctx : Context) (bs : List Backend) (e : Backend)
    → (elect env b ctx bs).0 ≡ elected e
    → Member e bs
unfolding elect
elect-Member env leastconn ctx bs e q = leastconn-Member bs e q
elect-Member env weight ctx bs e q = Members.elect-Member env bs e q
elect-Member env iphash ctx bs e q = Range.elect-Member ctx bs e q
elect-Member env iphash1 ctx bs e q = iphash1-Member ctx bs e q
elect-Member env leastbandwidth ctx bs e q = leastbandwidth-Member bs e q
elect-Member env (roundrobin current) ctx bs e q = roundrobin-Member current bs e q
elect-Member env (max_connections b) ctx bs e q =
    let m =
      elect-Member env b ctx (eligible bs) e (limited-inv (elect env b ctx) b (eligible bs) e q) in
    (eligible-Member e bs m).0
elect-Member env (with_sni conf b) ctx bs e q =
    let (cs, p, q') = selected-inv (elect env b ctx) b (select env conf ctx bs) e q in
    (delegate-Fits env conf ctx bs cs e p (elect-Member env b ctx cs e q')).0

-- A middleware for connection limits stands somewhere in the balancer.
abbrev pub HasLimit : Balancer → Type 0
HasLimit (max_connections b) = Unit {0}
HasLimit (with_sni conf b) = HasLimit b
HasLimit _ = ⊥

-- A balancer that has the middleware for limits of connections elects no backend that is at its
-- limit.
pub elect-at_limit :
    (env : Env) (b : Balancer) (ctx : Context) (bs : List Backend) (e : Backend)
    → HasLimit b
    → (elect env b ctx bs).0 ≡ elected e
    → at_limit e ≡ false
unfolding elect
elect-at_limit env leastconn ctx bs e h q = absurd h
elect-at_limit env weight ctx bs e h q = absurd h
elect-at_limit env iphash ctx bs e h q = absurd h
elect-at_limit env iphash1 ctx bs e h q = absurd h
elect-at_limit env leastbandwidth ctx bs e h q = absurd h
elect-at_limit env (roundrobin current) ctx bs e h q = absurd h
elect-at_limit env (max_connections b) ctx bs e h q =
    let m =
      elect-Member env b ctx (eligible bs) e (limited-inv (elect env b ctx) b (eligible bs) e q) in
    (eligible-Member e bs m).1
elect-at_limit env (with_sni conf b) ctx bs e h q =
    let (cs, p, q') = selected-inv (elect env b ctx) b (select env conf ctx bs) e q in
    elect-at_limit env b ctx cs e h q'

wrapped-HasLimit : (conf : Option Sni) (b : Balancer) → HasLimit (wrap_sni conf (max_connections b))
unfolding wrap_sni
wrapped-HasLimit none b = tt
wrapped-HasLimit (some c) b = tt

-- Every balancer that the registry makes has the middleware for limits of connections, outermost
-- or right under the one for SNI.
pub new-HasLimit :
    (conf : Option Sni) (name : String) (b : Balancer) → new conf name ≡ some b → HasLimit b
unfolding new
new-HasLimit conf name b q = elim (Option-cases (base name)) [
  | inl p ↦ absurd (ground arith)
  | inr (a, p) ↦
      let same : wrap_sni conf (max_connections a) ≡ b = ground arith in
      subst HasLimit same (wrapped-HasLimit conf a)
]

pub HasLimit-elect :
    (env : Env) (b : Balancer) (ctx : Context) (bs : List Backend)
    → HasLimit b
    → HasLimit (elect env b ctx bs).1
unfolding elect
HasLimit-elect env leastconn ctx bs h = h
HasLimit-elect env weight ctx bs h = h
HasLimit-elect env iphash ctx bs h = h
HasLimit-elect env iphash1 ctx bs h = h
HasLimit-elect env leastbandwidth ctx bs h = h
HasLimit-elect env (roundrobin current) ctx bs h = h
HasLimit-elect env (max_connections b) ctx bs h = tt
HasLimit-elect env (with_sni conf b) ctx bs h =
    kept (select env conf ctx bs) (λ cs. HasLimit-elect env b ctx cs h)
  where
    kept :
        (s : Selection)
        → ((cs : List Backend) → HasLimit (elect env b ctx cs).1)
        → HasLimit (selected (elect env b ctx) b s).1
    kept (delegate cs) rest = rest cs
    kept (reject e) rest = h

-- Under the middleware for SNI an elected backend matches the host name that was asked for; or
-- nothing on the list matches, and the strategy is "any", or it is not "reject", the name is not
-- empty, and the backend matches the empty name.
pub elect-Fits :
    (env : Env) (conf : Sni) (b : Balancer) (ctx : Context) (bs : List Backend) (e : Backend)
    → (elect env (with_sni conf b) ctx bs).0 ≡ elected e
    → Fits env conf ctx bs e
unfolding elect
elect-Fits env conf b ctx bs e q =
    let (cs, p, q') = selected-inv (elect env b ctx) b (select env conf ctx bs) e q in
    (delegate-Fits env conf ctx bs cs e p (elect-Member env b ctx cs e q')).1
