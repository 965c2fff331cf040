-- ===== src/Manager/Binds/Children.antt =====
-- The children that `expandBinds` makes.
use gobetween.Base.{
  if◌then◌else◌, Bool, ◌≡◌, refl, sym, subst, ap, ◌∙◌, ℕ, suc, String, Option, none, some, List, [],
  ◌∷◌, ◌++◌, map, append_assoc, append-nil, is_some, arith, All, true, false, ◌⊎◌, inl, inr, ◌=s◌,
  Bool-cases, Option-cases,
}
use gobetween.Base.Dict.{Dict, find, set, IsUnique, set-absent, set-IsUnique}
use gobetween.Base.Address.{split_host_port, join_host_port, fields, join_spaces}
use gobetween.Config.{Server, DiscoveryConfig, StaticDiscoveryConfig}
use gobetween.Manager.Verdict.{
  ok_inj, is_some-refused, or_refuse-ok, ok, or_refuse, >>=-eq-ok, duplicate_name, refuse_if,
  bind_address,
}
use gobetween.Manager.Binds.{
  child_name, BindNameData, add_child, children, child, rewrite_entry, rewrite_first,
  rewrite_static, rewrite_static_list_ports, with_port,
}

-- A line of a list of backends, before and after its port is replaced: the first of its fields, where
-- it can be taken apart, has the new port, and the others are as they were.
abbrev pub IsRewritten : String → String → String → Type 0
IsRewritten port before after =
    (fields before ≡ []) × (after ≡ join_spaces [])
    ⊎ (w : String) × (ws : List String) × (fields before ≡ w ∷ ws)
      × ((split_host_port w ≡ none) × (after ≡ join_spaces (w ∷ ws))
          ⊎ (q : String × String) × (split_host_port w ≡ some q)
            × (after ≡ join_spaces (join_host_port q.0 port ∷ ws)))

-- A discovery whose ports stay: it is not asked for, or there is no static list.
abbrev pub IsKept : Server → Type 0
IsKept cfg =
    (cfg.match_port ≡ false)
    ⊎ ((cfg.discovery ≡ none)
        ⊎ (d : DiscoveryConfig) × (cfg.discovery ≡ some d)
          × (((d.kind =s "static") ≡ false) ⊎ (d.static ≡ none)))

-- The lines of a list of backends after their ports are replaced, one by one.
abbrev pub RewrittenLines : String → List String → List String → Type 0
RewrittenLines port [] lines = lines ≡ []
RewrittenLines port (x ∷ xs) [] = ⊥
RewrittenLines port (x ∷ xs) (y ∷ ys) = IsRewritten port x y × RewrittenLines port xs ys

-- The discovery of a child: as it was, or with the ports of its static list replaced.
abbrev pub HasPorts : Server → String → Option DiscoveryConfig → Type 0
HasPorts cfg port d =
    IsKept cfg × (d ≡ cfg.discovery)
    ⊎ (cfg.match_port ≡ true)
      × (before : DiscoveryConfig) × (section : StaticDiscoveryConfig) × (lines : List String)
      × (cfg.discovery ≡ some before)
      × ((before.kind =s "static") ≡ true)
      × (before.static ≡ some section)
      × RewrittenLines port section.static_list lines
      × (d ≡ some (record before { static = some (record section { static_list = lines }) }))

-- A child: the server at one address that can be taken apart.
pub record IsChild (cfg c : Server) : Type 0 where
  pub host : String
  pub port : String
  pub located : split_host_port c.bind ≡ some (host, port)
  pub server : c ≡ record cfg { bind = c.bind; binds = []; discovery = c.discovery }
  pub ports : HasPorts cfg port c.discovery

with_port-none : (port w : String) → split_host_port w ≡ none → with_port port w ≡ w
unfolding with_port
with_port-none port w n = rw (n, with_port) refl

with_port-some :
    (port w : String) (q : String × String)
    → split_host_port w ≡ some q
    → with_port port w ≡ join_host_port q.0 port
unfolding with_port
with_port-some port w q h = rw (h, with_port) refl

rewrite_entry-IsRewritten :
    (port entry : String) → IsRewritten port entry (rewrite_entry port entry)
unfolding rewrite_entry rewrite_first with_port
rewrite_entry-IsRewritten port entry = at (fields entry) refl
  where
    at : (ws : List String) → fields entry ≡ ws → IsRewritten port entry (rewrite_entry port entry)
    at [] e = inl (e, ap (λ l. join_spaces (rewrite_first port l)) e)
    at (w ∷ ws) e = elim (Option-cases (split_host_port w)) [
      | inl n ↦
          inr
            (w, ws, e, inl (n, whole e ∙ ap (λ x. join_spaces (x ∷ ws)) (with_port-none port w n)))
      | inr (q, h) ↦ inr (
        w,
        ws,
        e,
        inr (q, h, whole e ∙ ap (λ x. join_spaces (x ∷ ws)) (with_port-some port w q h)),
      )
    ]
      where
        whole :
            fields entry ≡ w ∷ ws → rewrite_entry port entry ≡ join_spaces (with_port port w ∷ ws)
        whole e = ap (λ l. join_spaces (rewrite_first port l)) e

map-RewrittenLines :
    (port : String) (xs : List String) → RewrittenLines port xs (map (rewrite_entry port) xs)
map-RewrittenLines port [] = refl
map-RewrittenLines port (x ∷ xs) = (rewrite_entry-IsRewritten port x, map-RewrittenLines port xs)

rewrite_static-HasPorts :
    (cfg : Server) (port : String) (d : DiscoveryConfig)
    → cfg.match_port ≡ true
    → cfg.discovery ≡ some d
    → HasPorts cfg port (rewrite_static_list_ports (some d) port)
unfolding rewrite_static_list_ports rewrite_static
rewrite_static-HasPorts cfg port d t e = elim (Bool-cases (d.kind =s "static")) [
  | inr f ↦ inl (
    inr (inr (d, e, inl f)),
    ap (λ b. if b then some (rewrite_static port d) else some d) f ∙ sym e,
  )
  | inl g ↦ elim (Option-cases d.static) [
    | inl n ↦ inl (
      inr (inr (d, e, inr n)),
      ap (λ b. if b then some (rewrite_static port d) else some d) g ∙ ap some (unlisted n) ∙ sym e,
    )
    | inr (section, n) ↦ inr (
      t,
      d,
      section,
      map (rewrite_entry port) section.static_list,
      e,
      g,
      n,
      map-RewrittenLines port section.static_list,
      ap (λ b. if b then some (rewrite_static port d) else some d) g ∙ ap some (listed section n),
    )
  ]
]
  where
    on_section : Option StaticDiscoveryConfig → DiscoveryConfig
    on_section o = elim o [
      | none ↦ d
      | some s ↦ record d {
        static = some (record s { static_list = map (rewrite_entry port) s.static_list });
      }
    ]

    unlisted : d.static ≡ none → rewrite_static port d ≡ d
    unlisted n = ap on_section n

    listed :
        (section : StaticDiscoveryConfig)
        → d.static ≡ some section
        → rewrite_static port d ≡ on_section (some section)
    listed section n = ap on_section n

child-HasPorts :
    (cfg : Server) (addr port : String) → HasPorts cfg port (child cfg addr port).discovery
unfolding child rewrite_static_list_ports
child-HasPorts cfg addr port = elim (Bool-cases cfg.match_port) [
  | inr f ↦ inl (inl f, chosen f)
  | inl t ↦ elim (Option-cases cfg.discovery) [
    | inl n ↦ inl (inr (inl n), chosen t ∙ ap (λ x. rewrite_static_list_ports x port) n ∙ sym n)
    | inr (d, e) ↦
        subst (HasPorts cfg port) (sym (chosen t ∙ ap (λ x. rewrite_static_list_ports x port) e))
          (rewrite_static-HasPorts cfg port d t e)
  ]
]
  where
    chosen :
        {b : Bool}
        → cfg.match_port ≡ b
        → (child cfg addr port).discovery
          ≡ (if b then rewrite_static_list_ports cfg.discovery port else cfg.discovery)
    chosen e = ap (λ b. if b then rewrite_static_list_ports cfg.discovery port else cfg.discovery) e

abbrev pub IsChildOf : Server → (String × Server) → Type 0
IsChildOf cfg e = IsChild cfg e.1

abbrev pub bind_of : String × Server → String
bind_of e = e.1.bind

pub All-append :
    (cfg : Server) (xs : Dict Server) (e : String × Server)
    → All (IsChildOf cfg) xs
    → IsChildOf cfg e
    → All (IsChildOf cfg) (xs ++ (e ∷ []))
All-append cfg [] e h p = (p, tt)
All-append cfg (x ∷ xs) e h p = (h.0, All-append cfg xs e h.1 p)

-- What the loop keeps, for the addresses that it has been through.
pub record IsExpanded (cfg : Server) (addrs : List String) (m : Dict Server) : Type 0 where
  pub binds : map bind_of m ≡ addrs
  pub unique : IsUnique m
  pub each : All (IsChildOf cfg) m

map-snoc :
    (xs : Dict Server) (e : String × Server)
    → map bind_of (xs ++ (e ∷ [])) ≡ map bind_of xs ++ (bind_of e ∷ [])
map-snoc [] e = refl
map-snoc (x ∷ xs) e = ap (λ l. bind_of x ∷ l) (map-snoc xs e)

pub add_child-IsExpanded :
    (name : String) (render : BindNameData → Option String) (cfg : Server) (i : ℕ) (addr : String)
    (addrs : List String) (m m' : Dict Server)
    → IsExpanded cfg addrs m
    → add_child name render cfg i addr m ≡ ok m'
    → IsExpanded cfg (addrs ++ (addr ∷ [])) m'
unfolding add_child child
add_child-IsExpanded name render cfg i addr addrs m m' p e =
    let (q, a, e1) = >>=-eq-ok (or_refuse (split_host_port addr) (bind_address addr)) _ e in
    let n = child_name name render i q.0 q.1 in
    let (b, c, e2) =
      >>=-eq-ok (refuse_if (is_some (find n m)) (duplicate_name n))
        (λ _. ok (set n (child cfg addr q.1) m)) e1 in
    let split : split_host_port addr ≡ some q = or_refuse-ok _ _ a in
    let absent : find n m ≡ none = is_some-refused _ _ c in
    let next : m ++ ((n, child cfg addr q.1) ∷ []) ≡ m' =
      sym (set-absent n _ m absent) ∙ ok_inj e2 in
    subst (IsExpanded cfg (addrs ++ (addr ∷ []))) next (record {
      binds = map-snoc m (n, child cfg addr q.1) ∙ ap (λ l. l ++ (addr ∷ [])) p.binds;
      unique = subst IsUnique (set-absent n _ m absent) (set-IsUnique n _ m p.unique);
      each = All-append cfg m _ p.each (record {
        host = q.0;
        port = q.1;
        located = split;
        server = refl;
        ports = child-HasPorts cfg addr q.1;
      });
    })

pub children-IsExpanded :
    (name : String) (render : BindNameData → Option String) (cfg : Server) (i : ℕ)
    (rest addrs : List String) (m m' : Dict Server)
    → IsExpanded cfg addrs m
    → children name render cfg i rest m ≡ ok m'
    → IsExpanded cfg (addrs ++ rest) m'
unfolding children
children-IsExpanded name render cfg i [] addrs m m' p e =
    let same : m ≡ m' = ground arith in
    subst (IsExpanded cfg (addrs ++ [])) same (rw (append-nil addrs) p)
children-IsExpanded name render cfg i (addr ∷ rest) addrs m m' p e =
    let (n, a, e1) = >>=-eq-ok (add_child name render cfg i addr m) _ e in
    subst (λ l. IsExpanded cfg l m') (append_assoc addrs (addr ∷ []) rest)
      (children-IsExpanded name render cfg (suc i) rest (addrs ++ (addr ∷ [])) n m'
        (add_child-IsExpanded name render cfg i addr addrs m n p a) e1)
