-- ===== src/Manager/Binds/Expand.antt =====
-- `expandBinds` as a whole.
use gobetween.Base.{
  ◌≡◌, refl, sym, subst, ap, ◌∙◌, suc, ◌*◌, String, true, false, ◌&&◌, List, [], ◌∷◌, map, length,
  length-append, is_empty, ◌=s◌, inl, inr, Bool-cases, arith, All,
}
use gobetween.Base.Int.{ℤ}
use gobetween.Base.Dict.{Dict}
use gobetween.Config.{Server}
use gobetween.Manager.Verdict.{
  ok, or_refuse, >>=-eq-ok, refuse_if, refuse_if-ok, binds_exclusive, bind_ips_missing,
  bind_ports_missing, name_template, ok_inj, ◌>>◌, ◌>>=◌,
}
use gobetween.Manager.Binds.{
  itoa, Template, children, child, combinations, has_ips_ports, check_binds, generated,
  template_text, expand_generated, expand_binds, format_bind_address,
}
use gobetween.Manager.Binds.Children.{IsChildOf, IsExpanded, bind_of, children-IsExpanded}

-- What the checks leave: addresses and ports come together.
checked :
    (name : String) (cfg : Server)
    → check_binds name cfg ≡ ok tt
    → ((has_ips_ports cfg && is_empty cfg.bind_ips) ≡ false)
      × ((has_ips_ports cfg && is_empty cfg.bind_ports) ≡ false)
unfolding check_binds
checked name cfg e =
    let (a, _, e1) =
      >>=-eq-ok (refuse_if _ (binds_exclusive name))
        (λ _.
          refuse_if (has_ips_ports cfg && is_empty cfg.bind_ips) (bind_ips_missing name)
          >> refuse_if (has_ips_ports cfg && is_empty cfg.bind_ports) (bind_ports_missing name))
        e in
    let (b, c, e2) =
      >>=-eq-ok (refuse_if (has_ips_ports cfg && is_empty cfg.bind_ips) (bind_ips_missing name))
        (λ _. refuse_if (has_ips_ports cfg && is_empty cfg.bind_ports) (bind_ports_missing name))
        e1 in
    (refuse_if-ok _ _ c, refuse_if-ok _ _ e2)

-- The two steps of an expansion that succeeds.
expanded :
    (parse : Template) (name : String) (cfg : Server) (m : Dict Server)
    → expand_binds parse name cfg ≡ ok m
    → (check_binds name cfg ≡ ok tt) × (expand_generated parse name (generated cfg) ≡ ok m)
unfolding expand_binds
expanded parse name cfg m e =
    let (a, c, e1) =
      >>=-eq-ok (check_binds name cfg) (λ _. expand_generated parse name (generated cfg)) e in
    (c, e1)

length-map : {A : Type 0} {B : Type 0} (f : A → B) (xs : List A) → length (map f xs) ≡ length xs
length-map f [] = refl
length-map f (x ∷ xs) = ap suc (length-map f xs)

length-combinations :
    (ips : List String) (ports : List ℤ)
    → length (combinations ips ports) ≡ length ips * length ports
unfolding combinations
length-combinations [] ports = omega arith
length-combinations (ip ∷ ips) ports = omega (
  arith,
  length-append (map (λ p. format_bind_address ip (itoa p)) ports) (combinations ips ports),
  length-map (λ p. format_bind_address ip (itoa p)) ports,
  length-combinations ips ports,
)

-- Where there are addresses, given or multiplied out, an expansion that succeeds has one child for
-- each of them, in their order and under different names. Each child is the server at an address
-- that can be taken apart, with a discovery that is as it was, or, if match_port is set and it is
-- static, with the port of each line of its list replaced by that of the address, where the first
-- field of the line has a port.
pub expand_binds-IsExpanded :
    (parse : Template) (name : String) (cfg : Server) (m : Dict Server)
    → expand_binds parse name cfg ≡ ok m
    → is_empty (generated cfg).binds ≡ false
    → IsExpanded (generated cfg) (generated cfg).binds m
unfolding expand_generated
expand_binds-IsExpanded parse name cfg m e h =
    let g = generated cfg in
    let (_, e1) = expanded parse name cfg m e in
    let e2 : or_refuse (parse (template_text g)) (name_template name)
          >>= (λ render. children name render g 0 g.binds [])
        ≡ ok m =
      rw (h, expand_generated) at e1 in
    let (render, _, e3) =
      >>=-eq-ok (or_refuse (parse (template_text g)) (name_template name))
        (λ render. children name render g 0 g.binds []) e2 in
    children-IsExpanded name render g 0 g.binds [] [] m
      (record { binds = refl; unique = tt; each = tt }) e3

some_combination :
    (ips : List String) (ports : List ℤ)
    → is_empty ips ≡ false
    → is_empty ports ≡ false
    → is_empty (combinations ips ports) ≡ false
unfolding combinations
some_combination [] ports h k = cc
some_combination (ip ∷ ips) [] h k = cc
some_combination (ip ∷ ips) (p ∷ ports) h k = refl

-- Addresses and ports that pass the checks are multiplied out to at least one bind.
generated_some :
    (name : String) (cfg : Server)
    → check_binds name cfg ≡ ok tt
    → has_ips_ports cfg ≡ true
    → ((generated cfg).binds ≡ combinations cfg.bind_ips cfg.bind_ports)
      × (is_empty (generated cfg).binds ≡ false)
unfolding generated
generated_some name cfg c h =
    let (a, b) = checked name cfg c in
    let given = some_combination cfg.bind_ips cfg.bind_ports (rw h at a) (rw h at b) in
    (rw h refl, rw h given)

-- An expansion of addresses and ports that succeeds has one child for each combination.
pub expand_binds-length :
    (parse : Template) (name : String) (cfg : Server) (m : Dict Server)
    → expand_binds parse name cfg ≡ ok m
    → has_ips_ports cfg ≡ true
    → length m ≡ length cfg.bind_ips * length cfg.bind_ports
expand_binds-length parse name cfg m e h =
    let (same, nonempty) = generated_some name cfg (expanded parse name cfg m e).0 h in
    let p = expand_binds-IsExpanded parse name cfg m e nonempty in
    sym (length-map bind_of m)
    ∙ ap length (p.binds ∙ same)
    ∙ length-combinations cfg.bind_ips cfg.bind_ports

generated_none : (cfg : Server) → has_ips_ports (generated cfg) ≡ false
unfolding generated
generated_none cfg = elim (Bool-cases (has_ips_ports cfg)) [ inl t ↦ rw t refl | inr f ↦ rw f f ]

alone_checked :
    (name : String) (c : Server)
    → is_empty c.binds ≡ true
    → has_ips_ports c ≡ false
    → check_binds name c ≡ ok tt
unfolding check_binds
alone_checked name c b h = elim (Bool-cases (c.bind =s "")) [
  | inl t ↦ rw (t, h, b) refl
  | inr f ↦ rw (f, h, b) refl
]

alone_generated : (c : Server) → has_ips_ports c ≡ false → generated c ≡ c
unfolding generated
alone_generated c h = rw h refl

alone :
    (parse : Template) (name : String) (c : Server)
    → is_empty c.binds ≡ true
    → has_ips_ports c ≡ false
    → expand_binds parse name c ≡ ok ((name, c) ∷ [])
unfolding expand_binds expand_generated
alone parse name c b h =
    ap (λ x. x >> expand_generated parse name (generated c)) (alone_checked name c b h)
    ∙ ap (expand_generated parse name) (alone_generated c h)
    ∙ (rw (b, expand_generated) refl)

abbrev pub IsAlone : Template → (String × Server) → Type 0
IsAlone parse e = expand_binds parse e.0 e.1 ≡ ok (e ∷ [])

children-IsAlone :
    (parse : Template) (g : Server)
    → has_ips_ports g ≡ false
    → (m : Dict Server) → All (IsChildOf g) m
    → All (IsAlone parse) m
unfolding child
children-IsAlone parse g h [] p = tt
children-IsAlone parse g h ((n, c) ∷ m) p = (
  alone parse n c (ap (λ x. is_empty x.binds) p.0.server) (ap has_ips_ports p.0.server ∙ h),
  children-IsAlone parse g h m p.1,
)

-- Without an address there is one configuration, and it is as it was.
unexpanded :
    (parse : Template) (name : String) (cfg : Server) (m : Dict Server)
    → expand_binds parse name cfg ≡ ok m
    → is_empty (generated cfg).binds ≡ true
    → (has_ips_ports cfg ≡ false) × (generated cfg ≡ cfg) × (m ≡ (name, cfg) ∷ [])
unfolding generated expand_generated
unexpanded parse name cfg m e h = elim (Bool-cases (has_ips_ports cfg)) [
  | inl t ↦ absurd (ground (arith, (generated_some name cfg (expanded parse name cfg m e).0 t).1))
  | inr f ↦
      let same : generated cfg ≡ cfg = rw f refl in
      let empty : is_empty cfg.binds ≡ true = subst (λ x. is_empty x.binds ≡ true) same h in
      let last : expand_generated parse name cfg ≡ ok m =
        subst (λ x. expand_generated parse name x ≡ ok m) same (expanded parse name cfg m e).1 in
      (f, same, sym (ok_inj (rw (empty, expand_generated) at last)))
]

-- Each child of an expansion that succeeds is expanded to itself alone.
pub expand_binds_again :
    (parse : Template) (name : String) (cfg : Server) (m : Dict Server)
    → expand_binds parse name cfg ≡ ok m
    → All (IsAlone parse) m
expand_binds_again parse name cfg m e = elim (Bool-cases (is_empty (generated cfg).binds)) [
  | inr f ↦
      children-IsAlone parse (generated cfg) (generated_none cfg) m
        (expand_binds-IsExpanded parse name cfg m e f).each
  | inl t ↦
      let (absent, same, one) = unexpanded parse name cfg m e t in
      subst (All (IsAlone parse)) (sym one)
        (alone parse name cfg (subst (λ x. is_empty x.binds ≡ true) same t) absent, tt)
]
