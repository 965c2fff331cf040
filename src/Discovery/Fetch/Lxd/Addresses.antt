-- ===== src/Discovery/Fetch/Lxd/Addresses.antt =====
-- Which containers become backends, and their hosts.
use Prim.Native.Char.{Char}
use Prim.Native.String.{◌++◌}
use Prim.Native.String.compare.{cons-nil}
use text.Mathlib.Text.{is_eq}
use gobetween.Base.{
  All, ◌⊎◌, Bool-cases, Option-cases, ◌∙◌, sym, ap, if◌then◌else◌, ◌++◌ as ◌+++◌, String, true,
  false, Option, some, List, [], ◌∷◌, none, ◌=s◌, ◌≡◌, refl, inl, inr, subst, Member,
}
use gobetween.Base.Int.{pos}
use gobetween.Base.Dict.{Dict, find}
use gobetween.Core.{Backend}
use gobetween.Discovery.Fetch.Lines.{fetched_backend}
use gobetween.Discovery.Fetch.Lxd.{
  first_address, setting, port_text, address_in, Address, with_backend, backends_of, is_wanted,
  formatted, determine_container_ip, backend_of, LxdOptions, Container,
}

Member-with_backend :
    (x : Option Backend) (b : Backend) (bs : List Backend)
    → Member b bs
    → Member b (with_backend x bs)
unfolding with_backend
Member-with_backend none b bs m = m
Member-with_backend (some c) b bs m = inr m

Member-backends_of :
    (o : LxdOptions) (cs : List Container) (c : Container) (b : Backend)
    → Member c cs
    → backend_of o c ≡ some b
    → Member b (backends_of o cs)
unfolding backends_of
Member-backends_of o [] c b m e = absurd m
Member-backends_of o (d ∷ cs) c b (inl q) e =
    rw (subst (λ x. backend_of o x ≡ some b) q e) (inl refl)
Member-backends_of o (d ∷ cs) c b (inr m) e =
    Member-with_backend (backend_of o d) b (backends_of o cs) (Member-backends_of o cs c b m e)

-- The address of a family on a list: that of the first entry of the family, or none, which is "".
abbrev pub IsFirst : String → List Address → String → Type 0
IsFirst family addresses ip =
    All (λ b. b.family =s family ≡ false) addresses × (ip ≡ "")
    ⊎ (before : List Address) × (a : Address) × (after : List Address) × (addresses
        ≡ before +++ (a ∷ after))
      × All (λ b. b.family =s family ≡ false) before
      × (a.family =s family ≡ true)
      × (ip ≡ a.ip)

-- The same on an interface, which there may not be.
abbrev pub IsAddressOn : Dict (List Address) → String → String → String → Type 0
IsAddressOn networks iface family ip =
    (find iface networks ≡ none) × (ip ≡ "")
    ⊎ (addresses : List Address) × (find iface networks ≡ some addresses)
      × IsFirst family addresses ip

first_address-skip :
    (family : String) (a : Address) (rest : List Address)
    → a.family =s family ≡ false
    → first_address family (a ∷ rest) ≡ first_address family rest
unfolding first_address
first_address-skip family a rest f = ap (λ b. if b then a.ip else first_address family rest) f

first_address-IsFirst :
    (family : String) (addresses : List Address)
    → IsFirst family addresses (first_address family addresses)
unfolding first_address
first_address-IsFirst family [] = inl (tt, refl)
first_address-IsFirst family (a ∷ rest) = elim (Bool-cases (a.family =s family)) [
  | inl t ↦
      inr ([], a, rest, refl, tt, t, ap (λ b. if b then a.ip else first_address family rest) t)
  | inr f ↦ elim (first_address-IsFirst family rest) [
    | inr (before, x, after, e, h, k, q) ↦
        inr (
          a ∷ before,
          x,
          after,
          ap (λ l. a ∷ l) e,
          (f, h),
          k,
          first_address-skip family a rest f ∙ q,
        )
    | inl (h, q) ↦ inl ((f, h), first_address-skip family a rest f ∙ q)
  ]
]

address_in-IsAddressOn :
    (networks : Dict (List Address)) (iface family : String)
    → IsAddressOn networks iface family (address_in family (find iface networks))
unfolding address_in
address_in-IsAddressOn networks iface family = elim (Option-cases (find iface networks)) [
  | inl n ↦ inl (n, ap (address_in family) n)
  | inr (addresses, e) ↦ inr (
    addresses,
    e,
    subst (IsFirst family addresses) (sym (ap (address_in family) e))
        (first_address-IsFirst family addresses),
  )
]

filled_text : (c : Char) (s : String) → String.◌∷◌ c s =s "" ≡ false
filled_text c s = λ i. is_eq (cons-nil c s i)

formatted-inet6 : (ip : String) → formatted "inet6" ip ≡ some (String.◌∷◌ "[" (ip ++ "]"))
unfolding formatted
formatted-inet6 ip = rw (filled_text "[" (ip ++ "]"))

determine_container_ip-inet6 :
    (iface : String) (networks : Dict (List Address))
    → determine_container_ip (some networks) iface "IPv6"
      ≡ some (String.◌∷◌ "[" (address_in "inet6" (find iface networks) ++ "]"))
unfolding determine_container_ip
determine_container_ip-inet6 iface networks =
    formatted-inet6 (address_in "inet6" (find iface networks))

module _ (o : LxdOptions) (c : Container) where
  abbrev backend_at : String → Backend
  backend_at ip =
      fetched_backend ip (port_text o c) (pos 1) (pos 1) (pos 0) (setting o.sni_key "" c.config)

  abbrev interface_of : String
  interface_of = setting o.interface_key o.interface c.config

  backend_of-wanted :
      (ip : String)
      → is_wanted o c ≡ true
      → port_text o c =s "" ≡ false
      → determine_container_ip c.networks interface_of o.address_type ≡ some ip
      → backend_of o c ≡ some (backend_at ip)
  unfolding backend_of
  backend_of-wanted ip w p e = rw (w, p, e)

  -- With addresses of the type IPv6, each container that is running, has a fitting label, a port
  -- and a state is listed, under the first address of that family on its interface, in brackets;
  -- if it has none there, under an empty address in brackets.
  pub ipv6-listed :
      (cs : List Container) (networks : Dict (List Address))
      → Member c cs
      → is_wanted o c ≡ true
      → port_text o c =s "" ≡ false
      → o.address_type ≡ "IPv6"
      → c.networks ≡ some networks
      → (ip : String) × IsAddressOn networks interface_of "inet6" ip
        × Member (backend_at (String.◌∷◌ "[" (ip ++ "]"))) (backends_of o cs)
  ipv6-listed cs networks m w p t n = (
    address_in "inet6" (find interface_of networks),
    address_in-IsAddressOn networks interface_of "inet6",
    Member-backends_of o cs c _ m
        (backend_of-wanted _ w p (rw (t, n) (determine_container_ip-inet6 interface_of networks))),
  )
