-- ===== src/Manager/Discovery.antt =====
-- manager/manager.go, `prepareConfig`: the sections of the discovery and of SNI.
use gobetween.Base.{
  ◌∙◌, Option-cases, ◌≡◌, refl, sym, subst, inl, inr, String, Bool, true, false, ◌||◌, Option, none,
  some, ◌=s◌, if◌then◌else◌, arith, eq_iff, Bool-cases,
}
use gobetween.Base.Bytes.{has_prefix}
use gobetween.Config.{DiscoveryConfig, LxdDiscoveryConfig, Sni}
use gobetween.Manager.Verdict.{
  Verdict, ok, ◌>>=◌, ◌>>◌, guard, refuse_if, or_refuse, or_panic, Library, >>=-eq-ok, failpolicy,
  srv_dns_protocol, lxd_server_address, lxd_server_address_missing, lxd_container_address_type,
  sni_unexpected, sni_matching, timeout_parsing,
}
use gobetween.Manager.Healthcheck.{or_text}

unfoldable pub prepare_srv : DiscoveryConfig → Verdict DiscoveryConfig
prepare_srv d =
    if d.kind =s "srv"
    then (or_panic d.srv >>= λ s.
        let p = or_text s.srv_dns_protocol "udp" in
        (guard (p =s "udp" || p =s "tcp") (srv_dns_protocol p)
          >> ok (record d { srv = some (record s { srv_dns_protocol = p }) })))
    else ok d

-- The fields that the section of LXD gets.
fill_lxd : Library → LxdDiscoveryConfig → LxdDiscoveryConfig
fill_lxd lib l = record l {
  lxd_server_remote_name = or_text l.lxd_server_remote_name "local";
  lxd_config_directory = or_text l.lxd_config_directory (lib.expand_env "$HOME/.config/lxc");
  lxd_container_interface = or_text l.lxd_container_interface "eth0";
  lxd_container_address_type = or_text l.lxd_container_address_type "IPv4";
}

abbrev is_address_type : String → Bool
is_address_type t = t =s "IPv4" || t =s "IPv6"

check_lxd : LxdDiscoveryConfig → Verdict (Unit {0})
check_lxd l =
    refuse_if (l.lxd_server_address =s "") lxd_server_address_missing
    >> guard (has_prefix l.lxd_server_address "https:" || has_prefix l.lxd_server_address "unix:")
        (lxd_server_address l.lxd_server_address)

unfoldable pub prepare_lxd : Library → DiscoveryConfig → Verdict DiscoveryConfig
unfolding fill_lxd check_lxd
prepare_lxd lib d =
    if d.kind =s "lxd"
    then (or_panic d.lxd >>= λ l.
        (check_lxd l
          >> (guard (is_address_type (fill_lxd lib l).lxd_container_address_type)
                lxd_container_address_type
              >> ok (record d { lxd = some (fill_lxd lib l) }))))
    else ok d

-- The policy and the durations.
unfoldable pub fill_discovery : DiscoveryConfig → DiscoveryConfig
fill_discovery d = record d {
  failpolicy = or_text d.failpolicy "keeplast";
  interval = or_text d.interval "0";
  timeout = or_text d.timeout "0";
}

abbrev pub is_failpolicy : String → Bool
is_failpolicy p = p =s "keeplast" || p =s "setempty"

unfoldable pub prepare_discovery : Library → DiscoveryConfig → Verdict DiscoveryConfig
prepare_discovery lib d = do
  guard (is_failpolicy (fill_discovery d).failpolicy) (failpolicy d.failpolicy)
  d' ← prepare_srv (fill_discovery d)
  prepare_lxd lib d'

-- The section of SNI.
fill_sni : Sni → Sni
fill_sni s = record {
  hostname_matching_strategy = or_text s.hostname_matching_strategy "exact";
  unexpected_hostname_strategy = or_text s.unexpected_hostname_strategy "default";
  read_timeout = or_text s.read_timeout "2s";
}

abbrev pub is_unexpected : String → Bool
is_unexpected u = u =s "default" || u =s "reject" || u =s "any"

abbrev pub is_matching : String → Bool
is_matching m = m =s "exact" || m =s "regexp"

check_sni : Library → Sni → Verdict (Unit {0})
check_sni lib s = do
  guard (is_unexpected s.unexpected_hostname_strategy)
      (sni_unexpected s.unexpected_hostname_strategy)
  guard (is_matching s.hostname_matching_strategy) (sni_matching s.hostname_matching_strategy)
  d ← or_refuse (lib.parse_duration s.read_timeout) timeout_parsing
  ok tt

unfoldable pub prepare_sni : Library → Option Sni → Verdict (Option Sni)
unfolding fill_sni check_sni
prepare_sni lib none = ok none
prepare_sni lib (some s) = check_sni lib (fill_sni s) >> ok (some (fill_sni s))

fill_sni_idem : (s : Sni) → fill_sni (fill_sni s) ≡ fill_sni s
unfolding fill_sni
fill_sni_idem s = ground arith

pub prepare_sni_again :
    (lib : Library) (s s' : Option Sni) → prepare_sni lib s ≡ ok s' → prepare_sni lib s' ≡ ok s'
unfolding prepare_sni
prepare_sni_again lib none s' e = ground arith
prepare_sni_again lib (some s) s' e =
    let (a, c, r) = >>=-eq-ok (check_sni lib (fill_sni s)) (λ _. ok (some (fill_sni s))) e in
    let same : some (fill_sni s) ≡ s' = ground arith in
    subst (λ x. prepare_sni lib x ≡ ok x) same (ground (arith, fill_sni_idem s))

fill_discovery_idem : (d : DiscoveryConfig) → fill_discovery (fill_discovery d) ≡ fill_discovery d
unfolding fill_discovery
fill_discovery_idem d = ground arith

-- What the two parts for kinds keep.
abbrev SamePolicy : DiscoveryConfig → DiscoveryConfig → Type 0
SamePolicy d d' =
    (d'.kind ≡ d.kind)
    × (d'.failpolicy ≡ d.failpolicy)
    × (d'.interval ≡ d.interval)
    × (d'.timeout ≡ d.timeout)

-- The default is a fixed point of filling in.
or_text_idem : (s t : String) → or_text (or_text s t) t ≡ or_text s t
or_text_idem s t = ground arith

srv-cases :
    (d d' : DiscoveryConfig) → prepare_srv d ≡ ok d' → SamePolicy d d' × (prepare_srv d' ≡ ok d')
unfolding prepare_srv
srv-cases d d' e = elim (Bool-cases (d.kind =s "srv")) [
  | inr f ↦
      let same : d ≡ d' = ground arith in
      subst (λ x. SamePolicy d x × (prepare_srv x ≡ ok x)) same
        ((refl, refl, refl, refl), rw f refl)
  | inl t ↦ elim (Option-cases d.srv) [
    | inl n ↦ absurd (ground arith)
    | inr (s, n) ↦
        let p = or_text s.srv_dns_protocol "udp" in
        let x : DiscoveryConfig = record d { srv = some (record s { srv_dns_protocol = p }) } in
        let same : x ≡ d' = ground arith in
        let fine : (p =s "udp" || p =s "tcp") ≡ true = ground arith in
        subst (λ x. SamePolicy d x × (prepare_srv x ≡ ok x)) same
          ((refl, refl, refl, refl), ground (arith, or_text_idem s.srv_dns_protocol "udp"))
  ]
]

fill_lxd_idem :
    (lib : Library) (l : LxdDiscoveryConfig) → fill_lxd lib (fill_lxd lib l) ≡ fill_lxd lib l
unfolding fill_lxd
fill_lxd_idem lib l =
    ground (arith, or_text_idem l.lxd_config_directory (lib.expand_env "$HOME/.config/lxc"))

fill_lxd-address :
    (lib : Library) (l : LxdDiscoveryConfig) → check_lxd (fill_lxd lib l) ≡ check_lxd l
unfolding fill_lxd check_lxd
fill_lxd-address lib l = refl

lxd-cases :
    (lib : Library) (d d' : DiscoveryConfig)
    → prepare_lxd lib d ≡ ok d'
    → SamePolicy d d' × (prepare_lxd lib d' ≡ ok d') × (((d.kind =s "lxd") ≡ false) → d ≡ d')
unfolding prepare_lxd
lxd-cases lib d d' e = elim (Bool-cases (d.kind =s "lxd")) [
  | inr f ↦
      let same : d ≡ d' = ground arith in
      subst
        (λ x. SamePolicy d x × (prepare_lxd lib x ≡ ok x) × (((d.kind =s "lxd") ≡ false) → d ≡ x))
        same ((refl, refl, refl, refl), rw f refl, λ _. refl)
  | inl t ↦ elim (Option-cases d.lxd) [
    | inl n ↦ absurd (ground arith)
    | inr (l, n) ↦
        let x : DiscoveryConfig = record d { lxd = some (fill_lxd lib l) } in
        let good : check_lxd l ≡ ok tt = ground arith in
        let same : x ≡ d' = ground arith in
        let fine : is_address_type (fill_lxd lib l).lxd_container_address_type ≡ true =
          ground arith in
        subst
          (λ x. SamePolicy d x × (prepare_lxd lib x ≡ ok x) × (((d.kind =s "lxd") ≡ false) → d ≡ x))
          same
          (
            (refl, refl, refl, refl),
            ground (arith, fill_lxd_idem lib l, fill_lxd-address lib l),
            λ f. absurd (ground arith),
          )
  ]
]

prepared :
    (lib : Library) (d d' : DiscoveryConfig)
    → prepare_discovery lib d ≡ ok d'
    → (m : DiscoveryConfig) × (is_failpolicy (fill_discovery d).failpolicy ≡ true)
      × (prepare_srv (fill_discovery d) ≡ ok m)
      × (prepare_lxd lib m ≡ ok d')
unfolding prepare_discovery
prepared lib d d' e =
    let (a, c, e1) =
      >>=-eq-ok (guard (is_failpolicy (fill_discovery d).failpolicy) (failpolicy d.failpolicy)) _
        e in
    let (m, q, e2) = >>=-eq-ok (prepare_srv (fill_discovery d)) _ e1 in (m, ground arith, q, e2)

SamePolicy-fill :
    (d d' : DiscoveryConfig)
    → SamePolicy (fill_discovery d) d'
    → (fill_discovery d' ≡ d') × (d'.kind ≡ d.kind)
unfolding fill_discovery
SamePolicy-fill d d' (k, f, i, t) = (ground arith, k)

srv_other : (k : String) → (k =s "srv") ≡ true → (k =s "lxd") ≡ false
srv_other k t = subst (λ x. (x =s "lxd") ≡ false) (sym ((eq_iff k "srv").0 t)) refl

srv_kept :
    (m d' : DiscoveryConfig)
    → d'.kind ≡ m.kind
    → prepare_srv m ≡ ok m
    → (((m.kind =s "lxd") ≡ false) → m ≡ d')
    → prepare_srv d' ≡ ok d'
unfolding prepare_srv
srv_kept m d' k e same = elim (Bool-cases (d'.kind =s "srv")) [
  | inr f ↦ rw f refl
  | inl t ↦
      subst (λ x. prepare_srv x ≡ ok x)
        (same (srv_other m.kind (subst (λ x. (x =s "srv") ≡ true) k t))) e
]

pub prepare_discovery_again :
    (lib : Library) (d d' : DiscoveryConfig)
    → prepare_discovery lib d ≡ ok d'
    → (prepare_discovery lib d' ≡ ok d') × (is_failpolicy d'.failpolicy ≡ true) × (d'.kind ≡ d.kind)
unfolding prepare_discovery
prepare_discovery_again lib d d' e =
    let (m, policy, q, r) = prepared lib d d' e in
    let (same1, srv) = srv-cases (fill_discovery d) m q in
    let (same2, lxd, other) = lxd-cases lib m d' r in
    let (filled, kind) =
      SamePolicy-fill d d'
        (same2.0 ∙ same1.0, same2.1 ∙ same1.1, same2.2 ∙ same1.2, same2.3 ∙ same1.3) in
    let policy' : is_failpolicy d'.failpolicy ≡ true =
      subst (λ x. is_failpolicy x ≡ true) (sym (same2.1 ∙ same1.1)) policy in
    let srv' : prepare_srv d' ≡ ok d' = srv_kept m d' same2.0 srv other in
    (ground arith, policy', kind)
