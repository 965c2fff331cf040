-- ===== src/Create/Panics.antt =====
-- When the construction of a server panics, and what it leaves of one that fails.
use gobetween.Base.Dict.{find-set}
use gobetween.Base.{eq_iff, length, [], ◌||◌, get_elem?-last}
use gobetween.Manager.Prepare.Sound.{is_protocol}
use gobetween.Balance.Registry.{Balancer}
use gobetween.Manager.Prepare.{Defaults, prepare_config}
use gobetween.Manager.Verdict.{Library, ok}
use gobetween.Balance.Registry
use gobetween.Utils.Sources.{no_pool, invalid_subnet, not_ipv6, no_host_bit, made}
use gobetween.Base.{
  ℕ, ◌⊎◌, String, ◌≡◌, refl, ◌↔◌, inl, inr, true, Option, none, some, arith, Bool-cases,
  Option-cases, ◌=s◌,
}
use gobetween.Config.{ProxyProtocol, Sni, AccessConfig, Server, DiscoveryConfig, BackendsTls}
use gobetween.Access.{new_access, Net}
use gobetween.Stats.Handler.{Store, new_handler, get_stats, no_stats}
use gobetween.Utils.Sources.{NetLibrary}
use gobetween.Create.{
  kept_proxy, bad_backends_tls, Scheduler, new_ipv6_source_pool, made, bad_access, Made, Failure,
  ◌>>=◌, sources_of, or_fail, deref, Creation, panics, failed, created, new_server, tcp_body,
  udp_body, with_handler, new_scheduler, new_sources, new_accesses,
}
use gobetween.Create.Sections.{CannotBeMade, discovery_made}
use gobetween.Manager.Prepare.Sound.{IsReady, prepare_config-IsReady}

-- A step that never panics.
abbrev IsCalm {ℓ} : {S : Type ℓ} → Creation S → Type 0
IsCalm panics = ⊥
IsCalm _ = Unit

bind-IsCalm {ℓ κ} :
    {S : Type ℓ} {T : Type κ} (m : Creation S) (next : S → Creation T)
    → IsCalm m
    → ((x : S) → IsCalm (next x))
    → IsCalm (m >>= next)
bind-IsCalm panics next h k = absurd h
bind-IsCalm (failed e) next h k = tt
bind-IsCalm (created x) next h k = k x

or_fail-IsCalm {ℓ} : {S : Type ℓ} (e : Failure) (o : Option S) → IsCalm (or_fail e o)
unfolding or_fail
or_fail-IsCalm e none = tt
or_fail-IsCalm e (some x) = tt

new_sources-IsCalm : (lib : NetLibrary) (o : Option String) → IsCalm (new_sources lib o)
unfolding new_sources sources_of
new_sources-IsCalm lib none = tt
new_sources-IsCalm lib (some t) = elim (Bool-cases (t =s "")) [
  | inl e ↦ rw e tt
  | inr e ↦ rw e (made-IsCalm (new_ipv6_source_pool lib t))
]
  where
    made-IsCalm : (m : Made) → IsCalm (sources_of m)
    made-IsCalm no_pool = tt
    made-IsCalm invalid_subnet = tt
    made-IsCalm not_ipv6 = tt
    made-IsCalm no_host_bit = tt
    made-IsCalm (made p) = tt

new_accesses-IsCalm :
    {Ip Network : Type 0} (net : Net Ip Network) (o : Option AccessConfig)
    → IsCalm (new_accesses net o)
unfolding new_accesses
new_accesses-IsCalm net none = tt
new_accesses-IsCalm net (some cfg) =
    bind-IsCalm (or_fail bad_access (new_access net cfg).1) _ (or_fail-IsCalm _ _) (λ a. tt)

IsCalm-panics {ℓ} : {S : Type ℓ} (m : Creation S) → IsCalm m → m ≡ panics → ⊥
IsCalm-panics panics h e = h
IsCalm-panics (failed x) h e = cc
IsCalm-panics (created x) h e = cc

any_sni :
    (conf other : Option Sni) (c : String) (b : Balancer)
    → Registry.new conf c ≡ some b
    → (b' : Balancer) × (Registry.new other c ≡ some b')
unfolding Registry.new
any_sni conf other c b e = elim (Option-cases (Registry.new other c)) [
  | inl n ↦ absurd (ground arith)
  | inr r ↦ r
]

-- The scheduler of a configuration that is ready.
scheduler_ready :
    (sni : Option Sni) (proxy : Option ProxyProtocol) (s : Server) (d : DiscoveryConfig)
    → IsReady s
    → s.discovery ≡ some d
    → CannotBeMade d × (new_scheduler sni proxy s ≡ panics)
      ⊎ ¬ (CannotBeMade d) × ((x : Scheduler) × (new_scheduler sni proxy s ≡ created x))
unfolding new_scheduler deref
scheduler_ready sni proxy s d r q =
    let (h, ph, _) = r.healthcheck in
    let (b, pb) = r.balancer in
    let (b', pb') = any_sni s.sni sni s.balance b pb in
    elim (discovery_made d) [
      | inl (n, f) ↦ inl (f, rw ph (rw pb' (rw q (rw n refl))))
      | inr (x, n, f) ↦ inr (
        f,
        (
          record {
            balancer = b';
            healthcheck = record h { proxy_protocol = proxy };
            backends = [];
          },
          rw ph (rw pb' (rw q (rw n refl))),
        ),
      )
    ]

module _ {Ip Network TlsConfig : Type 0} (net : Net Ip Network) (sources : NetLibrary)
    (tls : Option BackendsTls → Option (Option TlsConfig)) where
  tcp_body-IsCalm :
      (name : String) (s : Server) (n : ℕ) (x : Scheduler)
      → new_scheduler s.sni s.proxy_protocol s ≡ created x
      → IsCalm (tcp_body net sources tls name s n)
  unfolding tcp_body
  tcp_body-IsCalm name s n x p = rw p (
      bind-IsCalm _ _ (new_accesses-IsCalm net s.access) λ access.
        bind-IsCalm _ _ (or_fail-IsCalm bad_backends_tls (tls s.backends_tls))
          λ t. bind-IsCalm _ _ (new_sources-IsCalm sources s.sources) (λ pool. tt))

  udp_body-IsCalm :
      (name : String) (s : Server) (n : ℕ) (x : Scheduler)
      → new_scheduler none (kept_proxy s.healthcheck) s ≡ created x
      → IsCalm (udp_body net sources tls name s n)
  unfolding udp_body
  udp_body-IsCalm name s n x p = rw p (
      bind-IsCalm _ _ (new_sources-IsCalm sources s.sources)
        λ pool. bind-IsCalm _ _ (new_accesses-IsCalm net s.access) (λ access. tt))

  -- The body of a server panics just where its scheduler does.
  tcp_panics :
      (name : String) (s : Server) (n : ℕ) (d : DiscoveryConfig)
      → IsReady s
      → s.discovery ≡ some d
      → (tcp_body net sources tls name s n ≡ panics) ↔ CannotBeMade d
  unfolding tcp_body
  tcp_panics name s n d r q = elim (scheduler_ready s.sni s.proxy_protocol s d r q) [
    | inl (f, p) ↦ (λ e. f, λ e. rw p refl)
    | inr (t, (x, p)) ↦
        (λ e. absurd (IsCalm-panics _ (tcp_body-IsCalm name s n x p) e), λ e. absurd (t e))
  ]

  udp_panics :
      (name : String) (s : Server) (n : ℕ) (d : DiscoveryConfig)
      → IsReady s
      → s.discovery ≡ some d
      → (udp_body net sources tls name s n ≡ panics) ↔ CannotBeMade d
  unfolding udp_body
  udp_panics name s n d r q = elim (scheduler_ready none (kept_proxy s.healthcheck) s d r q) [
    | inl (f, p) ↦ (λ e. f, λ e. rw p refl)
    | inr (t, (x, p)) ↦
        (λ e. absurd (IsCalm-panics _ (udp_body-IsCalm name s n x p) e), λ e. absurd (t e))
  ]

  -- The construction of a server whose configuration prepareConfig has taken panics just where the
  -- kind of its discovery is not registered, or is json or plaintext and the section of that kind
  -- is not there.
  pub new_server_panics :
      (lib : Library) (name : String) (defaults : Defaults) (s s' : Server) (d : DiscoveryConfig)
      (store : Store)
      → prepare_config lib name defaults s ≡ ok s'
      → s'.discovery ≡ some d
      → ((new_server net sources tls name s' store).0 ≡ panics) ↔ CannotBeMade d
  unfolding new_server with_handler
  new_server_panics lib name defaults s s' d store e q =
      let r = prepare_config-IsReady lib name defaults s s' e in
      elim (Bool-cases (s'.protocol =s "tls" || s'.protocol =s "tcp")) [
        | inl t ↦ rw (t, new_server) (tcp_panics name s' (new_handler name store).0 d r q)
        | inr f ↦ elim (Bool-cases (s'.protocol =s "udp")) [
          | inl u ↦ rw (f, u, new_server) (udp_panics name s' (new_handler name store).0 d r q)
          | inr u ↦ let known = r.protocol in absurd (ground arith)
        ]
      ]

  new_handler-get_stats :
      (name : String) (store : Store) → get_stats name (new_handler name store).1 ≡ some no_stats
  unfolding get_stats new_handler
  new_handler-get_stats name store =
      rw (find-set name name (length store.heap) store.handlers, get_stats)
        (rw ((eq_iff name name).1 refl, get_stats)
          (rw (get_elem?-last store.heap _, get_stats) refl))

  -- A server of a known protocol whose construction fails leaves its handler in the store:
  -- GetStats of its name gives statistics that are all zero.
  pub new_server-get_stats :
      (name : String) (s : Server) (store : Store) (f : Failure)
      → is_protocol s.protocol ≡ true
      → (new_server net sources tls name s store).0 ≡ failed f
      → get_stats name (new_server net sources tls name s store).1 ≡ some no_stats
  unfolding new_server with_handler
  new_server-get_stats name s store f h e =
      elim (Bool-cases (s.protocol =s "tls" || s.protocol =s "tcp")) [
        | inl t ↦ rw (t, new_server) (new_handler-get_stats name store)
        | inr g ↦ elim (Bool-cases (s.protocol =s "udp")) [
          | inl u ↦ rw (g, u, new_server) (new_handler-get_stats name store)
          | inr u ↦ absurd (ground arith)
        ]
      ]
