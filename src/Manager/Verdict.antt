-- ===== src/Manager/Verdict.antt =====
-- The results of manager/manager.go: a value, an error, or a panic on a nil section.
use gobetween.Base.{◌≡◌, refl, String, Bool, true, false, Option, none, some, not, ap, is_some}
use gobetween.Base.Int.{ℤ}

-- The errors of `prepareConfig` and `expandBinds`, in the order of the source.
pub data Refusal : Type 0 where
  no_bind bind_and_binds no_discovery : String → Refusal
  healthcheck_kind : String → Refusal
  healthcheck_interval healthcheck_interval_zero healthcheck_initial_status : Refusal
  probe_protocol probe_fields probe_send probe_recv_len_redundant probe_recv
        probe_recv_len_missing :
      Refusal
  probe_strategy : String → Refusal
  proxy_version_missing : Refusal
  proxy_version proxy_protocol : String → Refusal
  proxy_version_udp : Refusal
  sni_unexpected sni_matching : String → Refusal
  timeout_parsing interval_parsing backends_tls_paths tls_paths source_subnet : Refusal
  tls_section backends_tls_udp udp_limits sources_transparent : Refusal
  unknown_protocol : String → Refusal
  ping_udp : Refusal
  unknown_balance failpolicy srv_dns_protocol lxd_server_address : String → Refusal
  lxd_server_address_missing lxd_container_address_type : Refusal
  binds_exclusive bind_ips_missing bind_ports_missing name_template : String → Refusal
  bind_address duplicate_name server_exists : String → Refusal

pub data Verdict {ℓ} (A : Type ℓ) : Type ℓ where
  ok : A → Verdict A
  refused : Refusal → Verdict A
  panics : Verdict A

-- The next step, unless this one ended the function.
infixl 5 ◌>>=◌ ◌>>◌
abbrev pub ◌>>=◌ {ℓ κ} : {A : Type ℓ} {B : Type κ} → Verdict A → (A → Verdict B) → Verdict B
panics >>= next = panics
refused why >>= next = refused why
ok a >>= next = next a

abbrev pub ◌>>◌ {ℓ} : {B : Type ℓ} → Verdict (Unit {0}) → Verdict B → Verdict B
check >> rest = check >>= λ _. rest

-- `if !test { return errors.New(...) }`
abbrev pub guard : Bool → Refusal → Verdict (Unit {0})
guard true e = ok tt
guard false e = refused e

abbrev pub refuse_if : Bool → Refusal → Verdict (Unit {0})
refuse_if c e = guard (not c) e

abbrev pub or_refuse {ℓ} : {A : Type ℓ} → Option A → Refusal → Verdict A
or_refuse none e = refused e
or_refuse (some a) e = ok a

-- A nil section that is dereferenced.
abbrev pub or_panic {ℓ} : {A : Type ℓ} → Option A → Verdict A
or_panic none = panics
or_panic (some a) = ok a

pub >>=-eq-ok {ℓ κ} :
    {A : Type ℓ} {B : Type κ} (m : Verdict A) (next : A → Verdict B) {b : B}
    → (m >>= next) ≡ ok b
    → (a : A) × (m ≡ ok a) × (next a ≡ ok b)
>>=-eq-ok panics next h = cc
>>=-eq-ok (refused why) next h = cc
>>=-eq-ok (ok a) next h = (a, refl, h)

pub ok_inj {ℓ} : {A : Type ℓ} {a b : A} → ok a ≡ ok b → a ≡ b
ok_inj h = cc

pub or_refuse-ok {ℓ} :
    {A : Type ℓ} {a : A} (o : Option A) (e : Refusal) → or_refuse o e ≡ ok a → o ≡ some a
or_refuse-ok none e h = cc
or_refuse-ok (some x) e h = ap some (ok_inj h)

pub guard-ok : {u : Unit {0}} (c : Bool) (e : Refusal) → guard c e ≡ ok u → c ≡ true
guard-ok true e h = refl
guard-ok false e h = cc

pub refuse_if-ok : {u : Unit {0}} (c : Bool) (e : Refusal) → refuse_if c e ≡ ok u → c ≡ false
refuse_if-ok true e h = cc
refuse_if-ok false e h = refl

pub is_some-refused {ℓ} :
    {A : Type ℓ} {u : Unit {0}} (o : Option A) (e : Refusal)
    → refuse_if (is_some o) e ≡ ok u
    → o ≡ none
is_some-refused none e h = refl
is_some-refused (some a) e h = cc

-- What `prepareConfig` takes from libraries: `time.ParseDuration` in nanoseconds, `strconv.Unquote`
-- of a text that is put in quotes, whether `regexp.Compile` takes a pattern, `os.ExpandEnv`, and
-- whether `utils.NewIPv6SourcePool` takes a subnet.
pub record Library : Type 0 where
  pub parse_duration : String → Option ℤ
  pub unquote : String → Option String
  pub compiles : String → Bool
  pub expand_env : String → String
  pub is_source_pool : String → Bool
