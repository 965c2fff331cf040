-- ===== src/Create/Examples.antt =====
-- The theorems on the construction, applied to a server with a kind of discovery that there is not.
use gobetween.Base.{inl, ℕ, ◌≡◌, refl, Option, none, some, ◌==◌}
use gobetween.Config.{BackendsTls}
use gobetween.Access.{Net}
use gobetween.Stats.Handler.Current.{empty}
use gobetween.Utils.Sources.{NetLibrary}
use gobetween.Create.{panics, new_server, is_registered}
use gobetween.Create.Panics.{new_server_panics}
use gobetween.Manager.Sample.{
  lib, defaults, static, misspelt, misspelt_ready, misspelt_run, misspelt_section,
  misspelt_discovery,
}
use gobetween.Manager.Reload.{zero_server}
use gobetween.Manager.Healthcheck.{no_healthcheck}
use gobetween.Config.{Server}

abbrev net : Net ℕ ℕ
net = record {
  parse_ip = λ s. some 1;
  parse_cidr = λ s. none;
  ip_equal = λ a b. a == b;
  contains = λ n a. n == a;
}

abbrev sources : NetLibrary
sources = record {
  trim_space = λ s. s;
  parse_cidr = λ s. none;
  to_16 = λ ip. some ip;
  to_4 = λ ip. none;
  mask_size = λ m. 64;
  apply_mask = λ ip m. ip;
}

abbrev no_tls : Option BackendsTls → Option (Option ℕ)
no_tls t = some none

abbrev broken_tls : Option BackendsTls → Option (Option ℕ)
broken_tls t = none

-- A misspelt kind passes the preparation, and the construction then panics.
new_server_panics_example : ((new_server net sources no_tls "web" misspelt_ready empty).0 ≡ panics)
unfolding is_registered
new_server_panics_example =
    (new_server_panics net sources no_tls lib "web" defaults misspelt misspelt_ready
        misspelt_section empty misspelt_run misspelt_discovery).1
      (inl refl)

abbrev plain : Server
plain = record zero_server {
  protocol = "tcp";
  balance = "weight";
  discovery = some static;
  healthcheck = some no_healthcheck;
}
