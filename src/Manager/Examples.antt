-- ===== src/Manager/Examples.antt =====
-- The theorems on the manager, applied to a server with two addresses and static backends.
use gobetween.Healthcheck.Probe.{Answers}
use gobetween.Base.Int.{negsuc}
use gobetween.Base.{ℕ}
use gobetween.Base.{ℕ, ◌≡◌, refl, true, false, none, some, [], ◌∷◌, ◌=s◌, Bool-cases, inl, inr}
use gobetween.Base.Int.{negsuc}
use gobetween.Base.Dict.{Dict, find, set}
use gobetween.Config.{Config, Server, ProbeHealthcheckConfig}
use gobetween.Manager.Verdict.{Verdict, ok}
use gobetween.Manager.Prepare.{prepare_config, left_behind}
use gobetween.Manager.Prepare.Sound.{IsReady, prepare_config-IsReady}
use gobetween.Manager.Prepare.Again.{prepare_config_again}
use gobetween.Manager.Binds.{
  Template, expand_binds, check_binds, generated, expand_generated, children, add_child, child,
}
use gobetween.Manager.Binds.Children.{IsExpanded}
use gobetween.Manager.Binds.Expand.{expand_binds-IsExpanded}
use gobetween.Manager.Reload.{prepare_all, reload}
use gobetween.Manager.Reload.Tracked.{reload-IsTracked}
use gobetween.Manager.Servers.{State, Env, start, running}
use gobetween.Manager.Servers.Tracked.{IsTracked}
use gobetween.Base.Address.{split_host_port, contains, no_colons}
use gobetween.Manager.Sample.{lib, server, no_options, defaults, ready, ready_run}

prepare_config-IsReady_example : IsReady ready
prepare_config-IsReady_example = prepare_config-IsReady lib "web" defaults server ready ready_run

prepare_config_again_example :
    prepare_config lib "web" defaults (left_behind server ready) ≡ ok ready
prepare_config_again_example = prepare_config_again lib "web" defaults server ready ready_run refl

-- A configuration with two addresses.
abbrev parse : Template
parse s = some (λ d. some d.host)

abbrev pair : Server
pair = record server { bind = ""; binds = "10.0.0.1:80" ∷ "10.0.0.2:80" ∷ [] }

abbrev first : Server
first = record server { bind = "10.0.0.1:80" }

abbrev second : Server
second = record server { bind = "10.0.0.2:80" }

abbrev both : Dict Server
both = ("10.0.0.1", first) ∷ ("10.0.0.2", second) ∷ []

pair_run : expand_binds parse "web" pair ≡ ok both
unfolding expand_binds check_binds generated expand_generated children add_child child
    split_host_port no_colons contains find set
pair_run = refl

expand_binds-IsExpanded_example : IsExpanded (generated pair) (generated pair).binds both
unfolding generated
expand_binds-IsExpanded_example = expand_binds-IsExpanded parse "web" pair both pair_run refl

-- One server runs; the next configuration has two addresses for it.
abbrev config : Dict Server → Config
config servers = record {
  logging = record { level = ""; output = ""; format = "" };
  api = record { enabled = false; bind = ""; basic_auth = none; tls = none; cors = false };
  metrics = record { enabled = false; bind = "" };
  defaults = no_options;
  acme = none;
  profiler = none;
  servers = servers;
}

abbrev state : State
state = record {
  servers = ("web", ready) ∷ [];
  original = config (("web", server) ∷ []);
  defaults = defaults;
  calls = (start "web", true) ∷ [];
}

-- Every call succeeds, and every difference counts.
abbrev env : Env
env = record {
  lib = lib;
  parse = parse;
  services = "acme" ∷ [];
  answers = λ n. true;
  same = λ a b. false;
}

state-IsTracked : IsTracked state
unfolding running find
state-IsTracked = record {
  unique = (refl, tt);
  runs = λ k. elim (Bool-cases ("web" =s k)) [ inl t ↦ rw t refl | inr f ↦ rw f refl ];
}

reload-IsTracked_example : IsTracked (reload env (config (("web", pair) ∷ [])) state).1
reload-IsTracked_example = reload-IsTracked env (config (("web", pair) ∷ [])) state state-IsTracked

abbrev parts : Verdict (Dict Server × Dict Server) → Dict Server × Dict Server
parts (ok p) = p
parts v = ([], [])

abbrev next : Dict Server × Dict Server
next = parts (prepare_all lib defaults both)

-- A probe that expects less than no bytes.
abbrev negative : ProbeHealthcheckConfig
negative = record {
  probe_protocol = "tcp";
  probe_strategy = "starts_with";
  probe_send = "hi";
  probe_recv = "SSH";
  probe_recv_len = negsuc 0;
}

abbrev answers : Answers
answers = record {
  dialed = true;
  header_sent = true;
  prepended = none;
  write_deadline = true;
  wrote = λ send. some 2;
  read_deadline = true;
  got = λ n. none;
}
