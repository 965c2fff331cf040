-- ===== src/Manager/Reload.antt =====
-- manager/manager.go: `Reload` and what it is made of.
use gobetween.Base.{
  ◌≡◌, refl, String, Bool, true, false, Option, none, some, List, [], ◌∷◌, ◌++◌, if◌then◌else◌,
  is_empty, ◌&&◌, is_some,
}
use gobetween.Base.Dict.{Dict, find, set}
use gobetween.Base.Int.{pos}
use gobetween.Config.{Config, Server, ConnectionOptions}
use gobetween.Manager.Verdict.{
  Verdict, ok, refused, panics, ◌>>=◌, ◌>>◌, refuse_if, server_exists, Library,
}
use gobetween.Manager.Prepare.{Defaults, normalize_defaults, prepare_config, left_behind}
use gobetween.Manager.Binds.{Template, expand_binds}
use gobetween.Manager.Plan.{ReloadPlan, plan_reload}
use gobetween.Manager.Servers.{
  Failure, invalid, reload_failed, rollback_failed, Outcome, done, failed, crashed, State, Env,
  create, delete_server,
}
pub mod Loops
pub mod Tracked
pub mod Steps
pub mod Result

-- The children of one entry are put beside those of the others.
add_expanded : Dict Server → Dict Server → Verdict (Dict Server)
add_expanded [] result = ok result
add_expanded ((n, c) ∷ m) result =
    refuse_if (is_some (find n result)) (server_exists n) >> add_expanded m (set n c result)

raw_from : Template → Dict Server → Dict Server → Verdict (Dict Server)
unfolding add_expanded
raw_from parse [] result = ok result
raw_from parse ((n, c) ∷ m) result =
    expand_binds parse n c >>= λ e. (add_expanded e result >>= raw_from parse m)

-- `rawExpandedServers`
unfoldable pub raw_expanded_servers : Template → Dict Server → Verdict (Dict Server)
unfolding raw_from
raw_expanded_servers parse m = raw_from parse m []

-- The loop of `prepareExpandedServers`: the prepared configurations, and what the raw ones have become.
unfoldable pub prepare_all : Library → Defaults → Dict Server → Verdict (Dict Server × Dict Server)
prepare_all lib defaults [] = ok ([], [])
prepare_all lib defaults ((n, s) ∷ m) = do
  s' ← prepare_config lib n defaults s
  (prepared, left) ← prepare_all lib defaults m
  ok ((n, s') ∷ prepared, (n, left_behind s s') ∷ left)

unfoldable pub prepare_expanded_servers :
    Library → Template → Defaults → Dict Server → Verdict (Dict Server × Dict Server)
prepare_expanded_servers lib parse defaults m =
    raw_expanded_servers parse m >>= prepare_all lib defaults

-- What a map gives for a name that it has not.
abbrev pub zero_server : Server
zero_server = record {
  options = record {
    max_connections = none;
    client_idle_timeout = none;
    backend_idle_timeout = none;
    backend_connection_timeout = none;
    client_tcp_keepalive = none;
    client_tcp_keepalive_period = none;
    backend_tcp_keepalive = none;
    backend_tcp_keepalive_period = none;
    sources = none;
  };
  bind = "";
  binds = [];
  bind_ips = [];
  bind_ports = [];
  match_port = false;
  bind_name_template = "";
  protocol = "";
  balance = "";
  sni = none;
  tls = none;
  backends_tls = none;
  udp = none;
  access = none;
  proxy_protocol = none;
  discovery = none;
  healthcheck = none;
}

abbrev pub or_zero : Option Server → Server
or_zero none = zero_server
or_zero (some s) = s

abbrev pub when_done : Outcome × State → (State → Outcome × State) → Outcome × State
when_done (done, st) f = f st
when_done (failed e, st) f = (failed e, st)
when_done (crashed, st) f = (crashed, st)

-- The first loop of `Reload`, and of `rollbackReload`.
unfoldable pub delete_all : Env → List String → State → Outcome × State
delete_all env [] st = (done, st)
delete_all env (n ∷ ns) st = when_done (delete_server env n st) (delete_all env ns)

-- The second loop of `rollbackReload`.
pub create_found : Env → Defaults → Dict Server → List String → State → Outcome × State
create_found env defaults raw [] st = (done, st)
create_found env defaults raw (n ∷ ns) st =
    when_done (elim (find n raw) [ none ↦ (done, st) | some cfg ↦ create env n cfg defaults st ])
      (create_found env defaults raw ns)

-- `rollbackReload`; `created` has the last one first.
pub rollback_reload :
    Env → List String → List String → Dict Server → Defaults → State → Outcome × State
rollback_reload env created replaced raw defaults st =
    when_done (delete_all env created st) (create_found env defaults raw replaced)

-- What `Reload` gives back after a rollback.
abbrev pub give_up : String → Failure → Outcome × State → Outcome × State
give_up name why (done, st) = (failed (reload_failed name why), st)
give_up name why (failed e, st) = (failed (rollback_failed name why e), st)
give_up name why (crashed, st) = (crashed, st)

-- One round of the second loop, and the rest of the loop.
unfoldable pub after_create :
    Env
    → List String
    → List String
    → Dict Server
    → String
    → (List String → State → Outcome × State)
    → Outcome × State
    → Outcome × State
after_create env created replaced current name rest (done, st) = rest (name ∷ created) st
after_create env created replaced current name rest (failed e, st) =
    give_up name e (rollback_reload env created replaced current st.defaults st)
after_create env created replaced current name rest (crashed, st) = (crashed, st)

unfoldable pub create_each :
    Env
    → Defaults
    → Dict Server
    → Dict Server
    → List String
    → List String
    → List String
    → State
    → Outcome × State
create_each env defaults raw current replaced [] created st = (done, st)
create_each env defaults raw current replaced (n ∷ ns) created st =
    after_create env created replaced current n (create_each env defaults raw current replaced ns)
      (create env n (or_zero (find n raw)) defaults st)

-- `mergeReloadableConfig`
unfoldable pub merge_reloadable_config : Config → Config → Config
merge_reloadable_config current next = record current {
  logging = next.logging;
  defaults = next.defaults;
  servers = next.servers;
}

unfoldable pub commit : Config → State → State
commit cfg st = record st {
  defaults = normalize_defaults cfg.defaults;
  original = merge_reloadable_config st.original cfg;
}

-- The work on a plan.
unfoldable pub carry_out :
    Env → Config → ReloadPlan → Dict Server → Dict Server → State → Outcome × State
carry_out env cfg plan raw current st =
    let replaced = plan.modified ++ plan.removed in
    when_done (delete_all env replaced st) λ st1.
      when_done
        (create_each env (normalize_defaults cfg.defaults) raw current replaced
          (plan.added ++ plan.modified) [] st1)
        λ st2. (done, commit cfg st2)

-- The work on a plan, if it has any.
unfoldable pub apply_plan :
    Env → Config → ReloadPlan → Dict Server → Dict Server → State → Outcome × State
unfolding carry_out
apply_plan env cfg plan raw current st =
    if is_empty plan.added && is_empty plan.modified && is_empty plan.removed
    then (done, commit cfg st)
    else carry_out env cfg plan raw current st

-- A verdict on the configuration, before any server is touched.
abbrev pub judged {ℓ} : {A : Type ℓ} → Verdict A → State → (A → Outcome × State) → Outcome × State
judged (ok a) st f = f a
judged (refused e) st f = (failed (invalid e), st)
judged panics st f = (crashed, st)

-- `Reload`
unfoldable pub reload : Env → Config → State → Outcome × State
reload env cfg st =
    judged
      (prepare_expanded_servers env.lib env.parse (normalize_defaults cfg.defaults) cfg.servers) st
      λ next.
        judged (raw_expanded_servers env.parse st.original.servers) st
          λ current. apply_plan env cfg (plan_reload env.same st.servers next.0) next.1 current st
