-- ===== src/Manager/Start.antt =====
-- manager/manager.go: `Initialize`, and what the API reads of the servers.
use gobetween.Base.{refl, Option, none, some, [], ◌∷◌}
use gobetween.Base.Dict.{Dict, find}
use gobetween.Config.{Config, Server, AcmeConfig}
use gobetween.Manager.Verdict.{Verdict, ok, refused, panics}
use gobetween.Manager.Healthcheck.{or_text}
use gobetween.Manager.Prepare.{Defaults, normalize_defaults}
use gobetween.Manager.Binds.{expand_binds}
use gobetween.Manager.Servers.{Outcome, done, failed, crashed, State, Env, create, running}
use gobetween.Manager.Servers.Tracked.{IsTracked, create-IsTracked}
use gobetween.Manager.Reload.{when_done, judged}

fill_acme : Option AcmeConfig → Option AcmeConfig
fill_acme none = none
fill_acme (some a) = some (record {
  challenge = or_text a.challenge "http";
  http_bind = or_text a.http_bind "0.0.0.0:80";
  cache_dir = or_text a.cache_dir "/tmp";
})

-- `initConfigGlobals`
pub init_config_globals : Config → Config
unfolding fill_acme
init_config_globals cfg = record cfg { acme = fill_acme cfg.acme }

-- The inner loop of `Initialize`.
create_all : Env → Defaults → Dict Server → State → Outcome × State
create_all env defaults [] st = (done, st)
create_all env defaults ((n, c) ∷ m) st =
    when_done (create env n c defaults st) (create_all env defaults m)

-- The outer loop.
create_expanded : Env → Defaults → Dict Server → State → Outcome × State
unfolding create_all
create_expanded env defaults [] st = (done, st)
create_expanded env defaults ((n, c) ∷ m) st =
    judged (expand_binds env.parse n c) st
      λ expanded. when_done (create_all env defaults expanded st) (create_expanded env defaults m)

-- `Initialize`; any failure ends the process. The section of ACME is filled in through the pointer
-- that the original configuration has too.
pub initialize : Env → Config → Outcome × State
unfolding create_expanded
initialize env cfg =
    let defaults = normalize_defaults cfg.defaults in
    create_expanded env defaults cfg.servers
      (record { servers = []; original = init_config_globals cfg; defaults = defaults; calls = [] })

-- `DumpConfig`: the configuration that is encoded, which is now the original one as well.
pub dump_config : State → Config × State
dump_config st =
    let original = record st.original { servers = st.servers } in
    (original, record st { original = original })

when_done-IsTracked :
    (r : Outcome × State) (f : State → Outcome × State)
    → IsTracked r.1
    → ((st : State) → IsTracked st → IsTracked (f st).1)
    → IsTracked (when_done r f).1
when_done-IsTracked (done, st) f t next = next st t
when_done-IsTracked (failed e, st) f t next = t
when_done-IsTracked (crashed, st) f t next = t

judged-IsTracked :
    (v : Verdict (Dict Server)) (st : State) (f : Dict Server → Outcome × State)
    → IsTracked st
    → ((m : Dict Server) → IsTracked (f m).1)
    → IsTracked (judged v st f).1
judged-IsTracked (ok m) st f t next = next m
judged-IsTracked (refused e) st f t next = t
judged-IsTracked panics st f t next = t

create_all-IsTracked :
    (env : Env) (defaults : Defaults) (m : Dict Server) (st : State)
    → IsTracked st
    → IsTracked (create_all env defaults m st).1
unfolding create_all
create_all-IsTracked env defaults [] st t = t
create_all-IsTracked env defaults ((n, c) ∷ m) st t =
    when_done-IsTracked (create env n c defaults st) (create_all env defaults m)
      (create-IsTracked env n c defaults st t) (create_all-IsTracked env defaults m)

create_expanded-IsTracked :
    (env : Env) (defaults : Defaults) (m : Dict Server) (st : State)
    → IsTracked st
    → IsTracked (create_expanded env defaults m st).1
unfolding create_expanded
create_expanded-IsTracked env defaults [] st t = t
create_expanded-IsTracked env defaults ((n, c) ∷ m) st t =
    judged-IsTracked (expand_binds env.parse n c) st _ t λ expanded.
      when_done-IsTracked (create_all env defaults expanded st) (create_expanded env defaults m)
        (create_all-IsTracked env defaults expanded st t) (create_expanded-IsTracked env defaults m)

-- Whatever fails when the program starts, the names in the map are those of the servers that run.
pub initialize-IsTracked : (env : Env) (cfg : Config) → IsTracked (initialize env cfg).1
unfolding initialize running find
initialize-IsTracked env cfg =
    create_expanded-IsTracked env (normalize_defaults cfg.defaults) cfg.servers _
      (record { unique = tt; runs = λ k. refl })
