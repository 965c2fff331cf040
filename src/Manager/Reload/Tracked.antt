-- ===== src/Manager/Reload/Tracked.antt =====
-- A reload leaves no server behind.
use gobetween.Config.{Config}
use gobetween.Manager.Servers.{State, Env}
use gobetween.Manager.Servers.Tracked.{IsTracked, create-IsTracked, delete_server-IsTracked}
use gobetween.Manager.Reload.{commit, reload}
use gobetween.Manager.Reload.Loops.{reload_keeps}

commit-IsTracked : (cfg : Config) (st : State) → IsTracked st → IsTracked (commit cfg st)
unfolding commit
commit-IsTracked cfg st t = record { unique = t.unique; runs = t.runs }

-- A reload, whether it succeeds, is refused, fails at any server or fails in its rollback, keeps
-- the names in the map of servers those of the servers that run, each once, whichever calls of
-- servers and services fail.
pub reload-IsTracked :
    (env : Env) (cfg : Config) (st : State) → IsTracked st → IsTracked (reload env cfg st).1
reload-IsTracked env cfg st t =
    reload_keeps env IsTracked (λ n c d s p. create-IsTracked env n c d s p)
      (λ n s p. delete_server-IsTracked env n s p) commit-IsTracked cfg st t
