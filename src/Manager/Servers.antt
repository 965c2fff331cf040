-- ===== src/Manager/Servers.antt =====
-- manager/manager.go: the running servers, `create` and `deleteServer`.
use gobetween.Base.{
  ℕ, ◌≡◌, refl, String, Bool, true, false, Option, none, some, List, [], ◌∷◌, ◌=s◌, if◌then◌else◌,
  length,
}
use gobetween.Base.Dict.{Dict, find, set, erase}
use gobetween.Config.{Config, Server}
use gobetween.Manager.Verdict.{Verdict, ok, refused, panics, Refusal, Library}
use gobetween.Manager.Prepare.{Defaults, prepare_config}
use gobetween.Manager.Binds.{Template}
pub mod Quiet
pub mod Effects
pub mod Tracked

-- The calls of a server's and of a service's methods.
pub data Call : Type 0 where
  new start stop : String → Call
  enable disable : String → String → Call

pub data Failure : Type 0 where
  name_taken not_found new_failed enable_failed start_failed : String → Failure
  invalid : Refusal → Failure
  reload_failed : String → Failure → Failure
  rollback_failed : String → Failure → Failure → Failure

pub data Outcome : Type 0 where
  done : Outcome
  failed : Failure → Outcome
  crashed : Outcome

abbrev pub is_done : Outcome → Bool
is_done done = true
is_done o = false

-- The package's variables, and the calls made so far with their success, the last one first.
pub record State : Type 0 where
  pub servers : Dict Server
  pub original : Config
  pub defaults : Defaults
  pub calls : List (Call × Bool)

-- The libraries, the services, and which calls succeed: `answers n` is for the call number `n`.
pub record Env : Type 0 where
  pub lib : Library
  pub parse : Template
  pub services : List String
  pub answers : ℕ → Bool
  pub same : Server → Server → Bool

unfoldable pub perform : Env → Call → State → Bool × State
perform env call st =
    let answer = env.answers (length st.calls) in
    (answer, record st { calls = (call, answer) ∷ st.calls })

-- `Enable` of each service, as far as they succeed.
unfoldable pub enable_all : Env → List String → String → State → Bool × State
enable_all env [] name st = (true, st)
enable_all env (v ∷ vs) name st =
    let r = perform env (enable v name) st in
    let rest = enable_all env vs name r.1 in if r.0 then rest else (false, r.1)

-- `Disable` of each service; what it returns is dropped.
unfoldable pub disable_all : Env → List String → String → State → State
disable_all env [] name st = st
disable_all env (v ∷ vs) name st = disable_all env vs name (perform env (disable v name) st).1

-- `server.New`, the services, `Start`, and the entry in the map.
unfoldable pub launch : Env → String → Server → State → Outcome × State
launch env name c st =
    let made = perform env (new name) st in
    let enabled = enable_all env env.services name made.1 in
    let started = perform env (start name) enabled.1 in
    if made.0
    then (if enabled.0
        then (if started.0
            then (done, record started.1 { servers = set name c started.1.servers })
            else (failed (start_failed name), started.1))
        else (failed (enable_failed name), enabled.1))
    else (failed (new_failed name), made.1)

-- What follows `prepareConfig` in `create`.
unfoldable pub launch_prepared : Env → String → Verdict Server → State → Outcome × State
launch_prepared env name (ok c) st = launch env name c st
launch_prepared env name (refused e) st = (failed (invalid e), st)
launch_prepared env name panics st = (crashed, st)

unfoldable pub or_taken : Env → String → Verdict Server → Option Server → State → Outcome × State
or_taken env name prepared (some s) st = (failed (name_taken name), st)
or_taken env name prepared none st = launch_prepared env name prepared st

-- `create`
unfoldable pub create : Env → String → Server → Defaults → State → Outcome × State
create env name cfg defaults st =
    or_taken env name (prepare_config env.lib name defaults cfg) (find name st.servers) st

unfoldable pub stop_found : Env → String → Option Server → State → Outcome × State
stop_found env name none st = (failed (not_found name), st)
stop_found env name (some s) st =
    let stopped = (perform env (stop name) st).1 in
    (
      done,
      disable_all env env.services name (record stopped { servers = erase name stopped.servers }),
    )

-- `deleteServer`
unfoldable pub delete_server : Env → String → State → Outcome × State
delete_server env name st = stop_found env name (find name st.servers) st

-- Whether a server is running by the calls made: its last `Start` succeeded, and no `Stop` followed.
pub step_running : String → Call → Bool → Bool → Bool
step_running k (start n) success before =
    if n =s k then (if success then true else before) else before
step_running k (stop n) success before = if n =s k then false else before
step_running k call success before = before

unfoldable pub running : String → List (Call × Bool) → Bool
unfolding step_running
running k [] = false
running k ((call, success) ∷ calls) = step_running k call success (running k calls)
