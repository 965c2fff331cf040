-- ===== src/Manager/Servers/Quiet.antt =====
-- Calls that change neither the map of servers nor what runs.
use gobetween.Base.{◌≡◌, refl, ◌∙◌, inl, inr, String, false, List, [], ◌∷◌, Bool-cases, arith}
use gobetween.Manager.Servers.{
  step_running, State, Env, perform, enable_all, disable_all, running, new, start, enable, disable,
}

-- The fields other than the calls are as before, and so is what is running.
pub record IsQuiet (st st' : State) : Type 0 where
  pub servers : st'.servers ≡ st.servers
  pub original : st'.original ≡ st.original
  pub defaults : st'.defaults ≡ st.defaults
  pub running : (k : String) → running k st'.calls ≡ running k st.calls

abbrev pub quiet_trans : (a b c : State) → IsQuiet a b → IsQuiet b c → IsQuiet a c
quiet_trans a b c p q = record {
  servers = q.servers ∙ p.servers;
  original = q.original ∙ p.original;
  defaults = q.defaults ∙ p.defaults;
  running = λ k. q.running k ∙ p.running k;
}

pub enable-IsQuiet :
    (env : Env) (v name : String) (st : State) → IsQuiet st (perform env (enable v name) st).1
unfolding perform running
enable-IsQuiet env v name st = record {
  servers = refl;
  original = refl;
  defaults = refl;
  running = λ k. refl;
}

pub disable-IsQuiet :
    (env : Env) (v name : String) (st : State) → IsQuiet st (perform env (disable v name) st).1
unfolding perform running
disable-IsQuiet env v name st = record {
  servers = refl;
  original = refl;
  defaults = refl;
  running = λ k. refl;
}

pub new-IsQuiet :
    (env : Env) (name : String) (st : State) → IsQuiet st (perform env (new name) st).1
unfolding perform running
new-IsQuiet env name st = record {
  servers = refl;
  original = refl;
  defaults = refl;
  running = λ k. refl;
}

pub enable_all-IsQuiet :
    (env : Env) (vs : List String) (name : String) (st : State)
    → IsQuiet st (enable_all env vs name st).1
unfolding enable_all
enable_all-IsQuiet env [] name st = record {
  servers = refl;
  original = refl;
  defaults = refl;
  running = λ k. refl;
}
enable_all-IsQuiet env (v ∷ vs) name st = elim (Bool-cases (perform env (enable v name) st).0) [
  | inl t ↦ rw t (
      quiet_trans _ _ _ (enable-IsQuiet env v name st)
        (enable_all-IsQuiet env vs name (perform env (enable v name) st).1))
  | inr f ↦ rw f (enable-IsQuiet env v name st)
]

pub disable_all-IsQuiet :
    (env : Env) (vs : List String) (name : String) (st : State)
    → IsQuiet st (disable_all env vs name st)
unfolding disable_all
disable_all-IsQuiet env [] name st = record {
  servers = refl;
  original = refl;
  defaults = refl;
  running = λ k. refl;
}
disable_all-IsQuiet env (v ∷ vs) name st =
    quiet_trans _ _ _ (disable-IsQuiet env v name st)
      (disable_all-IsQuiet env vs name (perform env (disable v name) st).1)

pub quiet_refl : (st : State) → IsQuiet st st
quiet_refl st = record { servers = refl; original = refl; defaults = refl; running = λ k. refl }

pub start_failed-IsQuiet :
    (env : Env) (name : String) (st : State)
    → (perform env (start name) st).0 ≡ false
    → IsQuiet st (perform env (start name) st).1
unfolding perform running step_running
start_failed-IsQuiet env name st f = record {
  servers = refl;
  original = refl;
  defaults = refl;
  running = λ k. ground arith;
}
