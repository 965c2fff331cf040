-- ===== src/Manager/Servers/Effects.antt =====
-- What `create` and `deleteServer` do to the map of servers.
use gobetween.Base.{
  ◌≡◌, refl, ◌⊎◌, ap, ◌∙◌, inl, inr, String, true, false, none, ◌=s◌, if◌then◌else◌, Bool-cases,
  Option-cases, arith, is_some,
}
use gobetween.Base.Dict.{find, set, erase}
use gobetween.Config.{Server}
use gobetween.Manager.Verdict.{Verdict, ok, refused, panics}
use gobetween.Manager.Prepare.{Defaults, prepare_config}
use gobetween.Manager.Servers.{
  step_running, is_done, Outcome, State, Env, perform, enable_all, launch, launch_prepared,
  or_taken, create, stop_found, delete_server, running, new, start, stop,
}
use gobetween.Manager.Servers.Quiet.{
  IsQuiet, quiet_trans, new-IsQuiet, enable_all-IsQuiet, disable_all-IsQuiet, quiet_refl,
  start_failed-IsQuiet,
}

-- A server runs under a name that was free.
pub record IsCreated (env : Env) (name : String) (cfg : Server) (defaults : Defaults)
    (st st' : State) : Type 0 where
  pub config : Server
  pub free : find name st.servers ≡ none
  pub prepared : prepare_config env.lib name defaults cfg ≡ ok config
  pub servers : st'.servers ≡ set name config st.servers
  pub original : st'.original ≡ st.original
  pub defaults_kept : st'.defaults ≡ st.defaults
  pub running :
      (k : String) → running k st'.calls ≡ (if name =s k then true else running k st.calls)

-- A server runs no more.
pub record IsDeleted (name : String) (st st' : State) : Type 0 where
  pub servers : st'.servers ≡ erase name st.servers
  pub original : st'.original ≡ st.original
  pub defaults : st'.defaults ≡ st.defaults
  pub running :
      (k : String) → running k st'.calls ≡ (if name =s k then false else running k st.calls)

-- The end of an operation that either fails with nothing changed but calls, or does what `P` says.
abbrev pub Ends : Type 0 → State → (Outcome × State) → Type 0
Ends P st r = ((is_done r.0 ≡ false) × IsQuiet st r.1) ⊎ ((is_done r.0 ≡ true) × P)

started-running :
    (env : Env) (name : String) (st : State) (k : String)
    → (perform env (start name) st).0 ≡ true
    → running k (perform env (start name) st).1.calls
      ≡ (if name =s k then true else running k st.calls)
unfolding perform running step_running
started-running env name st k t = ground arith

started-fields :
    (env : Env) (name : String) (st : State)
    → ((perform env (start name) st).1.servers ≡ st.servers)
      × ((perform env (start name) st).1.original ≡ st.original)
      × ((perform env (start name) st).1.defaults ≡ st.defaults)
unfolding perform
started-fields env name st = (refl, refl, refl)

launch-Ends :
    (env : Env) (name : String) (cfg c : Server) (defaults : Defaults) (st : State)
    → find name st.servers ≡ none
    → prepare_config env.lib name defaults cfg ≡ ok c
    → Ends (IsCreated env name cfg defaults st (launch env name c st).1) st (launch env name c st)
unfolding launch
launch-Ends env name cfg c defaults st free p =
    let made = perform env (new name) st in
    let enabled = enable_all env env.services name made.1 in
    let started = perform env (start name) enabled.1 in
    let q1 : IsQuiet st made.1 = new-IsQuiet env name st in
    let q2 : IsQuiet st enabled.1 =
      quiet_trans _ _ _ q1 (enable_all-IsQuiet env env.services name made.1) in
    elim (Bool-cases made.0) [
      | inr f ↦ rw f (inl (refl, q1))
      | inl t ↦ elim (Bool-cases enabled.0) [
        | inr f ↦ rw (t, f) (inl (refl, q2))
        | inl u ↦ elim (Bool-cases started.0) [
          | inr f ↦
              rw (t, u, f)
                (inl (refl, quiet_trans _ _ _ q2 (start_failed-IsQuiet env name enabled.1 f)))
          | inl v ↦
              let (servers, original, kept) = started-fields env name enabled.1 in
              rw (t, u, v)
                (inr (
                  refl,
                  record {
                    config = c;
                    free = free;
                    prepared = p;
                    servers = ap (set name c) (servers ∙ q2.servers);
                    original = original ∙ q2.original;
                    defaults_kept = kept ∙ q2.defaults;
                    running = λ k.
                        started-running env name enabled.1 k v
                        ∙ ap (λ b. if name =s k then true else b) (q2.running k);
                  },
                ))
        ]
      ]
    ]

pub create-Ends :
    (env : Env) (name : String) (cfg : Server) (defaults : Defaults) (st : State)
    → Ends
        (IsCreated env name cfg defaults st (create env name cfg defaults st).1)
        st
        (create env name cfg defaults st)
unfolding create or_taken launch_prepared
create-Ends env name cfg defaults st = elim (Option-cases (find name st.servers)) [
  | inr (s, h) ↦ rw h (inl (refl, quiet_refl st))
  | inl h ↦ by_verdict (prepare_config env.lib name defaults cfg) refl h
]
  where
    by_verdict :
        (v : Verdict Server)
        → prepare_config env.lib name defaults cfg ≡ v
        → find name st.servers ≡ none
        → Ends
            (IsCreated env name cfg defaults st (create env name cfg defaults st).1)
            st
            (create env name cfg defaults st)
    by_verdict (ok c) e h = rw (h, e) (launch-Ends env name cfg c defaults st h e)
    by_verdict (refused r) e h = rw (h, e) (inl (refl, quiet_refl st))
    by_verdict panics e h = rw (h, e) (inl (refl, quiet_refl st))

stopped-fields :
    (env : Env) (name : String) (st : State)
    → ((perform env (stop name) st).1.servers ≡ st.servers)
      × ((perform env (stop name) st).1.original ≡ st.original)
      × ((perform env (stop name) st).1.defaults ≡ st.defaults)
      × ((k : String)
          → running k (perform env (stop name) st).1.calls
            ≡ (if name =s k then false else running k st.calls))
unfolding perform running step_running
stopped-fields env name st = (refl, refl, refl, λ k. refl)

pub delete_server-Ends :
    (env : Env) (name : String) (st : State)
    → Ends
        (is_some (find name st.servers) ≡ true × IsDeleted name st (delete_server env name st).1)
        st
        (delete_server env name st)
unfolding delete_server stop_found
delete_server-Ends env name st = elim (Option-cases (find name st.servers)) [
  | inl h ↦ rw h (inl (refl, quiet_refl st))
  | inr (s, h) ↦
      let stopped = (perform env (stop name) st).1 in
      let gone : State = record stopped { servers = erase name stopped.servers } in
      let q = disable_all-IsQuiet env env.services name gone in
      let (servers, original, kept, run) = stopped-fields env name st in
      rw h (
        inr (
          refl,
          (
            refl,
            record {
              servers = q.servers ∙ ap (erase name) servers;
              original = q.original ∙ original;
              defaults = q.defaults ∙ kept;
              running = λ k. q.running k ∙ run k;
            },
          ),
        ))
]
