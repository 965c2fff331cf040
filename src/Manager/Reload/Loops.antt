-- ===== src/Manager/Reload/Loops.antt =====
-- What holds of the state through the loops of a reload.
use gobetween.Base.{String, List, [], ◌∷◌, ◌++◌, is_empty, ◌&&◌, Bool-cases, Option-cases, inl, inr}
use gobetween.Base.Dict.{Dict, find}
use gobetween.Config.{Config, Server}
use gobetween.Manager.Verdict.{Verdict, ok, refused, panics}
use gobetween.Manager.Prepare.{Defaults, normalize_defaults}
use gobetween.Manager.Plan.{ReloadPlan, plan_reload}
use gobetween.Manager.Servers.{Outcome, done, failed, crashed, State, Env, create, delete_server}
use gobetween.Manager.Reload.{
  Failure, when_done, delete_all, create_found, rollback_reload, give_up, after_create, create_each,
  commit, carry_out, apply_plan, judged, reload, prepare_expanded_servers, raw_expanded_servers,
  or_zero,
}

-- A predicate that `create`, `deleteServer` and the last step of a reload keep.
module _ {ℓ} (env : Env) (P : State → Type ℓ)
    (create_keeps : (n : String) (cfg : Server) (d : Defaults) (st : State)
      → P st
      → P (create env n cfg d st).1)
    (delete_keeps : (n : String) (st : State) → P st → P (delete_server env n st).1)
    (commit_keeps : (cfg : Config) (st : State) → P st → P (commit cfg st)) where
  when_done_keeps :
      (r : Outcome × State) (f : State → Outcome × State)
      → P r.1
      → ((st : State) → P st → P (f st).1)
      → P (when_done r f).1
  when_done_keeps (done, st) f p h = h st p
  when_done_keeps (failed e, st) f p h = p
  when_done_keeps (crashed, st) f p h = p

  delete_all_keeps : (ns : List String) (st : State) → P st → P (delete_all env ns st).1
  unfolding delete_all
  delete_all_keeps [] st p = p
  delete_all_keeps (n ∷ ns) st p =
      when_done_keeps (delete_server env n st) (delete_all env ns) (delete_keeps n st p)
        (delete_all_keeps ns)

  create_found_keeps :
      (d : Defaults) (raw : Dict Server) (ns : List String) (st : State)
      → P st
      → P (create_found env d raw ns st).1
  unfolding create_found
  create_found_keeps d raw [] st p = p
  create_found_keeps d raw (n ∷ ns) st p = elim (Option-cases (find n raw)) [
    | inl h ↦ rw h (create_found_keeps d raw ns st p)
    | inr (cfg, h) ↦ rw h (
        when_done_keeps (create env n cfg d st) (create_found env d raw ns)
          (create_keeps n cfg d st p) (create_found_keeps d raw ns))
  ]

  give_up_keeps : (n : String) (e : Failure) (r : Outcome × State) → P r.1 → P (give_up n e r).1
  give_up_keeps n e (done, st) p = p
  give_up_keeps n e (failed x, st) p = p
  give_up_keeps n e (crashed, st) p = p

  rollback_reload_keeps :
      (created replaced : List String) (raw : Dict Server) (d : Defaults) (st : State)
      → P st
      → P (rollback_reload env created replaced raw d st).1
  unfolding rollback_reload
  rollback_reload_keeps created replaced raw d st p =
      when_done_keeps (delete_all env created st) (create_found env d raw replaced)
        (delete_all_keeps created st p) (create_found_keeps d raw replaced)

  after_create_keeps :
      (created replaced : List String) (current : Dict Server) (n : String)
      (rest : List String → State → Outcome × State) (r : Outcome × State)
      → P r.1
      → ((c : List String) (st : State) → P st → P (rest c st).1)
      → P (after_create env created replaced current n rest r).1
  unfolding after_create
  after_create_keeps created replaced current n rest (done, st) p h = h (n ∷ created) st p
  after_create_keeps created replaced current n rest (failed e, st) p h =
      give_up_keeps n e (rollback_reload env created replaced current st.defaults st)
        (rollback_reload_keeps created replaced current st.defaults st p)
  after_create_keeps created replaced current n rest (crashed, st) p h = p

  create_each_keeps :
      (d : Defaults) (raw current : Dict Server) (replaced ns created : List String) (st : State)
      → P st
      → P (create_each env d raw current replaced ns created st).1
  unfolding create_each
  create_each_keeps d raw current replaced [] created st p = p
  create_each_keeps d raw current replaced (n ∷ ns) created st p =
      after_create_keeps created replaced current n (create_each env d raw current replaced ns)
        (create env n (or_zero (find n raw)) d st) (create_keeps n _ d st p)
        (create_each_keeps d raw current replaced ns)

  carry_out_keeps :
      (cfg : Config) (plan : ReloadPlan) (raw current : Dict Server) (st : State)
      → P st
      → P (carry_out env cfg plan raw current st).1
  unfolding carry_out
  carry_out_keeps cfg plan raw current st p =
      when_done_keeps (delete_all env (plan.modified ++ plan.removed) st) _
        (delete_all_keeps (plan.modified ++ plan.removed) st p)
        (λ st1 p1.
          when_done_keeps
            (create_each env (normalize_defaults cfg.defaults) raw current
              (plan.modified ++ plan.removed) (plan.added ++ plan.modified) [] st1)
            _ (create_each_keeps _ raw current _ _ [] st1 p1) (λ st2 p2. commit_keeps cfg st2 p2))

  apply_plan_keeps :
      (cfg : Config) (plan : ReloadPlan) (raw current : Dict Server) (st : State)
      → P st
      → P (apply_plan env cfg plan raw current st).1
  unfolding apply_plan
  apply_plan_keeps cfg plan raw current st p =
      elim (Bool-cases (is_empty plan.added && is_empty plan.modified && is_empty plan.removed)) [
        | inl t ↦ rw t (commit_keeps cfg st p)
        | inr f ↦ rw f (carry_out_keeps cfg plan raw current st p)
      ]

  judged_keeps :
      {A : Type 0} (v : Verdict A) (st : State) (f : A → Outcome × State)
      → P st
      → ((a : A) → P (f a).1)
      → P (judged v st f).1
  judged_keeps (ok a) st f p h = h a
  judged_keeps (refused e) st f p h = p
  judged_keeps panics st f p h = p

  pub reload_keeps : (cfg : Config) (st : State) → P st → P (reload env cfg st).1
  unfolding reload
  reload_keeps cfg st p =
      judged_keeps
        (prepare_expanded_servers env.lib env.parse (normalize_defaults cfg.defaults) cfg.servers)
        st _ p
        (λ next.
          judged_keeps (raw_expanded_servers env.parse st.original.servers) st _ p (λ current.
            apply_plan_keeps cfg (plan_reload env.same st.servers next.0) next.1 current st p))
