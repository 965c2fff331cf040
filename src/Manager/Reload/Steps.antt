-- ===== src/Manager/Reload/Steps.antt =====
-- What the loops of a reload that succeeds leave in the map of servers.
use gobetween.Base.{
  ◌≡◌, refl, subst, ap, ◌∙◌, String, true, false, none, List, [], ◌∷◌, if◌then◌else◌, inl, inr,
  ◌=s◌, arith,
}
use gobetween.Base.Dict.{Dict, find, find-erase, listed}
use gobetween.Config.{Server}
use gobetween.Manager.Verdict.{Verdict, ok, refused, panics}
use gobetween.Manager.Servers.{
  Outcome, done, failed, crashed, is_done, State, Env, delete_server, Failure,
}
use gobetween.Manager.Servers.Effects.{delete_server-Ends}
use gobetween.Manager.Reload.{when_done, delete_all, give_up, after_create, rollback_reload, judged}

pub when_done-done :
    (r : Outcome × State) (f : State → Outcome × State)
    → is_done (when_done r f).0 ≡ true
    → (is_done r.0 ≡ true) × (when_done r f ≡ f r.1)
when_done-done (done, st) f h = (refl, refl)
when_done-done (failed e, st) f h = absurd (ground arith)
when_done-done (crashed, st) f h = absurd (ground arith)

pub delete_all-find :
    (env : Env) (ns : List String) (st : State)
    → is_done (delete_all env ns st).0 ≡ true
    → (k : String)
    → find k (delete_all env ns st).1.servers ≡ (if listed k ns then none else find k st.servers)
unfolding delete_all listed
delete_all-find env [] st h k = refl
delete_all-find env (n ∷ ns) st h k =
    let r = delete_server env n st in
    let (first, next) = when_done-done r (delete_all env ns) h in
    elim (delete_server-Ends env n st) [
      | inl (f, _) ↦ absurd (ground arith)
      | inr (_, (_, d)) ↦
          let rest = delete_all-find env ns r.1 (subst (λ x. is_done x.0 ≡ true) next h) k in
          let erased : find k r.1.servers ≡ (if n =s k then none else find k st.servers) =
            ap (find k) d.servers ∙ find-erase n k st.servers in
          ap (λ x. find k x.1.servers) next ∙ rest ∙ ground arith
    ]

pub give_up-done :
    (n : String) (e : Failure) (r : Outcome × State) → is_done (give_up n e r).0 ≡ false
give_up-done n e (done, st) = refl
give_up-done n e (failed x, st) = refl
give_up-done n e (crashed, st) = refl

pub after_create-done :
    (env : Env) (created replaced : List String) (current : Dict Server) (n : String)
    (rest : List String → State → Outcome × State) (r : Outcome × State)
    → is_done (after_create env created replaced current n rest r).0 ≡ true
    → (is_done r.0 ≡ true)
      × (after_create env created replaced current n rest r ≡ rest (n ∷ created) r.1)
unfolding after_create
after_create-done env created replaced current n rest (done, st) h = (refl, refl)
after_create-done env created replaced current n rest (failed e, st) h =
    absurd (
      ground
        (arith, give_up-done n e (rollback_reload env created replaced current st.defaults st)))
after_create-done env created replaced current n rest (crashed, st) h = absurd (ground arith)

pub judged-done :
    {A : Type 0} (v : Verdict A) (st : State) (f : A → Outcome × State)
    → is_done (judged v st f).0 ≡ true
    → (a : A) × (v ≡ ok a) × (judged v st f ≡ f a)
judged-done (ok a) st f h = (a, refl, refl)
judged-done (refused e) st f h = absurd (ground arith)
judged-done panics st f h = absurd (ground arith)
