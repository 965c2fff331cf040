-- ===== src/Manager/Servers/Tracked.antt =====
-- The map of servers against the servers that run.
use gobetween.Base.{
  Option, ◌≡◌, refl, sym, subst, ap, ◌∙◌, inl, inr, String, Bool, true, false, none, some, ◌=s◌,
  if◌then◌else◌, is_some,
}
use gobetween.Base.Dict.{find, find-set, find-erase, IsUnique, set-IsUnique, erase-IsUnique}
use gobetween.Config.{Server}
use gobetween.Manager.Prepare.{Defaults}
use gobetween.Manager.Servers.{State, Env, create, delete_server, running}
use gobetween.Manager.Servers.Effects.{IsCreated, IsDeleted, create-Ends, delete_server-Ends}
use gobetween.Manager.Servers.Quiet.{IsQuiet}

-- The names in the map are those of the servers that run, each once.
pub record IsTracked (st : State) : Type 0 where
  pub unique : IsUnique st.servers
  pub runs : (k : String) → running k st.calls ≡ is_some (find k st.servers)

pub quiet-IsTracked : (st st' : State) → IsQuiet st st' → IsTracked st → IsTracked st'
quiet-IsTracked st st' q t = record {
  unique = subst IsUnique (sym q.servers) t.unique;
  runs = λ k. q.running k ∙ t.runs k ∙ ap (λ m. is_some (find k m)) (sym q.servers);
}

is_some-if_some :
    {A : Type 0} (b : Bool) (a : A) (o : Option A)
    → is_some (if b then some a else o) ≡ (if b then true else is_some o)
is_some-if_some true a o = refl
is_some-if_some false a o = refl

is_some-if_none :
    {A : Type 0} (b : Bool) (o : Option A)
    → is_some (if b then none else o) ≡ (if b then false else is_some o)
is_some-if_none true o = refl
is_some-if_none false o = refl

pub created-IsTracked :
    (env : Env) (name : String) (cfg : Server) (defaults : Defaults) (st st' : State)
    → IsCreated env name cfg defaults st st'
    → IsTracked st
    → IsTracked st'
created-IsTracked env name cfg defaults st st' c t = record {
  unique = subst IsUnique (sym c.servers) (set-IsUnique name c.config st.servers t.unique);
  runs = λ k.
      c.running k
      ∙ ap (λ b. if name =s k then true else b) (t.runs k)
      ∙ sym (is_some-if_some (name =s k) c.config (find k st.servers))
      ∙ ap is_some (sym (find-set name k c.config st.servers))
      ∙ ap (λ m. is_some (find k m)) (sym c.servers);
}

pub deleted-IsTracked :
    (name : String) (st st' : State) → IsDeleted name st st' → IsTracked st → IsTracked st'
deleted-IsTracked name st st' d t = record {
  unique = subst IsUnique (sym d.servers) (erase-IsUnique name st.servers t.unique);
  runs = λ k.
      d.running k
      ∙ ap (λ b. if name =s k then false else b) (t.runs k)
      ∙ sym (is_some-if_none (name =s k) (find k st.servers))
      ∙ ap is_some (sym (find-erase name k st.servers))
      ∙ ap (λ m. is_some (find k m)) (sym d.servers);
}

-- `create` keeps the names in the map those of the servers that run, whichever of its calls fail.
pub create-IsTracked :
    (env : Env) (name : String) (cfg : Server) (defaults : Defaults) (st : State)
    → IsTracked st
    → IsTracked (create env name cfg defaults st).1
create-IsTracked env name cfg defaults st t = elim (create-Ends env name cfg defaults st) [
  | inl (_, q) ↦ quiet-IsTracked st _ q t
  | inr (_, c) ↦ created-IsTracked env name cfg defaults st _ c t
]

-- `deleteServer` keeps the names in the map those of the servers that run.
pub delete_server-IsTracked :
    (env : Env) (name : String) (st : State)
    → IsTracked st
    → IsTracked (delete_server env name st).1
delete_server-IsTracked env name st t = elim (delete_server-Ends env name st) [
  | inl (_, q) ↦ quiet-IsTracked st _ q t
  | inr (_, (_, d)) ↦ deleted-IsTracked name st _ d t
]
