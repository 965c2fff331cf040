-- ===== src/Manager/Reload/Result.antt =====
-- The servers after a reload that succeeds.
use gobetween.Base.{
  ◌≡◌, subst, sym, ap, ◌∙◌, String, false, some, [], ◌∷◌, Bool-cases, inl, inr, All, ◌=s◌, eq_iff,
  arith,
}
use gobetween.Base.Dict.{Dict, find}
use gobetween.Config.{Config, Server}
use gobetween.Manager.Verdict.{ok, >>=-eq-ok, Library, ok_inj}
use gobetween.Manager.Healthcheck.{or_none}
use gobetween.Manager.Prepare.{Defaults, prepare_config, left_behind}
use gobetween.Manager.Prepare.Stages.{prepare_config-bind}
use gobetween.Manager.Prepare.Again.{prepare_config_again}
use gobetween.Manager.Reload.{prepare_all, or_zero, zero_server}

abbrev pub IsNoProbe : String × Server → Type 0
IsNoProbe e = ((or_none e.1.healthcheck).kind =s "probe") ≡ false

zero_refused :
    (lib : Library) (d : Defaults) (k : String) (c : Server)
    → prepare_config lib k d zero_server ≡ ok c
    → ⊥
zero_refused lib d k c e =
    let b = prepare_config-bind lib k d zero_server c e in absurd (ground (arith, b))

-- What the raw configurations have become is prepared to the prepared ones.
pub prepare_all-left :
    (lib : Library) (d : Defaults) (raw p l : Dict Server)
    → prepare_all lib d raw ≡ ok (p, l)
    → All IsNoProbe raw
    → (k : String) (c : Server) → prepare_config lib k d (or_zero (find k l)) ≡ ok c
    → find k p ≡ some c
unfolding prepare_all find
prepare_all-left lib d [] p l e h k c q =
    let same : [] ≡ l = ap (λ x. x.1) (ok_inj e) in
    absurd (
      zero_refused lib d k c
        (subst (λ x. prepare_config lib k d (or_zero (find k x)) ≡ ok c) (sym same) q))
prepare_all-left lib d ((n, s) ∷ raw) p l e h k c q =
    let (s', e1, e2) = >>=-eq-ok (prepare_config lib n d s) _ e in
    let (r, e3, e4) = >>=-eq-ok (prepare_all lib d raw) _ e2 in
    let same_p : (n, s') ∷ r.0 ≡ p = ap (λ x. x.0) (ok_inj e4) in
    let same_l : (n, left_behind s s') ∷ r.1 ≡ l = ap (λ x. x.1) (ok_inj e4) in
    let q' = subst (λ x. prepare_config lib k d (or_zero (find k x)) ≡ ok c) (sym same_l) q in
    subst (λ x. find k x ≡ some c) same_p
      (elim (Bool-cases (n =s k)) [
        | inr f ↦ rw f (prepare_all-left lib d raw r.0 r.1 e3 h.1 k c (rw f at q'))
        | inl t ↦
            let first : prepare_config lib k d (left_behind s s') ≡ ok c = rw t at q' in
            let again = prepare_config_again lib n d s s' e1 h.0 in
            rw t (
              ap some (
                ok_inj (
                  sym again
                  ∙ subst (λ x. prepare_config lib x d (left_behind s s') ≡ ok c)
                      (sym ((eq_iff n k).0 t)) first)))
      ])
