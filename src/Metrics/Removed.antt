-- ===== src/Metrics/Removed.antt =====
-- What the gauges show after backends are removed.
use gobetween.Base.{
  String, ◌≡◌, refl, ◌∙◌, subst, inl, inr, false, Option, none, some, List, [], ◌∷◌, ◌=s◌, arith,
  eq_iff, Bool-cases, Member,
}
use gobetween.Core.{Target, Backend, ◌=t◌, =t_iff}
use gobetween.Core.Table.{lookup, insert, lookup-insert}
use gobetween.Scheduler.{values}
use gobetween.Metrics.{
  Client, Gauges, Metrics, backend_labels, when_enabled, without_backend, remove_backends,
  remove_backend,
}
use gobetween.Metrics.Series.{
  ◌=l◌, IsClient, BackendGauge, gauge, Confined, without_backend-gone, without_backend-Confined,
}

pub lookup-Member :
    (t : Target) (b : Backend) (m : List (Target × Backend))
    → lookup t m ≡ some b
    → Member b (values m)
unfolding lookup values
lookup-Member t b [] h = absurd (ground arith)
lookup-Member t b ((u, c) ∷ m) h = elim (Bool-cases (u =t t)) [
  | inl e ↦ inl (ground arith)
  | inr e ↦ inr (lookup-Member t b m (rw e at h))
]

-- Metrics that are enabled and started.
abbrev pub on : {Vec : Type 0} → Gauges Vec → Metrics Vec
on gs = record { metrics_disabled = false; gauges = some gs }

pub labels_differ :
    (server : String) (t u : Target)
    → (t =t u) ≡ false
    → (backend_labels server t =l backend_labels server u) ≡ false
unfolding backend_labels
labels_differ server t u h = ground (arith, eq_iff t.host u.host, eq_iff t.port u.port)

servers_differ :
    (server other : String) (t u : Target)
    → (server =s other) ≡ false
    → (backend_labels server t =l backend_labels other u) ≡ false
unfolding backend_labels
servers_differ server other t u h = ground arith

module _ {Vec Num : Type 0} (client : Client Vec Num) where
  -- The gauges have values only for backends of the table.
  abbrev pub IsCovered : String → List (Target × Backend) → Gauges Vec → Type 0
  IsCovered server m gs =
      (g : BackendGauge) (t : Target)
      → lookup t m ≡ none
      → client.value (backend_labels server t) (gauge g gs) ≡ none

  -- No other server is touched.
  abbrev pub OthersKept : String → Gauges Vec → Gauges Vec → Type 0
  OthersKept server gs gs' =
      (g : BackendGauge) (other : String) (t : Target)
      → (server =s other) ≡ false
      → client.value (backend_labels other t) (gauge g gs')
        ≡ client.value (backend_labels other t) (gauge g gs)

  -- The end of a run: no gauge shows a backend of the server, and the other servers' are as before.
  abbrev pub Swept : String → Gauges Vec → Option (Metrics Vec) → Type 0
  Swept server gs end =
      (gs' : Gauges Vec) × (end ≡ some (on gs'))
      × ((g : BackendGauge) (t : Target)
          → client.value (backend_labels server t) (gauge g gs') ≡ none)
      × OthersKept server gs gs'

  pub Confined-OthersKept :
      (server : String) (t : Target) (gs gs' : Gauges Vec)
      → Confined client server t gs gs'
      → OthersKept server gs gs'
  Confined-OthersKept server t gs gs' c g other u h =
      c g other u (servers_differ server other t u h)

  pub Confined-IsCovered :
      (server : String) (t : Target) (b : Backend) (m : List (Target × Backend))
      (gs gs' : Gauges Vec)
      → Confined client server t gs gs'
      → IsCovered server m gs
      → IsCovered server (insert t b m) gs'
  Confined-IsCovered server t b m gs gs' c h g u p = elim (Bool-cases (t =t u)) [
    | inl e ↦ absurd (ground (arith, lookup-insert t u b m))
    | inr e ↦
        c g server u (labels_differ server t u e) ∙ h g u (ground (arith, lookup-insert t u b m))
  ]

  -- The gauges after backends are removed.
  pub removed : String → List Backend → Gauges Vec → Gauges Vec
  removed server [] gs = gs
  removed server (b ∷ bs) gs = removed server bs (without_backend client server b.target gs)

  pub remove_backends-on :
      (server : String) (bs : List Backend) (gs : Gauges Vec)
      → remove_backends client server bs (on gs) ≡ on (removed server bs gs)
  unfolding remove_backends remove_backend when_enabled removed
  remove_backends-on server [] gs = refl
  remove_backends-on server (b ∷ bs) gs =
      remove_backends-on server bs (without_backend client server b.target gs)

  module _ (laws : IsClient client) where
    pub removed-none :
        (server : String) (bs : List Backend) (gs : Gauges Vec) (g : BackendGauge) (t : Target)
        → client.value (backend_labels server t) (gauge g gs) ≡ none
        → client.value (backend_labels server t) (gauge g (removed server bs gs)) ≡ none
    unfolding removed
    removed-none server [] gs g t h = h
    removed-none server (b ∷ bs) gs g t h =
        removed-none server bs _ g t (elim (Bool-cases (b.target =t t)) [
          | inl e ↦
              subst
                (λ (u : Target).
                  client.value (backend_labels server u)
                    (gauge g (without_backend client server b.target gs))
                  ≡ none)
                ((=t_iff b.target t).0 e) (without_backend-gone client laws server b.target gs g)
          | inr e ↦
              without_backend-Confined client laws server b.target gs g server t
                (labels_differ server b.target t e)
              ∙ h
        ])

    pub removed-gone :
        (server : String) (bs : List Backend) (gs : Gauges Vec) (g : BackendGauge) (b : Backend)
        → Member b bs
        → client.value (backend_labels server b.target) (gauge g (removed server bs gs)) ≡ none
    unfolding removed
    removed-gone server [] gs g b m = absurd m
    removed-gone server (c ∷ bs) gs g b (inl e) =
        removed-none server bs _ g b.target
          (rw e (without_backend-gone client laws server c.target gs g))
    removed-gone server (c ∷ bs) gs g b (inr m) = removed-gone server bs _ g b m

    pub removed-OthersKept :
        (server : String) (bs : List Backend) (gs : Gauges Vec)
        → OthersKept server gs (removed server bs gs)
    unfolding removed
    removed-OthersKept server [] gs g other t h = refl
    removed-OthersKept server (b ∷ bs) gs g other t h =
        removed-OthersKept server bs _ g other t h
        ∙ without_backend-Confined client laws server b.target gs g other t
            (servers_differ server other b.target t h)
