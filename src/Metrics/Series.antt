-- ===== src/Metrics/Series.antt =====
-- What the gauges of the backends show, under the documented laws of the Prometheus client.
use gobetween.Base.{
  eq_iff, ℕ, String, ◌≡◌, refl, Bool, true, false, ◌&&◌, Option, none, some, List, [], ◌∷◌, ◌=s◌,
  if◌then◌else◌, arith,
}
use gobetween.Core.{Target, BackendStats}
use gobetween.Metrics.{
  with_live, Client, Gauges, Metrics, backend_labels, without_backend, without_server, with_op,
  with_backend_stats,
}

-- The lists of labels are the same.
infix 50 ◌=l◌
abbrev pub ◌=l◌ : List String → List String → Bool
[] =l [] = true
(a ∷ as') =l (b ∷ bs) = a =s b && as' =l bs
[] =l (b ∷ bs) = false
(a ∷ as') =l [] = false

pub record IsClient {Vec Num : Type 0} (client : Client Vec Num) : Type 0 where
  pub value-new :
      (subsystem name : String) (ks ls : List String)
      → client.value ls (client.new_gauge_vec subsystem name ks) ≡ none
  pub value-set :
      (ks ls : List String) (n : Num) (v : Vec)
      → client.value ls (client.set ks n v) ≡ (if ks =l ls then some n else client.value ls v)
  pub value-delete :
      (ks ls : List String) (v : Vec)
      → client.value ls (client.delete_label_values ks v)
        ≡ (if ks =l ls then none else client.value ls v)

pub data BackendGauge : Type 0 where
  active refused total rx_bytes tx_bytes rx_second tx_second live : BackendGauge

abbrev pub gauge : {Vec : Type 0} → BackendGauge → Gauges Vec → Vec
gauge active gs = gs.backend_active_connections
gauge refused gs = gs.backend_refused_connections
gauge total gs = gs.backend_total_connections
gauge rx_bytes gs = gs.backend_rx_bytes
gauge tx_bytes gs = gs.backend_tx_bytes
gauge rx_second gs = gs.backend_rx_second
gauge tx_second gs = gs.backend_tx_second
gauge live gs = gs.backend_live

module _ {Vec Num : Type 0} (client : Client Vec Num) where
  -- What a gauge shows of a backend of a server.
  abbrev pub shown : BackendGauge → String → Target → Metrics Vec → Option Num
  shown g server t mtr = elim mtr.gauges [
    | none ↦ none
    | some gs ↦ client.value (backend_labels server t) (gauge g gs)
  ]

  -- Nothing changes but what the gauges show of one backend of one server.
  abbrev pub Confined : String → Target → Gauges Vec → Gauges Vec → Type 0
  Confined server t gs gs' =
      (g : BackendGauge) (other : String) (u : Target)
      → (backend_labels server t =l backend_labels other u) ≡ false
      → client.value (backend_labels other u) (gauge g gs')
        ≡ client.value (backend_labels other u) (gauge g gs)

  module _ (laws : IsClient client) where
    delete_other :
        (ks ls : List String) (v : Vec)
        → (ks =l ls) ≡ false
        → client.value ls (client.delete_label_values ks v) ≡ client.value ls v
    delete_other ks ls v h = rw (laws.value-delete ks ls v, h) refl

    set_other :
        (ks ls : List String) (n : Num) (v : Vec)
        → (ks =l ls) ≡ false
        → client.value ls (client.set ks n v) ≡ client.value ls v
    set_other ks ls n v h = rw (laws.value-set ks ls n v, h) refl

    labels_same :
        (server : String) (t : Target) → (backend_labels server t =l backend_labels server t) ≡ true
    unfolding backend_labels
    labels_same server t =
        ground (arith, eq_iff server server, eq_iff t.host t.host, eq_iff t.port t.port)

    delete_same :
        (server : String) (t : Target) (v : Vec)
        → client.value
            (backend_labels server t)
            (client.delete_label_values (backend_labels server t) v)
          ≡ none
    delete_same server t v = rw (laws.value-delete _ _ v, labels_same server t) refl

    pub without_backend-gone :
        (server : String) (t : Target) (gs : Gauges Vec) (g : BackendGauge)
        → client.value (backend_labels server t) (gauge g (without_backend client server t gs))
          ≡ none
    unfolding without_backend
    without_backend-gone server t gs active = delete_same server t _
    without_backend-gone server t gs refused = delete_same server t _
    without_backend-gone server t gs total = delete_same server t _
    without_backend-gone server t gs rx_bytes = delete_same server t _
    without_backend-gone server t gs tx_bytes = delete_same server t _
    without_backend-gone server t gs rx_second = delete_same server t _
    without_backend-gone server t gs tx_second = delete_same server t _
    without_backend-gone server t gs live = delete_same server t _

    pub without_backend-Confined :
        (server : String) (t : Target) (gs : Gauges Vec)
        → Confined server t gs (without_backend client server t gs)
    unfolding without_backend
    without_backend-Confined server t gs active other u h = delete_other _ _ _ h
    without_backend-Confined server t gs refused other u h = delete_other _ _ _ h
    without_backend-Confined server t gs total other u h = delete_other _ _ _ h
    without_backend-Confined server t gs rx_bytes other u h = delete_other _ _ _ h
    without_backend-Confined server t gs tx_bytes other u h = delete_other _ _ _ h
    without_backend-Confined server t gs rx_second other u h = delete_other _ _ _ h
    without_backend-Confined server t gs tx_second other u h = delete_other _ _ _ h
    without_backend-Confined server t gs live other u h = delete_other _ _ _ h

    pub with_op-Confined :
        (server : String) (t : Target) (gs : Gauges Vec) (st : BackendStats)
        → Confined server t gs (with_op client server t st gs)
    unfolding with_op
    with_op-Confined server t gs st active other u h = set_other _ _ _ _ h
    with_op-Confined server t gs st refused other u h = set_other _ _ _ _ h
    with_op-Confined server t gs st total other u h = set_other _ _ _ _ h
    with_op-Confined server t gs st rx_bytes other u h = refl
    with_op-Confined server t gs st tx_bytes other u h = refl
    with_op-Confined server t gs st rx_second other u h = refl
    with_op-Confined server t gs st tx_second other u h = refl
    with_op-Confined server t gs st live other u h = refl

    pub with_backend_stats-Confined :
        (server : String) (t : Target) (n : ℕ) (gs : Gauges Vec) (st : BackendStats)
        → Confined server t gs (with_backend_stats client server t n st gs)
    unfolding with_backend_stats
    with_backend_stats-Confined server t n gs st active other u h = refl
    with_backend_stats-Confined server t n gs st refused other u h = refl
    with_backend_stats-Confined server t n gs st total other u h = refl
    with_backend_stats-Confined server t n gs st rx_bytes other u h = set_other _ _ _ _ h
    with_backend_stats-Confined server t n gs st tx_bytes other u h = set_other _ _ _ _ h
    with_backend_stats-Confined server t n gs st rx_second other u h = set_other _ _ _ _ h
    with_backend_stats-Confined server t n gs st tx_second other u h = set_other _ _ _ _ h
    with_backend_stats-Confined server t n gs st live other u h = refl

    pub with_live-Confined :
        (server : String) (t : Target) (is_live : Bool) (gs : Gauges Vec)
        → Confined server t gs (with_live client server t is_live gs)
    unfolding with_live
    with_live-Confined server t is_live gs active other u h = refl
    with_live-Confined server t is_live gs refused other u h = refl
    with_live-Confined server t is_live gs total other u h = refl
    with_live-Confined server t is_live gs rx_bytes other u h = refl
    with_live-Confined server t is_live gs tx_bytes other u h = refl
    with_live-Confined server t is_live gs rx_second other u h = refl
    with_live-Confined server t is_live gs tx_second other u h = refl
    with_live-Confined server t is_live gs live other u h = set_other _ _ _ _ h

  pub without_server-same :
      (server : String) (gs : Gauges Vec) (g : BackendGauge)
      → gauge g (without_server client server gs) ≡ gauge g gs
  unfolding without_server
  without_server-same server gs active = refl
  without_server-same server gs refused = refl
  without_server-same server gs total = refl
  without_server-same server gs rx_bytes = refl
  without_server-same server gs tx_bytes = refl
  without_server-same server gs rx_second = refl
  without_server-same server gs tx_second = refl
  without_server-same server gs live = refl
