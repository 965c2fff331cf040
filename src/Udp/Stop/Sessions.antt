-- ===== src/Udp/Stop/Sessions.antt =====
-- The sessions of a server that is stopped.
use gobetween.Base.{
  ℕ, zero, suc, String, ◌≡◌, refl, true, some, List, [], ◌∷◌, get_elem?, inl, inr, arith,
  Bool-cases, ◌=s◌,
}
use gobetween.Base.Dict.{Dict, find}
use gobetween.Udp.Session.{Session, closed}
use gobetween.Udp.Server.{Server, change}
use gobetween.Udp.Stop.{close_sessions, stop}

-- The session of a number is told to stop.
abbrev pub IsClosing : List Session → ℕ → Type 0
IsClosing heap id = (s : Session) × (get_elem? heap id ≡ some s) × (s.closing ≡ true)

change-IsClosing :
    (heap : List Session) (id other : ℕ)
    → IsClosing heap other
    → IsClosing (change closed heap id) other
unfolding change closed
change-IsClosing [] id other (s, p, q) = absurd (ground arith)
change-IsClosing (x ∷ heap) zero zero (s, p, q) = (closed x, refl, refl)
change-IsClosing (x ∷ heap) zero (suc n) (s, p, q) = (s, p, q)
change-IsClosing (x ∷ heap) (suc i) zero (s, p, q) = (s, p, q)
change-IsClosing (x ∷ heap) (suc i) (suc n) (s, p, q) = change-IsClosing heap i n (s, p, q)

changed-IsClosing :
    (heap : List Session) (id : ℕ) (s : Session)
    → get_elem? heap id ≡ some s
    → IsClosing (change closed heap id) id
unfolding change closed
changed-IsClosing [] id s p = absurd (ground arith)
changed-IsClosing (x ∷ heap) zero s p = (closed x, refl, refl)
changed-IsClosing (x ∷ heap) (suc i) s p = changed-IsClosing heap i s p

-- A session stays where it is on the heap.
change-some :
    (heap : List Session) (id other : ℕ) (s : Session)
    → get_elem? heap other ≡ some s
    → (s' : Session) × (get_elem? (change closed heap id) other ≡ some s')
unfolding change
change-some [] id other s p = absurd (ground arith)
change-some (x ∷ heap) zero zero s p = (_, refl)
change-some (x ∷ heap) zero (suc n) s p = (s, p)
change-some (x ∷ heap) (suc i) zero s p = (s, p)
change-some (x ∷ heap) (suc i) (suc n) s p = change-some heap i n s p

close_sessions-keeps :
    (heap : List Session) (m : Dict ℕ) (id : ℕ)
    → IsClosing heap id
    → IsClosing (close_sessions heap m) id
unfolding close_sessions
close_sessions-keeps heap [] id h = h
close_sessions-keeps heap ((k, i) ∷ m) id h =
    close_sessions-keeps (change closed heap i) m id (change-IsClosing heap i id h)

close_sessions-IsClosing :
    (heap : List Session) (m : Dict ℕ) (key : String) (id : ℕ) (s : Session)
    → find key m ≡ some id
    → get_elem? heap id ≡ some s
    → IsClosing (close_sessions heap m) id
unfolding close_sessions find
close_sessions-IsClosing heap [] key id s p q = absurd (ground arith)
close_sessions-IsClosing heap ((k, i) ∷ m) key id s p q = elim (Bool-cases (k =s key)) [
  | inl t ↦
      let same : i ≡ id = ground arith in
      close_sessions-keeps (change closed heap i) m id (rw same (changed-IsClosing heap id s q))
  | inr f ↦
      let (s', q') = change-some heap i id s q in
      close_sessions-IsClosing (change closed heap i) m key id s' (rw f at p) q'
]

-- A stop empties the map of sessions, and each of them is told to stop.
pub stop-IsClosing :
    (v : Server) (key : String) (id : ℕ) (s : Session)
    → find key v.sessions ≡ some id
    → get_elem? v.heap id ≡ some s
    → ((stop v).0.sessions ≡ []) × IsClosing (stop v).0.heap id
unfolding stop
stop-IsClosing v key id s p q = (refl, close_sessions-IsClosing v.heap v.sessions key id s p q)
