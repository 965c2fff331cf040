-- ===== src/Udp/Server/Sessions.antt =====
-- One open session for each client.
use gobetween.Base.{
  get_elem?, zero, suc, ◌++◌, ℕ, ◌≡◌, refl, subst, ap, ◌∙◌, false, Option, none, some, List, [],
  ◌∷◌, String, ◌=s◌, length, get_elem?-last, if◌then◌else◌, inl, inr, Bool-cases, arith, eq_iff,
}
use gobetween.Base.Dict.{Dict, find, find-set, IsUnique}
use gobetween.Core.{Backend}
use gobetween.Udp.Session.{SessionConfig, Session, closed, new_session}
use gobetween.Udp.Server.{
  Server, Action, is_done, change, keep_open, cleanup, add_session, create_session, reuse,
  get_or_create_session,
}

-- Every session that there is, but those of one key, is as it was.
pub AreKept : String → Server → Server → Type 0
AreKept key v v' =
    (n : ℕ) (s : Session)
    → get_elem? v.heap n ≡ some s
    → ¬ (find key v.sessions ≡ some n)
    → get_elem? v'.heap n ≡ some s

-- The session `id` is in the map under the key, open; no other key and no session of another has
-- changed.
pub record IsServed (key : String) (id : ℕ) (v v' : Server) : Type 0 where
  pub found : find key v'.sessions ≡ some id
  pub is_open : is_done v'.heap id ≡ false
  pub others : (k : String) → (key =s k) ≡ false → find k v'.sessions ≡ find k v.sessions
  pub kept : AreKept key v v'

get_elem?-snoc :
    (xs : List Session) (a : Session) (n : ℕ) (s : Session)
    → get_elem? xs n ≡ some s
    → get_elem? (xs ++ (a ∷ [])) n ≡ some s
get_elem?-snoc [] a n s h = cc
get_elem?-snoc (x ∷ xs) a zero s h = h
get_elem?-snoc (x ∷ xs) a (suc n) s h = get_elem?-snoc xs a n s h

get_elem?-change :
    (f : Session → Session) (xs : List Session) (m n : ℕ) (s : Session)
    → get_elem? xs n ≡ some s
    → ¬ (m ≡ n)
    → get_elem? (change f xs m) n ≡ some s
unfolding change
get_elem?-change f [] m n s h d = h
get_elem?-change f (x ∷ xs) zero zero s h d = absurd (d refl)
get_elem?-change f (x ∷ xs) zero (suc n) s h d = h
get_elem?-change f (x ∷ xs) (suc m) zero s h d = h
get_elem?-change f (x ∷ xs) (suc m) (suc n) s h d =
    get_elem?-change f xs m n s h (λ e. d (ap suc e))

-- The map and the sessions of others before, where the session of the key may have been closed.
add_session-IsServed :
    (config : SessionConfig) (key : String) (b : Backend) (v w : Server)
    → w.sessions ≡ v.sessions
    → AreKept key v w
    → IsServed key (length w.heap) v (add_session config key b w).0
unfolding add_session is_done new_session AreKept
add_session-IsServed config key b v w m k = record {
  found = find-set key key (length w.heap) w.sessions ∙ ground (arith, eq_iff key key);
  is_open = rw (get_elem?-last w.heap (new_session config b).0, is_done) refl;
  others = λ k f. find-set key k (length w.heap) w.sessions ∙ (rw f refl) ∙ ap (λ x. find k x) m;
  kept = λ n s h d. get_elem?-snoc w.heap (new_session config b).0 n s (k n s h d);
}

-- An entry counts unless its session is done.
abbrev pub still_open : List Session → Option ℕ → Option ℕ
still_open heap none = none
still_open heap (some id) = if is_done heap id then none else some id

-- What `getOrCreateSession` comes to, after the server as it was before.
abbrev pub Gives : String → Option Backend → Server → Option ℕ × Server × List Action → Type 0
Gives key connected v (none, v', acts) =
    (connected ≡ none) × (v'.sessions ≡ v.sessions) × AreKept key v v'
Gives key connected v (some id, v', acts) = IsServed key id v v'

create_session-Gives :
    (config : SessionConfig) (key : String) (connected : Option Backend) (v w : Server)
    → w.sessions ≡ v.sessions
    → AreKept key v w
    → Gives key connected v (create_session config key connected w)
unfolding create_session
create_session-Gives config key none v w m k = (refl, m, k)
create_session-Gives config key (some b) v w m k = add_session-IsServed config key b v w m k

same-AreKept : (key : String) (v : Server) → AreKept key v v
unfolding AreKept
same-AreKept key v = λ n s h d. h

closed-AreKept :
    (key : String) (v : Server) (id : ℕ)
    → find key v.sessions ≡ some id
    → AreKept key v (record v { heap = change closed v.heap id })
unfolding AreKept
closed-AreKept key v id e =
    λ n s h d. get_elem?-change closed v.heap id n s h (λ q. d (e ∙ ap some q))

reuse-Gives :
    (config : SessionConfig) (key : String) (connected : Option Backend) (v : Server) (o : Option ℕ)
    → find key v.sessions ≡ o
    → Gives key connected v (reuse config key connected v o)
      × ((id : ℕ)
          → still_open v.heap o ≡ some id
          → reuse config key connected v o ≡ (some id, v, []))
unfolding reuse
reuse-Gives config key connected v none e = (
  create_session-Gives config key connected v v refl (same-AreKept key v),
  λ id h. absurd (ground arith),
)
reuse-Gives config key connected v (some n) e = elim (Bool-cases (is_done v.heap n)) [
  | inl t ↦
      let closed_one : Server = record v { heap = change closed v.heap n } in
      rw t (
        create_session-Gives config key connected v closed_one refl (closed-AreKept key v n e),
        λ id h. absurd (ground arith),
      )
  | inr f ↦ rw f (
    record { found = e; is_open = f; others = λ k g. refl; kept = same-AreKept key v },
    λ id h. ap (with_server v) h,
  )
]
  where
    with_server : Server → Option ℕ → Option ℕ × Server × List Action
    with_server v o = (o, v, [])

-- A session of the client that is not done is reused and nothing changes; else, where a backend is
-- connected to, the client gets a session that is open, and no other entry of the map changes;
-- else the map stays as it is. In each case every session but the one that the client had stays as
-- it was.
pub get_or_create_session-Gives :
    (config : SessionConfig) (key : String) (connected : Option Backend) (v : Server)
    → Gives key connected v (get_or_create_session config key connected v)
      × ((id : ℕ)
          → still_open v.heap (find key v.sessions) ≡ some id
          → get_or_create_session config key connected v ≡ (some id, v, []))
unfolding get_or_create_session
get_or_create_session-Gives config key connected v =
    reuse-Gives config key connected v (find key v.sessions) refl

keep_open-find :
    (heap : List Session) (k : String) (m : Dict ℕ)
    → IsUnique m
    → find k (keep_open heap m) ≡ still_open heap (find k m)
unfolding keep_open find
keep_open-find heap k [] u = refl
keep_open-find heap k ((j, id) ∷ m) u = elim (Bool-cases (j =s k)) [
  | inr f ↦ ground (arith, keep_open-find heap k m u.1)
  | inl t ↦
      subst (λ x. find x (keep_open heap ((j, id) ∷ m)) ≡ still_open heap (find x ((j, id) ∷ m)))
        ((eq_iff j k).0 t) (ground (arith, eq_iff j j, keep_open-find heap j m u.1, u.0))
]

-- `cleanup` drops just the entries whose sessions are done.
pub cleanup-find :
    (v : Server) (k : String)
    → IsUnique v.sessions
    → find k (cleanup v).0.sessions ≡ still_open v.heap (find k v.sessions)
unfolding cleanup
cleanup-find v k u = keep_open-find v.heap k v.sessions u
