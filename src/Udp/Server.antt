-- ===== src/Udp/Server.antt =====
-- server/udp/server.go: the map of sessions, and a datagram on its way to a backend.
use gobetween.Base.{
  zero, suc, ◌==◌, suc, ℕ, ◌+◌, ◌≡◌, Bool, true, false, not, Option, none, some, List, [], ◌∷◌,
  ◌++◌, String, ◌=s◌, length, get_elem?, if◌then◌else◌,
}
use gobetween.Base.Dict.{Dict, find, set}
use gobetween.Core.{Backend, address}
use gobetween.Config.{ProxyProtocol}
use gobetween.Access.{Net, Access, allows}
use gobetween.Scheduler.{Op, OpAction, increment_tx}
use gobetween.Udp.Session.{SessionConfig, Session, closed, enqueue, new_session}
pub mod Sessions

-- The sessions that were made, by their number; the map, from the text of a client's address to the
-- number of its session; and the pool of `fireAndForget`, from addresses to connections.
pub record Server : Type 0 where
  pub heap : List Session
  pub sessions : Dict ℕ
  pub pool : Dict ℕ

-- What the scheduler and the statistics are told.
pub data Action : Type 0 where
  operate : Op → Action
  connections : ℕ → Action

-- `IsDone` of a session that is on the heap.
pub is_done : List Session → ℕ → Bool
is_done heap id = elim (get_elem? heap id) [ none ↦ false | some s ↦ s.stopped ]

-- `Close`, or another change of one session.
unfoldable pub change : (Session → Session) → List Session → ℕ → List Session
change f [] id = []
change f (s ∷ heap) zero = f s ∷ heap
change f (s ∷ heap) (suc id) = s ∷ change f heap id

-- The entries whose sessions are not done.
pub keep_open : List Session → Dict ℕ → Dict ℕ
unfolding is_done
keep_open heap [] = []
keep_open heap ((k, id) ∷ m) =
    let rest = keep_open heap m in if is_done heap id then rest else (k, id) ∷ rest

-- `cleanup`
unfoldable pub cleanup : Server → Server × List Action
unfolding keep_open
cleanup v =
    let m = keep_open v.heap v.sessions in (record v { sessions = m }, connections (length m) ∷ [])

operated : List Op → List Action
operated [] = []
operated (o ∷ os) = operate o ∷ operated os

-- A new session under a key, once a backend is connected to.
pub add_session : SessionConfig → String → Backend → Server → Server × List Action
unfolding operated
add_session config key b v =
    let (s, ops) = new_session config b in
    let m = set key (length v.heap) v.sessions in
    (
      record v { heap = v.heap ++ (s ∷ []); sessions = m },
      operated ops ++ (connections (length m) ∷ []),
    )

-- What the calls of `electAndConnect` give: `TakeBackend`, whether the address is resolved, and the
-- new connection, each if it is no error.
pub record Dial : Type 0 where
  pub taken : Option Backend
  pub resolved : Bool
  pub dialed : Option ℕ

dial : Backend → Dial → Option (ℕ × Backend)
dial b d = if d.resolved then (elim d.dialed [ none ↦ none | some c ↦ some (c, b) ]) else none

put : Backend → Option (ℕ × Backend) → Dict ℕ → Dict ℕ
put b none pool = pool
put b (some c) pool = set (address b.target) c.0 pool

-- `electAndConnect`, with a pool.
pub elect_and_connect : Dict ℕ → Dial → Option (ℕ × Backend) × Dict ℕ
unfolding dial put
elect_and_connect pool d = elim d.taken [
  | none ↦ (none, pool)
  | some b ↦ elim (find (address b.target) pool) [
    | some c ↦ (some (c, b), pool)
    | none ↦ (dial b d, put b (dial b d) pool)
  ]
]

-- The same without one: the pool is nil, so it has nothing and keeps nothing.
pub connect_alone : Dial → Option Backend
unfolding elect_and_connect
connect_alone d = elim (elect_and_connect [] d).0 [ none ↦ none | some c ↦ some c.1 ]

-- The rest of `getOrCreateSession`, where there is no session to reuse; `connected` is what
-- `electAndConnect` gives, if it is no error.
pub create_session :
    SessionConfig → String → Option Backend → Server → Option ℕ × Server × List Action
unfolding add_session
create_session config key none v = (none, v, [])
create_session config key (some b) v =
    let r = add_session config key b v in (some (length v.heap), r.0, r.1)

pub reuse :
    SessionConfig → String → Option Backend → Server → Option ℕ → Option ℕ × Server × List Action
unfolding create_session is_done
reuse config key connected v none = create_session config key connected v
reuse config key connected v (some id) =
    if is_done v.heap id
    then create_session config key connected (record v { heap = change closed v.heap id })
    else (some id, v, [])

-- `getOrCreateSession`: the number of the session, if there is no error.
unfoldable pub get_or_create_session :
    SessionConfig → String → Option Backend → Server → Option ℕ × Server × List Action
unfolding reuse
get_or_create_session config key connected v = reuse config key connected v (find key v.sessions)

-- The bytes that are sent for a datagram of `n` bytes; `wrapped` is the length with the header of the
-- proxy protocol, if it can be put before it.
pub wrap : Option ProxyProtocol → Option ℕ → ℕ → Option ℕ
wrap none wrapped n = some n
wrap (some p) wrapped n = if p.version =s "2" then wrapped else none

written_to : ℕ → Option ℕ × Server × List Action → Server × List Action
written_to n (none, v, done) = (v, done)
written_to n (some id, v, done) = (record v { heap = change (λ s. enqueue s n) v.heap id }, done)

-- `proxy`
pub proxy :
    SessionConfig
    → Option ProxyProtocol
    → Option ℕ
    → String
    → Dial
    → ℕ
    → Server
    → Server × List Action
unfolding wrap written_to
proxy config p wrapped key d n v = elim (wrap p wrapped n) [
  | none ↦ (v, [])
  | some len ↦ written_to len (get_or_create_session config key (connect_alone d) v)
]

-- The end of `fireAndForget`, over a connection; `sent` is what `conn.Write` gives, if it is no error.
send_one : Option (ℕ × Backend) → Option ℕ → ℕ → List Action
send_one none sent len = []
send_one (some c) none len = []
send_one (some c) (some m) len =
    if m == len
    then operate (record { target = c.1.target; action = increment_tx; param = some m }) ∷ []
    else []

-- `fireAndForget`
pub fire_and_forget :
    Option ProxyProtocol → Option ℕ → Dial → Option ℕ → ℕ → Server → Server × List Action
unfolding wrap send_one
fire_and_forget p wrapped d sent n v = elim (wrap p wrapped n) [
  | none ↦ (v, [])
  | some len ↦
      let r = elect_and_connect v.pool d in (record v { pool = r.1 }, send_one r.0 sent len)
]

-- What a datagram meets: the address of its client and the text of it, and what the calls for it give.
pub record Datagram (Ip : Type 0) : Type 0 where
  pub ip : Ip
  pub key : String
  pub size : ℕ
  pub dialed : Dial
  pub wrapped : Option ℕ
  pub sent : Option ℕ

admits : {Ip Mask : Type 0} → Net Ip Mask → Option (Access Ip Mask) → Ip → Bool
admits net none ip = true
admits net (some a) ip = allows net a ip

-- One round of the loop of `serve`, for a datagram that is read.
pub serve :
    {Ip Mask : Type 0}
    → Net Ip Mask
    → Option (Access Ip Mask)
    → SessionConfig
    → Option ProxyProtocol
    → Datagram Ip
    → Server
    → Server × List Action
unfolding admits proxy fire_and_forget
serve net access config p d v =
    if admits net access d.ip
    then (if config.max_requests == 1
        then fire_and_forget p d.wrapped d.dialed d.sent d.size v
        else proxy config p d.wrapped d.key d.dialed d.size v)
    else (v, [])
