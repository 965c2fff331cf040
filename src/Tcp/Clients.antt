-- ===== src/Tcp/Clients.antt =====
-- server/tcp/server.go: the goroutine that owns the map of clients. A connection is the text of its
-- remote address, the key of the map, and a number that tells it from others.
use gobetween.Base.{
  ℕ, ◌+◌, ◌≤◌, ◌<◌, String, Bool, false, not, ◌&&◌, List, [], ◌∷◌, ◌++◌, ◌=s◌, ◌==◌, u64,
  if◌then◌else◌, length, arith,
}
use gobetween.Base.Int.{ℤ, pos, negsuc, leb_ℤ}

pub record Conn : Type 0 where
  pub remote : String
  pub serial : ℕ

-- `clients[k] = conn`
unfoldable pub put : Conn → List (String × Conn) → List (String × Conn)
put conn [] = (conn.remote, conn) ∷ []
put conn ((k, c) ∷ m) = if k =s conn.remote then (k, conn) ∷ m else (k, c) ∷ put conn m

-- `delete(clients, k)`
unfoldable pub remove : String → List (String × Conn) → List (String × Conn)
remove k [] = []
remove k ((j, c) ∷ m) = let rest = remove k m in if j =s k then rest else (j, c) ∷ rest

pub data Effect : Type 0 where
  close start_handle : Conn → Effect
  connections : ℕ → Effect

is_zero_ℤ : ℤ → Bool
is_zero_ℤ (pos n) = n == 0
is_zero_ℤ (negsuc n) = false

-- `*MaxConnections != 0 && len(clients) >= *MaxConnections`
unfoldable pub too_many : ℤ → List (String × Conn) → Bool
unfolding is_zero_ℤ
too_many max m = not (is_zero_ℤ max) && leb_ℤ max (pos (length m))

-- `HandleClientConnect`.
unfoldable pub handle_connect : ℤ → List (String × Conn) → Conn → List (String × Conn) × List Effect
unfolding too_many put
handle_connect max m conn =
    if too_many max m
    then (m, close conn ∷ [])
    else (put conn m, connections (u64 (length (put conn m))) ∷ start_handle conn ∷ [])

-- `HandleClientDisconnect`.
unfoldable pub handle_disconnect : List (String × Conn) → Conn → List (String × Conn) × List Effect
unfolding remove
handle_disconnect m conn =
    let m' = remove conn.remote m in (m', close conn ∷ connections (u64 (length m')) ∷ [])

pub data Event : Type 0 where
  connect disconnect : Conn → Event

-- The loop of `Start`.
unfoldable pub step : ℤ → List (String × Conn) → Event → List (String × Conn) × List Effect
step max m (connect conn) = handle_connect max m conn
step max m (disconnect conn) = handle_disconnect m conn

unfoldable pub run : ℤ → List (String × Conn) → List Event → List (String × Conn) × List Effect
unfolding step
run max m [] = (m, [])
run max m (e ∷ es) =
    let (m', sent) = step max m e in let (m'', rest) = run max m' es in (m'', sent ++ rest)

length-put : (conn : Conn) (m : List (String × Conn)) → length (put conn m) ≤ length m + 1
unfolding put
length-put conn [] = omega arith
length-put conn ((k, c) ∷ m) = ground (arith, length-put conn m)

length-remove : (k : String) (m : List (String × Conn)) → length (remove k m) ≤ length m
unfolding remove
length-remove k [] = omega arith
length-remove k ((j, c) ∷ m) = ground (arith, length-remove k m)

step_bounded :
    (limit : ℕ) (m : List (String × Conn)) (e : Event)
    → 0 < limit
    → length m ≤ limit
    → length (step (pos limit) m e).0 ≤ limit
unfolding step handle_connect handle_disconnect too_many is_zero_ℤ
step_bounded limit m (connect conn) p h = ground (arith, length-put conn m)
step_bounded limit m (disconnect conn) p h = omega (arith, length-remove conn.remote m)

-- With a positive limit on connections, the map of clients never exceeds it, in any sequence of
-- connects and disconnects that starts within it.
pub run_bounded :
    (limit : ℕ) (m : List (String × Conn)) (es : List Event)
    → 0 < limit
    → length m ≤ limit
    → length (run (pos limit) m es).0 ≤ limit
unfolding run
run_bounded limit m [] p h = h
run_bounded limit m (e ∷ es) p h =
    run_bounded limit (step (pos limit) m e).0 es p (step_bounded limit m e p h)
