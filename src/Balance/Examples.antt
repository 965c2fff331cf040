-- ===== src/Balance/Examples.antt =====
-- The theorems on the balancers, applied to a pool of three backends.
use gobetween.Base.{
  ℕ, zero, suc, ◌≡◌, ◌≢◌, refl, String, true, false, some, List, [], ◌∷◌, map, arith, All, Member,
  ◌%◌, ◌=s◌,
}
use mathlib.Core.List.{Perm}
use gobetween.Base.Int.{ℤ, pos, ◌≤ℤ◌}
use gobetween.Core.{Backend}
use gobetween.Balance.Types.{Env, Context, elected}
use gobetween.Balance.Leastconn
use gobetween.Balance.Leastconn.{no_busier, less_loaded, elect-IsFound, elect_bandwidth-IsFound}
use gobetween.Balance.Weight
use gobetween.Balance.Weight.FirstPass.{weights, lowest}
use gobetween.Balance.Weight.Election.{IsIntn, elect-lowest, elect-share}
use gobetween.Balance.Roundrobin.Cycle.{elections, elections-perm}
use gobetween.Balance.Iphash
use gobetween.Balance.Iphash.{hash_of}
use gobetween.Balance.Iphash.Stable.{elect1-drop}
use gobetween.Base.{ap}
use gobetween.Base.Bytes.{bytes}
use gobetween.Core.{address}
use gobetween.Balance.Scan.{scan}
use gobetween.Balance.Fnv.{sum32}
use gobetween.Balance.Roundrobin
use gobetween.Balance.Roundrobin.{sort_stable, before}
use gobetween.Config.{Sni}
use gobetween.Balance.Middleware.{at_limit, eligible, match_sni, matching_backends, select}
use gobetween.Balance.Registry
use gobetween.Balance.Registry.{max_connections, leastconn, with_sni, roundrobin, new, base}
use gobetween.Balance.Registry.Sound.{Fits, elect-at_limit, elect-Fits}

abbrev backend : String → ℤ → ℕ → ℤ → ℕ → Backend
backend host priority weight limit active = record {
  target = record { host = host; port = "80" };
  priority = priority;
  weight = pos weight;
  max_connections = limit;
  sni = host;
  stats = record {
    live = true;
    discovered = true;
    total_connections = 0;
    active_connections = active;
    refused_connections = 0;
    rx_bytes = 0;
    tx_bytes = 0;
    rx_second = active;
    tx_second = 3;
  };
}

abbrev one : Backend
one = backend "a" (pos 1) 2 (pos 5) 5

abbrev two : Backend
two = backend "b" (pos 1) 3 (pos 0) 1

abbrev three : Backend
three = backend "c" (pos 2) 9 (pos 0) 1

abbrev pool : List Backend
pool = two ∷ three ∷ []

abbrev middle : ℕ → ℕ
middle zero = 0
middle (suc n) = 2 % suc n

abbrev env : Env
env = record { intn = middle; to_lower = λ s. s; regexp = λ p s. some (p =s s) }

abbrev client : Context
client = record { ip = 10 ∷ 0 ∷ 0 ∷ 1 ∷ []; sni = "b" }

abbrev exact : Sni
exact = record {
  hostname_matching_strategy = "exact";
  unexpected_hostname_strategy = "any";
  read_timeout = "";
}

middle-IsIntn : IsIntn middle
middle-IsIntn zero h = elim h [ ]
middle-IsIntn (suc n) h = omega arith

elect-lowest_example :
    (e : Backend) × (Weight.elect env (one ∷ pool) ≡ elected e)
    × Member e (one ∷ pool)
    × All (λ x. e.priority ≤ℤ x.priority) (one ∷ pool)
unfolding weights
elect-lowest_example =
    elect-lowest env one pool middle-IsIntn
      ((omega arith, omega arith), ((omega arith, omega arith), ((omega arith, omega arith), tt)))
      (omega arith) (omega arith)

elect-share_example : Weight.elect env (one ∷ pool) ≡ elected two
unfolding weights lowest
elect-share_example =
    elect-share env one pool (one ∷ []) [] two
      ((omega arith, omega arith), ((omega arith, omega arith), ((omega arith, omega arith), tt)))
      (omega arith) refl (omega arith) (omega arith)

elections-perm_example :
    (order : List Backend) × Perm order (one ∷ pool)
    × ((elections 3 2 (one ∷ pool)).0 ≡ map elected order)
elections-perm_example = elections-perm one pool 2

sni_run :
    (Registry.elect env (with_sni exact (max_connections leastconn)) client (one ∷ pool)).0
    ≡ elected two
unfolding Registry.elect select matching_backends match_sni eligible at_limit Leastconn.elect scan
sni_run = refl

round_run :
    (Registry.elect env (max_connections (roundrobin 0)) client (one ∷ pool)).0 ≡ elected two
unfolding Registry.elect eligible at_limit Roundrobin.elect sort_stable before address
round_run = refl

hash_run : Iphash.elect1 client (one ∷ pool) ≡ elected two
unfolding Iphash.elect1 hash_of sum32 bytes address
hash_run = refl

elect-at_limit_example : at_limit two ≡ false
elect-at_limit_example =
    elect-at_limit env (max_connections (roundrobin 0)) client (one ∷ pool) two tt round_run

elect-Fits_example : Fits env exact client (one ∷ pool) two
elect-Fits_example =
    elect-Fits env exact (max_connections leastconn) client (one ∷ pool) two sni_run

distinct : one ≢ two
distinct e = let same : ◌≡◌ {A = ℕ} 5 1 = ap Leastconn.active e in omega arith

elect1-drop_example : Iphash.elect1 client (two ∷ three ∷ []) ≡ elected two
elect1-drop_example = elect1-drop client [] pool one two hash_run distinct
