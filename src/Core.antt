-- ===== src/Core.antt =====
-- core/backend.go, core/target.go, core/misc.go: what the other components pass around.
use gobetween.Base.{ℕ, String, ◌≡◌, refl, ◌↔◌, Bool, true, ◌&&◌, ◌==◌, ◌=s◌, arith, eq_iff}
use gobetween.Base.Int.{ℤ}
use Prim.Native.String.{◌++◌}
pub mod Table

pub record Target : Type 0 where
  pub host : String
  pub port : String

-- `EqualTo`, which is also the equality of map keys.
infix 50 ◌=t◌
abbrev pub ◌=t◌ : Target → Target → Bool
s =t t = s.host =s t.host && s.port =s t.port

pub =t_iff : (s t : Target) → ((s =t t) ≡ true) ↔ (s ≡ t)
=t_iff s t = ground (arith, eq_iff s.host t.host, eq_iff s.port t.port)

pub =t_refl : (t : Target) → (t =t t) ≡ true
=t_refl t = (=t_iff t t).1 refl

unfoldable pub address : Target → String
address t = t.host ++ ":" ++ t.port

-- `uint` and `uint64` fields are words; `total_connections` is the pattern of an `int64`.
pub record BackendStats : Type 0 where
  pub live : Bool
  pub discovered : Bool
  pub total_connections : ℕ
  pub active_connections : ℕ
  pub refused_connections : ℕ
  pub rx_bytes : ℕ
  pub tx_bytes : ℕ
  pub rx_second : ℕ
  pub tx_second : ℕ

pub record Backend : Type 0 where
  pub target : Target
  pub priority : ℤ
  pub weight : ℤ
  pub max_connections : ℤ
  pub sni : String
  pub stats : BackendStats

pub equal_to : Backend → Backend → Bool
equal_to b other = b.target =t other.target

unfoldable pub merge_from : Backend → Backend → Backend
merge_from b other = record b {
  priority = other.priority;
  weight = other.weight;
  max_connections = other.max_connections;
  sni = other.sni;
}

pub record ReadWriteCount : Type 0 where
  pub count_read : ℕ
  pub count_write : ℕ
  pub target : Target

abbrev pub is_zero : ReadWriteCount → Bool
is_zero c = c.count_read == 0 && c.count_write == 0
