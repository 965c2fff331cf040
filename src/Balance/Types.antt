-- ===== src/Balance/Types.antt =====
-- core/balancer.go and core/context.go: the argument and the outcomes of an election.
use gobetween.Base.{ℕ, String, Bool, Option, List}
use gobetween.Core.{Backend}

-- What the balancers read of a connection: the bytes of `Ip()`, and `Sni()`.
pub record Context : Type 0 where
  pub ip : List ℕ
  pub sni : String

-- The errors that the balancers build by `errors.New`.
pub data Error : Type 0 where
  backends_empty : Error
  cannot_elect : Error
  all_at_limit : Error
  no_matching_sni : String → Error

-- `(backend, nil)`, `(nil, nil)`, `(nil, err)`, and a run-time panic.
pub data Outcome : Type 0 where
  elected : Backend → Outcome
  nothing : Outcome
  refused : Error → Outcome
  panics : Outcome

-- What the balancers take from outside: `rand.Intn` at its one call of an election,
-- `strings.ToLower`, and a pattern's compilation and match (`none` for a pattern that is refused).
pub record Env : Type 0 where
  pub intn : ℕ → ℕ
  pub to_lower : String → String
  pub regexp : String → String → Option Bool
