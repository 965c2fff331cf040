-- ===== src/Access.antt =====
-- server/modules/access/: the rules that say which clients may connect.
use gobetween.Base.{
  ℕ, ◌≡◌, refl, String, Bool, true, false, not, ◌&&◌, ◌||◌, Option, none, some, List, [], ◌∷◌, ◌++◌,
  ◌=s◌, if◌then◌else◌, arith,
}
use gobetween.Base.Bytes.{split_spaces}
use gobetween.Config.{AccessConfig}
pub mod Rules
pub mod Build
mod Examples

-- What the rules take from package net: `ParseIP`, the network of `ParseCIDR`, `IP.Equal` and
-- `IPNet.Contains`.
pub record Net (Ip Network : Type 0) : Type 0 where
  pub parse_ip : String → Option Ip
  pub parse_cidr : String → Option Network
  pub ip_equal : Ip → Ip → Bool
  pub contains : Network → Ip → Bool

-- `IsNetwork`, with the one of the two pointers that it says is set.
pub data Place (Ip Network : Type 0) : Type 0 where
  host : Ip → Place Ip Network
  network : Network → Place Ip Network

pub record AccessRule (Ip Network : Type 0) : Type 0 where
  pub allow : Bool
  pub place : Place Ip Network

pub record Access (Ip Network : Type 0) : Type 0 where
  pub allow_default : Bool
  pub rules : List (AccessRule Ip Network)

module _ {Ip Network : Type 0} (net : Net Ip Network) where
  found_network : Bool → Option Network → Option (AccessRule Ip Network)
  found_network allow none = none
  found_network allow (some n) = some (record { allow = allow; place = network n })

  -- An address, or else a network.
  found_place : Bool → Option Ip → Option Network → Option (AccessRule Ip Network)
  unfolding found_network
  found_place allow (some ip) n = some (record { allow = allow; place = host ip })
  found_place allow none n = found_network allow n

  pub parse_parts : List String → Option (AccessRule Ip Network)
  unfolding found_place
  parse_parts (r ∷ target ∷ []) =
      if not (r =s "allow") && not (r =s "deny")
      then none
      else found_place (r =s "allow") (net.parse_ip target) (net.parse_cidr target)
  parse_parts _ = none

  -- `ParseAccessRule`; `none` is an error.
  unfoldable pub parse_rule : String → Option (AccessRule Ip Network)
  unfolding parse_parts
  parse_rule rule = parse_parts (split_spaces rule)

  -- `Matches`.
  matches_place : Place Ip Network → Ip → Bool
  matches_place (host i) ip = net.ip_equal i ip
  matches_place (network n) ip = net.contains n ip

  unfoldable pub matches : AccessRule Ip Network → Ip → Bool
  unfolding matches_place
  matches r ip = matches_place r.place ip

  -- `Allows`.
  first_match : Bool → List (AccessRule Ip Network) → Ip → Bool
  first_match default [] ip = default
  first_match default (r ∷ rs) ip = if matches r ip then r.allow else first_match default rs ip

  unfoldable pub allows : Access Ip Network → Ip → Bool
  unfolding first_match
  allows access ip = first_match access.allow_default access.rules ip

  add :
      AccessRule Ip Network
      → Option (List (AccessRule Ip Network))
      → Option (List (AccessRule Ip Network))
  add r none = none
  add r (some rs) = some (r ∷ rs)

  -- The loop of `NewAccess`.
  pub parse_rules : List String → Option (List (AccessRule Ip Network))
  unfolding add
  parse_rules [] = some []
  parse_rules (s ∷ ss) =
      let rest = parse_rules ss in elim (parse_rule s) [ none ↦ none | some r ↦ add r rest ]

  with_default : String → Option (List (AccessRule Ip Network)) → Option (Access Ip Network)
  with_default default none = none
  with_default default (some rs) = some (record { allow_default = default =s "allow"; rules = rs })

  -- `NewAccess`, with the configuration that it leaves: an empty default is written over.
  unfoldable pub new_access : AccessConfig → AccessConfig × Option (Access Ip Network)
  unfolding parse_rules with_default
  new_access cfg =
      let default = if cfg.default =s "" then "allow" else cfg.default in
      let cfg' = record cfg { default = default } in
      if not (default =s "allow") && not (default =s "deny")
      then (cfg', none)
      else (cfg', with_default default (parse_rules cfg.rules))
