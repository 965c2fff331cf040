-- ===== src/Manager/Binds.antt =====
-- manager/manager.go: `expandBinds`, `formatBindAddress` and `rewriteStaticListPorts`.
use gobetween.Base.{
  ℕ, suc, String, Bool, true, false, not, ◌&&◌, ◌||◌, Option, none, some, List, [], ◌∷◌, ◌++◌, map,
  is_empty, is_some, ◌=s◌, if◌then◌else◌,
}
use Prim.Native.String.{◌++◌ as ◌+++◌}
use gobetween.Base.Int.{ℤ, pos}
use gobetween.Base.Bytes.{has_prefix}
use gobetween.Base.Dict.{Dict, find, set}
use gobetween.Base.Address.{
  contains, colon, bracketed, split_host_port, join_host_port, itoa, no_colons, fields, join_spaces,
}
use gobetween.Config.{Server, DiscoveryConfig}
use gobetween.Manager.Verdict.{
  Verdict, ok, refused, ◌>>=◌, ◌>>◌, refuse_if, or_refuse, binds_exclusive, bind_ips_missing,
  bind_ports_missing, name_template, bind_address, duplicate_name,
}
pub mod Children
pub mod Expand
pub mod Format

-- What a name template reads.
pub record BindNameData : Type 0 where
  pub name : String
  pub host : String
  pub port : String
  pub index : ℕ

-- `template.Parse`, and `Execute` of the template that it gives.
abbrev pub Template : Type 0
Template = String → Option (BindNameData → Option String)

-- `formatBindAddress`
unfoldable pub format_bind_address : String → String → String
format_bind_address ip port =
    if contains colon ip && not (has_prefix ip "[")
    then bracketed ip port
    else join_host_port ip port

-- The first field of a line with its port replaced, if it has one.
unfoldable pub with_port : String → String → String
with_port port entry = elim (split_host_port entry) [
  | none ↦ entry
  | some q ↦ join_host_port q.0 port
]

unfoldable pub rewrite_first : String → List String → List String
unfolding with_port
rewrite_first port [] = []
rewrite_first port (w ∷ ws) = with_port port w ∷ ws

unfoldable pub rewrite_entry : String → String → String
unfolding rewrite_first
rewrite_entry port entry = join_spaces (rewrite_first port (fields entry))

unfoldable pub rewrite_static : String → DiscoveryConfig → DiscoveryConfig
rewrite_static port d = elim d.static [
  | none ↦ d
  | some s ↦ record d {
    static = some (record s { static_list = map (rewrite_entry port) s.static_list });
  }
]

-- `rewriteStaticListPorts`
unfoldable pub rewrite_static_list_ports : Option DiscoveryConfig → String → Option DiscoveryConfig
unfolding rewrite_static
rewrite_static_list_ports none port = none
rewrite_static_list_ports (some d) port =
    if d.kind =s "static" then some (rewrite_static port d) else some d

-- The name of a child: the template's, or one by its index.
pub child_name : String → (BindNameData → Option String) → ℕ → String → String → String
child_name name render i host port =
    elim (render (record { name = name; host = no_colons host; port = port; index = i })) [
      | none ↦ name +++ "_" +++ itoa (pos i)
      | some n ↦ n
    ]

unfoldable pub child : Server → String → String → Server
child cfg addr port = record cfg {
  bind = addr;
  binds = [];
  discovery =
      if cfg.match_port then rewrite_static_list_ports cfg.discovery port else cfg.discovery;
}

-- One round of the loop: the children so far get one more.
unfoldable pub add_child :
    String
    → (BindNameData → Option String)
    → Server
    → ℕ
    → String
    → Dict Server
    → Verdict (Dict Server)
unfolding child_name
add_child name render cfg i addr result = do
  (host, port) ← or_refuse (split_host_port addr) (bind_address addr)
  let n = child_name name render i host port
  refuse_if (is_some (find n result)) (duplicate_name n)
  ok (set n (child cfg addr port) result)

-- The loop over the addresses, from index `i` on.
unfoldable pub children :
    String
    → (BindNameData → Option String)
    → Server
    → ℕ
    → List String
    → Dict Server
    → Verdict (Dict Server)
children name render cfg i [] result = ok result
children name render cfg i (addr ∷ rest) result =
    add_child name render cfg i addr result >>= children name render cfg (suc i) rest

-- All combinations, the ports of the first address first.
pub combinations : List String → List ℤ → List String
combinations [] ports = []
combinations (ip ∷ ips) ports =
    map (λ p. format_bind_address ip (itoa p)) ports ++ combinations ips ports

abbrev pub has_ips_ports : Server → Bool
has_ips_ports cfg = not (is_empty cfg.bind_ips) || not (is_empty cfg.bind_ports)

unfoldable pub check_binds : String → Server → Verdict (Unit {0})
check_binds name cfg = do
  let has_binds = not (is_empty cfg.binds)
  let has_single = not (cfg.bind =s "")
  refuse_if
      (has_single && has_binds || has_single && has_ips_ports cfg || has_binds && has_ips_ports cfg)
      (binds_exclusive name)
  refuse_if (has_ips_ports cfg && is_empty cfg.bind_ips) (bind_ips_missing name)
  refuse_if (has_ips_ports cfg && is_empty cfg.bind_ports) (bind_ports_missing name)

-- The configuration that the addresses and ports are multiplied out in.
unfoldable pub generated : Server → Server
unfolding combinations
generated cfg =
    if has_ips_ports cfg
    then record cfg {
      binds = combinations cfg.bind_ips cfg.bind_ports;
      bind_ips = [];
      bind_ports = [];
    }
    else cfg

abbrev pub template_text : Server → String
template_text cfg =
    if cfg.bind_name_template =s "" then "{{.Name}}_{{.Host}}_{{.Port}}" else cfg.bind_name_template

-- What follows once `binds` is known.
unfoldable pub expand_generated : Template → String → Server → Verdict (Dict Server)
expand_generated parse name cfg = elim (is_empty cfg.binds) [
  | true ↦ ok ((name, cfg) ∷ [])
  | false ↦ or_refuse (parse (template_text cfg)) (name_template name) >>= λ render.
      children name render cfg 0 cfg.binds []
]

-- `expandBinds`
unfoldable pub expand_binds : Template → String → Server → Verdict (Dict Server)
expand_binds parse name cfg = check_binds name cfg >> expand_generated parse name (generated cfg)
