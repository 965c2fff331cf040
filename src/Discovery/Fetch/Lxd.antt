-- ===== src/Discovery/Fetch/Lxd.antt =====
-- discovery/lxd.go: the containers of LXD as backends. Its client is a parameter.
use Prim.Native.String.{◌++◌}
use gobetween.Base.{
  ℕ, String, Bool, true, false, not, ◌&&◌, ◌||◌, Option, none, some, List, [], ◌∷◌, ◌=s◌,
  if◌then◌else◌,
}
use gobetween.Base.Int.{ℤ, pos}
use gobetween.Base.Dict.{Dict, find}
use gobetween.Core.{Backend}
use gobetween.Discovery.Fetch.Lines.{fetched_backend}
pub mod Addresses

-- The fields of the section that the fetch reads, with the text of the port.
pub record LxdOptions : Type 0 where
  pub label_key : String
  pub label_value : String
  pub port : String
  pub port_key : String
  pub interface : String
  pub interface_key : String
  pub sni_key : String
  pub address_type : String

pub record Address : Type 0 where
  pub family : String
  pub ip : String

-- A container: its status and settings, and the networks of its state, if that is no error.
pub record Container : Type 0 where
  pub name : String
  pub status : String
  pub config : Dict String
  pub networks : Option (Dict (List Address))

-- The value under a key of the settings, or else another.
unfoldable pub setting : String → String → Dict String → String
setting key default m = elim (find key m) [ none ↦ default | some s ↦ s ]

label_fits : String → Option String → Bool
label_fits value none = false
label_fits value (some actual) = if value =s "" then true else actual =s value

-- Whether a container is not ignored.
unfoldable pub is_wanted : LxdOptions → Container → Bool
unfolding label_fits
is_wanted o c =
    c.status =s "Running"
    && (if o.label_key =s "" then true else label_fits o.label_value (find o.label_key c.config))

-- The port, from the settings where a key is given.
unfoldable pub port_text : LxdOptions → Container → String
unfolding setting
port_text o c = if o.port_key =s "" then o.port else setting o.port_key o.port c.config

abbrev pub inet_of : String → String
inet_of t = if t =s "IPv4" then "inet" else if t =s "IPv6" then "inet6" else ""

-- The first address of a family.
unfoldable pub first_address : String → List Address → String
first_address inet [] = ""
first_address inet (a ∷ rest) =
    let other = first_address inet rest in if a.family =s inet then a.ip else other

unfoldable pub address_in : String → Option (List Address) → String
unfolding first_address
address_in inet none = ""
address_in inet (some addresses) = first_address inet addresses

-- The end of `lxdDetermineContainerIP`: brackets for IPv6, then the test for an empty address.
unfoldable pub formatted : String → String → Option String
formatted inet ip =
    let text = if inet =s "inet6" then String.◌∷◌ "[" (ip ++ "]") else ip in
    if text =s "" then none else some text

-- `lxdDetermineContainerIP` of the networks of the state of the container.
unfoldable pub determine_container_ip :
    Option (Dict (List Address)) → String → String → Option String
unfolding address_in formatted
determine_container_ip none iface address_type = none
determine_container_ip (some networks) iface address_type =
    formatted (inet_of address_type) (address_in (inet_of address_type) (find iface networks))

-- The backend of a container, unless it is skipped.
unfoldable pub backend_of : LxdOptions → Container → Option Backend
unfolding port_text
backend_of o c =
    if not (is_wanted o c) || port_text o c =s ""
    then none
    else (elim (determine_container_ip c.networks (setting o.interface_key o.interface c.config)
        o.address_type) [
          | none ↦ none
          | some ip ↦ some (
              fetched_backend ip (port_text o c) (pos 1) (pos 1) (pos 0)
                (setting o.sni_key "" c.config))
        ])

unfoldable pub with_backend : Option Backend → List Backend → List Backend
with_backend none bs = bs
with_backend (some b) bs = b ∷ bs

-- The loop of `lxdFetch`.
unfoldable pub backends_of : LxdOptions → List Container → List Backend
unfolding with_backend
backends_of o [] = []
backends_of o (c ∷ cs) = with_backend (backend_of o c) (backends_of o cs)

-- What the calls of the client give, each whether there is no error; `server_cert` tells if the
-- certificate of the server is there.
pub record Service : Type 0 where
  pub generates : Bool
  pub server_cert : Bool
  pub connects : Bool
  pub gets_certificate : Bool
  pub reconnects : Bool
  -- the `Auth` of the server, if it answers
  pub auth : Option String
  pub creates_certificate : Bool
  pub answers_again : Bool
  pub connects_last : Bool
  pub answers_last : Bool
  pub http_client : Bool
  pub containers : Option (List Container)

pub data Reached : Type 0 where
  works fails panics : Reached

unfoldable pub next_if : Bool → Reached → Reached
next_if ok rest = if ok then rest else fails

-- `lxdAuthenticateToServer`: the server is read before its error is tested.
unfoldable pub authenticate_to_server : Service → Reached
unfolding next_if
authenticate_to_server s = elim s.auth [
  | none ↦ panics
  | some auth ↦
      if auth =s "trusted"
      then works
      else next_if s.creates_certificate (next_if s.answers_again works)
]

unfoldable pub followed : Reached → Reached → Reached
followed works rest = rest
followed fails rest = fails
followed panics rest = panics

-- `lxdBuildClient`
unfoldable pub build_client : Bool → Bool → Bool → Service → Reached
unfolding next_if authenticate_to_server followed
build_client is_https generate accept s =
    followed
      (if is_https
        then next_if (not generate || s.generates) (
            next_if (s.server_cert || s.connects || accept && s.gets_certificate)
              (next_if s.reconnects (authenticate_to_server s)))
        else works)
      (next_if s.connects_last (next_if s.answers_last works))

-- `lxdFetch`: the backends, unless there is an error or a panic.
unfoldable pub lxd_fetch : LxdOptions → Bool → Bool → Bool → Service → Reached × List Backend
unfolding build_client backends_of
lxd_fetch o is_https generate accept s =
    elim (followed (build_client is_https generate accept s) (next_if s.http_client works)) [
      | works ↦ elim s.containers [ none ↦ (fails, []) | some cs ↦ (works, backends_of o cs) ]
      | fails ↦ (fails, [])
      | panics ↦ (panics, [])
    ]
