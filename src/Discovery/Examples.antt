-- ===== src/Discovery/Examples.antt =====
-- The theorems on the discovery loop, applied to a fetch that fails once, to a text and to a container.
use gobetween.Base.{Member, inl, ◌=s◌, if◌then◌else◌, refl, true, false, none, some, List, [], ◌∷◌}
use Prim.Native.String.{String, ◌++◌ as ◌+++◌}
use gobetween.Base.Dict.{Dict, find}
use gobetween.Base.Int.{pos}
use gobetween.Core.{Backend}
use gobetween.Discovery.{
  Policy, Discovery, Label, waiting, fetch_returns, go_on, taken, timer, run, step, start, output,
}
use gobetween.Discovery.Trace.{Account, worths, run-start}
use gobetween.Discovery.Fetch.Lines.{
  default_backend_pattern, TextLibrary, fetched_backend, plaintext_pattern, filled_lines,
  plaintext_fetch, parse_all, parse_backend, of_match, with_parsed, number_at, text_at,
}
use gobetween.Discovery.Fetch.Panics.{HasEnd, plaintext_fetch-HasEnd}
use gobetween.Discovery.Fetch.Lxd.{
  Address, LxdOptions, Container, backends_of, is_wanted, port_text, setting,
}
use gobetween.Discovery.Fetch.Lxd.Addresses.{ipv6-listed, IsAddressOn}

abbrev backend : Backend
backend = record {
  target = record { host = "a"; port = "80" };
  priority = pos 1;
  weight = pos 1;
  max_connections = pos 0;
  sni = "";
  stats = record {
    live = true;
    discovered = false;
    total_connections = 0;
    active_connections = 0;
    refused_connections = 0;
    rx_bytes = 0;
    tx_bytes = 0;
    rx_second = 0;
    tx_second = 0;
  };
}

abbrev labels : List Label
labels =
    fetch_returns none
    ∷ go_on
    ∷ go_on
    ∷ taken
    ∷ timer
    ∷ fetch_returns (some (backend ∷ []))
    ∷ go_on
    ∷ go_on
    ∷ taken
    ∷ []

abbrev policy : Policy
policy = record { set_empty = true; interval = 5 }

abbrev last : Discovery
last = record { backends = backend ∷ []; phase = waiting }

run-start_example : Account policy (worths policy labels) last ([] ∷ (backend ∷ []) ∷ [])
unfolding run step start output
run-start_example = run-start policy last labels ([] ∷ (backend ∷ []) ∷ []) refl

abbrev lib : TextLibrary
lib = record {
  trim_space = λ s. s;
  compile = λ p.
      if p =s "("
      then none
      else some (λ line. if line =s "#" then none else some (("host", line) ∷ ("port", "80") ∷ []));
  atoi = λ s. none;
  split_lines = λ s. s ∷ "" ∷ "#" ∷ [];
}

plaintext_fetch-HasEnd_example :
    HasEnd lib default_backend_pattern
      ("a" ∷ "#" ∷ [])
      (some (fetched_backend "a" "80" (pos 1) (pos 1) (pos 0) "" ∷ []))
unfolding plaintext_pattern filled_lines plaintext_fetch parse_all parse_backend of_match
    with_parsed number_at text_at find
plaintext_fetch-HasEnd_example = plaintext_fetch-HasEnd lib "" "a"

abbrev options : LxdOptions
options = record {
  label_key = "lb";
  label_value = "";
  port = "80";
  port_key = "";
  interface = "eth0";
  interface_key = "";
  sni_key = "";
  address_type = "IPv6";
}

-- Its interface has two addresses of the family.
abbrev networks : Dict (List Address)
networks =
    (
      "eth0",
      record { family = "inet"; ip = "10.0.0.1" }
          ∷ record { family = "inet6"; ip = "fd00::1" }
          ∷ record { family = "inet6"; ip = "fe80::1" }
          ∷ [],
    )
    ∷ []

abbrev container : Container
container = record {
  name = "c";
  status = "Running";
  config = ("lb", "yes") ∷ [];
  networks = some networks;
}

ipv6-listed_example :
    (ip : String) × IsAddressOn networks "eth0" "inet6" ip
    × Member
        (fetched_backend (String.◌∷◌ "[" (ip +++ "]")) "80" (pos 1) (pos 1) (pos 0) "")
        (backends_of options (container ∷ []))
unfolding is_wanted port_text setting find
ipv6-listed_example =
    ipv6-listed options container (container ∷ []) networks (inl refl) refl refl refl refl
