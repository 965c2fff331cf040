-- ===== src/Discovery/Fetch/Lines.antt =====
-- utils/parsers/backend.go, and the fetches of discovery/static.go, exec.go and plaintext.go: backends
-- as lines of text. Regular expressions and strconv.Atoi are parameters.
use gobetween.Base.{String, true, false, Option, none, some, List, [], ◌∷◌, ◌=s◌, if◌then◌else◌}
use gobetween.Base.Int.{ℤ, pos}
use gobetween.Base.Dict.{Dict, find}
use gobetween.Core.{Backend}

pub record TextLibrary : Type 0 where
  pub trim_space : String → String
  -- `regexp.Compile`, and the named groups of the first match
  pub compile : String → Option (String → Option (Dict String))
  pub atoi : String → Option ℤ
  -- `strings.Split(s, "\n")`
  pub split_lines : String → List String

-- The end of the parse of a line: an error, a panic at a pattern that does not compile, or a backend.
pub data ParsedLine : Type 0 where
  unparsed panics : ParsedLine
  parsed_as : Backend → ParsedLine

-- A backend as the fetches make it: live, and with no other statistics.
unfoldable pub fetched_backend : String → String → ℤ → ℤ → ℤ → String → Backend
fetched_backend host port priority weight max_connections sni = record {
  target = record { host = host; port = port };
  priority = priority;
  weight = weight;
  max_connections = max_connections;
  sni = sni;
  stats = record {
    live = true;
    discovered = false;
    total_connections = 0;
    active_connections = 0;
    refused_connections = 0;
    rx_bytes = 0;
    tx_bytes = 0;
    rx_second = 0;
    tx_second = 0;
  };
}

abbrev pub default_backend_pattern : String
default_backend_pattern =
    "^(?P<host>\\S+):(?P<port>\\d+)(\\sweight=(?P<weight>\\d+))?(\\spriority=(?P<priority>\\d+))?(\\smax_connections=(?P<max_connections>\\d+))?(\\ssni=(?P<sni>[^\\s]+))?$"

-- A map of texts at a key that it may lack.
unfoldable pub text_at : String → Dict String → String
text_at key m = elim (find key m) [ none ↦ "" | some s ↦ s ]

module _ (lib : TextLibrary) where
  unfoldable pub number_at : String → ℤ → Dict String → ℤ
  unfolding text_at
  number_at key default m = elim (lib.atoi (text_at key m)) [ none ↦ default | some n ↦ n ]

  abbrev pub of_groups : Dict String → Backend
  unfolding number_at fetched_backend
  of_groups m =
      fetched_backend (text_at "host" m) (text_at "port" m) (number_at "priority" (pos 1) m)
        (number_at "weight" (pos 1) m) (number_at "max_connections" (pos 0) m) (text_at "sni" m)

  unfoldable pub of_match : Option (Dict String) → ParsedLine
  unfolding of_groups
  of_match none = unparsed
  of_match (some m) = parsed_as (of_groups m)

  -- `ParseBackend`
  unfoldable pub parse_backend : String → String → ParsedLine
  unfolding of_match
  parse_backend line pattern = elim (lib.compile pattern) [
    | none ↦ panics
    | some match ↦ of_match (match (lib.trim_space line))
  ]

  unfoldable pub with_parsed : ParsedLine → Option (List Backend) → Option (List Backend)
  with_parsed panics rest = none
  with_parsed unparsed rest = rest
  with_parsed (parsed_as b) none = none
  with_parsed (parsed_as b) (some bs) = some (b ∷ bs)

  -- The loop over lines: those that do not parse are skipped; `none` is the panic.
  unfoldable pub parse_all : String → List String → Option (List Backend)
  unfolding with_parsed
  parse_all pattern [] = some []
  parse_all pattern (line ∷ rest) =
      with_parsed (parse_backend line pattern) (parse_all pattern rest)

  -- Empty lines are passed over.
  unfoldable pub filled_lines : List String → List String
  filled_lines [] = []
  filled_lines (line ∷ rest) = if line =s "" then filled_lines rest else line ∷ filled_lines rest

  -- `staticFetch`
  unfoldable pub static_fetch : List String → Option (List Backend)
  static_fetch = parse_all default_backend_pattern

  -- `execFetch` of the output of the command, and `plaintextFetch` of the body, each if it is no error.
  -- `none` is an error of the fetch, or its panic.
  unfoldable pub exec_fetch : Option String → Option (List Backend)
  unfolding filled_lines
  exec_fetch none = none
  exec_fetch (some out) = parse_all default_backend_pattern (filled_lines (lib.split_lines out))

  -- `NewPlaintextDiscovery` fills in the pattern.
  unfoldable pub plaintext_pattern : String → String
  plaintext_pattern p = if p =s "" then default_backend_pattern else p

  unfoldable pub plaintext_fetch : String → Option String → Option (List Backend)
  unfolding filled_lines plaintext_pattern
  plaintext_fetch pattern none = none
  plaintext_fetch pattern (some body) =
      parse_all (plaintext_pattern pattern) (filled_lines (lib.split_lines body))
