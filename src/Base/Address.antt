-- ===== src/Base/Address.antt =====
-- Go's `net.SplitHostPort` and `net.JoinHostPort`, `strconv.Itoa`, `strings.Fields`, `strings.Join` and
-- `strings.ReplaceAll` of a single character.
use Prim.Native.Nat.{ℕ, zero, suc, ◌/◌, ◌%◌}
use Prim.Native.Char.{Char, code}
use Prim.Native.String.{String, ◌++◌ as ◌+++◌}
use text.Mathlib.TextLemmas.{cons-append, nil-append}
use mathlib.Core.Path.{◌≡◌, refl, ap, ◌∙◌}
use mathlib.Core.Logic.{inl, inr}
use mathlib.Core.Bool.{Bool, true, false, not, ◌&&◌, ◌||◌}
use mathlib.Core.Option.{Option, none, some}
use mathlib.Core.List.{List, [], ◌∷◌}
use native.Mathlib.Omega.{arith}
use gobetween.Base.Tests.{Option-cases, ltb, leb, ◌==◌, if◌then◌else◌, Bool-cases}
use gobetween.Base.Int.{ℤ, pos, negsuc}
pub mod Joined

-- `strings.IndexByte(s, k) >= 0`
unfoldable pub contains : ℕ → String → Bool
contains k String.[] = false
contains k (String.◌∷◌ c s) = if code c == k then true else contains k s

consed : Char → Option (String × String) → Option (String × String)
consed c none = none
consed c (some (h, p)) = some (String.◌∷◌ c h, p)

-- What is before and behind the first `k`.
pub split_first : ℕ → String → Option (String × String)
unfolding consed
split_first k String.[] = none
split_first k (String.◌∷◌ c s) =
    let rest = split_first k s in if code c == k then some ("", s) else consed c rest

or_here : ℕ → Char → String → Option (String × String) → Option (String × String)
or_here k c s none = if code c == k then some ("", s) else none
or_here k c s (some (h, p)) = some (String.◌∷◌ c h, p)

-- What is before and behind the last `k`.
pub split_last : ℕ → String → Option (String × String)
unfolding or_here
split_last k String.[] = none
split_last k (String.◌∷◌ c s) = or_here k c s (split_last k s)

abbrev pub colon : ℕ
colon = 0x3a

abbrev pub open_bracket : ℕ
open_bracket = 0x5b

abbrev pub close_bracket : ℕ
close_bracket = 0x5d

-- The rest behind `]`, in an address whose `[` is taken off.
pub port_of : String → String → String → Option (String × String)
port_of r h String.[] = none
port_of r h (String.◌∷◌ c p) =
    if code c == colon
      && not (contains colon p)
      && not (contains open_bracket r)
      && not (contains close_bracket p)
    then some (h, p)
    else none

pub split_bracketed : String → Option (String × String)
unfolding port_of split_first
split_bracketed r = elim (split_first close_bracket r) [ none ↦ none | some q ↦ port_of r q.0 q.1 ]

pub split_plain : String → Option (String × String)
unfolding split_last
split_plain s = elim (split_last colon s) [
  | none ↦ none
  | some q ↦
      if contains colon q.0 || contains open_bracket s || contains close_bracket s
      then none
      else some q
]

-- `net.SplitHostPort`, with no reason for a failure.
unfoldable pub split_host_port : String → Option (String × String)
unfolding split_bracketed split_plain
split_host_port String.[] = none
split_host_port (String.◌∷◌ c r) =
    if code c == open_bracket then split_bracketed r else split_plain (String.◌∷◌ c r)

abbrev pub bracketed : String → String → String
bracketed host port = String.◌∷◌ "[" (host +++ String.◌∷◌ "]" (String.◌∷◌ ":" port))

-- `net.JoinHostPort`
unfoldable pub join_host_port : String → String → String
join_host_port host port =
    if contains colon host then bracketed host port else host +++ String.◌∷◌ ":" port

-- `n` is at most 9.
pub digit : ℕ → String
digit n =
    if n == 0
    then "0"
    else if n == 1
    then "1"
    else if n == 2
    then "2"
    else if n == 3
    then "3"
    else if n == 4
    then "4"
    else if n == 5
    then "5"
    else if n == 6
    then "6"
    else if n == 7
    then "7"
    else if n == 8
    then "8"
    else "9"

-- The recursion is on a number that is above `n`, so it does not end before the digits do.
pub digits : ℕ → ℕ → String
unfolding digit
digits zero n = ""
digits (suc f) n = elim (ltb n 10) [ true ↦ digit n | false ↦ digits f (n / 10) +++ digit (n % 10) ]

-- `strconv.Itoa`
unfoldable pub itoa : ℤ → String
unfolding digits
itoa (pos n) = digits (suc n) n
itoa (negsuc n) = String.◌∷◌ "-" (digits (suc (suc n)) (suc n))

-- `strings.ReplaceAll(s, ":", "-")`
unfoldable pub no_colons : String → String
no_colons String.[] = String.[]
no_colons (String.◌∷◌ c s) =
    if code c == colon then String.◌∷◌ "-" (no_colons s) else String.◌∷◌ c (no_colons s)

-- `unicode.IsSpace`
abbrev pub is_space : ℕ → Bool
is_space c =
    c == 0x20
    || (leb 9 c && leb c 13)
    || c == 0x85
    || c == 0xa0
    || c == 0x1680
    || (leb 0x2000 c && leb c 0x200a)
    || c == 0x2028
    || c == 0x2029
    || c == 0x202f
    || c == 0x205f
    || c == 0x3000

begun : String → List String → List String
begun String.[] ws = ws
begun (String.◌∷◌ c w) ws = String.◌∷◌ c w ∷ ws

-- The first field so far, and the fields behind it.
fields_from : String → String × List String
unfolding begun
fields_from String.[] = ("", [])
fields_from (String.◌∷◌ c s) =
    let q = fields_from s in
    if is_space (code c) then ("", begun q.0 q.1) else (String.◌∷◌ c q.0, q.1)

-- `strings.Fields`
unfoldable pub fields : String → List String
unfolding fields_from begun
fields s = let q = fields_from s in begun q.0 q.1

-- `strings.Join(ws, " ")`
unfoldable pub join_spaces : List String → String
join_spaces [] = ""
join_spaces (w ∷ []) = w
join_spaces (w ∷ v ∷ ws) = w +++ String.◌∷◌ " " (join_spaces (v ∷ ws))
