-- ===== src/Base/Bytes.antt =====
-- Go strings as bytes: UTF-8, and the order of `<`. (By code points it is the same order.)
use Prim.Native.Nat.{ℕ, ◌+◌, ◌/◌, ◌%◌, Ordering}
use Prim.Native.Char.{Char, code}
use mathlib.Core.Path.{◌≡◌, refl, ap, ◌∙◌}
use text.Mathlib.TextLemmas.{cons-append, nil-append}
use Prim.Native.String.{String, compare, ◌++◌ as ◌+++◌}
use mathlib.Core.Bool.{Bool, true, false}
use mathlib.Core.List.{List, [], ◌∷◌, ◌++◌}
use gobetween.Base.Tests.{ltb, ◌==◌, if◌then◌else◌}

pub utf8 : ℕ → List ℕ
utf8 c =
    if ltb c 0x80
    then c ∷ []
    else if ltb c 0x800
    then (0xc0 + c / 0x40) ∷ (0x80 + c % 0x40) ∷ []
    else if ltb c 0x10000
    then (0xe0 + c / 0x1000) ∷ (0x80 + c / 0x40 % 0x40) ∷ (0x80 + c % 0x40) ∷ []
    else (0xf0 + c / 0x40000)
      ∷ (0x80 + c / 0x1000 % 0x40)
      ∷ (0x80 + c / 0x40 % 0x40)
      ∷ (0x80 + c % 0x40)
      ∷ []

-- `[]byte(s)`.
unfoldable pub bytes : String → List ℕ
unfolding utf8
bytes String.[] = []
bytes (String.◌∷◌ c s) = utf8 (code c) ++ bytes s

-- `s < t`.
abbrev pub str_ltb : String → String → Bool
str_ltb s t = elim (compare s t) [ Ordering.lt ↦ true | _ ↦ false ]

prefixed : Char → List String → List String
prefixed c [] = (String.◌∷◌ c String.[]) ∷ []
prefixed c (w ∷ ws) = String.◌∷◌ c w ∷ ws

-- `strings.Split(s, " ")`.
unfoldable pub split_spaces : String → List String
unfolding prefixed
split_spaces String.[] = "" ∷ []
split_spaces (String.◌∷◌ c s) =
    let rest = split_spaces s in if code c == 0x20 then "" ∷ rest else prefixed c rest

-- No space in the text.
abbrev pub IsWord : String → Type 0
IsWord String.[] = Unit {0}
IsWord (String.◌∷◌ c s) = ((code c == 0x20) ≡ false) × IsWord s

pub split_spaces-IsWord : (s : String) → IsWord s → split_spaces s ≡ s ∷ []
unfolding split_spaces
split_spaces-IsWord String.[] h = refl
split_spaces-IsWord (String.◌∷◌ c s) h = rw (h.0, split_spaces-IsWord s h.1)

-- The first word is split off.
pub split_spaces-append :
    (w s : String) → IsWord w → split_spaces (w +++ " " +++ s) ≡ w ∷ split_spaces s
unfolding split_spaces
split_spaces-append String.[] s h = ap split_spaces (nil-append (" " +++ s) ∙ spaced) ∙ refl
  where
    spaced : " " +++ s ≡ String.◌∷◌ " " s
    spaced = cons-append " " String.[] s ∙ ap (String.◌∷◌ " ") (nil-append s)
split_spaces-append (String.◌∷◌ c w) s h =
    rw (cons-append c w (" " +++ s)) (rw (h.0, split_spaces-append w s h.1))

-- `strings.HasPrefix(s, prefix)`.
unfoldable pub has_prefix : String → String → Bool
has_prefix s String.[] = true
has_prefix String.[] (String.◌∷◌ c p) = false
has_prefix (String.◌∷◌ d s) (String.◌∷◌ c p) = if code d == code c then has_prefix s p else false
