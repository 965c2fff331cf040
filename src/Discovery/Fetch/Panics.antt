-- ===== src/Discovery/Fetch/Panics.antt =====
-- What the fetch of a text panics at, and what it reads.
use gobetween.Base.{
  refl, sym, subst, inr, inl, ◌∷◌, [], Option-cases, Member, All, some, none, Option, List, String,
  ◌≡◌,
}
use gobetween.Base.Dict.{Dict}
use gobetween.Core.{Backend}
use gobetween.Discovery.Fetch.Lines.{
  unparsed, parsed_as, filled_lines, plaintext_pattern, panics, plaintext_fetch, parse_backend,
  parse_all, of_match, with_parsed, ParsedLine, TextLibrary,
}

unfoldable pub Has : List Backend → ParsedLine → Type 0
Has bs unparsed = Unit
Has bs panics = ⊥
Has bs (parsed_as b) = Member b bs

module _ (lib : TextLibrary) (pattern : String) where
  abbrev IsLineOf : Backend → List String → Type 0
  IsLineOf b lines =
      (line : String) × Member line lines × (parse_backend lib line pattern ≡ parsed_as b)

  abbrev FromLines : List String → List Backend → Type 0
  FromLines lines bs = All (λ b. IsLineOf b lines) bs

  abbrev ReadInto : List Backend → List String → Type 0
  ReadInto bs lines = All (λ line. Has bs (parse_backend lib line pattern)) lines

  -- Nothing but a pattern that does not compile, at a line.
  unfoldable pub HasEnd : List String → Option (List Backend) → Type 0
  HasEnd lines none = (lib.compile pattern ≡ none) × ¬ (lines ≡ [])
  HasEnd lines (some bs) = FromLines lines bs × ReadInto bs lines

  of_match-panics : (m : Option (Dict String)) → of_match lib m ≡ panics → ⊥
  unfolding of_match
  of_match-panics none h = cc
  of_match-panics (some m) h = cc

  panics-pattern :
      (line : String) → parse_backend lib line pattern ≡ panics → lib.compile pattern ≡ none
  unfolding parse_backend
  panics-pattern line h = elim (Option-cases (lib.compile pattern)) [
    | inl e ↦ e
    | inr (f, e) ↦ absurd (of_match-panics (f (lib.trim_space line)) (rw (e, parse_backend) at h))
  ]

  Has-cons : (x : ParsedLine) (b : Backend) (bs : List Backend) → Has bs x → Has (b ∷ bs) x
  unfolding Has
  Has-cons unparsed b bs h = h
  Has-cons panics b bs h = h
  Has-cons (parsed_as c) b bs h = inr h

  ReadInto-cons :
      (lines : List String) (b : Backend) (bs : List Backend)
      → ReadInto bs lines
      → ReadInto (b ∷ bs) lines
  ReadInto-cons [] b bs h = h
  ReadInto-cons (line ∷ rest) b bs h =
      (Has-cons (parse_backend lib line pattern) b bs h.0, ReadInto-cons rest b bs h.1)

  FromLines-cons :
      (line : String) (rest : List String) (bs : List Backend)
      → FromLines rest bs
      → FromLines (line ∷ rest) bs
  FromLines-cons line rest [] h = h
  FromLines-cons line rest (b ∷ bs) ((l, m, e), h) = ((l, inr m, e), FromLines-cons line rest bs h)

  cons-empty : (line : String) (rest : List String) → ¬ (line ∷ rest ≡ [])
  cons-empty line rest h = cc

  HasEnd-with_parsed :
      (line : String) (rest : List String) (x : ParsedLine) (r : Option (List Backend))
      → parse_backend lib line pattern ≡ x
      → HasEnd rest r
      → HasEnd (line ∷ rest) (with_parsed lib x r)
  unfolding HasEnd with_parsed Has
  HasEnd-with_parsed line rest panics r e h = (panics-pattern line e, cons-empty line rest)
  HasEnd-with_parsed line rest unparsed none e h = (h.0, cons-empty line rest)
  HasEnd-with_parsed line rest unparsed (some bs) e h =
      (FromLines-cons line rest bs h.0, (subst (λ x. Has bs x) (sym e) tt, h.1))
  HasEnd-with_parsed line rest (parsed_as b) none e h = (h.0, cons-empty line rest)
  HasEnd-with_parsed line rest (parsed_as b) (some bs) e h = (
    ((line, inl refl, e), FromLines-cons line rest bs h.0),
    (subst (λ x. Has (b ∷ bs) x) (sym e) (inl refl), ReadInto-cons rest b bs h.1),
  )

  parse_all-HasEnd : (lines : List String) → HasEnd lines (parse_all lib pattern lines)
  unfolding HasEnd parse_all
  parse_all-HasEnd [] = (tt, tt)
  parse_all-HasEnd (line ∷ rest) =
      HasEnd-with_parsed line rest (parse_backend lib line pattern) (parse_all lib pattern rest)
        refl (parse_all-HasEnd rest)

-- The fetch of a text that arrives panics only where its pattern does not compile and the text has
-- a line that is not empty. Else each backend that it gives is what such a line parses to, and
-- each such line that parses to a backend gives one of them.
pub plaintext_fetch-HasEnd :
    (lib : TextLibrary) (pattern body : String)
    → HasEnd lib
        (plaintext_pattern lib pattern)
        (filled_lines lib (lib.split_lines body))
        (plaintext_fetch lib pattern (some body))
unfolding plaintext_fetch
plaintext_fetch-HasEnd lib pattern body =
    parse_all-HasEnd lib (plaintext_pattern lib pattern) (filled_lines lib (lib.split_lines body))
