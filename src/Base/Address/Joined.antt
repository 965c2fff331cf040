-- ===== src/Base/Address/Joined.antt =====
-- What is joined to an address is taken apart again.
use Prim.Native.Nat.{zero, suc, ◌<◌, ◌/◌, ◌%◌, ℕ}
use Prim.Native.String.{String, ◌++◌ as ◌+++◌}
use text.Mathlib.TextLemmas.{cons-append, nil-append}
use mathlib.Core.Path.{◌≡◌, refl, ap, ◌∙◌}
use mathlib.Core.Logic.{inl, inr}
use mathlib.Core.Bool.{true, false, ◌||◌}
use mathlib.Core.Option.{none, some}
use native.Mathlib.Omega.{arith}
use gobetween.Base.Address.{
  ltb, digit, digits, contains, split_first, split_last, colon, open_bracket, close_bracket,
  port_of, split_bracketed, split_plain, split_host_port, join_host_port,
}
use gobetween.Base.Tests.{Option-cases, Bool-cases}

pub contains-append : (k : ℕ) (s t : String) → contains k (s +++ t) ≡ contains k s || contains k t
unfolding contains
contains-append k String.[] t = ap (contains k) (nil-append t)
contains-append k (String.◌∷◌ c s) t =
    ap (contains k) (cons-append c s t) ∙ ground (arith, contains-append k s t)

pub split_first-append :
    (s t : String)
    → contains close_bracket s ≡ false
    → split_first close_bracket (s +++ String.◌∷◌ "]" t) ≡ some (s, t)
unfolding contains split_first
split_first-append String.[] t h = ap (split_first close_bracket) (nil-append (String.◌∷◌ "]" t))
split_first-append (String.◌∷◌ c s) t h =
    ap (split_first close_bracket) (cons-append c s (String.◌∷◌ "]" t))
    ∙ ground (arith, split_first-append s t)

pub split_last-none : (k : ℕ) (s : String) → contains k s ≡ false → split_last k s ≡ none
unfolding contains split_last
split_last-none k String.[] h = refl
split_last-none k (String.◌∷◌ c s) h = ground (arith, split_last-none k s)

pub split_last-append :
    (s t : String)
    → contains colon t ≡ false
    → split_last colon (s +++ String.◌∷◌ ":" t) ≡ some (s, t)
unfolding split_last
split_last-append String.[] t h =
    ap (split_last colon) (nil-append (String.◌∷◌ ":" t)) ∙ rw (split_last-none colon t h) refl
split_last-append (String.◌∷◌ c s) t h =
    ap (split_last colon) (cons-append c s (String.◌∷◌ ":" t)) ∙ rw (split_last-append s t h) refl

-- A text with none of the characters that an address is taken apart at.
abbrev pub IsPlain : String → Type 0
IsPlain s = (contains open_bracket s ≡ false) × (contains close_bracket s ≡ false)

pub split_host_port-plain :
    (s : String) → contains open_bracket s ≡ false → split_host_port s ≡ split_plain s
unfolding contains split_host_port
split_host_port-plain String.[] h = refl
split_host_port-plain (String.◌∷◌ c s) h = ground arith

pub split_bracketed-port :
    (h p : String)
    → IsPlain h
    → IsPlain p
    → contains colon p ≡ false
    → split_bracketed (h +++ String.◌∷◌ "]" (String.◌∷◌ ":" p)) ≡ some (h, p)
unfolding split_bracketed contains port_of
split_bracketed-port h p x y e =
    let (a, b) = x in
    let (c, d) = y in
    let whole = contains-append open_bracket h (String.◌∷◌ "]" (String.◌∷◌ ":" p)) in
    let marked : contains open_bracket (h +++ String.◌∷◌ "]" (String.◌∷◌ ":" p)) ≡ false =
      whole ∙ rw (a, c) refl in
    rw (split_first-append h (String.◌∷◌ ":" p) b, split_bracketed) (rw (marked, d, e) refl)

pub split_plain-port :
    (h p : String)
    → IsPlain h
    → IsPlain p
    → contains colon p ≡ false
    → contains colon h ≡ false
    → split_plain (h +++ String.◌∷◌ ":" p) ≡ some (h, p)
unfolding split_plain contains
split_plain-port h p x y e f =
    let (a, b) = x in
    let (c, d) = y in
    let opened = contains-append open_bracket h (String.◌∷◌ ":" p) in
    let closed = contains-append close_bracket h (String.◌∷◌ ":" p) in
    let marked : contains open_bracket (h +++ String.◌∷◌ ":" p) ≡ false = opened ∙ rw (a, c) refl in
    let marked' : contains close_bracket (h +++ String.◌∷◌ ":" p) ≡ false =
      closed ∙ rw (b, d) refl in
    rw (split_last-append h p e, split_plain) (rw (f, marked, marked') refl)

-- What is joined is taken apart again.
pub split-join :
    (h p : String)
    → IsPlain h
    → IsPlain p
    → contains colon p ≡ false
    → split_host_port (join_host_port h p) ≡ some (h, p)
unfolding split_host_port join_host_port contains
split-join h p a b e = elim (Bool-cases (contains colon h)) [
  | inl t ↦ rw t (split_bracketed-port h p a b e)
  | inr f ↦ rw f (
      split_host_port-plain (h +++ String.◌∷◌ ":" p)
        (contains-append open_bracket h (String.◌∷◌ ":" p) ∙ rw (a.0, b.0) refl)
      ∙ split_plain-port h p a b e f)
]

pub port_of-open : (r h t : String) → contains open_bracket r ≡ true → port_of r h t ≡ none
unfolding port_of
port_of-open r h String.[] e = refl
port_of-open r h (String.◌∷◌ c p) e = ground arith

-- Nothing is an address that has a second `[`.
pub split_bracketed-open : (s : String) → contains open_bracket s ≡ true → split_bracketed s ≡ none
unfolding split_bracketed
split_bracketed-open s h = elim (Option-cases (split_first close_bracket s)) [
  | inl n ↦ rw (n, split_bracketed) refl
  | inr (q, n) ↦ rw (n, split_bracketed) (port_of-open s q.0 q.1 h)
]

-- Any number above `n` gives all its digits.
digits_enough : (f g n : ℕ) → n < f → n < g → digits f n ≡ digits g n
unfolding digits
digits_enough zero g n h k = absurd (omega (arith, h))
digits_enough (suc f) zero n h k = absurd (omega (arith, k))
digits_enough (suc f) (suc g) n h k = elim (Bool-cases (ltb n 10)) [
  | inl t ↦ rw (t, digits) refl
  | inr e ↦
      rw (e, digits)
        (ap (λ x. x +++ digit (n % 10))
          (digits_enough f g (n / 10) (ground (arith, e, h)) (ground (arith, e, k))))
]
