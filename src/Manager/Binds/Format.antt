-- ===== src/Manager/Binds/Format.antt =====
-- `formatBindAddress` against `net.JoinHostPort` and `net.SplitHostPort`.
use gobetween.Base.{◌≡◌, refl, String, true, false, none, some, inl, inr, Bool-cases}
use Prim.Native.String.{◌++◌ as ◌+++◌}
use gobetween.Base.Bytes.{has_prefix}
use gobetween.Base.Address.{contains, colon, open_bracket, split_host_port, join_host_port}
use gobetween.Base.Address.Joined.{IsPlain, split-join, contains-append, split_bracketed-open}
use gobetween.Manager.Binds.{format_bind_address}

-- `formatBindAddress` is `net.JoinHostPort`.
pub format_bind_address-join_host_port :
    (ip port : String) → format_bind_address ip port ≡ join_host_port ip port
unfolding format_bind_address join_host_port
format_bind_address-join_host_port ip port = elim (Bool-cases (contains colon ip)) [
  | inl t ↦ elim (Bool-cases (has_prefix ip "[")) [
    | inl p ↦ rw (t, p) refl
    | inr p ↦ rw (t, p) refl
  ]
  | inr f ↦ rw f refl
]

-- An address without brackets and a port without brackets or colons are found again in the formatted
-- address.
pub split_host_port-format_bind_address :
    (ip port : String)
    → IsPlain ip
    → IsPlain port
    → contains colon port ≡ false
    → split_host_port (format_bind_address ip port) ≡ some (ip, port)
split_host_port-format_bind_address ip port a b e =
    rw (format_bind_address-join_host_port ip port) (split-join ip port a b e)

-- An IPv6 address that is bracketed already is formatted to what is no address.
pub format_bind_address_bracketed :
    (rest port : String)
    → contains colon rest ≡ true
    → split_host_port (format_bind_address (String.◌∷◌ "[" rest) port) ≡ none
unfolding contains split_host_port join_host_port
format_bind_address_bracketed rest port h =
    rw (format_bind_address-join_host_port (String.◌∷◌ "[" rest) port) (
      rw h (
        split_bracketed-open (String.◌∷◌ "[" rest +++ String.◌∷◌ "]" (String.◌∷◌ ":" port)) opened))
  where
    opened :
        contains open_bracket ((String.◌∷◌ "[" rest) +++ String.◌∷◌ "]" (String.◌∷◌ ":" port))
        ≡ true
    opened =
        contains-append open_bracket (String.◌∷◌ "[" rest) (String.◌∷◌ "]" (String.◌∷◌ ":" port))
