-- ===== src/Utils/Sources.antt =====
-- utils/sources.go: the pool of addresses from which backends are dialed. Bytes are numbers below 256.
use gobetween.Base.{
  ◌^◌, ℕ, zero, suc, ◌+◌, ◌-◌, ◌*◌, ◌/◌, ◌%◌, String, Bool, true, false, Option, none, some, List,
  [], ◌∷◌, ◌=s◌, ◌==◌, if◌then◌else◌, inc,
}
pub mod Network

-- An operation on the lowest bits of two numbers, bit by bit.
unfoldable pub bitwise : (ℕ → ℕ → ℕ) → ℕ → ℕ → ℕ → ℕ
bitwise f zero a b = 0
bitwise f (suc w) a b = f (a % 2) (b % 2) + 2 * bitwise f w (a / 2) (b / 2)

abbrev pub and_bit : ℕ → ℕ → ℕ
and_bit a b = a * b

abbrev pub or_bit : ℕ → ℕ → ℕ
or_bit a b = a + b - a * b

abbrev pub and_not_bit : ℕ → ℕ → ℕ
and_not_bit a b = a * (1 - b)

-- `a & b`, `a | b` and `a & ^b` of bytes.
abbrev pub and_byte : ℕ → ℕ → ℕ
and_byte = bitwise and_bit 8

abbrev pub or_byte : ℕ → ℕ → ℕ
or_byte = bitwise or_bit 8

abbrev pub and_not_byte : ℕ → ℕ → ℕ
and_not_byte = bitwise and_not_bit 8

pub record SourcePool : Type 0 where
  pub network : List ℕ
  pub mask : List ℕ
  pub counter : ℕ

-- What package net makes of the text of a subnet. An address is 16 bytes, or 4 of the older kind.
pub record Cidr : Type 0 where
  pub ip : List ℕ
  pub mask : List ℕ

pub record NetLibrary : Type 0 where
  pub trim_space : String → String
  pub parse_cidr : String → Option Cidr
  pub to_16 : List ℕ → Option (List ℕ)
  pub to_4 : List ℕ → Option (List ℕ)
  -- the number of the bits of a mask
  pub mask_size : List ℕ → ℕ
  pub apply_mask : List ℕ → List ℕ → List ℕ

-- What `NewIPv6SourcePool` gives: (nil, nil), an error, or a pool.
pub data Made : Type 0 where
  no_pool invalid_subnet not_ipv6 no_host_bit : Made
  made : SourcePool → Made

-- A pool in use; there is none without sources.
pool_of : NetLibrary → Cidr → List ℕ → Made
pool_of net c ip =
    if net.mask_size c.mask == 128
    then no_host_bit
    else made (record { network = net.apply_mask ip c.mask; mask = c.mask; counter = 0 })

made_of : NetLibrary → Cidr → Option (List ℕ) → Made
unfolding pool_of
made_of net c none = not_ipv6
made_of net c (some ip) = elim (net.to_4 ip) [ some old ↦ not_ipv6 | none ↦ pool_of net c ip ]

-- `NewIPv6SourcePool`
unfoldable pub new_ipv6_source_pool : NetLibrary → String → Made
unfolding made_of
new_ipv6_source_pool net subnet =
    let value = net.trim_space subnet in
    if value =s "" then no_pool else (elim (net.parse_cidr value) [
      | none ↦ invalid_subnet
      | some c ↦ made_of net c (net.to_16 c.ip)
    ])

-- `binary.BigEndian.PutUint64`: the lowest bytes of a number, `k` of them.
unfoldable pub big_endian : ℕ → ℕ → List ℕ
big_endian zero n = []
big_endian (suc k) n = (n / 256 ^ k) % 256 ∷ big_endian k n

-- `raw`, with the counter in its last 8 bytes.
unfoldable pub raw_bytes : ℕ → List ℕ
unfolding big_endian
raw_bytes n = 0 ∷ 0 ∷ 0 ∷ 0 ∷ 0 ∷ 0 ∷ 0 ∷ 0 ∷ big_endian 8 n

-- `(network & mask) | (raw & ^mask)`, byte by byte.
unfoldable pub mix : List ℕ → List ℕ → List ℕ → List ℕ
mix (n ∷ ns) (m ∷ ms) (r ∷ rs) = or_byte (and_byte n m) (and_not_byte r m) ∷ mix ns ms rs
mix _ _ _ = []

-- `Next` of a pool: the address, and the pool after it.
unfoldable pub next_address : SourcePool → List ℕ × SourcePool
unfolding mix raw_bytes
next_address p =
    let counter' = inc p.counter in
    (mix p.network p.mask (raw_bytes counter'), record p { counter = counter' })

-- A nil pool gives no address.
unfoldable pub next_source : Option SourcePool → Option (List ℕ) × Option SourcePool
unfolding next_address
next_source none = (none, none)
next_source (some p) = let (ip, p') = next_address p in (some ip, some p')
