-- ===== src/Utils/Examples.antt =====
-- The theorem on the pool of sources, applied to the network 2001:db8::/64.
use gobetween.Base.{ℕ, List, ◌≡◌, refl, [], ◌∷◌}
use gobetween.Utils.Sources.{
  SourcePool, bitwise, big_endian, mix, next_address, raw_bytes, and_byte, and_not_byte,
}
use gobetween.Utils.Sources.Network.{IsCounter, bytewise, next_address-IsWithin}

abbrev pool : SourcePool
pool = record {
  network = 32 ∷ 1 ∷ 13 ∷ 184 ∷ 0 ∷ 0 ∷ 0 ∷ 0 ∷ 0 ∷ 0 ∷ 0 ∷ 0 ∷ 0 ∷ 0 ∷ 0 ∷ 0 ∷ [];
  mask = 255 ∷ 255 ∷ 255 ∷ 255 ∷ 255 ∷ 255 ∷ 255 ∷ 255 ∷ 0 ∷ 0 ∷ 0 ∷ 0 ∷ 0 ∷ 0 ∷ 0 ∷ 0 ∷ [];
  counter = 258;
}

-- The pool gives 2001:db8::103 after the addresses up to 2001:db8::102.
next_address-pool :
    (next_address pool).0 ≡ 32 ∷ 1 ∷ 13 ∷ 184 ∷ 0 ∷ 0 ∷ 0 ∷ 0 ∷ 0 ∷ 0 ∷ 0 ∷ 0 ∷ 0 ∷ 0 ∷ 1 ∷ 3 ∷ []
unfolding next_address mix raw_bytes big_endian bitwise
next_address-pool = refl

next_address-IsWithin_example :
    (raw : List ℕ) × IsCounter raw 259
    × (bytewise and_byte (next_address pool).0 pool.mask ≡ pool.network)
    × (bytewise and_not_byte (next_address pool).0 pool.mask ≡ bytewise and_not_byte raw pool.mask)
    × ((next_address pool).1 ≡ record pool { counter = 259 })
unfolding bitwise
next_address-IsWithin_example = next_address-IsWithin pool refl refl
