-- ===== src/Balance/Fnv.antt =====
-- hash/fnv, as balance/iphash.go and balance/iphash1.go use it: the 32-bit FNV-1a hash.
use Prim.Native.Nat.{bit_xor}
use gobetween.Base.{ℕ, ◌*◌, ◌%◌, ◌<◌, ◌≡◌, refl, List, [], ◌∷◌, ◌++◌, arith}

abbrev pub u32_mod : ℕ
u32_mod = 4294967296

-- `hash ^= byte; hash *= prime32`
fnv_byte : ℕ → ℕ → ℕ
fnv_byte h c = bit_xor h c * 16777619 % u32_mod

-- `Write`
pub write : ℕ → List ℕ → ℕ
unfolding fnv_byte
write h [] = h
write h (c ∷ cs) = write (fnv_byte h c) cs

-- `Sum32` after one `Write` on `New32a()`, from the offset basis.
unfoldable pub sum32 : List ℕ → ℕ
unfolding write
sum32 cs = write 2166136261 cs % u32_mod

pub sum32-lt : (cs : List ℕ) → sum32 cs < u32_mod
unfolding sum32
sum32-lt cs = omega arith

-- Two `Write`s are one.
pub write-append : (h : ℕ) (xs ys : List ℕ) → write (write h xs) ys ≡ write h (xs ++ ys)
unfolding write
write-append h [] ys = refl
write-append h (x ∷ xs) ys = write-append (fnv_byte h x) xs ys

-- The published test vector: "a" hashes to 0xe40c292c.
sum32_vector : sum32 (0x61 ∷ []) ≡ 0xe40c292c
unfolding sum32
sum32_vector = refl
