-- ===== src/Utils/Sources/Network.antt =====
-- Which addresses a pool of sources gives.
use gobetween.Base.{
  ◌^◌, ◌<◌, All, inc, ℕ, zero, suc, ◌+◌, ◌*◌, ◌/◌, ◌%◌, ◌≡◌, refl, sym, ap, ◌∙◌, List, [], ◌∷◌,
  length, arith, inl, inr, ◌⊎◌,
}
use gobetween.Utils.Sources.{
  big_endian, SourcePool, bitwise, and_bit, or_bit, and_not_bit, and_byte, or_byte, and_not_byte,
  mix, next_address, raw_bytes,
}

abbrev IsBit : ℕ → Type 0
IsBit b = (b ≡ 0) ⊎ (b ≡ 1)

remainder-IsBit : (n : ℕ) → IsBit (n % 2)
remainder-IsBit n = ground arith

-- An operation that makes bits of bits.
abbrev OnBits : (ℕ → ℕ → ℕ) → Type 0
OnBits f = (a b : ℕ) → IsBit a → IsBit b → IsBit (f a b)

and_bit-OnBits : OnBits and_bit
and_bit-OnBits a b (inl p) q = inl (rw p (omega arith))
and_bit-OnBits a b (inr p) (inl q) = inl (rw p (rw q refl))
and_bit-OnBits a b (inr p) (inr q) = inr (rw p (rw q refl))

or_bit-OnBits : OnBits or_bit
or_bit-OnBits a b (inl p) (inl q) = inl (rw p (rw q refl))
or_bit-OnBits a b (inl p) (inr q) = inr (rw p (rw q refl))
or_bit-OnBits a b (inr p) (inl q) = inr (rw p (rw q refl))
or_bit-OnBits a b (inr p) (inr q) = inr (rw p (rw q refl))

and_not_bit-OnBits : OnBits and_not_bit
and_not_bit-OnBits a b (inl p) q = inl (rw p (omega arith))
and_not_bit-OnBits a b (inr p) (inl q) = inr (rw p (rw q refl))
and_not_bit-OnBits a b (inr p) (inr q) = inl (rw p (rw q refl))

bitwise-suc :
    (f : ℕ → ℕ → ℕ) (w a b : ℕ)
    → bitwise f (suc w) a b ≡ f (a % 2) (b % 2) + 2 * bitwise f w (a / 2) (b / 2)
unfolding bitwise
bitwise-suc f w a b = refl

-- The lowest bit of a result, and the rest of it.
bitwise-mod : (f : ℕ → ℕ → ℕ) (w a b : ℕ) → OnBits f → bitwise f (suc w) a b % 2 ≡ f (a % 2) (b % 2)
bitwise-mod f w a b h =
    let bit = h (a % 2) (b % 2) (remainder-IsBit a) (remainder-IsBit b) in
    ground (arith, bitwise-suc f w a b)

bitwise-div :
    (f : ℕ → ℕ → ℕ) (w a b : ℕ) → OnBits f → bitwise f (suc w) a b / 2 ≡ bitwise f w (a / 2) (b / 2)
bitwise-div f w a b h =
    let bit = h (a % 2) (b % 2) (remainder-IsBit a) (remainder-IsBit b) in
    ground (arith, bitwise-suc f w a b)

mixed : ℕ → ℕ → ℕ → ℕ → ℕ
mixed w n m r = bitwise or_bit w (bitwise and_bit w n m) (bitwise and_not_bit w r m)

mixed-mod :
    (w n m r : ℕ)
    → mixed (suc w) n m r % 2 ≡ or_bit (and_bit (n % 2) (m % 2)) (and_not_bit (r % 2) (m % 2))
unfolding mixed
mixed-mod w n m r =
    rw
      (bitwise-mod or_bit w (bitwise and_bit (suc w) n m) (bitwise and_not_bit (suc w) r m)
        or_bit-OnBits)
      (rw (bitwise-mod and_bit w n m and_bit-OnBits)
        (rw (bitwise-mod and_not_bit w r m and_not_bit-OnBits) refl))

mixed-div : (w n m r : ℕ) → mixed (suc w) n m r / 2 ≡ mixed w (n / 2) (m / 2) (r / 2)
unfolding mixed
mixed-div w n m r =
    rw
      (bitwise-div or_bit w (bitwise and_bit (suc w) n m) (bitwise and_not_bit (suc w) r m)
        or_bit-OnBits)
      (rw (bitwise-div and_bit w n m and_bit-OnBits)
        (rw (bitwise-div and_not_bit w r m and_not_bit-OnBits) refl))

mixed-suc :
    (f : ℕ → ℕ → ℕ) (w n m r : ℕ)
    → bitwise f (suc w) (mixed (suc w) n m r) m
      ≡ f (or_bit (and_bit (n % 2) (m % 2)) (and_not_bit (r % 2) (m % 2))) (m % 2)
        + 2 * bitwise f w (mixed w (n / 2) (m / 2) (r / 2)) (m / 2)
mixed-suc f w n m r =
    bitwise-suc f w _ m
    ∙ ap (λ x. f x (m % 2) + 2 * bitwise f w (mixed (suc w) n m r / 2) (m / 2)) (mixed-mod w n m r)
    ∙ ap
        (λ x.
          f (or_bit (and_bit (n % 2) (m % 2)) (and_not_bit (r % 2) (m % 2))) (m % 2)
          + 2 * bitwise f w x (m / 2))
        (mixed-div w n m r)

-- Under the mask a mixed number is the network, and without it the raw number.
and_bit-mixed :
    (n m r : ℕ) → IsBit m → and_bit (or_bit (and_bit n m) (and_not_bit r m)) m ≡ and_bit n m
and_bit-mixed n m r (inl p) = rw p (omega arith)
and_bit-mixed n m r (inr p) = rw p (omega arith)

and_not_bit-mixed :
    (n m r : ℕ) → IsBit m → and_not_bit (or_bit (and_bit n m) (and_not_bit r m)) m ≡ and_not_bit r m
and_not_bit-mixed n m r (inl p) = rw p (omega arith)
and_not_bit-mixed n m r (inr p) = rw p (omega arith)

bitwise_zero : (f : ℕ → ℕ → ℕ) (a b c d : ℕ) → bitwise f 0 a b ≡ bitwise f 0 c d
unfolding bitwise
bitwise_zero f a b c d = refl

mixed-and : (w n m r : ℕ) → bitwise and_bit w (mixed w n m r) m ≡ bitwise and_bit w n m
mixed-and zero n m r = bitwise_zero and_bit _ _ _ _
mixed-and (suc w) n m r =
    mixed-suc and_bit w n m r
    ∙ ap (λ x. x + 2 * bitwise and_bit w (mixed w (n / 2) (m / 2) (r / 2)) (m / 2))
        (and_bit-mixed (n % 2) (m % 2) (r % 2) (remainder-IsBit m))
    ∙ ap (λ x. and_bit (n % 2) (m % 2) + 2 * x) (mixed-and w (n / 2) (m / 2) (r / 2))
    ∙ sym (bitwise-suc and_bit w n m)

mixed-and_not : (w n m r : ℕ) → bitwise and_not_bit w (mixed w n m r) m ≡ bitwise and_not_bit w r m
mixed-and_not zero n m r = bitwise_zero and_not_bit _ _ _ _
mixed-and_not (suc w) n m r =
    mixed-suc and_not_bit w n m r
    ∙ ap (λ x. x + 2 * bitwise and_not_bit w (mixed w (n / 2) (m / 2) (r / 2)) (m / 2))
        (and_not_bit-mixed (n % 2) (m % 2) (r % 2) (remainder-IsBit m))
    ∙ ap (λ x. and_not_bit (r % 2) (m % 2) + 2 * x) (mixed-and_not w (n / 2) (m / 2) (r / 2))
    ∙ sym (bitwise-suc and_not_bit w r m)

-- An operation on the bytes of two lists.
abbrev pub bytewise : (ℕ → ℕ → ℕ) → List ℕ → List ℕ → List ℕ
bytewise f (a ∷ xs) (b ∷ ys) = f a b ∷ bytewise f xs ys
bytewise f _ _ = []

masked_byte : (n m r : ℕ) → and_byte (or_byte (and_byte n m) (and_not_byte r m)) m ≡ and_byte n m
unfolding mixed
masked_byte n m r = mixed-and 8 n m r

host_byte :
    (n m r : ℕ) → and_not_byte (or_byte (and_byte n m) (and_not_byte r m)) m ≡ and_not_byte r m
unfolding mixed
host_byte n m r = mixed-and_not 8 n m r

mix-network :
    (ns ms rs : List ℕ)
    → length ns ≡ length ms
    → length rs ≡ length ms
    → bytewise and_byte (mix ns ms rs) ms ≡ bytewise and_byte ns ms
unfolding mix
mix-network [] [] [] p q = refl
mix-network (n ∷ ns) (m ∷ ms) (r ∷ rs) p q =
    ap (λ x. x ∷ bytewise and_byte (mix ns ms rs) ms) (masked_byte n m r)
    ∙ ap (◌∷◌ (and_byte n m)) (mix-network ns ms rs (omega (arith, p)) (omega (arith, q)))
mix-network [] (m ∷ ms) rs p q = absurd (omega (arith, p))
mix-network (n ∷ ns) [] rs p q = absurd (omega (arith, p))
mix-network [] [] (r ∷ rs) p q = absurd (omega (arith, q))
mix-network (n ∷ ns) (m ∷ ms) [] p q = absurd (omega (arith, q))

mix-raw :
    (ns ms rs : List ℕ)
    → length ns ≡ length ms
    → length rs ≡ length ms
    → bytewise and_not_byte (mix ns ms rs) ms ≡ bytewise and_not_byte rs ms
unfolding mix
mix-raw [] [] [] p q = refl
mix-raw (n ∷ ns) (m ∷ ms) (r ∷ rs) p q =
    ap (λ x. x ∷ bytewise and_not_byte (mix ns ms rs) ms) (host_byte n m r)
    ∙ ap (◌∷◌ (and_not_byte r m)) (mix-raw ns ms rs (omega (arith, p)) (omega (arith, q)))
mix-raw [] (m ∷ ms) rs p q = absurd (omega (arith, p))
mix-raw (n ∷ ns) [] rs p q = absurd (omega (arith, p))
mix-raw [] [] (r ∷ rs) p q = absurd (omega (arith, q))
mix-raw (n ∷ ns) (m ∷ ms) [] p q = absurd (omega (arith, q))

length-raw_bytes : (n : ℕ) → length (raw_bytes n) ≡ 16
unfolding raw_bytes big_endian
length-raw_bytes n = refl

-- The number that bytes make, the highest first.
abbrev pub number_of : List ℕ → ℕ → ℕ
number_of [] n = n
number_of (b ∷ bs) n = number_of bs (n * 256 + b)

-- The bytes of an address that a counter makes: 8 that are 0, and the counter.
pub record IsCounter (raw : List ℕ) (counter : ℕ) : Type 0 where
  pub counter_bytes : List ℕ
  pub split : raw ≡ 0 ∷ 0 ∷ 0 ∷ 0 ∷ 0 ∷ 0 ∷ 0 ∷ 0 ∷ counter_bytes
  pub bytes : length counter_bytes ≡ 8
  pub small : All (λ b. b < 256) counter_bytes
  pub number : number_of counter_bytes 0 ≡ counter

big_endian-small : (k n : ℕ) → All (λ b. b < 256) (big_endian k n)
unfolding big_endian
big_endian-small zero n = tt
big_endian-small (suc k) n = (byte_small (n / 256 ^ k), big_endian-small k n)
  where
    byte_small : (m : ℕ) → m % 256 < 256
    byte_small m = omega arith

big_endian-number : (n : ℕ) → n < 18446744073709551616 → number_of (big_endian 8 n) 0 ≡ n
unfolding big_endian
big_endian-number n h = omega (arith, h)

raw_bytes-IsCounter : (n : ℕ) → n < 18446744073709551616 → IsCounter (raw_bytes n) n
unfolding raw_bytes big_endian
raw_bytes-IsCounter n h = record {
  counter_bytes = big_endian 8 n;
  split = refl;
  bytes = refl;
  small = big_endian-small 8 n;
  number = big_endian-number n h;
}

inc_small : (n : ℕ) → inc n < 18446744073709551616
inc_small n = omega arith

-- With 16 bytes of network and of mask, an address that the pool gives is the network under the
-- mask, and outside of the mask it is 8 bytes that are 0 and 8 that make the next number of the
-- counter, the highest first; the pool keeps that number and is otherwise as it was.
pub next_address-IsWithin :
    (p : SourcePool)
    → length p.network ≡ 16
    → length p.mask ≡ 16
    → (raw : List ℕ) × IsCounter raw (inc p.counter)
      × (bytewise and_byte (next_address p).0 p.mask ≡ bytewise and_byte p.network p.mask)
      × (bytewise and_not_byte (next_address p).0 p.mask ≡ bytewise and_not_byte raw p.mask)
      × ((next_address p).1 ≡ record p { counter = inc p.counter })
unfolding next_address
next_address-IsWithin p hn hm =
    let raw = raw_bytes (inc p.counter) in
    let hr : length raw ≡ length p.mask = length-raw_bytes (inc p.counter) ∙ sym hm in
    (
      raw,
      raw_bytes-IsCounter (inc p.counter) (inc_small p.counter),
      mix-network p.network p.mask raw (hn ∙ sym hm) hr,
      mix-raw p.network p.mask raw (hn ∙ sym hm) hr,
      refl,
    )
