-- ===== src/Tcp/Proxy.antt =====
-- server/tcp/proxy.go: how the bytes that are copied are gathered into reports.
use gobetween.Base.{
  ℕ, zero, suc, ◌+◌, ◌*◌, ◌<◌, ◌≡◌, refl, sym, ap, subst, Bool, true, false, not, ◌&&◌, List, [],
  ◌∷◌, ◌++◌, ◌==◌, word, u64, if◌then◌else◌, arith,
}

-- The two counts of a `ReadWriteCount`; its target is not set here.
pub record Counts : Type 0 where
  pub count_read : ℕ
  pub count_write : ℕ

-- `IsZero`.
pub nothing_counted : Counts → Bool
nothing_counted c = c.count_read == 0 && c.count_write == 0

-- The variables of the goroutine.
pub record Gatherer : Type 0 where
  pub buffer : Counts
  pub flushed : Bool

pub data Event : Type 0 where
  tick : Event
  copied : Counts → Event

unfoldable pub start : Gatherer
start = record { buffer = record { count_read = 0; count_write = 0 }; flushed = false }

sum : Counts → Counts → Counts
sum a b = record {
  count_read = u64 (a.count_read + b.count_read);
  count_write = u64 (a.count_write + b.count_write);
}

pub step : Gatherer → Event → Gatherer × List Counts
unfolding sum nothing_counted
step g tick = (record g { flushed = true }, if nothing_counted g.buffer then [] else g.buffer ∷ [])
step g (copied c) =
    (record { buffer = if g.flushed then c else sum g.buffer c; flushed = false }, [])

-- What is sent when the copying ends.
pub finish : Gatherer → List Counts
unfolding nothing_counted
finish g = if not g.flushed && not (nothing_counted g.buffer) then g.buffer ∷ [] else []

-- All that is sent, for the events up to the end of the copying.
unfoldable pub gather : Gatherer → List Event → List Counts
unfolding step finish
gather g [] = finish g
gather g (e ∷ es) = let (g', sent) = step g e in sent ++ gather g' es

pub written_bytes : List Counts → ℕ
written_bytes [] = 0
written_bytes (c ∷ cs) = c.count_write + written_bytes cs

unfoldable pub copied_bytes : List Event → ℕ
copied_bytes [] = 0
copied_bytes (tick ∷ es) = copied_bytes es
copied_bytes (copied c ∷ es) = c.count_write + copied_bytes es

-- No tick comes before something is copied after the one before it.
abbrev pub IsLively : Bool → List Event → Type 0
IsLively flushed [] = Unit {0}
IsLively flushed (tick ∷ es) = (flushed ≡ false) × IsLively true es
IsLively flushed (copied c ∷ es) = IsLively false es

-- What the buffer holds that was not sent.
pending : Gatherer → ℕ
pending g = if g.flushed then 0 else g.buffer.count_write

written_bytes-append :
    (xs ys : List Counts) → written_bytes (xs ++ ys) ≡ written_bytes xs + written_bytes ys
unfolding written_bytes
written_bytes-append [] ys = omega arith
written_bytes-append (x ∷ xs) ys = omega (arith, written_bytes-append xs ys)

finish-written_bytes : (g : Gatherer) → written_bytes (finish g) ≡ pending g
unfolding finish written_bytes pending nothing_counted
finish-written_bytes g = ground arith

tick-written_bytes : (g : Gatherer) → g.flushed ≡ false → written_bytes (step g tick).1 ≡ pending g
unfolding step written_bytes pending nothing_counted
tick-written_bytes g h = ground arith

copied-pending :
    (g : Gatherer) (c : Counts)
    → pending g + c.count_write < word
    → pending (step g (copied c)).0 ≡ pending g + c.count_write
unfolding step pending sum
copied-pending g c h = ground arith

tick-pending : (g : Gatherer) → pending (step g tick).0 ≡ 0
unfolding step pending
tick-pending g = refl

gather_from :
    (g : Gatherer) (es : List Event)
    → IsLively g.flushed es
    → pending g + copied_bytes es < word
    → written_bytes (gather g es) ≡ pending g + copied_bytes es
unfolding gather copied_bytes
gather_from g [] l h = omega (arith, finish-written_bytes g)
gather_from g (tick ∷ es) l h =
    let none_left = tick-pending g in
    let rest = gather_from (step g tick).0 es l.1 (omega (arith, none_left)) in
    omega (
      arith,
      written_bytes-append (step g tick).1 (gather (step g tick).0 es),
      tick-written_bytes g l.0,
      rest,
      none_left,
    )
gather_from g (copied c ∷ es) l h =
    let now = copied-pending g c (omega arith) in
    let rest = gather_from (step g (copied c)).0 es l (omega (arith, now)) in
    omega (arith, now, rest)

start-pending : pending start ≡ 0
unfolding start pending
start-pending = refl

start-flushed : start.flushed ≡ false
unfolding start
start-flushed = refl

-- If no tick comes before something is copied after the tick before it, and all that is copied
-- fits a word, the reports of a connection add up to exactly the bytes that were written.
pub gather-written_bytes :
    (es : List Event)
    → IsLively false es
    → copied_bytes es < word
    → written_bytes (gather start es) ≡ copied_bytes es
gather-written_bytes es l h =
    let from_start =
      gather_from start es (subst (λ b. IsLively b es) (sym start-flushed) l)
        (omega (arith, start-pending)) in
    omega (arith, from_start, start-pending)

abbrev pub ticks : ℕ → List Event
ticks zero = []
ticks (suc n) = tick ∷ ticks n

tick-resends :
    (g : Gatherer) → 0 < g.buffer.count_write → written_bytes (step g tick).1 ≡ g.buffer.count_write
unfolding step written_bytes nothing_counted
tick-resends g p = ground arith

ticks_resend :
    (n : ℕ) (g : Gatherer)
    → g.flushed ≡ true
    → 0 < g.buffer.count_write
    → written_bytes (gather g (ticks n)) ≡ n * g.buffer.count_write
unfolding gather finish written_bytes
ticks_resend zero g f p = ground arith
ticks_resend (suc n) g f p =
    let rest = ticks_resend n (step g tick).0 refl p in
    grind (
      arith,
      written_bytes-append (step g tick).1 (gather (step g tick).0 (ticks n)),
      tick-resends g p,
      rest,
    )

-- The state after the first copy and the first tick.
abbrev pub ticked : Counts → Gatherer
ticked c = (step (step start (copied c)).0 tick).0

first_tick :
    (c : Counts)
    → 0 < c.count_write
    → c.count_write < word
    → ((ticked c).flushed ≡ true)
      × ((ticked c).buffer.count_write ≡ c.count_write)
      × (written_bytes (step (step start (copied c)).0 tick).1 ≡ c.count_write)
unfolding step start sum written_bytes nothing_counted
first_tick c p w = ground arith

-- After one copy of some bytes, fewer than a word, each tick of an idle connection reports these
-- bytes once more: n + 1 ticks report n + 1 times as many.
pub gather-ticks :
    (c : Counts) (n : ℕ)
    → 0 < c.count_write
    → c.count_write < word
    → written_bytes (gather start (copied c ∷ tick ∷ ticks n)) ≡ (n + 1) * c.count_write
unfolding gather
gather-ticks c n p w =
    let (flushed, kept, first) = first_tick c p w in
    let rest = ticks_resend n (ticked c) flushed (omega (arith, kept)) in
    let all =
      written_bytes-append (step (step start (copied c)).0 tick).1 (gather (ticked c) (ticks n)) in
    let same : n * (ticked c).buffer.count_write ≡ n * c.count_write = ap (λ x. n * x) kept in
    grind (arith, all, first, rest, same)
