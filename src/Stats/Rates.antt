-- ===== src/Stats/Rates.antt =====
-- What a counter of traffic reports.
use gobetween.Base.{
  ℕ, ◌+◌, ◌/◌, ◌<◌, ◌≡◌, refl, sym, ap, ◌∙◌, true, false, List, [], ◌∷◌, word, u64, arith, map, All,
}
use mathlib.Core.Path.{ap₂}
use gobetween.Core.{ReadWriteCount}
use gobetween.Stats.Counter.{BandwidthCounter, interval, delta, tick, receive, receive_all, periods}

unfoldable pub reads : List ReadWriteCount → ℕ
reads [] = 0
reads (x ∷ xs) = x.count_read + reads xs

unfoldable pub writes : List ReadWriteCount → ℕ
writes [] = 0
writes (x ∷ xs) = x.count_write + writes xs

-- A counter right after its ticker: its totals are words, and the last ones.
pub record IsSettled (c : BandwidthCounter) : Type 0 where
  pub idle : c.new_tx_rx ≡ false
  pub rx_last : c.rx_total_last ≡ c.stats.rx_total
  pub tx_last : c.tx_total_last ≡ c.stats.tx_total
  pub rx_word : c.stats.rx_total < word
  pub tx_word : c.stats.tx_total < word

receive_all-totals :
    (c : BandwidthCounter) (xs : List ReadWriteCount)
    → c.stats.rx_total < word
    → c.stats.tx_total < word
    → ((receive_all c xs).stats.rx_total ≡ u64 (c.stats.rx_total + reads xs))
      × ((receive_all c xs).stats.tx_total ≡ u64 (c.stats.tx_total + writes xs))
      × ((receive_all c xs).rx_total_last ≡ c.rx_total_last)
      × ((receive_all c xs).tx_total_last ≡ c.tx_total_last)
unfolding receive_all receive reads writes
receive_all-totals c [] r t = (omega arith, omega arith, refl, refl)
receive_all-totals c (x ∷ xs) r t =
    let (rx, tx, rl, tl) = receive_all-totals (receive c x) xs (omega arith) (omega arith) in
    (omega arith, omega arith, rl, tl)

stays_busy :
    (c : BandwidthCounter) (xs : List ReadWriteCount)
    → c.new_tx_rx ≡ true
    → (receive_all c xs).new_tx_rx ≡ true
unfolding receive_all receive
stays_busy c [] h = h
stays_busy c (x ∷ xs) h = stays_busy (receive c x) xs refl

-- The traffic of a period fits a word in both directions.
abbrev pub Fits : List ReadWriteCount → Type 0
Fits xs = (reads xs < word) × (writes xs < word)

-- One period of a settled counter.
pub record Reports (c : BandwidthCounter) (xs : List ReadWriteCount) (c' : BandwidthCounter)
    : Type 0 where
  pub settled : IsSettled c'
  pub rx_rate : c'.stats.rx_second ≡ reads xs / interval
  pub tx_rate : c'.stats.tx_second ≡ writes xs / interval
  pub rx : c'.stats.rx_total ≡ u64 (c.stats.rx_total + reads xs)
  pub tx : c'.stats.tx_total ≡ u64 (c.stats.tx_total + writes xs)

half : (a b : ℕ) → a ≡ b → a / interval ≡ b / interval
half a b = ap (λ n. n / interval)

busy : (c : BandwidthCounter) (x : ReadWriteCount) → (receive c x).new_tx_rx ≡ true
unfolding receive
busy c x = refl

tick_busy :
    (d : BandwidthCounter)
    → d.new_tx_rx ≡ true
    → ((tick d).new_tx_rx ≡ false)
      × ((tick d).rx_total_last ≡ d.stats.rx_total)
      × ((tick d).tx_total_last ≡ d.stats.tx_total)
      × ((tick d).stats.rx_total ≡ d.stats.rx_total)
      × ((tick d).stats.tx_total ≡ d.stats.tx_total)
      × ((tick d).stats.rx_second ≡ delta d.stats.rx_total d.rx_total_last / interval)
      × ((tick d).stats.tx_second ≡ delta d.stats.tx_total d.tx_total_last / interval)
unfolding tick
tick_busy d h = ground arith

tick_idle :
    (d : BandwidthCounter)
    → d.new_tx_rx ≡ false
    → ((tick d).new_tx_rx ≡ false)
      × ((tick d).rx_total_last ≡ d.rx_total_last)
      × ((tick d).tx_total_last ≡ d.tx_total_last)
      × ((tick d).stats.rx_total ≡ d.stats.rx_total)
      × ((tick d).stats.tx_total ≡ d.stats.tx_total)
      × ((tick d).stats.rx_second ≡ 0)
      × ((tick d).stats.tx_second ≡ 0)
unfolding tick
tick_idle d h = ground arith

tick-Reports :
    (c : BandwidthCounter) (xs : List ReadWriteCount)
    → IsSettled c
    → Fits xs
    → Reports c xs (tick (receive_all c xs))
unfolding receive_all reads writes
tick-Reports c [] s f =
    let (idle, rl, tl, rx, tx, rs, ts) = tick_idle c s.idle in
    record {
      settled = record {
        idle = idle;
        rx_last = rl ∙ s.rx_last ∙ sym rx;
        tx_last = tl ∙ s.tx_last ∙ sym tx;
        rx_word = omega (arith, s.rx_word);
        tx_word = omega (arith, s.tx_word);
      };
      rx_rate = rs;
      tx_rate = ts;
      rx = omega (arith, s.rx_word);
      tx = omega (arith, s.tx_word);
    }
tick-Reports c (x ∷ xs) s f =
    let d = receive_all c (x ∷ xs) in
    let (now_rx, now_tx, last_rx, last_tx) = receive_all-totals c (x ∷ xs) s.rx_word s.tx_word in
    let (idle, rl, tl, rx, tx, rs, ts) = tick_busy d (stays_busy (receive c x) xs (busy c x)) in
    record {
      settled = record {
        idle = idle;
        rx_last = rl ∙ sym rx;
        tx_last = tl ∙ sym tx;
        rx_word = omega arith;
        tx_word = omega arith;
      };
      rx_rate = rs ∙ half _ _ (omega (arith, s.rx_last, s.rx_word, f.0));
      tx_rate = ts ∙ half _ _ (omega (arith, s.tx_last, s.tx_word, f.1));
      rx = rx ∙ now_rx;
      tx = tx ∙ now_tx;
    }

unfoldable pub total : (List ReadWriteCount → ℕ) → List (List ReadWriteCount) → ℕ
total f [] = 0
total f (xs ∷ xss) = f xs + total f xss

-- A counter that starts right after its ticker, with traffic in each period that fits a word,
-- reports for each period the bytes of that period over the interval, and its totals are the sums
-- of all traffic, modulo 2 ^ 64.
pub periods-rates :
    (c : BandwidthCounter) (xss : List (List ReadWriteCount))
    → IsSettled c
    → All Fits xss
    → (map (λ st. st.rx_second) (periods c xss).1 ≡ map (λ xs. reads xs / interval) xss)
      × (map (λ st. st.tx_second) (periods c xss).1 ≡ map (λ xs. writes xs / interval) xss)
      × ((periods c xss).0.stats.rx_total ≡ u64 (c.stats.rx_total + total reads xss))
      × ((periods c xss).0.stats.tx_total ≡ u64 (c.stats.tx_total + total writes xss))
unfolding periods total
periods-rates c [] s f = (refl, refl, omega (arith, s.rx_word), omega (arith, s.tx_word))
periods-rates c (xs ∷ xss) s f =
    let now = tick-Reports c xs s f.0 in
    let (rx, tx, rt, wt) = periods-rates (tick (receive_all c xs)) xss now.settled f.1 in
    (
      ap₂ ◌∷◌ now.rx_rate rx,
      ap₂ ◌∷◌ now.tx_rate tx,
      omega (arith, rt, now.rx),
      omega (arith, wt, now.tx),
    )
