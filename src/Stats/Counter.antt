-- ===== src/Stats/Counter.antt =====
-- stats/counters/bandwidth.go and counter.go: totals of bytes, and rates over an interval.
use gobetween.Base.{ℕ, ◌+◌, ◌-◌, ◌/◌, Bool, true, false, List, [], ◌∷◌, word, u64, if◌then◌else◌}
use gobetween.Core.{Target, ReadWriteCount}

pub record BandwidthStats : Type 0 where
  pub rx_total : ℕ
  pub tx_total : ℕ
  pub rx_second : ℕ
  pub tx_second : ℕ
  pub target : Target

pub record BandwidthCounter : Type 0 where
  pub stats : BandwidthStats
  pub rx_total_last : ℕ
  pub tx_total_last : ℕ
  pub new_tx_rx : Bool

-- `NewBandwidthCounter`, with the target that the counters of backends set.
unfoldable pub new_counter : Target → BandwidthCounter
new_counter t = record {
  stats = record { rx_total = 0; tx_total = 0; rx_second = 0; tx_second = 0; target = t };
  rx_total_last = 0;
  tx_total_last = 0;
  new_tx_rx = false;
}

-- `INTERVAL`, in seconds.
abbrev pub interval : ℕ
interval = 2

-- `total - last`, which wraps.
abbrev pub delta : ℕ → ℕ → ℕ
delta total last = u64 (total + word - last)

with_rates : BandwidthCounter → ℕ → ℕ → BandwidthStats
with_rates c rx tx = let st = c.stats in record st { rx_second = rx; tx_second = tx }

-- The case of the ticker; the statistics of the new counter are sent.
unfoldable pub tick : BandwidthCounter → BandwidthCounter
unfolding with_rates
tick c =
    if c.new_tx_rx
    then record {
      stats =
          with_rates c (delta c.stats.rx_total c.rx_total_last / interval)
            (delta c.stats.tx_total c.tx_total_last / interval);
      rx_total_last = c.stats.rx_total;
      tx_total_last = c.stats.tx_total;
      new_tx_rx = false;
    }
    else record c { stats = with_rates c 0 0 }

-- The case of new traffic.
unfoldable pub receive : BandwidthCounter → ReadWriteCount → BandwidthCounter
receive c rwc =
    let st = c.stats in
    record c {
      new_tx_rx = true;
      stats = record st {
        rx_total = u64 (st.rx_total + rwc.count_read);
        tx_total = u64 (st.tx_total + rwc.count_write);
      };
    }

unfoldable pub receive_all : BandwidthCounter → List ReadWriteCount → BandwidthCounter
receive_all c [] = c
receive_all c (x ∷ xs) = receive_all (receive c x) xs

-- Periods of the ticker, each with the traffic that comes in it: the counter after them, and what it
-- sends.
unfoldable pub periods :
    BandwidthCounter → List (List ReadWriteCount) → BandwidthCounter × List BandwidthStats
periods c [] = (c, [])
periods c (xs ∷ xss) =
    let c' = tick (receive_all c xs) in let (c'', sent) = periods c' xss in (c'', c'.stats ∷ sent)
