-- ===== src/Stats/Examples.antt =====
-- The theorems on the counters of traffic, applied to two periods and to two targets.
use gobetween.Base.{some}
use gobetween.Stats.Handler.{Action, make, give, stop, connections, get_stats, run, no_stats}
use gobetween.Stats.Handler.Current.{empty, last_named, run-get_stats}
use gobetween.Base.{ℕ, ◌+◌, ◌≡◌, refl, List, [], ◌∷◌, arith, map}
use gobetween.Core.{Target, ReadWriteCount}
use gobetween.Stats.Counter.{BandwidthCounter, new_counter, periods}
use gobetween.Stats.Rates.{IsSettled, reads, writes, total, periods-rates}

abbrev target : Target
target = record { host = "a"; port = "80" }

abbrev other : Target
other = record { host = "b"; port = "80" }

abbrev traffic : ℕ → ReadWriteCount
traffic n = record { count_read = n; count_write = n + 1; target = target }

abbrev counter : BandwidthCounter
counter = new_counter target

abbrev arrivals : List (List ReadWriteCount)
arrivals = (traffic 10 ∷ traffic 20 ∷ []) ∷ [] ∷ []

counter-IsSettled : IsSettled counter
unfolding new_counter
counter-IsSettled = record {
  idle = refl;
  rx_last = refl;
  tx_last = refl;
  rx_word = omega arith;
  tx_word = omega arith;
}

periods-rates_example :
    (map (λ st. st.rx_second) (periods counter arrivals).1 ≡ 15 ∷ 0 ∷ [])
    × (map (λ st. st.tx_second) (periods counter arrivals).1 ≡ 16 ∷ 0 ∷ [])
    × ((periods counter arrivals).0.stats.rx_total ≡ 30)
    × ((periods counter arrivals).0.stats.tx_total ≡ 32)
unfolding reads writes total new_counter
periods-rates_example =
    periods-rates counter arrivals counter-IsSettled
      ((omega arith, omega arith), ((omega arith, omega arith), tt))

-- A server that is started again under its name before the old one is stopped.
abbrev actions : List Action
actions = make "s" ∷ make "s" ∷ give 0 stop ∷ give 1 (connections 3) ∷ []

run-get_stats_example :
    get_stats "s" (run actions empty) ≡ some (record no_stats { active_connections = 3 })
unfolding run last_named
run-get_stats_example = run-get_stats actions "s"
