-- ===== src/Ofe/Bars/Tests.antt =====
-- Runs of the bar series, and its theorems at concrete ticks.
use rudra_org.Common.{ℕ, ◌≡◌, ◌*◌, refl, false, [], ◌∷◌, arith, inl, map}
use rudra_org.Common.Int.{pos}
use rudra_org.Common.Assoc.{map_option}
use rudra_org.Float.Fixed.{Fixed, fixed_double, Fixed-IsOrdered, unit}
use rudra_org.Ofe.Tick.{UniversalTickRecord}
use rudra_org.Ofe.Bars.{
  time, volume, BarSeries, make_series, start_bar, update_bar, finalize_bar, ready_bar, renew_bar,
  close_bar, should_finalize, time_is_up, ingest, ingest_all,
}
use rudra_org.Ofe.Bars.Counts.{IsCounted, trades, ingest_all-IsCounted}
use rudra_org.Ofe.Bars.Shape.{IsShaped, ingest-IsShaped}
use rudra_org.Ofe.Bars.Closing.{IsSettled, ingest-IsSettled}
use rudra_org.Ofe.Bars.Cvd.{with_cvd, ingest-forgets_cvd}
use rudra_org.Ofe.Bars.Engine.{
  BarEngine, series_of, add_series, ingest_ticks, series_of-ingest_ticks,
}

-- A tick of one symbol, between a bid of 99 and an ask of 101.
abbrev tick_at : ℕ → ℕ → ℕ → ℕ → UniversalTickRecord Fixed
tick_at symbol_id now price size = record {
  timestamp_ns = now;
  sequence = 0;
  symbol_id = symbol_id;
  venue_id = 0;
  price = pos (price * unit);
  size = pos (size * unit);
  bid_price = pos (99 * unit);
  ask_price = pos (101 * unit);
  bid_size = 5;
  ask_size = 5;
}

abbrev buy : UniversalTickRecord Fixed
buy = tick_at 7 1000 102 3

abbrev sell : UniversalTickRecord Fixed
sell = tick_at 7 2000 98 2

abbrev volume_series : BarSeries Fixed
volume_series = make_series volume 5

-- Two trades of 3 and 2 fill a volume bar of 5.
filled :
    map (λ bar. bar.volume) (ingest_all volume_series (buy ∷ sell ∷ [])).completed
    ≡ pos (5 * unit) ∷ []
unfolding make_series ingest_all ingest close_bar update_bar renew_bar ready_bar time_is_up
    should_finalize finalize_bar start_bar
filled = refl

volume_series-IsCounted : IsCounted volume_series
unfolding make_series
volume_series-IsCounted = record {
  idle = λ e. refl;
  busy = λ e. absurd cc;
  numbered = tt;
  filled = tt;
}

ingest_all-IsCounted_example :
    IsCounted (ingest_all volume_series (buy ∷ sell ∷ []))
    × (trades (ingest_all volume_series (buy ∷ sell ∷ [])) ≡ 2)
unfolding make_series
ingest_all-IsCounted_example =
    ingest_all-IsCounted volume_series (buy ∷ sell ∷ []) volume_series-IsCounted (omega arith)

volume_series-IsShaped : IsShaped volume_series
unfolding make_series
volume_series-IsShaped = record { current_shape = λ e. absurd cc; shapes = tt }

ingest-IsShaped_example : IsShaped (ingest volume_series buy)
ingest-IsShaped_example =
    ingest-IsShaped Fixed-IsOrdered volume_series buy refl volume_series-IsShaped

ingest-IsSettled_example :
    let s = ingest_all volume_series (buy ∷ sell ∷ []) in
    IsSettled (ingest s buy)
    × ((ingest s buy).bar_type ≡ s.bar_type)
    × ((ingest s buy).threshold ≡ s.threshold)
unfolding make_series ingest_all ingest close_bar update_bar renew_bar ready_bar time_is_up
    should_finalize finalize_bar start_bar
ingest-IsSettled_example =
    ingest-IsSettled (ingest_all volume_series (buy ∷ sell ∷ [])) buy (refl, tt)

-- After the first bar the running total is 3, then 1; the next bar starts as if it were 0.
abbrev after_a_bar : BarSeries Fixed
after_a_bar = ingest_all volume_series (buy ∷ sell ∷ [])

after_a_bar_is_idle : after_a_bar.active ≡ false
unfolding make_series ingest_all ingest close_bar update_bar renew_bar ready_bar time_is_up
    should_finalize finalize_bar start_bar
after_a_bar_is_idle = refl

total_after_a_bar : after_a_bar.session_cvd ≡ pos (4 * unit)
unfolding make_series ingest_all ingest close_bar update_bar renew_bar ready_bar time_is_up
    should_finalize finalize_bar start_bar
total_after_a_bar = refl

ingest-forgets_cvd_example : ingest after_a_bar buy ≡ ingest (with_cvd after_a_bar (pos 0)) buy
ingest-forgets_cvd_example = ingest-forgets_cvd after_a_bar buy (pos 0) (inl after_a_bar_is_idle)

abbrev two_symbols : BarEngine Fixed
two_symbols = add_series (add_series (record { series_by_symbol = [] }) 7 volume 5) 8 time 60

series_of-ingest_ticks_example :
    series_of (ingest_ticks two_symbols (buy ∷ tick_at 8 1500 100 1 ∷ sell ∷ [])) 7
    ≡ map_option (map (λ series. ingest_all series (buy ∷ sell ∷ []))) (series_of two_symbols 7)
series_of-ingest_ticks_example =
    series_of-ingest_ticks two_symbols (buy ∷ tick_at 8 1500 100 1 ∷ sell ∷ []) 7
