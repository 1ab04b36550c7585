-- ===== src/Session/Bars/Tests.antt =====
-- Runs of the bar series with price levels, and its theorems at concrete ticks.
use rudra_org.Common.{ℕ, ◌*◌, ◌≡◌, refl, true, none, some, [], ◌∷◌, arith, map}
use rudra_org.Common.Int.{pos, ◌+ℤ◌}
use rudra_org.Float.Fixed.{Fixed, fixed_double, unit}
use rudra_org.Session.Tick.{
  TickSide, ask, bid, trade, iqfeed, UniversalTickRecord, is_accumulatable,
}
use rudra_org.Session.BarTypes.{BarSize, volume, BarRecord}
use rudra_org.Session.Bars.{
  BarSeries, new_bar, sort_levels, with_poc, finished_bar, close_with, should_close, add_to_level,
  at_level, accumulate, take_tick, on_tick,
}
use rudra_org.Session.Bars.Volume.{AllBooked, traded, on_tick-AllBooked}
use rudra_org.Session.Bars.Lag.{on_tick_late}
use rudra_org.Session.Bars.Engine.{BarEngine, add, remove, serve_all}
use rudra_org.Session.Bars.Engine.Distinct.{IsValid, serve_all-IsValid}

abbrev tick_of : TickSide → ℕ → ℕ → UniversalTickRecord Fixed
tick_of side price size = record {
  exchange_ts_ns = pos 1000;
  receive_ts_ns = pos 1000;
  exchange_seq_no = 1;
  price = pos (price * unit);
  volume = pos size;
  symbol_id = 7;
  side = side;
  tick_type = trade;
  provider = iqfeed;
  day_code = 68;
  trade_conditions = 0;
}

abbrev fifty : BarSize
fifty = record { bar_type = volume; size_value = 50 }

-- A series of 50-contract bars with a tick size of 1.
abbrev series : BarSeries Fixed
series = record {
  bar_size = fifty;
  symbol = 69 ∷ 83 ∷ [];
  symbol_id = 7;
  tick_size = pos unit;
  has_callback = true;
  current_bar = none;
  last_bar = none;
  published = [];
}

abbrev bar_of_40 : BarRecord Fixed
bar_of_40 = accumulate series (tick_of ask 100 40) (new_bar series (pos 1000) (pos (100 * unit)))

abbrev open_series : BarSeries Fixed
open_series = record series { current_bar = some bar_of_40 }

-- 40 and 20 contracts leave the bar open; the next 5 close it at 65.
closed_volumes :
    map
      (λ bar. bar.total_volume)
      (on_tick (on_tick open_series (tick_of bid 101 20)) (tick_of ask 100 5)).published
    ≡ pos 65 ∷ []
unfolding on_tick take_tick should_close accumulate close_with finished_bar with_poc
    is_accumulatable new_bar ◌+ℤ◌ sort_levels at_level add_to_level
closed_volumes = refl

on_tick_late_example :
    (closed : BarRecord Fixed) × ((on_tick open_series (tick_of bid 101 20)).published ≡ [])
    × ((on_tick (on_tick open_series (tick_of bid 101 20)) (tick_of ask 100 5)).published
        ≡ closed ∷ [])
    × (closed.total_volume ≡ (bar_of_40.total_volume +ℤ pos 20) +ℤ pos 5)
unfolding is_accumulatable accumulate new_bar ◌+ℤ◌
on_tick_late_example =
    on_tick_late open_series bar_of_40 (tick_of bid 101 20) (tick_of ask 100 5) refl refl refl refl
      refl refl refl

on_tick-AllBooked_example :
    AllBooked (on_tick series (tick_of ask 100 40))
    × (traded (on_tick series (tick_of ask 100 40)) ≡ 40)
    × ((on_tick series (tick_of ask 100 40)).has_callback ≡ true)
unfolding is_accumulatable
on_tick-AllBooked_example =
    on_tick-AllBooked series (tick_of ask 100 40) 40 refl (omega arith) refl (tt, tt)

abbrev engine : BarEngine Fixed
engine = record {
  symbol = 69 ∷ 83 ∷ [];
  symbol_id = 7;
  tick_size = pos unit;
  has_callback = true;
  series = [];
}

serve_all-IsValid_example : IsValid (serve_all engine (add fifty ∷ add fifty ∷ remove fifty ∷ []))
serve_all-IsValid_example =
    serve_all-IsValid engine (add fifty ∷ add fifty ∷ remove fifty ∷ [])
      (record { at_most_four = omega arith; distinct = tt })
