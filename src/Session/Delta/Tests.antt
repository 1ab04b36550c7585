-- ===== src/Session/Delta/Tests.antt =====
-- Runs of the delta engine, and its theorems at concrete sessions.
use rudra_org.Common.{ℕ, ◌≡◌, ◌*◌, refl, none, List, [], ◌∷◌, arith, map}
use rudra_org.Common.Int.{pos, negsuc, ◌+ℤ◌, ◌-ℤ◌, to_int32}
use rudra_org.Float.Fixed.{Fixed, fixed_double, Fixed-IsOrdered, unit}
use rudra_org.Session.Tick.{
  TickSide, ask, bid, trade, iqfeed, UniversalTickRecord, is_accumulatable,
}
use rudra_org.Session.BarTypes.{blank_bar}
use rudra_org.Session.Delta.{
  Event, tick_in, bar_end, fresh_state, on_tick, on_bar_close, run, detect_extreme_delta,
}
use rudra_org.Session.Delta.Ticks.{IsTracked, Accumulates, run-Accumulates}
use rudra_org.Session.Delta.Extreme.{detect_extreme_delta_never}

abbrev tick_of : TickSide → ℕ → UniversalTickRecord Fixed
tick_of side size = record {
  exchange_ts_ns = pos 0;
  receive_ts_ns = pos 0;
  exchange_seq_no = 0;
  price = pos (100 * unit);
  volume = pos size;
  symbol_id = 7;
  side = side;
  tick_type = trade;
  provider = iqfeed;
  day_code = 68;
  trade_conditions = 0;
}

abbrev events : List (Event Fixed)
events =
    tick_in (tick_of ask 5)
    ∷ tick_in (tick_of bid 8)
    ∷ bar_end blank_bar
    ∷ tick_in (tick_of ask 4)
    ∷ bar_end blank_bar
    ∷ []

-- Deltas of -3 and 4 add up to 1.
cumulative :
    map (λ bar. bar.cumulative_delta) (run (pos 0) events fresh_state).0 ≡ negsuc 2 ∷ pos 1 ∷ []
unfolding run on_tick on_bar_close fresh_state is_accumulatable to_int32 ◌+ℤ◌ ◌-ℤ◌
cumulative = refl

fresh-IsTracked : IsTracked (fresh_state {D = Fixed})
unfolding fresh_state ◌+ℤ◌ ◌-ℤ◌
fresh-IsTracked = record {
  ask_pos = refl;
  bid_pos = refl;
  running_is = refl;
  total_is = refl;
  low = omega arith;
  high = omega arith;
}

run-Accumulates_example :
    let (bars, state') = run (pos 0) events fresh_state in
    IsTracked state' × Accumulates (pos 0) bars state'.cumulative_delta
unfolding fresh_state
run-Accumulates_example =
    run-Accumulates (pos 0) events fresh_state fresh-IsTracked
      (refl, (refl, (tt, (refl, (tt, tt))))) (omega arith)

detect_extreme_delta_never_example :
    let (bar', state') = on_bar_close (pos 0) blank_bar (on_tick (tick_of ask 5) fresh_state) in
    detect_extreme_delta (pos 0) bar' state' (pos (2 * unit)) ≡ none
detect_extreme_delta_never_example =
    detect_extreme_delta_never Fixed-IsOrdered (pos 0) (pos 0) blank_bar
      (on_tick (tick_of ask 5) fresh_state) (pos (2 * unit)) refl
