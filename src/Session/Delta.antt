-- ===== src/Session/Delta.antt =====
-- ofe_session1_code/ofe/include/analytics/delta_engine.h and src/analytics/delta_engine.cpp: buying
-- against selling within a bar and over a session.
pub mod Ticks
pub mod Extreme
mod Tests
use rudra_org.Common.{
  ℕ, ◌+◌, ◌%◌, ◌^◌, Bool, true, false, not, ◌&&◌, ◌||◌, Option, none, some, List, [], ◌∷◌,
  if◌then◌else◌,
}
use rudra_org.Common.Int.{ℤ, pos, ◌+ℤ◌, ◌-ℤ◌, ltb_ℤ, leb_ℤ, eqb_ℤ, abs, to_int32}
use rudra_org.Float.{Double, zero_D, ◌⊕◌, ◌⊖◌, ◌⊗◌, ◌⊘◌, ◌<?◌, ◌≤?◌}
use rudra_org.Session.Tick.{TickSide, UniversalTickRecord, is_accumulatable}
use rudra_org.Session.BarTypes.{BarRecord, of_int}
use rudra_org.Session.Bars.{is_ask}
use rudra_org.Session.Signals.{
  SignalType, delta_divergence_bar, delta_surge_bullish, delta_surge_bearish, extreme_delta,
  small_min_max_delta, SignalDirection, long, short, neutral, moderate, strong, very_strong, weak,
  Metadata, bar_level, surge, small_range, SignalEvent, blank_signal,
}

pub record DeltaState (D : Type 0) : Type 0 where
  pub bar_delta : ℤ
  pub running_delta : ℤ
  pub max_delta : ℤ
  pub min_delta : ℤ
  pub bar_ask_vol : ℤ
  pub bar_bid_vol : ℤ
  pub bar_total_vol : ℤ
  pub cumulative_delta : ℤ
  pub session_max_delta : ℤ
  pub session_min_delta : ℤ
  pub session_avg_abs_delta : ℤ
  pub bar_count : ℕ
  pub last_bar_close : D
  pub last_bar_cvd : ℤ

-- `bar.bar_delta > 0 ? LONG : SHORT`
abbrev pub direction_of : ℤ → SignalDirection
direction_of delta = if ltb_ℤ (pos 0) delta then long else short

module _ {D : Type 0} where
  unfoldable pub on_tick : UniversalTickRecord D → DeltaState D → DeltaState D
  on_tick tick state =
      let vol = to_int32 tick.volume in
      let ask_side = is_ask tick.side in
      let ask_vol = if ask_side then state.bar_ask_vol +ℤ vol else state.bar_ask_vol in
      let bid_vol = if ask_side then state.bar_bid_vol else state.bar_bid_vol +ℤ vol in
      let running =
        if ask_side
        then to_int32 (state.running_delta +ℤ vol)
        else to_int32 (state.running_delta -ℤ vol) in
      if not (is_accumulatable tick) then state else record state {
        bar_ask_vol = ask_vol;
        bar_bid_vol = bid_vol;
        running_delta = running;
        bar_total_vol = ask_vol +ℤ bid_vol;
        max_delta = if ltb_ℤ state.max_delta running then running else state.max_delta;
        min_delta = if ltb_ℤ running state.min_delta then running else state.min_delta;
      }

-- What happens in a session.
pub data Event (D : Type 0) : Type 0 where
  tick_in : UniversalTickRecord D → Event D
  bar_end : BarRecord D → Event D

module _ {D : Type 0} ⦃d : Double D⦄ where
  unfoldable pub fresh_state : DeltaState D
  fresh_state = record {
    bar_delta = pos 0;
    running_delta = pos 0;
    max_delta = pos 0;
    min_delta = pos 0;
    bar_ask_vol = pos 0;
    bar_bid_vol = pos 0;
    bar_total_vol = pos 0;
    cumulative_delta = pos 0;
    session_max_delta = pos 0;
    session_min_delta = pos 0;
    session_avg_abs_delta = pos 0;
    bar_count = 0;
    last_bar_close = zero_D;
    last_bar_cvd = pos 0;
  }

  unfoldable pub on_session_open : DeltaState D → DeltaState D
  unfolding fresh_state
  on_session_open state = record fresh_state { bar_count = 0 }

  -- The moving average of the absolute deltas, seeded by the first one.
  abbrev pub next_average : D → ℤ → ℤ → ℤ
  next_average alpha abs_delta average =
      if eqb_ℤ average (pos 0)
      then abs_delta
      else d.truncate ((alpha ⊗ of_int abs_delta) ⊕ ((d.literal 1 0 ⊖ alpha) ⊗ of_int average))

  abbrev pub delta_percent : ℤ → ℤ → D
  delta_percent delta total =
      if ltb_ℤ (pos 0) total then (of_int delta ⊘ of_int total) ⊗ d.literal 100 0 else zero_D

  -- The bar and the state after a bar's close; the result of the call is the bar's `delta_pct`.
  unfoldable pub on_bar_close : D → BarRecord D → DeltaState D → BarRecord D × DeltaState D
  on_bar_close surge_ema_alpha bar state =
      let bar_delta = to_int32 (state.bar_ask_vol -ℤ state.bar_bid_vol) in
      let cumulative_delta = state.cumulative_delta +ℤ bar_delta in
      (
        record bar {
          bar_delta = bar_delta;
          max_delta = state.max_delta;
          min_delta = state.min_delta;
          cumulative_delta = cumulative_delta;
          delta_pct = delta_percent bar_delta state.bar_total_vol;
          total_volume = state.bar_total_vol;
        },
        record {
          bar_delta = pos 0;
          running_delta = pos 0;
          max_delta = pos 0;
          min_delta = pos 0;
          bar_ask_vol = pos 0;
          bar_bid_vol = pos 0;
          bar_total_vol = pos 0;
          cumulative_delta = cumulative_delta;
          session_max_delta =
              if ltb_ℤ state.session_max_delta bar_delta
              then bar_delta
              else state.session_max_delta;
          session_min_delta =
              if ltb_ℤ bar_delta state.session_min_delta
              then bar_delta
              else state.session_min_delta;
          session_avg_abs_delta =
              next_average surge_ema_alpha (abs bar_delta) state.session_avg_abs_delta;
          bar_count = (state.bar_count + 1) % 2 ^ 32;
          last_bar_close = bar.close;
          last_bar_cvd = cumulative_delta;
        },
      )

  -- The fields that every detector fills in; `now` is the system clock.
  unfoldable pub signal_of : ℤ → BarRecord D → SignalEvent D → SignalEvent D
  signal_of now bar blank = record blank {
    symbol_id = bar.symbol_id;
    symbol = bar.symbol;
    bar_id = bar.bar_id;
    bar_delta = bar.bar_delta;
    bar_volume = bar.total_volume;
    price_at_signal = bar.close;
    bar_close_ts_ns = bar.bar_close_ts_ns;
    detection_ts_ns = now;
  }

  unfoldable pub detect_divergence : ℤ → BarRecord D → DeltaState D → List (SignalEvent D)
  detect_divergence now bar state =
      let bar_bullish = bar.bar_open <? bar.close in
      let bar_bearish = bar.close <? bar.bar_open in
      let bar_div_bullish = bar_bearish && ltb_ℤ (pos 0) bar.bar_delta in
      let bar_div_bearish = bar_bullish && ltb_ℤ bar.bar_delta (pos 0) in
      let blank =
        blank_signal delta_divergence_bar (if bar_div_bullish then long else short) moderate in
      if bar_div_bullish || bar_div_bearish
      then record (signal_of now bar blank) {
        bar_open_ts_ns = bar.bar_open_ts_ns;
        cumulative_delta = state.cumulative_delta;
        metadata_json = bar_level bar.bar_delta bar.close bar.bar_open;
      }
        ∷ []
      else []

  abbrev pub surge_magnitude : BarRecord D → DeltaState D → D
  surge_magnitude bar state = of_int (abs bar.bar_delta) ⊘ of_int state.session_avg_abs_delta

  unfoldable pub detect_surge : ℤ → BarRecord D → DeltaState D → D → Option (SignalEvent D)
  detect_surge now bar state surge_threshold =
      let magnitude = surge_magnitude bar state in
      let blank =
        blank_signal
          (if ltb_ℤ (pos 0) bar.bar_delta then delta_surge_bullish else delta_surge_bearish)
          (direction_of bar.bar_delta)
          (if (surge_threshold ⊗ d.literal 2 0) ≤? magnitude then very_strong else strong) in
      if eqb_ℤ state.session_avg_abs_delta (pos 0)
      then none
      else if magnitude <? surge_threshold
      then none
      else some (record (signal_of now bar blank) {
        cumulative_delta = state.cumulative_delta;
        metadata_json = surge magnitude state.session_avg_abs_delta surge_threshold;
      })

  -- `std::max` of the absolute session extremes.
  unfoldable pub session_max : DeltaState D → ℤ
  session_max state =
      let high = abs state.session_max_delta in
      let low = abs state.session_min_delta in if ltb_ℤ high low then low else high

  unfoldable pub detect_extreme_delta : ℤ → BarRecord D → DeltaState D → D → Option (SignalEvent D)
  detect_extreme_delta now bar state threshold =
      let ratio = of_int (abs bar.bar_delta) ⊘ of_int (session_max state) in
      let blank = blank_signal extreme_delta (direction_of bar.bar_delta) strong in
      if eqb_ℤ state.session_max_delta (pos 0) && eqb_ℤ state.session_min_delta (pos 0)
      then none
      else if eqb_ℤ (session_max state) (pos 0)
      then none
      else if ratio <? threshold
      then none
      else some (signal_of now bar blank)

  unfoldable pub detect_small_range : ℤ → BarRecord D → DeltaState D → D → Option (SignalEvent D)
  detect_small_range now bar state range_threshold_pct =
      let delta_range = to_int32 (bar.max_delta -ℤ bar.min_delta) in
      let range_ratio = of_int delta_range ⊘ of_int bar.total_volume in
      let blank = blank_signal small_min_max_delta neutral weak in
      if eqb_ℤ bar.total_volume (pos 0)
      then none
      else if range_threshold_pct ≤? range_ratio
      then none
      else some (record (signal_of now bar blank) {
        metadata_json =
            small_range bar.max_delta bar.min_delta delta_range (range_ratio ⊗ d.literal 100 0);
      })

  -- The calls of a session, with the bars as they are after their close.
  unfoldable pub run : D → List (Event D) → DeltaState D → List (BarRecord D) × DeltaState D
  run alpha [] state = ([], state)
  run alpha (tick_in tick ∷ events) state = run alpha events (on_tick tick state)
  run alpha (bar_end bar ∷ events) state =
      let (bar', state') = on_bar_close alpha bar state in
      let (bars, state'') = run alpha events state' in (bar' ∷ bars, state'')
