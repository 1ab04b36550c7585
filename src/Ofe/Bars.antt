-- ===== src/Ofe/Bars.antt =====
-- include/ofe/core/bar_types.h and include/ofe/core/bar_engine.h: bars built from a stream of ticks.
pub mod Counts
pub mod Shape
pub mod Closing
pub mod Cvd
pub mod Engine
mod Tests
use rudra_org.Common.{
  ℕ, suc, ◌+◌, ◌%◌, ◌^◌, Bool, true, false, ◌&&◌, Option, none, some, List, [], ◌∷◌, ◌++◌, map, ltb,
  leb, ◌==◌, if◌then◌else◌, length,
}
use rudra_org.Float.{Double, zero_D, fmax, fmin, ◌⊕◌, ◌⊖◌, ◌⊗◌, ◌⊘◌, ◌<?◌, ◌≤?◌}
use rudra_org.Ofe.Tick.{UniversalTickRecord}

pub data BarType : Type 0 where
  time range volume : BarType

pub record PriceLevelRecord (D : Type 0) : Type 0 where
  pub price : D
  pub bid_volume : D
  pub ask_volume : D
  pub trade_volume : D
  pub delta : D
  pub cvd : D
  pub imbalance_ratio : D
  pub absorption : D
  pub trade_count : ℕ
  pub flags : ℕ

pub record BarRecord (D : Type 0) : Type 0 where
  pub start_timestamp_ns : ℕ
  pub end_timestamp_ns : ℕ
  pub bar_open : D
  pub high : D
  pub low : D
  pub close : D
  pub vwap : D
  pub volume : D
  pub trade_count : ℕ
  pub buy_volume : D
  pub sell_volume : D
  pub delta : D
  pub cvd : D
  pub max_delta : D
  pub min_delta : D
  pub range : D
  pub body_size : D
  pub upper_wick : D
  pub lower_wick : D
  pub poc_price : D
  pub value_area_low : D
  pub value_area_high : D
  pub imbalance_score : D
  pub absorption_score : D
  pub sweep_score : D
  pub bar_index : ℕ
  pub session_id : ℕ
  pub flags : ℕ
  pub reserved : ℕ

pub record BarSeries (D : Type 0) : Type 0 where
  pub bar_type : BarType
  pub threshold : ℕ
  pub current : BarRecord D
  pub notional : D
  pub session_cvd : D
  pub active : Bool
  pub completed : List (BarRecord D)

-- `BarRecord{}`
abbrev pub blank_bar : {D : Type 0} ⦃d : Double D⦄ → BarRecord D
blank_bar = record {
  start_timestamp_ns = 0;
  end_timestamp_ns = 0;
  bar_open = zero_D;
  high = zero_D;
  low = zero_D;
  close = zero_D;
  vwap = zero_D;
  volume = zero_D;
  trade_count = 0;
  buy_volume = zero_D;
  sell_volume = zero_D;
  delta = zero_D;
  cvd = zero_D;
  max_delta = zero_D;
  min_delta = zero_D;
  range = zero_D;
  body_size = zero_D;
  upper_wick = zero_D;
  lower_wick = zero_D;
  poc_price = zero_D;
  value_area_low = zero_D;
  value_area_high = zero_D;
  imbalance_score = zero_D;
  absorption_score = zero_D;
  sweep_score = zero_D;
  bar_index = 0;
  session_id = 0;
  flags = 0;
  reserved = 0;
}

abbrev pub is_time : BarType → Bool
is_time time = true
is_time range = false
is_time volume = false

module _ {D : Type 0} ⦃d : Double D⦄ where
  unfoldable pub make_series : BarType → ℕ → BarSeries D
  make_series bar_type threshold = record {
    bar_type = bar_type;
    threshold = threshold;
    current = blank_bar;
    notional = zero_D;
    session_cvd = zero_D;
    active = false;
    completed = [];
  }

  unfoldable pub clear_completed : BarSeries D → BarSeries D
  clear_completed s = record s { completed = [] }

  unfoldable pub start_bar : BarSeries D → UniversalTickRecord D → BarSeries D
  start_bar s tick = record s {
    current = record blank_bar {
      start_timestamp_ns = tick.timestamp_ns;
      end_timestamp_ns = tick.timestamp_ns;
      bar_open = tick.price;
      high = tick.price;
      low = tick.price;
      close = tick.price;
      poc_price = tick.price;
      bar_index = length s.completed % 2 ^ 32;
      volume = zero_D;
      trade_count = 0;
    };
    notional = zero_D;
    session_cvd = blank_bar.cvd;
    active = true;
  }

  -- The side of a trade: at or above an ask with size, or else at or below a bid with size.
  abbrev pub is_buy : UniversalTickRecord D → Bool
  is_buy tick = (tick.ask_price ≤? tick.price) && ltb 0 tick.ask_size

  abbrev pub is_sell : UniversalTickRecord D → Bool
  is_sell tick = (tick.price ≤? tick.bid_price) && ltb 0 tick.bid_size

  unfoldable pub update_bar : BarSeries D → UniversalTickRecord D → BarSeries D
  unfolding fmax fmin
  update_bar s tick =
      let bar = s.current in
      let high = fmax bar.high tick.price in
      let low = fmin bar.low tick.price in
      let close = tick.price in
      let volume = bar.volume ⊕ tick.size in
      let trade_count : ℕ = (bar.trade_count + 1) % 2 ^ 64 in
      let notional = s.notional ⊕ (tick.price ⊗ tick.size) in
      let buy_volume = if is_buy tick then bar.buy_volume ⊕ tick.size else bar.buy_volume in
      let sell_volume =
        if is_buy tick
        then bar.sell_volume
        else if is_sell tick
        then bar.sell_volume ⊕ tick.size
        else bar.sell_volume in
      let delta = buy_volume ⊖ sell_volume in
      let session_cvd = s.session_cvd ⊕ delta in
      record s {
        current = record bar {
          end_timestamp_ns = tick.timestamp_ns;
          high = high;
          low = low;
          close = close;
          volume = volume;
          trade_count = trade_count;
          vwap = if zero_D <? volume then notional ⊘ volume else tick.price;
          buy_volume = buy_volume;
          sell_volume = sell_volume;
          delta = delta;
          cvd = session_cvd;
          max_delta = if trade_count == 1 then delta else fmax bar.max_delta delta;
          min_delta = if trade_count == 1 then delta else fmin bar.min_delta delta;
          range = high ⊖ low;
          body_size = d.fabs (close ⊖ bar.bar_open);
          upper_wick = high ⊖ fmax bar.bar_open close;
          lower_wick = fmin bar.bar_open close ⊖ low;
        };
        notional = notional;
        session_cvd = session_cvd;
      }

  abbrev pub reaches : BarType → ℕ → BarRecord D → Bool
  reaches time threshold bar = false
  reaches range threshold bar = d.of_nat threshold ≤? bar.range
  reaches volume threshold bar = d.of_nat threshold ≤? bar.volume

  unfoldable pub should_finalize : BarSeries D → Bool
  should_finalize s = reaches s.bar_type s.threshold s.current

  unfoldable pub finalize_bar : BarSeries D → ℕ → BarSeries D
  finalize_bar s end_timestamp_ns = record s {
    current = blank_bar;
    notional = zero_D;
    completed = s.completed ++ record s.current { end_timestamp_ns = end_timestamp_ns } ∷ [];
  }

  -- A time bar is over once the tick is `threshold` nanoseconds past its start, in 64 bits.
  unfoldable pub time_is_up : BarSeries D → UniversalTickRecord D → Bool
  time_is_up s tick =
      is_time s.bar_type
      && leb ((s.current.start_timestamp_ns + s.threshold) % 2 ^ 64) tick.timestamp_ns
      && ltb 0 s.current.trade_count

  -- The steps of `ingest`: there is a bar, it is not over, it takes the tick, and it is closed if it
  -- is full.
  unfoldable pub ready_bar : BarSeries D → UniversalTickRecord D → BarSeries D
  ready_bar s tick = if s.active then s else start_bar s tick

  unfoldable pub renew_bar : BarSeries D → UniversalTickRecord D → BarSeries D
  renew_bar s tick =
      if time_is_up s tick then start_bar (finalize_bar s tick.timestamp_ns) tick else s

  unfoldable pub close_bar : BarSeries D → UniversalTickRecord D → BarSeries D
  close_bar s tick =
      if should_finalize s then record (finalize_bar s tick.timestamp_ns) { active = false } else s

  unfoldable pub ingest : BarSeries D → UniversalTickRecord D → BarSeries D
  ingest s tick = close_bar (update_bar (renew_bar (ready_bar s tick) tick) tick) tick

  unfoldable pub ingest_all : BarSeries D → List (UniversalTickRecord D) → BarSeries D
  ingest_all s [] = s
  ingest_all s (tick ∷ ticks) = ingest_all (ingest s tick) ticks
