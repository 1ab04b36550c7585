-- ===== src/Session/BarTypes.antt =====
-- ofe_session1_code/ofe/include/core/bar_types.h and src/core/bar_types.cpp: the records of bars and
-- price levels. `float` and `double` are one type here, and signed integers are exact where the code
-- leaves an overflow undefined.
mod Tests
pub mod Labels
use rudra_org.Common.{
  ℕ, ◌+◌, ◌*◌, ◌/◌, ◌%◌, ◌^◌, Bool, true, false, ◌&&◌, Option, none, some, List, [], ◌∷◌, ◌++◌, ltb,
  leb, ◌==◌, if◌then◌else◌,
}
use rudra_org.Common.Int.{ℤ, pos, pos_part, neg_part, to_int32}
use rudra_org.Common.Text.{Text, codes, numeral}
use rudra_org.Float.{Double, zero_D, ◌⊕◌, ◌⊖◌, ◌⊘◌, ◌<?◌, ◌≤?◌}

pub data BarType : Type 0 where
  time range volume : BarType

pub record BarSize : Type 0 where
  pub bar_type : BarType
  pub size_value : ℕ

-- An unsigned number, as a stream writes it.
abbrev pub decimal : ℕ → Text
decimal n = numeral 10 10 n

abbrev pub label_of : BarType → ℕ → Text
label_of time size_value =
    if size_value % 3600 == 0
    then decimal (size_value / 3600) ++ codes "h"
    else if size_value % 60 == 0
    then decimal (size_value / 60) ++ codes "m"
    else decimal size_value ++ codes "s"
label_of range size_value = decimal size_value ++ codes "-range"
label_of volume size_value =
    if leb 1000 size_value
    then decimal (size_value / 1000) ++ codes "K-vol"
    else decimal size_value ++ codes "-vol"

unfoldable pub label : BarSize → Text
label size = label_of size.bar_type size.size_value

abbrev pub is_valid_for : BarType → ℕ → Bool
is_valid_for time size_value = leb 5 size_value && leb size_value (31 * 24 * 3600)
is_valid_for range size_value = leb 1 size_value && leb size_value 500
is_valid_for volume size_value = leb 50 size_value && leb size_value 1000000

unfoldable pub is_valid : BarSize → Bool
is_valid size = if size.size_value == 0 then false else is_valid_for size.bar_type size.size_value

unfoldable pub time_seconds : ℕ → BarSize
time_seconds seconds = record { bar_type = time; size_value = seconds }

unfoldable pub time_minutes : ℕ → BarSize
time_minutes minutes = record { bar_type = time; size_value = minutes * 60 % 2 ^ 32 }

unfoldable pub range_ticks : ℕ → BarSize
range_ticks ticks = record { bar_type = range; size_value = ticks }

unfoldable pub volume_contracts : ℕ → BarSize
volume_contracts contracts = record { bar_type = volume; size_value = contracts }

pub record PriceLevelRecord (D : Type 0) : Type 0 where
  pub price : D
  pub bid_vol : ℤ
  pub ask_vol : ℤ
  pub total_vol : ℤ
  pub delta : ℤ
  pub is_buy_imbalance : Bool
  pub is_sell_imbalance : Bool
  pub is_poc : Bool
  pub is_cot : Bool
  pub is_zero_print : Bool

-- The parts that the text of a bar's id is put together from.
pub record BarId : Type 0 where
  pub id_symbol : List ℕ
  pub id_open_ts_ns : ℤ
  pub id_label : Text

pub record BarRecord (D : Type 0) : Type 0 where
  pub bar_id : Option BarId
  pub symbol_id : ℕ
  pub symbol : List ℕ
  pub bar_size : BarSize
  pub bar_open : D
  pub high : D
  pub low : D
  pub close : D
  pub total_volume : ℤ
  pub bar_open_ts_ns : ℤ
  pub bar_close_ts_ns : ℤ
  pub detection_ts_ns : ℤ
  pub bar_delta : ℤ
  pub max_delta : ℤ
  pub min_delta : ℤ
  pub cumulative_delta : ℤ
  pub delta_pct : D
  pub poc_price : D
  pub cot_price : D
  pub poc_volume : ℤ
  pub stacked_buy_count : ℤ
  pub stacked_sell_count : ℤ
  pub is_bullish : Bool
  pub is_complete : Bool
  pub has_buy_imbalance : Bool
  pub has_sell_imbalance : Bool
  pub has_absorption : Bool
  pub price_levels : List (PriceLevelRecord D)

module _ {D : Type 0} ⦃d : Double D⦄ where
  -- `static_cast<double>` of a signed integer.
  abbrev pub of_int : ℤ → D
  of_int (pos n) = d.of_nat n
  of_int (ℤ.negsuc n) = d.neg (d.of_nat (n + 1))

  -- `PriceLevelRecord lvl{}` and `BarRecord()`
  abbrev pub blank_level : PriceLevelRecord D
  blank_level = record {
    price = zero_D;
    bid_vol = pos 0;
    ask_vol = pos 0;
    total_vol = pos 0;
    delta = pos 0;
    is_buy_imbalance = false;
    is_sell_imbalance = false;
    is_poc = false;
    is_cot = false;
    is_zero_print = false;
  }

  abbrev pub blank_bar : BarRecord D
  blank_bar = record {
    bar_id = none;
    symbol_id = 0;
    symbol = [];
    bar_size = record { bar_type = time; size_value = 0 };
    bar_open = zero_D;
    high = zero_D;
    low = zero_D;
    close = zero_D;
    total_volume = pos 0;
    bar_open_ts_ns = pos 0;
    bar_close_ts_ns = pos 0;
    detection_ts_ns = pos 0;
    bar_delta = pos 0;
    max_delta = pos 0;
    min_delta = pos 0;
    cumulative_delta = pos 0;
    delta_pct = zero_D;
    poc_price = zero_D;
    cot_price = zero_D;
    poc_volume = pos 0;
    stacked_buy_count = pos 0;
    stacked_sell_count = pos 0;
    is_bullish = false;
    is_complete = false;
    has_buy_imbalance = false;
    has_sell_imbalance = false;
    has_absorption = false;
    price_levels = [];
  }

  unfoldable pub buy_imbalance_ratio : PriceLevelRecord D → D → D
  buy_imbalance_ratio level bid_vol_diagonal =
      if bid_vol_diagonal ≤? zero_D then zero_D else of_int level.ask_vol ⊘ bid_vol_diagonal

  unfoldable pub sell_imbalance_ratio : PriceLevelRecord D → D → D
  sell_imbalance_ratio level ask_vol_diagonal =
      if ask_vol_diagonal ≤? zero_D then zero_D else of_int level.bid_vol ⊘ ask_vol_diagonal

  abbrev pub level_epsilon : D
  level_epsilon = d.literal 1 7

  -- `std::lower_bound` on levels in the order of their prices: the first one that is not below.
  abbrev pub lower_bound : List (PriceLevelRecord D) → D → Option (PriceLevelRecord D)
  lower_bound [] price = none
  lower_bound (level ∷ levels) price =
      let further = lower_bound levels price in
      if level.price <? (price ⊖ level_epsilon) then further else some level

  abbrev pub near : D → Option (PriceLevelRecord D) → Option (PriceLevelRecord D)
  near price none = none
  near price (some level) =
      if d.fabs (level.price ⊖ price) <? level_epsilon then some level else none

  unfoldable pub get_level : BarRecord D → D → Option (PriceLevelRecord D)
  get_level bar price = near price (lower_bound bar.price_levels price)

  unfoldable pub bar_range_ticks : BarRecord D → D → D
  bar_range_ticks bar tick_size =
      if tick_size ≤? zero_D then zero_D else (bar.high ⊖ bar.low) ⊘ tick_size

  unfoldable pub is_high_volume : BarRecord D → D → Bool
  is_high_volume bar avg_bar_volume =
      if avg_bar_volume ≤? zero_D then false else avg_bar_volume ≤? of_int bar.total_volume
