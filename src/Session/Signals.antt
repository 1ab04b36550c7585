-- ===== src/Session/Signals.antt =====
-- ofe_session1_code/ofe/include/signals/signal_types.h: the signals of the analytics. The text of the
-- metadata is kept as the values that it is put together from.
use rudra_org.Common.{ℕ, Bool, Option, none, List, []}
use rudra_org.Common.Int.{ℤ, pos}
use rudra_org.Float.{Double, zero_D}
use rudra_org.Session.BarTypes.{BarId}

pub data SignalType : Type 0 where
  delta_divergence_standard delta_divergence_bar delta_surge_bullish delta_surge_bearish
        extreme_delta small_min_max_delta single_imbalance_buy single_imbalance_sell
        stacked_imbalance_buy stacked_imbalance_sell second_slot_buy second_slot_sell
        imbalance_reload_buy imbalance_reload_sell imbalance_inverse_buy imbalance_inverse_sell
        imbalance_reversal_buy imbalance_reversal_sell multiple_imbalances_buy
        multiple_imbalances_sell open_poc aligned_pocs prominent_poc poc_wave poc_slingshot_bullish
        poc_slingshot_bearish retail_suck engulfing_value_area vwap_reaction_long
        vwap_reaction_short vwap_rotation_long vwap_rotation_short pulse_long pulse_short
        turns_bullish turns_bearish ratio_bottom_heavy ratio_top_heavy single_print_last_buyer
        single_print_last_seller absorption trapped_buyers trapped_sellers market_sweep_bullish
        market_sweep_bearish market_weakness_high market_weakness_low exhaustion_print_high
        exhaustion_print_low zero_print unfinished_business_high unfinished_business_low
        accumulation distribution resting_liquidity vertical_liquidity delta_tail_bullish
        delta_tail_bearish orderflows_sequencing_up orderflows_sequencing_down
        price_action_divergence price_exhaustion price_defense volume_decline orderflows_gaps
        thin_prints :
      SignalType

pub data SignalDirection : Type 0 where
  long short neutral reversal warning : SignalDirection

pub data SignalStrength : Type 0 where
  weak moderate strong very_strong : SignalStrength

pub data Metadata (D : Type 0) : Type 0 where
  no_metadata : Metadata D
  bar_level : (bar_delta : ℤ) (bar_close bar_open : D) → Metadata D
  surge : (surge_magnitude : D) (ema_abs_delta : ℤ) (threshold : D) → Metadata D
  small_range : (max_delta min_delta range : ℤ) (range_pct : D) → Metadata D
  imbalance_total : (count : ℕ) → Metadata D
  stacked_zone : (id count : ℕ) (price_low price_high strength : D) → Metadata D
  absorbed : (price : D) (bid_vol ask_vol total_vol delta : ℤ) (delta_ratio_pct : D) → Metadata D
  trap : (trap_price bar_extreme : D) (bid_vol ask_vol : ℤ) → Metadata D

pub record SignalEvent (D : Type 0) : Type 0 where
  pub type : SignalType
  pub direction : SignalDirection
  pub strength : SignalStrength
  pub symbol_id : ℕ
  pub symbol : List ℕ
  pub detection_ts_ns : ℤ
  pub bar_open_ts_ns : ℤ
  pub bar_close_ts_ns : ℤ
  pub exchange_ts_ns : ℤ
  pub price_at_signal : D
  pub suggested_entry : D
  pub suggested_stop : D
  pub bar_id : Option BarId
  pub bar_open : D
  pub bar_high : D
  pub bar_low : D
  pub bar_close : D
  pub bar_delta : ℤ
  pub bar_volume : ℤ
  pub cumulative_delta : ℤ
  pub processing_latency_us : ℕ
  pub metadata_json : Metadata D

-- `SignalEvent sig{}` of a type, a direction and a strength, which the code always sets.
abbrev pub blank_signal :
    {D : Type 0} ⦃d : Double D⦄ → SignalType → SignalDirection → SignalStrength → SignalEvent D
blank_signal type direction strength = record {
  type = type;
  direction = direction;
  strength = strength;
  symbol_id = 0;
  symbol = [];
  detection_ts_ns = pos 0;
  bar_open_ts_ns = pos 0;
  bar_close_ts_ns = pos 0;
  exchange_ts_ns = pos 0;
  price_at_signal = zero_D;
  suggested_entry = zero_D;
  suggested_stop = zero_D;
  bar_id = none;
  bar_open = zero_D;
  bar_high = zero_D;
  bar_low = zero_D;
  bar_close = zero_D;
  bar_delta = pos 0;
  bar_volume = pos 0;
  cumulative_delta = pos 0;
  processing_latency_us = 0;
  metadata_json = no_metadata;
}

pub record ImbalanceZone (D : Type 0) : Type 0 where
  pub zone_id : ℕ
  pub zone_symbol_id : ℕ
  pub zone_direction : SignalDirection
  pub price_low : D
  pub price_high : D
  pub imbalance_count : ℤ
  pub avg_ratio : D
  pub strength_score : D
  pub created_ts_ns : ℤ
  pub last_updated_ts_ns : ℤ
  pub resolved_ts_ns : ℤ
  pub is_active : Bool
