-- ===== src/Ofe/Signals.antt =====
-- include/ofe/signals/signal_types.h and include/ofe/core/event_bus.h: the signals that the engine
-- publishes.
use rudra_org.Common.{ℕ}
use rudra_org.Float.{Double, zero_D}

pub data SignalType : Type 0 where
  unknown buy_pressure sell_pressure buy_absorption sell_absorption buy_imbalance sell_imbalance
        stack_buy stack_sell sweep_buy sweep_sell exhaustion_buy exhaustion_sell cvd_bullish
        cvd_bearish delta_spike_up delta_spike_down value_area_break_up value_area_break_down
        poc_reclaim_up poc_reclaim_down vwap_acceptance_up vwap_acceptance_down vwap_rejection_up
        vwap_rejection_down opening_drive_up opening_drive_down trend_continuation_up
        trend_continuation_down trend_reversal_up trend_reversal_down momentum_long momentum_short
        liquidity_grab_long liquidity_grab_short range_expansion_up range_expansion_down
        range_compression high_volume_node low_volume_node session_high_break session_low_break
        bar_delta_positive bar_delta_negative aggressor_buy aggressor_sell iceberg_buy iceberg_sell
        composite_long composite_short pulse_long pulse_short turn_long turn_short cot_long
        cot_short sweep_reversal_long sweep_reversal_short exhaustion_reversal_long
        exhaustion_reversal_short custom_1 custom_2 :
      SignalType

pub data ImbalanceZone : Type 0 where
  unknown neutral buy_edge sell_edge stack absorption sweep : ImbalanceZone

pub record SignalEvent (D : Type 0) : Type 0 where
  pub timestamp_ns : ℕ
  pub symbol_id : ℕ
  pub signal_type : SignalType
  pub imbalance_zone : ImbalanceZone
  pub price : D
  pub reference_price : D
  pub vwap : D
  pub upper_band : D
  pub lower_band : D
  pub delta : D
  pub cvd : D
  pub volume : D
  pub trade_count : ℕ
  pub buy_volume : D
  pub sell_volume : D
  pub strength : D
  pub confidence : D
  pub pulse_score : D
  pub turn_score : D
  pub cot_score : D
  pub sweep_score : D
  pub imbalance_ratio : D
  pub poc_price : D
  pub value_area_low : D
  pub value_area_high : D
  pub bar_index : ℕ
  pub regime_id : ℕ
  pub session_id : ℕ
  pub flags : ℕ
  pub reserved : ℕ

-- `SignalEvent event{}`
abbrev pub blank_event : {D : Type 0} ⦃d : Double D⦄ → SignalEvent D
blank_event = record {
  timestamp_ns = 0;
  symbol_id = 0;
  signal_type = SignalType.unknown;
  imbalance_zone = ImbalanceZone.unknown;
  price = zero_D;
  reference_price = zero_D;
  vwap = zero_D;
  upper_band = zero_D;
  lower_band = zero_D;
  delta = zero_D;
  cvd = zero_D;
  volume = zero_D;
  trade_count = 0;
  buy_volume = zero_D;
  sell_volume = zero_D;
  strength = zero_D;
  confidence = zero_D;
  pulse_score = zero_D;
  turn_score = zero_D;
  cot_score = zero_D;
  sweep_score = zero_D;
  imbalance_ratio = zero_D;
  poc_price = zero_D;
  value_area_low = zero_D;
  value_area_high = zero_D;
  bar_index = 0;
  regime_id = 0;
  session_id = 0;
  flags = 0;
  reserved = 0;
}

unfoldable pub signal_type_for_zone : ImbalanceZone → SignalType
signal_type_for_zone buy_edge = SignalType.buy_imbalance
signal_type_for_zone sell_edge = SignalType.sell_imbalance
signal_type_for_zone stack = SignalType.stack_buy
signal_type_for_zone absorption = SignalType.buy_absorption
signal_type_for_zone sweep = SignalType.sweep_buy
signal_type_for_zone neutral = SignalType.unknown
signal_type_for_zone ImbalanceZone.unknown = SignalType.unknown
