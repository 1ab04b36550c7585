-- ===== src/Ofe/Config.antt =====
-- include/ofe/config/engine_config.h: the settings of the engine.
pub mod Statements
pub mod Reading
mod Tests
use Prim.Native.String.{String}
use rudra_org.Common.{ℕ, Bool, true, false}
use rudra_org.Float.{Double}

pub record EngineConfig (D : Type 0) : Type 0 where
  pub worker_threads : ℕ
  pub symbol_capacity : ℕ
  pub max_symbols_per_tier : ℕ
  pub feed_threads : ℕ
  pub router_shards : ℕ
  pub ring_capacity : ℕ
  pub bar_timeframe_ns : ℕ
  pub range_ticks : ℕ
  pub volume_threshold : ℕ
  pub imbalance_ratio : D
  pub vwap_band_sigma : D
  pub vwap_band_levels : ℕ
  pub pulse_threshold : D
  pub turn_threshold : D
  pub cot_threshold : D
  pub sweep_threshold : D
  pub delta_surge_threshold : D
  pub cvd_lookback : ℕ
  pub volume_profile_levels : ℕ
  pub value_area_ratio : D
  pub max_daily_loss : D
  pub max_position_size : D
  pub max_orders_per_second : ℕ
  pub quote_age_ms : ℕ
  pub tick_timeout_ms : ℕ
  pub reconnection_backoff_ms : ℕ
  pub license_refresh_minutes : ℕ
  pub symbol_quota_bronze : ℕ
  pub symbol_quota_silver : ℕ
  pub symbol_quota_gold : ℕ
  pub symbol_quota_platinum : ℕ
  pub api_port : ℕ
  pub api_threads : ℕ
  pub feed_batch_size : ℕ
  pub drop_late_ticks : Bool
  pub enable_lee_ready : Bool
  pub enable_vwap : Bool
  pub enable_volume_profile : Bool
  pub enable_delta : Bool
  pub enable_imbalance : Bool
  pub enable_signals : Bool
  pub persist_ticks : Bool
  pub persist_bars : Bool
  pub persist_signals : Bool
  pub log_level : String
  pub machine_name : String
  pub venue_name : String
  pub strategy_name : String

-- `EngineConfig config{}`
abbrev pub default_config : {D : Type 0} ⦃d : Double D⦄ → EngineConfig D
default_config ⦃d⦄ = record {
  worker_threads = 8;
  symbol_capacity = 1024;
  max_symbols_per_tier = 256;
  feed_threads = 2;
  router_shards = 64;
  ring_capacity = 4096;
  bar_timeframe_ns = 1000000000;
  range_ticks = 12;
  volume_threshold = 1000;
  imbalance_ratio = d.literal 3 0;
  vwap_band_sigma = d.literal 2 0;
  vwap_band_levels = 2;
  pulse_threshold = d.literal 7 1;
  turn_threshold = d.literal 6 1;
  cot_threshold = d.literal 5 1;
  sweep_threshold = d.literal 8 1;
  delta_surge_threshold = d.literal 25 1;
  cvd_lookback = 64;
  volume_profile_levels = 64;
  value_area_ratio = d.literal 7 1;
  max_daily_loss = d.literal 0 0;
  max_position_size = d.literal 0 0;
  max_orders_per_second = 100;
  quote_age_ms = 250;
  tick_timeout_ms = 50;
  reconnection_backoff_ms = 1000;
  license_refresh_minutes = 30;
  symbol_quota_bronze = 32;
  symbol_quota_silver = 128;
  symbol_quota_gold = 512;
  symbol_quota_platinum = 2048;
  api_port = 8080;
  api_threads = 4;
  feed_batch_size = 256;
  drop_late_ticks = true;
  enable_lee_ready = true;
  enable_vwap = true;
  enable_volume_profile = true;
  enable_delta = true;
  enable_imbalance = true;
  enable_signals = true;
  persist_ticks = false;
  persist_bars = false;
  persist_signals = false;
  log_level = "info";
  machine_name = "ofe";
  venue_name = "default";
  strategy_name = "order_flow";
}
