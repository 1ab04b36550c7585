-- ===== src/Ofe/Config/Statements.antt =====
-- The statements of EngineConfig::from_yaml in include/ofe/config/engine_config.h, in their order.
use Prim.Native.String.{String}
use rudra_org.Common.{ℕ, ◌≡◌, refl, Bool, List, [], ◌∷◌}
use rudra_org.Ofe.Config.{EngineConfig}

-- A member of the configuration, as it is read and written.
pub record Member (D A : Type 0) : Type 0 where
  pub get : EngineConfig D → A
  pub set : A → EngineConfig D → EngineConfig D
  pub set-get : (c : EngineConfig D) → set (get c) c ≡ c

-- `config.member = read_value<T>(root, "key", config.member);` for each T.
pub data Statement (D : Type 0) : Type 0 where
  unsigned : (bits : ℕ) → String → Member D ℕ → Statement D
  double : String → Member D D → Statement D
  flag : String → Member D Bool → Statement D
  text : String → Member D String → Statement D

abbrev pub key_of : {D : Type 0} → Statement D → String
key_of (unsigned bits key m) = key
key_of (double key m) = key
key_of (flag key m) = key
key_of (text key m) = key

abbrev pub statements : {D : Type 0} → List (Statement D)
statements =
    unsigned 32 "worker_threads" (record {
      get = λ c. c.worker_threads;
      set = λ v c. record c { worker_threads = v };
      set-get = λ c. refl;
    })
    ∷ unsigned 32 "symbol_capacity" (record {
      get = λ c. c.symbol_capacity;
      set = λ v c. record c { symbol_capacity = v };
      set-get = λ c. refl;
    })
    ∷ unsigned 32 "max_symbols_per_tier" (record {
      get = λ c. c.max_symbols_per_tier;
      set = λ v c. record c { max_symbols_per_tier = v };
      set-get = λ c. refl;
    })
    ∷ unsigned 32 "feed_threads" (record {
      get = λ c. c.feed_threads;
      set = λ v c. record c { feed_threads = v };
      set-get = λ c. refl;
    })
    ∷ unsigned 32 "router_shards" (record {
      get = λ c. c.router_shards;
      set = λ v c. record c { router_shards = v };
      set-get = λ c. refl;
    })
    ∷ unsigned 32 "ring_capacity" (record {
      get = λ c. c.ring_capacity;
      set = λ v c. record c { ring_capacity = v };
      set-get = λ c. refl;
    })
    ∷ unsigned 64 "bar_timeframe_ns" (record {
      get = λ c. c.bar_timeframe_ns;
      set = λ v c. record c { bar_timeframe_ns = v };
      set-get = λ c. refl;
    })
    ∷ unsigned 32 "range_ticks" (record {
      get = λ c. c.range_ticks;
      set = λ v c. record c { range_ticks = v };
      set-get = λ c. refl;
    })
    ∷ unsigned 32 "volume_threshold" (record {
      get = λ c. c.volume_threshold;
      set = λ v c. record c { volume_threshold = v };
      set-get = λ c. refl;
    })
    ∷ double "imbalance_ratio" (record {
      get = λ c. c.imbalance_ratio;
      set = λ v c. record c { imbalance_ratio = v };
      set-get = λ c. refl;
    })
    ∷ double "vwap_band_sigma" (record {
      get = λ c. c.vwap_band_sigma;
      set = λ v c. record c { vwap_band_sigma = v };
      set-get = λ c. refl;
    })
    ∷ unsigned 32 "vwap_band_levels" (record {
      get = λ c. c.vwap_band_levels;
      set = λ v c. record c { vwap_band_levels = v };
      set-get = λ c. refl;
    })
    ∷ double "pulse_threshold" (record {
      get = λ c. c.pulse_threshold;
      set = λ v c. record c { pulse_threshold = v };
      set-get = λ c. refl;
    })
    ∷ double "turn_threshold" (record {
      get = λ c. c.turn_threshold;
      set = λ v c. record c { turn_threshold = v };
      set-get = λ c. refl;
    })
    ∷ double "cot_threshold" (record {
      get = λ c. c.cot_threshold;
      set = λ v c. record c { cot_threshold = v };
      set-get = λ c. refl;
    })
    ∷ double "sweep_threshold" (record {
      get = λ c. c.sweep_threshold;
      set = λ v c. record c { sweep_threshold = v };
      set-get = λ c. refl;
    })
    ∷ double "delta_surge_threshold" (record {
      get = λ c. c.delta_surge_threshold;
      set = λ v c. record c { delta_surge_threshold = v };
      set-get = λ c. refl;
    })
    ∷ unsigned 32 "cvd_lookback" (record {
      get = λ c. c.cvd_lookback;
      set = λ v c. record c { cvd_lookback = v };
      set-get = λ c. refl;
    })
    ∷ unsigned 32 "volume_profile_levels" (record {
      get = λ c. c.volume_profile_levels;
      set = λ v c. record c { volume_profile_levels = v };
      set-get = λ c. refl;
    })
    ∷ double "value_area_ratio" (record {
      get = λ c. c.value_area_ratio;
      set = λ v c. record c { value_area_ratio = v };
      set-get = λ c. refl;
    })
    ∷ double "max_daily_loss" (record {
      get = λ c. c.max_daily_loss;
      set = λ v c. record c { max_daily_loss = v };
      set-get = λ c. refl;
    })
    ∷ double "max_position_size" (record {
      get = λ c. c.max_position_size;
      set = λ v c. record c { max_position_size = v };
      set-get = λ c. refl;
    })
    ∷ unsigned 32 "max_orders_per_second" (record {
      get = λ c. c.max_orders_per_second;
      set = λ v c. record c { max_orders_per_second = v };
      set-get = λ c. refl;
    })
    ∷ unsigned 32 "quote_age_ms" (record {
      get = λ c. c.quote_age_ms;
      set = λ v c. record c { quote_age_ms = v };
      set-get = λ c. refl;
    })
    ∷ unsigned 32 "tick_timeout_ms" (record {
      get = λ c. c.tick_timeout_ms;
      set = λ v c. record c { tick_timeout_ms = v };
      set-get = λ c. refl;
    })
    ∷ unsigned 32 "reconnection_backoff_ms" (record {
      get = λ c. c.reconnection_backoff_ms;
      set = λ v c. record c { reconnection_backoff_ms = v };
      set-get = λ c. refl;
    })
    ∷ unsigned 32 "license_refresh_minutes" (record {
      get = λ c. c.license_refresh_minutes;
      set = λ v c. record c { license_refresh_minutes = v };
      set-get = λ c. refl;
    })
    ∷ unsigned 32 "symbol_quota_bronze" (record {
      get = λ c. c.symbol_quota_bronze;
      set = λ v c. record c { symbol_quota_bronze = v };
      set-get = λ c. refl;
    })
    ∷ unsigned 32 "symbol_quota_silver" (record {
      get = λ c. c.symbol_quota_silver;
      set = λ v c. record c { symbol_quota_silver = v };
      set-get = λ c. refl;
    })
    ∷ unsigned 32 "symbol_quota_gold" (record {
      get = λ c. c.symbol_quota_gold;
      set = λ v c. record c { symbol_quota_gold = v };
      set-get = λ c. refl;
    })
    ∷ unsigned 32 "symbol_quota_platinum" (record {
      get = λ c. c.symbol_quota_platinum;
      set = λ v c. record c { symbol_quota_platinum = v };
      set-get = λ c. refl;
    })
    ∷ unsigned 16 "api_port" (record {
      get = λ c. c.api_port;
      set = λ v c. record c { api_port = v };
      set-get = λ c. refl;
    })
    ∷ unsigned 32 "api_threads" (record {
      get = λ c. c.api_threads;
      set = λ v c. record c { api_threads = v };
      set-get = λ c. refl;
    })
    ∷ unsigned 32 "feed_batch_size" (record {
      get = λ c. c.feed_batch_size;
      set = λ v c. record c { feed_batch_size = v };
      set-get = λ c. refl;
    })
    ∷ flag "drop_late_ticks" (record {
      get = λ c. c.drop_late_ticks;
      set = λ v c. record c { drop_late_ticks = v };
      set-get = λ c. refl;
    })
    ∷ flag "enable_lee_ready" (record {
      get = λ c. c.enable_lee_ready;
      set = λ v c. record c { enable_lee_ready = v };
      set-get = λ c. refl;
    })
    ∷ flag "enable_vwap" (record {
      get = λ c. c.enable_vwap;
      set = λ v c. record c { enable_vwap = v };
      set-get = λ c. refl;
    })
    ∷ flag "enable_volume_profile" (record {
      get = λ c. c.enable_volume_profile;
      set = λ v c. record c { enable_volume_profile = v };
      set-get = λ c. refl;
    })
    ∷ flag "enable_delta" (record {
      get = λ c. c.enable_delta;
      set = λ v c. record c { enable_delta = v };
      set-get = λ c. refl;
    })
    ∷ flag "enable_imbalance" (record {
      get = λ c. c.enable_imbalance;
      set = λ v c. record c { enable_imbalance = v };
      set-get = λ c. refl;
    })
    ∷ flag "enable_signals" (record {
      get = λ c. c.enable_signals;
      set = λ v c. record c { enable_signals = v };
      set-get = λ c. refl;
    })
    ∷ flag "persist_ticks" (record {
      get = λ c. c.persist_ticks;
      set = λ v c. record c { persist_ticks = v };
      set-get = λ c. refl;
    })
    ∷ flag "persist_bars" (record {
      get = λ c. c.persist_bars;
      set = λ v c. record c { persist_bars = v };
      set-get = λ c. refl;
    })
    ∷ flag "persist_signals" (record {
      get = λ c. c.persist_signals;
      set = λ v c. record c { persist_signals = v };
      set-get = λ c. refl;
    })
    ∷ text "log_level" (record {
      get = λ c. c.log_level;
      set = λ v c. record c { log_level = v };
      set-get = λ c. refl;
    })
    ∷ text "machine_name" (record {
      get = λ c. c.machine_name;
      set = λ v c. record c { machine_name = v };
      set-get = λ c. refl;
    })
    ∷ text "venue_name" (record {
      get = λ c. c.venue_name;
      set = λ v c. record c { venue_name = v };
      set-get = λ c. refl;
    })
    ∷ text "strategy_name" (record {
      get = λ c. c.strategy_name;
      set = λ v c. record c { strategy_name = v };
      set-get = λ c. refl;
    })
    ∷ []
