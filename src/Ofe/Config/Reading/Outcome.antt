-- ===== src/Ofe/Config/Reading/Outcome.antt =====
-- What EngineConfig::from_yaml of include/ofe/config/engine_config.h returns, member by member.
use Prim.Native.String.{String}
use rudra_org.Common.{
  ◌≡◌, refl, ap, ◌∙◌, Bool, true, false, ◌||◌, Option, none, some, and_then, List, [], ◌∷◌,
  if◌then◌else◌,
}
use rudra_org.Float.{Double}
use rudra_org.Ofe.Config.{EngineConfig, default_config}
use rudra_org.Ofe.Config.Statements.{Member, Statement, unsigned, double, flag, text, statements}
use rudra_org.Ofe.Config.Reading.{
  Subscript, bad_subscript, undefined, defined, Yaml, value_at, read_value, assign, perform,
  perform_all, from_yaml,
}

module _ {Node D : Type 0} (yaml : Yaml Node D) where
  abbrev pub is_none : {A : Type 0} → Option A → Bool
  is_none none = true
  is_none (some a) = false

  abbrev pub value_or : {A : Type 0} → A → Option A → A
  value_or a none = a
  value_or a (some b) = b

  -- The value under the key, or the fallback where there is none.
  unfoldable pub setting : {A : Type 0} → (Node → Option A) → Node → String → A → A
  setting as_type root key fallback =
      value_or fallback (value_at yaml as_type fallback (yaml.subscript root key))

  abbrev pub bad_at : {A : Type 0} → (Node → Option A) → Subscript Node → Bool
  bad_at as_type bad_subscript = true
  bad_at as_type undefined = false
  bad_at as_type (defined value) = if yaml.is_null value then false else is_none (as_type value)

  -- The key cannot be looked up, or there is a value that cannot be converted.
  unfoldable pub is_bad : Node → Statement D → Bool
  is_bad root (unsigned bits key m) = bad_at (yaml.as_unsigned bits) (yaml.subscript root key)
  is_bad root (double key m) = bad_at yaml.as_double (yaml.subscript root key)
  is_bad root (flag key m) = bad_at yaml.as_bool (yaml.subscript root key)
  is_bad root (text key m) = bad_at yaml.as_string (yaml.subscript root key)

  abbrev pub any_bad : Node → List (Statement D) → Bool
  any_bad root [] = false
  any_bad root (s ∷ ss) = is_bad root s || any_bad root ss

  abbrev put :
      {A : Type 0}
      → Member D A
      → (Node → Option A)
      → Node
      → String
      → EngineConfig D
      → EngineConfig D
  put m as_type root key config = m.set (setting as_type root key (m.get config)) config

  -- The effect of a statement that does not throw.
  abbrev effect : Node → Statement D → EngineConfig D → EngineConfig D
  effect root (unsigned bits key m) = put m (yaml.as_unsigned bits) root key
  effect root (double key m) = put m yaml.as_double root key
  effect root (flag key m) = put m yaml.as_bool root key
  effect root (text key m) = put m yaml.as_string root key

  abbrev effects : Node → List (Statement D) → EngineConfig D → EngineConfig D
  effects root [] config = config
  effects root (s ∷ ss) config = effects root ss (effect root s config)

  assign_lem :
      {A : Type 0} (m : Member D A) (as_type : Node → Option A) (config : EngineConfig D)
      (found : Subscript Node)
      → assign yaml m config (value_at yaml as_type (m.get config) found) ≡ (
          if bad_at as_type found
          then none
          else some
              (m.set (value_or (m.get config) (value_at yaml as_type (m.get config) found)) config))
  assign_lem {A} m as_type config bad_subscript = refl
  assign_lem {A} m as_type config undefined = refl
  assign_lem {A} m as_type config (defined value) = split (yaml.is_null value) (as_type value)
    where
      split :
          (null : Bool) (o : Option A)
          → assign yaml m config (if null then some (m.get config) else o) ≡ (
              if (if null then false else is_none o)
              then none
              else some (
                  m.set (value_or (m.get config) (if null then some (m.get config) else o)) config))
      split true o = refl
      split false none = refl
      split false (some v) = refl

  perform_lem :
      (root : Node) (s : Statement D) (config : EngineConfig D)
      → perform yaml root s config ≡ (if is_bad root s then none else some (effect root s config))
  unfolding perform read_value is_bad setting
  perform_lem root (unsigned bits key m) config =
      assign_lem m (yaml.as_unsigned bits) config (yaml.subscript root key)
  perform_lem root (double key m) config =
      assign_lem m yaml.as_double config (yaml.subscript root key)
  perform_lem root (flag key m) config = assign_lem m yaml.as_bool config (yaml.subscript root key)
  perform_lem root (text key m) config =
      assign_lem m yaml.as_string config (yaml.subscript root key)

  perform_all_lem :
      (root : Node) (ss : List (Statement D)) (config : EngineConfig D)
      → perform_all yaml root ss config
        ≡ (if any_bad root ss then none else some (effects root ss config))
  unfolding perform_all
  perform_all_lem root [] config = refl
  perform_all_lem root (s ∷ ss) config =
      ap (λ o. and_then o (perform_all yaml root ss)) (perform_lem root s config)
      ∙ split (is_bad root s) _ (perform_all_lem root ss (effect root s config))
    where
      split :
          (bad : Bool) (rest : Option (EngineConfig D))
          → perform_all yaml root ss (effect root s config)
            ≡ (if any_bad root ss then none else rest)
          → and_then (if bad then none else some (effect root s config)) (perform_all yaml root ss)
            ≡ (if bad || any_bad root ss then none else rest)
      split true rest e = refl
      split false rest e = e

  -- Every member from its own key.
  abbrev pub expected : ⦃d : Double D⦄ → Node → EngineConfig D
  expected root =
      let base : EngineConfig D = default_config in
      record {
        worker_threads = setting (yaml.as_unsigned 32) root "worker_threads" base.worker_threads;
        symbol_capacity = setting (yaml.as_unsigned 32) root "symbol_capacity" base.symbol_capacity;
        max_symbols_per_tier =
            setting (yaml.as_unsigned 32) root "max_symbols_per_tier" base.max_symbols_per_tier;
        feed_threads = setting (yaml.as_unsigned 32) root "feed_threads" base.feed_threads;
        router_shards = setting (yaml.as_unsigned 32) root "router_shards" base.router_shards;
        ring_capacity = setting (yaml.as_unsigned 32) root "ring_capacity" base.ring_capacity;
        bar_timeframe_ns =
            setting (yaml.as_unsigned 64) root "bar_timeframe_ns" base.bar_timeframe_ns;
        range_ticks = setting (yaml.as_unsigned 32) root "range_ticks" base.range_ticks;
        volume_threshold =
            setting (yaml.as_unsigned 32) root "volume_threshold" base.volume_threshold;
        imbalance_ratio = setting yaml.as_double root "imbalance_ratio" base.imbalance_ratio;
        vwap_band_sigma = setting yaml.as_double root "vwap_band_sigma" base.vwap_band_sigma;
        vwap_band_levels =
            setting (yaml.as_unsigned 32) root "vwap_band_levels" base.vwap_band_levels;
        pulse_threshold = setting yaml.as_double root "pulse_threshold" base.pulse_threshold;
        turn_threshold = setting yaml.as_double root "turn_threshold" base.turn_threshold;
        cot_threshold = setting yaml.as_double root "cot_threshold" base.cot_threshold;
        sweep_threshold = setting yaml.as_double root "sweep_threshold" base.sweep_threshold;
        delta_surge_threshold =
            setting yaml.as_double root "delta_surge_threshold" base.delta_surge_threshold;
        cvd_lookback = setting (yaml.as_unsigned 32) root "cvd_lookback" base.cvd_lookback;
        volume_profile_levels =
            setting (yaml.as_unsigned 32) root "volume_profile_levels" base.volume_profile_levels;
        value_area_ratio = setting yaml.as_double root "value_area_ratio" base.value_area_ratio;
        max_daily_loss = setting yaml.as_double root "max_daily_loss" base.max_daily_loss;
        max_position_size = setting yaml.as_double root "max_position_size" base.max_position_size;
        max_orders_per_second =
            setting (yaml.as_unsigned 32) root "max_orders_per_second" base.max_orders_per_second;
        quote_age_ms = setting (yaml.as_unsigned 32) root "quote_age_ms" base.quote_age_ms;
        tick_timeout_ms = setting (yaml.as_unsigned 32) root "tick_timeout_ms" base.tick_timeout_ms;
        reconnection_backoff_ms =
            setting (yaml.as_unsigned 32) root "reconnection_backoff_ms"
              base.reconnection_backoff_ms;
        license_refresh_minutes =
            setting (yaml.as_unsigned 32) root "license_refresh_minutes"
              base.license_refresh_minutes;
        symbol_quota_bronze =
            setting (yaml.as_unsigned 32) root "symbol_quota_bronze" base.symbol_quota_bronze;
        symbol_quota_silver =
            setting (yaml.as_unsigned 32) root "symbol_quota_silver" base.symbol_quota_silver;
        symbol_quota_gold =
            setting (yaml.as_unsigned 32) root "symbol_quota_gold" base.symbol_quota_gold;
        symbol_quota_platinum =
            setting (yaml.as_unsigned 32) root "symbol_quota_platinum" base.symbol_quota_platinum;
        api_port = setting (yaml.as_unsigned 16) root "api_port" base.api_port;
        api_threads = setting (yaml.as_unsigned 32) root "api_threads" base.api_threads;
        feed_batch_size = setting (yaml.as_unsigned 32) root "feed_batch_size" base.feed_batch_size;
        drop_late_ticks = setting yaml.as_bool root "drop_late_ticks" base.drop_late_ticks;
        enable_lee_ready = setting yaml.as_bool root "enable_lee_ready" base.enable_lee_ready;
        enable_vwap = setting yaml.as_bool root "enable_vwap" base.enable_vwap;
        enable_volume_profile =
            setting yaml.as_bool root "enable_volume_profile" base.enable_volume_profile;
        enable_delta = setting yaml.as_bool root "enable_delta" base.enable_delta;
        enable_imbalance = setting yaml.as_bool root "enable_imbalance" base.enable_imbalance;
        enable_signals = setting yaml.as_bool root "enable_signals" base.enable_signals;
        persist_ticks = setting yaml.as_bool root "persist_ticks" base.persist_ticks;
        persist_bars = setting yaml.as_bool root "persist_bars" base.persist_bars;
        persist_signals = setting yaml.as_bool root "persist_signals" base.persist_signals;
        log_level = setting yaml.as_string root "log_level" base.log_level;
        machine_name = setting yaml.as_string root "machine_name" base.machine_name;
        venue_name = setting yaml.as_string root "venue_name" base.venue_name;
        strategy_name = setting yaml.as_string root "strategy_name" base.strategy_name;
      }

  -- from_yaml throws just where one of its keys cannot be looked up or has a value, not null, that
  -- does not convert to the member's type. Otherwise every member has the value of its own key, and
  -- its default where the key is missing or null.
  pub from_yaml_lem :
      ⦃d : Double D⦄ (root : Node)
      → from_yaml yaml root ≡ (if any_bad root statements then none else some (expected root))
  unfolding from_yaml
  from_yaml_lem root = perform_all_lem root statements default_config
