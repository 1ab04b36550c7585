-- ===== src/Session/Imbalance.antt =====
-- ofe_session1_code/ofe/include/analytics/imbalance_detector.h and src/analytics/imbalance_detector.cpp:
-- imbalances between the price levels of a bar, and the zones that they form.
pub mod Flags
pub mod Streaks
pub mod Stacked
pub mod Single
pub mod Runs
pub mod Zones
mod Tests
use rudra_org.Common.{
  ℕ, suc, ◌+◌, Bool, true, false, not, ◌&&◌, ◌||◌, Option, none, some, List, [], ◌∷◌, ◌++◌, map,
  ltb, leb, ◌==◌, if◌then◌else◌, length,
}
use rudra_org.Common.Int.{ℤ, pos, ltb_ℤ, leb_ℤ, abs, to_int32}
use rudra_org.Float.{Double, zero_D, fmax, fmin, ◌⊕◌, ◌⊖◌, ◌⊗◌, ◌⊘◌, ◌<?◌, ◌≤?◌}
use rudra_org.Session.BarTypes.{PriceLevelRecord, BarRecord, BarId, of_int}
use rudra_org.Session.Signals.{
  SignalType, single_imbalance_buy, single_imbalance_sell, stacked_imbalance_buy,
  stacked_imbalance_sell, absorption, trapped_buyers, trapped_sellers, SignalDirection, long, short,
  neutral, reversal, warning, SignalStrength, moderate, strong, very_strong, Metadata,
  imbalance_total, stacked_zone, absorbed, trap, SignalEvent, blank_signal, ImbalanceZone,
}
use rudra_org.Session.Imbalance.Flags.{ImbalanceConfig, flag_of, detect_single_imbalances}
use rudra_org.Session.Imbalance.Streaks.{is_long, detect_stacked}

module _ {D : Type 0} ⦃d : Double D⦄ where
  -- `now` is the system clock.
  unfoldable pub make_base_signal :
      (now : ℤ) (bar : BarRecord D) (kind : SignalType) (direction : SignalDirection)
      (strength : SignalStrength)
      → SignalEvent D
  make_base_signal now bar kind direction strength = record (blank_signal kind direction strength) {
    symbol_id = bar.symbol_id;
    symbol = bar.symbol;
    bar_id = bar.bar_id;
    bar_open_ts_ns = bar.bar_open_ts_ns;
    bar_close_ts_ns = bar.bar_close_ts_ns;
    bar_delta = bar.bar_delta;
    bar_volume = bar.total_volume;
    price_at_signal = bar.close;
    detection_ts_ns = now;
  }

  unfoldable pub absorbs : ImbalanceConfig D → PriceLevelRecord D → Bool
  absorbs config l =
      let delta_ratio = of_int (abs l.delta) ⊘ of_int l.total_vol in
      not (ltb_ℤ l.total_vol (to_int32 (d.truncate config.absorption_vol_thresh)))
      && not (config.absorption_delta_ratio <? delta_ratio)

  unfoldable pub detect_absorption :
      ImbalanceConfig D → ℤ → BarRecord D → List (PriceLevelRecord D) → List (SignalEvent D)
  detect_absorption config now bar [] = []
  detect_absorption config now bar (l ∷ ls) =
      let rest = detect_absorption config now bar ls in
      let delta_ratio = of_int (abs l.delta) ⊘ of_int l.total_vol in
      if absorbs config l
      then record (make_base_signal now bar absorption neutral strong) {
        price_at_signal = l.price;
        metadata_json =
            absorbed l.price l.bid_vol l.ask_vol l.total_vol l.delta
              (delta_ratio ⊗ d.literal 100 0);
      }
        ∷ rest
      else rest

  -- The first flagged level near an end of the bar.
  unfoldable pub find_trap : Bool → D → D → List (PriceLevelRecord D) → Option (PriceLevelRecord D)
  find_trap buying extreme tolerance [] = none
  find_trap buying extreme tolerance (l ∷ ls) =
      let further = find_trap buying extreme tolerance ls in
      if flag_of buying l && (d.fabs (l.price ⊖ extreme) ≤? tolerance) then some l else further

  abbrev pub trap_signal :
      ℤ
      → BarRecord D
      → SignalType
      → SignalDirection
      → D
      → D
      → Option (PriceLevelRecord D)
      → List (SignalEvent D)
  trap_signal now bar kind direction extreme stop none = []
  trap_signal now bar kind direction extreme stop (some l) =
      record (make_base_signal now bar kind direction strong) {
        price_at_signal = l.price;
        suggested_entry = bar.close;
        suggested_stop = stop;
        metadata_json = trap l.price extreme l.bid_vol l.ask_vol;
      }
      ∷ []

  unfoldable pub detect_trapped_traders : ℤ → BarRecord D → D → List (SignalEvent D)
  detect_trapped_traders now bar tick_size =
      let half_range = (bar.high ⊖ bar.low) ⊗ d.literal 5 1 in
      let tolerance = tick_size ⊗ d.literal 2 0 in
      let sellers =
        trap_signal now bar trapped_sellers long bar.low (bar.low ⊖ tick_size)
          (find_trap false bar.low tolerance bar.price_levels) in
      let buyers =
        trap_signal now bar trapped_buyers short bar.high (bar.high ⊕ tick_size)
          (find_trap true bar.high tolerance bar.price_levels) in
      (if (bar.bar_open ⊕ (half_range ⊗ d.literal 5 1)) <? bar.close then sellers else [])
      ++ (if bar.close <? (bar.bar_open ⊖ (half_range ⊗ d.literal 5 1)) then buyers else [])

  unfoldable pub detect_2nd_slot : BarRecord D → List (ImbalanceZone D) → List (SignalEvent D)
  detect_2nd_slot bar zones = []

  unfoldable pub traded_through : BarRecord D → D → ImbalanceZone D → Bool
  traded_through bar tolerance zone =
      if is_long zone.zone_direction
      then bar.low <? (zone.price_low ⊖ tolerance)
      else (zone.price_high ⊕ tolerance) <? bar.high

  unfoldable pub update_zone : BarRecord D → D → ImbalanceZone D → ImbalanceZone D
  update_zone bar tolerance zone =
      if not zone.is_active
      then zone
      else if traded_through bar tolerance zone
      then record zone { is_active = false; resolved_ts_ns = bar.bar_close_ts_ns }
      else zone

  unfoldable pub update_zone_registry :
      List (ImbalanceZone D) → BarRecord D → D → List (ImbalanceZone D)
  update_zone_registry zones bar tick_size = map (update_zone bar (tick_size ⊗ d.literal 5 1)) zones

  abbrev pub count_signal :
      ℤ → BarRecord D → SignalType → SignalDirection → ℕ → List (SignalEvent D)
  count_signal now bar kind direction count =
      if ltb 0 count
      then record (make_base_signal now bar kind direction moderate) {
        metadata_json = imbalance_total count;
      }
        ∷ []
      else []

  abbrev pub not_empty : List (SignalEvent D) → Bool
  not_empty [] = false
  not_empty (s ∷ ss) = true

  -- The signals, the bar and the zones after the call.
  unfoldable pub detect_all :
      ImbalanceConfig D
      → (ℕ → ℕ)
      → ℤ
      → BarRecord D
      → List (ImbalanceZone D)
      → D
      → List (SignalEvent D) × BarRecord D × List (ImbalanceZone D)
  detect_all config ids now bar active_zones tick_size =
      let (levels, buy_count, sell_count) =
        detect_single_imbalances config tick_size bar.price_levels in
      let flagged = record bar { price_levels = levels } in
      let buys = count_signal now flagged single_imbalance_buy long buy_count in
      let sells = count_signal now flagged single_imbalance_sell short sell_count in
      let (zones, stacked) =
        detect_stacked config ids bar.bar_id bar.bar_close_ts_ns now levels active_zones in
      let absorptions = detect_absorption config now flagged levels in
      (
        buys ++ sells ++ stacked ++ absorptions ++ detect_trapped_traders now flagged tick_size,
        record flagged {
          has_buy_imbalance = if ltb 0 buy_count then true else bar.has_buy_imbalance;
          has_sell_imbalance = if ltb 0 sell_count then true else bar.has_sell_imbalance;
          has_absorption = if not_empty absorptions then true else bar.has_absorption;
        },
        update_zone_registry zones flagged tick_size,
      )
