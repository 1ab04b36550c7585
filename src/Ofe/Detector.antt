-- ===== src/Ofe/Detector.antt =====
-- include/ofe/analytics/signal_detector.h: the scores of the analytics and the signal made of them.
pub mod Scores
pub mod Types
mod Tests
use rudra_org.Common.{ℕ, ◌≡◌, if◌then◌else◌}
use rudra_org.Float.{Double, zero_D, clamp, ◌⊕◌, ◌⊖◌, ◌⊘◌, ◌<?◌, ◌=?◌}
use rudra_org.Ofe.LeeReady.{TradeDirection, unknown, buy, sell}
use rudra_org.Ofe.Delta.{DeltaState}
use rudra_org.Ofe.Imbalance.{ImbalanceSnapshot}
use rudra_org.Ofe.Vwap.{VwapSnapshot}
use rudra_org.Ofe.Profile.{VolumeProfileSnapshot}
use rudra_org.Ofe.Signals.{SignalType, SignalEvent, blank_event, buy_edge, sell_edge, neutral}

pub record CompositeSignalScores (D : Type 0) : Type 0 where
  pub pulse : D
  pub turns : D
  pub cot : D
  pub sweep : D

-- What one call reads.
pub record Reading (D : Type 0) : Type 0 where
  pub delta : DeltaState D
  pub imbalance : ImbalanceSnapshot D
  pub vwap : VwapSnapshot D
  pub profile : VolumeProfileSnapshot D
  pub direction : TradeDirection

module _ {D : Type 0} ⦃d : Double D⦄ where
  abbrev pub one : D
  one = d.literal 1 0

  abbrev pub minus_one : D
  minus_one = d.neg one

  abbrev pub half : D
  half = d.literal 5 1

  abbrev pub direction_score : TradeDirection → D
  direction_score buy = one
  direction_score sell = minus_one
  direction_score unknown = zero_D

  unfoldable pub score : Reading D → CompositeSignalScores D
  score r =
      let normalized_delta =
        if r.delta.cumulative_volume_delta =? zero_D
        then zero_D
        else r.delta.bar_delta ⊘ (d.fabs r.delta.cumulative_volume_delta ⊕ one) in
      let imbalance_component =
        if r.imbalance.buy_imbalance
        then one
        else if r.imbalance.sell_imbalance
        then minus_one
        else zero_D in
      let vwap_component =
        if zero_D <? r.vwap.total_volume
        then (r.vwap.vwap ⊖ r.profile.poc_price) ⊘ (d.fabs r.profile.poc_price ⊕ one)
        else zero_D in
      record {
        pulse =
            clamp (((normalized_delta ⊕ imbalance_component) ⊕ vwap_component) ⊘ d.literal 3 0)
              minus_one one;
        turns =
            clamp ((r.delta.divergence ⊕ r.delta.surge) ⊘ (d.fabs r.delta.surge ⊕ one)) minus_one
              one;
        cot = direction_score r.direction;
        sweep =
            if r.imbalance.absorption then one else if r.imbalance.stacked then half else zero_D;
      }

  unfoldable pub select_signal_type : CompositeSignalScores D → SignalType
  select_signal_type scores =
      if d.literal 8 1 <? scores.sweep
      then SignalType.sweep_buy
      else if half <? scores.pulse
      then SignalType.pulse_long
      else if scores.pulse <? d.neg half
      then SignalType.pulse_short
      else if half <? scores.turns
      then SignalType.turn_long
      else if scores.turns <? d.neg half
      then SignalType.turn_short
      else if half <? scores.cot
      then SignalType.cot_long
      else if scores.cot <? d.neg half
      then SignalType.cot_short
      else SignalType.unknown

  unfoldable pub evaluate : (timestamp_ns symbol_id : ℕ) → Reading D → SignalEvent D
  evaluate timestamp_ns symbol_id r =
      let scores = score r in
      let strength =
        clamp
          ((((d.fabs scores.pulse ⊕ d.fabs scores.turns) ⊕ d.fabs scores.cot) ⊕ d.fabs scores.sweep)
            ⊘ d.literal 4 0)
          zero_D one in
      record blank_event {
        timestamp_ns = timestamp_ns;
        symbol_id = symbol_id;
        delta = r.delta.bar_delta;
        cvd = r.delta.cumulative_volume_delta;
        vwap = r.vwap.vwap;
        upper_band = r.vwap.upper_band_1;
        lower_band = r.vwap.lower_band_1;
        poc_price = r.profile.poc_price;
        value_area_low = r.profile.value_area_low;
        value_area_high = r.profile.value_area_high;
        imbalance_ratio =
            if zero_D <? r.imbalance.diagonal_buy_ratio
            then r.imbalance.diagonal_buy_ratio
            else r.imbalance.diagonal_sell_ratio;
        pulse_score = scores.pulse;
        turn_score = scores.turns;
        cot_score = scores.cot;
        sweep_score = scores.sweep;
        strength = strength;
        confidence = strength;
        signal_type = select_signal_type scores;
        imbalance_zone =
            if r.imbalance.buy_imbalance
            then buy_edge
            else if r.imbalance.sell_imbalance
            then sell_edge
            else neutral;
      }
