-- ===== src/Ofe/Detector/Tests.antt =====
-- Runs of the signal detector, and its theorems at a concrete reading.
use rudra_org.Common.{◌*◌, ◌≡◌, ◌≢◌, ◌⊎◌, false, refl}
use rudra_org.Common.Int.{pos}
use rudra_org.Float.{zero_D, clamp, ◌≤?◌}
use rudra_org.Float.Fixed.{Fixed, fixed_double, Fixed-IsOrdered, Fixed-IsPrecise, unit}
use rudra_org.Ofe.LeeReady.{buy, QuoteSnapshot, classify}
use rudra_org.Ofe.Signals.{SignalType}
use rudra_org.Ofe.Imbalance.{compare}
use rudra_org.Ofe.Detector.{Reading, one, minus_one, score, select_signal_type, evaluate}
use rudra_org.Ofe.Detector.Scores.{Between, evaluate_bounds}
use rudra_org.Ofe.Detector.Types.{type_of, evaluate_type, evaluate-classify}

-- A bar delta of 9 in a total of 19, a buying imbalance of 40 to 10 and an average above the point
-- of control.
abbrev reading : Reading Fixed
reading = record {
  delta = record {
    bar_delta = pos (9 * unit);
    max_delta = pos (9 * unit);
    min_delta = zero_D;
    cumulative_volume_delta = pos (19 * unit);
    divergence = zero_D;
    surge = pos unit;
    update_count = 4;
  };
  imbalance =
      compare (pos (10 * unit)) (pos (40 * unit)) (pos (20 * unit)) (pos (20 * unit))
        (pos (3 * unit));
  vwap = record {
    vwap = pos (103 * unit);
    stddev = pos unit;
    upper_band_1 = pos (104 * unit);
    lower_band_1 = pos (102 * unit);
    upper_band_2 = pos (105 * unit);
    lower_band_2 = pos (101 * unit);
    total_volume = pos (50 * unit);
  };
  profile = record {
    poc_price = pos (99 * unit);
    value_area_low = pos (98 * unit);
    value_area_high = pos (101 * unit);
    total_volume = pos (50 * unit);
    poc_volume = pos (20 * unit);
  };
  direction = buy;
}

-- (0.45 + 1 + 0.04) / 3, rounded down, is below the 0.5 of a pulse; the turns are 0.5; the buy
-- decides.
pulse : (score reading).pulse ≡ pos 496666666
unfolding score compare clamp
pulse = refl

cot_long : (evaluate 5 7 reading).signal_type ≡ SignalType.cot_long
unfolding evaluate score select_signal_type compare clamp
cot_long = refl

-- Both sides heavy on the diagonal.
swept :
    (evaluate 5 7 (record reading {
      imbalance =
          compare
            (pos (10 * unit))
            (pos (40 * unit))
            (pos (20 * unit))
            (pos (90 * unit))
            (pos (3 * unit));
    })).signal_type
    ≡ SignalType.sweep_buy
unfolding evaluate score select_signal_type compare clamp
swept = refl

evaluate_bounds_example :
    let event = evaluate 5 7 reading in
    Between minus_one event.cot_score one
    × Between zero_D event.sweep_score one
    × (event.confidence ≡ event.strength)
    × (((event.pulse_score ≤? event.pulse_score) ≡ false) ⊎ Between minus_one event.pulse_score one)
    × (((event.turn_score ≤? event.turn_score) ≡ false) ⊎ Between minus_one event.turn_score one)
    × (((event.strength ≤? event.strength) ≡ false) ⊎ Between zero_D event.strength one)
unfolding evaluate score compare clamp
evaluate_bounds_example = evaluate_bounds Fixed-IsOrdered Fixed-IsPrecise 5 7 reading

evaluate_type_example :
    let event = evaluate 5 7 reading in
    event.signal_type ≡ type_of reading.imbalance.absorption event.pulse_score event.turn_score buy
evaluate_type_example = evaluate_type Fixed-IsOrdered Fixed-IsPrecise 5 7 reading

abbrev quote : QuoteSnapshot Fixed
quote = record { bid = pos (100 * unit); ask = pos (101 * unit); last_trade = pos (101 * unit) }

evaluate-classify_example : (evaluate 5 7 reading).signal_type ≢ SignalType.unknown
unfolding classify
evaluate-classify_example =
    evaluate-classify Fixed-IsOrdered Fixed-IsPrecise 5 7 reading quote
      (record { bid_num = refl; ask_num = refl; last_num = refl }) refl
