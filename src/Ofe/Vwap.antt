-- ===== src/Ofe/Vwap.antt =====
-- include/ofe/analytics/vwap_engine.h: the volume-weighted average price and its bands.
pub mod Sums
mod Tests
use rudra_org.Common.{List, [], ◌∷◌, if◌then◌else◌}
use rudra_org.Float.{Double, zero_D, fmax, ◌⊕◌, ◌⊖◌, ◌⊗◌, ◌⊘◌, ◌≤?◌}

pub record VwapSnapshot (D : Type 0) : Type 0 where
  pub vwap : D
  pub stddev : D
  pub upper_band_1 : D
  pub lower_band_1 : D
  pub upper_band_2 : D
  pub lower_band_2 : D
  pub total_volume : D

pub record VwapEngine (D : Type 0) : Type 0 where
  pub sum_price_volume : D
  pub sum_price2_volume : D
  pub sum_volume : D

-- The calls that change an engine.
pub data Call (D : Type 0) : Type 0 where
  reset_call : Call D
  add_call : (price volume : D) → Call D

module _ {D : Type 0} ⦃d : Double D⦄ where
  unfoldable pub reset : VwapEngine D
  reset = record { sum_price_volume = zero_D; sum_price2_volume = zero_D; sum_volume = zero_D }

  unfoldable pub add : D → D → VwapEngine D → VwapEngine D
  add price volume e = if volume ≤? zero_D then e else record {
    sum_price_volume = e.sum_price_volume ⊕ (price ⊗ volume);
    sum_price2_volume = e.sum_price2_volume ⊕ ((price ⊗ price) ⊗ volume);
    sum_volume = e.sum_volume ⊕ volume;
  }

  abbrev pub call : Call D → VwapEngine D → VwapEngine D
  call reset_call e = reset
  call (add_call price volume) e = add price volume e

  abbrev pub run : List (Call D) → VwapEngine D → VwapEngine D
  run [] e = e
  run (c ∷ cs) e = run cs (call c e)

  -- The snapshot of a positive volume.
  abbrev pub bands : (vwap stddev total_volume : D) → VwapSnapshot D
  bands vwap stddev total_volume = record {
    vwap = vwap;
    stddev = stddev;
    upper_band_1 = vwap ⊕ stddev;
    lower_band_1 = vwap ⊖ stddev;
    upper_band_2 = vwap ⊕ (d.literal 2 0 ⊗ stddev);
    lower_band_2 = vwap ⊖ (d.literal 2 0 ⊗ stddev);
    total_volume = total_volume;
  }

  unfoldable pub snapshot : VwapEngine D → VwapSnapshot D
  unfolding fmax
  snapshot e =
      let vwap = e.sum_price_volume ⊘ e.sum_volume in
      let mean_square = e.sum_price2_volume ⊘ e.sum_volume in
      let variance = fmax zero_D (mean_square ⊖ (vwap ⊗ vwap)) in
      if e.sum_volume ≤? zero_D
      then record {
        vwap = zero_D;
        stddev = zero_D;
        upper_band_1 = zero_D;
        lower_band_1 = zero_D;
        upper_band_2 = zero_D;
        lower_band_2 = zero_D;
        total_volume = e.sum_volume;
      }
      else bands vwap (d.sqrt variance) e.sum_volume
