-- ===== src/Session/Delta/Extreme.antt =====
-- The extreme-delta detector of ofe_session1_code/ofe/src/analytics/delta_engine.cpp on a bar that
-- has just been closed.
use rudra_org.Common.{
  ℕ, ◌+◌, ◌≤◌, ◌≡◌, refl, Bool, true, false, Bool-cases, inl, inr, none, some, arith, if◌then◌else◌,
}
use rudra_org.Common.Int.{ℤ, pos, pos_part, neg_part, ◌-ℤ◌, ltb_ℤ, eqb_ℤ, abs, to_int32}
use rudra_org.Float.{Double, IsOrdered, ◌⊘◌, ◌<?◌}
use rudra_org.Session.BarTypes.{BarRecord, of_int}
use rudra_org.Session.Signals.{SignalEvent}
use rudra_org.Session.Delta.{DeltaState, on_bar_close, session_max, detect_extreme_delta}

-- The absolute value of the number that was last taken into two extremes is at most theirs.
within_extremes :
    (delta high low : ℤ)
    → let high' = if ltb_ℤ high delta then delta else high in
      let low' = if ltb_ℤ delta low then delta else low in
      let most = if ltb_ℤ (abs high') (abs low') then abs low' else abs high' in
      (neg_part most ≡ 0) × (pos_part (abs delta) ≤ pos_part most)
unfolding abs
within_extremes delta high low = (ground arith, ground arith)

module _ {D : Type 0} ⦃d : Double D⦄ where
  -- The ratio of two absolute values, the first of them at most the second.
  ratio-not-above :
      (laws : IsOrdered D) (n m : ℕ) (threshold : D)
      → 1 ≤ m
      → n ≤ m
      → (d.literal 1 0 <? threshold) ≡ true
      → ((d.of_nat n ⊘ d.of_nat m) <? threshold) ≡ true
  ratio-not-above laws n m threshold some_m h above =
      let low = laws.div-le-one n m some_m h in
      let (num, _) = laws.refl_of_le _ _ low in
      let (one, high) = laws.refl_of_lt _ _ above in
      let lt = laws.lt-eq-not-le (d.of_nat n ⊘ d.of_nat m) threshold num high in
      let lt' = laws.lt-eq-not-le (d.literal 1 0) threshold one high in
      ground (arith, laws.le_trans threshold (d.of_nat n ⊘ d.of_nat m) (d.literal 1 0))

  silent :
      (laws : IsOrdered D) (threshold : D) (b : Bool) (delta most : ℤ) (signal : SignalEvent D)
      → (d.literal 1 0 <? threshold) ≡ true
      → neg_part most ≡ 0
      → pos_part (abs delta) ≤ pos_part most
      → (if b
          then none
          else if eqb_ℤ most (pos 0)
          then none
          else if (of_int (abs delta) ⊘ of_int most) <? threshold
          then none
          else some signal)
        ≡ none
  unfolding abs
  silent laws threshold true delta most signal above low h = refl
  silent laws threshold false delta (ℤ.negsuc m) signal above low h = absurd (omega arith)
  silent laws threshold false delta (pos m) signal above low h =
      elim (Bool-cases (eqb_ℤ (pos m) (pos 0))) [
        | inl zero ↦ rw zero refl
        | inr some_m ↦
            let size : ℕ = pos_part delta + neg_part delta in
            rw (some_m, ratio-not-above laws size m threshold (ground arith) h above) refl
      ]

  -- Under the IEEE laws of comparison and division, the detector never reports the bar that was just
  -- closed, for any threshold above 1: the close has already taken the bar's delta into the extremes
  -- that it is compared with.
  pub detect_extreme_delta_never :
      (laws : IsOrdered D) (alpha : D) (now : ℤ) (bar : BarRecord D) (state : DeltaState D)
      (threshold : D)
      → (d.literal 1 0 <? threshold) ≡ true
      → let (bar', state') = on_bar_close alpha bar state in
        detect_extreme_delta now bar' state' threshold ≡ none
  unfolding on_bar_close detect_extreme_delta session_max
  detect_extreme_delta_never laws alpha now bar state threshold above =
      let delta = to_int32 (state.bar_ask_vol -ℤ state.bar_bid_vol) in
      let (low, h) = within_extremes delta state.session_max_delta state.session_min_delta in
      silent laws threshold _ delta _ _ above low h
