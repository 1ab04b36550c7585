-- ===== src/Ofe/Delta/Extremes.antt =====
-- The extremes, the running total and the count of include/ofe/analytics/delta_engine.h over a
-- whole history of updates.
use rudra_org.Common.{◌+◌, ◌%◌, ◌^◌, ◌<◌, ◌≡◌, refl, List, [], ◌∷◌, arith, All, length, foldl}
use rudra_org.Float.{Double, ◌⊕◌, ◌≼◌, IsOrdered}
use rudra_org.Float.Order.{fmax_bounds, fmin_bounds}
use rudra_org.Ofe.Delta.{DeltaEngine, Update, delta_of, update, update_all}

module _ {D : Type 0} ⦃d : Double D⦄ where
  -- The running total is the left-to-right sum of the deltas, and the count is that of the updates
  -- in 64 bits.
  update_all-totals :
      (e : DeltaEngine D) (us : List (Update D))
      → e.state.update_count < 2 ^ 64
      → let e' = update_all e us in
        (e'.state.cumulative_volume_delta
          ≡ foldl (λ sum u. sum ⊕ delta_of u) e.state.cumulative_volume_delta us)
        × (e'.state.update_count ≡ (e.state.update_count + length us) % 2 ^ 64)
  unfolding update_all update
  update_all-totals e [] h = (refl, omega arith)
  update_all-totals e (u ∷ us) h =
      let ih = update_all-totals (update e u) us (omega arith) in (ih.0, omega (arith, ih.1))

  module _ (laws : IsOrdered D) where
    open laws use {refl_of_le, le_trans}

    -- The delta of an update is no NaN.
    abbrev pub IsNumeric : Update D → Type 0
    IsNumeric u = delta_of u ≼ delta_of u

    abbrev pub Within : D → D → Update D → Type 0
    Within low high u = (low ≼ delta_of u) × (delta_of u ≼ high)

    -- After any updates whose deltas are numbers, every one of the deltas lies between the minimum
    -- and the maximum, which have only moved apart.
    pub update_all-Within :
        (e : DeltaEngine D) (us : List (Update D))
        → e.state.min_delta ≼ e.state.min_delta
        → e.state.max_delta ≼ e.state.max_delta
        → All IsNumeric us
        → let e' = update_all e us in
          (e'.state.min_delta ≼ e.state.min_delta)
          × (e.state.max_delta ≼ e'.state.max_delta)
          × All (Within e'.state.min_delta e'.state.max_delta) us
    unfolding update_all update
    update_all-Within e [] hmin hmax num = (hmin, hmax, tt)
    update_all-Within e (u ∷ us) hmin hmax (num, nums) =
        let low = fmin_bounds laws e.state.min_delta (delta_of u) hmin num in
        let high = fmax_bounds laws e.state.max_delta (delta_of u) hmax num in
        let (down, up, rest) =
          update_all-Within (update e u) us (refl_of_le _ _ low.0).0 (refl_of_le _ _ high.0).1
            nums in
        (
          le_trans _ _ _ down low.0,
          le_trans _ _ _ high.0 up,
          ((le_trans _ _ _ down low.1, le_trans _ _ _ high.1 up), rest),
        )
