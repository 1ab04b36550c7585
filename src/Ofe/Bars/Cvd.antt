-- ===== src/Ofe/Bars/Cvd.antt =====
-- The running total of the deltas in include/ofe/core/bar_engine.h, from bar to bar.
use rudra_org.Common.{◌≡◌, refl, ap, ◌⊎◌, inl, inr, true, false, Bool-cases}
use rudra_org.Float.{Double}
use rudra_org.Ofe.Tick.{UniversalTickRecord}
use rudra_org.Ofe.Bars.{
  BarSeries, start_bar, update_bar, finalize_bar, ready_bar, renew_bar, close_bar, ingest,
  time_is_up,
}

module _ {D : Type 0} ⦃d : Double D⦄ where
  -- The series with another running total.
  abbrev pub with_cvd : BarSeries D → D → BarSeries D
  with_cvd s total = record s { session_cvd = total }

  opened_forgets :
      (s : BarSeries D) (tick : UniversalTickRecord D) (total : D)
      → (s.active ≡ false) ⊎ (time_is_up s tick ≡ true)
      → renew_bar (ready_bar s tick) tick ≡ renew_bar (ready_bar (with_cvd s total) tick) tick
  unfolding ready_bar renew_bar start_bar finalize_bar time_is_up
  opened_forgets s tick total (inl off) = rw off refl
  opened_forgets s tick total (inr up) = elim (Bool-cases s.active) [
    | inl on ↦ rw (on, up) refl
    | inr off ↦ rw off refl
  ]

  -- A tick that opens a bar, because there is none or because the time of the current one is over,
  -- has the same outcome whatever running total the series had: the total of the earlier bars is
  -- dropped.
  pub ingest-forgets_cvd :
      (s : BarSeries D) (tick : UniversalTickRecord D) (total : D)
      → (s.active ≡ false) ⊎ (time_is_up s tick ≡ true)
      → ingest s tick ≡ ingest (with_cvd s total) tick
  unfolding ingest
  ingest-forgets_cvd s tick total h =
      ap (λ opened. close_bar (update_bar opened tick) tick) (opened_forgets s tick total h)
