-- ===== src/Ofe/Bars/Closing.antt =====
-- When the bars of include/ofe/core/bar_engine.h are closed.
use mathlib.Core.Path.{subst}
use rudra_org.Common.{
  ℕ, ◌+◌, ◌%◌, ◌^◌, ◌≤◌, ◌≡◌, refl, ap, sym, ◌∙◌, Bool, true, false, ◌&&◌, leb, ltb, arith, All,
  All-append, if◌then◌else◌,
}
use rudra_org.Float.{Double, ◌⊖◌, ◌≤?◌}
use rudra_org.Ofe.Tick.{UniversalTickRecord}
use rudra_org.Ofe.Bars.{
  BarType, time, range, volume, BarRecord, BarSeries, blank_bar, start_bar, update_bar,
  finalize_bar, ready_bar, renew_bar, close_bar, ingest, time_is_up, is_time, should_finalize,
  reaches,
}

module _ {D : Type 0} ⦃d : Double D⦄ where
  -- A bar has reached its threshold: in nanoseconds from its start to its end, with the sum in 64
  -- bits, in price from its low to its high, or in volume.
  abbrev pub HasReached : BarType → ℕ → BarRecord D → Type 0
  HasReached time threshold bar =
      (bar.start_timestamp_ns + threshold) % 2 ^ 64 ≤ bar.end_timestamp_ns
  HasReached range threshold bar = (d.of_nat threshold ≤? (bar.high ⊖ bar.low)) ≡ true
  HasReached volume threshold bar = (d.of_nat threshold ≤? bar.volume) ≡ true

  -- The next tick may still go into an open bar: the price or the volume has not reached the
  -- threshold. A time bar can wait for any tick.
  abbrev pub IsBelow : BarType → ℕ → BarRecord D → Type 0
  IsBelow time threshold bar = Unit
  IsBelow range threshold bar = (d.of_nat threshold ≤? (bar.high ⊖ bar.low)) ≡ false
  IsBelow volume threshold bar = (d.of_nat threshold ≤? bar.volume) ≡ false

  abbrev pub AreFull : BarSeries D → Type 0
  AreFull s = All (HasReached s.bar_type s.threshold) s.completed

  -- The record of an open bar, and that between two bars.
  abbrev pub OfState : Bool → BarSeries D → Type 0
  OfState true s = IsBelow s.bar_type s.threshold s.current
  OfState false s = s.current ≡ blank_bar

  -- An open bar is below the threshold, between two bars the current record is blank, and the
  -- completed bars are full.
  pub record IsSettled (s : BarSeries D) : Type 0 where
    pub present : OfState s.active s
    pub full : AreFull s

  -- What a step keeps of a series.
  abbrev Same : BarSeries D → BarSeries D → Type 0
  Same s s' = (s'.bar_type ≡ s.bar_type) × (s'.threshold ≡ s.threshold)

  -- What the test for a full bar says, once the range is that of the high and the low.
  reaches-HasReached :
      (kind : BarType) (threshold : ℕ) (bar : BarRecord D) (now : ℕ)
      → bar.range ≡ bar.high ⊖ bar.low
      → reaches kind threshold bar ≡ true
      → HasReached kind threshold (record bar { end_timestamp_ns = now })
  reaches-HasReached time threshold bar now spread e = absurd cc
  reaches-HasReached range threshold bar now spread e =
      ap (λ x. d.of_nat threshold ≤? x) (sym spread) ∙ e
  reaches-HasReached volume threshold bar now spread e = e

  reaches-IsBelow :
      (kind : BarType) (threshold : ℕ) (bar : BarRecord D)
      → bar.range ≡ bar.high ⊖ bar.low
      → reaches kind threshold bar ≡ false
      → IsBelow kind threshold bar
  reaches-IsBelow time threshold bar spread e = tt
  reaches-IsBelow range threshold bar spread e = ap (λ x. d.of_nat threshold ≤? x) (sym spread) ∙ e
  reaches-IsBelow volume threshold bar spread e = e

  -- A busy series on the way through `ingest`.
  abbrev Open : BarSeries D → BarSeries D → Type 0
  Open s s' = Same s s' × AreFull s' × (s'.active ≡ true)

  ready_bar-Open :
      (s : BarSeries D) (tick : UniversalTickRecord D) → AreFull s → Open s (ready_bar s tick)
  unfolding ready_bar start_bar
  ready_bar-Open s tick full = split s.active refl
    where
      split : (b : Bool) → s.active ≡ b → Open s (if b then s else start_bar s tick)
      split true on = ((refl, refl), full, on)
      split false off = ((refl, refl), full, refl)

  -- A time bar that is over has reached its threshold.
  over-HasReached :
      (kind : BarType) (threshold now : ℕ) (bar : BarRecord D)
      → (is_time kind
          && leb ((bar.start_timestamp_ns + threshold) % 2 ^ 64) now
          && ltb 0 bar.trade_count)
        ≡ true
      → HasReached kind threshold (record bar { end_timestamp_ns = now })
  over-HasReached time threshold now bar e = ground arith
  over-HasReached range threshold now bar e = absurd cc
  over-HasReached volume threshold now bar e = absurd cc

  renew_bar-Open :
      (s : BarSeries D) (tick : UniversalTickRecord D)
      → AreFull s
      → s.active ≡ true
      → Open s (renew_bar s tick)
  unfolding renew_bar start_bar finalize_bar time_is_up
  renew_bar-Open s tick full on = split (time_is_up s tick) refl
    where
      now : ℕ
      now = tick.timestamp_ns

      split :
          (b : Bool)
          → time_is_up s tick ≡ b
          → Open s (if b then start_bar (finalize_bar s now) tick else s)
      split false early = ((refl, refl), full, on)
      split true up =
          let over = over-HasReached s.bar_type s.threshold now s.current up in
          (
            (refl, refl),
            All-append (HasReached s.bar_type s.threshold) s.completed _ full (over, tt),
            refl,
          )

  update_bar-Open :
      (s : BarSeries D) (tick : UniversalTickRecord D)
      → AreFull s
      → s.active ≡ true
      → Open s (update_bar s tick)
  unfolding update_bar
  update_bar-Open s tick full on = ((refl, refl), full, on)

  update_bar_range :
      (s : BarSeries D) (tick : UniversalTickRecord D)
      → let bar = (update_bar s tick).current in bar.range ≡ bar.high ⊖ bar.low
  unfolding update_bar
  update_bar_range s tick = refl

  close_bar-IsSettled :
      (s : BarSeries D) (tick : UniversalTickRecord D)
      → AreFull s
      → s.active ≡ true
      → s.current.range ≡ s.current.high ⊖ s.current.low
      → IsSettled (close_bar s tick) × Same s (close_bar s tick)
  unfolding close_bar finalize_bar should_finalize
  close_bar-IsSettled s tick full on spread = split (should_finalize s) refl
    where
      now : ℕ
      now = tick.timestamp_ns

      split :
          (b : Bool)
          → should_finalize s ≡ b
          → IsSettled (if b then record (finalize_bar s now) { active = false } else s)
            × Same s (if b then record (finalize_bar s now) { active = false } else s)
      split false more = (
        record {
          present =
              subst (λ active. OfState active s) (sym on)
                (reaches-IsBelow s.bar_type s.threshold s.current spread more);
          full = full;
        },
        (refl, refl),
      )
      split true enough = (
        record {
          present = refl;
          full =
              All-append (HasReached s.bar_type s.threshold) s.completed _ full
                (reaches-HasReached s.bar_type s.threshold s.current now spread enough, tt);
        },
        (refl, refl),
      )

  -- After a tick: an open range or volume bar, its range being that from its low to its high, has
  -- not reached the threshold, there is a blank record between two bars, and every completed bar
  -- has reached the threshold, where that was so of the completed bars before. A time bar has
  -- reached it when it ends that many nanoseconds behind its start or later, with the sum in 64
  -- bits. The kind and the threshold stay.
  pub ingest-IsSettled :
      (s : BarSeries D) (tick : UniversalTickRecord D)
      → AreFull s
      → IsSettled (ingest s tick)
        × ((ingest s tick).bar_type ≡ s.bar_type)
        × ((ingest s tick).threshold ≡ s.threshold)
  unfolding ingest
  ingest-IsSettled s tick full =
      let ready = ready_bar s tick in
      let opened = renew_bar ready tick in
      let ((t₀, h₀), full₀, on₀) = ready_bar-Open s tick full in
      let ((t₁, h₁), full₁, on₁) = renew_bar-Open ready tick full₀ on₀ in
      let ((t₂, h₂), full₂, on₂) = update_bar-Open opened tick full₁ on₁ in
      let (settled, (t₃, h₃)) =
        close_bar-IsSettled (update_bar opened tick) tick full₂ on₂
          (update_bar_range opened tick) in
      (settled, t₃ ∙ t₂ ∙ t₁ ∙ t₀, h₃ ∙ h₂ ∙ h₁ ∙ h₀)
