-- ===== src/Session/Bars/Lag.antt =====
-- When volume bars are closed by ofe_session1_code/ofe/src/core/bar_engine.cpp: the test is made on
-- the volume before the tick.
use rudra_org.Common.{
  ◌≡◌, refl, ap, ◌∙◌, Bool, true, false, not, some, List, [], ◌∷◌, ◌++◌, if◌then◌else◌,
}
use rudra_org.Common.Int.{ℤ, pos, ◌+ℤ◌, leb_ℤ}
use rudra_org.Float.{Double, ◌<?◌}
use rudra_org.Session.Tick.{UniversalTickRecord, is_accumulatable}
use rudra_org.Session.BarTypes.{volume, PriceLevelRecord, BarRecord}
use rudra_org.Session.Bars.{
  BarSeries, closes, sort_levels, with_poc, handed, finished_bar, close_with, should_close,
  accumulate, take_tick, bar_for, on_tick,
}

module _ {D : Type 0} ⦃d : Double D⦄ where
  -- The series with the tick in its open bar, or in a bar that it closes.
  abbrev pub still_open : BarSeries D → UniversalTickRecord D → BarRecord D → BarSeries D
  still_open s tick bar = record s { current_bar = some (accumulate s tick bar) }

  by_volume :
      (s : BarSeries D) (tick : UniversalTickRecord D) (bar : BarRecord D) (b : Bool)
      → s.bar_size.bar_type ≡ volume
      → is_accumulatable tick ≡ true
      → s.current_bar ≡ some bar
      → leb_ℤ (pos s.bar_size.size_value) bar.total_volume ≡ b
      → on_tick s tick ≡ (
          if b
          then close_with s (accumulate s tick bar) tick.exchange_ts_ns
          else still_open s tick bar)
  unfolding on_tick take_tick should_close
  by_volume s tick bar b kind counts current reached =
      let outcome : Bool → BarSeries D = λ c.
        if c
        then close_with s (accumulate s tick bar) tick.exchange_ts_ns
        else still_open s tick bar in
      ap (λ c. if not c then s else take_tick s tick (bar_for s tick s.current_bar)) counts
      ∙ ap (λ o. take_tick s tick (bar_for s tick o)) current
      ∙ ap (λ k. outcome (closes k s bar tick)) kind
      ∙ ap outcome reached

  finished_bar-total :
      (bar : BarRecord D) (now : ℤ) → (finished_bar bar now).total_volume ≡ bar.total_volume
  unfolding finished_bar with_poc
  finished_bar-total bar now = total (sort_levels bar.price_levels)
    where
      total :
          (ls : List (PriceLevelRecord D))
          → (with_poc
              (record bar {
                bar_close_ts_ns = now;
                is_complete = true;
                is_bullish = bar.bar_open <? bar.close;
              })
              ls).total_volume
            ≡ bar.total_volume
      total [] = refl
      total (l ∷ ls) = refl

  -- A volume bar is closed one tick late: the tick that takes its volume to the threshold leaves it
  -- open, and the next tick goes into it as well and then closes it, so the bar's volume is its old
  -- volume and that of both ticks.
  pub on_tick_late :
      (s : BarSeries D) (bar : BarRecord D) (first second : UniversalTickRecord D)
      → s.bar_size.bar_type ≡ volume
      → s.current_bar ≡ some bar
      → s.has_callback ≡ true
      → is_accumulatable first ≡ true
      → is_accumulatable second ≡ true
      → leb_ℤ (pos s.bar_size.size_value) bar.total_volume ≡ false
      → leb_ℤ (pos s.bar_size.size_value) (bar.total_volume +ℤ first.volume) ≡ true
      → (closed : BarRecord D) × ((on_tick s first).published ≡ s.published)
        × ((on_tick (on_tick s first) second).published ≡ s.published ++ closed ∷ [])
        × (closed.total_volume ≡ (bar.total_volume +ℤ first.volume) +ℤ second.volume)
  unfolding accumulate close_with
  on_tick_late s bar first second kind current callback counts counts' below reached =
      let bar₁ = accumulate s first bar in
      let s₁ = still_open s first bar in
      let bar₂ = accumulate s₁ second bar₁ in
      let one : on_tick s first ≡ s₁ = by_volume s first bar false kind counts current below in
      let two : on_tick s₁ second ≡ close_with s₁ bar₂ second.exchange_ts_ns =
        by_volume s₁ second bar₁ true kind counts' refl reached in
      let closed = finished_bar bar₂ second.exchange_ts_ns in
      (
        closed,
        ap (λ t. t.published) one,
        ap (λ t. (on_tick t second).published) one
            ∙ ap (λ t. t.published) two
            ∙ ap (λ c. handed c s.published closed) callback,
        finished_bar-total bar₂ second.exchange_ts_ns,
      )
