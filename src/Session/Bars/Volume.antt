-- ===== src/Session/Bars/Volume.antt =====
-- No volume is lost between the ticks and the bars of ofe_session1_code/ofe/src/core/bar_engine.cpp.
use mathlib.Core.Path.{subst}
use rudra_org.Common.{
  ℕ, ◌+◌, ◌^◌, ◌<◌, ◌≡◌, refl, sym, ap, ap₂, ◌∙◌, Bool, true, false, not, Option, none, some, List,
  [], ◌∷◌, ◌++◌, All, All-append, arith, if◌then◌else◌,
}
use rudra_org.Common.Int.{ℤ, pos, ◌+ℤ◌, pos-add}
use rudra_org.Float.{Double}
use rudra_org.Session.Tick.{UniversalTickRecord, is_accumulatable}
use rudra_org.Session.BarTypes.{PriceLevelRecord, BarRecord}
use rudra_org.Session.Bars.{
  BarSeries, new_bar, sort_levels, max_level, with_poc, handed, finished_bar, close_with,
  should_close, rounded_price, accumulate, bar_for, take_tick, on_tick,
}
use rudra_org.Session.Bars.Levels.{
  IsBalanced, volume_sum, AreBalanced, flag_poc-AreBalanced, sort_levels-AreBalanced,
  at_level-AreBalanced,
}

abbrev pub bar_volume : {D : Type 0} → BarRecord D → ℕ
bar_volume bar = volume_sum bar.price_levels

-- The levels of the bar are balanced, and its total is the sum of theirs.
abbrev pub IsBooked : {D : Type 0} → BarRecord D → Type 0
IsBooked bar = All IsBalanced bar.price_levels × (bar.total_volume ≡ pos (bar_volume bar))

abbrev pub CurrentIsBooked : {D : Type 0} → Option (BarRecord D) → Type 0
CurrentIsBooked none = Unit
CurrentIsBooked (some bar) = IsBooked bar

abbrev pub current_volume : {D : Type 0} → Option (BarRecord D) → ℕ
current_volume none = 0
current_volume (some bar) = bar_volume bar

abbrev pub published_volume : {D : Type 0} → List (BarRecord D) → ℕ
published_volume [] = 0
published_volume (bar ∷ bars) = bar_volume bar + published_volume bars

published_volume-append :
    {D : Type 0} (bars : List (BarRecord D)) (bar : BarRecord D)
    → published_volume (bars ++ bar ∷ []) ≡ published_volume bars + bar_volume bar
published_volume-append [] bar = omega arith
published_volume-append (b ∷ bars) bar = omega (arith, published_volume-append bars bar)

-- The volume in the bars that the callback has been given and in the current one.
abbrev pub traded : {D : Type 0} → BarSeries D → ℕ
traded s = published_volume s.published + current_volume s.current_bar

abbrev pub AllBooked : {D : Type 0} → BarSeries D → Type 0
AllBooked s = All IsBooked s.published × CurrentIsBooked s.current_bar

-- What a tick adds to the bars.
abbrev pub counted : Bool → ℕ → ℕ
counted true v = v
counted false v = 0

module _ {D : Type 0} ⦃d : Double D⦄ where
  with_poc-IsBooked :
      (bar : BarRecord D) (sum : ℕ) (ls : List (PriceLevelRecord D))
      → AreBalanced sum ls
      → bar.total_volume ≡ pos sum
      → IsBooked (with_poc bar ls) × (bar_volume (with_poc bar ls) ≡ sum)
  unfolding with_poc
  with_poc-IsBooked bar sum [] (bs, e) total = ((tt, total ∙ ap pos (sym e)), e)
  with_poc-IsBooked bar sum (l ∷ ls) (bs, e) total =
      let (bs', e') = flag_poc-AreBalanced (max_level l ls).total_vol (l ∷ ls) bs in
      ((bs', total ∙ ap pos (sym (e' ∙ e))), e' ∙ e)

  finished_bar-IsBooked :
      (bar : BarRecord D) (now : ℤ)
      → IsBooked bar
      → IsBooked (finished_bar bar now) × (bar_volume (finished_bar bar now) ≡ bar_volume bar)
  unfolding finished_bar
  finished_bar-IsBooked bar now (bs, total) =
      with_poc-IsBooked _ (bar_volume bar) (sort_levels bar.price_levels)
        (sort_levels-AreBalanced bar.price_levels bs) total

  accumulate-IsBooked :
      (s : BarSeries D) (tick : UniversalTickRecord D) (bar : BarRecord D) (v : ℕ)
      → tick.volume ≡ pos v
      → bar_volume bar + v < 2 ^ 31
      → IsBooked bar
      → IsBooked (accumulate s tick bar) × (bar_volume (accumulate s tick bar) ≡ bar_volume bar + v)
  unfolding accumulate
  accumulate-IsBooked s tick bar v e room (bs, total) =
      let (bs', sum) =
        at_level-AreBalanced (rounded_price s.tick_size tick.price) s.tick_size tick v
          bar.price_levels e room bs in
      ((bs', ap₂ ◌+ℤ◌ total e ∙ pos-add (bar_volume bar) v ∙ ap pos (sym sum)), sum)

  take_tick-AllBooked :
      (s : BarSeries D) (tick : UniversalTickRecord D) (bar : BarRecord D) (v : ℕ)
      → tick.volume ≡ pos v
      → bar_volume bar + v < 2 ^ 31
      → s.has_callback ≡ true
      → All IsBooked s.published
      → IsBooked bar
      → AllBooked (take_tick s tick bar)
        × (traded (take_tick s tick bar) ≡ published_volume s.published + bar_volume bar + v)
        × ((take_tick s tick bar).has_callback ≡ true)
  unfolding take_tick close_with
  take_tick-AllBooked s tick bar v e room callback ps b = split (should_close s bar tick)
    where
      bar' : BarRecord D
      bar' = accumulate s tick bar

      finished : BarRecord D
      finished = finished_bar bar' tick.exchange_ts_ns

      split :
          (closes : Bool)
          → let s' =
              if closes
              then close_with s bar' tick.exchange_ts_ns
              else record s { current_bar = some bar' } in
            AllBooked s'
            × (traded s' ≡ published_volume s.published + bar_volume bar + v)
            × (s'.has_callback ≡ true)
      split false =
          let (b', sum) = accumulate-IsBooked s tick bar v e room b in
          ((ps, b'), omega (arith, sum), callback)
      split true =
          let (b', sum) = accumulate-IsBooked s tick bar v e room b in
          let (f, same) = finished_bar-IsBooked bar' tick.exchange_ts_ns b' in
          let given : handed s.has_callback s.published finished ≡ s.published ++ finished ∷ [] =
            ap (λ c. handed c s.published finished) callback in
          (
            (
              subst (All IsBooked) (sym given)
                  (All-append IsBooked s.published (finished ∷ []) ps (f, tt)),
              tt,
            ),
            omega (
              arith,
              ap published_volume given,
              published_volume-append s.published finished,
              same,
              sum,
            ),
            callback,
          )

  -- A tick of volume `v` that leaves the current bar below 2^31 keeps the books of every bar: each
  -- level's total and delta are those of its sides, and each bar's volume is the sum of its levels.
  -- The volume of all bars, in the callback's hands or open, grows by `v`, or not at all where the
  -- tick is not to be accumulated.
  pub on_tick-AllBooked :
      (s : BarSeries D) (tick : UniversalTickRecord D) (v : ℕ)
      → tick.volume ≡ pos v
      → current_volume s.current_bar + v < 2 ^ 31
      → s.has_callback ≡ true
      → AllBooked s
      → AllBooked (on_tick s tick)
        × (traded (on_tick s tick) ≡ traded s + counted (is_accumulatable tick) v)
        × ((on_tick s tick).has_callback ≡ true)
  unfolding on_tick new_bar
  on_tick-AllBooked s tick v e room callback (ps, c) =
      let bar = bar_for s tick s.current_bar in
      let (fits, b) = the_bar s.current_bar room c in
      let (kept, sum, set) =
        take_tick-AllBooked s tick bar v e (omega (arith, fits)) callback ps b in
      split (is_accumulatable tick) (kept, omega (arith, sum, fits), set)
    where
      the_bar :
          (o : Option (BarRecord D))
          → current_volume o + v < 2 ^ 31
          → CurrentIsBooked o
          → (bar_volume (bar_for s tick o) ≡ current_volume o) × IsBooked (bar_for s tick o)
      the_bar none fits b = (refl, (tt, refl))
      the_bar (some bar) fits b = (refl, b)

      split :
          (b : Bool)
          → (AllBooked (take_tick s tick (bar_for s tick s.current_bar))
              × (traded (take_tick s tick (bar_for s tick s.current_bar)) ≡ traded s + v)
              × ((take_tick s tick (bar_for s tick s.current_bar)).has_callback ≡ true))
          → let s' = if not b then s else take_tick s tick (bar_for s tick s.current_bar) in
            AllBooked s' × (traded s' ≡ traded s + counted b v) × (s'.has_callback ≡ true)
      split false taken = ((ps, c), omega arith, callback)
      split true taken = taken
