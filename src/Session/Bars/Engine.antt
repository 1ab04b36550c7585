-- ===== src/Session/Bars/Engine.antt =====
-- `BarEngine` of ofe_session1_code/ofe/src/core/bar_engine.cpp: up to four series of one symbol.
pub mod Distinct
use rudra_org.Common.{
  ℕ, suc, ◌+◌, ◌≤◌, ◌<◌, ◌≡◌, refl, sym, ap, ◌∙◌, Bool, true, false, not, ◌&&◌, Bool-cases, inl,
  inr, Option, none, some, List, [], ◌∷◌, ◌++◌, map, All, arith, leb, ◌==◌, if◌then◌else◌, length,
  length-append, length-map, select,
}
use rudra_org.Common.Int.{ℤ}
use rudra_org.Float.{Double}
use rudra_org.Session.Tick.{UniversalTickRecord, is_accumulatable}
use rudra_org.Session.BarTypes.{BarType, time, range, volume, BarSize, BarRecord}
use rudra_org.Session.Bars.{
  BarSeries, make_series, on_tick, on_session_open, force_close_bar, take_tick, close_with,
  close_current_bar, bar_for, should_close, close_bar_of,
}

pub record BarEngine (D : Type 0) : Type 0 where
  pub symbol : List ℕ
  pub symbol_id : ℕ
  pub tick_size : D
  pub has_callback : Bool
  pub series : List (BarSeries D)

-- What is asked of an engine between two looks at it.
pub data Request (D : Type 0) : Type 0 where
  add : BarSize → Request D
  remove : BarSize → Request D
  tick_in : UniversalTickRecord D → Request D
  session_open : ℤ → Request D
  session_close : ℤ → Request D

abbrev pub same_type : BarType → BarType → Bool
same_type time time = true
same_type range range = true
same_type volume volume = true
same_type _ _ = false

abbrev pub same_size : BarSize → BarSize → Bool
same_size a b = same_type a.bar_type b.bar_type && (a.size_value == b.size_value)

module _ {D : Type 0} where
  unfoldable pub has_size : BarSize → List (BarSeries D) → Bool
  has_size size [] = false
  has_size size (s ∷ ss) = if same_size s.bar_size size then true else has_size size ss

  abbrev pub find_series : BarSize → List (BarSeries D) → Option (BarSeries D)
  find_series size [] = none
  find_series size (s ∷ ss) = if same_size s.bar_size size then some s else find_series size ss

  unfoldable pub remove_series : BarEngine D → BarSize → BarEngine D
  remove_series e size = record e {
    series = select (λ s. not (same_size s.bar_size size)) e.series;
  }

  unfoldable pub series_count : BarEngine D → ℕ
  series_count e = length e.series

  abbrev pub current_of : Option (BarSeries D) → Option (BarRecord D)
  current_of none = none
  current_of (some s) = s.current_bar

  abbrev pub last_of : Option (BarSeries D) → Option (BarRecord D)
  last_of none = none
  last_of (some s) = s.last_bar

  unfoldable pub current_bar : BarEngine D → BarSize → Option (BarRecord D)
  current_bar e size = current_of (find_series size e.series)

  unfoldable pub last_bar : BarEngine D → BarSize → Option (BarRecord D)
  last_bar e size = last_of (find_series size e.series)

module _ {D : Type 0} ⦃d : Double D⦄ where
  abbrev pub with_series : BarEngine D → Option (BarSeries D) → Option (Bool × BarEngine D)
  with_series e none = none
  with_series e (some s) = some (true, record e { series = e.series ++ s ∷ [] })

  -- The exception of an invalid series is no result.
  unfoldable pub add_series : BarEngine D → BarSize → Option (Bool × BarEngine D)
  add_series e size =
      if leb 4 (length e.series)
      then some (false, e)
      else if has_size size e.series
      then some (false, e)
      else with_series e (make_series size e.symbol e.symbol_id e.tick_size e.has_callback)

  unfoldable pub engine_on_tick : BarEngine D → UniversalTickRecord D → BarEngine D
  engine_on_tick e tick = record e { series = map (λ s. on_tick s tick) e.series }

  unfoldable pub engine_on_session_open : BarEngine D → ℤ → BarEngine D
  engine_on_session_open e now = record e { series = map (λ s. on_session_open s now) e.series }

  unfoldable pub on_session_close : BarEngine D → ℤ → BarEngine D
  on_session_close e now = record e { series = map (λ s. force_close_bar s now) e.series }

  abbrev pub after_add : BarEngine D → Option (Bool × BarEngine D) → BarEngine D
  after_add e none = e
  after_add e (some (added, e')) = e'

  -- A refused addition leaves the engine as it is, with a result or with an exception.
  unfoldable pub serve : BarEngine D → Request D → BarEngine D
  serve e (add size) = after_add e (add_series e size)
  serve e (remove size) = remove_series e size
  serve e (tick_in tick) = engine_on_tick e tick
  serve e (session_open now) = engine_on_session_open e now
  serve e (session_close now) = on_session_close e now

  unfoldable pub serve_all : BarEngine D → List (Request D) → BarEngine D
  serve_all e [] = e
  serve_all e (request ∷ requests) = serve_all (serve e request) requests
