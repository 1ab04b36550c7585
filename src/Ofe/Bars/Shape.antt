-- ===== src/Ofe/Bars/Shape.antt =====
-- The open, high, low and close of the bars of include/ofe/core/bar_engine.h.
use rudra_org.Common.{ℕ, ◌≡◌, refl, Bool, true, false, [], ◌∷◌, All, All-append, if◌then◌else◌}
use rudra_org.Float.{Double, IsOrdered, ◌≼◌}
use rudra_org.Float.Order.{fmax_bounds, fmin_bounds}
use rudra_org.Ofe.Tick.{UniversalTickRecord}
use rudra_org.Ofe.Bars.{
  BarRecord, BarSeries, start_bar, update_bar, finalize_bar, ready_bar, renew_bar, close_bar,
  ingest, time_is_up, should_finalize,
}

module _ {D : Type 0} ⦃d : Double D⦄ where
  -- Open and close lie between low and high.
  pub record HasShape (bar : BarRecord D) : Type 0 where
    pub low_open : bar.low ≼ bar.bar_open
    pub open_high : bar.bar_open ≼ bar.high
    pub low_close : bar.low ≼ bar.close
    pub close_high : bar.close ≼ bar.high

  -- So do those of every completed bar, and of the current one while there is one.
  pub record IsShaped (s : BarSeries D) : Type 0 where
    pub current_shape : s.active ≡ true → HasShape s.current
    pub shapes : All HasShape s.completed

  abbrev pub HasPrice : UniversalTickRecord D → Type 0
  HasPrice tick = tick.price ≼ tick.price

  module _ (laws : IsOrdered D) where
    open laws use {refl_of_le, le_trans}

    start_bar-HasShape :
        (s : BarSeries D) (tick : UniversalTickRecord D)
        → HasPrice tick
        → HasShape (start_bar s tick).current
    unfolding start_bar
    start_bar-HasShape s tick num = record {
      low_open = num;
      open_high = num;
      low_close = num;
      close_high = num;
    }

    update_bar-HasShape :
        (s : BarSeries D) (tick : UniversalTickRecord D)
        → HasPrice tick
        → HasShape s.current
        → HasShape (update_bar s tick).current
    unfolding update_bar
    update_bar-HasShape s tick num v =
        let bar = s.current in
        let high = fmax_bounds laws bar.high tick.price (refl_of_le _ _ v.open_high).1 num in
        let low = fmin_bounds laws bar.low tick.price (refl_of_le _ _ v.low_open).0 num in
        record {
          low_open = le_trans _ _ _ low.0 v.low_open;
          open_high = le_trans _ _ _ v.open_high high.0;
          low_close = low.1;
          close_high = high.1;
        }

    finalize_bar-shapes :
        (s : BarSeries D) (now : ℕ)
        → All HasShape s.completed
        → HasShape s.current
        → All HasShape (finalize_bar s now).completed
    unfolding finalize_bar
    finalize_bar-shapes s now vs v =
        let last = record s.current { end_timestamp_ns = now } in
        All-append HasShape s.completed (last ∷ []) vs (
          record {
            low_open = v.low_open;
            open_high = v.open_high;
            low_close = v.low_close;
            close_high = v.close_high;
          },
          tt,
        )

    -- A series with a shaped current bar and shaped completed bars.
    abbrev Ready : BarSeries D → Type 0
    Ready s = All HasShape s.completed × HasShape s.current

    ready_bar-Ready :
        (s : BarSeries D) (tick : UniversalTickRecord D)
        → HasPrice tick
        → IsShaped s
        → Ready (ready_bar s tick)
    unfolding ready_bar start_bar
    ready_bar-Ready s tick num v = split s.active refl
      where
        split : (b : Bool) → s.active ≡ b → Ready (if b then s else start_bar s tick)
        split true on = (v.shapes, v.current_shape on)
        split false off = (v.shapes, start_bar-HasShape s tick num)

    renew_bar-Ready :
        (s : BarSeries D) (tick : UniversalTickRecord D)
        → HasPrice tick
        → Ready s
        → Ready (renew_bar s tick)
    unfolding renew_bar start_bar
    renew_bar-Ready s tick num (vs, v) = split (time_is_up s tick)
      where
        now : ℕ
        now = tick.timestamp_ns

        split : (b : Bool) → Ready (if b then start_bar (finalize_bar s now) tick else s)
        split false = (vs, v)
        split true =
            (finalize_bar-shapes s now vs v, start_bar-HasShape (finalize_bar s now) tick num)

    close_bar-IsShaped :
        (s : BarSeries D) (tick : UniversalTickRecord D) → Ready s → IsShaped (close_bar s tick)
    unfolding close_bar
    close_bar-IsShaped s tick (vs, v) = split (should_finalize s)
      where
        now : ℕ
        now = tick.timestamp_ns

        split :
            (b : Bool) → IsShaped (if b then record (finalize_bar s now) { active = false } else s)
        split false = record { current_shape = λ on. v; shapes = vs }
        split true = record { current_shape = λ on. cc; shapes = finalize_bar-shapes s now vs v }

    -- A tick with a price that is no NaN keeps the shape of every bar, whichever bars it closes and
    -- opens.
    pub ingest-IsShaped :
        (s : BarSeries D) (tick : UniversalTickRecord D)
        → HasPrice tick
        → IsShaped s
        → IsShaped (ingest s tick)
    unfolding ingest update_bar
    ingest-IsShaped s tick num v =
        let ready = ready_bar-Ready s tick num v in
        let (vs, v₁) = renew_bar-Ready (ready_bar s tick) tick num ready in
        let opened = renew_bar (ready_bar s tick) tick in
        close_bar-IsShaped (update_bar opened tick) tick
          (vs, update_bar-HasShape opened tick num v₁)
