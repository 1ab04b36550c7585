-- ===== src/Session/Delta/Ticks.antt =====
-- The deltas of ofe_session1_code/ofe/src/analytics/delta_engine.cpp over the ticks and the closes of
-- a session.
use mathlib.Core.Path.{subst}
use rudra_org.Common.{
  ℕ, ◌+◌, ◌^◌, ◌≤◌, ◌<◌, ◌≡◌, refl, sym, ap, ◌∙◌, Bool, true, false, not, List, [], ◌∷◌, All, arith,
  if◌then◌else◌,
}
use rudra_org.Common.Int.{
  ℤ, pos, pos_part, neg_part, ◌+ℤ◌, ◌-ℤ◌, ◌≤ℤ◌, ltb_ℤ, to_int32, to_int32-eq_self,
}
use rudra_org.Float.{Double}
use rudra_org.Session.Tick.{UniversalTickRecord, is_accumulatable}
use rudra_org.Session.BarTypes.{BarRecord}
use rudra_org.Session.Bars.{is_ask}
use rudra_org.Session.Delta.{DeltaState, Event, tick_in, bar_end, on_tick, on_bar_close, run}

-- The volumes of the sides are not negative, the running delta is their difference and the total
-- their sum, and the extremes contain the running delta.
pub record IsTracked {D : Type 0} (state : DeltaState D) : Type 0 where
  pub ask_pos : neg_part state.bar_ask_vol ≡ 0
  pub bid_pos : neg_part state.bar_bid_vol ≡ 0
  pub running_is : state.running_delta ≡ state.bar_ask_vol -ℤ state.bar_bid_vol
  pub total_is : state.bar_total_vol ≡ state.bar_ask_vol +ℤ state.bar_bid_vol
  pub low : state.min_delta ≤ℤ state.running_delta
  pub high : state.running_delta ≤ℤ state.max_delta

step_up :
    (a b : ℤ) (v : ℕ)
    → neg_part a ≡ 0
    → neg_part b ≡ 0
    → pos_part a + pos_part b + v < 2 ^ 31
    → to_int32 ((a -ℤ b) +ℤ pos v) ≡ (a +ℤ pos v) -ℤ b
unfolding ◌+ℤ◌ ◌-ℤ◌
step_up a b v ha hb room =
    to_int32-eq_self ((a -ℤ b) +ℤ pos v) (ground arith, ground arith) ∙ ground arith

step_down :
    (a b : ℤ) (v : ℕ)
    → neg_part a ≡ 0
    → neg_part b ≡ 0
    → pos_part a + pos_part b + v < 2 ^ 31
    → to_int32 ((a -ℤ b) -ℤ pos v) ≡ a -ℤ (b +ℤ pos v)
unfolding ◌+ℤ◌ ◌-ℤ◌
step_down a b v ha hb room =
    to_int32-eq_self ((a -ℤ b) -ℤ pos v) (ground arith, ground arith) ∙ ground arith

added_parts :
    (a : ℤ) (v : ℕ)
    → neg_part a ≡ 0
    → (neg_part (a +ℤ pos v) ≡ 0) × (pos_part (a +ℤ pos v) ≡ pos_part a + v)
unfolding ◌+ℤ◌
added_parts a v h = (ground arith, ground arith)

module _ {D : Type 0} where
  -- The volume that the bar has taken.
  abbrev pub taken : DeltaState D → ℕ
  taken state = pos_part state.bar_ask_vol + pos_part state.bar_bid_vol

  abbrev rebuilt : DeltaState D → ℤ → ℤ → ℤ → DeltaState D
  rebuilt state ask_vol bid_vol running = record state {
    bar_ask_vol = ask_vol;
    bar_bid_vol = bid_vol;
    running_delta = running;
    bar_total_vol = ask_vol +ℤ bid_vol;
    max_delta = if ltb_ℤ state.max_delta running then running else state.max_delta;
    min_delta = if ltb_ℤ running state.min_delta then running else state.min_delta;
  }

  rebuilt-IsTracked :
      (state : DeltaState D) (a b r : ℤ)
      → neg_part a ≡ 0
      → neg_part b ≡ 0
      → r ≡ a -ℤ b
      → IsTracked (rebuilt state a b r)
  rebuilt-IsTracked state a b r ha hb e = record {
    ask_pos = ha;
    bid_pos = hb;
    running_is = e;
    total_is = refl;
    low = ground arith;
    high = ground arith;
  }

  on_tick-IsTracked :
      (tick : UniversalTickRecord D) (state : DeltaState D) (v : ℕ)
      → tick.volume ≡ pos v
      → taken state + v < 2 ^ 31
      → IsTracked state
      → IsTracked (on_tick tick state)
        × (taken (on_tick tick state) ≤ taken state + v)
        × ((on_tick tick state).cumulative_delta ≡ state.cumulative_delta)
  unfolding on_tick
  on_tick-IsTracked tick state v e room t =
      let whole : to_int32 tick.volume ≡ pos v =
        ap to_int32 e ∙ to_int32-eq_self (pos v) (omega arith, omega arith) in
      split (is_accumulatable tick) (is_ask tick.side) (to_int32 tick.volume) whole
    where
      Outcome : DeltaState D → Type 0
      Outcome s =
          IsTracked s × (taken s ≤ taken state + v) × (s.cumulative_delta ≡ state.cumulative_delta)

      split :
          (b c : Bool) (vol : ℤ)
          → vol ≡ pos v
          → Outcome (
              if not b
              then state
              else rebuilt state
                  (if c then state.bar_ask_vol +ℤ vol else state.bar_ask_vol)
                  (if c then state.bar_bid_vol else state.bar_bid_vol +ℤ vol)
                  (if c
                    then to_int32 (state.running_delta +ℤ vol)
                    else to_int32 (state.running_delta -ℤ vol)))
      split false c vol is_v = (t, omega arith, refl)
      split true true vol is_v =
          let (pos_ask, sum) = added_parts state.bar_ask_vol v t.ask_pos in
          let run = step_up state.bar_ask_vol state.bar_bid_vol v t.ask_pos t.bid_pos room in
          rw is_v (
            rebuilt-IsTracked state (state.bar_ask_vol +ℤ pos v) state.bar_bid_vol _ pos_ask
                t.bid_pos (ap (λ r. to_int32 (r +ℤ pos v)) t.running_is ∙ run),
            omega (arith, sum),
            refl,
          )
      split true false vol is_v =
          let (pos_bid, sum) = added_parts state.bar_bid_vol v t.bid_pos in
          let run = step_down state.bar_ask_vol state.bar_bid_vol v t.ask_pos t.bid_pos room in
          rw is_v (
            rebuilt-IsTracked state state.bar_ask_vol (state.bar_bid_vol +ℤ pos v) _ t.ask_pos
                pos_bid (ap (λ r. to_int32 (r -ℤ pos v)) t.running_is ∙ run),
            omega (arith, sum),
            refl,
          )

  -- The volume of the ticks, none of which is negative.
  abbrev pub event_volume : List (Event D) → ℕ
  event_volume [] = 0
  event_volume (tick_in tick ∷ events) = pos_part tick.volume + event_volume events
  event_volume (bar_end bar ∷ events) = event_volume events

  abbrev pub IsPositive : Event D → Type 0
  IsPositive (tick_in tick) = neg_part tick.volume ≡ 0
  IsPositive (bar_end bar) = Unit

  -- From one running total to another: each bar's delta lies within its extremes, and its running
  -- total is the one before it and its own delta.
  abbrev pub Accumulates : ℤ → List (BarRecord D) → ℤ → Type 0
  Accumulates total [] total' = total' ≡ total
  Accumulates total (bar ∷ bars) total' =
      (bar.min_delta ≤ℤ bar.bar_delta)
      × (bar.bar_delta ≤ℤ bar.max_delta)
      × (bar.cumulative_delta ≡ total +ℤ bar.bar_delta)
      × Accumulates bar.cumulative_delta bars total'

restart :
    {D : Type 0} (bars : List (BarRecord D)) (last : ℤ) {total total' : ℤ}
    → total ≡ total'
    → Accumulates total bars last
    → Accumulates total' bars last
restart bars last e h = subst (λ t. Accumulates t bars last) e h

pos_of_part : (a : ℤ) → neg_part a ≡ 0 → a ≡ pos (pos_part a)
pos_of_part (pos n) h = refl
pos_of_part (ℤ.negsuc n) h = absurd (omega arith)

fits_lem :
    (a b : ℤ)
    → neg_part a ≡ 0
    → neg_part b ≡ 0
    → pos_part a + pos_part b < 2 ^ 31
    → to_int32 (a -ℤ b) ≡ a -ℤ b
unfolding ◌-ℤ◌
fits_lem a b ha hb room = to_int32-eq_self (a -ℤ b) (ground arith, ground arith)

module _ {D : Type 0} ⦃d : Double D⦄ where
  on_bar_close-IsTracked :
      (alpha : D) (bar : BarRecord D) (state : DeltaState D)
      → IsTracked state
      → taken state < 2 ^ 31
      → let (bar', state') = on_bar_close alpha bar state in
        IsTracked state'
        × (taken state' ≡ 0)
        × (bar'.min_delta ≤ℤ bar'.bar_delta)
        × (bar'.bar_delta ≤ℤ bar'.max_delta)
        × (bar'.cumulative_delta ≡ state.cumulative_delta +ℤ bar'.bar_delta)
        × (state'.cumulative_delta ≡ bar'.cumulative_delta)
  unfolding on_bar_close ◌+ℤ◌ ◌-ℤ◌
  on_bar_close-IsTracked alpha bar state t room =
      let same : to_int32 (state.bar_ask_vol -ℤ state.bar_bid_vol) ≡ state.running_delta =
        fits_lem state.bar_ask_vol state.bar_bid_vol t.ask_pos t.bid_pos room ∙ sym t.running_is in
      (
        record {
          ask_pos = refl;
          bid_pos = refl;
          running_is = refl;
          total_is = refl;
          low = omega arith;
          high = omega arith;
        },
        refl,
        subst (λ delta. state.min_delta ≤ℤ delta) (sym same) t.low,
        subst (λ delta. delta ≤ℤ state.max_delta) (sym same) t.high,
        refl,
        refl,
      )

  -- Over the ticks and the closes of a session whose volumes are not negative and stay below 2^31 in
  -- all: every closed bar's delta lies within its extremes, and its cumulative delta is that of the
  -- bar before it and its own delta, so that the session's is the sum of the bars'.
  pub run-Accumulates :
      (alpha : D) (events : List (Event D)) (state : DeltaState D)
      → IsTracked state
      → All IsPositive events
      → taken state + event_volume events < 2 ^ 31
      → let (bars, state') = run alpha events state in
        IsTracked state' × Accumulates state.cumulative_delta bars state'.cumulative_delta
  unfolding run
  run-Accumulates alpha [] state t ps room = (t, refl)
  run-Accumulates alpha (tick_in tick ∷ events) state t (p, ps) room =
      let (t', sum, same) =
        on_tick-IsTracked tick state (pos_part tick.volume) (pos_of_part tick.volume p)
          (omega arith) t in
      let (t'', rest) =
        run-Accumulates alpha events (on_tick tick state) t' ps (omega (arith, sum)) in
      (t'', restart (run alpha events (on_tick tick state)).0 _ same rest)
  run-Accumulates alpha (bar_end bar ∷ events) state t (p, ps) room =
      let (t', none_taken, low, high, adds, same) =
        on_bar_close-IsTracked alpha bar state t (omega arith) in
      let state' = (on_bar_close alpha bar state).1 in
      let (t'', rest) = run-Accumulates alpha events state' t' ps (omega (arith, none_taken)) in
      (t'', (low, high, adds, restart (run alpha events state').0 _ same rest))
