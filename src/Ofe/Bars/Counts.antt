-- ===== src/Ofe/Bars/Counts.antt =====
-- No tick is lost or counted twice by the bar series of include/ofe/core/bar_engine.h, and its bars
-- are numbered in order.
use rudra_org.Common.{
  ℕ, ◌+◌, ◌%◌, ◌^◌, ◌≤◌, ◌<◌, ◌≡◌, refl, Bool, true, false, List, [], ◌∷◌, ◌++◌, arith, All,
  All-append, length, if◌then◌else◌, Bool-cases, inl, inr,
}
use rudra_org.Float.{Double}
use rudra_org.Ofe.Tick.{UniversalTickRecord}
use rudra_org.Ofe.Bars.{
  BarRecord, BarSeries, start_bar, update_bar, finalize_bar, ready_bar, renew_bar, close_bar,
  ingest, ingest_all, time_is_up, should_finalize,
}

module _ {D : Type 0} where
  abbrev pub trade_sum : List (BarRecord D) → ℕ
  trade_sum [] = 0
  trade_sum (bar ∷ bars) = bar.trade_count + trade_sum bars

  trade_sum-append :
      (xs ys : List (BarRecord D)) → trade_sum (xs ++ ys) ≡ trade_sum xs + trade_sum ys
  trade_sum-append [] ys = omega arith
  trade_sum-append (x ∷ xs) ys = omega (arith, trade_sum-append xs ys)

  -- The trades in the completed bars and in the current one.
  abbrev pub trades : BarSeries D → ℕ
  trades s = trade_sum s.completed + s.current.trade_count

  -- Bars numbered from `n` on, in 32 bits.
  abbrev pub IsNumbered : ℕ → List (BarRecord D) → Type 0
  IsNumbered n [] = Unit
  IsNumbered n (bar ∷ bars) = (bar.bar_index ≡ n % 2 ^ 32) × IsNumbered (n + 1) bars

  IsNumbered-append :
      (n m : ℕ) (xs : List (BarRecord D)) (bar : BarRecord D)
      → m ≡ n + length xs
      → IsNumbered n xs
      → bar.bar_index ≡ m % 2 ^ 32
      → IsNumbered n (xs ++ bar ∷ [])
  IsNumbered-append n m [] bar e h k = let e' : n ≡ m = omega arith in (rw e' k, tt)
  IsNumbered-append n m (x ∷ xs) bar e (h, hs) k =
      (h, IsNumbered-append (n + 1) m xs bar (omega arith) hs k)

  -- The completed bars hold at least one trade each and are numbered from 0; an idle series has no
  -- trade in its current bar, and a busy one has numbered it next.
  pub record IsCounted (s : BarSeries D) : Type 0 where
    pub idle : s.active ≡ false → s.current.trade_count ≡ 0
    pub busy : s.active ≡ true → s.current.bar_index ≡ length s.completed % 2 ^ 32
    pub numbered : IsNumbered 0 s.completed
    pub filled : All (λ bar. 1 ≤ bar.trade_count) s.completed

module _ {D : Type 0} ⦃d : Double D⦄ where
  finalize_bar-IsCounted :
      (s : BarSeries D) (now : ℕ)
      → IsCounted s
      → s.active ≡ true
      → 1 ≤ s.current.trade_count
      → IsNumbered 0 (finalize_bar s now).completed
        × All (λ bar. 1 ≤ bar.trade_count) (finalize_bar s now).completed
        × (trades (finalize_bar s now) ≡ trades s)
  unfolding finalize_bar
  finalize_bar-IsCounted s now v on some_trade =
      let last = record s.current { end_timestamp_ns = now } in
      (
        IsNumbered-append 0 (length s.completed) s.completed last (omega arith) v.numbered
            (v.busy on),
        All-append (λ bar. 1 ≤ bar.trade_count) s.completed (last ∷ []) v.filled (some_trade, tt),
        omega (arith, trade_sum-append s.completed (last ∷ [])),
      )

  finalized_is_blank : (s : BarSeries D) (now : ℕ) → (finalize_bar s now).current.trade_count ≡ 0
  unfolding finalize_bar
  finalized_is_blank s now = refl

  start_bar-IsCounted :
      (s : BarSeries D) (tick : UniversalTickRecord D)
      → IsNumbered 0 s.completed
      → All (λ bar. 1 ≤ bar.trade_count) s.completed
      → IsCounted (start_bar s tick)
        × ((start_bar s tick).active ≡ true)
        × (trades (start_bar s tick) ≡ trade_sum s.completed)
  unfolding start_bar
  start_bar-IsCounted s tick numbered filled = (
    record { idle = λ e. refl; busy = λ e. refl; numbered = numbered; filled = filled },
    refl,
    omega arith,
  )

  time_is_up_needs_trade :
      (s : BarSeries D) (tick : UniversalTickRecord D)
      → time_is_up s tick ≡ true
      → 1 ≤ s.current.trade_count
  unfolding time_is_up
  time_is_up_needs_trade s tick e = ground arith

  -- A series that can take a tick, with as many trades as the one it came from.
  abbrev Takes : BarSeries D → BarSeries D → Type 0
  Takes s s' = IsCounted s' × (s'.active ≡ true) × (trades s' ≡ trades s)

  ready_bar-Takes :
      (s : BarSeries D) (tick : UniversalTickRecord D) → IsCounted s → Takes s (ready_bar s tick)
  unfolding ready_bar
  ready_bar-Takes s tick v = split s.active refl
    where
      split : (b : Bool) → s.active ≡ b → Takes s (if b then s else start_bar s tick)
      split true on = (v, on, refl)
      split false off =
          let (counted, on, sum) = start_bar-IsCounted s tick v.numbered v.filled in
          (counted, on, omega (arith, sum, v.idle off))

  renew_bar-Takes :
      (s : BarSeries D) (tick : UniversalTickRecord D)
      → IsCounted s
      → s.active ≡ true
      → Takes s (renew_bar s tick)
  unfolding renew_bar
  renew_bar-Takes s tick v on = split (time_is_up s tick) refl
    where
      now : ℕ
      now = tick.timestamp_ns

      split :
          (b : Bool)
          → time_is_up s tick ≡ b
          → Takes s (if b then start_bar (finalize_bar s now) tick else s)
      split false early = (v, on, refl)
      split true up =
          let (numbered, filled, kept) =
            finalize_bar-IsCounted s now v on (time_is_up_needs_trade s tick up) in
          let (counted, on', sum) = start_bar-IsCounted (finalize_bar s now) tick numbered filled in
          (counted, on', omega (arith, sum, kept, finalized_is_blank s now))

  update_bar-IsCounted :
      (s : BarSeries D) (tick : UniversalTickRecord D)
      → IsCounted s
      → s.active ≡ true
      → s.current.trade_count + 1 < 2 ^ 64
      → IsCounted (update_bar s tick)
        × ((update_bar s tick).active ≡ true)
        × (trades (update_bar s tick) ≡ trades s + 1)
        × (1 ≤ (update_bar s tick).current.trade_count)
  unfolding update_bar
  update_bar-IsCounted s tick v on room = (
    record { idle = λ off. cc; busy = v.busy; numbered = v.numbered; filled = v.filled },
    on,
    omega arith,
    omega arith,
  )

  close_bar-IsCounted :
      (s : BarSeries D) (tick : UniversalTickRecord D)
      → IsCounted s
      → s.active ≡ true
      → 1 ≤ s.current.trade_count
      → IsCounted (close_bar s tick) × (trades (close_bar s tick) ≡ trades s)
  unfolding close_bar
  close_bar-IsCounted s tick v on some_trade = elim (Bool-cases (should_finalize s)) [
    | inr more ↦ rw more (v, refl)
    | inl full ↦
        let now : ℕ = tick.timestamp_ns in
        let (numbered, filled, kept) = finalize_bar-IsCounted s now v on some_trade in
        rw full (
          record {
            idle = λ off. finalized_is_blank s now;
            busy = λ e. cc;
            numbered = numbered;
            filled = filled;
          },
          kept,
        )
  ]

  current-le-trades : (s : BarSeries D) → s.current.trade_count ≤ trades s
  current-le-trades s = omega arith

  ingest-IsCounted :
      (s : BarSeries D) (tick : UniversalTickRecord D)
      → IsCounted s
      → trades s + 1 < 2 ^ 64
      → IsCounted (ingest s tick) × (trades (ingest s tick) ≡ trades s + 1)
  unfolding ingest
  ingest-IsCounted s tick v room =
      let ready = ready_bar s tick in
      let opened = renew_bar ready tick in
      let (v₀, on₀, kept₀) = ready_bar-Takes s tick v in
      let (v₁, on, kept) = renew_bar-Takes ready tick v₀ on₀ in
      let (v₂, on', added, some_trade) =
        update_bar-IsCounted opened tick v₁ on
          (omega (arith, kept, kept₀, current-le-trades opened)) in
      let (v₃, same) = close_bar-IsCounted (update_bar opened tick) tick v₂ on' some_trade in
      (v₃, omega (arith, same, added, kept, kept₀))

  -- Over any ticks on a counted series, as long as the trades in all stay below 2^64: the trades
  -- counted in the bars grow by the number of ticks, every completed bar holds a trade, and the
  -- completed bars are numbered 0, 1, 2, ... in 32 bits.
  pub ingest_all-IsCounted :
      (s : BarSeries D) (ticks : List (UniversalTickRecord D))
      → IsCounted s
      → trades s + length ticks < 2 ^ 64
      → IsCounted (ingest_all s ticks) × (trades (ingest_all s ticks) ≡ trades s + length ticks)
  unfolding ingest_all
  ingest_all-IsCounted s [] v room = (v, omega arith)
  ingest_all-IsCounted s (tick ∷ ticks) v room =
      let (v₁, one) = ingest-IsCounted s tick v (omega arith) in
      let (v₂, rest) = ingest_all-IsCounted (ingest s tick) ticks v₁ (omega (arith, one)) in
      (v₂, omega (arith, rest, one))
