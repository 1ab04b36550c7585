-- ===== src/Session/LeeReady/Known.antt =====
-- The classifier of ofe_session1_code/ofe/src/core/lee_ready.cpp over a symbol's ticks.
use rudra_org.Common.{ℕ, ◌≡◌, refl, sym, ap, ◌∙◌, true, false, not, ◌||◌, List, [], ◌∷◌, All, arith}
use rudra_org.Float.{Double, zero_D, ◌=?◌}
use rudra_org.Session.Tick.{
  TickSide, TickType, trade, bid_quote, ask_quote, summary, UniversalTickRecord, is_trade,
}
use rudra_org.Session.LeeReady.{
  LeeReadyState, is_unknown, has_prev, tick_rule, side_of, classify_trade, update_quote,
  classify_as, classify_inplace, classify_all,
}

module _ {D : Type 0} ⦃d : Double D⦄ where
  -- A trade has been seen, at a price other than 0, and was given a side.
  abbrev pub IsInformed : LeeReadyState D → Type 0
  IsInformed state = (has_prev state ≡ true) × (is_unknown state.last_classified ≡ false)

  -- A trade at a price other than 0; any other tick will do.
  abbrev pub IsPriced : UniversalTickRecord D → Type 0
  IsPriced tick = (not (is_trade tick.tick_type) || not (tick.price =? zero_D)) ≡ true

  -- A trade with a side; any other tick will do.
  abbrev pub IsSided : UniversalTickRecord D → Type 0
  IsSided tick = (not (is_trade tick.tick_type) || not (is_unknown tick.side)) ≡ true

  tick_rule_known :
      (price prev : D) (last : TickSide)
      → is_unknown last ≡ false
      → is_unknown (tick_rule price prev last) ≡ false
  unfolding tick_rule
  tick_rule_known price prev last known = ground arith

  side_of_known :
      (price : D) (aggressor : ℕ) (state : LeeReadyState D)
      → IsInformed state
      → is_unknown (side_of price aggressor state) ≡ false
  unfolding side_of
  side_of_known price aggressor state (seen, known) =
      let by_prev = tick_rule_known price state.prev_trade_price state.last_classified known in
      ground arith

  classify_trade_known :
      (price : D) (aggressor : ℕ) (state : LeeReadyState D)
      → (price =? zero_D) ≡ false
      → IsInformed state
      → (is_unknown (classify_trade price aggressor state).0 ≡ false)
        × IsInformed (classify_trade price aggressor state).1
  unfolding classify_trade
  classify_trade_known price aggressor state nonzero v =
      let known = side_of_known price aggressor state v in (known, (rw nonzero refl, known))

  trade_price :
      (tick : UniversalTickRecord D)
      → tick.tick_type ≡ trade
      → IsPriced tick
      → (tick.price =? zero_D) ≡ false
  trade_price tick e priced =
      let nonzero : not (tick.price =? zero_D) ≡ true =
        sym (ap (λ kind. not (is_trade kind) || not (tick.price =? zero_D)) e) ∙ priced in
      ground arith

  classify_as_known :
      (kind : TickType) (tick : UniversalTickRecord D) (state : LeeReadyState D)
      → tick.tick_type ≡ kind
      → IsPriced tick
      → IsInformed state
      → IsSided (classify_as kind tick state).0 × IsInformed (classify_as kind tick state).1
  unfolding update_quote
  classify_as_known trade tick state e priced v =
      let (known, v') = classify_trade_known tick.price 0 state (trade_price tick e priced) v in
      (rw (e, known) refl, v')
  classify_as_known bid_quote tick state e priced v = (rw e refl, v)
  classify_as_known ask_quote tick state e priced v = (rw e refl, v)
  classify_as_known summary tick state e priced v = (rw e refl, v)

  -- Once a trade of a symbol has been given a side, every later trade is given one, whatever quotes
  -- come between the trades, as long as no trade has the price 0.
  pub classify_all_known :
      (ticks : List (UniversalTickRecord D)) (state : LeeReadyState D)
      → All IsPriced ticks
      → IsInformed state
      → All IsSided (classify_all ticks state).0 × IsInformed (classify_all ticks state).1
  unfolding classify_all classify_inplace
  classify_all_known [] state priced v = (tt, v)
  classify_all_known (tick ∷ ticks) state (p, ps) v =
      let (sided, v') = classify_as_known tick.tick_type tick state refl p v in
      let (rest, v'') = classify_all_known ticks (classify_as tick.tick_type tick state).1 ps v' in
      ((sided, rest), v'')
