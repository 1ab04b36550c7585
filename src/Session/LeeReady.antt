-- ===== src/Session/LeeReady.antt =====
-- ofe_session1_code/ofe/include/core/lee_ready.h and src/core/lee_ready.cpp: the classifier with its
-- per-symbol state.
pub mod Known
mod Tests
use rudra_org.Common.{ℕ, Bool, true, false, not, ◌&&◌, List, [], ◌∷◌, ◌==◌, if◌then◌else◌}
use rudra_org.Float.{Double, zero_D, ◌⊕◌, ◌⊖◌, ◌⊗◌, ◌<?◌, ◌=?◌}
use rudra_org.Session.Tick.{
  TickSide, ask, bid, unknown, TickType, trade, bid_quote, ask_quote, summary, UniversalTickRecord,
  is_quote_update,
}

pub record LeeReadyState (D : Type 0) : Type 0 where
  pub prev_trade_price : D
  pub prevailing_bid : D
  pub prevailing_ask : D
  pub last_classified : TickSide

abbrev pub is_unknown : TickSide → Bool
is_unknown ask = false
is_unknown bid = false
is_unknown unknown = true

module _ {D : Type 0} ⦃d : Double D⦄ where
  unfoldable pub fresh_state : LeeReadyState D
  fresh_state = record {
    prev_trade_price = zero_D;
    prevailing_bid = zero_D;
    prevailing_ask = zero_D;
    last_classified = unknown;
  }

  unfoldable pub is_ready : LeeReadyState D → Bool
  is_ready state = (zero_D <? state.prevailing_bid) && (zero_D <? state.prevailing_ask)

  unfoldable pub midpoint : LeeReadyState D → D
  midpoint state = (state.prevailing_bid ⊕ state.prevailing_ask) ⊗ d.literal 5 1

  abbrev pub epsilon : D
  epsilon = d.literal 1 9

  unfoldable pub quote_rule : D → D → TickSide
  quote_rule price mid =
      if (mid ⊕ epsilon) <? price then ask else if price <? (mid ⊖ epsilon) then bid else unknown

  unfoldable pub tick_rule : D → D → TickSide → TickSide
  tick_rule price prev_price last_classified =
      if (prev_price ⊕ epsilon) <? price
      then ask
      else if price <? (prev_price ⊖ epsilon)
      then bid
      else last_classified

  -- `state.prev_trade_price != 0.0`
  abbrev pub has_prev : LeeReadyState D → Bool
  has_prev state = not (state.prev_trade_price =? zero_D)

  abbrev pub by_tick : D → LeeReadyState D → TickSide
  by_tick trade_price state = tick_rule trade_price state.prev_trade_price state.last_classified

  -- The result of `classify_trade`.
  unfoldable pub side_of : D → ℕ → LeeReadyState D → TickSide
  side_of trade_price exchange_aggressor state =
      let quoted = quote_rule trade_price (midpoint state) in
      let by_prev = by_tick trade_price state in
      if exchange_aggressor == 1
      then ask
      else if exchange_aggressor == 2
      then bid
      else if is_ready state
      then (if is_unknown quoted && has_prev state then by_prev else quoted)
      else if has_prev state
      then by_prev
      else unknown

  unfoldable pub classify_trade : D → ℕ → LeeReadyState D → TickSide × LeeReadyState D
  classify_trade trade_price exchange_aggressor state =
      let result = side_of trade_price exchange_aggressor state in
      (result, record state { prev_trade_price = trade_price; last_classified = result })

  unfoldable pub update_quote : TickType → D → LeeReadyState D → LeeReadyState D
  update_quote bid_quote price state = record state { prevailing_bid = price }
  update_quote ask_quote price state = record state { prevailing_ask = price }
  update_quote trade price state = state
  update_quote summary price state = state

  -- The tick and the state after the call, by the tick's type.
  abbrev pub classify_as :
      TickType → UniversalTickRecord D → LeeReadyState D → UniversalTickRecord D × LeeReadyState D
  classify_as trade tick state =
      let (side, state') = classify_trade tick.price 0 state in
      (record tick { side = side }, state')
  classify_as bid_quote tick state = (tick, update_quote bid_quote tick.price state)
  classify_as ask_quote tick state = (tick, update_quote ask_quote tick.price state)
  classify_as summary tick state = (tick, state)

  unfoldable pub classify_inplace :
      UniversalTickRecord D → LeeReadyState D → UniversalTickRecord D × LeeReadyState D
  classify_inplace tick state = classify_as tick.tick_type tick state

  -- The ticks of a symbol one after another.
  unfoldable pub classify_all :
      List (UniversalTickRecord D)
      → LeeReadyState D
      → List (UniversalTickRecord D) × LeeReadyState D
  classify_all [] state = ([], state)
  classify_all (tick ∷ ticks) state =
      let (tick', state') = classify_inplace tick state in
      let (ticks', state'') = classify_all ticks state' in (tick' ∷ ticks', state'')
