-- ===== src/Ofe/LeeReady.antt =====
-- include/ofe/core/lee_ready.h: the direction of a trade from the quote that it meets.
pub mod Table
mod Tests
use rudra_org.Common.{Bool, Option, none, some, if◌then◌else◌}
use rudra_org.Float.{Double, ◌<?◌, ◌≤?◌}

pub data TradeDirection : Type 0 where
  unknown buy sell : TradeDirection

pub record QuoteSnapshot (D : Type 0) : Type 0 where
  pub bid : D
  pub ask : D
  pub last_trade : D

module _ {D : Type 0} ⦃d : Double D⦄ where
  unfoldable pub classify : QuoteSnapshot D → Option TradeDirection → TradeDirection
  classify quote direct_override =
      let last = if ask ≤? trade then buy else if trade ≤? bid then sell else unknown in
      let overridden : TradeDirection = elim direct_override [ some way ↦ way | none ↦ last ] in
      let rest = if bid <? trade then buy else if trade <? ask then sell else overridden in
      if bid <? ask
      then (if ask ≤? trade then buy else if trade ≤? bid then sell else rest)
      else rest
    where
      open quote use {bid, ask, last_trade as trade}
