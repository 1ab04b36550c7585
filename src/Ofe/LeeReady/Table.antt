-- ===== src/Ofe/LeeReady/Table.antt =====
-- What include/ofe/core/lee_ready.h decides, on normal and on crossed quotes.
use rudra_org.Common.{true, ◌≡◌, ◌≢◌, Option, none, some, arith, if◌then◌else◌}
use rudra_org.Float.{Double, ◌<?◌, ◌≼◌, IsOrdered}
use rudra_org.Ofe.LeeReady.{TradeDirection, unknown, buy, sell, QuoteSnapshot, classify}

module _ {D : Type 0} ⦃d : Double D⦄ (laws : IsOrdered D) where
  open laws use {refl_of_le, le_trans, le_total, lt-eq-not-le, refl_of_lt}

  -- No price of the quote is NaN.
  pub record IsNumeric (quote : QuoteSnapshot D) : Type 0 where
    pub bid_num : quote.bid ≼ quote.bid
    pub ask_num : quote.ask ≼ quote.ask
    pub last_num : quote.last_trade ≼ quote.last_trade

  -- On a normal quote, bid below ask, a trade above the bid is a buy and any other a sell: neither
  -- the midpoint nor the caller's override has a part in it.
  pub classify_normal :
      (quote : QuoteSnapshot D) (direct_override : Option TradeDirection)
      → IsNumeric quote
      → (quote.bid <? quote.ask) ≡ true
      → classify quote direct_override ≡ (if quote.bid <? quote.last_trade then buy else sell)
  unfolding classify
  classify_normal quote direct_override v normal = ground (
    arith,
    lt-eq-not-le bid ask v.bid_num v.ask_num,
    lt-eq-not-le bid trade v.bid_num v.last_num,
    lt-eq-not-le trade ask v.last_num v.ask_num,
    le_trans ask trade bid,
    le_total bid trade v.bid_num v.last_num,
  )
    where
      open quote use {bid, ask, last_trade as trade}

  -- On a locked or crossed quote, ask at or below bid, the trade is a buy above the bid and a sell
  -- below the ask; in between the override decides, and without one the trade is a buy.
  classify_crossed :
      (quote : QuoteSnapshot D) (direct_override : Option TradeDirection)
      → IsNumeric quote
      → quote.ask ≼ quote.bid
      → classify quote direct_override ≡ (
          if quote.bid <? quote.last_trade
          then buy
          else if quote.last_trade <? quote.ask
          then sell
          else elim direct_override [ some way ↦ way | none ↦ buy ])
  unfolding classify
  classify_crossed quote direct_override v crossed = ground (
    arith,
    lt-eq-not-le bid ask v.bid_num v.ask_num,
    lt-eq-not-le bid trade v.bid_num v.last_num,
    lt-eq-not-le trade ask v.last_num v.ask_num,
    le_total ask trade v.ask_num v.last_num,
  )
    where
      open quote use {bid, ask, last_trade as trade}

  -- Without an override, a quote without NaN is never left unknown.
  pub classify-ne-unknown :
      (quote : QuoteSnapshot D) → IsNumeric quote → classify quote none ≢ unknown
  unfolding classify
  classify-ne-unknown quote v = ground (
    arith,
    lt-eq-not-le bid ask v.bid_num v.ask_num,
    lt-eq-not-le bid trade v.bid_num v.last_num,
    lt-eq-not-le trade ask v.last_num v.ask_num,
    le_total ask trade v.ask_num v.last_num,
    le_total bid trade v.bid_num v.last_num,
  )
    where
      open quote use {bid, ask, last_trade as trade}
