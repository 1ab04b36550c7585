-- ===== src/Session/LeeReady/Tests.antt =====
-- Runs of the classifier, and its theorem at concrete ticks.
use rudra_org.Common.{ℕ, ◌≡◌, ◌*◌, refl, List, [], ◌∷◌, All}
use rudra_org.Common.Int.{pos}
use rudra_org.Float.Fixed.{Fixed, fixed_double, unit}
use rudra_org.Session.Tick.{
  ask, bid, unknown, TickType, trade, bid_quote, ask_quote, iqfeed, UniversalTickRecord,
}
use rudra_org.Session.LeeReady.{
  LeeReadyState, is_ready, quote_rule, tick_rule, midpoint, side_of, classify_trade, classify_all,
}
use rudra_org.Session.LeeReady.Known.{IsSided, IsInformed, classify_all_known}

abbrev tick : TickType → ℕ → UniversalTickRecord Fixed
tick kind price = record {
  exchange_ts_ns = pos 0;
  receive_ts_ns = pos 0;
  exchange_seq_no = 0;
  price = pos (price * unit);
  volume = pos 1;
  symbol_id = 1;
  side = unknown;
  tick_type = kind;
  provider = iqfeed;
  day_code = 68;
  trade_conditions = 0;
}

-- Above the midpoint of 99 and 101, and then at it: the tick rule decides.
abbrev informed : LeeReadyState Fixed
informed = record {
  prev_trade_price = pos (101 * unit);
  prevailing_bid = pos (99 * unit);
  prevailing_ask = pos (101 * unit);
  last_classified = ask;
}

at_midpoint : (classify_trade (pos (100 * unit)) 0 informed).0 ≡ bid
unfolding classify_trade side_of is_ready quote_rule tick_rule midpoint
at_midpoint = refl

abbrev ticks : List (UniversalTickRecord Fixed)
ticks = tick bid_quote 100 ∷ tick trade 102 ∷ tick ask_quote 104 ∷ tick trade 102 ∷ []

classify_all_known_example :
    All IsSided (classify_all ticks informed).0 × IsInformed (classify_all ticks informed).1
classify_all_known_example =
    classify_all_known ticks informed (refl, (refl, (refl, (refl, tt)))) (refl, refl)
