-- ===== src/Session/Tick.antt =====
-- ofe_session1_code/ofe/include/core/tick_record.h and src/core/tick_record.cpp: the tick record and
-- the filter on its conditions.
pub mod Filter
mod Tests
use Prim.Native.Nat.{bit_and}
use rudra_org.Common.{ℕ, ◌^◌, Bool, true, false, not, ◌&&◌, ◌||◌, ◌==◌, if◌then◌else◌}
use rudra_org.Common.Int.{ℤ, pos}
use rudra_org.Float.{Double, zero_D}

pub data TickSide : Type 0 where
  ask bid unknown : TickSide

pub data TickType : Type 0 where
  trade bid_quote ask_quote summary : TickType

pub data DataProvider : Type 0 where
  kinetick iqfeed esignal replay synthetic : DataProvider

-- `day_code` is a character's code.
pub record UniversalTickRecord (D : Type 0) : Type 0 where
  pub exchange_ts_ns : ℤ
  pub receive_ts_ns : ℤ
  pub exchange_seq_no : ℕ
  pub price : D
  pub volume : ℤ
  pub symbol_id : ℕ
  pub side : TickSide
  pub tick_type : TickType
  pub provider : DataProvider
  pub day_code : ℕ
  pub trade_conditions : ℕ

abbrev pub is_trade : TickType → Bool
is_trade trade = true
is_trade bid_quote = false
is_trade ask_quote = false
is_trade summary = false

abbrev pub is_known : TickSide → Bool
is_known ask = true
is_known bid = true
is_known unknown = false

abbrev pub is_quote : TickType → Bool
is_quote trade = false
is_quote bid_quote = true
is_quote ask_quote = true
is_quote summary = false

module _ {D : Type 0} where
  -- `now` is the system clock.
  unfoldable pub make_trade :
      (now : ℤ) (symbol_id : ℕ) (price : D) (volume : ℤ) (side : TickSide) (exchange_ts_ns : ℤ)
      (seq_no : ℕ) (provider : DataProvider)
      → UniversalTickRecord D
  make_trade now symbol_id price volume side exchange_ts_ns seq_no provider = record {
    exchange_ts_ns = exchange_ts_ns;
    receive_ts_ns = now;
    exchange_seq_no = seq_no;
    price = price;
    volume = volume;
    symbol_id = symbol_id;
    side = side;
    tick_type = TickType.trade;
    provider = provider;
    day_code = 68;
    trade_conditions = 0;
  }

  unfoldable pub is_accumulatable : UniversalTickRecord D → Bool
  is_accumulatable tick = is_trade tick.tick_type && is_known tick.side

  unfoldable pub is_quote_update : UniversalTickRecord D → Bool
  is_quote_update tick = is_quote tick.tick_type

-- `TradeCondition`
abbrev pub tc_extended_hours : ℕ
tc_extended_hours = 2 ^ 0

abbrev pub tc_form_t : ℕ
tc_form_t = 2 ^ 1

abbrev pub tc_odd_lot : ℕ
tc_odd_lot = 2 ^ 2

abbrev pub tc_cancelled : ℕ
tc_cancelled = 2 ^ 5

abbrev pub tc_settlement : ℕ
tc_settlement = 2 ^ 7

abbrev pub tc_implied : ℕ
tc_implied = 2 ^ 8

-- `conditions & flag` as a condition.
abbrev pub has : ℕ → ℕ → Bool
has conditions flag = not (bit_and conditions flag == 0)

unfoldable pub should_exclude_tick : ℕ → Bool → Bool
should_exclude_tick conditions rth_only =
    if has conditions tc_cancelled
    then true
    else if has conditions tc_settlement
    then true
    else if has conditions tc_implied
    then true
    else if has conditions tc_odd_lot
    then true
    else if rth_only
    then (if has conditions tc_extended_hours
        then true
        else if has conditions tc_form_t
        then true
        else false)
    else false
