-- ===== src/Session/Bars.antt =====
-- ofe_session1_code/ofe/src/core/bar_engine.cpp: bars with their price levels, built from the
-- accumulatable ticks of one symbol.
pub mod Levels
pub mod Volume
pub mod Lag
pub mod Engine
mod Tests
use rudra_org.Common.{
  ℕ, zero, suc, ◌+◌, ◌*◌, ◌/◌, Bool, true, false, not, ◌&&◌, ◌||◌, Option, none, some, List, [],
  ◌∷◌, ◌++◌, leb, ◌==◌, if◌then◌else◌,
}
use rudra_org.Common.Int.{
  ℤ, pos, negsuc, sub_ℕ, pos_part, neg_part, ◌+ℤ◌, ◌-ℤ◌, ltb_ℤ, leb_ℤ, to_int32,
}
use rudra_org.Float.{Double, zero_D, ◌⊕◌, ◌⊖◌, ◌⊗◌, ◌⊘◌, ◌<?◌, ◌≤?◌}
use rudra_org.Session.Tick.{TickSide, ask, bid, unknown, UniversalTickRecord, is_accumulatable}
use rudra_org.Session.BarTypes.{
  BarType, time, range, volume, BarSize, is_valid, label, PriceLevelRecord, BarRecord, blank_level,
  blank_bar,
}

-- `published` is what the callback has been given, in order; no callback is set where `has_callback`
-- is false.
pub record BarSeries (D : Type 0) : Type 0 where
  pub bar_size : BarSize
  pub symbol : List ℕ
  pub symbol_id : ℕ
  pub tick_size : D
  pub has_callback : Bool
  pub current_bar : Option (BarRecord D)
  pub last_bar : Option (BarRecord D)
  pub published : List (BarRecord D)

-- Division of an `int64_t`, towards 0, and the multiples of a number.
abbrev pub quotient : ℤ → ℕ → ℤ
quotient (pos n) m = pos (n / m)
quotient (negsuc n) m = sub_ℕ 0 ((n + 1) / m)

abbrev pub multiple : ℤ → ℕ → ℤ
multiple (pos n) m = pos (n * m)
multiple (negsuc n) m = sub_ℕ 0 ((n + 1) * m)

abbrev pub is_ask : TickSide → Bool
is_ask ask = true
is_ask bid = false
is_ask unknown = false

module _ {D : Type 0} where
  abbrev pub handed : Bool → List (BarRecord D) → BarRecord D → List (BarRecord D)
  handed true published finished = published ++ finished ∷ []
  handed false published finished = published

  -- `std::max_element` by volume: the first of the largest.
  unfoldable pub max_level : PriceLevelRecord D → List (PriceLevelRecord D) → PriceLevelRecord D
  max_level largest [] = largest
  max_level largest (l ∷ ls) =
      max_level (if ltb_ℤ largest.total_vol l.total_vol then l else largest) ls

  -- The flag of the point of control, on the first level with its volume.
  unfoldable pub flag_poc : ℤ → List (PriceLevelRecord D) → List (PriceLevelRecord D)
  flag_poc most [] = []
  flag_poc most (l ∷ ls) =
      let further = flag_poc most ls in
      if ltb_ℤ l.total_vol most then l ∷ further else record l { is_poc = true } ∷ ls

  -- `level.ask_vol += static_cast<int32_t>(tick.volume)`, or the same of the bid.
  unfoldable pub add_to_level : UniversalTickRecord D → PriceLevelRecord D → PriceLevelRecord D
  add_to_level tick level =
      let ask_side = is_ask tick.side in
      let ask_vol =
        if ask_side then to_int32 (level.ask_vol +ℤ to_int32 tick.volume) else level.ask_vol in
      let bid_vol =
        if ask_side then level.bid_vol else to_int32 (level.bid_vol +ℤ to_int32 tick.volume) in
      record level {
        ask_vol = ask_vol;
        bid_vol = bid_vol;
        total_vol = to_int32 (ask_vol +ℤ bid_vol);
        delta = to_int32 (ask_vol -ℤ bid_vol);
      }

module _ {D : Type 0} ⦃d : Double D⦄ where
  -- No series is an invalid argument.
  unfoldable pub make_series : BarSize → List ℕ → ℕ → D → Bool → Option (BarSeries D)
  make_series bar_size symbol symbol_id tick_size has_callback =
      if not (is_valid bar_size)
      then none
      else if tick_size ≤? zero_D
      then none
      else some (record {
        bar_size = bar_size;
        symbol = symbol;
        symbol_id = symbol_id;
        tick_size = tick_size;
        has_callback = has_callback;
        current_bar = none;
        last_bar = none;
        published = [];
      })

  unfoldable pub new_bar : BarSeries D → ℤ → D → BarRecord D
  new_bar s open_ts_ns open_price = record blank_bar {
    symbol_id = s.symbol_id;
    symbol = s.symbol;
    bar_size = s.bar_size;
    bar_open = open_price;
    high = open_price;
    low = open_price;
    close = open_price;
    bar_open_ts_ns = open_ts_ns;
    is_complete = false;
    total_volume = pos 0;
    bar_id =
        some (record {
          id_symbol = s.symbol;
          id_open_ts_ns = open_ts_ns;
          id_label = label s.bar_size;
        });
  }

  -- `std::sort` by price.
  abbrev pub insert_level :
      PriceLevelRecord D → List (PriceLevelRecord D) → List (PriceLevelRecord D)
  insert_level l [] = l ∷ []
  insert_level l (m ∷ ms) =
      let further = insert_level l ms in if m.price <? l.price then m ∷ further else l ∷ m ∷ ms

  unfoldable pub sort_levels : List (PriceLevelRecord D) → List (PriceLevelRecord D)
  sort_levels [] = []
  sort_levels (l ∷ ls) = insert_level l (sort_levels ls)

  unfoldable pub with_poc : BarRecord D → List (PriceLevelRecord D) → BarRecord D
  with_poc bar [] = record bar { price_levels = [] }
  with_poc bar (l ∷ ls) =
      let poc = max_level l ls in
      record bar {
        poc_price = poc.price;
        poc_volume = poc.total_vol;
        cot_price = poc.price;
        price_levels = flag_poc poc.total_vol (l ∷ ls);
      }

  unfoldable pub finished_bar : BarRecord D → ℤ → BarRecord D
  finished_bar bar close_ts_ns =
      with_poc
        (record bar {
          bar_close_ts_ns = close_ts_ns;
          is_complete = true;
          is_bullish = bar.bar_open <? bar.close;
        })
        (sort_levels bar.price_levels)

  unfoldable pub close_with : BarSeries D → BarRecord D → ℤ → BarSeries D
  close_with s bar close_ts_ns =
      let finished = finished_bar bar close_ts_ns in
      record s {
        published = handed s.has_callback s.published finished;
        last_bar = some finished;
        current_bar = none;
      }

  abbrev pub close_bar_of : BarSeries D → ℤ → Option (BarRecord D) → BarSeries D
  close_bar_of s close_ts_ns none = s
  close_bar_of s close_ts_ns (some bar) = close_with s bar close_ts_ns

  unfoldable pub close_current_bar : BarSeries D → ℤ → BarSeries D
  close_current_bar s close_ts_ns = close_bar_of s close_ts_ns s.current_bar

  unfoldable pub force_close_bar : BarSeries D → ℤ → BarSeries D
  unfolding close_current_bar
  force_close_bar s close_ts_ns = close_bar_of s close_ts_ns s.current_bar

  unfoldable pub on_session_open : BarSeries D → ℤ → BarSeries D
  on_session_open s session_open_ts_ns = record (close_current_bar s session_open_ts_ns) {
    last_bar = none;
  }

  abbrev pub closes : BarType → BarSeries D → BarRecord D → UniversalTickRecord D → Bool
  closes time s bar tick =
      let bar_size_ns : ℕ = s.bar_size.size_value * 1000000000 in
      let bar_start_boundary = multiple (quotient bar.bar_open_ts_ns bar_size_ns) bar_size_ns in
      leb_ℤ (bar_start_boundary +ℤ pos bar_size_ns) tick.exchange_ts_ns
  closes range s bar tick =
      (d.of_nat s.bar_size.size_value ⊗ s.tick_size) ≤? d.fabs (tick.price ⊖ bar.bar_open)
  closes volume s bar tick = leb_ℤ (pos s.bar_size.size_value) bar.total_volume

  unfoldable pub should_close : BarSeries D → BarRecord D → UniversalTickRecord D → Bool
  should_close s bar tick = closes s.bar_size.bar_type s bar tick

  -- `get_or_create_level`, with what is done to the level.
  unfoldable pub at_level :
      D
      → D
      → (PriceLevelRecord D → PriceLevelRecord D)
      → List (PriceLevelRecord D)
      → List (PriceLevelRecord D)
  at_level rounded tick_size change [] = change (record blank_level { price = rounded }) ∷ []
  at_level rounded tick_size change (l ∷ ls) =
      let further = at_level rounded tick_size change ls in
      if d.fabs (l.price ⊖ rounded) <? (tick_size ⊗ d.literal 1 2)
      then change l ∷ ls
      else l ∷ further

  abbrev pub rounded_price : D → D → D
  rounded_price tick_size price = d.round (price ⊘ tick_size) ⊗ tick_size

  unfoldable pub accumulate : BarSeries D → UniversalTickRecord D → BarRecord D → BarRecord D
  accumulate s tick bar = record bar {
    price_levels =
        at_level (rounded_price s.tick_size tick.price) s.tick_size (add_to_level tick)
          bar.price_levels;
    total_volume = bar.total_volume +ℤ tick.volume;
    high = if bar.high <? tick.price then tick.price else bar.high;
    low = if tick.price <? bar.low then tick.price else bar.low;
    close = tick.price;
  }

  -- The bar that the tick falls into.
  abbrev pub bar_for : BarSeries D → UniversalTickRecord D → Option (BarRecord D) → BarRecord D
  bar_for s tick none = new_bar s tick.exchange_ts_ns tick.price
  bar_for s tick (some bar) = bar

  unfoldable pub take_tick : BarSeries D → UniversalTickRecord D → BarRecord D → BarSeries D
  take_tick s tick bar =
      let bar' = accumulate s tick bar in
      if should_close s bar tick
      then close_with s bar' tick.exchange_ts_ns
      else record s { current_bar = some bar' }

  unfoldable pub on_tick : BarSeries D → UniversalTickRecord D → BarSeries D
  on_tick s tick =
      if not (is_accumulatable tick) then s else take_tick s tick (bar_for s tick s.current_bar)
