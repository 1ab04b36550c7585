-- ===== src/Ofe/Imbalance.antt =====
-- include/ofe/analytics/imbalance_detector.h: a price against its diagonal neighbours.
use rudra_org.Common.{Bool, ◌&&◌, ◌||◌, if◌then◌else◌}
use rudra_org.Float.{Double, zero_D, ◌⊗◌, ◌⊘◌, ◌<?◌, ◌≤?◌}

pub record ImbalanceSnapshot (D : Type 0) : Type 0 where
  pub diagonal_buy_ratio : D
  pub diagonal_sell_ratio : D
  pub buy_imbalance : Bool
  pub sell_imbalance : Bool
  pub stacked : Bool
  pub absorption : Bool

module _ {D : Type 0} ⦃d : Double D⦄ where
  unfoldable pub is_buy_imbalance : (ask_at_price bid_previous_price threshold : D) → Bool
  is_buy_imbalance ask_at_price bid_previous_price threshold =
      if ask_at_price ≤? zero_D
      then zero_D <? bid_previous_price
      else (ask_at_price ⊗ threshold) ≤? bid_previous_price

  unfoldable pub is_sell_imbalance : (bid_at_price ask_next_price threshold : D) → Bool
  is_sell_imbalance bid_at_price ask_next_price threshold =
      if bid_at_price ≤? zero_D
      then zero_D <? ask_next_price
      else (bid_at_price ⊗ threshold) ≤? ask_next_price

  unfoldable pub compare :
      (ask_at_price bid_previous_price bid_at_price ask_next_price threshold : D)
      → ImbalanceSnapshot D
  unfolding is_buy_imbalance is_sell_imbalance
  compare ask_at_price bid_previous_price bid_at_price ask_next_price threshold =
      let buying = is_buy_imbalance ask_at_price bid_previous_price threshold in
      let selling = is_sell_imbalance bid_at_price ask_next_price threshold in
      record {
        diagonal_buy_ratio =
            if zero_D <? ask_at_price then bid_previous_price ⊘ ask_at_price else zero_D;
        diagonal_sell_ratio =
            if zero_D <? bid_at_price then ask_next_price ⊘ bid_at_price else zero_D;
        buy_imbalance = buying;
        sell_imbalance = selling;
        stacked = buying || selling;
        absorption = (ask_at_price <? bid_previous_price) && (bid_at_price <? ask_next_price);
      }
