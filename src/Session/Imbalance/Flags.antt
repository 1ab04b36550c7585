-- ===== src/Session/Imbalance/Flags.antt =====
-- The comparisons of ImbalanceDetector::detect_single_imbalances and find_level of
-- ofe_session1_code/ofe/src/analytics/imbalance_detector.cpp.
use rudra_org.Common.{
  ℕ, ◌+◌, Bool, true, false, ◌&&◌, Option, none, some, List, [], ◌∷◌, map, if◌then◌else◌,
}
use rudra_org.Common.Int.{ℤ, pos, ltb_ℤ}
use rudra_org.Float.{Double, ◌⊕◌, ◌⊖◌, ◌⊗◌, ◌<?◌, ◌≤?◌}
use rudra_org.Session.BarTypes.{PriceLevelRecord, of_int}

pub record ImbalanceConfig (D : Type 0) : Type 0 where
  pub imbalance_ratio : D
  pub stacked_min_count : ℤ
  pub absorption_vol_thresh : D
  pub absorption_delta_ratio : D
  pub multi_imbalance_bars : ℤ
  pub zone_strength_weight : D

abbrev pub count_flags : {D : Type 0} → (PriceLevelRecord D → Bool) → List (PriceLevelRecord D) → ℕ
count_flags flag [] = 0
count_flags flag (l ∷ ls) = (if flag l then 1 else 0) + count_flags flag ls

module _ {D : Type 0} ⦃d : Double D⦄ where
  unfoldable pub find_level : List (PriceLevelRecord D) → D → D → Option (PriceLevelRecord D)
  find_level [] price tick_size = none
  find_level (l ∷ ls) price tick_size =
      let further = find_level ls price tick_size in
      if d.fabs (l.price ⊖ price) <? (tick_size ⊗ d.literal 1 2) then some l else further

  -- The diagonal comparisons of a level with the one below and the one above.
  abbrev pub over_bid : ImbalanceConfig D → PriceLevelRecord D → Option (PriceLevelRecord D) → Bool
  over_bid config l none = false
  over_bid config l (some below) =
      ltb_ℤ (pos 0) below.bid_vol
      && ltb_ℤ (pos 0) l.ask_vol
      && ((config.imbalance_ratio ⊗ of_int below.bid_vol) ≤? of_int l.ask_vol)

  abbrev pub over_ask : ImbalanceConfig D → PriceLevelRecord D → Option (PriceLevelRecord D) → Bool
  over_ask config l none = false
  over_ask config l (some above) =
      ltb_ℤ (pos 0) above.ask_vol
      && ltb_ℤ (pos 0) l.bid_vol
      && ((config.imbalance_ratio ⊗ of_int above.ask_vol) ≤? of_int l.bid_vol)

  -- The flags of one level among `all`, whose prices and volumes the loop does not change.
  unfoldable pub flag_level :
      ImbalanceConfig D → D → List (PriceLevelRecord D) → PriceLevelRecord D → PriceLevelRecord D
  flag_level config tick_size all l = record l {
    is_buy_imbalance = over_bid config l (find_level all (l.price ⊖ tick_size) tick_size);
    is_sell_imbalance = over_ask config l (find_level all (l.price ⊕ tick_size) tick_size);
  }

  unfoldable pub flag_levels :
      ImbalanceConfig D → D → List (PriceLevelRecord D) → List (PriceLevelRecord D)
  flag_levels config tick_size levels = map (flag_level config tick_size levels) levels

  -- The flagged levels with the two counts.
  unfoldable pub detect_single_imbalances :
      ImbalanceConfig D → D → List (PriceLevelRecord D) → List (PriceLevelRecord D) × ℕ × ℕ
  detect_single_imbalances config tick_size levels =
      let flagged = flag_levels config tick_size levels in
      (
        flagged,
        count_flags (λ l. l.is_buy_imbalance) flagged,
        count_flags (λ l. l.is_sell_imbalance) flagged,
      )

  abbrev pub flag_of : Bool → PriceLevelRecord D → Bool
  flag_of true l = l.is_buy_imbalance
  flag_of false l = l.is_sell_imbalance
