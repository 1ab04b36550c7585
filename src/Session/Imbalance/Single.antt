-- ===== src/Session/Imbalance/Single.antt =====
-- The flags that ImbalanceDetector::detect_single_imbalances of
-- ofe_session1_code/ofe/src/analytics/imbalance_detector.cpp sets in place.
use rudra_org.Common.{
  ◌≡◌, refl, ap, ap₂, ◌∙◌, Bool, true, false, Option, none, some, List, [], ◌∷◌, map, if◌then◌else◌,
}
use rudra_org.Float.{Double, ◌⊕◌, ◌⊖◌, ◌⊗◌, ◌<?◌}
use rudra_org.Session.BarTypes.{PriceLevelRecord}
use rudra_org.Session.Imbalance.Flags.{
  ImbalanceConfig, find_level, over_bid, over_ask, flag_level, flag_levels,
  detect_single_imbalances, count_flags,
}

module _ {D : Type 0} ⦃d : Double D⦄ where
  abbrev flag_found :
      ImbalanceConfig D
      → D
      → List (PriceLevelRecord D)
      → Option (PriceLevelRecord D)
      → Option (PriceLevelRecord D)
  flag_found config tick_size all none = none
  flag_found config tick_size all (some l) = some (flag_level config tick_size all l)

  -- A search in flagged levels finds the flagged level.
  find_level-map :
      (config : ImbalanceConfig D) (tick_size : D) (all ls : List (PriceLevelRecord D)) (price : D)
      → find_level (map (flag_level config tick_size all) ls) price tick_size
        ≡ flag_found config tick_size all (find_level ls price tick_size)
  unfolding find_level flag_level
  find_level-map config tick_size all [] price = refl
  find_level-map config tick_size all (l ∷ ls) price =
      split (d.fabs (l.price ⊖ price) <? (tick_size ⊗ d.literal 1 2)) _ _
        (find_level-map config tick_size all ls price)
    where
      split :
          (b : Bool) (found further : Option (PriceLevelRecord D))
          → found ≡ flag_found config tick_size all further
          → (if b then some (flag_level config tick_size all l) else found)
            ≡ flag_found config tick_size all (if b then some l else further)
      split true found further e = refl
      split false found further e = e

  over_bid-flag_found :
      (config : ImbalanceConfig D) (tick_size : D) (all : List (PriceLevelRecord D))
      (l : PriceLevelRecord D) (o : Option (PriceLevelRecord D))
      → over_bid config l (flag_found config tick_size all o) ≡ over_bid config l o
  unfolding flag_level
  over_bid-flag_found config tick_size all l none = refl
  over_bid-flag_found config tick_size all l (some below) = refl

  over_ask-flag_found :
      (config : ImbalanceConfig D) (tick_size : D) (all : List (PriceLevelRecord D))
      (l : PriceLevelRecord D) (o : Option (PriceLevelRecord D))
      → over_ask config l (flag_found config tick_size all o) ≡ over_ask config l o
  unfolding flag_level
  over_ask-flag_found config tick_size all l none = refl
  over_ask-flag_found config tick_size all l (some above) = refl

  flag_level_idem :
      (config : ImbalanceConfig D) (tick_size : D) (all : List (PriceLevelRecord D))
      (l : PriceLevelRecord D)
      → flag_level config tick_size
          (flag_levels config tick_size all)
          (flag_level config tick_size all l)
        ≡ flag_level config tick_size all l
  unfolding flag_level flag_levels
  flag_level_idem config tick_size all l =
      ap₂ (λ b s. record l { is_buy_imbalance = b; is_sell_imbalance = s })
        (ap (over_bid config l) (find_level-map config tick_size all all (l.price ⊖ tick_size))
          ∙ over_bid-flag_found config tick_size all l
              (find_level all (l.price ⊖ tick_size) tick_size))
        (ap (over_ask config l) (find_level-map config tick_size all all (l.price ⊕ tick_size))
          ∙ over_ask-flag_found config tick_size all l
              (find_level all (l.price ⊕ tick_size) tick_size))

  map_idem :
      (config : ImbalanceConfig D) (tick_size : D) (all ls : List (PriceLevelRecord D))
      → map
          (flag_level config tick_size (flag_levels config tick_size all))
          (map (flag_level config tick_size all) ls)
        ≡ map (flag_level config tick_size all) ls
  map_idem config tick_size all [] = refl
  map_idem config tick_size all (l ∷ ls) =
      ap₂ (λ x xs. x ∷ xs) (flag_level_idem config tick_size all l)
        (map_idem config tick_size all ls)

  -- A second call of detect_single_imbalances on the levels that the first one has flagged gives the
  -- same levels and counts: flags left from an earlier call have no influence.
  detect_single_imbalances_idem :
      (config : ImbalanceConfig D) (tick_size : D) (levels : List (PriceLevelRecord D))
      → detect_single_imbalances config tick_size
          (detect_single_imbalances config tick_size levels).0
        ≡ detect_single_imbalances config tick_size levels
  unfolding detect_single_imbalances flag_levels
  detect_single_imbalances_idem config tick_size levels =
      ap
        (λ flagged. (
          flagged,
          count_flags (λ l. l.is_buy_imbalance) flagged,
          count_flags (λ l. l.is_sell_imbalance) flagged,
        ))
        (map_idem config tick_size levels levels)
