-- ===== src/Session/Imbalance/Tests.antt =====
-- Runs of the imbalance detector, and its theorems at concrete bars.
use rudra_org.Common.{
  ℕ, ◌+◌, ◌*◌, ◌^◌, ◌≡◌, refl, true, false, none, some, List, [], ◌∷◌, map, get_elem?,
}
use rudra_org.Common.Int.{pos}
use rudra_org.Float.Fixed.{Fixed, fixed_double, unit}
use rudra_org.Session.BarTypes.{PriceLevelRecord, BarRecord, blank_bar}
use rudra_org.Session.Signals.{long, ImbalanceZone}
use rudra_org.Session.Imbalance.Flags.{ImbalanceConfig, find_level, flag_level, flag_levels}
use rudra_org.Session.Imbalance.Streaks.{
  Registry, detect_stacked, scan, form_zone, new_zone, extend_first, continues, extended,
}
use rudra_org.Session.Imbalance.{detect_all}
use rudra_org.Session.Imbalance.Runs.{divide}
use rudra_org.Session.Imbalance.Runs.Handled.{long_runs, AllHandled, detect_stacked-AllHandled}
use rudra_org.Session.Imbalance.Zones.{detect_all-resolved}

-- A ratio of 3, and zones of at least 3 levels.
abbrev config : ImbalanceConfig Fixed
config = record {
  imbalance_ratio = pos (3 * unit);
  stacked_min_count = pos 3;
  absorption_vol_thresh = pos (500 * unit);
  absorption_delta_ratio = pos (10 ^ 8);
  multi_imbalance_bars = pos 3;
  zone_strength_weight = pos unit;
}

abbrev level : ℕ → ℕ → ℕ → PriceLevelRecord Fixed
level price bid_vol ask_vol = record {
  price = pos (price * unit);
  bid_vol = pos bid_vol;
  ask_vol = pos ask_vol;
  total_vol = pos (bid_vol + ask_vol);
  delta = pos 0;
  is_buy_imbalance = false;
  is_sell_imbalance = false;
  is_poc = false;
  is_cot = false;
  is_zero_print = false;
}

-- Three buying imbalances above the price of 100.
abbrev levels : List (PriceLevelRecord Fixed)
levels = level 100 10 5 ∷ level 101 10 40 ∷ level 102 10 50 ∷ level 103 5 60 ∷ []

abbrev old_zone : ImbalanceZone Fixed
old_zone = record {
  zone_id = 9;
  zone_symbol_id = 7;
  zone_direction = long;
  price_low = pos (101 * unit);
  price_high = pos (104 * unit);
  imbalance_count = pos 4;
  avg_ratio = pos (3 * unit);
  strength_score = pos (4 * unit);
  created_ts_ns = pos 500;
  last_updated_ts_ns = pos 500;
  resolved_ts_ns = pos 800;
  is_active = false;
}

abbrev random_id : ℕ → ℕ
random_id n = n + 40

abbrev bar : BarRecord Fixed
bar = record blank_bar {
  low = pos (100 * unit);
  high = pos (103 * unit);
  bar_close_ts_ns = pos 1000;
  price_levels = levels;
}

flags :
    map (λ l. l.is_buy_imbalance) (flag_levels config (pos unit) levels)
    ≡ false ∷ true ∷ true ∷ true ∷ []
unfolding flag_levels flag_level find_level
flags = refl

-- A resolved zone at the same prices is not extended.
two_zones :
    map
      (λ z. z.imbalance_count)
      (detect_stacked config random_id none
        (pos 1000)
        (pos 1)
        (flag_levels config (pos unit) levels)
        (old_zone ∷ [])).0
    ≡ pos 4 ∷ pos 3 ∷ []
unfolding flag_levels flag_level find_level detect_stacked scan form_zone extend_first continues
    extended new_zone
two_zones = refl

detect_stacked-AllHandled_example :
    let flagged = flag_levels config (pos unit) levels in
    let start : Registry Fixed = record { zones = old_zone ∷ []; signals = [] } in
    let (zones, signals) =
      detect_stacked config random_id none (pos 1000) (pos 1) flagged (old_zone ∷ []) in
    (mid : Registry Fixed) × AllHandled config random_id none
      (pos 1000)
      (pos 1)
      true
      (long_runs config (divide true flagged).runs)
      start
      mid
    × AllHandled config random_id none
        (pos 1000)
        (pos 1)
        false
        (long_runs config (divide false flagged).runs)
        mid
        (record { zones = zones; signals = signals })
detect_stacked-AllHandled_example =
    detect_stacked-AllHandled config random_id none (pos 1000) (pos 1)
      (flag_levels config (pos unit) levels) (old_zone ∷ [])
      (divide true (flag_levels config (pos unit) levels))
      (divide false (flag_levels config (pos unit) levels)) refl

detect_all-resolved_example :
    get_elem? (detect_all config random_id (pos 1) bar (old_zone ∷ []) (pos unit)).2 0
    ≡ some old_zone
detect_all-resolved_example =
    detect_all-resolved config random_id (pos 1) bar (old_zone ∷ []) (pos unit) 0 old_zone refl refl
