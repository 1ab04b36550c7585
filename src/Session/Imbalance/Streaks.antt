-- ===== src/Session/Imbalance/Streaks.antt =====
-- The streaks of ImbalanceDetector::detect_stacked of
-- ofe_session1_code/ofe/src/analytics/imbalance_detector.cpp, and the zones that they form.
use rudra_org.Common.{
  ℕ, suc, Bool, true, false, ◌&&◌, Option, none, some, List, [], ◌∷◌, ◌++◌, leb, ◌==◌,
  if◌then◌else◌, length,
}
use rudra_org.Common.Int.{ℤ, pos, leb_ℤ}
use rudra_org.Float.{Double, zero_D, fmax, fmin, ◌⊕◌, ◌⊖◌, ◌⊗◌, ◌⊘◌, ◌<?◌}
use rudra_org.Session.BarTypes.{PriceLevelRecord, BarId, of_int}
use rudra_org.Session.Signals.{
  stacked_imbalance_buy, stacked_imbalance_sell, SignalDirection, long, short, strong, very_strong,
  stacked_zone, SignalEvent, blank_signal, ImbalanceZone,
}
use rudra_org.Session.Imbalance.Flags.{ImbalanceConfig, flag_of}

-- A finished streak of imbalances: its side, its prices and its length.
pub record Streak (D : Type 0) : Type 0 where
  pub buying : Bool
  pub zone_low : D
  pub zone_high : D
  pub streak : ℕ

-- The zones and the signals so far.
pub record Registry (D : Type 0) : Type 0 where
  pub zones : List (ImbalanceZone D)
  pub signals : List (SignalEvent D)

abbrev pub is_long : SignalDirection → Bool
is_long long = true
is_long _ = false

abbrev pub is_short : SignalDirection → Bool
is_short short = true
is_short _ = false

module _ {D : Type 0} ⦃d : Double D⦄ where
  unfoldable pub compute_zone_strength : ImbalanceConfig D → ImbalanceZone D → D
  unfolding fmax fmin
  compute_zone_strength config zone =
      let raw = (of_int zone.imbalance_count ⊗ zone.avg_ratio) ⊗ config.zone_strength_weight in
      fmin (fmax (raw ⊘ d.literal 3 0) (d.literal 1 0)) (d.literal 10 0)

  -- The first zone that passes the test, changed; none if no zone passes.
  unfoldable pub extend_first :
      (ImbalanceZone D → Bool)
      → (ImbalanceZone D → ImbalanceZone D)
      → List (ImbalanceZone D)
      → Option (List (ImbalanceZone D))
  extend_first test change [] = none
  extend_first test change (z ∷ zs) =
      let further = extend_first test change zs in
      if test z
      then some (change z ∷ zs)
      else elim further [ none ↦ none | some zs' ↦ some (z ∷ zs') ]

  abbrev pub zone_epsilon : D
  zone_epsilon = d.literal 1 6

  unfoldable pub continues : Streak D → ImbalanceZone D → Bool
  continues s z =
      if s.buying
      then is_long z.zone_direction
        && z.is_active
        && (d.fabs (z.price_low ⊖ s.zone_low) <? zone_epsilon)
      else is_short z.zone_direction
        && z.is_active
        && (d.fabs (z.price_high ⊖ s.zone_high) <? zone_epsilon)

  unfoldable pub extended : Streak D → ℤ → ImbalanceZone D → ImbalanceZone D
  extended s now z = record z {
    price_low = if s.buying then z.price_low else s.zone_low;
    price_high = if s.buying then s.zone_high else z.price_high;
    imbalance_count = pos s.streak;
    last_updated_ts_ns = now;
  }

  -- `zone_id` is what the random source gives.
  unfoldable pub new_zone :
      ImbalanceConfig D → Streak D → (zone_id : ℕ) → (now : ℤ) → ImbalanceZone D
  new_zone config s zone_id now =
      let zone : ImbalanceZone D = record {
        zone_id = zone_id;
        zone_symbol_id = 0;
        zone_direction = if s.buying then long else short;
        price_low = s.zone_low;
        price_high = s.zone_high;
        imbalance_count = pos s.streak;
        avg_ratio = config.imbalance_ratio;
        strength_score = zero_D;
        created_ts_ns = now;
        last_updated_ts_ns = now;
        resolved_ts_ns = pos 0;
        is_active = true;
      } in
      record zone { strength_score = compute_zone_strength config zone }

  unfoldable pub zone_signal : Streak D → ImbalanceZone D → Option BarId → ℤ → ℤ → SignalEvent D
  zone_signal s zone bar_id bar_close_ts now =
      record (blank_signal (if s.buying then stacked_imbalance_buy else stacked_imbalance_sell)
        (if s.buying then long else short) (if leb 5 s.streak then very_strong else strong)) {
          bar_id = bar_id;
          bar_close_ts_ns = bar_close_ts;
          price_at_signal = if s.buying then s.zone_high else s.zone_low;
          suggested_entry = if s.buying then s.zone_high else s.zone_low;
          suggested_stop =
              if s.buying then s.zone_low ⊖ d.literal 1 2 else s.zone_high ⊕ d.literal 1 2;
          detection_ts_ns = now;
          metadata_json =
              stacked_zone zone.zone_id s.streak s.zone_low s.zone_high zone.strength_score;
        }

  -- A streak that extends no zone adds one and reports it.
  abbrev pub add_zone :
      ImbalanceZone D → SignalEvent D → Registry D → Option (List (ImbalanceZone D)) → Registry D
  add_zone zone signal reg none = record {
    zones = reg.zones ++ zone ∷ [];
    signals = reg.signals ++ signal ∷ [];
  }
  add_zone zone signal reg (some zones) = record { zones = zones; signals = reg.signals }

  -- `ids` gives the random id of a zone by the number of zones before it.
  unfoldable pub form_zone :
      ImbalanceConfig D → (ℕ → ℕ) → Option BarId → ℤ → ℤ → Streak D → Registry D → Registry D
  form_zone config ids bar_id bar_close_ts now s reg =
      let zone = new_zone config s (ids (length reg.zones)) bar_close_ts in
      add_zone zone (zone_signal s zone bar_id bar_close_ts now) reg
        (extend_first (continues s) (extended s bar_close_ts) reg.zones)

  abbrev pub end_streak :
      ImbalanceConfig D
      → (Streak D → Registry D → Registry D)
      → Bool
      → D
      → D
      → ℕ
      → Registry D
      → Registry D
  end_streak config form buying first last streak reg =
      if leb_ℤ config.stacked_min_count (pos streak)
      then form (record { buying = buying; zone_low = first; zone_high = last; streak = streak })
          reg
      else reg

  -- The scan of one side, with the first and the last price and the length of the present streak. A
  -- streak of length 0 has no prices, so the least length is a positive number.
  unfoldable pub scan :
      ImbalanceConfig D
      → (Streak D → Registry D → Registry D)
      → Bool
      → List (PriceLevelRecord D)
      → D
      → D
      → ℕ
      → Registry D
      → Registry D
  scan config form buying [] first last streak reg =
      end_streak config form buying first last streak reg
  scan config form buying (l ∷ ls) first last streak reg =
      let flagged = flag_of buying l in
      scan config form buying ls (if streak == 0 then l.price else first) l.price
        (if flagged then suc streak else 0)
        (if flagged then reg else end_streak config form buying first last streak reg)

  unfoldable pub detect_stacked :
      ImbalanceConfig D
      → (ℕ → ℕ)
      → Option BarId
      → ℤ
      → ℤ
      → List (PriceLevelRecord D)
      → List (ImbalanceZone D)
      → List (ImbalanceZone D) × List (SignalEvent D)
  detect_stacked config ids bar_id bar_close_ts now levels zones =
      let form = form_zone config ids bar_id bar_close_ts now in
      let start : Registry D = record { zones = zones; signals = [] } in
      let bought = scan config form true levels zero_D zero_D 0 start in
      let sold = scan config form false levels zero_D zero_D 0 bought in (sold.zones, sold.signals)
