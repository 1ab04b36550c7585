-- ===== src/Session/Imbalance/Runs/Handled.antt =====
-- What ImbalanceDetector::detect_stacked of
-- ofe_session1_code/ofe/src/analytics/imbalance_detector.cpp makes of the runs of flagged levels.
use mathlib.Core.Bool.{false≢true}
use mathlib.Core.Path.{subst}
use rudra_org.Common.{
  ℕ, suc, ◌≡◌, ◌⊎◌, inl, inr, refl, ap, sym, ◌∙◌, Bool, true, false, ◌&&◌, Bool-cases, Option, none,
  some, List, [], ◌∷◌, ◌++◌, foldl, if◌then◌else◌, length, select, All,
}
use rudra_org.Common.Int.{ℤ, pos, leb_ℤ}
use rudra_org.Float.{Double, zero_D, ◌⊖◌, ◌<?◌}
use rudra_org.Session.BarTypes.{PriceLevelRecord, BarId}
use rudra_org.Session.Signals.{
  stacked_imbalance_buy, stacked_imbalance_sell, SignalDirection, long, short, SignalEvent,
  ImbalanceZone,
}
use rudra_org.Session.Imbalance.Flags.{ImbalanceConfig}
use rudra_org.Session.Imbalance.Streaks.{
  Streak, Registry, is_long, is_short, extend_first, continues, extended, new_zone, zone_signal,
  add_zone, form_zone, scan, detect_stacked,
}
use rudra_org.Session.Imbalance.Runs.{Run, last_price, streak_of, long_streaks, Divided}
use rudra_org.Session.Imbalance.Runs.Scan.{scan_lem}

abbrev pub direction_of : Bool → SignalDirection
direction_of true = long
direction_of false = short

long_lem :
    (way : SignalDirection) (active near : Bool)
    → (is_long way && active && near) ≡ true
    → (way ≡ long) × (active ≡ true) × (near ≡ true)
long_lem long true true e = (refl, refl, refl)
long_lem long true false e = absurd (false≢true e)
long_lem long false near e = absurd (false≢true e)
long_lem short active near e = absurd (false≢true e)
long_lem _ active near e = absurd (false≢true e)

short_lem :
    (way : SignalDirection) (active near : Bool)
    → (is_short way && active && near) ≡ true
    → (way ≡ short) × (active ≡ true) × (near ≡ true)
short_lem short true true e = (refl, refl, refl)
short_lem short true false e = absurd (false≢true e)
short_lem short false near e = absurd (false≢true e)
short_lem long active near e = absurd (false≢true e)
short_lem _ active near e = absurd (false≢true e)

module _ {D : Type 0} where
  -- The prices at the two ends of a run, and its length.
  abbrev pub low_of : Run D → D
  low_of r = r.first.price

  abbrev pub high_of : Run D → D
  high_of r = last_price r.first.price r.more

  abbrev pub length_of : Run D → ℕ
  length_of r = suc (length r.more)

  abbrev pub long_runs : ImbalanceConfig D → List (Run D) → List (Run D)
  long_runs config rs = select (λ r. leb_ℤ config.stacked_min_count (pos (length_of r))) rs

  -- The zone afterwards, when a run extends it to the price at its other end.
  abbrev pub Extended : Bool → Run D → ℤ → ImbalanceZone D → ImbalanceZone D → Type 0
  Extended true r bar_close_ts z z' = z' ≡ record z {
    price_high = high_of r;
    imbalance_count = pos (length_of r);
    last_updated_ts_ns = bar_close_ts;
  }
  Extended false r bar_close_ts z z' = z' ≡ record z {
    price_low = low_of r;
    imbalance_count = pos (length_of r);
    last_updated_ts_ns = bar_close_ts;
  }

  -- An active zone of the run's own.
  abbrev pub Added : ImbalanceConfig D → Bool → Run D → ℤ → ImbalanceZone D → Type 0
  Added config buying r bar_close_ts z =
      (z.zone_direction ≡ direction_of buying)
      × (z.price_low ≡ low_of r)
      × (z.price_high ≡ high_of r)
      × (z.imbalance_count ≡ pos (length_of r))
      × (z.avg_ratio ≡ config.imbalance_ratio)
      × (z.is_active ≡ true)
      × (z.created_ts_ns ≡ bar_close_ts)

  -- The signal of such a zone, at the price where the imbalances end.
  abbrev pub Reported : Bool → Run D → Option BarId → ℤ → SignalEvent D → Type 0
  Reported true r bar_id bar_close_ts s =
      (s.type ≡ stacked_imbalance_buy)
      × (s.direction ≡ long)
      × (s.price_at_signal ≡ high_of r)
      × (s.suggested_entry ≡ high_of r)
      × (s.bar_id ≡ bar_id)
      × (s.bar_close_ts_ns ≡ bar_close_ts)
  Reported false r bar_id bar_close_ts s =
      (s.type ≡ stacked_imbalance_sell)
      × (s.direction ≡ short)
      × (s.price_at_signal ≡ low_of r)
      × (s.suggested_entry ≡ low_of r)
      × (s.bar_id ≡ bar_id)
      × (s.bar_close_ts_ns ≡ bar_close_ts)

module _ {D : Type 0} ⦃d : Double D⦄ where
  -- An active zone of the run's direction that starts at the same price: a buying one at its low, a
  -- selling one at its high, to a millionth.
  abbrev pub Matches : Bool → Run D → ImbalanceZone D → Type 0
  Matches true r z =
      (z.zone_direction ≡ long)
      × (z.is_active ≡ true)
      × ((d.fabs (z.price_low ⊖ low_of r) <? d.literal 1 6) ≡ true)
  Matches false r z =
      (z.zone_direction ≡ short)
      × (z.is_active ≡ true)
      × ((d.fabs (z.price_high ⊖ high_of r) <? d.literal 1 6) ≡ true)

  continues-Matches :
      (buying : Bool) (r : Run D) (z : ImbalanceZone D)
      → continues (streak_of buying r) z ≡ true
      → Matches buying r z
  unfolding continues
  continues-Matches true r z e = long_lem _ _ _ e
  continues-Matches false r z e = short_lem _ _ _ e

  Matches-continues :
      (buying : Bool) (r : Run D) (z : ImbalanceZone D)
      → Matches buying r z
      → continues (streak_of buying r) z ≡ true
  unfolding continues
  Matches-continues true r z (way, active, near) = rw (way, active, near) refl
  Matches-continues false r z (way, active, near) = rw (way, active, near) refl

  -- The first zone that passes a test is changed, or none passes it.
  extend_first_lem :
      (test : ImbalanceZone D → Bool) (change : ImbalanceZone D → ImbalanceZone D)
      (zones : List (ImbalanceZone D))
      → ((before : List (ImbalanceZone D)) × (z : ImbalanceZone D) × (behind : List
            (ImbalanceZone D))
          × (zones ≡ before ++ z ∷ behind)
          × All (λ y. test y ≡ false) before
          × (test z ≡ true)
          × (extend_first test change zones ≡ some (before ++ change z ∷ behind)))
        ⊎ (All (λ y. test y ≡ false) zones × (extend_first test change zones ≡ none))
  unfolding extend_first
  extend_first_lem test change [] = inr (tt, refl)
  extend_first_lem test change (z ∷ zs) = elim (Bool-cases (test z)) [
    | inl here ↦ inl ([], z, zs, refl, tt, here, rw here refl)
    | inr away ↦ elim (extend_first_lem test change zs) [
      | inl (before, y, behind, same, none_before, hit, found) ↦ inl (
        z ∷ before,
        y,
        behind,
        ap (λ (t : List (ImbalanceZone D)). z ∷ t) same,
        (away, none_before),
        hit,
        rw (away, found) refl,
      )
      | inr (none_passes, nothing) ↦ inr ((away, none_passes), rw (away, nothing) refl)
    ]
  ]

  apart_of :
      (buying : Bool) (r : Run D) (zones : List (ImbalanceZone D))
      → All (λ y. continues (streak_of buying r) y ≡ false) zones
      → All (λ y. ¬ Matches buying r y) zones
  apart_of buying r [] off = tt
  apart_of buying r (y ∷ ys) (off, offs) =
      ((λ m. false≢true (sym off ∙ Matches-continues buying r y m)), apart_of buying r ys offs)

module _ {D : Type 0} ⦃d : Double D⦄ (config : ImbalanceConfig D) (ids : ℕ → ℕ)
    (bar_id : Option BarId) (bar_close_ts now : ℤ) where
  -- A run extends the first zone that matches it; where none does, it adds a zone of its own and
  -- reports it.
  abbrev pub Handled : Bool → Run D → Registry D → Registry D → Type 0
  Handled buying r reg reg' =
      ((before : List (ImbalanceZone D)) × (z z' : ImbalanceZone D) × (behind : List
          (ImbalanceZone D))
        × (reg.zones ≡ before ++ z ∷ behind)
        × All (λ y. ¬ Matches buying r y) before
        × Matches buying r z
        × Extended buying r bar_close_ts z z'
        × (reg'.zones ≡ before ++ z' ∷ behind)
        × (reg'.signals ≡ reg.signals))
      ⊎ (All (λ y. ¬ Matches buying r y) reg.zones
          × (z : ImbalanceZone D) × (s : SignalEvent D) × Added config buying r bar_close_ts z
          × Reported buying r bar_id bar_close_ts s
          × (reg'.zones ≡ reg.zones ++ z ∷ [])
          × (reg'.signals ≡ reg.signals ++ s ∷ []))

  -- One run after another.
  abbrev pub AllHandled : Bool → List (Run D) → Registry D → Registry D → Type 0
  AllHandled buying [] reg reg' = reg' ≡ reg
  AllHandled buying (r ∷ rs) reg reg' =
      (mid : Registry D) × Handled buying r reg mid × AllHandled buying rs mid reg'

  Extended-extended :
      (buying : Bool) (r : Run D) (z : ImbalanceZone D)
      → Extended buying r bar_close_ts z (extended (streak_of buying r) bar_close_ts z)
  unfolding extended
  Extended-extended true r z = refl
  Extended-extended false r z = refl

  Added-new_zone :
      (buying : Bool) (r : Run D) (zone_id : ℕ)
      → Added config buying r bar_close_ts
          (new_zone config (streak_of buying r) zone_id bar_close_ts)
  unfolding new_zone
  Added-new_zone true r zone_id = (refl, refl, refl, refl, refl, refl, refl)
  Added-new_zone false r zone_id = (refl, refl, refl, refl, refl, refl, refl)

  Reported-zone_signal :
      (buying : Bool) (r : Run D) (z : ImbalanceZone D)
      → Reported buying r bar_id bar_close_ts
          (zone_signal (streak_of buying r) z bar_id bar_close_ts now)
  unfolding zone_signal
  Reported-zone_signal true r z = (refl, refl, refl, refl, refl, refl)
  Reported-zone_signal false r z = (refl, refl, refl, refl, refl, refl)

  form_zone-Handled :
      (buying : Bool) (r : Run D) (reg : Registry D)
      → Handled buying r reg (form_zone config ids bar_id bar_close_ts now (streak_of buying r) reg)
  unfolding form_zone
  form_zone-Handled buying r reg =
      let s = streak_of buying r in
      let zone = new_zone config s (ids (length reg.zones)) bar_close_ts in
      let signal = zone_signal s zone bar_id bar_close_ts now in
      elim (extend_first_lem (continues s) (extended s bar_close_ts) reg.zones) [
        | inl (before, z, behind, same, apart, hit, found) ↦
            let formed = ap (add_zone zone signal reg) found in
            inl (
              before,
              z,
              extended s bar_close_ts z,
              behind,
              same,
              apart_of buying r before apart,
              continues-Matches buying r z hit,
              Extended-extended buying r z,
              ap (λ (v : Registry D). v.zones) formed,
              ap (λ (v : Registry D). v.signals) formed,
            )
        | inr (apart, nothing) ↦
            let formed = ap (add_zone zone signal reg) nothing in
            inr (
              apart_of buying r reg.zones apart,
              zone,
              signal,
              Added-new_zone buying r (ids (length reg.zones)),
              Reported-zone_signal buying r zone,
              ap (λ (v : Registry D). v.zones) formed,
              ap (λ (v : Registry D). v.signals) formed,
            )
      ]

  form_all-AllHandled :
      (buying : Bool) (rs : List (Run D)) (reg : Registry D)
      → AllHandled buying (long_runs config rs) reg (
          foldl
            (λ reg s. form_zone config ids bar_id bar_close_ts now s reg)
            reg
            (long_streaks config buying rs))
  form_all-AllHandled buying [] reg = refl
  form_all-AllHandled buying (r ∷ rs) reg =
      split (leb_ℤ config.stacked_min_count (pos (length_of r))) (form_all-AllHandled buying rs reg)
        (form_all-AllHandled buying rs
          (form_zone config ids bar_id bar_close_ts now (streak_of buying r) reg))
    where
      step : Registry D → Streak D → Registry D
      step v s = form_zone config ids bar_id bar_close_ts now s v

      split :
          (b : Bool)
          → AllHandled buying
              (long_runs config rs)
              reg
              (foldl step reg (long_streaks config buying rs))
          → AllHandled buying
              (long_runs config rs)
              (step reg (streak_of buying r))
              (foldl step (step reg (streak_of buying r)) (long_streaks config buying rs))
          → AllHandled buying (if b then r ∷ long_runs config rs else long_runs config rs) reg (
              foldl step reg (
                if b
                then streak_of buying r ∷ long_streaks config buying rs
                else long_streaks config buying rs))
      split true skipped rest = (_, form_zone-Handled buying r reg, rest)
      split false skipped rest = skipped

  -- Where the least length is positive, and however the levels are divided into runs with the buying
  -- flag and gaps, and into runs with the selling flag and gaps: detect_stacked handles the buying
  -- runs that are long enough and then such selling runs, in their order. A run extends the first
  -- active zone of its direction that starts at its low, for a buying run, or at its high, for a
  -- selling one, to the price of its other end; where there is none, it adds a zone from its low to
  -- its high and reports it. Other zones and signals stay as they are.
  pub detect_stacked-AllHandled :
      (levels : List (PriceLevelRecord D)) (zones : List (ImbalanceZone D))
      (bought : Divided true levels) (sold : Divided false levels)
      → leb_ℤ config.stacked_min_count (pos 0) ≡ false
      → let start : Registry D = record { zones = zones; signals = [] } in
        let (zones', signals) = detect_stacked config ids bar_id bar_close_ts now levels zones in
        (mid : Registry D) × AllHandled true (long_runs config bought.runs) start mid
        × AllHandled false
            (long_runs config sold.runs)
            mid
            (record { zones = zones'; signals = signals })
  unfolding detect_stacked
  detect_stacked-AllHandled levels zones bought sold positive =
      let form = form_zone config ids bar_id bar_close_ts now in
      let start : Registry D = record { zones = zones; signals = [] } in
      let mid = foldl (λ v s. form s v) start (long_streaks config true bought.runs) in
      let first = scan_lem config true form levels bought zero_D zero_D start positive in
      let second = scan_lem config false form levels sold zero_D zero_D mid positive in
      (
        mid,
        form_all-AllHandled true bought.runs start,
        subst (AllHandled false (long_runs config sold.runs) mid)
            (sym (ap (scan config form false levels zero_D zero_D 0) first ∙ second))
            (form_all-AllHandled false sold.runs mid),
      )
