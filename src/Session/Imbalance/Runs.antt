-- ===== src/Session/Imbalance/Runs.antt =====
-- The streaks of ImbalanceDetector::detect_stacked of
-- ofe_session1_code/ofe/src/analytics/imbalance_detector.cpp as the runs of flagged levels.
pub mod Scan
pub mod Handled
use mathlib.Core.Path.{subst}
use mathlib.Core.Bool.{false≢true}
use rudra_org.Common.{
  ℕ, zero, suc, ◌+◌, ◌≡◌, refl, ap, sym, ◌∙◌, Bool, true, false, Bool-cases, inl, inr, Option, List,
  [], ◌∷◌, ◌++◌, map, foldl, arith, if◌then◌else◌, length, select, All, foldl-append, ◌==◌,
}
use rudra_org.Common.Int.{ℤ, pos, leb_ℤ}
use rudra_org.Float.{Double, zero_D}
use rudra_org.Session.BarTypes.{PriceLevelRecord, BarId}
use rudra_org.Session.Signals.{SignalEvent, ImbalanceZone}
use rudra_org.Session.Imbalance.Flags.{ImbalanceConfig, flag_of}
use rudra_org.Session.Imbalance.Streaks.{
  Streak, Registry, form_zone, end_streak, scan, detect_stacked,
}

-- Some levels in a row that are flagged, and those behind them up to the next such run.
pub record Run (D : Type 0) : Type 0 where
  pub first : PriceLevelRecord D
  pub more : List (PriceLevelRecord D)
  pub gap : List (PriceLevelRecord D)

module _ {D : Type 0} where
  -- The levels of a bar behind the first gap: the runs, each with the gap behind it.
  abbrev pub joined : List (Run D) → List (PriceLevelRecord D)
  joined [] = []
  joined (r ∷ rs) = r.first ∷ (r.more ++ (r.gap ++ joined rs))

  abbrev pub separates : List (PriceLevelRecord D) → List (Run D) → Bool
  separates gap [] = true
  separates [] (r ∷ rs) = false
  separates (l ∷ ls) (r ∷ rs) = true

  abbrev pub last_price : D → List (PriceLevelRecord D) → D
  last_price price [] = price
  last_price price (l ∷ ls) = last_price l.price ls

  -- From the price of its first level to that of its last one.
  abbrev pub streak_of : Bool → Run D → Streak D
  streak_of buying r = record {
    buying = buying;
    zone_low = r.first.price;
    zone_high = last_price r.first.price r.more;
    streak = suc (length r.more);
  }

  -- The streaks that are long enough, in their order.
  abbrev pub long_streaks : ImbalanceConfig D → Bool → List (Run D) → List (Streak D)
  long_streaks config buying rs =
      select (λ s. leb_ℤ config.stacked_min_count (pos s.streak)) (map (streak_of buying) rs)

module _ {D : Type 0} ⦃d : Double D⦄ where
  abbrev pub AllFlagged : Bool → Bool → List (PriceLevelRecord D) → Type 0
  AllFlagged buying flag levels = All (λ l. flag_of buying l ≡ flag) levels

  -- The runs are flagged, and only the last of them has nothing behind it.
  abbrev pub AreRuns : Bool → List (Run D) → Type 0
  AreRuns buying [] = Unit
  AreRuns buying (r ∷ rs) =
      (flag_of buying r.first ≡ true)
      × AllFlagged buying true r.more
      × AllFlagged buying false r.gap
      × (separates r.gap rs ≡ true)
      × AreRuns buying rs

  -- Levels as a gap and runs.
  pub record Divided (buying : Bool) (levels : List (PriceLevelRecord D)) : Type 0 where
    pub gap : List (PriceLevelRecord D)
    pub runs : List (Run D)
    pub same : levels ≡ gap ++ joined runs
    pub unflagged : AllFlagged buying false gap
    pub are_runs : AreRuns buying runs

  divide_flagged :
      (buying : Bool) (l : PriceLevelRecord D) (ls gap : List (PriceLevelRecord D))
      (runs : List (Run D))
      → flag_of buying l ≡ true
      → ls ≡ gap ++ joined runs
      → AllFlagged buying false gap
      → AreRuns buying runs
      → Divided buying (l ∷ ls)
  divide_flagged buying l ls [] [] flag same unflagged runs = record {
    gap = [];
    runs = record { first = l; more = []; gap = [] } ∷ [];
    same = ap (λ (t : List (PriceLevelRecord D)). l ∷ t) same;
    unflagged = tt;
    are_runs = (flag, tt, tt, refl, tt);
  }
  divide_flagged buying l ls [] (r ∷ rs) flag same unflagged (first, more, gap, apart, rest) =
      record {
        gap = [];
        runs = record { first = l; more = r.first ∷ r.more; gap = r.gap } ∷ rs;
        same = ap (λ (t : List (PriceLevelRecord D)). l ∷ t) same;
        unflagged = tt;
        are_runs = (flag, (first, more), gap, apart, rest);
      }
  divide_flagged buying l ls (g ∷ gap) runs flag same unflagged are_runs = record {
    gap = [];
    runs = record { first = l; more = []; gap = g ∷ gap } ∷ runs;
    same = ap (λ (t : List (PriceLevelRecord D)). l ∷ t) same;
    unflagged = tt;
    are_runs = (flag, tt, unflagged, separated runs, are_runs);
  }
    where
      separated : (rs : List (Run D)) → separates (g ∷ gap) rs ≡ true
      separated [] = refl
      separated (r ∷ rs) = refl

  -- All levels can be divided.
  pub divide : (buying : Bool) (levels : List (PriceLevelRecord D)) → Divided buying levels
  divide buying [] = record { gap = []; runs = []; same = refl; unflagged = tt; are_runs = tt }
  divide buying (l ∷ ls) =
      let v = divide buying ls in
      elim (Bool-cases (flag_of buying l)) [
        | inl flag ↦ divide_flagged buying l ls v.gap v.runs flag v.same v.unflagged v.are_runs
        | inr flag ↦ record {
          gap = l ∷ v.gap;
          runs = v.runs;
          same = ap (λ (t : List (PriceLevelRecord D)). l ∷ t) v.same;
          unflagged = (flag, v.unflagged);
          are_runs = v.are_runs;
        }
      ]
