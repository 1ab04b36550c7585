-- ===== src/Session/Imbalance/Runs/Scan.antt =====
-- The scan of ImbalanceDetector::detect_stacked of
-- ofe_session1_code/ofe/src/analytics/imbalance_detector.cpp over the runs of flagged levels.
use mathlib.Core.Bool.{false≢true}
use rudra_org.Common.{
  ℕ, suc, ◌+◌, ◌≡◌, refl, ap, ◌∙◌, Bool, true, false, List, [], ◌∷◌, ◌++◌, foldl, arith,
  if◌then◌else◌, length, ◌==◌,
}
use rudra_org.Common.Int.{pos, leb_ℤ}
use rudra_org.Float.{Double}
use rudra_org.Session.BarTypes.{PriceLevelRecord}
use rudra_org.Session.Imbalance.Flags.{ImbalanceConfig, flag_of}
use rudra_org.Session.Imbalance.Streaks.{Streak, Registry, end_streak, scan}
use rudra_org.Session.Imbalance.Runs.{
  Run, joined, separates, AllFlagged, AreRuns, last_price, streak_of, long_streaks, Divided,
}

module _ {D : Type 0} ⦃d : Double D⦄ (config : ImbalanceConfig D) (buying : Bool)
    (form : Streak D → Registry D → Registry D) where
  scan_one :
      (flag : Bool) (l : PriceLevelRecord D) (ls : List (PriceLevelRecord D)) (first last : D)
      (n : ℕ) (reg : Registry D)
      → flag_of buying l ≡ flag
      → scan config form buying (l ∷ ls) first last n reg
        ≡ scan config form buying ls
            (if n == 0 then l.price else first)
            l.price
            (if flag then suc n else 0)
            (if flag then reg else end_streak config form buying first last n reg)
  unfolding scan
  scan_one flag l ls first last n reg e =
      ap
        (λ b.
          scan config form buying ls (if n == 0 then l.price else first) l.price
            (if b then suc n else 0)
            (if b then reg else end_streak config form buying first last n reg))
        e

  end_none :
      (first last : D) (reg : Registry D)
      → leb_ℤ config.stacked_min_count (pos 0) ≡ false
      → end_streak config form buying first last 0 reg ≡ reg
  end_none first last reg positive = rw positive refl

  -- Without a streak the prices do not matter.
  scan_without :
      (ls : List (PriceLevelRecord D)) (first last first' last' : D) (reg : Registry D)
      → leb_ℤ config.stacked_min_count (pos 0) ≡ false
      → scan config form buying ls first last 0 reg ≡ scan config form buying ls first' last' 0 reg
  unfolding scan
  scan_without [] first last first' last' reg positive = rw positive refl
  scan_without (l ∷ ls) first last first' last' reg positive = rw positive refl

  scan_more :
      (more ls : List (PriceLevelRecord D)) (first last : D) (n : ℕ) (reg : Registry D)
      → AllFlagged buying true more
      → scan config form buying (more ++ ls) first last (suc n) reg
        ≡ scan config form buying ls first (last_price last more) (suc (length more) + n) reg
  unfolding scan
  scan_more [] ls first last n reg flagged =
      ap (λ k. scan config form buying ls first last k reg) (omega arith)
  scan_more (l ∷ more) ls first last n reg (flag, flags) =
      scan_one true l (more ++ ls) first last (suc n) reg flag
      ∙ ap
          (λ b.
            scan config form buying (more ++ ls) (if b then l.price else first) l.price
              (suc (suc n)) reg)
          (longer n)
      ∙ scan_more more ls first l.price (suc n) reg flags
      ∙ ap (λ k. scan config form buying ls first (last_price l.price more) k reg) (omega arith)
    where
      longer : (n : ℕ) → (suc n == 0) ≡ false
      longer n = ground arith

  scan_unflagged :
      (gap ls : List (PriceLevelRecord D)) (first last : D) (reg : Registry D)
      → leb_ℤ config.stacked_min_count (pos 0) ≡ false
      → AllFlagged buying false gap
      → scan config form buying (gap ++ ls) first last 0 reg
        ≡ scan config form buying ls first last 0 reg
  unfolding scan
  scan_unflagged [] ls first last reg positive flags = refl
  scan_unflagged (g ∷ gap) ls first last reg positive (flag, flags) =
      scan_one false g (gap ++ ls) first last 0 reg flag
      ∙ ap (scan config form buying (gap ++ ls) g.price g.price 0)
          (end_none first last reg positive)
      ∙ scan_without (gap ++ ls) g.price g.price first last reg positive
      ∙ scan_unflagged gap ls first last reg positive flags

  -- The gap behind a run ends the streak.
  scan_gap :
      (rs : List (Run D)) (gap : List (PriceLevelRecord D)) (first last : D) (n : ℕ)
      (reg : Registry D)
      → leb_ℤ config.stacked_min_count (pos 0) ≡ false
      → AllFlagged buying false gap
      → separates gap rs ≡ true
      → scan config form buying (gap ++ joined rs) first last n reg
        ≡ scan config form buying
            (joined rs)
            first
            last
            0
            (end_streak config form buying first last n reg)
  unfolding scan
  scan_gap [] [] first last n reg positive flags apart = rw positive refl
  scan_gap (r ∷ rs) [] first last n reg positive flags apart = absurd (false≢true apart)
  scan_gap rs (g ∷ gap) first last n reg positive (flag, flags) apart =
      let reg' = end_streak config form buying first last n reg in
      scan_one false g (gap ++ joined rs) first last n reg flag
      ∙ scan_without (gap ++ joined rs) (if n == 0 then g.price else first) g.price first last reg'
          positive
      ∙ scan_unflagged gap (joined rs) first last reg' positive flags

  -- The scan does for each long streak, in their order, what `form` says.
  scan-joined :
      (rs : List (Run D)) (first last : D) (reg : Registry D)
      → leb_ℤ config.stacked_min_count (pos 0) ≡ false
      → AreRuns buying rs
      → scan config form buying (joined rs) first last 0 reg
        ≡ foldl (λ reg s. form s reg) reg (long_streaks config buying rs)
  unfolding scan
  scan-joined [] first last reg positive runs = rw positive refl
  scan-joined (r ∷ rs) first last reg positive (flag, flags, gap, apart, runs) =
      let last' = last_price r.first.price r.more in
      let n : ℕ = suc (length r.more) in
      let s : Streak D = streak_of buying r in
      let reg' = end_streak config form buying r.first.price last' n reg in
      scan_one true r.first (r.more ++ (r.gap ++ joined rs)) first last 0 reg flag
      ∙ scan_more r.more (r.gap ++ joined rs) r.first.price r.first.price 0 reg flags
      ∙ ap (λ k. scan config form buying (r.gap ++ joined rs) r.first.price last' k reg)
          (omega arith)
      ∙ scan_gap rs r.gap r.first.price last' n reg positive gap apart
      ∙ scan-joined rs r.first.price last' reg' positive runs
      ∙ taken s (long_streaks config buying rs) reg (leb_ℤ config.stacked_min_count (pos s.streak))
    where
      taken :
          (s : Streak D) (streaks : List (Streak D)) (reg : Registry D) (b : Bool)
          → foldl (λ reg s. form s reg) (if b then form s reg else reg) streaks
            ≡ foldl (λ reg s. form s reg) reg (if b then s ∷ streaks else streaks)
      taken s streaks reg true = refl
      taken s streaks reg false = refl

  pub scan_lem :
      (levels : List (PriceLevelRecord D)) (v : Divided buying levels) (first last : D)
      (reg : Registry D)
      → leb_ℤ config.stacked_min_count (pos 0) ≡ false
      → scan config form buying levels first last 0 reg
        ≡ foldl (λ reg s. form s reg) reg (long_streaks config buying v.runs)
  scan_lem levels v first last reg positive =
      ap (λ ls. scan config form buying ls first last 0 reg) v.same
      ∙ scan_unflagged v.gap (joined v.runs) first last reg positive v.unflagged
      ∙ scan-joined v.runs first last reg positive v.are_runs
