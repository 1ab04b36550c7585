-- ===== src/Session/Imbalance/Stacked.antt =====
-- The zones that ImbalanceDetector::detect_stacked of
-- ofe_session1_code/ofe/src/analytics/imbalance_detector.cpp keeps and adds.
use rudra_org.Common.{
  ℕ, ◌+◌, ◌≡◌, refl, Bool, true, false, Bool-cases, inl, inr, Option, none, some, List, [], ◌∷◌,
  arith, if◌then◌else◌, length, length-append, All, All-append,
}
use rudra_org.Common.Int.{ℤ, pos, leb_ℤ}
use rudra_org.Float.{Double}
use rudra_org.Session.BarTypes.{PriceLevelRecord, BarId}
use rudra_org.Session.Signals.{SignalEvent, ImbalanceZone}
use rudra_org.Session.Imbalance.Flags.{ImbalanceConfig, flag_of}
use rudra_org.Session.Imbalance.Streaks.{
  Streak, Registry, extend_first, continues, extended, new_zone, form_zone, add_zone, end_streak,
  scan, detect_stacked,
}

module _ {D : Type 0} ⦃d : Double D⦄ where
  end_streak-preserves {κ} :
      (config : ImbalanceConfig D) (form : Streak D → Registry D → Registry D)
      (P : Registry D → Type κ)
      → ((s : Streak D) (reg : Registry D)
          → leb_ℤ config.stacked_min_count (pos s.streak) ≡ true
          → P reg
          → P (form s reg))
      → (buying : Bool) (first last : D) (streak : ℕ) (reg : Registry D) → P reg
      → P (end_streak config form buying first last streak reg)
  end_streak-preserves config form P step buying first last streak reg p =
      elim (Bool-cases (leb_ℤ config.stacked_min_count (pos streak))) [
        | inl long ↦ rw long (step _ reg long p)
        | inr short ↦ rw short p
      ]

  -- What every finished streak of enough length preserves holds after the scan.
  pub scan-preserves {κ} :
      (config : ImbalanceConfig D) (form : Streak D → Registry D → Registry D)
      (P : Registry D → Type κ)
      → ((s : Streak D) (reg : Registry D)
          → leb_ℤ config.stacked_min_count (pos s.streak) ≡ true
          → P reg
          → P (form s reg))
      → (buying : Bool) (levels : List (PriceLevelRecord D)) (first last : D) (streak : ℕ)
        (reg : Registry D)
      → P reg
      → P (scan config form buying levels first last streak reg)
  unfolding scan
  scan-preserves config form P step buying [] first last streak reg p =
      end_streak-preserves config form P step buying first last streak reg p
  scan-preserves config form P step buying (l ∷ ls) first last streak reg p =
      scan-preserves config form P step buying ls _ _ _ _ (next (flag_of buying l))
    where
      next : (b : Bool) → P (if b then reg else end_streak config form buying first last streak reg)
      next true = p
      next false = end_streak-preserves config form P step buying first last streak reg p

  -- What holds of the zones when a streak extends one of them.
  abbrev pub OnSome {κ} :
      (List (ImbalanceZone D) → Type κ) → Option (List (ImbalanceZone D)) → Type κ
  OnSome P none = Unit
  OnSome P (some zones) = P zones

  extend_first-OnSome-length :
      (test : ImbalanceZone D → Bool) (change : ImbalanceZone D → ImbalanceZone D)
      (zones : List (ImbalanceZone D))
      → OnSome (λ zones'. length zones' ≡ length zones) (extend_first test change zones)
  unfolding extend_first
  extend_first-OnSome-length test change [] = tt
  extend_first-OnSome-length test change (z ∷ zs) =
      split (test z) (extend_first test change zs) (extend_first-OnSome-length test change zs)
    where
      split :
          (b : Bool) (further : Option (List (ImbalanceZone D)))
          → OnSome (λ zones'. length zones' ≡ length zs) further
          → OnSome
              (λ zones'. length zones' ≡ length (z ∷ zs))
              (if b
                then some (change z ∷ zs)
                else elim further [ none ↦ none | some zs' ↦ some (z ∷ zs') ])
      split true further e = refl
      split false none e = tt
      split false (some zs') e = omega (arith, e)

  extend_first-OnSome-All {κ} :
      (P : ImbalanceZone D → Type κ) (test : ImbalanceZone D → Bool)
      (change : ImbalanceZone D → ImbalanceZone D)
      → ((z : ImbalanceZone D) → P (change z))
      → (zones : List (ImbalanceZone D)) → All P zones
      → OnSome (All P) (extend_first test change zones)
  unfolding extend_first
  extend_first-OnSome-All P test change changed [] _ = tt
  extend_first-OnSome-All P test change changed (z ∷ zs) (p, ps) =
      split (test z) (extend_first test change zs)
        (extend_first-OnSome-All P test change changed zs ps)
    where
      split :
          (b : Bool) (further : Option (List (ImbalanceZone D)))
          → OnSome (All P) further
          → OnSome (All P) (
              if b
              then some (change z ∷ zs)
              else elim further [ none ↦ none | some zs' ↦ some (z ∷ zs') ])
      split true further q = (changed z, ps)
      split false none q = tt
      split false (some zs') q = (p, q)

  -- One signal for every zone added to `n` zones.
  abbrev IsCounted : ℕ → Registry D → Type 0
  IsCounted n reg = length reg.zones ≡ n + length reg.signals

  add_zone-IsCounted :
      (n : ℕ) (zone : ImbalanceZone D) (signal : SignalEvent D) (reg : Registry D)
      (o : Option (List (ImbalanceZone D)))
      → OnSome (λ zones'. length zones' ≡ length reg.zones) o
      → IsCounted n reg
      → IsCounted n (add_zone zone signal reg o)
  add_zone-IsCounted n zone signal reg none _ h =
      omega (arith, length-append reg.zones (zone ∷ []), length-append reg.signals (signal ∷ []))
  add_zone-IsCounted n zone signal reg (some zones) e h = omega arith

  add_zone-All {κ} :
      (P : ImbalanceZone D → Type κ) (zone : ImbalanceZone D) (signal : SignalEvent D)
      (reg : Registry D) (o : Option (List (ImbalanceZone D)))
      → OnSome (All P) o
      → P zone
      → All P reg.zones
      → All P (add_zone zone signal reg o).zones
  add_zone-All P zone signal reg none _ p h = All-append P reg.zones (zone ∷ []) h (p, tt)
  add_zone-All P zone signal reg (some zones) q p h = q

  -- The zone rests on at least the configured number of stacked imbalances.
  abbrev pub IsStacked : ImbalanceConfig D → ImbalanceZone D → Type 0
  IsStacked config z = leb_ℤ config.stacked_min_count z.imbalance_count ≡ true

  form_zone-IsCounted :
      (n : ℕ) (config : ImbalanceConfig D) (ids : ℕ → ℕ) (bar_id : Option BarId)
      (bar_close_ts now : ℤ) (s : Streak D) (reg : Registry D)
      → leb_ℤ config.stacked_min_count (pos s.streak) ≡ true
      → IsCounted n reg
      → IsCounted n (form_zone config ids bar_id bar_close_ts now s reg)
  unfolding form_zone
  form_zone-IsCounted n config ids bar_id bar_close_ts now s reg _ h =
      add_zone-IsCounted n _ _ reg _
        (extend_first-OnSome-length (continues s) (extended s bar_close_ts) reg.zones) h

  form_zone-IsStacked :
      (config : ImbalanceConfig D) (ids : ℕ → ℕ) (bar_id : Option BarId) (bar_close_ts now : ℤ)
      (s : Streak D) (reg : Registry D)
      → leb_ℤ config.stacked_min_count (pos s.streak) ≡ true
      → All (IsStacked config) reg.zones
      → All (IsStacked config) (form_zone config ids bar_id bar_close_ts now s reg).zones
  unfolding form_zone new_zone extended
  form_zone-IsStacked config ids bar_id bar_close_ts now s reg long h =
      add_zone-All (IsStacked config) _ _ reg _
        (extend_first-OnSome-All (IsStacked config) (continues s) (extended s bar_close_ts)
          (λ z. long) reg.zones h)
        long h

  -- detect_stacked adds exactly one zone per signal that it reports, and it drops no zone.
  length-detect_stacked :
      (config : ImbalanceConfig D) (ids : ℕ → ℕ) (bar_id : Option BarId) (bar_close_ts now : ℤ)
      (levels : List (PriceLevelRecord D)) (zones : List (ImbalanceZone D))
      → let (zones', signals) = detect_stacked config ids bar_id bar_close_ts now levels zones in
        length zones' ≡ length zones + length signals
  unfolding detect_stacked
  length-detect_stacked config ids bar_id bar_close_ts now levels zones =
      let n : ℕ = length zones in
      let form = form_zone config ids bar_id bar_close_ts now in
      let step = form_zone-IsCounted n config ids bar_id bar_close_ts now in
      scan-preserves config form (IsCounted n) step false levels _ _ _ _
        (scan-preserves config form (IsCounted n) step true levels _ _ _ _ (omega arith))

  -- Where every zone rests on at least the configured number of stacked imbalances, so does every
  -- zone after detect_stacked, a new or extended one included.
  detect_stacked-IsStacked :
      (config : ImbalanceConfig D) (ids : ℕ → ℕ) (bar_id : Option BarId) (bar_close_ts now : ℤ)
      (levels : List (PriceLevelRecord D)) (zones : List (ImbalanceZone D))
      → All (IsStacked config) zones
      → All (IsStacked config) (detect_stacked config ids bar_id bar_close_ts now levels zones).0
  unfolding detect_stacked
  detect_stacked-IsStacked config ids bar_id bar_close_ts now levels zones h =
      let P : Registry D → Type 0 = λ reg. All (IsStacked config) reg.zones in
      let form = form_zone config ids bar_id bar_close_ts now in
      let step = form_zone-IsStacked config ids bar_id bar_close_ts now in
      scan-preserves config form P step false levels _ _ _ _
        (scan-preserves config form P step true levels _ _ _ _ h)
