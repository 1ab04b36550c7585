-- ===== src/Session/Imbalance/Zones.antt =====
-- The zones that ImbalanceDetector::update_zone_registry of
-- ofe_session1_code/ofe/src/analytics/imbalance_detector.cpp resolves.
use rudra_org.Common.{
  ℕ, suc, zero, ◌++◌, arith, ◌≡◌, refl, sym, ap, ◌∙◌, Bool, true, false, Option, none, some, List,
  [], ◌∷◌, if◌then◌else◌, not, get_elem?,
}
use rudra_org.Common.Int.{ℤ, pos, leb_ℤ}
use rudra_org.Float.{Double}
use rudra_org.Session.BarTypes.{PriceLevelRecord, BarRecord, BarId}
use rudra_org.Session.Signals.{SignalEvent, ImbalanceZone}
use rudra_org.Session.Imbalance.Flags.{ImbalanceConfig}
use rudra_org.Session.Imbalance.Streaks.{
  Streak, Registry, extend_first, extended, continues, form_zone, add_zone, detect_stacked,
}
use rudra_org.Session.Imbalance.{update_zone, update_zone_registry, detect_all}
use rudra_org.Session.Imbalance.Stacked.{OnSome, scan-preserves}
use mathlib.Core.Bool.{false≢true}
use mathlib.Core.Option.{some-injective, none-ne-some}

module _ {D : Type 0} ⦃d : Double D⦄ where
  -- A streak continues active zones only.
  continues-is_active :
      (s : Streak D) (z : ImbalanceZone D) → z.is_active ≡ false → continues s z ≡ false
  unfolding continues
  continues-is_active s z off = rw off (ground arith)

  extend_first-get_elem? :
      (s : Streak D) (now : ℤ) (zones : List (ImbalanceZone D)) (i : ℕ) (z : ImbalanceZone D)
      → z.is_active ≡ false
      → get_elem? zones i ≡ some z
      → OnSome
          (λ zones'. get_elem? zones' i ≡ some z)
          (extend_first (continues s) (extended s now) zones)
  unfolding extend_first
  extend_first-get_elem? s now [] i z off e = tt
  extend_first-get_elem? s now (y ∷ ys) zero z off e =
      split (continues s y)
        (continues-is_active s y (ap (λ x. x.is_active) (some-injective y z e) ∙ off)) _
    where
      split :
          (b : Bool)
          → b ≡ false
          → (further : Option (List (ImbalanceZone D)))
          → OnSome
              (λ zones'. get_elem? zones' 0 ≡ some z)
              (if b
                then some (extended s now y ∷ ys)
                else elim further [ none ↦ none | some ys' ↦ some (y ∷ ys') ])
      split true on further = absurd (false≢true (sym on))
      split false off' none = tt
      split false off' (some ys') = e
  extend_first-get_elem? s now (y ∷ ys) (suc i) z off e =
      split (continues s y) _ (extend_first-get_elem? s now ys i z off e)
    where
      split :
          (b : Bool) (further : Option (List (ImbalanceZone D)))
          → OnSome (λ zones'. get_elem? zones' i ≡ some z) further
          → OnSome
              (λ zones'. get_elem? zones' (suc i) ≡ some z)
              (if b
                then some (extended s now y ∷ ys)
                else elim further [ none ↦ none | some ys' ↦ some (y ∷ ys') ])
      split true further q = e
      split false none q = tt
      split false (some ys') q = q

  get_elem?-append :
      (zones more : List (ImbalanceZone D)) (i : ℕ) (z : ImbalanceZone D)
      → get_elem? zones i ≡ some z
      → get_elem? (zones ++ more) i ≡ some z
  get_elem?-append [] more i z e = absurd (none-ne-some z e)
  get_elem?-append (y ∷ ys) more zero z e = e
  get_elem?-append (y ∷ ys) more (suc i) z e = get_elem?-append ys more i z e

  add_zone-get_elem? :
      (i : ℕ) (z zone : ImbalanceZone D) (signal : SignalEvent D) (reg : Registry D)
      (o : Option (List (ImbalanceZone D)))
      → OnSome (λ zones'. get_elem? zones' i ≡ some z) o
      → get_elem? reg.zones i ≡ some z
      → get_elem? (add_zone zone signal reg o).zones i ≡ some z
  add_zone-get_elem? i z zone signal reg none _ e = get_elem?-append reg.zones (zone ∷ []) i z e
  add_zone-get_elem? i z zone signal reg (some zones) q _ = q

  form_zone-get_elem? :
      (i : ℕ) (z : ImbalanceZone D)
      → z.is_active ≡ false
      → (config : ImbalanceConfig D) (ids : ℕ → ℕ) (bar_id : Option BarId) (bar_close_ts now : ℤ)
        (s : Streak D) (reg : Registry D)
      → leb_ℤ config.stacked_min_count (pos s.streak) ≡ true
      → get_elem? reg.zones i ≡ some z
      → get_elem? (form_zone config ids bar_id bar_close_ts now s reg).zones i ≡ some z
  unfolding form_zone
  form_zone-get_elem? i z off config ids bar_id bar_close_ts now s reg _ e =
      add_zone-get_elem? i z _ _ reg _ (extend_first-get_elem? s bar_close_ts reg.zones i z off e) e

  detect_stacked-get_elem? :
      (i : ℕ) (z : ImbalanceZone D)
      → z.is_active ≡ false
      → (config : ImbalanceConfig D) (ids : ℕ → ℕ) (bar_id : Option BarId) (bar_close_ts now : ℤ)
        (levels : List (PriceLevelRecord D)) (zones : List (ImbalanceZone D))
      → get_elem? zones i ≡ some z
      → get_elem? (detect_stacked config ids bar_id bar_close_ts now levels zones).0 i ≡ some z
  unfolding detect_stacked
  detect_stacked-get_elem? i z off config ids bar_id bar_close_ts now levels zones e =
      let P : Registry D → Type 0 = λ reg. get_elem? reg.zones i ≡ some z in
      let form = form_zone config ids bar_id bar_close_ts now in
      let step = form_zone-get_elem? i z off config ids bar_id bar_close_ts now in
      scan-preserves config form P step false levels _ _ _ _
        (scan-preserves config form P step true levels _ _ _ _ e)

  update_zone_inactive :
      (bar : BarRecord D) (tolerance : D) (z : ImbalanceZone D)
      → z.is_active ≡ false
      → update_zone bar tolerance z ≡ z
  unfolding update_zone
  update_zone_inactive bar tolerance z off = split z.is_active _ off
    where
      split :
          (on : Bool) (further : ImbalanceZone D) → on ≡ false → (if not on then z else further) ≡ z
      split true further off' = absurd (false≢true (sym off'))
      split false further off' = refl

  update_zone_registry-get_elem? :
      (bar : BarRecord D) (tick_size : D) (zones : List (ImbalanceZone D)) (i : ℕ)
      (z : ImbalanceZone D)
      → z.is_active ≡ false
      → get_elem? zones i ≡ some z
      → get_elem? (update_zone_registry zones bar tick_size) i ≡ some z
  unfolding update_zone_registry
  update_zone_registry-get_elem? bar tick_size [] i z off e = absurd (none-ne-some z e)
  update_zone_registry-get_elem? bar tick_size (y ∷ ys) zero z off e =
      let same = some-injective y z e in
      ap some (update_zone_inactive bar _ y (ap (λ x. x.is_active) same ∙ off) ∙ same)
  update_zone_registry-get_elem? bar tick_size (y ∷ ys) (suc i) z off e =
      update_zone_registry-get_elem? bar tick_size ys i z off e

  -- A resolved zone stays as it is, at its place, through detect_all.
  pub detect_all-resolved :
      (config : ImbalanceConfig D) (ids : ℕ → ℕ) (now : ℤ) (bar : BarRecord D)
      (active_zones : List (ImbalanceZone D)) (tick_size : D) (i : ℕ) (z : ImbalanceZone D)
      → z.is_active ≡ false
      → get_elem? active_zones i ≡ some z
      → let (_, _, zones) = detect_all config ids now bar active_zones tick_size in
        get_elem? zones i ≡ some z
  unfolding detect_all
  detect_all-resolved config ids now bar active_zones tick_size i z off e =
      update_zone_registry-get_elem? _ tick_size _ i z off (
        detect_stacked-get_elem? i z off config ids bar.bar_id bar.bar_close_ts_ns now _
          active_zones e)
