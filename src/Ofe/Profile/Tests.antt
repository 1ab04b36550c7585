-- ===== src/Ofe/Profile/Tests.antt =====
-- Runs of the volume profile, and its theorems at concrete entries.
use rudra_org.Common.{ℕ, ◌≡◌, ◌*◌, refl, List, [], ◌∷◌, All}
use rudra_org.Common.Int.{pos}
use rudra_org.Float.{◌⊗◌}
use rudra_org.Float.Fixed.{Fixed, fixed_double, Fixed-IsOrdered, unit}
use rudra_org.Ofe.Profile.{
  Level, Cursor, Area, reset, add, less, max_element, move_left, move_right, widen, goes_on,
  value_area, start_area, snapshot_from, snapshot,
}
use rudra_org.Ofe.Profile.Poc.{entries, IsBest, snapshot_poc}
use rudra_org.Ofe.Profile.ValueArea.{last_or, Takes, Stops, snapshot_value_area}

abbrev level : ℕ → ℕ → Level Fixed
level price volume = record { price = pos (price * unit); volume = pos (volume * unit) }

abbrev three_quarters : Fixed
three_quarters = pos 750000000

-- Volumes 1, 5 and 3 at the prices 10, 11 and 12.
abbrev profile : List (Level Fixed)
profile = level 11 5 ∷ level 12 3 ∷ []

profile_by_add :
    add
      (add (add reset (pos (12 * unit)) (pos (3 * unit))) (pos (10 * unit)) (pos unit))
      (pos (11 * unit))
      (pos (5 * unit))
    ≡ level 10 1 ∷ profile
unfolding add reset
profile_by_add = refl

-- The area of 75% reaches from 11 to 12.
area_of_profile : snapshot (level 10 1 ∷ profile) three_quarters ≡ record {
  poc_price = pos (11 * unit);
  value_area_low = pos (11 * unit);
  value_area_high = pos (12 * unit);
  total_volume = pos (9 * unit);
  poc_volume = pos (5 * unit);
}
unfolding snapshot snapshot_from value_area goes_on widen move_left move_right max_element less
area_of_profile = refl

snapshot_poc_example :
    let result = snapshot (level 10 1 ∷ profile) three_quarters in
    (poc : Cursor Fixed) × (entries poc ≡ level 10 1 ∷ profile)
    × (result.poc_price ≡ poc.here.price)
    × (result.poc_volume ≡ poc.here.volume)
    × All (IsBest poc.here) (level 10 1 ∷ profile)
snapshot_poc_example =
    snapshot_poc Fixed-IsOrdered (level 10 1) profile three_quarters
      ((refl, refl), ((refl, refl), ((refl, refl), tt)))

snapshot_value_area_example :
    let result = snapshot (level 10 1 ∷ profile) three_quarters in
    (poc : Cursor Fixed) × (a : Area Fixed) × (entries poc ≡ level 10 1 ∷ profile)
    × (poc.here.price ≡ result.poc_price)
    × (t : Takes (start_area poc) a) × (result.value_area_low ≡ (last_or poc.here t.ls).price)
    × (result.value_area_high ≡ (last_or poc.here t.rs).price)
    × Stops (result.total_volume ⊗ three_quarters) a
snapshot_value_area_example = snapshot_value_area (level 10 1) profile three_quarters
