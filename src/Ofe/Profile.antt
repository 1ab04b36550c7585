-- ===== src/Ofe/Profile.antt =====
-- include/ofe/analytics/volume_profile.h: volume by price, the point of control and the value area.
pub mod Poc
pub mod ValueArea
pub mod Sorted
mod Tests
use rudra_org.Common.{
  ℕ, zero, suc, ◌+◌, Bool, true, false, not, ◌&&◌, ◌||◌, List, [], ◌∷◌, length, if◌then◌else◌,
}
use rudra_org.Float.{Double, zero_D, ◌⊕◌, ◌⊗◌, ◌<?◌, ◌=?◌}

pub record VolumeProfileSnapshot (D : Type 0) : Type 0 where
  pub poc_price : D
  pub value_area_low : D
  pub value_area_high : D
  pub total_volume : D
  pub poc_volume : D

-- An entry of `volume_by_price_`, whose entries stand in the order of their prices.
pub record Level (D : Type 0) : Type 0 where
  pub price : D
  pub volume : D

-- An iterator of the map at an entry: the entries before it, the nearest first, and those after it.
pub record Cursor (D : Type 0) : Type 0 where
  pub before : List (Level D)
  pub here : Level D
  pub after : List (Level D)

abbrev pub is_empty : {D : Type 0} → List (Level D) → Bool
is_empty [] = true
is_empty (l ∷ ls) = false

-- `std::prev` and `std::next`; the code takes neither past an end.
abbrev pub prev_from : {D : Type 0} → Cursor D → List (Level D) → Cursor D
prev_from it [] = it
prev_from it (l ∷ ls) = record { before = ls; here = l; after = it.here ∷ it.after }

abbrev pub prev : {D : Type 0} → Cursor D → Cursor D
prev it = prev_from it it.before

abbrev pub next_from : {D : Type 0} → Cursor D → List (Level D) → Cursor D
next_from it [] = it
next_from it (l ∷ ls) = record { before = it.here ∷ it.before; here = l; after = ls }

abbrev pub next : {D : Type 0} → Cursor D → Cursor D
next it = next_from it it.after

-- The variables of the loop.
pub record Area (D : Type 0) : Type 0 where
  pub left : Cursor D
  pub right : Cursor D
  pub accumulated : D
  pub value_area_low : D
  pub value_area_high : D

module _ {D : Type 0} ⦃d : Double D⦄ where
  unfoldable pub reset : List (Level D)
  reset = []

  unfoldable pub add : List (Level D) → D → D → List (Level D)
  add [] price volume = record { price = price; volume = zero_D ⊕ volume } ∷ []
  add (l ∷ ls) price volume =
      let further = add ls price volume in
      if l.price <? price
      then l ∷ further
      else if price <? l.price
      then record { price = price; volume = zero_D ⊕ volume } ∷ l ∷ ls
      else record { price = l.price; volume = l.volume ⊕ volume } ∷ ls

  -- The comparator: less volume, or as much volume at a higher price.
  unfoldable pub less : Level D → Level D → Bool
  less left right =
      if not (left.volume =? right.volume)
      then left.volume <? right.volume
      else right.price <? left.price

  abbrev pub larger : Cursor D → List (Level D) → Level D → List (Level D) → Bool → Cursor D
  larger largest before l ls true = record { before = before; here = l; after = ls }
  larger largest before l ls false = largest

  -- `std::max_element`, from an iterator with the given entries before and after it.
  unfoldable pub max_element : Cursor D → List (Level D) → List (Level D) → Cursor D
  max_element largest before [] = largest
  max_element largest before (l ∷ ls) =
      max_element (larger largest before l ls (less largest.here l)) (l ∷ before) ls

  abbrev pub sum_volume : D → List (Level D) → D
  sum_volume total [] = total
  sum_volume total (l ∷ ls) = sum_volume (total ⊕ l.volume) ls

  abbrev pub volume_or : List (Level D) → D → D
  volume_or [] missing = missing
  volume_or (l ∷ ls) missing = l.volume

  unfoldable pub move_left : Area D → Area D
  move_left a =
      let left = prev a.left in
      record a {
        left = left;
        accumulated = a.accumulated ⊕ left.here.volume;
        value_area_low = left.here.price;
      }

  unfoldable pub move_right : Area D → Area D
  move_right a =
      let right = next a.right in
      record a {
        right = right;
        accumulated = a.accumulated ⊕ right.here.volume;
        value_area_high = right.here.price;
      }

  -- The body of the loop.
  unfoldable pub widen : Area D → Area D
  widen a =
      let can_move_left = not (is_empty a.left.before) in
      let can_move_right = not (is_empty a.right.after) in
      let left_volume = volume_or a.left.before (d.neg (d.literal 1 0)) in
      let right_volume = volume_or a.right.after (d.neg (d.literal 1 0)) in
      if can_move_left && (not can_move_right || right_volume <? left_volume)
      then move_left a
      else if can_move_right && (not can_move_left || left_volume <? right_volume)
      then move_right a
      else let a' = if can_move_left then move_left a else a in
        if can_move_right then move_right a' else a'

  unfoldable pub goes_on : D → Area D → Bool
  goes_on target a =
      (a.accumulated <? target) && (not (is_empty a.left.before) || not (is_empty a.right.after))

  -- The loop, on fuel.
  unfoldable pub value_area : ℕ → D → Area D → Area D
  value_area zero target a = a
  value_area (suc n) target a =
      let rest = value_area n target (widen a) in if goes_on target a then rest else a

  -- Every round takes an entry, so the number of the entries is fuel enough.
  abbrev pub fuel_for : Area D → ℕ
  fuel_for a = length a.left.before + length a.right.after

  abbrev pub start_area : Cursor D → Area D
  start_area poc = record {
    left = poc;
    right = poc;
    accumulated = poc.here.volume;
    value_area_low = poc.here.price;
    value_area_high = poc.here.price;
  }

  unfoldable pub snapshot_from : Level D → List (Level D) → D → VolumeProfileSnapshot D
  snapshot_from l ls value_area_ratio =
      let poc = max_element (record { before = []; here = l; after = ls }) (l ∷ []) ls in
      let total_volume = sum_volume zero_D (l ∷ ls) in
      let start = start_area poc in
      let area = value_area (fuel_for start) (total_volume ⊗ value_area_ratio) start in
      record {
        poc_price = poc.here.price;
        value_area_low = area.value_area_low;
        value_area_high = area.value_area_high;
        total_volume = total_volume;
        poc_volume = poc.here.volume;
      }

  unfoldable pub snapshot : List (Level D) → D → VolumeProfileSnapshot D
  snapshot [] value_area_ratio = record {
    poc_price = zero_D;
    value_area_low = zero_D;
    value_area_high = zero_D;
    total_volume = zero_D;
    poc_volume = zero_D;
  }
  snapshot (l ∷ ls) value_area_ratio = snapshot_from l ls value_area_ratio
