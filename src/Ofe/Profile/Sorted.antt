-- ===== src/Ofe/Profile/Sorted.antt =====
-- The map of include/ofe/analytics/volume_profile.h keeps its entries in the order of their prices.
use rudra_org.Common.{◌≡◌, refl, Bool, true, false, List, [], ◌∷◌, if◌then◌else◌}
use rudra_org.Float.{Double, zero_D, ◌⊕◌, ◌≼◌, ◌<?◌}
use rudra_org.Ofe.Profile.{Level, add}

module _ {D : Type 0} ⦃d : Double D⦄ where
  abbrev pub Lower : D → List (Level D) → Type 0
  Lower price [] = Unit
  Lower price (l ∷ ls) = (price <? l.price) ≡ true

  -- Each price is lower than the next one.
  abbrev pub IsSorted : List (Level D) → Type 0
  IsSorted [] = Unit
  IsSorted (l ∷ ls) = (l.price ≼ l.price) × Lower l.price ls × IsSorted ls

  add-Lower :
      (low price volume : D) (ls : List (Level D))
      → (low <? price) ≡ true
      → Lower low ls
      → Lower low (add ls price volume)
  unfolding add
  add-Lower low price volume [] h k = h
  add-Lower low price volume (l ∷ ls) h k = split (l.price <? price) (price <? l.price)
    where
      split :
          (b c : Bool)
          → Lower low (
              if b
              then l ∷ add ls price volume
              else if c
              then record { price = price; volume = zero_D ⊕ volume } ∷ l ∷ ls
              else record { price = l.price; volume = l.volume ⊕ volume } ∷ ls)
      split true c = k
      split false true = h
      split false false = k

  -- Adding volume at a price that is no NaN keeps the order.
  add-IsSorted :
      (ls : List (Level D)) (price volume : D)
      → price ≼ price
      → IsSorted ls
      → IsSorted (add ls price volume)
  unfolding add
  add-IsSorted [] price volume num v = (num, tt, tt)
  add-IsSorted (l ∷ ls) price volume num (h, low, v) =
      split (l.price <? price) (price <? l.price) refl refl (add-IsSorted ls price volume num v)
    where
      split :
          (b c : Bool)
          → (l.price <? price) ≡ b
          → (price <? l.price) ≡ c
          → IsSorted (add ls price volume)
          → IsSorted (
              if b
              then l ∷ add ls price volume
              else if c
              then record { price = price; volume = zero_D ⊕ volume } ∷ l ∷ ls
              else record { price = l.price; volume = l.volume ⊕ volume } ∷ ls)
      split true c below above rest = (h, add-Lower l.price price volume ls below low, rest)
      split false true below above rest = (num, above, (h, low, v))
      split false false below above rest = (h, low, v)
