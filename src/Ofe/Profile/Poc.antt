-- ===== src/Ofe/Profile/Poc.antt =====
-- The point of control of include/ofe/analytics/volume_profile.h.
use rudra_org.Common.{
  ◌≡◌, refl, Bool, true, false, Bool-cases, inl, inr, ◌⊎◌, List, [], ◌∷◌, arith, All,
}
use rudra_org.Float.{Double, IsOrdered, ◌≼◌, ◌<?◌, ◌≤?◌}
use rudra_org.Ofe.Profile.{Level, Cursor, less, larger, max_element, snapshot, snapshot_from}

-- The entries of the map, read off an iterator.
abbrev pub entries_from : {D : Type 0} → List (Level D) → List (Level D) → List (Level D)
entries_from [] after = after
entries_from (l ∷ before) after = entries_from before (l ∷ after)

module _ {D : Type 0} ⦃d : Double D⦄ where
  -- No entry has more volume, and none with as much volume has a lower price.
  abbrev pub Beats : Level D → Level D → Type 0
  Beats best l = (l.volume ≼ best.volume) × (best.volume ≼ l.volume → best.price ≼ l.price)

  abbrev pub HasNumbers : Level D → Type 0
  HasNumbers l = (l.volume ≼ l.volume) × (l.price ≼ l.price)

  module _ (laws : IsOrdered D) where
    open laws use {lt-eq-not-le, le_total, le_trans, eq_of_num, le_of_eq}

    less-Beats :
        (best l : Level D) → HasNumbers best → HasNumbers l → less best l ≡ true → Beats l best
    unfolding less
    less-Beats best l (hv, hp) (kv, kp) e =
        let eq_le = le_of_eq best.volume l.volume in
        let lt_v = lt-eq-not-le best.volume l.volume hv kv in
        let lt_p = lt-eq-not-le l.price best.price kp hp in
        let total_v = le_total best.volume l.volume hv kv in
        let total_p = le_total l.price best.price kp hp in
        (ground arith, λ h. ground (arith, eq_of_num best.volume l.volume))

    not_less-Beats :
        (best l : Level D) → HasNumbers best → HasNumbers l → less best l ≡ false → Beats best l
    unfolding less
    not_less-Beats best l (hv, hp) (kv, kp) e =
        let eq_le = le_of_eq best.volume l.volume in
        let lt_v = lt-eq-not-le best.volume l.volume hv kv in
        let lt_p = lt-eq-not-le l.price best.price kp hp in
        let total_v = le_total best.volume l.volume hv kv in
        let total_p = le_total l.price best.price kp hp in
        (ground arith, λ h. ground (arith, eq_of_num best.volume l.volume))

    Beats-trans : (a b c : Level D) → Beats a b → Beats b c → Beats a c
    Beats-trans a b c (v, p) (w, q) =
        (le_trans _ _ _ w v, λ h. le_trans _ _ _ (p (le_trans _ _ _ h w)) (q (le_trans _ _ _ v h)))

    All-Beats :
        (a b : Level D) (ls : List (Level D)) → Beats a b → All (Beats b) ls → All (Beats a) ls
    All-Beats a b [] h hs = tt
    All-Beats a b (l ∷ ls) h (k, ks) = (Beats-trans a b l h k, All-Beats a b ls h ks)

    Beats-self : (l : Level D) → HasNumbers l → Beats l l
    Beats-self l (hv, hp) = (hv, λ h. hp)

    -- What holds of the largest entry so far, and of the next choice.
    abbrev IsLargest : Cursor D → List (Level D) → Type 0
    IsLargest it seen = HasNumbers it.here × All (Beats it.here) seen

    larger-IsLargest :
        (largest : Cursor D) (before : List (Level D)) (l : Level D) (ls : List (Level D))
        (b : Bool)
        → less largest.here l ≡ b
        → IsLargest largest before
        → HasNumbers l
        → IsLargest (larger largest before l ls b) (l ∷ before)
    larger-IsLargest largest before l ls true e (h, hs) k =
        let over = less-Beats largest.here l h k e in
        (k, (Beats-self l k, All-Beats l largest.here before over hs))
    larger-IsLargest largest before l ls false e (h, hs) k =
        (h, (not_less-Beats largest.here l h k e, hs))

    max_element-IsLargest :
        (largest : Cursor D) (before ls : List (Level D))
        → IsLargest largest before
        → All HasNumbers ls
        → All (Beats (max_element largest before ls).here) before
          × All (Beats (max_element largest before ls).here) ls
    unfolding max_element
    max_element-IsLargest largest before [] (h, hs) ks = (hs, tt)
    max_element-IsLargest largest before (l ∷ ls) v (k, ks) =
        let ((first, seen), rest) =
          max_element-IsLargest (larger largest before l ls (less largest.here l)) (l ∷ before) ls
            (larger-IsLargest largest before l ls _ refl v k) ks in
        (seen, (first, rest))

  abbrev pub entries : Cursor D → List (Level D)
  entries it = entries_from it.before (it.here ∷ it.after)

  larger-entries :
      (largest : Cursor D) (before : List (Level D)) (l : Level D) (ls : List (Level D)) (b : Bool)
      → entries largest ≡ entries_from before (l ∷ ls)
      → entries (larger largest before l ls b) ≡ entries_from before (l ∷ ls)
  larger-entries largest before l ls true e = refl
  larger-entries largest before l ls false e = e

  pub max_element-entries :
      (largest : Cursor D) (before ls : List (Level D))
      → entries largest ≡ entries_from before ls
      → entries (max_element largest before ls) ≡ entries_from before ls
  unfolding max_element
  max_element-entries largest before [] e = e
  max_element-entries largest before (l ∷ ls) e =
      max_element-entries (larger largest before l ls (less largest.here l)) (l ∷ before) ls
        (larger-entries largest before l ls (less largest.here l) e)

  -- No entry has more volume, and one with as much has no lower price.
  abbrev pub IsBest : Level D → Level D → Type 0
  IsBest best l =
      (l.volume ≼ best.volume) × (((l.volume <? best.volume) ≡ true) ⊎ (best.price ≼ l.price))

  Beats-IsBest :
      (laws : IsOrdered D) (best : Level D) (ls : List (Level D))
      → best.volume ≼ best.volume
      → All HasNumbers ls
      → All (Beats best) ls
      → All (IsBest best) ls
  Beats-IsBest laws best [] h ks bs = tt
  Beats-IsBest laws best (l ∷ ls) h (k, ks) ((most, low), bs) =
      let lt_v = laws.lt-eq-not-le l.volume best.volume k.0 h in
      (
        (
          most,
          elim (Bool-cases (best.volume ≤? l.volume)) [
            | inl e ↦ inr (low e)
            | inr e ↦ inl (rw (lt_v, e) refl)
          ],
        ),
        Beats-IsBest laws best ls h ks bs,
      )

  -- On a profile with entries, whose prices and volumes are no NaN, the point of control is an entry
  -- of the profile: no entry has more volume, and none with as much volume has a lower price.
  pub snapshot_poc :
      (laws : IsOrdered D) (l : Level D) (ls : List (Level D)) (ratio : D)
      → All HasNumbers (l ∷ ls)
      → let result = snapshot (l ∷ ls) ratio in
        (poc : Cursor D) × (entries poc ≡ l ∷ ls)
        × (result.poc_price ≡ poc.here.price)
        × (result.poc_volume ≡ poc.here.volume)
        × All (IsBest poc.here) (l ∷ ls)
  unfolding snapshot snapshot_from
  snapshot_poc laws l ls ratio (h, hs) =
      let first : Cursor D = record { before = []; here = l; after = ls } in
      let poc = max_element first (l ∷ []) ls in
      let ((beats, _), rest) =
        max_element-IsLargest laws first (l ∷ []) ls (h, (Beats-self laws l h, tt)) hs in
      (
        poc,
        max_element-entries first (l ∷ []) ls refl,
        refl,
        refl,
        Beats-IsBest laws poc.here (l ∷ ls) (laws.refl_of_le _ _ beats.0).1 (h, hs) (beats, rest),
      )
