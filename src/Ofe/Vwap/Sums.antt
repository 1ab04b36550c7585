-- ===== src/Ofe/Vwap/Sums.antt =====
-- The sums of include/ofe/analytics/vwap_engine.h over a history of calls.
use rudra_org.Common.{
  ◌≡◌, refl, ap, ap₂, sym, ◌∙◌, Bool, true, false, Bool-cases, inl, inr, not, List, [], ◌∷◌, foldl,
  foldl-append, ◌++◌, if◌then◌else◌, select, select-append,
}
use rudra_org.Float.{Double, zero_D, ◌⊕◌, ◌⊗◌, ◌≤?◌}
use rudra_org.Ofe.Vwap.{VwapEngine, Call, reset_call, add_call, reset, add, run, snapshot}

-- A trade that the engine takes into account.
pub record Trade (D : Type 0) : Type 0 where
  pub price : D
  pub volume : D

module _ {D : Type 0} ⦃d : Double D⦄ where
  abbrev counts : Trade D → Bool
  counts t = not (t.volume ≤? zero_D)

  -- The trades after the last reset, given those before the calls.
  abbrev pub since_reset : List (Trade D) → List (Call D) → List (Trade D)
  since_reset ts [] = ts
  since_reset ts (reset_call ∷ cs) = since_reset [] cs
  since_reset ts (add_call price volume ∷ cs) =
      since_reset (ts ++ record { price = price; volume = volume } ∷ []) cs

  -- The sum of what `term` makes of the trades whose volume is not 0 or less, in their order.
  abbrev pub total : (Trade D → D) → List (Trade D) → D
  total term ts = foldl (λ sum t. sum ⊕ term t) zero_D (select counts ts)

  abbrev pub sums : List (Trade D) → VwapEngine D
  sums ts = record {
    sum_price_volume = total (λ t. t.price ⊗ t.volume) ts;
    sum_price2_volume = total (λ t. (t.price ⊗ t.price) ⊗ t.volume) ts;
    sum_volume = total (λ t. t.volume) ts;
  }

  total-append :
      (term : Trade D → D) (ts : List (Trade D)) (t : Trade D)
      → total term (ts ++ t ∷ [])
        ≡ (if t.volume ≤? zero_D then total term ts else total term ts ⊕ term t)
  total-append term ts t =
      ap (foldl step zero_D) (select-append counts ts (t ∷ []))
      ∙ foldl-append step (select counts ts) (select counts (t ∷ [])) zero_D
      ∙ last (t.volume ≤? zero_D)
    where
      step : D → Trade D → D
      step sum t' = sum ⊕ term t'

      last :
          (b : Bool)
          → foldl (λ sum t'. sum ⊕ term t') (total term ts) (if not b then t ∷ [] else [])
            ≡ (if b then total term ts else total term ts ⊕ term t)
      last true = refl
      last false = refl

  abbrev engine_of : D → D × D → VwapEngine D
  engine_of pv (p2v, v) = record { sum_price_volume = pv; sum_price2_volume = p2v; sum_volume = v }

  add-sums :
      (ts : List (Trade D)) (t : Trade D) → add t.price t.volume (sums ts) ≡ sums (ts ++ t ∷ [])
  unfolding add
  add-sums ts t =
      split (t.volume ≤? zero_D)
      ∙ sym (
          ap₂ engine_of (total-append (λ t'. t'.price ⊗ t'.volume) ts t) (
            ap₂ (λ a b. (a, b)) (total-append (λ t'. (t'.price ⊗ t'.price) ⊗ t'.volume) ts t)
              (total-append (λ t'. t'.volume) ts t)))
    where
      split :
          (b : Bool)
          → (if b then sums ts else record {
            sum_price_volume = (sums ts).sum_price_volume ⊕ (t.price ⊗ t.volume);
            sum_price2_volume = (sums ts).sum_price2_volume ⊕ ((t.price ⊗ t.price) ⊗ t.volume);
            sum_volume = (sums ts).sum_volume ⊕ t.volume;
          })
            ≡ engine_of
                (if b
                  then (sums ts).sum_price_volume
                  else (sums ts).sum_price_volume ⊕ (t.price ⊗ t.volume))
                (
                  if b
                      then (sums ts).sum_price2_volume
                      else (sums ts).sum_price2_volume ⊕ ((t.price ⊗ t.price) ⊗ t.volume),
                  if b then (sums ts).sum_volume else (sums ts).sum_volume ⊕ t.volume,
                )
      split true = refl
      split false = refl

  run_from :
      (ts : List (Trade D)) (cs : List (Call D)) → run cs (sums ts) ≡ sums (since_reset ts cs)
  unfolding reset
  run_from ts [] = refl
  run_from ts (reset_call ∷ cs) = run_from [] cs
  run_from ts (add_call price volume ∷ cs) =
      ap (run cs) (add-sums ts (record { price = price; volume = volume }))
      ∙ run_from (ts ++ record { price = price; volume = volume } ∷ []) cs

  total_volume-snapshot : (e : VwapEngine D) → (snapshot e).total_volume ≡ e.sum_volume
  unfolding snapshot
  total_volume-snapshot e = elim (Bool-cases (e.sum_volume ≤? zero_D)) [
    | inl empty ↦ rw empty refl
    | inr some_volume ↦ rw some_volume refl
  ]

  -- After any calls on a fresh engine, its three numbers are the sums of price times volume, of the
  -- squared price times volume and of volume over the trades whose volume is not 0 or less since
  -- the last reset, added in their order, and the snapshot's total volume is the last of them.
  pub run-sums :
      (cs : List (Call D))
      → let ts = since_reset [] cs in
        (run cs reset ≡ sums ts)
        × ((snapshot (run cs reset)).total_volume ≡ total (λ t. t.volume) ts)
  unfolding reset
  run-sums cs =
      let same = run_from [] cs in (same, total_volume-snapshot _ ∙ ap (λ e. e.sum_volume) same)
