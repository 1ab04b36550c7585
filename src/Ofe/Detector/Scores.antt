-- ===== src/Ofe/Detector/Scores.antt =====
-- The ranges of the scores of include/ofe/analytics/signal_detector.h.
use rudra_org.Common.{
  ℕ, ◌≡◌, refl, arith, ◌∙◌, ◌⊎◌, inl, inr, Bool-cases, Bool, true, false, if◌then◌else◌,
}
use rudra_org.Float.{Double, IsOrdered, IsPrecise, zero_D, clamp, ◌≼◌, ◌≤?◌}
use rudra_org.Float.Order.{clamp_num, lt→le}
use rudra_org.Ofe.LeeReady.{TradeDirection, unknown, buy, sell}
use rudra_org.Ofe.Detector.{direction_score, Reading, one, minus_one, half, score, evaluate}

module _ {D : Type 0} ⦃d : Double D⦄ where
  abbrev pub Between : D → D → D → Type 0
  Between lo x hi = (lo ≼ x) × (x ≼ hi)

module _ {D : Type 0} ⦃d : Double D⦄ (laws : IsOrdered D) (precise : IsPrecise D) where
  literal_order :
      Between {D = D} zero_D half one
      × Between {D = D} minus_one zero_D one
      × (minus_one {D = D} ≼ one)
  literal_order =
      let positive =
        precise.literal_lt 0 0 1 0 (omega arith) (omega arith) (omega arith) (omega arith)
          (omega arith) in
      let below =
        laws.le_trans minus_one (d.neg zero_D) zero_D
          (lt→le laws (minus_one {D = D}) (d.neg zero_D) (precise.lt-neg-neg one zero_D ∙ positive))
          precise.zero-neg in
      let above = lt→le laws zero_D one positive in
      (
        (laws.literal_mono 0 0 5 1 (omega arith), laws.literal_mono 5 1 1 0 (omega arith)),
        (below, above),
        laws.le_trans minus_one zero_D one below above,
      )

  direction_score_bounds :
      (way : TradeDirection) → Between {D = D} minus_one (direction_score way) one
  direction_score_bounds buy = (literal_order.2, (laws.refl_of_le zero_D one literal_order.1.1).1)
  direction_score_bounds sell = ((laws.refl_of_le minus_one one literal_order.2).0, literal_order.2)
  direction_score_bounds unknown = literal_order.1

  sweep_bounds :
      (absorption stacked : Bool)
      → Between {D = D} zero_D (if absorption then one else if stacked then half else zero_D) one
  sweep_bounds true stacked = (literal_order.1.1, (laws.refl_of_le zero_D one literal_order.1.1).1)
  sweep_bounds false true = literal_order.0
  sweep_bounds false false = ((laws.refl_of_le zero_D one literal_order.1.1).0, literal_order.1.1)

  -- A clamped number lies between the bounds, unless it is a NaN.
  clamped :
      (x lo hi : D)
      → lo ≼ hi
      → ((clamp x lo hi ≤? clamp x lo hi) ≡ false) ⊎ Between lo (clamp x lo hi) hi
  clamped x lo hi ordered = elim (Bool-cases (clamp x lo hi ≤? clamp x lo hi)) [
    | inl num ↦ inr (clamp_num laws x lo hi ordered num)
    | inr nan ↦ inl nan
  ]

  -- Under the laws of the number type, in every signal the cot score lies between -1 and 1 and the
  -- sweep score between 0 and 1, and the confidence is the strength. Each of the pulse score and the
  -- turn score is a NaN or lies between -1 and 1; the strength is a NaN or lies between 0 and 1.
  pub evaluate_bounds :
      (timestamp_ns symbol_id : ℕ) (r : Reading D)
      → let event = evaluate timestamp_ns symbol_id r in
        Between minus_one event.cot_score one
        × Between zero_D event.sweep_score one
        × (event.confidence ≡ event.strength)
        × (((event.pulse_score ≤? event.pulse_score) ≡ false)
            ⊎ Between minus_one event.pulse_score one)
        × (((event.turn_score ≤? event.turn_score) ≡ false)
            ⊎ Between minus_one event.turn_score one)
        × (((event.strength ≤? event.strength) ≡ false) ⊎ Between zero_D event.strength one)
  unfolding evaluate score
  evaluate_bounds timestamp_ns symbol_id r = (
    direction_score_bounds r.direction,
    sweep_bounds r.imbalance.absorption r.imbalance.stacked,
    refl,
    clamped _ minus_one one literal_order.2,
    clamped _ minus_one one literal_order.2,
    clamped _ zero_D one literal_order.1.1,
  )
