-- ===== src/Ofe/Detector/Types.antt =====
-- The type that include/ofe/analytics/signal_detector.h gives a signal.
use rudra_org.Common.{ℕ, ◌≡◌, ◌≢◌, ◌∙◌, refl, sym, arith, Bool, true, false, none, if◌then◌else◌}
use rudra_org.Float.{Double, IsOrdered, IsPrecise, zero_D, ◌≼◌, ◌<?◌}
use rudra_org.Float.Order.{lt→le, not-lt_of_le}
use rudra_org.Ofe.LeeReady.{TradeDirection, unknown, buy, sell, QuoteSnapshot, classify}
use rudra_org.Ofe.LeeReady.Table.{IsNumeric, classify-ne-unknown}
use rudra_org.Ofe.Signals.{SignalType}
use rudra_org.Ofe.Detector.{
  Reading, one, minus_one, half, direction_score, score, select_signal_type, evaluate,
}

-- The type where neither pulse nor turns decide.
abbrev pub type_of_direction : TradeDirection → SignalType
type_of_direction buy = SignalType.cot_long
type_of_direction sell = SignalType.cot_short
type_of_direction unknown = SignalType.unknown

module _ {D : Type 0} ⦃d : Double D⦄ where
  -- The type by absorption, then the pulse, then the turns, then the direction of the trade.
  abbrev pub type_of : Bool → (pulse turns : D) → TradeDirection → SignalType
  type_of absorption pulse turns direction =
      if absorption
      then SignalType.sweep_buy
      else if half <? pulse
      then SignalType.pulse_long
      else if pulse <? d.neg half
      then SignalType.pulse_short
      else if half <? turns
      then SignalType.turn_long
      else if turns <? d.neg half
      then SignalType.turn_short
      else type_of_direction direction

module _ {D : Type 0} ⦃d : Double D⦄ (laws : IsOrdered D) (precise : IsPrecise D) where
  open precise use {literal_lt, lt-neg-neg, zero-neg}

  abbrev eight_tenths : D
  eight_tenths = d.literal 8 1

  above_half : (half {D = D} <? one) ≡ true
  above_half =
      literal_lt 5 1 1 0 (omega arith) (omega arith) (omega arith) (omega arith) (omega arith)

  positive_half : (zero_D {D = D} <? half) ≡ true
  positive_half =
      literal_lt 0 0 5 1 (omega arith) (omega arith) (omega arith) (omega arith) (omega arith)

  negative_half : d.neg half ≼ zero_D
  negative_half =
      laws.le_trans (d.neg half) (d.neg zero_D) zero_D
        (lt→le laws (d.neg half) (d.neg zero_D) (lt-neg-neg half zero_D ∙ positive_half)) zero-neg

  minus-le-zero : minus_one {D = D} ≼ zero_D
  minus-le-zero =
      laws.le_trans minus_one (d.neg half) zero_D
        (lt→le laws (minus_one {D = D}) (d.neg half) (lt-neg-neg one half ∙ above_half))
        negative_half

  -- Only an absorption has a sweep score above 0.8.
  sweep-absorption :
      (absorption stacked : Bool)
      → (eight_tenths <? (if absorption then one else if stacked then half else zero_D))
        ≡ absorption
  sweep-absorption true stacked =
      literal_lt 8 1 1 0 (omega arith) (omega arith) (omega arith) (omega arith) (omega arith)
  sweep-absorption false true =
      not-lt_of_le laws eight_tenths half (laws.literal_mono 5 1 8 1 (omega arith))
  sweep-absorption false false =
      not-lt_of_le laws eight_tenths zero_D (laws.literal_mono 0 0 8 1 (omega arith))

  type_of_cot :
      (way : TradeDirection)
      → (if half <? direction_score {D = D} way
          then SignalType.cot_long
          else if direction_score {D = D} way <? d.neg half
          then SignalType.cot_short
          else SignalType.unknown)
        ≡ type_of_direction way
  type_of_cot buy = rw above_half refl
  type_of_cot sell =
      let low =
        laws.le_trans minus_one zero_D half minus-le-zero (lt→le laws zero_D half positive_half) in
      rw (not-lt_of_le laws half minus_one low, lt-neg-neg one half, above_half) refl
  type_of_cot unknown =
      rw
        (
          not-lt_of_le laws half zero_D (lt→le laws zero_D half positive_half),
          not-lt_of_le laws zero_D (d.neg half) negative_half,
        )
        refl

  -- Under the laws of the number type, a signal is a SweepBuy just where there is absorption.
  -- Otherwise the pulse decides, then the turns, each beyond 0.5 or -0.5; where neither does, the
  -- type is that of the trade's direction.
  pub evaluate_type :
      (timestamp_ns symbol_id : ℕ) (r : Reading D)
      → let event = evaluate timestamp_ns symbol_id r in
        event.signal_type
        ≡ type_of r.imbalance.absorption event.pulse_score event.turn_score r.direction
  unfolding evaluate score select_signal_type
  evaluate_type timestamp_ns symbol_id r =
      rw (sweep-absorption r.imbalance.absorption r.imbalance.stacked, type_of_cot r.direction) refl

  type_of-ne-unknown :
      (absorption : Bool) (pulse turns : D) (way : TradeDirection)
      → way ≢ unknown
      → type_of absorption pulse turns way ≢ SignalType.unknown
  type_of-ne-unknown absorption pulse turns buy known = ground arith
  type_of-ne-unknown absorption pulse turns sell known = ground arith
  type_of-ne-unknown absorption pulse turns unknown known = absurd (known refl)

  -- Under the laws of the number type, the signal of a trade that was classified on a quote without
  -- NaN, with no override, always has a type.
  pub evaluate-classify :
      (timestamp_ns symbol_id : ℕ) (r : Reading D) (quote : QuoteSnapshot D)
      → IsNumeric laws quote
      → r.direction ≡ classify quote none
      → (evaluate timestamp_ns symbol_id r).signal_type ≢ SignalType.unknown
  evaluate-classify timestamp_ns symbol_id r quote v same e =
      type_of-ne-unknown r.imbalance.absorption _ _ r.direction
        (λ u. classify-ne-unknown laws quote v (sym same ∙ u))
        (sym (evaluate_type timestamp_ns symbol_id r) ∙ e)
