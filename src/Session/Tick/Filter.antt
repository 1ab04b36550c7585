-- ===== src/Session/Tick/Filter.antt =====
-- The condition filter of ofe_session1_code/ofe/src/core/tick_record.cpp.
use rudra_org.Common.{
  ℕ, ◌*◌, ◌/◌, ◌%◌, ◌^◌, ◌<◌, ◌≡◌, refl, Bool, true, false, not, ◌&&◌, ◌||◌, ◌==◌, if◌then◌else◌,
  arith,
}
use rudra_org.Common.Bits.{bit_and-power, two_pow-pos}
use rudra_org.Session.Tick.{has, should_exclude_tick}

-- The binary digit at a place is 1.
abbrev pub digit : ℕ → ℕ → Bool
digit conditions place = conditions / 2 ^ place % 2 == 1

has-power : (conditions place : ℕ) → has conditions (2 ^ place) ≡ digit conditions place
has-power conditions place =
    rw (bit_and-power place conditions) (split (conditions / 2 ^ place % 2) (omega arith))
  where
    split : (b : ℕ) → b < 2 → not (b * 2 ^ place == 0) ≡ (b == 1)
    split ℕ.zero h = ground arith
    split (ℕ.suc ℕ.zero) h = ground (arith, two_pow-pos place)
    split (ℕ.suc (ℕ.suc b)) h = absurd (omega arith)

tests :
    (a b c d rth e f : Bool)
    → (if a
        then true
        else if b
        then true
        else if c
        then true
        else if d
        then true
        else if rth
        then (if e then true else if f then true else false)
        else false)
      ≡ (a || b || c || d || (rth && (e || f)))
tests true b c d rth e f = refl
tests false true c d rth e f = refl
tests false false true d rth e f = refl
tests false false false true rth e f = refl
tests false false false false false e f = refl
tests false false false false true true f = refl
tests false false false false true false true = refl
tests false false false false true false false = refl

-- A tick is excluded just when its conditions, as binary digits, have one of: cancelled (place 5),
-- settlement (7), implied (8), odd lot (2), or, where only regular hours count, extended hours (0)
-- or form T (1).
pub should_exclude_tick_lem :
    (conditions : ℕ) (rth_only : Bool)
    → should_exclude_tick conditions rth_only ≡ (
        digit conditions 5
        || digit conditions 7
        || digit conditions 8
        || digit conditions 2
        || (rth_only && (digit conditions 0 || digit conditions 1)))
unfolding should_exclude_tick
should_exclude_tick_lem conditions rth_only =
    rw
      (
        has-power conditions 5,
        has-power conditions 7,
        has-power conditions 8,
        has-power conditions 2,
        has-power conditions 0,
        has-power conditions 1,
      )
      (tests (digit conditions 5) (digit conditions 7) (digit conditions 8) (digit conditions 2)
        rth_only (digit conditions 0) (digit conditions 1))
