-- ===== src/Float/Fixed.antt =====
-- A concrete type of numbers that meets the laws: whole multiples of 10^(-9), with exact sums.
use native.Mathlib.Nat.{
  one-le-pow, div-mul-le_self, mul-le-mul_right, le-div_iff_mul-le, le_of_mul-le-mul_right,
}
use native.Mathlib.Decide.{dec_lt}
use rudra_org.Common.{
  ℕ, zero, suc, ◌+◌, ◌*◌, ◌/◌, ◌^◌, ◌≤◌, ◌<◌, ◌≡◌, ap, arith, leb, if◌then◌else◌,
}
use rudra_org.Common.Int.{ℤ, pos, negsuc, pos_part, neg_part, sub_ℕ, ltb_ℤ, leb_ℤ, eqb_ℤ}
use rudra_org.Float.{Double, IsOrdered, IsPrecise}

abbrev pub Fixed : Type 0
Fixed = ℤ

abbrev pub unit : ℕ
unit = 10 ^ 9

abbrev negative : ℤ → ℤ
negative a = sub_ℕ (neg_part a) (pos_part a)

abbrev magnitude : ℤ → ℕ
magnitude a = pos_part a + neg_part a

-- A result of the given magnitude, with the sign of a product or a quotient.
abbrev signed : ℤ → ℤ → ℕ → ℤ
signed (pos _) (pos _) n = pos n
signed (negsuc _) (negsuc _) n = pos n
signed (pos _) (negsuc _) n = sub_ℕ 0 n
signed (negsuc _) (pos _) n = sub_ℕ 0 n

abbrev square_root_from : ℕ → ℕ → ℕ → ℕ
square_root_from n zero best = best
square_root_from n (suc bits) best =
    let next : ℕ = best + 2 ^ bits in
    square_root_from n bits (if leb (next * next) n then next else best)

abbrev round_half_away : ℕ → ℕ
round_half_away n = (n + unit / 2) / unit * unit

instance abbrev pub fixed_double : Double Fixed
fixed_double = record {
  literal = λ m e. pos (m * unit / 10 ^ e);
  of_nat = λ n. pos (n * unit);
  add = λ a b. sub_ℕ (pos_part a + pos_part b) (neg_part a + neg_part b);
  sub = λ a b. sub_ℕ (pos_part a + neg_part b) (neg_part a + pos_part b);
  mul = λ a b. signed a b (magnitude a * magnitude b / unit);
  div = λ a b. signed a b (magnitude a * unit / magnitude b);
  neg = negative;
  fabs = λ a. pos (magnitude a);
  sqrt = λ a. pos (square_root_from (pos_part a * unit) 64 0);
  round = λ a. signed a (pos 0) (round_half_away (magnitude a));
  truncate = λ a. signed a (pos 0) (magnitude a / unit);
  lt = ltb_ℤ;
  le = leb_ℤ;
  eq = eqb_ℤ;
}

literal-le : (m e n f : ℕ) → m * 10 ^ f ≤ n * 10 ^ e → m * unit / 10 ^ e ≤ n * unit / 10 ^ f
literal-le m e n f h =
    let whole : ℕ = m * unit / 10 ^ e in
    let pe : 0 < 10 ^ e = one-le-pow e 10 (omega arith) in
    let pf : 0 < 10 ^ f = one-le-pow f 10 (omega arith) in
    let below : whole * 10 ^ e ≤ m * unit = div-mul-le_self (m * unit) (10 ^ e) in
    let scaled : whole * 10 ^ e * 10 ^ f ≤ m * unit * 10 ^ f = mul-le-mul_right (10 ^ f) below in
    let crossed : m * 10 ^ f * unit ≤ n * 10 ^ e * unit = mul-le-mul_right unit h in
    let both : whole * 10 ^ f * 10 ^ e ≤ n * unit * 10 ^ e = omega arith in
    (le-div_iff_mul-le pf).1 (le_of_mul-le-mul_right both pe)

ratio-le : (a b : ℕ) → 1 ≤ b → a ≤ b → (a * unit + 0) * unit / (b * unit + 0) ≤ unit
ratio-le a b some_b h =
    let bottom : ℕ = b * unit + 0 in
    let whole : ℕ = (a * unit + 0) * unit / bottom in
    let below : whole * bottom ≤ (a * unit + 0) * unit =
      div-mul-le_self ((a * unit + 0) * unit) bottom in
    let both : whole * bottom ≤ unit * bottom = omega arith in
    le_of_mul-le-mul_right both (omega arith)

pub Fixed-IsOrdered : IsOrdered Fixed
Fixed-IsOrdered = record {
  refl_of_le = λ x y h. ground arith;
  le_trans = λ x y z h k. ground arith;
  le_total = λ x y h k. ground arith;
  lt-eq-not-le = λ x y h k. ground arith;
  refl_of_lt = λ x y h. ground arith;
  eq_of_num = λ x y h k. ground arith;
  le_of_eq = λ x y h. ground arith;
  literal_mono = λ m e n f h. ground (arith, literal-le m e n f h);
  div-le-one = λ a b some_b h. ground (arith, ratio-le a b some_b h);
  of_nat_num = λ n. ground arith;
}

literal_exact : (m e : ℕ) → e ≤ 3 → m * unit / 10 ^ e * 10 ^ e ≡ m * unit
literal_exact m zero h = omega arith
literal_exact m (suc zero) h = omega arith
literal_exact m (suc (suc zero)) h = omega arith
literal_exact m (suc (suc (suc zero))) h = omega arith
literal_exact m (suc (suc (suc (suc e)))) h = absurd (omega arith)

literal-lt :
    (m e n f : ℕ) → e ≤ 3 → f ≤ 3 → m * 10 ^ f < n * 10 ^ e → m * unit / 10 ^ e < n * unit / 10 ^ f
literal-lt m e n f he hf h =
    let left : ℕ = m * unit / 10 ^ e in
    let right : ℕ = n * unit / 10 ^ f in
    elim (dec_lt left right) [
      | yes p ↦ p
      | no p ↦
          let below : right * 10 ^ f * 10 ^ e ≤ left * 10 ^ f * 10 ^ e =
            mul-le-mul_right (10 ^ e) (mul-le-mul_right (10 ^ f) (omega arith)) in
          let apart : suc (m * 10 ^ f) * unit ≤ n * 10 ^ e * unit = mul-le-mul_right unit h in
          absurd (
            omega (
              arith,
              ap (λ (t : ℕ). t * 10 ^ f) (literal_exact m e he),
              ap (λ (t : ℕ). t * 10 ^ e) (literal_exact n f hf),
            ))
    ]

pub Fixed-IsPrecise : IsPrecise Fixed
Fixed-IsPrecise = record {
  neg-num = λ x h. ground arith;
  lt-neg-neg = λ x y. ground arith;
  neg-zero = ground arith;
  zero-neg = ground arith;
  literal_lt = λ m e n f hm hn he hf h. ground (arith, literal-lt m e n f he hf h);
}
