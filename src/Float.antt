-- ===== src/Float.antt =====
-- What the code does with `double` and `float`: an abstract type with the operations of the
-- language, and the part of IEEE 754 that proofs rely on as named laws.
pub mod Fixed
pub mod Order
use rudra_org.Common.Int.{ℤ}
use rudra_org.Common.{
  ℕ, ◌*◌, ◌^◌, ◌≤◌, ◌<◌, ◌≡◌, ◌⊎◌, Bool, true, false, not, ◌||◌, if◌then◌else◌, arith,
}

pub record Double (D : Type 0) : Type 0 where
  -- `literal m e` is the constant m * 10^(-e), and `of_nat n` is `static_cast<double>(n)`.
  pub literal : ℕ → ℕ → D
  pub of_nat : ℕ → D
  pub add : D → D → D
  pub sub : D → D → D
  pub mul : D → D → D
  pub div : D → D → D
  pub neg : D → D
  pub fabs : D → D
  pub sqrt : D → D
  pub round : D → D
  -- `static_cast<int64_t>` of a number.
  pub truncate : D → ℤ
  pub lt : D → D → Bool
  pub le : D → D → Bool
  pub eq : D → D → Bool

-- The operators `+ - * /` and `< <= ==`; `a > b` is written `b <? a`.
module _ {D : Type 0} ⦃d : Double D⦄ where
  infixl 65 ◌⊕◌ ◌⊖◌
  infixl 70 ◌⊗◌ ◌⊘◌
  infix 50 ◌<?◌ ◌≤?◌ ◌=?◌
  infix 4 ◌≼◌
  abbrev pub ◌⊕◌ : D → D → D
  ◌⊕◌ = d.add

  abbrev pub ◌⊖◌ : D → D → D
  ◌⊖◌ = d.sub

  abbrev pub ◌⊗◌ : D → D → D
  ◌⊗◌ = d.mul

  abbrev pub ◌⊘◌ : D → D → D
  ◌⊘◌ = d.div

  abbrev pub ◌<?◌ : D → D → Bool
  ◌<?◌ = d.lt

  abbrev pub ◌≤?◌ : D → D → Bool
  ◌≤?◌ = d.le

  abbrev pub ◌=?◌ : D → D → Bool
  ◌=?◌ = d.eq

  abbrev pub ◌≼◌ : D → D → Type 0
  x ≼ y = d.le x y ≡ true

  -- `std::max`, `std::min` and `std::clamp` return the first argument on a tie or a NaN.
  unfoldable pub fmax : D → D → D
  fmax a b = if a <? b then b else a

  unfoldable pub fmin : D → D → D
  fmin a b = if b <? a then b else a

  unfoldable pub clamp : D → D → D → D
  clamp v lo hi = if v <? lo then lo else if hi <? v then hi else v

-- The constants that the code writes as 0.0 and 1.0.
abbrev pub zero_D : {D : Type 0} ⦃d : Double D⦄ → D
zero_D ⦃d⦄ = d.literal 0 0

-- IEEE comparisons: NaN is the value that is not `<=` itself, every comparison with it is false,
-- and the other values are totally ordered.
pub record IsOrdered (D : Type 0) ⦃d : Double D⦄ : Type 0 where
  pub refl_of_le : (x y : D) → x ≼ y → (x ≼ x) × (y ≼ y)
  pub le_trans : (x y z : D) → x ≼ y → y ≼ z → x ≼ z
  pub le_total : (x y : D) → x ≼ x → y ≼ y → (x ≼ y) ⊎ (y ≼ x)
  pub lt-eq-not-le : (x y : D) → x ≼ x → y ≼ y → (x <? y) ≡ not (y ≤? x)
  pub refl_of_lt : (x y : D) → (x <? y) ≡ true → (x ≼ x) × (y ≼ y)
  pub eq_of_num : (x y : D) → x ≼ y → y ≼ x → (x =? y) ≡ true
  pub le_of_eq : (x y : D) → (x =? y) ≡ true → (x ≼ y) × (y ≼ x)
  pub literal_mono : (m e n f : ℕ) → m * 10 ^ f ≤ n * 10 ^ e → d.literal m e ≼ d.literal n f
  pub div-le-one : (a b : ℕ) → 1 ≤ b → a ≤ b → (d.of_nat a ⊘ d.of_nat b) ≼ d.literal 1 0
  pub of_nat_num : (n : ℕ) → d.of_nat n ≼ d.of_nat n

-- IEEE signs, and that decimals of at most three places up to 1000 are told apart.
pub record IsPrecise (D : Type 0) ⦃d : Double D⦄ : Type 0 where
  pub neg-num : (x : D) → x ≼ x → d.neg x ≼ d.neg x
  pub lt-neg-neg : (x y : D) → (d.neg x <? d.neg y) ≡ (y <? x)
  pub neg-zero : zero_D ≼ d.neg zero_D
  pub zero-neg : d.neg zero_D ≼ zero_D
  pub literal_lt :
      (m e n f : ℕ)
      → m ≤ 1000
      → n ≤ 1000
      → e ≤ 3
      → f ≤ 3
      → m * 10 ^ f < n * 10 ^ e
      → (d.literal m e <? d.literal n f) ≡ true
