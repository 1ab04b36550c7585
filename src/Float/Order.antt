-- ===== src/Float/Order.antt =====
-- `std::max`, `std::min` and `std::clamp` on numbers that are no NaN.
use rudra_org.Common.{◌≡◌, true, false, arith}
use rudra_org.Float.{Double, IsOrdered, fmax, fmin, clamp, ◌≼◌, ◌<?◌}

module _ {D : Type 0} ⦃d : Double D⦄ (laws : IsOrdered D) where
  open laws use {lt-eq-not-le, le_total, le_trans, refl_of_le, refl_of_lt}

  pub fmax_bounds : (a b : D) → a ≼ a → b ≼ b → (a ≼ fmax a b) × (b ≼ fmax a b)
  unfolding fmax
  fmax_bounds a b ha hb = ground (arith, lt-eq-not-le a b ha hb, le_total a b ha hb)

  pub fmin_bounds : (a b : D) → a ≼ a → b ≼ b → (fmin a b ≼ a) × (fmin a b ≼ b)
  unfolding fmin
  fmin_bounds a b ha hb = ground (arith, lt-eq-not-le b a hb ha, le_total a b ha hb)

  pub clamp_bounds :
      (v lo hi : D)
      → v ≼ v
      → lo ≼ hi
      → lo ≼ lo
      → hi ≼ hi
      → (lo ≼ clamp v lo hi) × (clamp v lo hi ≼ hi)
  unfolding clamp
  clamp_bounds v lo hi hv h hl hh = ground (arith, lt-eq-not-le v lo hv hl, lt-eq-not-le hi v hh hv)

  -- A clamped number lies in the range; a NaN passes through.
  pub clamp_num :
      (v lo hi : D)
      → lo ≼ hi
      → clamp v lo hi ≼ clamp v lo hi
      → (lo ≼ clamp v lo hi) × (clamp v lo hi ≼ hi)
  unfolding clamp
  clamp_num v lo hi h num =
      let (hl, hh) = refl_of_le lo hi h in
      ground (arith, lt-eq-not-le v lo, lt-eq-not-le hi v, refl_of_lt v lo, refl_of_lt hi v, hl, hh)

  pub lt→le : (x y : D) → (x <? y) ≡ true → x ≼ y
  lt→le x y h =
      let (hx, hy) = refl_of_lt x y h in ground (arith, lt-eq-not-le x y hx hy, le_total x y hx hy)

  pub lt_of_lt_of_le : (x y z : D) → (x <? y) ≡ true → y ≼ z → (x <? z) ≡ true
  lt_of_lt_of_le x y z h k =
      let (hx, hy) = refl_of_lt x y h in
      let (_, hz) = refl_of_le y z k in
      ground (arith, lt-eq-not-le x y hx hy, lt-eq-not-le x z hx hz, le_trans y z x k)

  pub not-lt_of_le : (x y : D) → y ≼ x → (x <? y) ≡ false
  not-lt_of_le x y h = let (hy, hx) = refl_of_le y x h in ground (arith, lt-eq-not-le x y hx hy)
