-- ===== src/Common/Bits.antt =====
-- A bitwise and with a mask of low bits is a remainder: the index arithmetic of the ring buffers.
use Prim.Native.Nat.{ℕ, zero, suc, ◌+◌, ◌-◌, ◌*◌, ◌/◌, ◌%◌, ◌^◌, ◌≤◌, ◌<◌, min, bit_and, digits}
use Prim.Native.Nat.{bit_and-bitwise, ◌∣◌}
use mathlib.Core.Path.{◌≡◌, ◌∙◌, sym, ap, subst}
use native.Mathlib.Nat.{
  pow-suc, one-le-pow, div-add-mod', mod-eq_of_lt, mod-lt, mul-add-mod_self_right, add-zero,
  div-div-eq-div-mul, zero-div, add-suc, dvd_refl, dvd-mul_right_of_dvd, pow-le-pow_right,
}
use native.Mathlib.Omega.{arith}

-- The digits below the place `m` of a number, from those of its half.
mod_doubled : (x m : ℕ) → 0 < m → x / 2 % m * 2 + x % 2 ≡ x % (m * 2)
mod_doubled x m h =
    let low : ℕ = x / 2 % m * 2 + x % 2 in
    let split : x / 2 / m * (m * 2) + low ≡ x =
      omega (arith, ap (λ (t : ℕ). t * 2) (div-add-mod' (x / 2) m)) in
    sym (mod-eq_of_lt (omega (arith, mod-lt (x / 2) h)))
    ∙ sym (mul-add-mod_self_right (x / 2 / m) (m * 2) low)
    ∙ ap (λ t. t % (m * 2)) split

mod_doubled_min : (x m : ℕ) → 0 < m → x / 2 % m * 2 + min (x % 2) 1 ≡ x % (m * 2)
mod_doubled_min x m h = omega (arith, mod_doubled x m h)

mask_digits : (n k a : ℕ) → a ≤ n → digits (λ b. zero) min n a (2 ^ k - 1) ≡ a % 2 ^ k
mask_digits zero k zero h = omega arith
mask_digits (suc n) k zero h = omega arith
mask_digits zero k (suc a) h = absurd (omega arith)
mask_digits (suc n) zero (suc a) h = omega (arith, mask_digits n zero (suc a / 2) (omega arith))
mask_digits (suc n) (suc k) (suc a) h =
    let half : (2 ^ suc k - 1) / 2 ≡ 2 ^ k - 1 = omega (arith, pow-suc 2 k, one-le-pow k 2) in
    let odd : (2 ^ suc k - 1) % 2 ≡ 1 = omega (arith, pow-suc 2 k, one-le-pow k 2) in
    rw (half, odd, mask_digits n k (suc a / 2) (omega arith), pow-suc 2 k)
      (mod_doubled_min (suc a) (2 ^ k) (one-le-pow k 2 (omega arith)))

-- `a & (2^k - 1)` is `a % 2^k`.
pub bit_and-mask : (k a : ℕ) → bit_and a (2 ^ k - 1) ≡ a % 2 ^ k
bit_and-mask k a = bit_and-bitwise a (2 ^ k - 1) ∙ mask_digits a k a (omega arith)

two_pow-dvd_add : (k d : ℕ) → ◌∣◌ (2 ^ k) (2 ^ (k + d))
two_pow-dvd_add k zero = rw add-zero (dvd_refl (2 ^ k))
two_pow-dvd_add k (suc d) =
    rw (add-suc, pow-suc 2 (k + d)) (dvd-mul_right_of_dvd (2 ^ k) (two_pow-dvd_add k d) 2)

-- A power of two below 2^64 divides 2^64: free-running counters may wrap.
pub two_pow-dvd : (k : ℕ) → k ≤ 63 → ◌∣◌ (2 ^ k) (2 ^ 64)
two_pow-dvd k h =
    let whole : k + (64 - k) ≡ 64 = omega arith in
    subst (λ n. ◌∣◌ (2 ^ k) (2 ^ n)) whole (two_pow-dvd_add k (64 - k))

pub two_pow-le : (k : ℕ) → k ≤ 63 → 2 ^ k ≤ 2 ^ 63
two_pow-le k h = pow-le-pow_right {n = 2} (omega arith) h

pub two_pow-pos : (k : ℕ) → 0 < 2 ^ k
two_pow-pos k = one-le-pow k 2 (omega arith)

two_pow-add : (a b : ℕ) → 2 ^ a * 2 ^ b ≡ 2 ^ (a + b)
two_pow-add a zero = omega (arith, ap (λ n. 2 ^ n) (add-zero a))
two_pow-add a (suc b) =
    rw (add-suc, pow-suc 2 (a + b), pow-suc 2 b, ← two_pow-add a b) (omega arith)

-- A power of two up to 2^64 divides it exactly.
pub two_pow-split : (k : ℕ) → k ≤ 63 → 2 ^ 64 ≡ 2 ^ (64 - k) * 2 ^ k
two_pow-split k h =
    let whole : 64 ≡ 64 - k + k = omega arith in
    ap (λ n. 2 ^ n) whole ∙ sym (two_pow-add (64 - k) k)

power_digits : (n k a : ℕ) → a ≤ n → digits (λ b. zero) min n a (2 ^ k) ≡ a / 2 ^ k % 2 * 2 ^ k
power_digits zero k zero h = rw (zero-div (2 ^ k)) (omega arith)
power_digits (suc n) k zero h = rw (zero-div (2 ^ k)) (omega arith)
power_digits zero k (suc a) h = absurd (omega arith)
power_digits (suc n) zero (suc a) h = omega (arith, mask_digits n zero (suc a / 2) (omega arith))
power_digits (suc n) (suc k) (suc a) h =
    let half : 2 ^ suc k / 2 ≡ 2 ^ k = omega (arith, pow-suc 2 k) in
    let even : 2 ^ suc k % 2 ≡ 0 = omega (arith, pow-suc 2 k) in
    let double : 2 ^ suc k ≡ 2 * 2 ^ k = omega (arith, pow-suc 2 k) in
    rw
      (
        half,
        even,
        double,
        power_digits n k (suc a / 2) (omega arith),
        div-div-eq-div-mul (suc a) 2 (2 ^ k),
      )
      (omega arith)

-- `a & 2^k` is the digit of `a` at the place `k`, in its place.
pub bit_and-power : (k a : ℕ) → bit_and a (2 ^ k) ≡ a / 2 ^ k % 2 * 2 ^ k
bit_and-power k a = bit_and-bitwise a (2 ^ k) ∙ power_digits a k a (omega arith)
