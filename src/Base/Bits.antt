-- ===== src/Base/Bits.antt =====
-- `&`, `|` and `^` at variables: the width of their results, and `|` of two fields that share no bit.
use Prim.Native.Nat.{
  ℕ, zero, suc, ◌+◌, ◌*◌, ◌/◌, ◌%◌, ◌^◌, ◌≤◌, ◌<◌, min, max, differ, digits, bit_and, bit_or,
  bit_xor, bit_and-bitwise, bit_or-bitwise, bit_xor-bitwise,
}
use mathlib.Core.Path.{◌≡◌, refl, ap}
use native.Mathlib.Omega.{arith}
use native.Mathlib.Nat.{pow-suc, le_refl}

module _ (z : ℕ → ℕ) (f : ℕ → ℕ → ℕ) (z_small : (b : ℕ) → z b ≤ b)
    (f_small : (x y : ℕ) → x ≤ 1 → y ≤ 1 → f x y ≤ 1) where
  digits-lt : (k n a b : ℕ) → a < 2 ^ k → b < 2 ^ k → digits z f n a b < 2 ^ k
  digits-lt k zero a b ha hb = omega (arith, z_small b)
  digits-lt k (suc n) zero b ha hb = omega (arith, z_small b)
  digits-lt zero (suc n) (suc a) b ha hb = absurd (omega arith)
  digits-lt (suc k) (suc n) (suc a) b ha hb =
      let twice = pow-suc 2 k in
      omega (
        arith,
        twice,
        digits-lt k n (suc a / 2) (b / 2) (omega (arith, twice)) (omega (arith, twice)),
        f_small (suc a % 2) (b % 2) (omega arith) (omega arith),
      )

differ-le : (x y : ℕ) → x ≤ 1 → y ≤ 1 → differ x y ≤ 1
differ-le zero y h k = k
differ-le (suc x) zero h k = h
differ-le (suc zero) (suc y) h k = omega arith
differ-le (suc (suc x)) (suc y) h k = absurd (omega arith)

pub bit_and-lt : (k a b : ℕ) → a < 2 ^ k → b < 2 ^ k → bit_and a b < 2 ^ k
bit_and-lt k a b ha hb =
    rw (bit_and-bitwise a b)
      (digits-lt (λ _. 0) min (λ b. omega arith) (λ x y h k. omega arith) k a a b ha hb)

pub bit_or-lt : (k a b : ℕ) → a < 2 ^ k → b < 2 ^ k → bit_or a b < 2 ^ k
bit_or-lt k a b ha hb =
    rw (bit_or-bitwise a b)
      (digits-lt (λ b. b) max (λ b. omega arith) (λ x y h k. omega arith) k a a b ha hb)

pub bit_xor-lt : (k a b : ℕ) → a < 2 ^ k → b < 2 ^ k → bit_xor a b < 2 ^ k
bit_xor-lt k a b ha hb =
    rw (bit_xor-bitwise a b) (digits-lt (λ b. b) differ (λ b. omega arith) differ-le k a a b ha hb)

abbrev or_digits : ℕ → ℕ → ℕ → ℕ
or_digits n a b = digits (λ c. c) max n a b

or_digits-zero : (n a : ℕ) → a ≤ n → or_digits n a 0 ≡ a
or_digits-zero zero a h = omega arith
or_digits-zero (suc n) zero h = refl
or_digits-zero (suc n) (suc a) h = omega (arith, or_digits-zero n (suc a / 2) (omega arith))

or_digits-add : (k n a r q : ℕ) → a ≡ q * 2 ^ k → r < 2 ^ k → a ≤ n → or_digits n a r ≡ a + r
or_digits-add zero n a zero q e hr h = omega (arith, or_digits-zero n a h)
or_digits-add zero n a (suc r) q e hr h = absurd (omega arith)
or_digits-add (suc k) zero a r q e hr h = omega arith
or_digits-add (suc k) (suc n) zero r q e hr h = omega arith
or_digits-add (suc k) (suc n) (suc a) r q e hr h =
    let twice = pow-suc 2 k in
    let even : suc a ≡ 2 * (q * 2 ^ k) = omega (arith, e, ap (λ (t : ℕ). q * t) twice) in
    omega (
      arith,
      even,
      or_digits-add k n (suc a / 2) (r / 2) q (omega (arith, even)) (omega (arith, twice))
          (omega arith),
    )

-- `(q << k) | r` is a sum where `r` has only `k` bits.
pub bit_or-add : (k q r : ℕ) → r < 2 ^ k → bit_or (q * 2 ^ k) r ≡ q * 2 ^ k + r
bit_or-add k q r h =
    rw (bit_or-bitwise (q * 2 ^ k) r)
      (or_digits-add k (q * 2 ^ k) (q * 2 ^ k) r q refl h (le_refl (q * 2 ^ k)))

pub zero-bit_or : (b : ℕ) → bit_or 0 b ≡ b
zero-bit_or b = bit_or-bitwise 0 b
