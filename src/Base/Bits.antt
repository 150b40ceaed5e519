-- ===== src/Base/Bits.antt =====
-- `x ^ (1 << k)` flips one bit of `x`.
use Prim.Native.Nat.{
  ℕ, zero, suc, ◌+◌, ◌-◌, ◌*◌, ◌/◌, ◌%◌, ◌^◌, ◌≤◌, ◌<◌, bit_xor, digits, differ, bit_xor-bitwise,
}
use mathlib.Core.Path.{◌≡◌, refl, sym, ap, ap₂, ◌∙◌}
use native.Mathlib.Nat.{pow-suc, div-div-eq-div-mul, div-eq_of_lt}
use native.Mathlib.Decide.{dec_lt}
use mathlib.Core.Logic.{◌≢◌}
use native.Mathlib.Omega.{arith}
use aevros.Base.Logic.{◌==◌, if◌then◌else◌}

abbrev xor_digits : ℕ → ℕ → ℕ → ℕ
xor_digits n a b = digits (λ b. b) differ n a b

xor_digits_fuel : (n m a b : ℕ) → a ≤ n → a ≤ m → xor_digits n a b ≡ xor_digits m a b
xor_digits_fuel zero zero a b p q = refl
xor_digits_fuel zero (suc m) zero b p q = refl
xor_digits_fuel zero (suc m) (suc a) b p q = absurd (omega arith)
xor_digits_fuel (suc n) zero zero b p q = refl
xor_digits_fuel (suc n) zero (suc a) b p q = absurd (omega arith)
xor_digits_fuel (suc n) (suc m) zero b p q = refl
xor_digits_fuel (suc n) (suc m) (suc a) b p q =
    omega (arith, xor_digits_fuel n m (suc a / 2) (b / 2) (omega arith) (omega arith))

zero-bit_xor : (b : ℕ) → bit_xor 0 b ≡ b
zero-bit_xor b = bit_xor-bitwise 0 b

differ_zero : (d : ℕ) → d < 2 → differ 0 d ≡ d
differ_zero zero h = refl
differ_zero (suc zero) h = refl
differ_zero (suc (suc d)) h = absurd (omega arith)

bit_xor_step : (a b : ℕ) → bit_xor a b ≡ bit_xor (a / 2) (b / 2) * 2 + differ (a % 2) (b % 2)
bit_xor_step zero b =
    omega (arith, zero-bit_xor b, zero-bit_xor (b / 2), differ_zero (b % 2) (omega arith))
bit_xor_step (suc a) b = omega (
  arith,
  bit_xor-bitwise (suc a) b,
  bit_xor-bitwise (suc a / 2) (b / 2),
  xor_digits_fuel a (suc a / 2) (suc a / 2) (b / 2) (omega arith) (omega arith),
)

differ_bit : (d : ℕ) → d < 2 → (differ d 0 ≡ d) × (differ d 1 ≡ 1 - d)
differ_bit zero h = (refl, refl)
differ_bit (suc zero) h = (refl, refl)
differ_bit (suc (suc d)) h = absurd (omega arith)

bit_xor-zero_fuel : (n a : ℕ) → a ≤ n → bit_xor a 0 ≡ a
bit_xor-zero_fuel n zero h = refl
bit_xor-zero_fuel zero (suc a) h = absurd (omega arith)
bit_xor-zero_fuel (suc n) (suc a) h = omega (
  arith,
  bit_xor_step (suc a) 0,
  bit_xor-zero_fuel n (suc a / 2) (omega arith),
  (differ_bit (suc a % 2) (omega arith)).0,
)

bit_xor-zero : (a : ℕ) → bit_xor a 0 ≡ a
bit_xor-zero a = bit_xor-zero_fuel a a (omega arith)

-- The bit of weight `w` flipped.
abbrev pub flip : ℕ → ℕ → ℕ
flip a w = if (a / w) % 2 == 0 then a + w else a - w

pub bit_xor-pow : (k a : ℕ) → bit_xor a (2 ^ k) ≡ flip a (2 ^ k)
bit_xor-pow zero a =
    ground (arith, bit_xor_step a 1, bit_xor-zero (a / 2), (differ_bit (a % 2) (omega arith)).1)
bit_xor-pow (suc k) a =
    let w = 2 ^ k in
    let double : 2 ^ suc k ≡ w * 2 = pow-suc 2 k in
    let halves : a / (2 * w) ≡ a / 2 / w = sym (div-div-eq-div-mul a 2 w) in
    let swap : 2 * w ≡ w * 2 = omega arith in
    let quotient : a / (w * 2) ≡ a / 2 / w = ap (λ n. a / n) (sym swap) ∙ halves in
    let step : bit_xor a (w * 2) ≡ bit_xor (a / 2) w * 2 + a % 2 =
      bit_xor_step a (w * 2)
      ∙ ap₂ (λ x y. bit_xor (a / 2) x * 2 + y) (omega arith)
          (ap (differ (a % 2)) (omega arith) ∙ (differ_bit (a % 2) (omega arith)).0) in
    let low : a / 2 < w → a / 2 / w ≡ 0 = λ h. div-eq_of_lt h in
    rw double
      (step ∙ ap (λ x. x * 2 + a % 2) (bit_xor-pow k (a / 2)) ∙ ground (arith, quotient, low))

-- The bit that is set in `x` has `x` at its weight at least.
pub flip_set : (a w : ℕ) → (a / w) % 2 ≢ 0 → w ≤ a
flip_set a w h = elim (dec_lt a w) [
  | yes small ↦ absurd (h (ap (λ q. q % 2) (div-eq_of_lt small)))
  | no big ↦ omega arith
]

differ_bound : (d e : ℕ) → d < 2 → e < 2 → differ d e < 2
differ_bound zero zero h k = omega arith
differ_bound zero (suc zero) h k = omega arith
differ_bound zero (suc (suc e)) h k = absurd (omega arith)
differ_bound (suc zero) zero h k = omega arith
differ_bound (suc zero) (suc zero) h k = omega arith
differ_bound (suc zero) (suc (suc e)) h k = absurd (omega arith)
differ_bound (suc (suc d)) e h k = absurd (omega arith)

-- A word stays a word.
pub bit_xor-bound : (k a b : ℕ) → a < 2 ^ k → b < 2 ^ k → bit_xor a b < 2 ^ k
bit_xor-bound zero zero b h k = omega (arith, zero-bit_xor b)
bit_xor-bound zero (suc a) b h k = absurd (omega arith)
bit_xor-bound (suc k) a b h low = omega (
  arith,
  pow-suc 2 k,
  bit_xor_step a b,
  bit_xor-bound k (a / 2) (b / 2) (omega (arith, pow-suc 2 k)) (omega (arith, pow-suc 2 k)),
  differ_bound (a % 2) (b % 2) (omega arith) (omega arith),
)
