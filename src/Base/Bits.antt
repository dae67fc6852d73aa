-- ===== src/Base/Bits.antt =====
-- The native bit operations at variables, one binary digit at a time.
use Prim.Native.Nat.{
  ℕ, zero, suc, ◌+◌, ◌-◌, ◌*◌, ◌/◌, ◌%◌, ◌^◌, ◌≤◌, ◌<◌, max, bit_or, bit_xor, digits, bitwise,
  differ, bit_or-bitwise, bit_xor-bitwise, bit_and, bit_and-bitwise, min,
}
use mathlib.Core.Path.{◌≡◌, refl, ap, sym, ◌∙◌}
use mathlib.Core.Logic.{◌↔◌}
use native.Mathlib.Nat.{
  pow-suc, pow-succ', div-div-eq-div-mul, mul-add-mod_self_left, mod-eq_of_lt, div-add-mod,
  one-le-pow,
}
use native.Mathlib.Decide.{ℕ_discrete}
use native.Mathlib.Omega.{arith}

-- One more binary digit.
pub mod-pow_suc : (l a : ℕ) → a % 2 ^ suc l ≡ a / 2 % 2 ^ l * 2 + a % 2
mod-pow_suc l a =
    let p = 2 ^ l in
    let q = a / 2 / p in
    let c = a / 2 % p * 2 + a % 2 in
    let positive : 1 ≤ p = one-le-pow l 2 (omega arith) in
    let small : c < p * 2 = omega arith in
    let parts : a ≡ p * 2 * q + c = omega (arith, div-add-mod (a / 2) p) in
    rw (pow-suc 2 l)
      (ap (λ t. t % (p * 2)) parts ∙ mul-add-mod_self_left (p * 2) q c ∙ mod-eq_of_lt small)

differ_digit : (a b : ℕ) → a < 2 → b < 2 → differ a b ≡ (a + b) % 2
differ_digit zero zero h k = refl
differ_digit zero (suc zero) h k = refl
differ_digit zero (suc (suc b)) h k = absurd (omega arith)
differ_digit (suc zero) zero h k = refl
differ_digit (suc zero) (suc zero) h k = refl
differ_digit (suc zero) (suc (suc b)) h k = absurd (omega arith)
differ_digit (suc (suc a)) b h k = absurd (omega arith)

-- An operation `op` that works digit by digit as `f` does, and on 0 as `z` does.
module _ (z : ℕ → ℕ) (f : ℕ → ℕ → ℕ) where
  spent : (fuel b : ℕ) → digits z f fuel 0 b ≡ z b
  spent zero b = refl
  spent (suc fuel) b = refl

  -- Fuel beyond the first number changes nothing.
  refuel : (fuel more a b : ℕ) → a ≤ fuel → fuel ≤ more → digits z f more a b ≡ digits z f fuel a b
  refuel fuel more zero b enough h = spent more b ∙ sym (spent fuel b)
  refuel (suc fuel) (suc more) (suc a) b enough h =
      ap (λ high. high * 2 + f (suc a % 2) (b % 2))
        (refuel fuel more (suc a / 2) (b / 2) (omega arith) (omega arith))
  refuel zero more (suc a) b enough h = absurd (omega arith)
  refuel (suc fuel) zero (suc a) b enough h = absurd (omega arith)

  module _ {op : ℕ → ℕ → ℕ} (meaning : (a b : ℕ) → op a b ≡ bitwise z f a b)
      (start : (b : ℕ) → z b ≡ z (b / 2) * 2 + f 0 (b % 2)) where
    digit : (a b : ℕ) → op a b ≡ op (a / 2) (b / 2) * 2 + f (a % 2) (b % 2)
    digit a b = rw (meaning a b, meaning (a / 2) (b / 2)) (go a)
      where
        go : (a : ℕ) → bitwise z f a b ≡ bitwise z f (a / 2) (b / 2) * 2 + f (a % 2) (b % 2)
        go zero = start b
        go (suc a) =
            ap (λ high. high * 2 + f (suc a % 2) (b % 2))
              (refuel (suc a / 2) a (suc a / 2) (b / 2) (omega arith) (omega arith))

bit_or_digit : (a b : ℕ) → bit_or a b ≡ bit_or (a / 2) (b / 2) * 2 + max (a % 2) (b % 2)
bit_or_digit = digit (λ y. y) max bit_or-bitwise (λ b. omega arith)

bit_xor_digit : (a b : ℕ) → bit_xor a b ≡ bit_xor (a / 2) (b / 2) * 2 + (a % 2 + b % 2) % 2
bit_xor_digit a b =
    digit (λ y. y) differ bit_xor-bitwise xor_start a b
    ∙ ap (λ low. bit_xor (a / 2) (b / 2) * 2 + low)
        (differ_digit (a % 2) (b % 2) (omega arith) (omega arith))
  where
    xor_start : (b : ℕ) → b ≡ b / 2 * 2 + differ 0 (b % 2)
    xor_start b = omega (arith, differ_digit 0 (b % 2) (omega arith) (omega arith))

bit_and_digit : (a b : ℕ) → bit_and a b ≡ bit_and (a / 2) (b / 2) * 2 + min (a % 2) (b % 2)
bit_and_digit = digit (λ y. 0) min bit_and-bitwise (λ b. omega arith)

bit_or-zero_upto : (bound a : ℕ) → a ≤ bound → bit_or a 0 ≡ a
bit_or-zero_upto zero a h = let e : a ≡ 0 = omega arith in rw e (bit_or-bitwise 0 0)
bit_or-zero_upto (suc bound) a h = elim (ℕ_discrete a 0) [
  | yes e ↦ rw e (bit_or-bitwise 0 0)
  | no p ↦ omega (arith, bit_or_digit a 0, bit_or-zero_upto bound (a / 2) (omega arith))
]

bit_and-zero_upto : (bound a : ℕ) → a ≤ bound → bit_and a 0 ≡ 0
bit_and-zero_upto zero a h = let e : a ≡ 0 = omega arith in rw e (bit_and-bitwise 0 0)
bit_and-zero_upto (suc bound) a h = elim (ℕ_discrete a 0) [
  | yes e ↦ rw e (bit_and-bitwise 0 0)
  | no p ↦ omega (arith, bit_and_digit a 0, bit_and-zero_upto bound (a / 2) (omega arith))
]

-- `x <<= 1; x |= bit;` appends a digit.
pub bit_or_double : (q bit : ℕ) → bit < 2 → bit_or (q * 2) bit ≡ q * 2 + bit
bit_or_double q bit h =
    let e : q * 2 / 2 ≡ q = omega arith in
    let z : bit / 2 ≡ 0 = omega arith in
    bit_or_digit (q * 2) bit ∙ rw (e, z) (omega (arith, bit_or-zero_upto q q (omega arith)))

-- The low digits of an exclusive or are those in which the numbers differ.
pub bit_xor-mod : (l a b : ℕ) → (bit_xor a b % 2 ^ l ≡ 0) ↔ (a % 2 ^ l ≡ b % 2 ^ l)
bit_xor-mod zero a b = (λ e. omega arith, λ e. omega arith)
bit_xor-mod (suc l) a b =
    let ih = bit_xor-mod l (a / 2) (b / 2) in
    let x = bit_xor a b in
    let half : x / 2 ≡ bit_xor (a / 2) (b / 2) = omega (arith, bit_xor_digit a b) in
    let low : x % 2 ≡ (a % 2 + b % 2) % 2 = omega (arith, bit_xor_digit a b) in
    let same = ap (λ t. t % 2 ^ l) half in
    rw (mod-pow_suc l x, mod-pow_suc l a, mod-pow_suc l b)
      (λ e. ground (arith, ih.0, half, low, same), λ e. ground (arith, ih.1, half, low, same))

-- `x & ((1 << l) - 1)` is the remainder.
pub bit_and-mask : (l a : ℕ) → bit_and a (2 ^ l - 1) ≡ a % 2 ^ l
bit_and-mask zero a = omega (arith, bit_and-zero_upto a a (omega arith))
bit_and-mask (suc l) a =
    let positive : 1 ≤ 2 ^ l = one-le-pow l 2 (omega arith) in
    let half : (2 ^ suc l - 1) / 2 ≡ 2 ^ l - 1 = omega (arith, pow-suc 2 l) in
    let low : (2 ^ suc l - 1) % 2 ≡ 1 = omega (arith, pow-suc 2 l) in
    bit_and_digit a (2 ^ suc l - 1)
    ∙ rw (half, low, mod-pow_suc l a, bit_and-mask l (a / 2)) (omega arith)

-- Bit `k` of a number.
abbrev pub bit_of : ℕ → ℕ → ℕ
bit_of v k = v / 2 ^ k % 2

pub bit_of-suc : (v k : ℕ) → bit_of v (suc k) ≡ bit_of (v / 2) k
bit_of-suc v k = rw (pow-succ' 2 k, div-div-eq-div-mul v 2 (2 ^ k))

-- Two numbers agree in the low digits exactly when they have the same bits there.
pub mod-bit_of : (l a b : ℕ) → (a % 2 ^ l ≡ b % 2 ^ l) ↔ ((k : ℕ) → k < l → bit_of a k ≡ bit_of b k)
mod-bit_of zero a b = (λ e k h. absurd (omega arith), λ h. omega arith)
mod-bit_of (suc l) a b =
    let ih = mod-bit_of l (a / 2) (b / 2) in
    rw (mod-pow_suc l a, mod-pow_suc l b) (λ e. bits ih e, λ h. parts ih h)
  where
    bits :
        ((a / 2 % 2 ^ l ≡ b / 2 % 2 ^ l) ↔ ((k : ℕ) → k < l → bit_of (a / 2) k ≡ bit_of (b / 2) k))
        → a / 2 % 2 ^ l * 2 + a % 2 ≡ b / 2 % 2 ^ l * 2 + b % 2
        → (k : ℕ) → k < suc l
        → bit_of a k ≡ bit_of b k
    bits ih e zero h = omega arith
    bits ih e (suc k) h = rw (bit_of-suc a k, bit_of-suc b k) (ih.0 (omega arith) k (omega arith))

    parts :
        ((a / 2 % 2 ^ l ≡ b / 2 % 2 ^ l) ↔ ((k : ℕ) → k < l → bit_of (a / 2) k ≡ bit_of (b / 2) k))
        → ((k : ℕ) → k < suc l → bit_of a k ≡ bit_of b k)
        → a / 2 % 2 ^ l * 2 + a % 2 ≡ b / 2 % 2 ^ l * 2 + b % 2
    parts ih h = omega (
      arith,
      h 0 (omega arith),
      ih.1 (λ k lt. sym (bit_of-suc a k) ∙ h (suc k) (omega arith) ∙ bit_of-suc b k),
    )

-- `(x << l) | y` for a y of at most l digits puts the two side by side.
pub bit_or_shift : (l x y : ℕ) → y < 2 ^ l → bit_or (x * 2 ^ l) y ≡ x * 2 ^ l + y
bit_or_shift zero x y h =
    let z : y ≡ 0 = omega arith in
    let e : x * 2 ^ 0 ≡ x = omega arith in
    rw (z, e) (bit_or-zero_upto x x (omega arith) ∙ omega arith)
bit_or_shift (suc l) x y h =
    let p = pow-suc 2 l in
    let half : x * 2 ^ suc l / 2 ≡ x * 2 ^ l = omega (arith, ap (λ (t : ℕ). x * t) p) in
    let low : x * 2 ^ suc l % 2 ≡ 0 = omega (arith, ap (λ (t : ℕ). x * t) p) in
    let rest = bit_or_shift l x (y / 2) (omega (arith, p)) in
    bit_or_digit (x * 2 ^ suc l) y ∙ rw (half, low, rest) (omega (arith, ap (λ (t : ℕ). x * t) p))
