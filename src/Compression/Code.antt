-- ===== src/Compression/Code.antt =====
-- The Golomb code of a number as a bit string, and how a source of bits is read back.

use native.Mathlib.Nat.{pow-suc, div-div-eq-div-mul, div-le_self}
use cwb.Base.{
  ℕ, zero, suc, ◌+◌, ◌-◌, ◌*◌, ◌/◌, ◌%◌, ◌^◌, ◌≤◌, ◌<◌, ◌≡◌, refl, sym, ap, ◌∙◌, some, List, ◌∷◌,
  ◌++◌, arith, if◌then◌else◌, ltb, length, replicate,
}
use cwb.Base.Bits.{bit_of, bit_or_double}
use cwb.BitIo.Bits.{low_bits}
use cwb.Compression.Golomb.{BitSource, append_bit, read_unary, read_bits}

-- The least exponent of 2 that gives at least b.
pub record IsCeilLog2 (ceil_log2 : ℕ → ℕ) : Type 0 where
  pub enough : (b : ℕ) → 1 ≤ b → b ≤ 2 ^ ceil_log2 b
  pub least : (b u : ℕ) → b ≤ 2 ^ u → ceil_log2 b ≤ u

-- The binary part of the code: shorter for the first `nr_sc` remainders.
unfoldable pub rest_bits : ℕ → ℕ → ℕ → List ℕ
rest_bits res nr_sc ub = if ltb res nr_sc then low_bits (ub - 1) res else low_bits ub (res + nr_sc)

abbrev pub golomb_bits : (ℕ → ℕ) → ℕ → ℕ → List ℕ
golomb_bits ceil_log2 x b =
    replicate (x / b) 1 ++ 0 ∷ rest_bits (x - x / b * b) (2 ^ ceil_log2 b - b) (ceil_log2 b)

-- `Left s bits`: these bits are left in s; the next one can be read.
pub record IsBitSource {S : Type 0} (source : BitSource S) (Left : S → List ℕ → Type 0)
    : Type 0 where
  pub next :
      (s : S) (bit : ℕ) (bits : List ℕ)
      → bit < 2
      → Left s (bit ∷ bits)
      → (r : S) × (source.read_bit s ≡ some (r, bit)) × Left r bits
  pub bounded : (s : S) (bits : List ℕ) → Left s bits → length bits ≤ source.bits_left s

pub append_bit-lt : (r bit : ℕ) → r < 2 ^ 31 → bit < 2 → append_bit r bit ≡ r * 2 + bit
append_bit-lt r bit h hb =
    let e : r * 2 % 2 ^ 32 ≡ r * 2 = omega arith in rw e (bit_or_double r bit hb)

module _ {S : Type 0} (source : BitSource S) (Left : S → List ℕ → Type 0)
    (lawful : IsBitSource source Left) where
  -- Ones, and the zero after them.
  pub read_unary-Left :
      (n fuel q : ℕ) (s : S) (bits : List ℕ)
      → n < fuel
      → Left s (replicate n 1 ++ 0 ∷ bits)
      → (r : S) × (read_unary source fuel q s ≡ some (r, q + n)) × Left r bits
  unfolding read_unary
  read_unary-Left n zero q s bits h left = absurd (omega (arith, h))
  read_unary-Left zero (suc fuel) q s bits h left =
      let (r, run, after) = lawful.next s 0 bits (omega arith) left in
      let e : q + 0 ≡ q = omega arith in (r, rw (read_unary, run, e) refl, after)
  read_unary-Left (suc n) (suc fuel) q s bits h left =
      let (r, run, after) = lawful.next s 1 (replicate n 1 ++ 0 ∷ bits) (omega arith) left in
      let (t, more, last) = read_unary-Left n fuel (q + 1) r bits (omega (arith, h)) after in
      let e : q + 1 + n ≡ q + suc n = omega arith in
      (t, rw (read_unary, run) (more ∙ ap (λ k. some (t, k)) e), last)

  -- The bits of d, its high bits being read already.
  pub read_bits-Left :
      (n d : ℕ) (s : S) (bits : List ℕ)
      → d < 2 ^ 31
      → Left s (low_bits n d ++ bits)
      → (r : S) × (read_bits source n (d / 2 ^ n) s ≡ some (r, d)) × Left r bits
  unfolding read_bits low_bits
  read_bits-Left zero d s bits h left =
      let same : d / 2 ^ 0 ≡ d = omega arith in (s, rw same refl, left)
  read_bits-Left (suc n) d s bits h left =
      let (t, run, after) = lawful.next s (bit_of d n) (low_bits n d ++ bits) (omega arith) left in
      let half : d / 2 ^ suc n ≡ d / 2 ^ n / 2 =
        rw (pow-suc 2 n) (sym (div-div-eq-div-mul d (2 ^ n) 2)) in
      let below = div-le_self d (2 ^ n) in
      let joined : append_bit (d / 2 ^ suc n) (bit_of d n) ≡ d / 2 ^ n =
        append_bit-lt (d / 2 ^ suc n) (bit_of d n) (omega (arith, half, below, h)) (omega arith)
        ∙ omega (arith, half) in
      let (r, more, last) = read_bits-Left n d t bits h after in
      (r, rw (read_bits, run, joined) more, last)
