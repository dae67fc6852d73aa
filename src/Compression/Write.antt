-- ===== src/Compression/Write.antt =====
-- `write_golomb_code` appends the code of its number.

use mathlib.Core.Path.{subst}
use cwb.Base.{
  ℕ, zero, suc, ◌+◌, ◌-◌, ◌*◌, ◌/◌, ◌%◌, ◌^◌, ◌≤◌, ◌<◌, ◌≡◌, refl, sym, ap, ◌∙◌, some, [], ◌∷◌,
  arith, ltb, length, length-append, length-replicate, replicate, Bool-cases, inl, inr,
}
use cwb.BitIo.File.{BFile, bf_write, bf_write_word}
use cwb.BitIo.Bits.{low_bits, length-low_bits}
use cwb.BitIo.Write.{IsReady, free, Wrote, Wrote-nil, Wrote-append, bf_write-Wrote}
use cwb.BitIo.WriteWord.{bf_write_word-Wrote}
use cwb.Compression.Golomb.{write_ones, write_rest, write_golomb_code}
use cwb.Compression.Code.{IsCeilLog2, rest_bits, golomb_bits}

-- A bit.
write_bit :
    (bit : ℕ) (s : BFile)
    → bit < 2
    → IsReady s
    → 0 < free s
    → (r : BFile) × (bf_write bit 1 s ≡ some (r, 1)) × Wrote s (bit ∷ []) r
unfolding low_bits
write_bit bit s h ready space =
    let (r, run, w) =
      bf_write-Wrote bit 1 s ready (omega (arith, h)) (omega arith) (omega (arith, space)) in
    let low : bit / 2 ^ 0 % 2 ≡ bit = omega arith in
    (r, run, subst (λ l. Wrote s l r) (ap (λ b. b ∷ []) low) w)

write_ones-Wrote :
    (q : ℕ) (s : BFile)
    → IsReady s
    → q ≤ free s
    → (r : BFile) × (write_ones q s ≡ some r) × Wrote s (replicate q 1) r
unfolding write_ones
write_ones-Wrote zero s ready space = (s, refl, Wrote-nil s ready)
write_ones-Wrote (suc q) s ready space =
    let (t, run, w) = write_bit 1 s (omega arith) ready (omega arith) in
    let (r, more, w') = write_ones-Wrote q t w.ready (omega (arith, w.space)) in
    (r, rw (write_ones, run) more, Wrote-append (1 ∷ []) (replicate q 1) w w')

-- Which word of how many bits the binary part is.
record Word (res nr_sc ub : ℕ) (word n : ℕ) : Type 0 where
  bits : rest_bits res nr_sc ub ≡ low_bits n word
  size : n ≤ ub
  step :
      (s r : BFile) → bf_write_word word n s ≡ some (r, 1) → write_rest res nr_sc ub s ≡ some (r, 1)

rest-Word : (res nr_sc ub : ℕ) → (word : ℕ) × (n : ℕ) × Word res nr_sc ub word n
unfolding write_rest rest_bits
rest-Word res nr_sc ub = elim (Bool-cases (ltb res nr_sc)) [
  | inl shorter ↦ (
    res,
    ub - 1,
    record {
      bits = rw (rest_bits, shorter) refl;
      size = omega arith;
      step = λ s r e. rw (write_rest, shorter, e) refl;
    },
  )
  | inr longer ↦ (
    res + nr_sc,
    ub,
    record {
      bits = rw (rest_bits, longer) refl;
      size = omega arith;
      step = λ s r e. rw (write_rest, longer, e) refl;
    },
  )
]

write_rest-Wrote :
    (res nr_sc ub : ℕ) (s : BFile)
    → IsReady s
    → ub ≤ 32
    → length (rest_bits res nr_sc ub) ≤ free s
    → (r : BFile) × (write_rest res nr_sc ub s ≡ some (r, 1)) × Wrote s (rest_bits res nr_sc ub) r
write_rest-Wrote res nr_sc ub s ready h space =
    let (word, n, w) = rest-Word res nr_sc ub in
    let size = length-low_bits n word in
    let count = ap length w.bits in
    let (r, run, wrote) =
      bf_write_word-Wrote word n s ready (omega (arith, h, w.size))
        (omega (arith, size, count, space)) in
    (r, w.step s r run, subst (λ l. Wrote s l r) (sym w.bits) wrote)

write_golomb_code_step :
    (ceil_log2 : ℕ → ℕ) (x b : ℕ) (s t u : BFile)
    → write_ones (x / b) s ≡ some t
    → bf_write 0 1 t ≡ some (u, 1)
    → write_golomb_code ceil_log2 x b s
      ≡ write_rest (x - x / b * b) (2 ^ ceil_log2 b - b) (ceil_log2 b) u
unfolding write_golomb_code
write_golomb_code_step ceil_log2 x b s t u ones zero_bit =
    rw (write_golomb_code, ones, zero_bit) refl

-- `write_golomb_code` with a divisor from 2 up to 2^30: if all bits of the code can still be written, it
-- returns 1 and appends the code to the bits written so far.
pub write_golomb_code-Wrote :
    (ceil_log2 : ℕ → ℕ) (x b : ℕ) (s : BFile)
    → IsCeilLog2 ceil_log2
    → 2 ≤ b
    → b ≤ 2 ^ 30
    → IsReady s
    → length (golomb_bits ceil_log2 x b) ≤ free s
    → (r : BFile) × (write_golomb_code ceil_log2 x b s ≡ some (r, 1))
      × Wrote s (golomb_bits ceil_log2 x b) r
write_golomb_code-Wrote ceil_log2 x b s c lo hi ready space =
    let q = x / b in
    let ub = ceil_log2 b in
    let rest = rest_bits (x - q * b) (2 ^ ub - b) ub in
    let size = length-append (replicate q 1) (0 ∷ rest) in
    let count = length-replicate {A = ℕ} q 1 in
    let few = c.least b 30 hi in
    let (t, ones, w1) = write_ones-Wrote q s ready (omega (arith, space, size, count)) in
    let (u, zero_bit, w2) =
      write_bit 0 t (omega arith) w1.ready (omega (arith, space, size, count, w1.space)) in
    let (r, run, w3) =
      write_rest-Wrote (x - q * b) (2 ^ ub - b) ub u w2.ready (omega (arith, few))
        (omega (arith, space, size, count, w1.space, w2.space)) in
    (
      r,
      write_golomb_code_step ceil_log2 x b s t u ones zero_bit ∙ run,
      Wrote-append (replicate q 1) (0 ∷ rest) w1 (Wrote-append (0 ∷ []) rest w2 w3),
    )
