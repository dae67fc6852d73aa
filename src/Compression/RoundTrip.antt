-- ===== src/Compression/RoundTrip.antt =====
-- The reader of Golomb codes gives back the number of a code.
use mathlib.Core.List.{append_assoc}
use mathlib.Core.Path.{subst}
use native.Mathlib.Decide.{ℕ_discrete}
use native.Mathlib.Nat.{pow-suc, mod-add-div', mod-lt, div-eq_of_lt, lt_of_not-le, pow-le-pow_right}
use cwb.Base.{
  ℕ, suc, ◌+◌, ◌-◌, ◌*◌, ◌/◌, ◌%◌, ◌^◌, ◌≤◌, ◌<◌, ◌≡◌, refl, ap, ◌∙◌, true, false, Option, none,
  some, List, [], ◌∷◌, ◌++◌, arith, ltb, leb, length-append, length-replicate, replicate,
  Bool-cases, inl, inr,
}
use cwb.Base.Int.{ℤ, pos, signed32-unsigned32}
use cwb.BitIo.Bits.{low_bits, low_bits-double}
use cwb.Compression.Golomb.{
  BitSource, append_bit, read_unary, read_bits, read_last, read_golomb_code,
}
use cwb.Compression.Code.{
  IsCeilLog2, rest_bits, golomb_bits, IsBitSource, append_bit-lt, read_unary-Left, read_bits-Left,
}

-- The parts of a number and the sizes that the code has for a divisor.
pub record Parts (ceil_log2 : ℕ → ℕ) (x b : ℕ) : Type 0 where
  pub res : ℕ
  pub remainder : x - x / b * b ≡ res
  pub whole : res + x / b * b ≡ x
  pub below : res < b
  pub lb : ℕ
  pub ub : ceil_log2 b ≡ suc lb
  pub low : 2 ^ lb < b
  pub high : b ≤ 2 ^ lb * 2
  pub small : 2 ^ lb * 2 ≤ 2 ^ 30

pub golomb-Parts :
    (ceil_log2 : ℕ → ℕ) (x b : ℕ) → IsCeilLog2 ceil_log2 → 2 ≤ b → b ≤ 2 ^ 30 → Parts ceil_log2 x b
golomb-Parts ceil_log2 x b c lo hi =
    let div = mod-add-div' x b in
    let lb = ceil_log2 b - 1 in
    let enough = c.enough b (omega arith) in
    let positive : 0 < ceil_log2 b = elim (ℕ_discrete (ceil_log2 b) 0) [
      | yes z ↦ let e = ap (λ u. 2 ^ u) z in absurd (omega (arith, enough, e))
      | no ne ↦ omega arith
    ] in
    let ub : ceil_log2 b ≡ suc lb = omega (arith, positive) in
    let power : 2 ^ ceil_log2 b ≡ 2 ^ lb * 2 = ap (λ u. 2 ^ u) ub ∙ pow-suc 2 lb ∙ omega arith in
    let bound : 2 ^ ceil_log2 b ≤ 2 ^ 30 = pow-le-pow_right (omega arith) (c.least b 30 hi) in
    record {
      res = x % b;
      remainder = omega (arith, div);
      whole = div;
      below = mod-lt x (omega arith);
      lb = lb;
      ub = ub;
      low = lt_of_not-le (λ h. let l = c.least b lb h in absurd (omega (arith, l, positive)));
      high = omega (arith, enough, power);
      small = omega (arith, bound, power);
    }

module _ {S : Type 0} (source : BitSource S) (Left : S → List ℕ → Type 0)
    (lawful : IsBitSource source Left) where
  -- A remainder that is complete.
  read_last-short :
      (q b nr_sc r : ℕ) (s : S)
      → r < nr_sc
      → r + q * b < 2 ^ 31
      → read_last source q b nr_sc r s ≡ some (s, pos (r + q * b))
  unfolding read_last
  read_last-short q b nr_sc r s h small =
      let n = r + q * b in
      let e : n % 2 ^ 32 ≡ n = omega (arith, small) in
      let complete : leb nr_sc r ≡ false = ground arith in
      rw (complete, e) (ap (λ v. some (s, v)) (signed32-unsigned32 (pos n) small))

  -- A remainder that has one more bit.
  read_last-long :
      (q b nr_sc r bit : ℕ) (s : S) (bits : List ℕ)
      → nr_sc ≤ r
      → r < 2 ^ 30
      → bit < 2
      → r * 2 + bit - nr_sc + q * b < 2 ^ 31
      → Left s (bit ∷ bits)
      → (t : S) × (read_last source q b nr_sc r s ≡ some (t, pos (r * 2 + bit - nr_sc + q * b)))
        × Left t bits
  unfolding read_last
  read_last-long q b nr_sc r bit s bits h hr hb small left =
      let (t, run, after) = lawful.next s bit bits hb left in
      let n = r * 2 + bit - nr_sc + q * b in
      let joined = append_bit-lt r bit (omega (arith, hr)) hb in
      let e : (append_bit r bit + 2 ^ 32 - nr_sc + q * b) % 2 ^ 32 ≡ n =
        omega (arith, small, joined) in
      let more : leb nr_sc r ≡ true = ground arith in
      (t, rw (more, run, e) (ap (λ v. some (t, v)) (signed32-unsigned32 (pos n) small)), after)

  -- The binary part.
  abbrev finish : ℕ → ℕ → ℕ → ℕ → S → Option (S × ℤ)
  finish q b nr_sc lb s = elim (read_bits source lb 0 s) [
    | none ↦ none
    | some binary ↦ read_last source q b nr_sc binary.1 binary.0
  ]

  finish_step :
      (q b nr_sc lb r : ℕ) (s t : S)
      → read_bits source lb 0 s ≡ some (t, r)
      → finish q b nr_sc lb s ≡ read_last source q b nr_sc r t
  finish_step q b nr_sc lb r s t e = rw (finish, e) refl

  finish-Left :
      (q b nr_sc lb res : ℕ) (s : S) (bits : List ℕ)
      → nr_sc + b ≡ 2 ^ lb * 2
      → res < b
      → 2 ^ lb < b
      → 2 ^ lb * 2 ≤ 2 ^ 30
      → res + q * b < 2 ^ 31
      → Left s (rest_bits res nr_sc (suc lb) ++ bits)
      → (r : S) × (finish q b nr_sc lb s ≡ some (r, pos (res + q * b))) × Left r bits
  unfolding rest_bits
  finish-Left q b nr_sc lb res s bits total below low small fits left =
      elim (Bool-cases (ltb res nr_sc)) [
        | inl shorter ↦
            let less : res < nr_sc = ground arith in
            let pred : suc lb - 1 ≡ lb = omega arith in
            let start : res / 2 ^ lb ≡ 0 = div-eq_of_lt (omega (arith, less, total, low)) in
            let (t, run, after) =
              read_bits-Left source Left lawful lb res s bits
                (omega (arith, below, low, small, total)) (rw (rest_bits, shorter, pred) at left) in
            let last = read_last-short q b nr_sc res t less fits in
            (t, finish_step q b nr_sc lb res s t (rw start at run) ∙ last, after)
        | inr longer ↦
            let v = res + nr_sc in
            let halves : v ≡ v / 2 * 2 + v % 2 = omega arith in
            let split : low_bits (suc lb) v ≡ low_bits lb (v / 2) ++ v % 2 ∷ [] =
              ap (low_bits (suc lb)) halves ∙ low_bits-double lb (v / 2) (v % 2) (omega arith) in
            let left' : Left s (low_bits lb (v / 2) ++ v % 2 ∷ bits) =
              subst (Left s) (append_assoc (low_bits lb (v / 2)) (v % 2 ∷ []) bits)
                (rw (rest_bits, longer, split) at left) in
            let more : nr_sc ≤ res = ground arith in
            let start : v / 2 / 2 ^ lb ≡ 0 = div-eq_of_lt (omega (arith, below, total)) in
            let (t, run, after) =
              read_bits-Left source Left lawful lb (v / 2) s (v % 2 ∷ bits)
                (omega (arith, below, small, total)) left' in
            let value : v / 2 * 2 + v % 2 - nr_sc ≡ res = omega arith in
            let (r, last, done) =
              read_last-long q b nr_sc (v / 2) (v % 2) t bits (omega (arith, more))
                (omega (arith, below, small, total)) (omega arith) (rw value fits) after in
            (
              r,
              finish_step q b nr_sc lb (v / 2) s t (rw start at run)
                  ∙ last
                  ∙ ap (λ n. some (r, pos (n + q * b))) value,
              done,
            )
      ]

  unary_step :
      (ceil_log2 : ℕ → ℕ) (b q lb : ℕ) (s t : S)
      → read_unary source (source.bits_left s + 1) 0 s ≡ some (t, q)
      → ceil_log2 b - 1 ≡ lb
      → read_golomb_code source ceil_log2 b s ≡ finish q b (2 ^ ceil_log2 b - b) lb t
  unfolding read_golomb_code
  unary_step ceil_log2 b q lb s t e l =
      let same = ap (λ n. finish q b (2 ^ ceil_log2 b - b) n t) l in rw (read_golomb_code, e) same

  -- Where the code of a number below 2^31 for a divisor from 2 up to 2^30 is the first of the bits that
  -- are left, the reader returns the number and leaves the bits after the code.
  pub read_golomb_code_lem :
      (ceil_log2 : ℕ → ℕ) (x b : ℕ) (s : S) (bits : List ℕ)
      → IsCeilLog2 ceil_log2
      → 2 ≤ b
      → b ≤ 2 ^ 30
      → x < 2 ^ 31
      → Left s (golomb_bits ceil_log2 x b ++ bits)
      → (r : S) × (read_golomb_code source ceil_log2 b s ≡ some (r, pos x)) × Left r bits
  unfolding read_golomb_code
  read_golomb_code_lem ceil_log2 x b s bits c lo hi small left =
      let p = golomb-Parts ceil_log2 x b c lo hi in
      let q = x / b in
      let ub = ceil_log2 b in
      let nr_sc = 2 ^ ub - b in
      let power : 2 ^ ub ≡ 2 ^ p.lb * 2 = ap (λ u. 2 ^ u) p.ub ∙ pow-suc 2 p.lb ∙ omega arith in
      let code = rest_bits (x - q * b) nr_sc ub in
      let left' : Left s (replicate q 1 ++ 0 ∷ (code ++ bits)) =
        subst (Left s) (append_assoc (replicate q 1) (0 ∷ code) bits) left in
      let fuel = lawful.bounded s _ left' in
      let ones = length-append (replicate q 1) (0 ∷ (code ++ bits)) in
      let count = length-replicate {A = ℕ} q 1 in
      let (t, unary, after) =
        read_unary-Left source Left lawful q (source.bits_left s + 1) 0 s (code ++ bits)
          (omega (arith, fuel, ones, count)) left' in
      let (r, run, done) =
        finish-Left q b nr_sc p.lb p.res t bits (omega (arith, power, p.high)) p.below p.low p.small
          (omega (arith, p.whole, small))
          (subst (λ n. Left t (rest_bits n nr_sc (suc p.lb) ++ bits)) p.remainder
            (subst (λ u. Left t (rest_bits (x - q * b) nr_sc u ++ bits)) p.ub after)) in
      let starts : 0 + q ≡ q = omega arith in
      let step =
        unary_step ceil_log2 b q p.lb s t (unary ∙ ap (λ n. some (t, n)) starts)
          (omega (arith, p.ub)) in
      (r, step ∙ run ∙ ap (λ n. some (r, pos n)) p.whole, done)
