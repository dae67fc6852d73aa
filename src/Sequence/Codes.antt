-- ===== src/Sequence/Codes.antt =====
-- Huffman codes, and that the loop of `cl_cpos2id` over their bits finds the item.
use mathlib.Core.Option.{some-injective, none-ne-some}
use mathlib.Core.Path.{subst}
use native.Mathlib.Nat.{
  pow-suc, pow-le-pow_right, div-lt_iff_lt-mul, one-le-pow, div-le_self, div-lt_iff_lt-mul,
  one-le-pow, div-div-eq-div-mul,
}
use cwb.Base.{
  ℕ, zero, suc, ◌+◌, ◌-◌, ◌*◌, ◌/◌, ◌%◌, ◌^◌, ◌≤◌, ◌<◌, ◌≡◌, refl, sym, ap, ◌∙◌, true, false, some,
  List, [], ◌∷◌, ◌++◌, arith, if◌then◌else◌, ltb, ◌==◌, get_elem?, drop, ℕ-cases, inl, inr,
}
use cwb.Base.Bits.{bit_of}
use cwb.BitIo.Stream.{BStream}
use cwb.BitIo.Bits.{low_bits}
use cwb.Compression.Sources.{StreamLeft, read_one_stream}
use cwb.Index.Positional.{Hcd}
use cwb.Sequence.Decode.{found, read_code, start_code}

-- The code of an item is the l low bits of v: v is not below the least code of l bits, while its
-- first bits are below the least code of their number, and the item stands in the table of symbols.
pub record IsCode (hc : Hcd) (item l v : ℕ) : Type 0 where
  pub m : ℕ
  pub first : ℕ
  pub positive : 0 < l
  pub short : l ≤ 31
  pub fits : v < 2 ^ l
  pub least : get_elem? hc.min_code l ≡ some m
  pub above : m ≤ v
  pub index : get_elem? hc.symindex l ≡ some first
  pub at : get_elem? hc.symbols (first + v - m) ≡ some item
  pub below :
      (k d : ℕ)
      → 0 < k
      → k + suc d ≡ l
      → (m' : ℕ) × (get_elem? hc.min_code k ≡ some m') × (v / 2 ^ suc d < m')

drop-get_elem? : (xs : List ℕ) (k m : ℕ) → get_elem? xs k ≡ some m → drop k xs ≡ m ∷ drop (k + 1) xs
drop-get_elem? [] k m e = absurd (none-ne-some m e)
drop-get_elem? (x ∷ xs) zero m e = ap (λ y. y ∷ xs) (some-injective x m e)
drop-get_elem? (x ∷ xs) (suc k) m e =
    let next : suc (k + 1) ≡ suc k + 1 = omega arith in
    drop-get_elem? xs k m e ∙ ap (λ n. m ∷ drop n (x ∷ xs)) next

bit_as_number : (v d : ℕ) → (if bit_of v d == 0 then 0 else 1) ≡ bit_of v d
bit_as_number v d = ground arith

top_bit : (v d : ℕ) → v < 2 ^ suc d → bit_of v d ≡ v / 2 ^ d
top_bit v d h =
    let power = pow-suc 2 d in
    let small : v / 2 ^ d < 2 =
      (div-lt_iff_lt-mul (one-le-pow d 2 (omega arith))).1 (omega (arith, h, power)) in
    omega (arith, small)

module _ (hc : Hcd) (item l v : ℕ) (code : IsCode hc item l v) where
  -- One more bit.
  one_bit : (d : ℕ) → v / 2 ^ suc d * 2 % 2 ^ 32 + bit_of v d ≡ v / 2 ^ d
  one_bit d =
      let half : v / 2 ^ suc d ≡ v / 2 ^ d / 2 =
        rw (pow-suc 2 d) (sym (div-div-eq-div-mul v (2 ^ d) 2)) in
      let bound : 2 ^ l ≤ 2 ^ 31 = pow-le-pow_right (omega arith) code.short in
      omega (arith, half, bound, code.fits, div-le_self v (2 ^ d))

  read_code-IsCode :
      (d k : ℕ) (s : BStream) (bits : List ℕ)
      → k + d ≡ l
      → 0 < k
      → StreamLeft s (low_bits d v ++ bits)
      → (r : BStream) × (read_code (drop k hc.min_code) k (v / 2 ^ d) s ≡ some (found r l v code.m))
        × StreamLeft r bits
  unfolding read_code low_bits
  read_code-IsCode zero k s bits e h left =
      let k_is : k ≡ l = omega (arith, e) in
      let here : drop k hc.min_code ≡ code.m ∷ drop (k + 1) hc.min_code =
        drop-get_elem? hc.min_code k code.m (rw k_is code.least) in
      let all : v / 2 ^ 0 ≡ v = omega arith in
      let stop : ltb v code.m ≡ false = ground (arith, code.above) in
      let run : read_code (drop k hc.min_code) k v s ≡ some (found s k v code.m) =
        rw (here, read_code, stop) refl in
      (
        s,
        ap (λ w. read_code (drop k hc.min_code) k w s) all
            ∙ run
            ∙ ap (λ n. some (found s n v code.m)) k_is,
        left,
      )
  read_code-IsCode (suc d) k s bits e h left =
      let (m', least, more) = code.below k d h e in
      let here = drop-get_elem? hc.min_code k m' least in
      let go : ltb (v / 2 ^ suc d) m' ≡ true = ground (arith, more) in
      let (t, run, left') =
        read_one_stream s (bit_of v d) (low_bits d v ++ bits) (omega arith) left in
      let (r, rest, left'') =
        read_code-IsCode d (k + 1) t bits (omega (arith, e)) (omega arith) left' in
      (r, rw (here, read_code, go, run, bit_as_number v d, one_bit d) rest, left'')

  pub start_code-IsCode :
      (s : BStream) (bits : List ℕ)
      → StreamLeft s (low_bits l v ++ bits)
      → (r : BStream) × (start_code hc s ≡ some (found r l v code.m)) × StreamLeft r bits
  unfolding start_code low_bits
  start_code-IsCode s bits left = elim (ℕ-cases l) [
    | inl e ↦ absurd (omega (arith, e, code.positive))
    | inr (d, e) ↦
        let whole : v < 2 ^ suc d = subst (λ n. v < 2 ^ n) e code.fits in
        let first : bit_of v d ≡ v / 2 ^ d = top_bit v d whole in
        let left' : StreamLeft s (low_bits (suc d) v ++ bits) =
          subst (λ n. StreamLeft s (low_bits n v ++ bits)) e left in
        let (t, run, left'') =
          read_one_stream s (bit_of v d) (low_bits d v ++ bits) (omega arith) left' in
        let (r, rest, last) = read_code-IsCode d 1 t bits (omega (arith, e)) (omega arith) left'' in
        (
          r,
          rw (start_code, run, bit_as_number v d)
              (ap (λ w. read_code (drop 1 hc.min_code) 1 w t) first ∙ rest),
          last,
        )
  ]
