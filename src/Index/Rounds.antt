-- ===== src/Index/Rounds.antt =====
-- The loop of `compress_reversed_index`: at every offset that it returns stands the code of its element.
use mathlib.Core.Path.{subst}
use cwb.Base.{
  ℕ, zero, suc, ◌+◌, ◌*◌, ◌^◌, ◌≤◌, ◌<◌, ◌≡◌, refl, some, List, [], ◌∷◌, arith, length, get_elem?,
}
use cwb.Base.Int.{ℤ}
use cwb.BitIo.File.{BFile}
use cwb.BitIo.Extends.{Extends, Extends-refl, Extends-trans}
use cwb.Compression.Golomb.{compute_ba}
use cwb.Compression.Code.{IsCeilLog2}
use cwb.Index.Positional.{PosAttribute}
use cwb.Index.Restrict.{Ascends}
use cwb.Index.Streams.{PositionStream}
use cwb.Index.Reading.{Delivers}
use cwb.Index.Compress.{element_freq, open_stream, write_elements}
use cwb.Index.Elements.{Coded, Coded-Extends, IsIdle, Added, code_of, write_element-Added}

module _ (ceil_log2 : ℕ → ℕ) (ratio : ℕ → ℕ → ℤ) where
  -- The element has these positions, which can be read from a stream.
  pub record Row (a : PosAttribute) (size i : ℕ) (buffer : List ℕ) : Type 0 where
    pub ps : PositionStream
    pub divisor : compute_ba ratio (length buffer) size ≤ 2 ^ 30
    pub freq : element_freq a i ≡ some (length buffer)
    pub stream : open_stream ceil_log2 ratio a i ≡ some ps
    pub delivers : Delivers ceil_log2 ratio ps buffer
    pub ascends : Ascends 0 buffer

  -- The bits of the codes of n elements from i on, and up to 7 after each.
  unfoldable pub bits_needed : ℕ → (ℕ → List ℕ) → ℕ → ℕ → ℕ
  bits_needed size positions i zero = 0
  bits_needed size positions i (suc n) =
      length (code_of ceil_log2 ratio size (positions i)) + 7 + bits_needed size positions (i + 1) n

  pub record Rounds (size : ℕ) (positions : ℕ → List ℕ) (i n : ℕ) (s r : BFile) (offsets : List ℕ)
      : Type 0 where
    pub idle : IsIdle r
    pub extends : Extends s r
    pub coded :
        (k : ℕ)
        → k < n
        → (o : ℕ) × (get_elem? offsets k ≡ some o)
          × Coded r.output o (code_of ceil_log2 ratio size (positions (i + k)))

  found_code :
      (size : ℕ) (positions : ℕ → List ℕ) (i n : ℕ) (s t r : BFile) (offsets : List ℕ)
      → Added s (code_of ceil_log2 ratio size (positions i)) t
      → Rounds size positions (i + 1) n t r offsets
      → (k : ℕ) → k < suc n
      → (o : ℕ) × (get_elem? (length s.output ∷ offsets) k ≡ some o)
        × Coded r.output o (code_of ceil_log2 ratio size (positions (i + k)))
  found_code size positions i n s t r offsets first rest zero h =
      let code = code_of ceil_log2 ratio size in
      let here = Coded-Extends (length s.output) (code (positions i)) rest.extends first.coded in
      let same : i ≡ i + 0 = omega arith in
      (
        length s.output,
        refl,
        subst (λ m. Coded r.output (length s.output) (code (positions m))) same here,
      )
  found_code size positions i n s t r offsets first rest (suc k) h =
      let code = code_of ceil_log2 ratio size in
      let (o, found, there) = rest.coded k (omega (arith, h)) in
      let same : i + 1 + k ≡ i + suc k = omega arith in
      (o, found, subst (λ m. Coded r.output o (code (positions m))) same there)

  module _ (c : IsCeilLog2 ceil_log2) (a : PosAttribute) (size : ℕ) (positions : ℕ → List ℕ)
      (count : ℕ) (rows : (i : ℕ) → i < count → Row a size i (positions i)) where
    pub write_elements-Rounds :
        (n i : ℕ) (s : BFile)
        → i + n ≤ count
        → IsIdle s
        → bits_needed size positions i n ≤ s.room * 8
        → s.position * 8 + bits_needed size positions i n ≤ 2 ^ 35
        → (r : BFile) × (offsets : List ℕ) × (write_elements ceil_log2 ratio a size n i s
            ≡ some (r, offsets))
          × Rounds size positions i n s r offsets
    unfolding write_elements bits_needed
    write_elements-Rounds zero i s below idle space near = (
      s,
      [],
      refl,
      record { idle = idle; extends = Extends-refl s; coded = λ k h. absurd (omega (arith, h)) },
    )
    write_elements-Rounds (suc n) i s below idle space near =
        let row = rows i (omega (arith, below)) in
        let (t, run, first) =
          write_element-Added ceil_log2 ratio c a size i (positions i) row.ps s row.divisor row.freq
            row.stream row.delivers row.ascends idle (omega (arith, near)) (omega (arith, space)) in
        let (r, offsets, more, rest) =
          write_elements-Rounds n (i + 1) t (omega (arith, below)) first.idle
            (omega (arith, space, first.space)) (omega (arith, near, first.near)) in
        (
          r,
          length s.output ∷ offsets,
          rw (write_elements, run, more) refl,
          record {
            idle = rest.idle;
            extends = Extends-trans first.extends rest.extends;
            coded = found_code size positions i n s t r offsets first rest;
          },
        )
