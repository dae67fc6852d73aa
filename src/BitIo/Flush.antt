-- ===== src/BitIo/Flush.antt =====
-- `BFflush` on an output file.
use mathlib.Core.List.{append-nil, append_assoc}
use native.Mathlib.Decide.{ℕ_discrete}
use native.Mathlib.Nat.{one-le-pow, mul-mod_left, mul-div_left}
use cwb.Base.{
  ℕ, zero, suc, ◌+◌, ◌-◌, ◌*◌, ◌/◌, ◌%◌, ◌^◌, ◌≤◌, ◌<◌, ◌≡◌, refl, sym, ap, ◌∙◌, some, [], ◌∷◌,
  ◌++◌, arith, if◌then◌else◌, ◌==◌, replicate,
}
use cwb.BitIo.Buffer.{writing, align_left}
use cwb.BitIo.File.{BFile, bf_flush}
use cwb.BitIo.Bits.{low_bits, all_bits, all_bits-append}
use cwb.BitIo.Bits.{low_bits-append, low_bits-mod}
use cwb.BitIo.Write.{IsReady, written}
use cwb.BitIo.Extends.{Extends, Extends-refl, Extends-byte}

low_bits-zero : (j : ℕ) → low_bits j 0 ≡ replicate j 0
unfolding low_bits
low_bits-zero zero = refl
low_bits-zero (suc j) = rw (low_bits-zero j) (ap (λ t. t ∷ replicate j 0) (omega arith))

-- Bits moved to the left leave zeros.
low_bits-shift : (k j x : ℕ) → low_bits (k + j) (x * 2 ^ j) ≡ low_bits k x ++ replicate j 0
low_bits-shift k j x =
    let back : x * 2 ^ j / 2 ^ j ≡ x = mul-div_left x (one-le-pow j 2 (omega arith)) in
    let zeros : low_bits j (x * 2 ^ j) ≡ replicate j 0 =
      sym (low_bits-mod j j (x * 2 ^ j) (omega arith))
      ∙ ap (low_bits j) (mul-mod_left x (2 ^ j))
      ∙ low_bits-zero j in
    rw (low_bits-append k j (x * 2 ^ j), back, zeros)

align_left-bits :
    (k x : ℕ) → k ≤ 8 → low_bits 8 (align_left x k) ≡ low_bits k x ++ replicate (8 - k) 0
unfolding align_left
align_left-bits k x h =
    let j = 8 - k in
    let eight : 8 ≡ k + j = omega arith in
    low_bits-mod 8 8 (x * 2 ^ j) (omega arith)
    ∙ ap (λ n. low_bits n (x * 2 ^ j)) eight
    ∙ low_bits-shift k j x

align_left-lt : (x k : ℕ) → align_left x k < 256
unfolding align_left
align_left-lt x k = omega arith

-- `r` is `s` after its buffer is written, filled up with zeros.
pub record Flushed (s r : BFile) : Type 0 where
  pub empty : r.bits_in_buf ≡ 0
  pub ready : IsReady r
  pub mode : r.mode ≡ s.mode
  pub contents : all_bits r.output ≡ written s ++ replicate ((8 - s.bits_in_buf) % 8) 0
  pub extends : Extends s r

-- `BFflush` on an output stream with room for a byte if bits are in the buffer: an incomplete byte is
-- filled up with zeros and written, and 1 returned; with nothing in the buffer nothing is written and 0
-- is returned. In both cases the bits of the file are then those written so far and the zeros, and the
-- position has advanced by the number of bytes that were added.
pub bf_flush-Flushed :
    (s : BFile)
    → IsReady s
    → s.mode ≡ writing
    → (0 < s.bits_in_buf → 0 < s.room)
    → (r : BFile) × (bf_flush s ≡ some (r, if s.bits_in_buf == 0 then 0 else 1)) × Flushed s r
unfolding bf_flush low_bits all_bits
bf_flush-Flushed s ready m space = elim (ℕ_discrete s.bits_in_buf 0) [
  | yes e ↦ (
    s,
    ground arith,
    record {
      empty = e;
      ready = ready;
      mode = refl;
      contents = rw e (sym (append-nil (all_bits s.output ++ []) ∙ append-nil (all_bits s.output)));
      extends = Extends-refl s;
    },
  )
  | no ne ↦
      let v = align_left s.buf s.bits_in_buf in
      let roomy = space (omega (arith, ne)) in
      let pad : (8 - s.bits_in_buf) % 8 ≡ 8 - s.bits_in_buf = omega arith in
      let fits = ready.fits in
      (
        record s {
          output = s.output ++ v ∷ [];
          room = s.room - 1;
          position = s.position + 1;
          buf = 0;
          bits_in_buf = 0;
        },
        ground arith,
        record {
          empty = refl;
          ready = record { fits = omega arith; small = omega arith };
          mode = refl;
          contents = rw pad (
              all_bits-append s.output (v ∷ [])
              ∙ ap (λ l. all_bits s.output ++ l)
                  (append-nil (low_bits 8 v) ∙ align_left-bits s.bits_in_buf s.buf (omega arith))
              ∙ sym (append_assoc (all_bits s.output) (low_bits s.bits_in_buf s.buf) _));
          extends = Extends-byte s _ v (align_left-lt s.buf s.bits_in_buf) roomy refl refl refl;
        },
      )
]
