-- ===== src/BitIo/WriteWord.antt =====
-- `BFwriteWord`: the bits of a word, through the bytes of its network order.
use mathlib.Core.Path.{subst}
use cwb.Base.{
  ℕ, zero, suc, ◌+◌, ◌-◌, ◌*◌, ◌/◌, ◌%◌, ◌^◌, ◌≤◌, ◌≡◌, refl, sym, ap, ◌∙◌, some, false, ◌++◌,
  arith, ◌==◌, ltb,
}
use native.Mathlib.Decide.{ℕ_discrete}
use cwb.BitIo.File.{BFile, net_byte, bf_write_bytes, bf_write_word}
use cwb.BitIo.Bits.{low_bits, low_bits-append, low_bits-mod, length-low_bits}
use cwb.BitIo.Write.{IsReady, free, Wrote, Wrote-nil, Wrote-append, bf_write-Wrote}

-- The bits of the byte that stands `left` bytes from the end.
net_byte-bits :
    (left n word : ℕ)
    → left ≤ 3
    → n ≤ 8
    → low_bits n (net_byte word (3 - left)) ++ low_bits (left * 8) word
      ≡ low_bits (n + left * 8) word
net_byte-bits left n word h hn =
    let e : 8 * (3 - (3 - left)) ≡ left * 8 = omega arith in
    rw e (
      ap (λ bits. bits ++ low_bits (left * 8) word) (low_bits-mod n 8 (word / 2 ^ (left * 8)) hn)
      ∙ sym (low_bits-append n (left * 8) word))

bf_write_bytes-Wrote :
    (left word : ℕ) (s : BFile)
    → IsReady s
    → left ≤ 4
    → left * 8 ≤ free s
    → (r : BFile) × (bf_write_bytes left word s ≡ some (r, 1))
      × Wrote s (low_bits (left * 8) word) r
unfolding bf_write_bytes low_bits
bf_write_bytes-Wrote zero word s ready h space = (s, refl, Wrote-nil s ready)
bf_write_bytes-Wrote (suc left) word s ready h space =
    let byte = net_byte word (3 - left) in
    let (r1, run1, w1) = bf_write-Wrote byte 8 s ready (omega arith) (omega arith) (omega arith) in
    let n = length-low_bits 8 byte in
    let (r, run, w) =
      bf_write_bytes-Wrote left word r1 w1.ready (omega arith) (omega (arith, w1.space, n)) in
    let more : 8 + left * 8 ≡ suc left * 8 = omega arith in
    let bits : low_bits 8 byte ++ low_bits (left * 8) word ≡ low_bits (suc left * 8) word =
      net_byte-bits left 8 word (omega arith) (omega arith) ∙ ap (λ m. low_bits m word) more in
    (
      r,
      rw (bf_write_bytes, run1) run,
      subst (λ l. Wrote s l r) bits
          (Wrote-append (low_bits 8 byte) (low_bits (left * 8) word) w1 w),
    )

-- `BFwriteWord` on an output stream with up to 32 bits: if that many bits can still be written, it
-- returns 1 and appends the low bits of the word, the most significant first, to the bits written so
-- far.
pub bf_write_word-Wrote :
    (word n : ℕ) (s : BFile)
    → IsReady s
    → n ≤ 32
    → n ≤ free s
    → (r : BFile) × (bf_write_word word n s ≡ some (r, 1)) × Wrote s (low_bits n word) r
unfolding bf_write_word
bf_write_word-Wrote word n s ready h space =
    let legal : ltb 32 n ≡ false = ground arith in
    let bytes = n / 8 in
    elim (ℕ_discrete (n % 8) 0) [
      | yes e ↦
          let whole : bytes * 8 ≡ n = omega arith in
          let (r, run, w) = bf_write_bytes-Wrote bytes word s ready (omega arith) (omega arith) in
          (r, rw (legal, e) run, subst (λ m. Wrote s (low_bits m word) r) whole w)
      | no ne ↦
          let part : (n % 8 == 0) ≡ false = ground arith in
          let byte = net_byte word (3 - bytes) in
          let (r1, run1, w1) =
            bf_write-Wrote byte (n % 8) s ready (omega arith) (omega arith) (omega arith) in
          let size = length-low_bits (n % 8) byte in
          let (r, run, w) =
            bf_write_bytes-Wrote bytes word r1 w1.ready (omega arith)
              (omega (arith, w1.space, size)) in
          let total : n % 8 + bytes * 8 ≡ n = omega arith in
          let bits : low_bits (n % 8) byte ++ low_bits (bytes * 8) word ≡ low_bits n word =
            net_byte-bits bytes (n % 8) word (omega arith) (omega arith)
            ∙ ap (λ m. low_bits m word) total in
          (
            r,
            rw (legal, part, run1) run,
            subst (λ l. Wrote s l r) bits
                (Wrote-append (low_bits (n % 8) byte) (low_bits (bytes * 8) word) w1 w),
          )
    ]
