-- ===== src/BitIo/Read.antt =====
-- `BFread`: bits are taken from the front of the file's bit string.
use native.Mathlib.Decide.{ℕ_discrete}
use native.Mathlib.Nat.{pow-suc, div-div-eq-div-mul, div-le_self, div-eq_of_lt, pow-le-pow_right}
use cwb.Base.{
  ℕ, zero, suc, ◌+◌, ◌-◌, ◌*◌, ◌/◌, ◌%◌, ◌^◌, ◌≤◌, ◌<◌, ◌≡◌, refl, sym, ap, ◌∙◌, List, [], ◌∷◌,
  ◌++◌, arith, false, ◌==◌, length, get_or, List-cases, inl, inr,
}
use cwb.Base.Bits.{bit_of, bit_or_double}
use cwb.Bitfield.Cells.{test-bit_of}
use cwb.BitIo.Buffer.{shift_in, top_mask, shift_out}
use cwb.BitIo.File.{BFile, get_byte, bf_read_loop, bf_read}
use cwb.BitIo.Bits.{low_bits, top_bits, all_bits, top_bits-low_bits}

-- Shifting the top bit of the buffer into the data.
pub shift_in-top : (d buf : ℕ) → buf < 256 → shift_in d buf top_mask ≡ d * 2 % 256 + bit_of buf 7
unfolding shift_in
shift_in-top d buf h =
    let e : d * 2 % 256 ≡ d % 128 * 2 = omega arith in
    rw e
      (ground (arith, test-bit_of buf 7 h (omega arith), bit_or_double (d % 128) 1 (omega arith)))

-- At most a byte is in the buffer, and the file holds bytes.
pub record IsReading (s : BFile) : Type 0 where
  pub fits : s.bits_in_buf ≤ 8
  pub small : s.buf < 256
  pub bytes : (i : ℕ) → get_or s.input i 0 < 256

-- The bits still to be read.
abbrev pub unread : BFile → List ℕ
unread s = top_bits s.bits_in_buf s.buf ++ all_bits s.input

abbrev taken : BFile → BFile
taken l = record l { buf = shift_out l.buf; bits_in_buf = l.bits_in_buf - 1 }

-- The refill at the head of a round, for a stream that is not at its end.
record Loads (n d : ℕ) (s l : BFile) : Type 0 where
  reading : IsReading l
  some_bits : 0 < l.bits_in_buf
  same : unread l ≡ unread s
  round : bf_read_loop (suc n) d s ≡ bf_read_loop n (shift_in d l.buf top_mask) (taken l)

refill :
    (n d : ℕ) (s : BFile) (b : ℕ) (bs : List ℕ)
    → IsReading s
    → s.bits_in_buf ≡ 0
    → s.input ≡ b ∷ bs
    → (l : BFile) × Loads n d s l
unfolding bf_read_loop get_byte all_bits top_bits low_bits
refill n d s b bs v e input =
    let byte : b < 256 = rw input at (v.bytes 0) in
    (
      record s { input = bs; buf = b; position = s.position + 1; bits_in_buf = 8 },
      record {
        reading = record {
          fits = omega arith;
          small = byte;
          bytes = λ i. rw input at (v.bytes (suc i));
        };
        some_bits = omega arith;
        same = rw (e, input) (ap (λ t. t ++ all_bits bs) (top_bits-low_bits b byte));
        round = rw (e, input);
      },
    )

loads :
    (n d : ℕ) (s : BFile) (bit : ℕ) (rest : List ℕ)
    → IsReading s
    → unread s ≡ bit ∷ rest
    → (l : BFile) × Loads n d s l
unfolding bf_read_loop top_bits all_bits
loads n d s bit rest v e = elim (ℕ_discrete s.bits_in_buf 0) [
  | no ne ↦
      let full : (s.bits_in_buf == 0) ≡ false = ground arith in
      (s, record { reading = v; some_bits = omega arith; same = refl; round = rw full })
  | yes z ↦ elim (List-cases s.input) [
    | inl none_left ↦ absurd (cc (rw (z, none_left) at e))
    | inr (b, bs, input) ↦ refill n d s b bs v z input
  ]
]

-- At the end of the file a round fails.
pub round_fails : (n d : ℕ) (s : BFile) → unread s ≡ [] → bf_read_loop (suc n) d s ≡ (s, d, 0)
unfolding bf_read_loop top_bits all_bits low_bits get_byte
round_fails n d s e = elim (ℕ_discrete s.bits_in_buf 0) [
  | yes z ↦ elim (List-cases s.input) [
    | inl none_left ↦ rw (z, none_left)
    | inr (b, bs, input) ↦ absurd (cc (rw (z, input) at e))
  ]
  | no ne ↦ let k : s.bits_in_buf ≡ suc (s.bits_in_buf - 1) = omega arith in absurd (cc (rw k at e))
]

-- Taking the top bit off a loaded buffer.
taken-unread :
    (l : BFile) (bit : ℕ) (rest : List ℕ)
    → IsReading l
    → 0 < l.bits_in_buf
    → unread l ≡ bit ∷ rest
    → (bit_of l.buf 7 ≡ bit) × (unread (taken l) ≡ rest) × IsReading (taken l)
unfolding top_bits
taken-unread l bit rest v h e =
    let k : l.bits_in_buf ≡ suc (l.bits_in_buf - 1) = omega arith in
    let e' : bit_of l.buf 7 ∷ (top_bits (l.bits_in_buf - 1) (shift_out l.buf) ++ all_bits l.input)
        ≡ bit ∷ rest =
      rw k at e in
    (cc, cc, record { fits = omega (arith, v.fits); small = omega arith; bytes = v.bytes })

-- Reading n bits when they are those of d, the high bits of d being read already.
loop-unread :
    (n d : ℕ) (s : BFile) (rest : List ℕ)
    → IsReading s
    → d < 256
    → unread s ≡ low_bits n d ++ rest
    → (r : BFile) × (bf_read_loop n (d / 2 ^ n) s ≡ (r, d, 1)) × (unread r ≡ rest) × IsReading r
unfolding low_bits bf_read_loop
loop-unread zero d s rest v hd e = let same : d / 2 ^ 0 ≡ d = omega arith in (s, rw same, e, v)
loop-unread (suc n) d s rest v hd e =
    let (l, ld) = loads n (d / 2 ^ suc n) s (bit_of d n) (low_bits n d ++ rest) v e in
    let (bit, next, v1) =
      taken-unread l (bit_of d n) (low_bits n d ++ rest) ld.reading ld.some_bits (ld.same ∙ e) in
    let half : d / 2 ^ suc n ≡ d / 2 ^ n / 2 =
      rw (pow-suc 2 n) (sym (div-div-eq-div-mul d (2 ^ n) 2)) in
    let below = div-le_self d (2 ^ n) in
    let data_byte : shift_in (d / 2 ^ suc n) l.buf top_mask ≡ d / 2 ^ n =
      shift_in-top (d / 2 ^ suc n) l.buf ld.reading.small ∙ omega (arith, bit, half, below) in
    let (r, run, left, v2) = loop-unread n d (taken l) rest v1 hd next in
    (r, ld.round ∙ rw data_byte run, left, v2)

-- `BFread` of up to 8 bits: if the bits still to be read begin with the n bits of a number d below
-- 2^n, it returns 1 and d, and the rest remains to be read.
pub bf_read-unread :
    (n d : ℕ) (s : BFile) (rest : List ℕ)
    → IsReading s
    → n ≤ 8
    → d < 2 ^ n
    → unread s ≡ low_bits n d ++ rest
    → (r : BFile) × (bf_read n s ≡ (r, d, 1)) × (unread r ≡ rest) × IsReading r
unfolding bf_read
bf_read-unread n d s rest v hn hd e =
    let bound : 2 ^ n ≤ 2 ^ 8 = pow-le-pow_right (omega arith) hn in
    let start : d / 2 ^ n ≡ 0 = div-eq_of_lt hd in
    let (r, run, left, w) = loop-unread n d s rest v (omega (arith, hd, bound)) e in
    (r, rw start at run, left, w)

loop_short :
    (n d : ℕ) (s : BFile) → IsReading s → length (unread s) < n → (bf_read_loop n d s).2 ≡ 0
loop_short zero d s v h = absurd (omega arith)
loop_short (suc n) d s v h = elim (List-cases (unread s)) [
  | inl e ↦ ap (λ t. t.2) (round_fails n d s e)
  | inr (bit, rest, e) ↦
      let (l, ld) = loads n d s bit rest v e in
      let (_, next, v1) = taken-unread l bit rest ld.reading ld.some_bits (ld.same ∙ e) in
      let short =
        loop_short n (shift_in d l.buf top_mask) (taken l) v1
          (omega (arith, ap length e, ap length next)) in
      ap (λ t. t.2) ld.round ∙ short
]

-- If fewer bits are left than are to be read, `BFread` returns 0.
pub bf_read_short : (n : ℕ) (s : BFile) → IsReading s → length (unread s) < n → (bf_read n s).2 ≡ 0
unfolding bf_read
bf_read_short n s v h = loop_short n 0 s v h
