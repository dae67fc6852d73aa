-- ===== src/BitIo/Write.antt =====
-- `BFwrite` and `BFflush` on an output file: the bits go to the end of the file's bit string.
use mathlib.Core.List.{append-nil, append_assoc}
use native.Mathlib.Decide.{ℕ_discrete}
use native.Mathlib.Nat.{pow-suc, one-le-pow, pow-le-pow_right}
use cwb.Base.{
  ℕ, zero, suc, ◌+◌, ◌-◌, ◌*◌, ◌/◌, ◌%◌, ◌^◌, ◌≤◌, ◌<◌, ◌≡◌, refl, sym, ap, ◌∙◌, some, List, [],
  ◌∷◌, ◌++◌, arith, true, false, if◌then◌else◌, ◌==◌, ltb, length, length-append, Bool-cases, inl,
  inr,
}
use cwb.Base.Bits.{bit_of, bit_or_double}
use cwb.Bitfield.Cells.{test-bit_of}
use cwb.BitIo.Buffer.{first_mask, shift_in}
use cwb.BitIo.Extends.{no_bytes, Extends, Extends-refl, Extends-trans, Extends-byte}
use cwb.BitIo.File.{BFile, bf_full, bf_write_loop, bf_write}
use cwb.BitIo.Bits.{low_bits, all_bits, all_bits-append, low_bits-double}

-- Shifting a bit of the data into the buffer.
shift_in-double :
    (buf data_byte n : ℕ)
    → buf < 128
    → data_byte < 256
    → n < 8
    → shift_in buf data_byte (2 ^ n) ≡ buf * 2 + bit_of data_byte n
unfolding shift_in
shift_in-double buf data_byte n small hd hn =
    let e : buf * 2 % 256 ≡ buf * 2 = omega arith in
    rw e (ground (arith, test-bit_of data_byte n hd hn, bit_or_double buf 1 (omega arith)))

-- The buffer holds less than a byte.
pub record IsReady (s : BFile) : Type 0 where
  pub fits : s.bits_in_buf < 8
  pub small : s.buf < 2 ^ s.bits_in_buf

-- The bits written so far, those in the buffer included.
abbrev pub written : BFile → List ℕ
written s = all_bits s.output ++ low_bits s.bits_in_buf s.buf

-- How many more bits can be written before `fwrite` fails.
abbrev pub free : BFile → ℕ
free s = s.room * 8 + 7 - s.bits_in_buf

-- `r` is `s` with these bits written.
pub record Wrote (s : BFile) (bits : List ℕ) (r : BFile) : Type 0 where
  pub ready : IsReady r
  pub mode : r.mode ≡ s.mode
  pub contents : written r ≡ written s ++ bits
  pub space : free r + length bits ≡ free s
  pub extends : Extends s r

pub Wrote-nil : (s : BFile) → IsReady s → Wrote s [] s
Wrote-nil s ready = record {
  ready = ready;
  mode = refl;
  contents = sym (append-nil (written s));
  space = omega arith;
  extends = Extends-refl s;
}

pub Wrote-append : {s r t : BFile} (a b : List ℕ) → Wrote s a r → Wrote r b t → Wrote s (a ++ b) t
Wrote-append {s} a b first second = record {
  ready = second.ready;
  mode = second.mode ∙ first.mode;
  contents = second.contents ∙ ap (λ l. l ++ b) first.contents ∙ append_assoc (written s) a b;
  space = omega (arith, first.space, second.space, length-append a b);
  extends = Extends-trans first.extends second.extends;
}

abbrev shifted : BFile → ℕ → BFile
shifted s bit = record s { bits_in_buf = s.bits_in_buf + 1; buf = s.buf * 2 + bit }

-- One round of the loop, for a bit that fits.
bf_full-Wrote :
    (s : BFile) (bit : ℕ)
    → IsReady s
    → bit < 2
    → 0 < free s
    → (r : BFile) × (bf_full (shifted s bit) ≡ (r, 1)) × Wrote s (bit ∷ []) r
unfolding bf_full low_bits all_bits
bf_full-Wrote s bit ready hb space = elim (Bool-cases (s.bits_in_buf + 1 == 8)) [
  | inr short ↦
      let doubled = low_bits-double s.bits_in_buf s.buf bit hb in
      let e : s.bits_in_buf + 1 ≡ suc s.bits_in_buf = omega arith in
      (
        shifted s bit,
        rw short,
        record {
          ready = record {
            fits = ground (arith, ready.fits);
            small = rw (e, pow-suc 2 s.bits_in_buf) (omega (arith, ready.small));
          };
          mode = refl;
          contents = rw (e, doubled) (sym (append_assoc (all_bits s.output) _ _));
          space = omega arith;
          extends = record {
            tail = [];
            appended = sym (append-nil s.output);
            counted = omega arith;
            taken = omega arith;
            sound = no_bytes;
          };
        },
      )
  | inl full ↦
      let v = s.buf * 2 + bit in
      let seven : s.bits_in_buf ≡ 7 = ground arith in
      let roomy : (s.room == 0) ≡ false = ground (arith, seven) in
      let byte : v < 256 = let b = rw seven at ready.small in omega (arith, b) in
      let last : all_bits (v ∷ []) ≡ low_bits s.bits_in_buf s.buf ++ bit ∷ [] =
        append-nil (low_bits 8 v) ∙ rw seven (low_bits-double 7 s.buf bit hb) in
      (
        record s {
          output = s.output ++ v ∷ [];
          room = s.room - 1;
          position = s.position + 1;
          buf = 0;
          bits_in_buf = 0;
        },
        rw (full, roomy),
        record {
          ready = record { fits = omega arith; small = omega arith };
          mode = refl;
          contents =
              append-nil (all_bits (s.output ++ v ∷ []))
              ∙ all_bits-append s.output (v ∷ [])
              ∙ ap (λ l. all_bits s.output ++ l) last
              ∙ sym (append_assoc (all_bits s.output) (low_bits s.bits_in_buf s.buf) (bit ∷ []));
          space = ground (arith, seven);
          extends = Extends-byte s _ v byte (ground (arith, seven)) refl refl refl;
        },
      )
]

-- With no room left the round that fills the buffer fails.
bf_full-fails :
    (s : BFile) (bit : ℕ) → s.bits_in_buf < 8 → free s ≡ 0 → (bf_full (shifted s bit)).1 ≡ 0
unfolding bf_full
bf_full-fails s bit fits none_left =
    let seven : s.bits_in_buf ≡ 7 = omega arith in
    let empty : s.room ≡ 0 = omega arith in ground arith

bit_of-lt : (x n : ℕ) → bit_of x n < 2
bit_of-lt x n = omega arith

buf-lt : (s : BFile) → IsReady s → s.buf < 128
buf-lt s ready =
    let fits : s.bits_in_buf ≤ 7 = omega (arith, ready.fits) in
    let bound : 2 ^ s.bits_in_buf ≤ 2 ^ 7 = pow-le-pow_right (omega arith) fits in
    omega (arith, ready.small, bound)

-- The round that the loop makes of bit n of the data.
round-Wrote :
    (s : BFile) (data_byte n : ℕ)
    → IsReady s
    → data_byte < 256
    → n < 8
    → record s { bits_in_buf = s.bits_in_buf + 1; buf = shift_in s.buf data_byte (2 ^ n) }
      ≡ shifted s (bit_of data_byte n)
round-Wrote s data_byte n ready hd hn =
    ap (λ b. record s { bits_in_buf = s.bits_in_buf + 1; buf = b })
      (shift_in-double s.buf data_byte n (buf-lt s ready) hd hn)

loop_round :
    (n mask data_byte : ℕ) (s r : BFile) (ok : ℕ)
    → 0 < mask
    → s.bits_in_buf < 8
    → bf_full (record s { bits_in_buf = s.bits_in_buf + 1; buf = shift_in s.buf data_byte mask })
      ≡ (r, ok)
    → bf_write_loop (suc n) mask data_byte s
      ≡ (if ok == 1 then bf_write_loop n (mask / 2) data_byte r else some (r, 0))
unfolding bf_write_loop
loop_round n mask data_byte s r ok hm fits run =
    let z : (mask == 0) ≡ false = ground arith in
    let b : ltb s.bits_in_buf 8 ≡ true = ground arith in rw (z, b, run)

halved : (n mask : ℕ) → mask ≡ 2 ^ n → (k : ℕ) → n ≡ suc k → mask / 2 ≡ 2 ^ k
halved n mask m k e = let m' = m ∙ ap (λ t. 2 ^ t) e in omega (arith, m', pow-suc 2 k)

loop-Wrote :
    (n mask data_byte : ℕ) (s : BFile)
    → IsReady s
    → data_byte < 256
    → n ≤ 8
    → ((k : ℕ) → n ≡ suc k → mask ≡ 2 ^ k)
    → n ≤ free s
    → (r : BFile) × (bf_write_loop n mask data_byte s ≡ some (r, 1))
      × Wrote s (low_bits n data_byte) r
unfolding bf_write_loop low_bits
loop-Wrote zero mask data_byte s ready hd hn hm space = (s, refl, Wrote-nil s ready)
loop-Wrote (suc n) mask data_byte s ready hd hn hm space =
    let m = hm n refl in
    let (r1, run1, w1) =
      bf_full-Wrote s (bit_of data_byte n) ready (bit_of-lt data_byte n) (omega arith) in
    let (r, run, w) =
      loop-Wrote n (mask / 2) data_byte r1 w1.ready hd (omega arith) (halved n mask m)
        (omega (arith, w1.space)) in
    let entered =
      loop_round n mask data_byte s r1 1 (rw m (one-le-pow n 2 (omega arith))) ready.fits
        (rw m (ap bf_full (round-Wrote s data_byte n ready hd (omega arith)) ∙ run1)) in
    (r, entered ∙ run, Wrote-append (bit_of data_byte n ∷ []) (low_bits n data_byte) w1 w)

initial_mask : (n : ℕ) → n ≤ 8 → (k : ℕ) → n ≡ suc k → 2 ^ (n - 1) % 256 ≡ 2 ^ k
initial_mask n hn k e =
    let e' : n - 1 ≡ k = omega arith in
    let fits : k ≤ 7 = omega arith in
    let bound : 2 ^ k ≤ 2 ^ 7 = pow-le-pow_right (omega arith) fits in rw e' (omega (arith, bound))

-- `BFwrite` on an output stream with a byte of data and up to 8 bits: if that many bits can still be
-- written, it returns 1 and appends the low bits of the data, the most significant first, to the
-- bits written so far.
pub bf_write-Wrote :
    (data_byte n : ℕ) (s : BFile)
    → IsReady s
    → data_byte < 256
    → n ≤ 8
    → n ≤ free s
    → (r : BFile) × (bf_write data_byte n s ≡ some (r, 1)) × Wrote s (low_bits n data_byte) r
unfolding bf_write first_mask
bf_write-Wrote data_byte n s ready hd hn space =
    loop-Wrote n (2 ^ (n - 1) % 256) data_byte s ready hd hn (initial_mask n hn) space

loop_fails :
    (n mask data_byte : ℕ) (s : BFile)
    → IsReady s
    → data_byte < 256
    → n ≤ 8
    → ((k : ℕ) → n ≡ suc k → mask ≡ 2 ^ k)
    → free s < n
    → (r : BFile) × (bf_write_loop n mask data_byte s ≡ some (r, 0))
loop_fails zero mask data_byte s ready hd hn hm full = absurd (omega arith)
loop_fails (suc n) mask data_byte s ready hd hn hm full =
    let m = hm n refl in
    let bit = bit_of data_byte n in
    let positive : 0 < mask = rw m (one-le-pow n 2 (omega arith)) in
    let x = record s { bits_in_buf = s.bits_in_buf + 1; buf = shift_in s.buf data_byte mask } in
    let same : bf_full x ≡ bf_full (shifted s bit) =
      rw m (ap bf_full (round-Wrote s data_byte n ready hd (omega arith))) in
    elim (ℕ_discrete (free s) 0) [
      | yes z ↦
          let last = bf_full (shifted s bit) in
          let failed : bf_full x ≡ (last.0, 0) =
            same ∙ ap (λ ok. (last.0, ok)) (bf_full-fails s bit ready.fits z) in
          (last.0, loop_round n mask data_byte s last.0 0 positive ready.fits failed)
      | no nz ↦
          let (r1, run1, w1) = bf_full-Wrote s bit ready (bit_of-lt data_byte n) (omega arith) in
          let (r, run) =
            loop_fails n (mask / 2) data_byte r1 w1.ready hd (omega arith) (halved n mask m)
              (omega (arith, w1.space)) in
          (r, loop_round n mask data_byte s r1 1 positive ready.fits (same ∙ run1) ∙ run)
    ]

-- `BFwrite` of up to 8 bits of a byte to a stream whose buffer holds less than a byte: if fewer bits can
-- still be written than are to be written, it returns 0.
pub bf_write-fails :
    (data_byte n : ℕ) (s : BFile)
    → IsReady s
    → data_byte < 256
    → n ≤ 8
    → free s < n
    → (r : BFile) × (bf_write data_byte n s ≡ some (r, 0))
unfolding bf_write first_mask
bf_write-fails data_byte n s ready hd hn full =
    loop_fails n (2 ^ (n - 1) % 256) data_byte s ready hd hn (initial_mask n hn) full
