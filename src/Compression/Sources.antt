-- ===== src/Compression/Sources.antt =====
-- Both kinds of stream as sources of bits.
use mathlib.Core.Path.{subst}
use cwb.Base.{
  ℕ, zero, suc, ◌+◌, ◌*◌, ◌/◌, ◌%◌, ◌^◌, ◌≤◌, ◌<◌, ◌≡◌, refl, sym, ap, ◌∙◌, some, List, [], ◌∷◌,
  ◌++◌, arith, length, length-append, length-drop, inl, inr,
}
use cwb.BitIo.File.{BFile, bf_read}
use cwb.BitIo.Stream.{BStream, bs_read}
use cwb.BitIo.Bits.{low_bits, top_bits, all_bits, length-low_bits}
use cwb.BitIo.Read.{IsReading, unread, bf_read-unread}
use cwb.BitIo.Memory.{Corresponds, bs_read-Agree}
use cwb.Compression.Golomb.{file_source, stream_source}
use cwb.Compression.Code.{IsBitSource}

length-top_bits : (k x : ℕ) → length (top_bits k x) ≡ k
unfolding top_bits
length-top_bits zero x = refl
length-top_bits (suc k) x = ap suc (length-top_bits k _)

pub length-all_bits : (bytes : List ℕ) → length (all_bits bytes) ≡ 8 * length bytes
unfolding all_bits
length-all_bits [] = refl
length-all_bits (b ∷ bytes) = omega (
  arith,
  length-append (low_bits 8 b) (all_bits bytes),
  length-low_bits 8 b,
  length-all_bits bytes,
)

pub length-unread : (f : BFile) → length (unread f) ≡ f.bits_in_buf + 8 * length f.input
length-unread f = omega (
  arith,
  length-append (top_bits f.bits_in_buf f.buf) (all_bits f.input),
  length-top_bits f.bits_in_buf f.buf,
  length-all_bits f.input,
)

-- The bits of a file that are still to be read.
abbrev pub FileLeft : BFile → List ℕ → Type 0
FileLeft f bits = IsReading f × (unread f ≡ bits)

pub read_one :
    (f : BFile) (bit : ℕ) (bits : List ℕ)
    → bit < 2
    → FileLeft f (bit ∷ bits)
    → (r : BFile) × (bf_read 1 f ≡ (r, bit, 1)) × FileLeft r bits
unfolding low_bits
read_one f bit bits h (v, e) =
    let low : bit / 2 ^ 0 % 2 ≡ bit = omega arith in
    let one : low_bits 1 bit ≡ bit ∷ [] = ap (λ b. b ∷ []) low in
    let (r, run, left, w) =
      bf_read-unread 1 bit f bits v (omega arith) (omega (arith, h))
        (e ∙ ap (λ l. l ++ bits) (sym one)) in
    (r, run, (w, left))

pub file_source-IsBitSource : IsBitSource file_source FileLeft
file_source-IsBitSource = record {
  next = λ f bit bits h left.
      let (r, run, after) = read_one f bit bits h left in (r, rw run refl, after);
  bounded = λ f bits left. omega (arith, length-unread f, ap length left.1);
}

-- Likewise of an array, through a file with the bytes from the stream's position on.
abbrev pub StreamLeft : BStream → List ℕ → Type 0
StreamLeft s bits = (f : BFile) × Corresponds s f × FileLeft f bits

pub read_one_stream :
    (s : BStream) (bit : ℕ) (bits : List ℕ)
    → bit < 2
    → StreamLeft s (bit ∷ bits)
    → (r : BStream) × (bs_read 1 s ≡ some (r, bit, 1)) × StreamLeft r bits
read_one_stream s bit bits h (f, c, left) =
    let (r, run, after) = read_one f bit bits h left in
    elim (bs_read-Agree 1 s f c) [
      | inl (t, same, ok, c') ↦
          let value : (bf_read 1 f).1 ≡ bit = ap (λ x. x.1) run in
          let file : (bf_read 1 f).0 ≡ r = ap (λ x. x.0) run in
          (t, same ∙ ap (λ v. some (t, v, 1)) value, (r, subst (Corresponds t) file c', after))
      | inr (over, short) ↦
          let bad : 1 ≡ 0 = sym (ap (λ x. x.2) run) ∙ short in absurd (omega (arith, bad))
    ]

stream_bounded :
    (s : BStream) (bits : List ℕ) → StreamLeft s bits → length bits ≤ stream_source.bits_left s
stream_bounded s bits (f, c, left) =
    let size = length-unread f in
    let same = ap length left.1 in
    let rest = ap length c.input in
    let count = length-drop s.position c.bytes in
    rw c.base (omega (arith, size, same, rest, count, c.bits_in_buf))

pub stream_source-IsBitSource : IsBitSource stream_source StreamLeft
stream_source-IsBitSource = record {
  next = λ s bit bits h left.
      let (r, run, after) = read_one_stream s bit bits h left in
      (r, rw (stream_source, run) refl, after);
  bounded = stream_bounded;
}
