-- ===== src/Compression/ThroughFile.antt =====
-- Numbers that are written to a file, in Golomb codes one after the other, and read again from the file or
-- from its bytes in memory.
use mathlib.Core.List.{append_assoc}
use mathlib.Core.Path.{subst}
use cwb.Base.{
  ℕ, zero, suc, ◌-◌, ◌*◌, ◌%◌, ◌^◌, ◌≤◌, ◌<◌, ◌≡◌, refl, sym, ap, ◌∙◌, Option, none, some, List, [],
  ◌∷◌, ◌++◌, map, arith, length, length-append, replicate,
}
use cwb.Base.Int.{ℤ, pos}
use cwb.BitIo.Buffer.{Mode, reading, writing}
use cwb.BitIo.File.{BFile, bf_open, bf_close, bf_flush}
use cwb.BitIo.Stream.{BStream, bs_open}
use cwb.BitIo.Bits.{low_bits, top_bits, all_bits}
use cwb.BitIo.Write.{IsReady, free, Wrote, Wrote-nil, Wrote-append}
use cwb.BitIo.Extends.{HasBytes, Extends-trans}
use cwb.BitIo.Flush.{bf_flush-Flushed}
use cwb.Compression.Golomb.{
  BitSource, file_source, stream_source, write_golomb_code, read_golomb_code,
}
use cwb.Compression.Code.{IsCeilLog2, golomb_bits, IsBitSource}
use cwb.Compression.RoundTrip.{read_golomb_code_lem}
use cwb.Compression.Sources.{
  FileLeft, StreamLeft, file_source-IsBitSource, stream_source-IsBitSource,
}
use cwb.Compression.Write.{write_golomb_code-Wrote}

-- The numbers are positive ints or 0.
abbrev pub AllInts : List ℕ → Type 0
AllInts [] = Unit
AllInts (x ∷ xs) = (x < 2 ^ 31) × AllInts xs

module _ (ceil_log2 : ℕ → ℕ) (b : ℕ) where
  unfoldable pub write_numbers : List ℕ → BFile → Option BFile
  write_numbers [] bf = some bf
  write_numbers (x ∷ xs) bf = elim (write_golomb_code ceil_log2 x b bf) [
    | none ↦ none
    | some r ↦ write_numbers xs r.0
  ]

  unfoldable pub read_numbers : {S : Type 0} → BitSource S → ℕ → S → Option (S × List ℤ)
  read_numbers source zero s = some (s, [])
  read_numbers source (suc n) s = elim (read_golomb_code source ceil_log2 b s) [
    | none ↦ none
    | some r ↦ elim (read_numbers source n r.0) [ none ↦ none | some t ↦ some (t.0, r.1 ∷ t.1) ]
  ]

  unfoldable pub codes : List ℕ → List ℕ
  codes [] = []
  codes (x ∷ xs) = golomb_bits ceil_log2 x b ++ codes xs

  module _ (c : IsCeilLog2 ceil_log2) (lo : 2 ≤ b) (hi : b ≤ 2 ^ 30) where
    write_numbers-Wrote :
        (xs : List ℕ) (s : BFile)
        → IsReady s
        → length (codes xs) ≤ free s
        → (r : BFile) × (write_numbers xs s ≡ some r) × Wrote s (codes xs) r
    unfolding write_numbers codes
    write_numbers-Wrote [] s ready space = (s, refl, Wrote-nil s ready)
    write_numbers-Wrote (x ∷ xs) s ready space =
        let code = golomb_bits ceil_log2 x b in
        let size = length-append code (codes xs) in
        let (t, run, w) =
          write_golomb_code-Wrote ceil_log2 x b s c lo hi ready (omega (arith, space, size)) in
        let (r, more, w') =
          write_numbers-Wrote xs t w.ready (omega (arith, space, size, w.space)) in
        (r, rw (write_numbers, run) more, Wrote-append code (codes xs) w w')

    read_numbers-Left :
        {S : Type 0} (source : BitSource S) (Left : S → List ℕ → Type 0)
        → IsBitSource source Left
        → (xs : List ℕ) (s : S) (bits : List ℕ) → AllInts xs
        → Left s (codes xs ++ bits)
        → (r : S) × (read_numbers source (length xs) s ≡ some (r, map pos xs)) × Left r bits
    unfolding read_numbers codes
    read_numbers-Left source Left lawful [] s bits small left = (s, refl, left)
    read_numbers-Left source Left lawful (x ∷ xs) s bits (h, small) left =
        let code = golomb_bits ceil_log2 x b in
        let left' = subst (Left s) (append_assoc code (codes xs) bits) left in
        let (t, run, after) =
          read_golomb_code_lem source Left lawful ceil_log2 x b s (codes xs ++ bits) c lo hi h
            left' in
        let (r, more, last) = read_numbers-Left source Left lawful xs t bits small after in
        (r, rw (read_numbers, run, more) refl, last)

abbrev pub opened : List ℕ → ℕ → Mode → BFile
opened input room mode = record {
  input = input;
  output = [];
  room = room;
  mode = mode;
  buf = 0;
  bits_in_buf = 0;
  position = 0;
}

abbrev in_memory : List ℕ → BStream
in_memory bytes = record {
  base = some bytes;
  mode = reading;
  buf = 0;
  bits_in_buf = 0;
  position = 0;
}

-- A file and an array of these bytes that were just opened.
pub opened-Left :
    (bytes : List ℕ) → HasBytes bytes → FileLeft (opened bytes 0 reading) (all_bits bytes)
unfolding top_bits
opened-Left bytes h = (record { fits = omega arith; small = omega arith; bytes = h }, refl)

in_memory-Left : (bytes : List ℕ) → HasBytes bytes → StreamLeft (in_memory bytes) (all_bits bytes)
in_memory-Left bytes h = (
  opened bytes 0 reading,
  record { bytes = bytes; base = refl; input = refl; buf = refl; bits_in_buf = refl },
  opened-Left bytes h,
)

pub close_writing :
    (s r : BFile) (ok : ℕ) → s.mode ≡ writing → bf_flush s ≡ some (r, ok) → bf_close s ≡ some (r, 1)
unfolding bf_close
close_writing s r ok m e = rw (bf_close, m, e) refl

-- With `ceil_log2` the least exponent of 2 that reaches its argument: numbers below 2^31 that are written
-- as Golomb codes, for a divisor from 2 up to 2^30, to a new file with room for all their bits: the file is closed without a failure, and both readers, from the file opened
-- again and from its bytes in memory, return the numbers in their order.
pub golomb_round_trip :
    (ceil_log2 : ℕ → ℕ) (b room : ℕ) (xs : List ℕ)
    → IsCeilLog2 ceil_log2
    → 2 ≤ b
    → b ≤ 2 ^ 30
    → AllInts xs
    → length (codes ceil_log2 b xs) ≤ room * 8
    → (s : BFile) × (written_file : BFile) × (closed : BFile) × (file : BFile) × (file' : BFile)
      × (memory : BStream) × (memory' : BStream) × (bf_open [] room writing ≡ some (s, 1))
      × (write_numbers ceil_log2 b xs s ≡ some written_file)
      × (bf_close written_file ≡ some (closed, 1))
      × (bf_open closed.output 0 reading ≡ some (file, 1))
      × (read_numbers ceil_log2 b file_source (length xs) file ≡ some (file', map pos xs))
      × (bs_open (some closed.output) reading ≡ some (memory, 1))
      × (read_numbers ceil_log2 b stream_source (length xs) memory ≡ some (memory', map pos xs))
unfolding bf_open bs_open all_bits low_bits
golomb_round_trip ceil_log2 b room xs c lo hi small space =
    let s = opened [] room writing in
    let ready : IsReady s = record { fits = omega arith; small = omega arith } in
    let (r, run, w) = write_numbers-Wrote ceil_log2 b c lo hi xs s ready (omega (arith, space)) in
    let (closed, flushed, f) =
      bf_flush-Flushed r w.ready w.mode (λ h. omega (arith, h, w.space, space)) in
    let pad = replicate ((8 - r.bits_in_buf) % 8) 0 in
    let whole = Extends-trans w.extends f.extends in
    let bytes = subst HasBytes (sym whole.appended) whole.sound in
    let all : all_bits closed.output ≡ codes ceil_log2 b xs ++ pad =
      f.contents ∙ ap (λ l. l ++ pad) w.contents in
    let in_file =
      subst (FileLeft (opened closed.output 0 reading)) all (opened-Left closed.output bytes) in
    let in_array =
      subst (StreamLeft (in_memory closed.output)) all (in_memory-Left closed.output bytes) in
    let (file, from_file, _) =
      read_numbers-Left ceil_log2 b c lo hi file_source FileLeft file_source-IsBitSource xs
        (opened closed.output 0 reading) pad small in_file in
    let (m, from_memory, _) =
      read_numbers-Left ceil_log2 b c lo hi stream_source StreamLeft stream_source-IsBitSource xs
        (in_memory closed.output) pad small in_array in
    (
      s,
      r,
      closed,
      opened closed.output 0 reading,
      file,
      in_memory closed.output,
      m,
      refl,
      run,
      close_writing r closed _ w.mode flushed,
      refl,
      from_file,
      refl,
      from_memory,
    )
