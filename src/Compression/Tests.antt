-- ===== src/Compression/Tests.antt =====
-- cl/compression.c at concrete inputs.
use native.Mathlib.Decide.{ℕ_discrete}
use native.Mathlib.Nat.{pow-suc, one-le-pow}
use cwb.Base.{
  ℕ, zero, suc, ◌^◌, ◌≤◌, ◌≡◌, refl, ap, some, List, [], ◌∷◌, map, arith, if◌then◌else◌, leb,
  Bool-cases, inl, inr,
}
use cwb.Base.Int.{pos}
use cwb.BitIo.Buffer.{reading, writing}
use cwb.BitIo.File.{BFile, bf_open, bf_close, bf_read}
use cwb.BitIo.Stream.{BStream, bs_open, bs_read}
use cwb.BitIo.Bits.{low_bits}
use cwb.BitIo.Memory.{Agree, bs_read-Agree}
use cwb.Compression.Golomb.{file_source, stream_source}
use cwb.Compression.Code.{IsCeilLog2, rest_bits, golomb_bits}
use cwb.Compression.ThroughFile.{write_numbers, read_numbers, codes, golomb_round_trip}

-- The least exponent, counting up.
unfoldable pub least_exponent : ℕ → ℕ
least_exponent zero = 0
least_exponent (suc b) = let u = least_exponent b in if leb (suc b) (2 ^ u) then u else suc u

least_exponent_enough : (b : ℕ) → b ≤ 2 ^ least_exponent b
unfolding least_exponent
least_exponent_enough zero = omega arith
least_exponent_enough (suc b) =
    let u = least_exponent b in
    elim (Bool-cases (leb (suc b) (2 ^ u))) [
      | inl fits ↦ rw (least_exponent, fits) (ground arith)
      | inr over ↦
          let one = one-le-pow u 2 (omega arith) in
          rw (least_exponent, over, pow-suc 2 u) (omega (arith, least_exponent_enough b, one))
    ]

least_exponent_least : (b u : ℕ) → b ≤ 2 ^ u → least_exponent b ≤ u
unfolding least_exponent
least_exponent_least zero u h = omega arith
least_exponent_least (suc b) u h =
    let v = least_exponent b in
    let ih = least_exponent_least b u (omega (arith, h)) in
    elim (Bool-cases (leb (suc b) (2 ^ v))) [
      | inl fits ↦ rw (least_exponent, fits) ih
      | inr over ↦
          rw (least_exponent, over)
            (elim (ℕ_discrete v u) [
              | no ne ↦ omega (arith, ih, ne)
              | yes e ↦ let same = ap (λ n. 2 ^ n) e in absurd (ground (arith, h))
            ])
    ]

pub least_exponent-IsCeilLog2 : IsCeilLog2 least_exponent
least_exponent-IsCeilLog2 = record {
  enough = λ b h. least_exponent_enough b;
  least = least_exponent_least;
}

-- 13 for the divisor 5: the quotient 2, the remainder 3 as 110.
code_test : golomb_bits least_exponent 13 5 ≡ 1 ∷ 1 ∷ 0 ∷ 1 ∷ 1 ∷ 0 ∷ []
unfolding least_exponent rest_bits low_bits
code_test = refl

abbrev new_file : BFile
new_file = record {
  input = [];
  output = [];
  room = 2;
  mode = writing;
  buf = 0;
  bits_in_buf = 0;
  position = 0;
}

abbrev numbers : List ℕ
numbers = 13 ∷ 0 ∷ 4 ∷ []

golomb_round_trip_example :
    (s : BFile) × (written_file : BFile) × (closed : BFile) × (file : BFile) × (file' : BFile)
    × (memory : BStream) × (memory' : BStream) × (bf_open [] 2 writing ≡ some (s, 1))
    × (write_numbers least_exponent 5 numbers s ≡ some written_file)
    × (bf_close written_file ≡ some (closed, 1))
    × (bf_open closed.output 0 reading ≡ some (file, 1))
    × (read_numbers least_exponent 5 file_source 3 file ≡ some (file', map pos numbers))
    × (bs_open (some closed.output) reading ≡ some (memory, 1))
    × (read_numbers least_exponent 5 stream_source 3 memory ≡ some (memory', map pos numbers))
unfolding codes least_exponent rest_bits low_bits
golomb_round_trip_example =
    golomb_round_trip least_exponent 5 2 numbers least_exponent-IsCeilLog2 (omega arith)
      (omega arith) (omega arith, (omega arith, (omega arith, tt))) (omega arith)

-- A file that ends in the quotient of a code.
abbrev only_ones : BFile
only_ones = record {
  input = 0xff ∷ [];
  output = [];
  room = 0;
  mode = reading;
  buf = 0;
  bits_in_buf = 0;
  position = 0;
}

abbrev two_bytes : BStream
two_bytes = record {
  base = some (0x12 ∷ 0xff ∷ []);
  mode = reading;
  buf = 0;
  bits_in_buf = 0;
  position = 1;
}

bs_read-Agree_example : Agree (bs_read 5 two_bytes) (bf_read 5 only_ones)
bs_read-Agree_example =
    bs_read-Agree 5 two_bytes only_ones (record {
      bytes = 0x12 ∷ 0xff ∷ [];
      base = refl;
      input = refl;
      buf = refl;
      bits_in_buf = refl;
    })
