-- ===== src/Compression/Golomb.antt =====
-- cl/compression.c: the writer and the readers of Golomb codes. `none` is a failed assertion or an access
-- outside an array. `ceil_log2` stands for `ceil(log2(b * 1.0))` of the C library.
use cwb.Base.{
  ℕ, zero, suc, ◌+◌, ◌-◌, ◌*◌, ◌/◌, ◌%◌, ◌^◌, Option, none, some, if◌then◌else◌, ltb, leb, bit_or,
  length,
}
use cwb.Base.Int.{ℤ, pos, negsuc, signed32}
use cwb.BitIo.File.{BFile, bf_write, bf_write_word, bf_read}
use cwb.BitIo.Stream.{BStream, bs_read}

-- `for (i = 0; i < q; i++) BFwrite(bit1, 1, bf);`; results are not looked at.
unfoldable pub write_ones : ℕ → BFile → Option BFile
write_ones zero bf = some bf
write_ones (suc q) bf = elim (bf_write 1 1 bf) [ none ↦ none | some r ↦ write_ones q r.0 ]

-- The binary part of a code. Where `ub` is 0 the C int `lb` is -1, but no number below `nr_sc` is left.
unfoldable pub write_rest : ℕ → ℕ → ℕ → BFile → Option (BFile × ℕ)
write_rest res nr_sc ub bf =
    let done =
      if ltb res nr_sc then bf_write_word res (ub - 1) bf else bf_write_word (res + nr_sc) ub bf in
    elim done [ none ↦ none | some r ↦ some (r.0, 1) ]

unfoldable pub write_golomb_code : (ℕ → ℕ) → ℕ → ℕ → BFile → Option (BFile × ℕ)
unfolding write_ones write_rest
write_golomb_code ceil_log2 x b bf =
    let q = x / b in
    let ub = ceil_log2 b in
    elim (write_ones q bf) [
      | none ↦ none
      | some ones ↦ elim (bf_write 0 1 ones) [
        | none ↦ none
        | some unary ↦ write_rest (x - q * b) (2 ^ ub - b) ub unary.0
      ]
    ]

-- What the readers use of a stream: the next bit, and a bound on the number of bits that are left.
pub record BitSource (S : Type 0) : Type 0 where
  pub read_bit : S → Option (S × ℕ)
  pub bits_left : S → ℕ

-- `BFread(&bit, 1, bf)`, which leaves 0 in `bit` at the end of the file.
abbrev pub file_source : BitSource BFile
file_source = record {
  read_bit = λ s. let r = bf_read 1 s in some (r.0, r.1);
  bits_left = λ s. s.bits_in_buf + 8 * length s.input;
}

-- `BSread(&bit, 1, bs)`
abbrev pub stream_source : BitSource BStream
stream_source = record {
  read_bit = λ s. elim (bs_read 1 s) [ none ↦ none | some r ↦ some (r.0, r.1) ];
  bits_left =
      λ s. s.bits_in_buf + 8 * elim s.base [ none ↦ 0 | some bytes ↦ length bytes - s.position ];
}

-- `(r << 1) | bit` on an unsigned int.
abbrev pub append_bit : ℕ → ℕ → ℕ
append_bit r bit = bit_or (r * 2 % 2 ^ 32) bit

module _ {S : Type 0} (source : BitSource S) where
  -- `do { read(&bit); if (bit) q++; } while (bit);`; `none` is also the end of the fuel.
  unfoldable pub read_unary : ℕ → ℕ → S → Option (S × ℕ)
  read_unary zero q s = none
  read_unary (suc fuel) q s = elim (source.read_bit s) [
    | none ↦ none
    | some r ↦ elim r.1 [ zero ↦ some (r.0, q) | suc bit ↦ read_unary fuel (q + 1) r.0 ]
  ]

  -- `for (i = 0; i < lb; i++)`
  unfoldable pub read_bits : ℕ → ℕ → S → Option (S × ℕ)
  read_bits zero r s = some (s, r)
  read_bits (suc left) r s = elim (source.read_bit s) [
    | none ↦ none
    | some t ↦ read_bits left (append_bit r t.1) t.0
  ]

  -- `if (r >= nr_sc)`, and the value.
  unfoldable pub read_last : ℕ → ℕ → ℕ → ℕ → S → Option (S × ℤ)
  read_last q b nr_sc r s =
      let value = λ (n : ℕ). signed32 ((n + q * b) % 2 ^ 32) in
      let longer : Option (S × ℤ) = elim (source.read_bit s) [
        | none ↦ none
        | some t ↦ some (t.0, value (append_bit r t.1 + 2 ^ 32 - nr_sc))
      ] in
      if leb nr_sc r then longer else some (s, value r)

  unfoldable pub read_golomb_code : (ℕ → ℕ) → ℕ → S → Option (S × ℤ)
  unfolding read_unary read_bits read_last
  read_golomb_code ceil_log2 b s =
      let ub = ceil_log2 b in
      elim (read_unary (source.bits_left s + 1) 0 s) [
        | none ↦ none
        | some unary ↦ elim (read_bits (ub - 1) 0 unary.0) [
          | none ↦ none
          | some binary ↦ read_last unary.1 b (2 ^ ub - b) binary.1 binary.0
        ]
      ]

abbrev pub read_golomb_code_bf : (ℕ → ℕ) → ℕ → BFile → Option (BFile × ℤ)
read_golomb_code_bf = read_golomb_code file_source

abbrev pub read_golomb_code_bs : (ℕ → ℕ) → ℕ → BStream → Option (BStream × ℤ)
read_golomb_code_bs = read_golomb_code stream_source

-- `ratio` stands for `ceil(-log(2.0-p)/log(1.0-p))` with `p` the quotient of both arguments, as an int.
unfoldable pub compute_ba : (ℕ → ℕ → ℤ) → ℕ → ℕ → ℕ
compute_ba ratio ft corpus_size = elim (ratio ft corpus_size) [
  | pos pa ↦ if ltb 1 pa then pa else 2
  | negsuc k ↦ 2
]
