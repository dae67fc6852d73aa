-- ===== src/BitIo/Tests.antt =====
-- cl/bitio.c at concrete inputs.
use cwb.Base.{
  ℕ, zero, suc, ◌<◌, ◌≡◌, refl, some, [], ◌∷◌, ◌++◌, arith, if◌then◌else◌, ◌==◌, length, get_or,
}
use cwb.BitIo.Buffer.{reading, writing}
use cwb.BitIo.File.{BFile, bf_write_word, bf_write, bf_read, bf_flush}
use cwb.BitIo.Bits.{low_bits, all_bits, top_bits}
use cwb.BitIo.Write.{IsReady, Wrote, bf_write-fails}
use cwb.BitIo.WriteWord.{bf_write_word-Wrote}
use cwb.BitIo.Flush.{Flushed, bf_flush-Flushed}
use cwb.BitIo.Read.{IsReading, unread, bf_read-unread}

-- Three bits, 101, are in the buffer.
abbrev half_written : BFile
half_written = record {
  input = [];
  output = [];
  room = 1;
  mode = writing;
  buf = 5;
  bits_in_buf = 3;
  position = 0;
}

half_written-IsReady : IsReady half_written
half_written-IsReady = record { fits = omega arith; small = omega arith }

abbrev full_file : BFile
full_file = record half_written { room = 0 }

bf_write-fails_example : (r : BFile) × (bf_write 13 6 full_file ≡ some (r, 0))
bf_write-fails_example =
    bf_write-fails 13 6 full_file (record { fits = omega arith; small = omega arith }) (omega arith)
      (omega arith) (omega arith)

bf_flush-Flushed_example :
    (r : BFile) × (bf_flush half_written ≡ some (r, if half_written.bits_in_buf == 0 then 0 else 1))
    × Flushed half_written r
bf_flush-Flushed_example =
    bf_flush-Flushed half_written half_written-IsReady refl (λ h. omega arith)

abbrev one_byte : BFile
one_byte = record {
  input = 0xa7 ∷ [];
  output = [];
  room = 0;
  mode = reading;
  buf = 0;
  bits_in_buf = 0;
  position = 0;
}

bytes_of : (i : ℕ) → get_or (0xa7 ∷ []) i 0 < 256
bytes_of zero = omega arith
bytes_of (suc i) = omega arith

one_byte-IsReading : IsReading one_byte
one_byte-IsReading = record { fits = omega arith; small = omega arith; bytes = bytes_of }

first_bits : unread one_byte ≡ low_bits 3 5 ++ low_bits 5 7
unfolding all_bits low_bits top_bits
first_bits = refl

bf_read-unread_example :
    (r : BFile) × (bf_read 3 one_byte ≡ (r, 5, 1)) × (unread r ≡ low_bits 5 7) × IsReading r
bf_read-unread_example =
    bf_read-unread 3 5 one_byte (low_bits 5 7) one_byte-IsReading (omega arith) (omega arith)
      first_bits

too_few : length (unread one_byte) < 9
unfolding all_bits low_bits top_bits
too_few = omega arith

abbrev roomy : BFile
roomy = record half_written { room = 4 }

bf_write_word-Wrote_example :
    (r : BFile) × (bf_write_word 0x12345 19 roomy ≡ some (r, 1))
    × Wrote roomy (low_bits 19 0x12345) r
bf_write_word-Wrote_example =
    bf_write_word-Wrote 0x12345 19 roomy (record { fits = omega arith; small = omega arith })
      (omega arith) (omega arith)
