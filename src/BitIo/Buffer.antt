-- ===== src/BitIo/Buffer.antt =====
-- cl/bitio.c: what both kinds of stream share. A byte is collected from, or handed out in, bits,
-- the most significant first.
use cwb.Base.{ℕ, ◌*◌, ◌%◌, ◌^◌, ◌-◌, bit_and, bit_or, if◌then◌else◌, ◌==◌}

-- The mode strings; any other fails an assertion.
pub data Mode : Type 0 where
  reading : Mode
  writing : Mode
  other : Mode

-- `mask = 1 << (nbits - 1)` as an unsigned char. (For 0 bits it is not used.)
unfoldable pub first_mask : ℕ → ℕ
first_mask nbits = 2 ^ (nbits - 1) % 256

-- `buf <<= 1; if (data & mask) buf |= 1;` on an unsigned char `buf`; also
-- `data <<= 1; if (buf & (1<<7)) data |= 1;` with the two exchanged.
unfoldable pub shift_in : ℕ → ℕ → ℕ → ℕ
shift_in buf data_byte mask =
    if bit_and data_byte mask == 0 then buf * 2 % 256 else bit_or (buf * 2 % 256) 1

-- `1 << 7`
abbrev pub top_mask : ℕ
top_mask = 128

-- `buf <<= 1`
abbrev pub shift_out : ℕ → ℕ
shift_out buf = buf * 2 % 256

-- `buf <<= (8 - bits_in_buf)`
unfoldable pub align_left : ℕ → ℕ → ℕ
align_left buf bits_in_buf = buf * 2 ^ (8 - bits_in_buf) % 256
