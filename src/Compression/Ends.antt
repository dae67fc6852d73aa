-- ===== src/Compression/Ends.antt =====
-- The reader of Golomb codes from a file ends, also where the file ends within a code.
use cwb.Base.{ℕ, suc, ◌<◌, ◌≡◌, some, length}
use cwb.BitIo.File.{BFile}
use cwb.BitIo.Read.{IsReading, unread}
use cwb.Compression.Golomb.{file_source}

-- A bit is read, or 0 at the end of the file.
record Bit (f r : BFile) (bit : ℕ) : Type 0 where
  runs : file_source.read_bit f ≡ some (r, bit)
  valid : IsReading r
  fewer : (k : ℕ) → bit ≡ suc k → length (unread r) < length (unread f)
