-- ===== src/BitIo/File.antt =====
-- cl/bitio.c: `BFile`. The FILE is the bytes still to be read, the bytes written, and how many more
-- bytes can be written before `fwrite` fails; `fflush` succeeds if the write before it did. `none`
-- is a failed assertion. Results: the stream, then the value read, then the C result.
use cwb.Base.{
  ℕ, zero, suc, ◌+◌, ◌-◌, ◌*◌, ◌/◌, ◌%◌, ◌^◌, ◌&&◌, Option, none, some, List, [], ◌∷◌, ◌++◌,
  if◌then◌else◌, ltb, ◌==◌,
}
use cwb.Base.Int.{ℤ, signed32}
use cwb.BitIo.Buffer.{
  Mode, reading, writing, other, first_mask, shift_in, top_mask, shift_out, align_left,
}

-- `BFile`, with its FILE.
pub record BFile : Type 0 where
  pub input : List ℕ
  pub output : List ℕ
  pub room : ℕ
  pub mode : Mode
  pub buf : ℕ
  pub bits_in_buf : ℕ
  pub position : ℕ

-- `BFopen` on a file that `fopen` opens, with these bytes and this room.
unfoldable pub bf_open : List ℕ → ℕ → Mode → Option (BFile × ℕ)
bf_open input room other = none
bf_open input room reading = some (
  record {
    input = input;
    output = [];
    room = room;
    mode = reading;
    buf = 0;
    bits_in_buf = 0;
    position = 0;
  },
  1,
)
bf_open input room writing = some (
  record {
    input = input;
    output = [];
    room = room;
    mode = writing;
    buf = 0;
    bits_in_buf = 0;
    position = 0;
  },
  1,
)

-- `fwrite(&stream->buf, 1, 1, stream->fd)`
unfoldable pub put_byte : BFile → BFile × ℕ
put_byte s =
    if s.room == 0
    then (s, 0)
    else (record s { output = s.output ++ s.buf ∷ []; room = s.room - 1 }, 1)

-- `fread(&stream->buf, 1, 1, stream->fd)`
unfoldable pub get_byte : BFile → BFile × ℕ
get_byte s = elim s.input [ [] ↦ (s, 0) | b ∷ rest ↦ (record s { input = rest; buf = b }, 1) ]

-- After the shift: a full byte is written out. The result 0 leaves `BFwrite`.
unfoldable pub bf_full : BFile → BFile × ℕ
unfolding put_byte
bf_full s =
    let (w, ok) = put_byte s in
    if s.bits_in_buf == 8
    then (if ok == 1
        then (record w { position = w.position + 1; buf = 0; bits_in_buf = 0 }, 1)
        else (w, 0))
    else (s, 1)

-- `while (nbits > 0)` in `BFwrite`.
unfoldable pub bf_write_loop : ℕ → ℕ → ℕ → BFile → Option (BFile × ℕ)
bf_write_loop zero mask data_byte s = some (s, 1)
bf_write_loop (suc nbits) mask data_byte s =
    let shifted = record s {
      bits_in_buf = s.bits_in_buf + 1;
      buf = shift_in s.buf data_byte mask;
    } in
    let r = bf_full shifted in
    let more = bf_write_loop nbits (mask / 2) data_byte r.0 in
    let next : Option (BFile × ℕ) = if r.1 == 1 then more else some (r.0, 0) in
    if mask == 0 then none else if ltb s.bits_in_buf 8 then next else none

unfoldable pub bf_write : ℕ → ℕ → BFile → Option (BFile × ℕ)
bf_write data_byte nbits s = bf_write_loop nbits (first_mask nbits) data_byte s

-- `while (nbits > 0)` in `BFread`.
unfoldable pub bf_read_loop : ℕ → ℕ → BFile → BFile × ℕ × ℕ
bf_read_loop zero data_byte s = (s, data_byte, 1)
bf_read_loop (suc nbits) data_byte s =
    let (f, ok) = get_byte s in
    let loaded =
      if s.bits_in_buf == 0 then record f { position = f.position + 1; bits_in_buf = 8 } else s in
    let taken = record loaded {
      buf = shift_out loaded.buf;
      bits_in_buf = loaded.bits_in_buf - 1;
    } in
    let more = bf_read_loop nbits (shift_in data_byte loaded.buf top_mask) taken in
    if (s.bits_in_buf == 0) && (ok == 0) then (f, data_byte, 0) else more

unfoldable pub bf_read : ℕ → BFile → BFile × ℕ × ℕ
bf_read nbits s = bf_read_loop nbits 0 s

unfoldable pub bf_flush : BFile → Option (BFile × ℕ)
unfolding put_byte get_byte
bf_flush s = elim s.mode [
  | writing ↦
      let (w, ok) = put_byte (record s { buf = align_left s.buf s.bits_in_buf }) in
      let flushed : Option (BFile × ℕ) =
        some (record w { position = w.position + 1; buf = 0; bits_in_buf = 0 }, ok) in
      if ltb 0 s.bits_in_buf && ltb s.bits_in_buf 8
      then flushed
      else if s.bits_in_buf == 0
      then some (s, 0)
      else none
  | reading ↦
      let (f, ok) = get_byte s in some (record f { bits_in_buf = 8; position = f.position + 1 }, ok)
  | other ↦ none
]

-- `fclose` succeeds.
unfoldable pub bf_close : BFile → Option (BFile × ℕ)
unfolding bf_flush
bf_close s = elim s.mode [
  | writing ↦ elim (bf_flush s) [ none ↦ none | some r ↦ some (r.0, 1) ]
  | _ ↦ some (s, 1)
]

-- Byte `i` of a 32-bit word in network order.
abbrev pub net_byte : ℕ → ℕ → ℕ
net_byte word i = word / 2 ^ (8 * (3 - i)) % 256

-- `for (i = 4 - bytes; i < 4; i++)` in `BFwriteWord`, with the rounds left.
unfoldable pub bf_write_bytes : ℕ → ℕ → BFile → Option (BFile × ℕ)
bf_write_bytes zero word s = some (s, 1)
bf_write_bytes (suc left) word s = elim (bf_write (net_byte word (3 - left)) 8 s) [
  | none ↦ none
  | some r ↦ elim r.1 [ zero ↦ some (r.0, 0) | suc ok ↦ bf_write_bytes left word r.0 ]
]

unfoldable pub bf_write_word : ℕ → ℕ → BFile → Option (BFile × ℕ)
unfolding bf_write_bytes
bf_write_word word nbits s =
    let bytes = nbits / 8 in
    let rest = nbits % 8 in
    let first : Option (BFile × ℕ) =
      if rest == 0 then some (s, 1) else bf_write (net_byte word (3 - bytes)) rest s in
    let all : Option (BFile × ℕ) = elim first [
      | none ↦ none
      | some r ↦ elim r.1 [ zero ↦ some (r.0, 0) | suc ok ↦ bf_write_bytes bytes word r.0 ]
    ] in
    if ltb 32 nbits then some (s, 0) else all

-- An off_t, returned as an int.
unfoldable pub bf_position : BFile → ℤ
bf_position s = signed32 (s.position % 2 ^ 32)
