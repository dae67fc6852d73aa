-- ===== src/BitIo/Stream.antt =====
-- cl/bitio.c: `BStream`, a stream on an array of bytes. `none` is a failed assertion or an access
-- outside the array. Results: the stream, then the value read, then the C result.
use cwb.Base.{
  ℕ, zero, suc, ◌+◌, ◌-◌, ◌/◌, ◌%◌, ◌^◌, ◌&&◌, Option, none, some, List, if◌then◌else◌, ltb, ◌==◌,
  get_elem?, set, length,
}
use cwb.Base.Int.{ℤ, signed32}
use cwb.BitIo.Buffer.{
  Mode, reading, writing, other, first_mask, shift_in, top_mask, shift_out, align_left,
}

-- `BStream`; a base of `none` is NULL.
pub record BStream : Type 0 where
  pub base : Option (List ℕ)
  pub mode : Mode
  pub buf : ℕ
  pub bits_in_buf : ℕ
  pub position : ℕ

unfoldable pub bs_open : Option (List ℕ) → Mode → Option (BStream × ℕ)
bs_open base mode =
    let stream : BStream = record {
      base = base;
      mode = mode;
      buf = 0;
      bits_in_buf = 0;
      position = 0;
    } in
    let opened : Option (BStream × ℕ) = some (stream, elim base [ none ↦ 0 | some bytes ↦ 1 ]) in
    elim mode [ other ↦ none | _ ↦ opened ]

-- `stream->base[stream->position] = stream->buf; stream->position++;`
unfoldable pub store_byte : BStream → Option BStream
store_byte s = elim s.base [
  | none ↦ none
  | some bytes ↦
      if ltb s.position (length bytes)
      then some (record s { base = some (set bytes s.position s.buf); position = s.position + 1 })
      else none
]

-- `stream->buf = stream->base[stream->position]; stream->position++; stream->bits_in_buf = 8;`
unfoldable pub load_byte : BStream → Option BStream
load_byte s = elim s.base [
  | none ↦ none
  | some bytes ↦ elim (get_elem? bytes s.position) [
    | none ↦ none
    | some b ↦ some (record s { buf = b; position = s.position + 1; bits_in_buf = 8 })
  ]
]

unfoldable pub bs_flush : BStream → Option (BStream × ℕ)
unfolding store_byte load_byte
bs_flush s = elim s.mode [
  | writing ↦
      if ltb 0 s.bits_in_buf && ltb s.bits_in_buf 8
      then elim (store_byte (record s { buf = align_left s.buf s.bits_in_buf })) [
        | none ↦ none
        | some w ↦ some (record w { buf = 0; bits_in_buf = 0 }, 1)
      ]
      else if s.bits_in_buf == 0
      then some (s, 0)
      else none
  | reading ↦ elim (load_byte s) [ none ↦ none | some r ↦ some (r, 1) ]
  | other ↦ none
]

-- The base is NULL afterwards, the result 1.
unfoldable pub bs_close : BStream → Option (BStream × ℕ)
unfolding bs_flush
bs_close s = elim s.mode [
  | writing ↦ elim (bs_flush s) [ none ↦ none | some r ↦ some (record (r.0) { base = none }, 1) ]
  | _ ↦ some (record s { base = none }, 1)
]

-- After the shift: a full byte is stored.
unfoldable pub bs_full : BStream → Option BStream
unfolding store_byte
bs_full s =
    if s.bits_in_buf == 8
    then elim (store_byte s) [ none ↦ none | some w ↦ some (record w { buf = 0; bits_in_buf = 0 }) ]
    else some s

-- `while (nbits > 0)` in `BSwrite`.
unfoldable pub bs_write_loop : ℕ → ℕ → ℕ → BStream → Option (BStream × ℕ)
unfolding bs_full
bs_write_loop zero mask data_byte s = some (s, 1)
bs_write_loop (suc nbits) mask data_byte s =
    let shifted = record s {
      bits_in_buf = s.bits_in_buf + 1;
      buf = shift_in s.buf data_byte mask;
    } in
    let next : Option (BStream × ℕ) = elim (bs_full shifted) [
      | none ↦ none
      | some w ↦ bs_write_loop nbits (mask / 2) data_byte w
    ] in
    if mask == 0 then none else if ltb s.bits_in_buf 8 then next else none

unfoldable pub bs_write : ℕ → ℕ → BStream → Option (BStream × ℕ)
unfolding bs_write_loop
bs_write data_byte nbits s = bs_write_loop nbits (first_mask nbits) data_byte s

-- `while (nbits > 0)` in `BSread`.
unfoldable pub bs_read_loop : ℕ → ℕ → BStream → Option (BStream × ℕ × ℕ)
unfolding load_byte
bs_read_loop zero data_byte s = some (s, data_byte, 1)
bs_read_loop (suc nbits) data_byte s = elim (if s.bits_in_buf == 0 then load_byte s else some s) [
  | none ↦ none
  | some l ↦
      bs_read_loop nbits (shift_in data_byte l.buf top_mask)
        (record l { buf = shift_out l.buf; bits_in_buf = l.bits_in_buf - 1 })
]

unfoldable pub bs_read : ℕ → BStream → Option (BStream × ℕ × ℕ)
unfolding bs_read_loop
bs_read nbits s = bs_read_loop nbits 0 s

-- An off_t, returned as an int.
unfoldable pub bs_position : BStream → ℤ
bs_position s = signed32 (s.position % 2 ^ 32)

unfoldable pub bs_seek : BStream → ℕ → BStream × ℕ
bs_seek s offset = (record s { buf = 0; bits_in_buf = 0; position = offset }, 1)
