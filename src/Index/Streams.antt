-- ===== src/Index/Streams.antt =====
-- cl/cdaccess.c: position streams, `PositionStream`, which read the positions of a type piece by piece. The
-- ints of a stream are natural numbers; `none` is an access outside of a component.
use cwb.Base.{
  ℕ, zero, suc, ◌+◌, ◌-◌, ◌%◌, ◌^◌, Option, none, some, List, [], ◌∷◌, if◌then◌else◌, ltb, leb,
  ◌==◌, get_elem?, length, drop,
}
use cwb.Base.Int.{ℤ, pos, negsuc, eqb_ℤ, signed32, unsigned32}
use cwb.BitIo.Buffer.{reading}
use cwb.BitIo.Stream.{BStream}
use cwb.Compression.Golomb.{compute_ba, read_golomb_code_bs}
use cwb.Corpus.Struc.{cda_ok, cda_enodata}
use cwb.Index.Positional.{PosAttribute, accepted, refused, pos_arg, cl_index_compressed}
use cwb.Index.Lookup.{failed, checked, check_id, stream_at, ints_at}

-- `base` holds the ints from the pointer on. The bit stream is set only if the index is compressed.
pub record PositionStream : Type 0 where
  pub id : ℤ
  pub id_freq : ℕ
  pub nr_items : ℕ
  pub is_compressed : ℕ
  pub bs : BStream
  pub b : ℕ
  pub last_pos : ℕ
  pub base : Option (List ℕ)

-- A stream that was never opened.
abbrev pub no_stream : BStream
no_stream = record { base = none; mode = reading; buf = 0; bits_in_buf = 0; position = 0 }

unfoldable pub fresh : ℤ → ℕ → PositionStream
fresh id freq = record {
  id = id;
  id_freq = freq;
  nr_items = 0;
  is_compressed = 0;
  bs = no_stream;
  b = 0;
  last_pos = 0;
  base = none;
}

-- `revcorp->data.data + offset`; the end of the component may be pointed to.
unfoldable pub stream_base : List ℕ → List ℕ → ℕ → PositionStream → Option PositionStream
stream_base rev idx id ps = elim (get_elem? idx id) [
  | none ↦ none
  | some offset ↦
      if leb offset (length rev) then some (record ps { base = some (drop offset rev) }) else none
]

-- `memcpy(buffer, ps->base + ps->nr_items, ...)`
unfoldable pub copy_ints : ℕ → PositionStream → Option (PositionStream × List ℕ)
unfolding ints_at
copy_ints n ps = elim ps.base [
  | none ↦ none
  | some ints ↦ elim (ints_at ints ps.nr_items n) [
    | none ↦ none
    | some items ↦ some (record ps { nr_items = ps.nr_items + n }, items)
  ]
]

-- `int offset = ntohl(...)`, passed on as an off_t: the 64 bits of a number that is negative from 2^31 on,
-- and then no position of an array.
unfoldable pub seek_offset : ℕ → ℕ
seek_offset word = elim (signed32 word) [ pos n ↦ n | negsuc k ↦ 2 ^ 64 - 1 - k ]

module _ (ceil_log2 : ℕ → ℕ) (ratio : ℕ → ℕ → ℤ) where
  unfoldable pub stream_code : List ℕ → List ℕ → ℕ → ℕ → PositionStream → Option PositionStream
  unfolding stream_at seek_offset
  stream_code rf rfx id size ps = elim (get_elem? rfx id) [
    | none ↦ none
    | some offset ↦ elim (stream_at rf (seek_offset offset)) [
      | none ↦ none
      | some bs ↦ some (record ps {
        is_compressed = 1;
        b = compute_ba ratio ps.id_freq size;
        bs = bs;
        last_pos = 0;
      })
    ]
  ]

  abbrev pub opened : Option PositionStream → Option (Option PositionStream × ℤ)
  opened none = none
  opened (some ps) = some (some ps, cda_ok)

  -- The stream or NULL, and `cl_errno`.
  unfoldable pub cl_new_stream : Option PosAttribute → ℤ → Option (Option PositionStream × ℤ)
  unfolding pos_arg check_id stream_base stream_code
  cl_new_stream attribute id = elim (pos_arg attribute) [
    | refused e ↦ some (none, e)
    | accepted a ↦ elim (check_id a id) [
      | failed e freq ↦ some (none, e)
      | checked size freq ↦
          let no_data : Option (Option PositionStream × ℤ) = some (none, cda_enodata) in
          let ps = fresh id freq in
          let i = unsigned32 id in
          if eqb_ℤ (cl_index_compressed (some a)) (pos 0)
          then elim a.rev_corpus [
            | none ↦ no_data
            | some rev ↦ elim a.rev_corpus_idx [
              | none ↦ no_data
              | some idx ↦ opened (stream_base rev idx i ps)
            ]
          ]
          else elim a.comp_rf [
            | none ↦ no_data
            | some rf ↦ elim a.comp_rfx [
              | none ↦ no_data
              | some rfx ↦ opened (stream_code rf rfx i size ps)
            ]
          ]
    ]
  ]

  -- `for (i = 0; i < items_to_read; i++,ps->nr_items++)`
  unfoldable pub read_gaps : ℕ → PositionStream → Option (PositionStream × List ℕ)
  read_gaps zero ps = some (ps, [])
  read_gaps (suc n) ps = elim (read_golomb_code_bs ceil_log2 ps.b ps.bs) [
    | none ↦ none
    | some r ↦
        let p = (ps.last_pos + unsigned32 r.1) % 2 ^ 32 in
        elim (read_gaps n (record ps { bs = r.0; last_pos = p; nr_items = ps.nr_items + 1 })) [
          | none ↦ none
          | some t ↦ some (t.0, p ∷ t.1)
        ]
  ]

  -- The stream, and the items that are put into the buffer, whose number is the result.
  unfoldable pub cl_read_stream : PositionStream → ℕ → Option (PositionStream × List ℕ)
  unfolding read_gaps copy_ints
  cl_read_stream ps buffer_size =
      let left = ps.id_freq - ps.nr_items in
      let items_to_read = if ltb left buffer_size then left else buffer_size in
      if leb ps.id_freq ps.nr_items
      then some (ps, [])
      else if items_to_read == 0
      then some (ps, [])
      else if ps.is_compressed == 0
      then copy_ints items_to_read ps
      else read_gaps items_to_read ps
