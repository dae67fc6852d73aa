-- ===== src/Index/Compress.antt =====
-- utils/cwb-compress-rdx.c: `compress_reversed_index`. Both files are written from their start; results are
-- their contents. `none` is an exit after an error message, a failed assertion, or a position below the one
-- before it, of which the gap would be written as a negative number.
use cwb.Base.{
  ℕ, zero, suc, ◌+◌, ◌-◌, true, Option, none, some, List, [], ◌∷◌, if◌then◌else◌, ltb, ◌==◌,
}
use cwb.Base.Int.{ℤ, pos, negsuc, eqb_ℤ, unsigned32}
use cwb.BitIo.Buffer.{writing}
use cwb.BitIo.File.{BFile, bf_open, bf_flush, bf_close, bf_position}
use cwb.Compression.Golomb.{compute_ba, write_golomb_code}
use cwb.Corpus.Struc.{cda_ok}
use cwb.Index.Positional.{PosAttribute, cl_max_cpos, cl_max_id, cl_id2freq}
use cwb.Index.Lookup.{positive}
use cwb.Index.Streams.{PositionStream, cl_new_stream, cl_read_stream}

-- The attribute after `ensure_component` of REVCORP and REVCIDX.
unfoldable pub load_index : PosAttribute → Option PosAttribute
load_index a = elim a.rev_corpus [
  | none ↦ none
  | some rev ↦ elim a.rev_corpus_idx [
    | none ↦ none
    | some idx ↦ some (record a { rev_loaded = true })
  ]
]

-- `(element_freq == 0) || (cl_errno != CDA_OK)`
unfoldable pub element_freq : PosAttribute → ℕ → Option ℕ
unfolding cl_id2freq
element_freq a id =
    let (freq, e) = cl_id2freq (some a) (pos id) in
    elim freq [
      | negsuc k ↦ none
      | pos n ↦ if n == 0 then none else if eqb_ℤ e cda_ok then some n else none
    ]

module _ (ceil_log2 : ℕ → ℕ) (ratio : ℕ → ℕ → ℤ) where
  unfoldable pub open_stream : PosAttribute → ℕ → Option PositionStream
  unfolding cl_new_stream
  open_stream a id = elim (cl_new_stream ceil_log2 ratio (some a) (pos id)) [
    | none ↦ none
    | some (none, e) ↦ none
    | some (some ps, e) ↦ if eqb_ℤ e cda_ok then some ps else none
  ]

  -- `1 != cl_read_stream(PStream, &new_pos, 1)`
  unfoldable pub next_position : PositionStream → Option (PositionStream × ℕ)
  unfolding cl_read_stream
  next_position ps = elim (cl_read_stream ceil_log2 ratio ps 1) [
    | none ↦ none
    | some (t, []) ↦ none
    | some (t, new_pos ∷ rest) ↦ some (t, new_pos)
  ]

  -- `for (k = 0; k < element_freq; k++)`
  unfoldable pub write_gaps : ℕ → ℕ → ℕ → PositionStream → BFile → Option BFile
  unfolding next_position
  write_gaps zero b last_pos ps data_file = some data_file
  write_gaps (suc k) b last_pos ps data_file = elim (next_position ps) [
    | none ↦ none
    | some (t, new_pos) ↦
        if ltb new_pos last_pos
        then none
        else elim (write_golomb_code ceil_log2 (new_pos - last_pos) b data_file) [
          | none ↦ none
          | some r ↦ write_gaps k b new_pos t r.0
        ]
  ]

  -- One element: its offset, the 32 bits of an int, is put into the index file, its gaps into the data
  -- file.
  unfoldable pub write_element : PosAttribute → ℕ → ℕ → BFile → Option (BFile × ℕ)
  unfolding element_freq open_stream write_gaps
  write_element a corpus_size i data_file = elim (element_freq a i) [
    | none ↦ none
    | some freq ↦ elim (open_stream a i) [
      | none ↦ none
      | some ps ↦ elim (write_gaps freq (compute_ba ratio freq corpus_size) 0 ps data_file) [
        | none ↦ none
        | some w ↦ elim (bf_flush w) [
          | none ↦ none
          | some r ↦ some (r.0, unsigned32 (bf_position data_file))
        ]
      ]
    ]
  ]

  -- `for (i = 0; i < nr_elements; i++)`
  unfoldable pub write_elements : PosAttribute → ℕ → ℕ → ℕ → BFile → Option (BFile × List ℕ)
  unfolding write_element
  write_elements a corpus_size zero i data_file = some (data_file, [])
  write_elements a corpus_size (suc n) i data_file =
      elim (write_element a corpus_size i data_file) [
        | none ↦ none
        | some (r, fpos) ↦ elim (write_elements a corpus_size n (i + 1) r) [
          | none ↦ none
          | some (t, offsets) ↦ some (t, fpos ∷ offsets)
        ]
      ]

  -- The loop, and both files closed.
  unfoldable pub write_files : PosAttribute → ℕ → ℕ → BFile → Option (List ℕ × List ℕ)
  unfolding write_elements
  write_files a corpus_size nr_elements data_file =
      elim (write_elements a corpus_size nr_elements 0 data_file) [
        | none ↦ none
        | some (t, offsets) ↦ elim (bf_close t) [
          | none ↦ none
          | some c ↦ some (c.0.output, offsets)
        ]
      ]

  unfoldable pub write_index : PosAttribute → ℕ → ℕ → ℕ → Option (List ℕ × List ℕ)
  unfolding write_files
  write_index a corpus_size nr_elements room = elim (bf_open [] room writing) [
    | none ↦ none
    | some f ↦ if f.1 == 0 then none else write_files a corpus_size nr_elements f.0
  ]

  -- The compressed index and its offsets; `room` bytes can be written.
  unfoldable pub compress_reversed_index : PosAttribute → ℕ → Option (List ℕ × List ℕ)
  unfolding load_index write_index
  compress_reversed_index attribute room = elim (load_index attribute) [
    | none ↦ none
    | some a ↦ elim (positive (cl_max_id (some a))) [
      | none ↦ none
      | some nr_elements ↦ elim (positive (cl_max_cpos (some a))) [
        | none ↦ none
        | some corpus_size ↦ write_index a corpus_size nr_elements room
      ]
    ]
  ]
