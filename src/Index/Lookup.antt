-- ===== src/Index/Lookup.antt =====
-- cl/cdaccess.c: `cl_id2cpos_oldstyle`, the positions of a type on a positional attribute. `none` is an
-- access outside of a component.
use cwb.Base.{
  ℕ, zero, suc, ◌+◌, ◌%◌, ◌^◌, Bool, true, false, ◌&&◌, Option, none, some, List, [], ◌∷◌,
  if◌then◌else◌, ltb, leb, ◌==◌, get_elem?, length, take, drop,
}
use cwb.Base.Int.{ℤ, pos, negsuc, eqb_ℤ, unsigned32}
use cwb.BitIo.Buffer.{reading}
use cwb.BitIo.Stream.{BStream, bs_open, bs_seek}
use cwb.Compression.Golomb.{compute_ba, read_golomb_code_bs}
use cwb.Corpus.Struc.{cda_ok, cda_enodata}
use cwb.Index.Positional.{
  PosAttribute, accepted, refused, pos_arg, cda_eidorng, cl_index_compressed, cl_max_cpos,
  cl_max_id, cl_id2freq,
}
use cwb.Index.Restrict.{skip_ranges, in_first, restrict_buffer}

-- A value above 0 with `cl_errno` OK.
abbrev pub positive : ℤ × ℤ → Option ℕ
positive (pos n, e) = if ltb 0 n && eqb_ℤ e cda_ok then some n else none
positive (negsuc n, e) = none

-- The checks at the head of `cl_id2cpos_oldstyle` and `cl_new_stream`: `cl_errno`, and what `*freq` is set
-- to; or the size of the corpus and the frequency.
pub data IdCheck : Type 0 where
  failed : ℤ → Option ℤ → IdCheck
  checked : ℕ → ℕ → IdCheck

unfoldable pub check_freq : PosAttribute → ℤ → ℕ → IdCheck
check_freq a id size =
    let (freq, e) = cl_id2freq (some a) id in
    elim freq [
      | negsuc k ↦ failed e (some (negsuc k))
      | pos n ↦ if eqb_ℤ e cda_ok then checked size n else failed e (some (pos n))
    ]

unfoldable pub check_id : PosAttribute → ℤ → IdCheck
unfolding check_freq
check_id a id =
    let size = cl_max_cpos (some a) in
    let range = cl_max_id (some a) in
    elim (positive size) [
      | none ↦ failed size.1 none
      | some n ↦ elim (positive range) [
        | none ↦ failed range.1 none
        | some m ↦ elim id [
          | negsuc k ↦ failed cda_eidorng (some (pos 0))
          | pos i ↦ if ltb i m then check_freq a (pos i) n else failed cda_eidorng (some (pos 0))
        ]
      ]
    ]

-- `BSopen` for reading, and `BSseek`.
unfoldable pub stream_at : List ℕ → ℕ → Option BStream
stream_at bytes offset = elim (bs_open (some bytes) reading) [
  | none ↦ none
  | some opened ↦ some ((bs_seek opened.0 offset).0)
]

-- `ntohl(revcorp[offset])` and the ints after it.
unfoldable pub ints_at : List ℕ → ℕ → ℕ → Option (List ℕ)
ints_at contents offset n =
    if leb (offset + n) (length contents) then some (take n (drop offset contents)) else none

-- The list is shortened to the positions that were kept, and NULL if none was.
unfoldable pub reduce : ℕ → List ℕ → Option (List ℕ) × ℤ × ℤ
reduce freq buffer =
    if ltb (length buffer) freq
    then (if length buffer == 0 then none else some buffer, cda_ok, pos (length buffer))
    else (some buffer, cda_ok, pos freq)

module _ (ceil_log2 : ℕ → ℕ) (ratio : ℕ → ℕ → ℤ) where
  -- `for (i = 0; i < *freq; i++)` on the compressed index, with the ranges from `res_ptr` on.
  unfoldable pub positions_loop : ℕ → ℕ → Bool → List (ℕ × ℕ) → ℕ → BStream → Option (List ℕ)
  positions_loop zero b restricted ranges last_pos bs = some []
  positions_loop (suc n) b restricted ranges last_pos bs =
      elim (read_golomb_code_bs ceil_log2 b bs) [
        | none ↦ none
        | some r ↦
            let p = (last_pos + unsigned32 r.1) % 2 ^ 32 in
            let ranges' = if restricted then skip_ranges p ranges else ranges in
            elim (positions_loop n b restricted ranges' p r.0) [
              | none ↦ none
              | some rest ↦
                  some (
                    if restricted
                    then (if in_first p ranges' then p ∷ rest else rest)
                    else p ∷ rest)
            ]
      ]

  abbrev pub is_restricted : List (ℕ × ℕ) → Bool
  is_restricted [] = false
  is_restricted (range ∷ ranges) = true

  unfoldable pub compressed_positions :
      List ℕ → List ℕ → ℕ → ℕ → ℕ → List (ℕ × ℕ) → Option (Option (List ℕ) × ℤ × ℤ)
  unfolding positions_loop stream_at reduce
  compressed_positions rf rfx id size freq ranges = elim (get_elem? rfx id) [
    | none ↦ none
    | some offset ↦ elim (stream_at rf offset) [
      | none ↦ none
      | some bs ↦
          elim (positions_loop freq (compute_ba ratio freq size) (is_restricted ranges) ranges 0
            bs) [ none ↦ none | some buffer ↦ some (reduce freq buffer) ]
    ]
  ]

  unfoldable pub plain_positions :
      List ℕ → List ℕ → ℕ → ℕ → List (ℕ × ℕ) → Option (Option (List ℕ) × ℤ × ℤ)
  unfolding ints_at reduce
  plain_positions rev idx id freq ranges = elim (get_elem? idx id) [
    | none ↦ none
    | some offset ↦ elim (ints_at rev offset freq) [
      | none ↦ none
      | some buffer ↦ some (
          if is_restricted ranges
          then reduce freq (restrict_buffer buffer ranges)
          else (some buffer, cda_ok, pos freq))
    ]
  ]

  -- NULL or the list, `cl_errno`, and `*freq`. A restrictor list of [] is NULL or of size 0.
  unfoldable pub cl_id2cpos_oldstyle :
      Option PosAttribute → ℤ → ℤ → List (ℕ × ℕ) → Option (Option (List ℕ) × ℤ × ℤ)
  unfolding pos_arg check_id compressed_positions plain_positions
  cl_id2cpos_oldstyle attribute id freq restrictor_list = elim (pos_arg attribute) [
    | refused e ↦ some (none, e, freq)
    | accepted a ↦ elim (check_id a id) [
      | failed e none ↦ some (none, e, freq)
      | failed e (some f) ↦ some (none, e, f)
      | checked size n ↦
          let no_data : Option (Option (List ℕ) × ℤ × ℤ) = some (none, cda_enodata, pos 0) in
          let i = unsigned32 id in
          if eqb_ℤ (cl_index_compressed (some a)) (pos 0)
          then elim a.rev_corpus [
            | none ↦ no_data
            | some rev ↦ elim a.rev_corpus_idx [
              | none ↦ no_data
              | some idx ↦ plain_positions rev idx i n restrictor_list
            ]
          ]
          else elim a.comp_rf [
            | none ↦ no_data
            | some rf ↦ elim a.comp_rfx [
              | none ↦ no_data
              | some rfx ↦ compressed_positions rf rfx i size n restrictor_list
            ]
          ]
    ]
  ]
