-- ===== src/Index/Positional.antt =====
-- cl/cdaccess.c: positional attributes and their sizes. The ints of a component, after `ntohl`, are natural
-- numbers; `none` is a component for which `ensure_component` returns NULL. That a component is loaded
-- matters only where it keeps the compressed data from being used, so it is noted only there. Results are
-- the value and `cl_errno`.
use cwb.Base.{
  ℕ, ◌+◌, ◌%◌, ◌^◌, [], ◌∷◌, Bool, true, false, ◌&&◌, Option, none, some, List, if◌then◌else◌, ltb,
  ◌==◌, get_or, length,
}
use cwb.Base.Int.{ℤ, pos, negsuc, eqb_ℤ, signed32}
use cwb.Corpus.Struc.{cda_ok, cda_enullatt, cda_eatttype, cda_eidxorng, cda_enodata}

abbrev pub att_pos : ℕ
att_pos = 1

abbrev pub cda_eidorng : ℤ
cda_eidorng = negsuc 2

-- `HCD`, as far as it is used here.
pub record Hcd : Type 0 where
  pub items : ℕ
  pub min_code : List ℕ
  pub symindex : List ℕ
  pub symbols : List ℕ

pub record PosAttribute : Type 0 where
  pub kind : ℕ
  pub corpus : Option (List ℕ)
  pub corpus_loaded : Bool
  pub huff_seq : Option (List ℕ)
  pub huff_codes : Option Hcd
  pub huff_sync : Option (List ℕ)
  pub hc : Option Hcd
  pub lexicon_idx : Option (List ℕ)
  pub freqs : Option (List ℕ)
  pub rev_corpus : Option (List ℕ)
  pub rev_corpus_idx : Option (List ℕ)
  pub rev_loaded : Bool
  pub comp_rf : Option (List ℕ)
  pub comp_rfx : Option (List ℕ)

-- `check_arg` for ATT_POS.
pub data PosArg : Type 0 where
  accepted : PosAttribute → PosArg
  refused : ℤ → PosArg

unfoldable pub pos_arg : Option PosAttribute → PosArg
pos_arg none = refused cda_enullatt
pos_arg (some attribute) =
    if attribute.kind == att_pos then accepted attribute else refused cda_eatttype

-- A component that is loaded or unloaded.
abbrev pub exists {ℓ} : {A : Type ℓ} → Option A → Bool
exists none = false
exists (some a) = true

unfoldable pub cl_sequence_compressed : Option PosAttribute → ℤ
unfolding pos_arg
cl_sequence_compressed attribute = elim (pos_arg attribute) [
  | refused e ↦ e
  | accepted a ↦
      if exists a.hc
      then pos 1
      else (if a.corpus_loaded
          then pos 0
          else (if exists a.huff_seq && exists a.huff_codes && exists a.huff_sync
              then pos 1
              else pos 0))
]

unfoldable pub cl_index_compressed : Option PosAttribute → ℤ
unfolding pos_arg
cl_index_compressed attribute = elim (pos_arg attribute) [
  | refused e ↦ e
  | accepted a ↦
      if a.rev_loaded
      then pos 0
      else (if exists a.comp_rf && exists a.comp_rfx then pos 1 else pos 0)
]

-- `attribute->pos.hc` after `ensure_component` of the codes.
abbrev pub codes_of : PosAttribute → Option Hcd
codes_of a = elim a.hc [ some h ↦ some h | none ↦ a.huff_codes ]

unfoldable pub cl_max_cpos : Option PosAttribute → ℤ × ℤ
unfolding pos_arg cl_sequence_compressed
cl_max_cpos attribute = elim (pos_arg attribute) [
  | refused e ↦ (e, e)
  | accepted a ↦
      if eqb_ℤ (cl_sequence_compressed (some a)) (pos 1)
      then elim (codes_of a) [ none ↦ (cda_enodata, cda_enodata) | some h ↦ (pos h.items, cda_ok) ]
      else elim a.corpus [
        | none ↦ (cda_enodata, cda_enodata)
        | some contents ↦ (pos (length contents), cda_ok)
      ]
]

unfoldable pub cl_max_id : Option PosAttribute → ℤ × ℤ
unfolding pos_arg
cl_max_id attribute = elim (pos_arg attribute) [
  | refused e ↦ (e, e)
  | accepted a ↦ elim a.lexicon_idx [
    | none ↦ (cda_enodata, cda_enodata)
    | some contents ↦ (pos (length contents), cda_ok)
  ]
]

unfoldable pub cl_id2freq : Option PosAttribute → ℤ → ℤ × ℤ
unfolding pos_arg
cl_id2freq attribute id = elim (pos_arg attribute) [
  | refused e ↦ (e, e)
  | accepted a ↦ elim a.freqs [
    | none ↦ (cda_enodata, cda_enodata)
    | some contents ↦ elim id [
      | negsuc k ↦ (cda_eidxorng, cda_eidxorng)
      | pos n ↦
          if ltb n (length contents)
          then (pos (get_or contents n 0), cda_ok)
          else (cda_eidxorng, cda_eidxorng)
    ]
  ]
]

-- The sum of the frequencies of a list of ids, as an int.
unfoldable pub sum_freqs : Option PosAttribute → List ℤ → ℕ → ℤ × ℤ
unfolding cl_id2freq
sum_freqs attribute [] sum = (signed32 sum, cda_ok)
sum_freqs attribute (id ∷ word_ids) sum =
    let (value, e) = cl_id2freq attribute id in
    elim value [
      | negsuc k ↦ (e, e)
      | pos freq ↦ sum_freqs attribute word_ids ((sum + freq) % 2 ^ 32)
    ]

unfoldable pub cl_idlist2freq : Option PosAttribute → Option (List ℤ) → ℤ × ℤ
unfolding pos_arg sum_freqs
cl_idlist2freq attribute word_ids = elim (pos_arg attribute) [
  | refused e ↦ (e, e)
  | accepted a ↦ elim word_ids [
    | none ↦ (cda_enodata, cda_enodata)
    | some ids ↦ sum_freqs (some a) ids 0
  ]
]
