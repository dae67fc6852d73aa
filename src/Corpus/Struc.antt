-- ===== src/Corpus/Struc.antt =====
-- cl/cdaccess.c: access to structural attributes. The component of an attribute is its data, or `none` where
-- `ensure_component` returns NULL. Results: the value of the function, `cl_errno`, then the locations that
-- were passed by address.
use cwb.Base.{
  ℕ, ◌+◌, ◌*◌, ◌/◌, true, false, Option, none, some, List, if◌then◌else◌, leb, ◌==◌, get_elem?,
  length, bit_or,
}
use cwb.Base.Int.{ℤ, pos, negsuc, eqb_ℤ}
use cwb.Corpus.Search.{get_previous_mark}

abbrev pub att_struc : ℕ
att_struc = 2

pub record Attribute : Type 0 where
  pub kind : ℕ
  pub struc_data : Option (List ℕ)

abbrev pub cda_ok : ℤ
cda_ok = pos 0

abbrev pub cda_enullatt : ℤ
cda_enullatt = negsuc 0

abbrev pub cda_eatttype : ℤ
cda_eatttype = negsuc 1

abbrev pub cda_eidxorng : ℤ
cda_eidxorng = negsuc 4

abbrev pub cda_estruc : ℤ
cda_estruc = negsuc 7

abbrev pub cda_enodata : ℤ
cda_enodata = negsuc 10

-- What the macro `check_arg` decides: go on with the attribute, or return this `cl_errno`.
pub data Arg : Type 0 where
  accepted : Attribute → Arg
  refused : ℤ → Arg

unfoldable pub check_arg : Option Attribute → Arg
check_arg none = refused cda_enullatt
check_arg (some attribute) =
    if attribute.kind == att_struc then accepted attribute else refused cda_eatttype

-- `ntohl(data[n * 2])` and `ntohl(data[n * 2 + 1])`, with the result 1.
unfoldable pub read_region : List ℕ → ℕ → Option (ℤ × ℤ × ℤ × ℤ)
read_region contents n = elim (get_elem? contents (n * 2)) [
  | none ↦ none
  | some start ↦ elim (get_elem? contents (n * 2 + 1)) [
    | none ↦ none
    | some last ↦ some (pos 1, cda_ok, pos start, pos last)
  ]
]

unfoldable pub cl_cpos2struc2cpos : Option Attribute → ℕ → ℤ → ℤ → Option (ℤ × ℤ × ℤ × ℤ)
unfolding check_arg read_region
cl_cpos2struc2cpos attribute position struc_start struc_end = elim (check_arg attribute) [
  | refused e ↦ some (e, e, struc_start, struc_end)
  | accepted a ↦ elim a.struc_data [
    | none ↦ some (pos 0, cda_enodata, pos 0, pos 0)
    | some contents ↦ elim (get_previous_mark contents (length contents) position) [
      | none ↦ none
      | some none ↦ some (pos 0, cda_estruc, pos 0, pos 0)
      | some (some n) ↦ read_region contents n
    ]
  ]
]

unfoldable pub cl_cpos2struc_oldstyle : Option Attribute → ℕ → ℤ → Option (ℤ × ℤ × ℤ)
unfolding check_arg
cl_cpos2struc_oldstyle attribute position struc_num = elim (check_arg attribute) [
  | refused e ↦ some (e, e, struc_num)
  | accepted a ↦ elim a.struc_data [
    | none ↦ some (pos 0, cda_enodata, struc_num)
    | some contents ↦ elim (get_previous_mark contents (length contents) position) [
      | none ↦ none
      | some none ↦ some (pos 0, cda_estruc, struc_num)
      | some (some n) ↦ some (pos 1, cda_ok, pos n)
    ]
  ]
]

-- The value and `cl_errno`.
unfoldable pub cl_cpos2struc : Option Attribute → ℕ → Option (ℤ × ℤ)
unfolding cl_cpos2struc_oldstyle
cl_cpos2struc a cpos = elim (cl_cpos2struc_oldstyle a cpos (negsuc 0)) [
  | none ↦ none
  | some (ok, e, struc) ↦ some (if eqb_ℤ ok (pos 0) then (e, e) else (struc, e))
]

-- STRUC_INSIDE, STRUC_LBOUND and STRUC_RBOUND.
abbrev pub boundary_flags : ℤ → ℤ → ℤ → ℕ
boundary_flags cpos start last =
    let inside = if eqb_ℤ cpos start then bit_or 1 2 else 1 in
    if eqb_ℤ cpos last then bit_or inside 4 else inside

unfoldable pub cl_cpos2boundary : Option Attribute → ℕ → Option (ℤ × ℤ)
unfolding cl_cpos2struc2cpos
cl_cpos2boundary a cpos = elim (cl_cpos2struc2cpos a cpos (negsuc 0) (negsuc 0)) [
  | none ↦ none
  | some (ok, e, start, last) ↦ some (
      if eqb_ℤ ok (pos 0)
      then (if eqb_ℤ e cda_estruc then (pos 0, e) else (e, e))
      else (pos (boundary_flags (pos cpos) start last), e))
]

unfoldable pub cl_struc2cpos : Option Attribute → ℤ → ℤ → ℤ → Option (ℤ × ℤ × ℤ × ℤ)
unfolding check_arg read_region
cl_struc2cpos attribute struc_num struc_start struc_end = elim (check_arg attribute) [
  | refused e ↦ some (e, e, struc_start, struc_end)
  | accepted a ↦ elim a.struc_data [
    | none ↦ some (pos 0, cda_enodata, struc_start, struc_end)
    | some contents ↦ elim struc_num [
      | negsuc k ↦ some (pos 0, cda_eidxorng, struc_start, struc_end)
      | pos n ↦ elim (leb (length contents / 2) n) [
        | true ↦ some (pos 0, cda_eidxorng, struc_start, struc_end)
        | false ↦ read_region contents n
      ]
    ]
  ]
]

-- The value, `cl_errno`, and the number of regions.
unfoldable pub cl_max_struc_oldstyle : Option Attribute → ℤ → ℤ × ℤ × ℤ
unfolding check_arg
cl_max_struc_oldstyle attribute nr_strucs = elim (check_arg attribute) [
  | refused e ↦ (e, e, nr_strucs)
  | accepted a ↦ elim a.struc_data [
    | none ↦ (pos 0, cda_enodata, nr_strucs)
    | some contents ↦ (pos 1, cda_ok, pos (length contents / 2))
  ]
]

unfoldable pub cl_max_struc : Option Attribute → ℤ × ℤ
unfolding cl_max_struc_oldstyle
cl_max_struc a =
    let (ok, e, nr) = cl_max_struc_oldstyle a (negsuc 0) in
    if eqb_ℤ ok (pos 0) then (e, e) else (nr, e)
