-- ===== src/Corpus/StrucErrors.antt =====
-- Structural attributes that cannot be accessed.
use cwb.Base.{ℕ, ◌≡◌, ◌≢◌, refl, true, false, Option, none, some, arith, ◌==◌}
use cwb.Base.Int.{ℤ, pos, negsuc, eqb_ℤ}
use cwb.Corpus.Struc.{
  att_struc, Attribute, cda_eatttype, cda_enodata, check_arg, cl_cpos2struc2cpos,
  cl_cpos2struc_oldstyle, cl_cpos2struc, cl_cpos2boundary, boundary_flags,
}

-- An attribute without data: `cl_cpos2struc` and `cl_cpos2boundary` return CDA_ENODATA. An attribute of
-- another type, for a position that is not negative: `cl_cpos2struc` returns -1, which is not `cl_errno`, and
-- `cl_cpos2boundary` returns STRUC_INSIDE, as if the position were in a region.
pub cl_cpos2struc_refused :
    (missing wrong : Attribute) (position : ℕ)
    → missing.kind ≡ att_struc
    → missing.struc_data ≡ none
    → wrong.kind ≢ att_struc
    → (cl_cpos2struc (some missing) position ≡ some (cda_enodata, cda_enodata))
      × (cl_cpos2boundary (some missing) position ≡ some (cda_enodata, cda_enodata))
      × (cl_cpos2struc (some wrong) position ≡ some (negsuc 0, cda_eatttype))
      × (cl_cpos2boundary (some wrong) position ≡ some (pos 1, cda_eatttype))
unfolding cl_cpos2struc cl_cpos2struc_oldstyle cl_cpos2boundary cl_cpos2struc2cpos check_arg
cl_cpos2struc_refused missing wrong position kind no_data differs =
    let struc : (missing.kind == att_struc) ≡ true = ground (arith, kind) in
    let other : (wrong.kind == att_struc) ≡ false = ground (arith, differs) in
    (
      rw (cl_cpos2struc, cl_cpos2struc_oldstyle, check_arg, struc, no_data) refl,
      rw (cl_cpos2boundary, cl_cpos2struc2cpos, check_arg, struc, no_data) refl,
      rw (cl_cpos2struc, cl_cpos2struc_oldstyle, check_arg, other) refl,
      rw (cl_cpos2boundary, cl_cpos2struc2cpos, check_arg, other) (wrong_flags position),
    )
  where
    wrong_flags :
        (position : ℕ)
        → ◌≡◌ {A = Option (ℤ × ℤ)}
            (some (pos (boundary_flags (pos position) (negsuc 0) (negsuc 0)), cda_eatttype))
            (some (pos 1, cda_eatttype))
    wrong_flags position =
        let differ : eqb_ℤ (pos position) (negsuc 0) ≡ false = ground arith in rw differ refl
