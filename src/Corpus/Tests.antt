-- ===== src/Corpus/Tests.antt =====
-- cl/cdaccess.c at concrete inputs.
use cwb.Base.{ℕ, zero, suc, ◌≤◌, ◌<◌, ◌≡◌, refl, none, some, List, [], ◌∷◌, arith}
use cwb.Base.Int.{pos, negsuc}
use cwb.Corpus.Search.{get_previous_mark, get_extended_alignment}
use cwb.Corpus.Struc.{
  att_struc, Attribute, cda_ok, cda_eatttype, cda_enodata, check_arg, cl_cpos2struc2cpos,
  cl_cpos2struc, cl_cpos2boundary, cl_struc2cpos, cl_max_struc, cl_max_struc_oldstyle,
}
use cwb.Corpus.Align.{get_alignment, alignment_loop, cl_cpos2alg, cl_alg2cpos}
use cwb.Corpus.AlignLaws.{with_alignments, cl_cpos2alg-cl_alg2cpos}
use cwb.Corpus.Regions.{start_of, last_of, IsRegions}
use cwb.Corpus.Found.{AlignOutcome, Outcome}
use cwb.Corpus.StrucLaws.{
  searches-Answers, with_regions, region_of, flags, cl_cpos2struc-cl_struc2cpos,
  cl_cpos2boundary_lem,
}
use cwb.Corpus.StrucErrors.{cl_cpos2struc_refused}

-- The positions from 2 to 5, 8, and from 10 to 20.
abbrev three_regions : List ℕ
three_regions = 2 ∷ 5 ∷ 8 ∷ 8 ∷ 10 ∷ 20 ∷ []

three_regions-IsRegions : IsRegions 2 three_regions 3
three_regions-IsRegions = record { inside = λ i h. omega arith; ordered = in_order; apart = behind }
  where
    in_order : (i : ℕ) → i < 3 → start_of 2 three_regions i ≤ last_of 2 three_regions i
    in_order zero h = omega arith
    in_order (suc zero) h = omega arith
    in_order (suc (suc zero)) h = omega arith
    in_order (suc (suc (suc i))) h = absurd (omega arith)

    behind : (i : ℕ) → suc i < 3 → last_of 2 three_regions i < start_of 2 three_regions (suc i)
    behind zero h = omega arith
    behind (suc zero) h = omega arith
    behind (suc (suc i)) h = absurd (omega arith)

-- The positions from 0 to 4 are aligned with those from 0 to 6, those from 7 to 9 with 7.
abbrev two_alignments : List ℕ
two_alignments = 0 ∷ 4 ∷ 0 ∷ 6 ∷ 7 ∷ 9 ∷ 7 ∷ 7 ∷ []

two_alignments-IsRegions : IsRegions 4 two_alignments 2
two_alignments-IsRegions = record {
  inside = λ i h. omega arith;
  ordered = in_order;
  apart = behind;
}
  where
    in_order : (i : ℕ) → i < 2 → start_of 4 two_alignments i ≤ last_of 4 two_alignments i
    in_order zero h = omega arith
    in_order (suc zero) h = omega arith
    in_order (suc (suc i)) h = absurd (omega arith)

    behind : (i : ℕ) → suc i < 2 → last_of 4 two_alignments i < start_of 4 two_alignments (suc i)
    behind zero h = omega arith
    behind (suc i) h = absurd (omega arith)

searches-Answers_example :
    Outcome 2 three_regions 3 8 (get_previous_mark three_regions 6 8)
    × AlignOutcome two_alignments 2 8 (get_extended_alignment two_alignments 8 8)
searches-Answers_example =
    searches-Answers three_regions two_alignments 8 three_regions-IsRegions two_alignments-IsRegions
      (omega arith) (omega arith)

cl_cpos2struc-cl_struc2cpos_example :
    (cl_cpos2struc (with_regions three_regions) 12 ≡ some (pos 2, cda_ok))
    × (cl_cpos2struc2cpos (with_regions three_regions) 12 (pos 0) (pos 0)
        ≡ region_of three_regions 2)
    × (cl_struc2cpos (with_regions three_regions) (pos 2) (pos 0) (pos 0)
        ≡ region_of three_regions 2)
cl_cpos2struc-cl_struc2cpos_example =
    cl_cpos2struc-cl_struc2cpos three_regions 12 three_regions-IsRegions (omega arith) 2 (pos 0)
      (pos 0) (omega arith) (omega arith) (omega arith)

cl_cpos2boundary_lem_example :
    cl_cpos2boundary (with_regions three_regions) 8 ≡ some (flags three_regions 8 (some 1))
cl_cpos2boundary_lem_example =
    cl_cpos2boundary_lem three_regions 8 three_regions-IsRegions (omega arith) (some 1)
      (omega arith, omega arith, omega arith)

flags_test : flags three_regions 8 (some 1) ≡ (pos 7, cda_ok)
flags_test = refl

abbrev no_regions : Attribute
no_regions = record { kind = att_struc; struc_data = none }

-- A positional attribute.
abbrev other_attribute : Attribute
other_attribute = record { kind = 1; struc_data = none }

cl_cpos2struc_refused_example :
    (cl_cpos2struc (some no_regions) 3 ≡ some (cda_enodata, cda_enodata))
    × (cl_cpos2boundary (some no_regions) 3 ≡ some (cda_enodata, cda_enodata))
    × (cl_cpos2struc (some other_attribute) 3 ≡ some (negsuc 0, cda_eatttype))
    × (cl_cpos2boundary (some other_attribute) 3 ≡ some (pos 1, cda_eatttype))
cl_cpos2struc_refused_example =
    cl_cpos2struc_refused no_regions other_attribute 3 refl refl (λ e. omega (arith, e))

max_test : cl_max_struc (with_regions three_regions) ≡ (pos 3, cda_ok)
unfolding cl_max_struc cl_max_struc_oldstyle check_arg
max_test = refl

cl_cpos2alg-cl_alg2cpos_example :
    (cl_cpos2alg (with_alignments two_alignments) 8 ≡ some (pos 1, cda_ok))
    × (cl_alg2cpos (with_alignments two_alignments) (pos 1)
        ≡ some (pos 1, cda_ok, pos 7, pos 9, pos 7, pos 7))
cl_cpos2alg-cl_alg2cpos_example =
    cl_cpos2alg-cl_alg2cpos two_alignments 8 1 two_alignments-IsRegions (omega arith) (omega arith)
      (omega arith) (omega arith)

-- A position behind the last boundary of an alignment that is not extended: the search reads behind the data.
past_end_test : get_alignment (0 ∷ 0 ∷ 5 ∷ 7 ∷ []) 4 6 ≡ none
unfolding get_alignment alignment_loop
past_end_test = refl

boundary_test : get_alignment (0 ∷ 0 ∷ 5 ∷ 7 ∷ []) 4 3 ≡ some (pos 0)
unfolding get_alignment alignment_loop
boundary_test = refl
