-- ===== src/Corpus/StrucLaws.antt =====
-- What access to structural attributes returns, given the regions in their data.

use native.Mathlib.Nat.{pow-le-pow_right}
use cwb.Base.{
  ℕ, ◌+◌, ◌-◌, ◌*◌, ◌/◌, ◌^◌, ◌≤◌, ◌<◌, ◌≡◌, refl, ap, ◌∙◌, false, Option, none, some, List, arith,
  if◌then◌else◌, ltb, leb, ◌==◌, length, Bool-cases, inl, inr,
}
use cwb.Base.Int.{ℤ, pos}
use cwb.Corpus.Search.{max_rounds, get_previous_mark, get_extended_alignment}
use cwb.Corpus.Struc.{
  att_struc, Attribute, cda_ok, cda_estruc, check_arg, read_region, cl_cpos2struc2cpos,
  cl_cpos2struc_oldstyle, cl_cpos2struc, cl_cpos2boundary, cl_struc2cpos, boundary_flags,
}
use cwb.Corpus.Regions.{start_of, last_of, IsRegions, Answers, Bounds, get_elem?-get_or, apart_all}
use cwb.Corpus.Found.{AlignOutcome, Outcome, previous_mark-Answers, extended_alignment-Answers}

enough_rounds : (size : ℕ) → size < 2 ^ 31 → size < 2 ^ max_rounds
enough_rounds size h =
    let le : 31 ≤ max_rounds = omega arith in
    let p : 2 ^ 31 ≤ 2 ^ max_rounds = pow-le-pow_right {n = 2} (omega arith) le in
    omega (arith, h, p)

everywhere :
    {width n position : ℕ} {contents : List ℕ} (v : IsRegions width contents n)
    → Bounds v position 0 n
everywhere v = record {
  within = omega arith;
  below = λ i l lt. absurd (omega (arith, l));
  above = λ i l lt. absurd (omega (arith, l, lt));
}

previous_mark_found :
    (contents : List ℕ) (position : ℕ)
    → IsRegions 2 contents (length contents / 2)
    → length contents < 2 ^ 31
    → Outcome 2 contents
        (length contents / 2)
        position
        (get_previous_mark contents (length contents) position)
unfolding get_previous_mark
previous_mark_found contents position v h =
    previous_mark-Answers v max_rounds 0 (length contents / 2) (everywhere v)
      (enough_rounds (length contents / 2 - 0) (omega (arith, h)))

pub extended_alignment_found :
    (contents : List ℕ) (position : ℕ)
    → IsRegions 4 contents (length contents / 4)
    → length contents < 2 ^ 31
    → AlignOutcome contents
        (length contents / 4)
        position
        (get_extended_alignment contents (length contents) position)
unfolding get_extended_alignment
extended_alignment_found contents position v h =
    extended_alignment-Answers v max_rounds 0 (length contents / 4) (everywhere v)
      (enough_rounds (length contents / 4 - 0) (omega (arith, h)))

-- The binary searches for a region, with two ints for each in `regions`, and for a region of an extended
-- alignment, with four ints for each in `alignments`, in data of fewer than 2^31 ints whose regions lie one
-- behind the other: they stay within the data, 100000 rounds are enough, and the result is the region that
-- has the position, or none if no region has it.
pub searches-Answers :
    (regions alignments : List ℕ) (position : ℕ)
    → IsRegions 2 regions (length regions / 2)
    → IsRegions 4 alignments (length alignments / 4)
    → length regions < 2 ^ 31
    → length alignments < 2 ^ 31
    → Outcome 2 regions
        (length regions / 2)
        position
        (get_previous_mark regions (length regions) position)
      × AlignOutcome alignments
          (length alignments / 4)
          position
          (get_extended_alignment alignments (length alignments) position)
searches-Answers regions alignments position v w h k =
    (previous_mark_found regions position v h, extended_alignment_found alignments position w k)

-- A position is in one region.
pub only_region :
    (width n position i j : ℕ) (contents : List ℕ)
    → IsRegions width contents n
    → Answers width contents n position (some i)
    → Answers width contents n position (some j)
    → i ≡ j
only_region width n position i j contents v (li, si, ei) (lj, sj, ej) =
    elim (Bool-cases (ltb i j)) [
      | inl left ↦ let a = apart_all v i j (ground arith) lj in absurd (omega (arith, a, ei, sj))
      | inr rest ↦ elim (Bool-cases (ltb j i)) [
        | inl right ↦ let a = apart_all v j i (ground arith) li in absurd (omega (arith, a, ej, si))
        | inr same ↦ ground arith
      ]
    ]

found_there :
    (n position i : ℕ) (contents : List ℕ) (result : Option (Option ℕ))
    → IsRegions 2 contents n
    → Answers 2 contents n position (some i)
    → Outcome 2 contents n position result
    → result ≡ some (some i)
found_there n position i contents result v here (none, run, nowhere) = elim (nowhere i here.0) [
  | inl before ↦ absurd (omega (arith, before, here.1))
  | inr past ↦ absurd (omega (arith, past, here.2))
]
found_there n position i contents result v here (some j, run, there) =
    run ∙ ap (λ k. some (some k)) (only_region 2 n position j i contents v there here)

found_nowhere :
    (n position : ℕ) (contents : List ℕ) (result : Option (Option ℕ))
    → Answers 2 contents n position none
    → Outcome 2 contents n position result
    → result ≡ some none
found_nowhere n position contents result nowhere (none, run, answer) = run
found_nowhere n position contents result nowhere (some j, run, there) = elim (nowhere j there.0) [
  | inl before ↦ absurd (omega (arith, before, there.1))
  | inr past ↦ absurd (omega (arith, past, there.2))
]

-- What stands for a position in a region, or in none, as value and `cl_errno`.
abbrev pub flags : List ℕ → ℕ → Option ℕ → ℤ × ℤ
flags contents position none = (pos 0, cda_estruc)
flags contents position (some i) = (
  pos (
      1
      + (if position == start_of 2 contents i then 2 else 0)
      + (if position == last_of 2 contents i then 4 else 0)),
  cda_ok,
)

-- A structural attribute with these ints.
abbrev pub with_regions : List ℕ → Option Attribute
with_regions contents = some (record { kind = att_struc; struc_data = some contents })

-- What a region is returned as.
abbrev pub region_of : List ℕ → ℕ → Option (ℤ × ℤ × ℤ × ℤ)
region_of contents i = some (pos 1, cda_ok, pos (start_of 2 contents i), pos (last_of 2 contents i))

boundary_flags_sum :
    (p s e : ℕ)
    → boundary_flags (pos p) (pos s) (pos e)
      ≡ 1 + (if p == s then 2 else 0) + (if p == e then 4 else 0)
boundary_flags_sum p s e = ground arith

read_region-there :
    (contents : List ℕ) (n i : ℕ)
    → IsRegions 2 contents n
    → i < n
    → read_region contents i ≡ region_of contents i
unfolding read_region
read_region-there contents n i v lt =
    let at_end = v.inside i lt in
    let start = get_elem?-get_or contents (i * 2) (omega (arith, at_end)) in
    let last = get_elem?-get_or contents (i * 2 + 1) at_end in rw (read_region, start, last) refl

module _ (contents : List ℕ) (position : ℕ) (v : IsRegions 2 contents (length contents / 2))
    (small : length contents < 2 ^ 31) where
  abbrev count : ℕ
  count = length contents / 2

  searched :
      Outcome 2 contents count position (get_previous_mark contents (length contents) position)
  searched = previous_mark_found contents position v small

  found :
      (i : ℕ)
      → Answers 2 contents count position (some i)
      → get_previous_mark contents (length contents) position ≡ some (some i)
  found i here =
      found_there count position i contents (get_previous_mark contents (length contents) position)
        v here searched

  -- A structural attribute with fewer than 2^31 ints of data, whose regions lie one behind the other, and a
  -- position of its region i: `cl_cpos2struc` returns i, and `cl_cpos2struc2cpos` and,
  -- for the number i, `cl_struc2cpos` return 1 with the start and the end of the region.
  pub cl_cpos2struc-cl_struc2cpos :
      (i : ℕ) (struc_start struc_end : ℤ)
      → i < count
      → start_of 2 contents i ≤ position
      → position ≤ last_of 2 contents i
      → (cl_cpos2struc (with_regions contents) position ≡ some (pos i, cda_ok))
        × (cl_cpos2struc2cpos (with_regions contents) position struc_start struc_end
            ≡ region_of contents i)
        × (cl_struc2cpos (with_regions contents) (pos i) struc_start struc_end
            ≡ region_of contents i)
  unfolding cl_cpos2struc cl_cpos2struc_oldstyle cl_cpos2struc2cpos cl_struc2cpos check_arg
  cl_cpos2struc-cl_struc2cpos i struc_start struc_end lt from until =
      let mark = found i (lt, from, until) in
      let region = read_region-there contents count i v lt in
      let known : leb (length contents / 2) i ≡ false = ground arith in
      (
        rw (cl_cpos2struc, cl_cpos2struc_oldstyle, mark) refl,
        rw (cl_cpos2struc2cpos, mark) region,
        rw (cl_struc2cpos, known) region,
      )

  -- `cl_cpos2boundary` on a structural attribute with fewer than 2^31 ints of data, whose regions lie one
  -- behind the other: 0 for a position in no region; for a position of a region the flag 1, with 2 if it
  -- is the first and 4 if it is the last position of the region.
  pub cl_cpos2boundary_lem :
      (r : Option ℕ)
      → Answers 2 contents count position r
      → cl_cpos2boundary (with_regions contents) position ≡ some (flags contents position r)
  unfolding cl_cpos2boundary cl_cpos2struc2cpos check_arg
  cl_cpos2boundary_lem (some i) (lt, from, until) =
      let mark = found i (lt, from, until) in
      let region = read_region-there contents count i v lt in
      rw (cl_cpos2boundary, cl_cpos2struc2cpos, mark, region)
        (ap (λ n. some (pos n, cda_ok))
          (boundary_flags_sum position (start_of 2 contents i) (last_of 2 contents i)))
  cl_cpos2boundary_lem none nowhere =
      let mark =
        found_nowhere count position contents
          (get_previous_mark contents (length contents) position) nowhere searched in
      rw (cl_cpos2boundary, cl_cpos2struc2cpos, mark) refl
