-- ===== src/Corpus/AlignLaws.antt =====
-- What access to extended alignments returns, given the regions in their data.
use cwb.Base.{
  ℕ, ◌+◌, ◌*◌, ◌/◌, ◌^◌, ◌≤◌, ◌<◌, ◌≡◌, refl, ap, ◌∙◌, true, false, Option, none, some, List, arith,
  leb, get_or, length, inl, inr,
}
use cwb.Base.Int.{ℤ, pos}
use cwb.Corpus.Search.{get_extended_alignment}
use cwb.Corpus.Struc.{cda_ok}
use cwb.Corpus.Align.{
  att_align, AlignAttribute, cl_has_extended_alignment, by_extension, cl_cpos2alg, read_four,
  cl_alg2cpos,
}
use cwb.Corpus.Regions.{start_of, last_of, IsRegions, Answers, get_elem?-get_or}
use cwb.Corpus.Found.{AlignOutcome}
use cwb.Corpus.StrucLaws.{only_region, extended_alignment_found}

-- An attribute with an extended component of these ints.
abbrev pub with_alignments : List ℕ → Option AlignAttribute
with_alignments contents = some (record {
  kind = att_align;
  align_data = none;
  xalign_data = some contents;
  xalign_exists = true;
})

found_there :
    (n position i : ℕ) (contents : List ℕ) (result : Option ℤ)
    → IsRegions 4 contents n
    → Answers 4 contents n position (some i)
    → AlignOutcome contents n position result
    → result ≡ some (pos i)
found_there n position i contents result v here (none, run, nowhere) = elim (nowhere i here.0) [
  | inl before ↦ absurd (omega (arith, before, here.1))
  | inr past ↦ absurd (omega (arith, past, here.2))
]
found_there n position i contents result v here (some j, run, there) =
    run ∙ ap (λ k. some (pos k)) (only_region 4 n position j i contents v there here)

read_four-there :
    (contents : List ℕ) (n : ℕ) (locations : ℕ → ℕ → ℕ → ℕ → ℤ × ℤ × ℤ × ℤ)
    → n + 3 < length contents
    → let l =
        locations
          (get_or contents n 0)
          (get_or contents (n + 1) 0)
          (get_or contents (n + 2) 0)
          (get_or contents (n + 3) 0) in
      read_four contents n locations ≡ some (pos 1, cda_ok, l.0, l.1, l.2, l.3)
unfolding read_four
read_four-there contents n locations inside =
    let e0 = get_elem?-get_or contents n (omega (arith, inside)) in
    let e1 = get_elem?-get_or contents (n + 1) (omega (arith, inside)) in
    let e2 = get_elem?-get_or contents (n + 2) (omega (arith, inside)) in
    let e3 = get_elem?-get_or contents (n + 3) inside in rw (read_four, e0, e1, e2, e3) refl

-- In an attribute with an extended component of fewer than 2^31 ints, whose source regions lie one behind
-- the other, and for a position of the source region i: `cl_cpos2alg` returns i, and `cl_alg2cpos` of i
-- returns 1 with the four ints of the alignment.
pub cl_cpos2alg-cl_alg2cpos :
    (contents : List ℕ) (position i : ℕ)
    → IsRegions 4 contents (length contents / 4)
    → length contents < 2 ^ 31
    → i < length contents / 4
    → start_of 4 contents i ≤ position
    → position ≤ last_of 4 contents i
    → (cl_cpos2alg (with_alignments contents) position ≡ some (pos i, cda_ok))
      × (cl_alg2cpos (with_alignments contents) (pos i)
          ≡ some (
            pos 1,
            cda_ok,
            pos (start_of 4 contents i),
            pos (last_of 4 contents i),
            pos (get_or contents (i * 4 + 2) 0),
            pos (get_or contents (i * 4 + 3) 0),
          ))
unfolding cl_cpos2alg cl_alg2cpos by_extension cl_has_extended_alignment read_four
cl_cpos2alg-cl_alg2cpos contents position i v small lt from until =
    let found =
      found_there (length contents / 4) position i contents
        (get_extended_alignment contents (length contents) position) v (lt, from, until)
        (extended_alignment_found contents position v small) in
    let known : leb (length contents / 4) i ≡ false = ground arith in
    let inside : i * 4 + 3 < length contents = omega (arith, lt) in
    (
      rw (cl_cpos2alg, found) refl,
      rw (cl_alg2cpos, known)
          (read_four-there contents (i * 4) (λ a b c d. (pos a, pos b, pos c, pos d)) inside),
    )
