-- ===== src/Corpus/Found.antt =====
-- The binary searches are given enough rounds, stay within the data, and find the region of a position.

use cwb.Base.{
  false, ℕ, zero, suc, ◌+◌, ◌-◌, ◌*◌, ◌/◌, ◌^◌, ◌<◌, ◌≡◌, refl, Option, none, some, List, arith,
  ltb, leb, ◌==◌, Bool-cases, inl, inr,
}
use cwb.Base.Int.{ℤ, pos}
use cwb.Corpus.Search.{previous_mark_loop, extended_alignment_loop, cda_ealign}
use cwb.Corpus.Regions.{
  start_of, last_of, IsRegions, Answers, Bounds, empty-Answers, right-Bounds, left-Bounds, halves,
  get_elem?-get_or, compare-cases,
}

-- The outcome of a search.
abbrev pub Outcome : ℕ → List ℕ → ℕ → ℕ → Option (Option ℕ) → Type 0
Outcome width contents n position result =
    (r : Option ℕ) × (result ≡ some r) × Answers width contents n position r

-- The result of `get_extended_alignment` for a region, or none.
abbrev pub alignment_result : Option ℕ → ℤ
alignment_result none = cda_ealign
alignment_result (some i) = pos i

abbrev pub AlignOutcome : List ℕ → ℕ → ℕ → Option ℤ → Type 0
AlignOutcome contents n position result =
    (r : Option ℕ) × (result ≡ some (alignment_result r)) × Answers 4 contents n position r

module _ {n position : ℕ} {contents : List ℕ} where
  module _ (v : IsRegions 2 contents n) where
    pub previous_mark-Answers :
        (nr low high : ℕ)
        → Bounds v position low high
        → high - low < 2 ^ nr
        → Outcome 2 contents n position (previous_mark_loop nr contents position low high)
    unfolding previous_mark_loop
    previous_mark-Answers zero low high b size =
        (none, refl, empty-Answers v position low high b (omega (arith, size)))
    previous_mark-Answers (suc nr) low high b size = elim (Bool-cases (ltb low high)) [
      | inr closed ↦ (
        none,
        rw (previous_mark_loop, closed) refl,
        empty-Answers v position low high b (ground arith),
      )
      | inl more ↦
          let mid = (low + high - 1) / 2 in
          let (lo, hi, left, right) = halves nr low high (ground arith) size in
          let lt : mid < n = omega (arith, hi, b.within) in
          let at_end = v.inside mid lt in
          let start = get_elem?-get_or contents (mid * 2) (omega (arith, at_end)) in
          let last = get_elem?-get_or contents (mid * 2 + 1) at_end in
          elim (compare-cases position (start_of 2 contents mid)) [
            | inr (inl (c, e)) ↦ (
              some mid,
              rw (previous_mark_loop, more, start, c) refl,
              (lt, omega (arith, e), omega (arith, e, v.ordered mid lt)),
            )
            | inr (inr (c, e)) ↦ elim (Bool-cases (leb position (last_of 2 contents mid))) [
              | inl here ↦ (
                some mid,
                rw (previous_mark_loop, more, start, c, last, here) refl,
                (lt, omega (arith, e), ground arith),
              )
              | inr past ↦
                  let b' = right-Bounds v position low high mid b hi (ground arith) in
                  let (r, run, answer) = previous_mark-Answers nr (mid + 1) high b' right in
                  (r, rw (previous_mark_loop, more, start, c, last, past) run, answer)
            ]
            | inl (c, e) ↦
                let b' = left-Bounds v position low high mid b hi e in
                elim (Bool-cases (mid == low)) [
                  | inl first ↦ (
                    none,
                    rw (previous_mark_loop, more, start, c, first) refl,
                    empty-Answers v position low mid b' (ground arith),
                  )
                  | inr rest ↦
                      let (r, run, answer) = previous_mark-Answers nr low mid b' left in
                      (r, rw (previous_mark_loop, more, start, c, rest) run, answer)
                ]
          ]
    ]

  module _ (v : IsRegions 4 contents n) where
    pub extended_alignment-Answers :
        (nr low high : ℕ)
        → Bounds v position low high
        → high - low < 2 ^ nr
        → AlignOutcome contents n position (extended_alignment_loop nr contents position low high)
    unfolding extended_alignment_loop
    extended_alignment-Answers zero low high b size =
        let closed : ltb low high ≡ false = ground (arith, size) in
        (
          none,
          rw (extended_alignment_loop, closed) refl,
          empty-Answers v position low high b (omega (arith, size)),
        )
    extended_alignment-Answers (suc nr) low high b size = elim (Bool-cases (ltb low high)) [
      | inr closed ↦ (
        none,
        rw (extended_alignment_loop, closed) refl,
        empty-Answers v position low high b (ground arith),
      )
      | inl more ↦
          let mid = (low + high - 1) / 2 in
          let (lo, hi, left, right) = halves nr low high (ground arith) size in
          let lt : mid < n = omega (arith, hi, b.within) in
          let at_end = v.inside mid lt in
          let start = get_elem?-get_or contents (mid * 4) (omega (arith, at_end)) in
          let last = get_elem?-get_or contents (mid * 4 + 1) at_end in
          elim (Bool-cases (leb (start_of 4 contents mid) position)) [
            | inl begun ↦ elim (Bool-cases (leb position (last_of 4 contents mid))) [
              | inl here ↦ (
                some mid,
                rw (extended_alignment_loop, more, start, last, begun, here) refl,
                (lt, ground arith, ground arith),
              )
              | inr past ↦
                  let b' = right-Bounds v position low high mid b hi (ground arith) in
                  let (r, run, answer) = extended_alignment-Answers nr (mid + 1) high b' right in
                  (r, rw (extended_alignment_loop, more, start, last, begun, past) run, answer)
            ]
            | inr before ↦
                let b' = left-Bounds v position low high mid b hi (ground arith) in
                let (r, run, answer) = extended_alignment-Answers nr low mid b' left in
                (r, rw (extended_alignment_loop, more, start, last, before) run, answer)
          ]
    ]
