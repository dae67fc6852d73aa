-- ===== src/Index/Restrict.antt =====
-- cl/cdaccess.c: the two loops of `cl_id2cpos_oldstyle` that keep the positions within the ranges of a
-- restrictor list, and what both keep. Ranges are pairs of a start and an end.
use cwb.Base.{
  ℕ, ◌≤◌, ◌<◌, ◌≡◌, refl, sym, ap, ◌∙◌, Bool, true, false, ◌&&◌, ◌||◌, List, [], ◌∷◌, arith,
  if◌then◌else◌, ltb, leb, Bool-cases, inl, inr,
}

-- `while (res_ptr < restrictor_list_size && last_pos > restrictor_list[res_ptr * 2 + 1]) res_ptr++;`
unfoldable pub skip_ranges : ℕ → List (ℕ × ℕ) → List (ℕ × ℕ)
skip_ranges last_pos [] = []
skip_ranges last_pos ((start, last) ∷ ranges) =
    let further = skip_ranges last_pos ranges in
    if ltb last last_pos then further else (start, last) ∷ ranges

-- `res_ptr < restrictor_list_size && last_pos >= ... && last_pos <= ...`
abbrev pub in_first : ℕ → List (ℕ × ℕ) → Bool
in_first last_pos [] = false
in_first last_pos ((start, last) ∷ ranges) = leb start last_pos && leb last_pos last

-- `while (buf_ptr < *freq && res_ptr < restrictor_list_size)`
unfoldable pub restrict_buffer : List ℕ → List (ℕ × ℕ) → List ℕ
restrict_buffer [] ranges = []
restrict_buffer (p ∷ buffer) [] = []
restrict_buffer (p ∷ buffer) ((start, last) ∷ ranges) = elim (ltb p start) [
  | true ↦ restrict_buffer buffer ((start, last) ∷ ranges)
  | false ↦ elim (ltb last p) [
    | true ↦ restrict_buffer (p ∷ buffer) ranges
    | false ↦ p ∷ restrict_buffer buffer ((start, last) ∷ ranges)
  ]
]

-- The positions in any of the ranges.
unfoldable pub in_ranges : ℕ → List (ℕ × ℕ) → Bool
in_ranges p [] = false
in_ranges p ((start, last) ∷ ranges) = (leb start p && leb p last) || in_ranges p ranges

unfoldable pub kept : List (ℕ × ℕ) → List ℕ → List ℕ
unfolding in_ranges
kept ranges [] = []
kept ranges (p ∷ buffer) =
    let rest = kept ranges buffer in if in_ranges p ranges then p ∷ rest else rest

-- The positions ascend, from `low` on; the starts of the ranges do.
abbrev pub Ascends : ℕ → List ℕ → Type 0
Ascends low [] = Unit
Ascends low (p ∷ buffer) = (low ≤ p) × Ascends p buffer

abbrev pub StartsAscend : ℕ → List (ℕ × ℕ) → Type 0
StartsAscend low [] = Unit
StartsAscend low (range ∷ ranges) = (low ≤ range.0) × StartsAscend range.0 ranges

weaker :
    (low k : ℕ) (ranges : List (ℕ × ℕ)) → k ≤ low → StartsAscend low ranges → StartsAscend k ranges
weaker low k [] h a = tt
weaker low k (range ∷ ranges) h (le, a) = (omega (arith, h, le), a)

before_all :
    (p low : ℕ) (ranges : List (ℕ × ℕ))
    → p < low
    → StartsAscend low ranges
    → in_ranges p ranges ≡ false
unfolding in_ranges
before_all p low [] h a = refl
before_all p low ((start, last) ∷ ranges) h (le, a) =
    let out : leb start p ≡ false = ground (arith, h, le) in
    rw (out, before_all p start ranges (omega (arith, h, le)) a) refl

-- A range that ends before all positions keeps none of them.
past_range :
    (start last low : ℕ) (ranges : List (ℕ × ℕ)) (buffer : List ℕ)
    → last < low
    → Ascends low buffer
    → kept ((start, last) ∷ ranges) buffer ≡ kept ranges buffer
unfolding kept in_ranges
past_range start last low ranges [] h a = refl
past_range start last low ranges (p ∷ buffer) h (le, a) =
    let out : leb p last ≡ false = ground (arith, h, le) in
    let one : (leb start p && leb p last) ≡ false =
      rw out (elim (Bool-cases (leb start p)) [ inl e ↦ rw e refl | inr e ↦ rw e refl ]) in
    rw (one, past_range start last p ranges buffer (omega (arith, h, le)) a) refl

kept-in :
    (p : ℕ) (ranges : List (ℕ × ℕ)) (buffer : List ℕ)
    → in_ranges p ranges ≡ true
    → kept ranges (p ∷ buffer) ≡ p ∷ kept ranges buffer
unfolding kept
kept-in p ranges buffer e = rw (kept, e) refl

kept-out :
    (p : ℕ) (ranges : List (ℕ × ℕ)) (buffer : List ℕ)
    → in_ranges p ranges ≡ false
    → kept ranges (p ∷ buffer) ≡ kept ranges buffer
unfolding kept
kept-out p ranges buffer e = rw (kept, e) refl

in_head :
    (p start last : ℕ) (ranges : List (ℕ × ℕ))
    → leb start p ≡ true
    → leb p last ≡ true
    → in_ranges p ((start, last) ∷ ranges) ≡ true
unfolding in_ranges
in_head p start last ranges from until = rw (in_ranges, from, until) refl

past_head :
    (p start last : ℕ) (ranges : List (ℕ × ℕ))
    → last < p
    → in_ranges p ((start, last) ∷ ranges) ≡ in_ranges p ranges
unfolding in_ranges
past_head p start last ranges h =
    let out : leb p last ≡ false = ground (arith, h) in
    elim (Bool-cases (leb start p)) [
      | inl e ↦ rw (in_ranges, e, out) refl
      | inr e ↦ rw (in_ranges, e) refl
    ]

before_head :
    (p start last : ℕ) (ranges : List (ℕ × ℕ))
    → p < start
    → StartsAscend start ranges
    → in_ranges p ((start, last) ∷ ranges) ≡ false
before_head p start last ranges h a = before_all p start ((start, last) ∷ ranges) h (omega arith, a)

kept_none : (buffer : List ℕ) → kept [] buffer ≡ []
unfolding kept in_ranges
kept_none [] = refl
kept_none (p ∷ buffer) = kept_none buffer

-- `restrict_buffer` keeps the positions in the ranges.
pub restrict_buffer-kept :
    (low k : ℕ) (buffer : List ℕ) (ranges : List (ℕ × ℕ))
    → Ascends low buffer
    → StartsAscend k ranges
    → restrict_buffer buffer ranges ≡ kept ranges buffer
unfolding restrict_buffer kept
restrict_buffer-kept low k [] ranges up starts = refl
restrict_buffer-kept low k (p ∷ buffer) [] up starts = sym (kept_none (p ∷ buffer))
restrict_buffer-kept low k (p ∷ buffer) ((start, last) ∷ ranges) (le, up) (lo, starts) =
    elim (Bool-cases (ltb p start)) [
      | inl before ↦
          let out = before_head p start last ranges (ground arith) starts in
          rw (restrict_buffer, before)
            (restrict_buffer-kept p k buffer ((start, last) ∷ ranges) up (lo, starts)
              ∙ sym (kept-out p ((start, last) ∷ ranges) buffer out))
      | inr from ↦ elim (Bool-cases (ltb last p)) [
        | inl beyond ↦
            let past =
              past_range start last p ranges (p ∷ buffer) (ground arith) (omega arith, up) in
            rw (restrict_buffer, from, beyond)
              (restrict_buffer-kept low start (p ∷ buffer) ranges (le, up) starts ∙ sym past)
        | inr until ↦
            let here = in_head p start last ranges (ground arith) (ground arith) in
            rw (restrict_buffer, from, until)
              (ap (λ l. p ∷ l)
                  (restrict_buffer-kept p k buffer ((start, last) ∷ ranges) up (lo, starts))
                ∙ sym (kept-in p ((start, last) ∷ ranges) buffer here))
      ]
    ]

-- Skipping the ranges that end before a position: the first of the others decides on the position, and
-- nothing is lost for later ones.
pub skip_ranges-kept :
    (k p : ℕ) (buffer : List ℕ) (ranges : List (ℕ × ℕ))
    → Ascends p buffer
    → StartsAscend k ranges
    → (in_first p (skip_ranges p ranges) ≡ in_ranges p ranges)
      × (kept (skip_ranges p ranges) buffer ≡ kept ranges buffer)
      × StartsAscend k (skip_ranges p ranges)
unfolding skip_ranges in_ranges
skip_ranges-kept k p buffer [] up starts = (refl, refl, tt)
skip_ranges-kept k p buffer ((start, last) ∷ ranges) up (lo, starts) =
    elim (Bool-cases (ltb last p)) [
      | inl beyond ↦
          let (first, rest, weak) = skip_ranges-kept start p buffer ranges up starts in
          rw (skip_ranges, beyond)
            (
              first ∙ sym (past_head p start last ranges (ground arith)),
              rest ∙ sym (past_range start last p ranges buffer (ground arith) up),
              weaker start k (skip_ranges p ranges) lo weak,
            )
      | inr until ↦
          let inside : leb p last ≡ true = ground arith in
          let first : (leb start p && leb p last) ≡ in_ranges p ((start, last) ∷ ranges) =
            elim (Bool-cases (leb start p)) [
              | inl from ↦ rw (from, inside) refl
              | inr before ↦ rw before (sym (before_all p start ranges (ground arith) starts))
            ] in
          rw (skip_ranges, until) (first, refl, (lo, starts))
    ]
