-- ===== src/Index/CheckId.antt =====
-- What the checks at the head of `cl_id2cpos_oldstyle` have found out where they are passed.
use mathlib.Core.Option.{some-injective, none-ne-some}
use mathlib.Core.Path.{ap₂}
use cwb.Base.{
  ℕ, ◌≡◌, ap, ◌∙◌, true, Option, none, some, if◌then◌else◌, ltb, Bool-cases, Option-cases, inl, inr,
  arith,
}
use cwb.Base.Int.{ℤ, pos, negsuc, eqb_ℤ}
use cwb.Corpus.Struc.{cda_ok}
use cwb.Index.Positional.{PosAttribute, cda_eidorng, cl_max_cpos, cl_max_id, cl_id2freq}
use cwb.Index.Lookup.{positive, IdCheck, failed, checked, check_freq, check_id}

abbrev size_of : IdCheck → Option (ℕ × ℕ)
size_of (failed e f) = none
size_of (checked size n) = some (size, n)

-- What `checked size n` says of an attribute and a type.
pub record Checked (a : PosAttribute) (i size n : ℕ) : Type 0 where
  pub corpus_size : positive (cl_max_cpos (some a)) ≡ some size
  pub freq : cl_id2freq (some a) (pos i) ≡ (pos n, cda_ok)

abbrev outcome : ℤ × ℤ → ℕ → IdCheck
outcome r s = elim r.0 [
  | negsuc k ↦ failed r.1 (some (negsuc k))
  | pos n ↦ if eqb_ℤ r.1 cda_ok then checked s n else failed r.1 (some (pos n))
]

eqb_ℤ→≡ : (x y : ℤ) → eqb_ℤ x y ≡ true → x ≡ y
eqb_ℤ→≡ x y h = ground arith

same_sizes : (s n size m : ℕ) → checked s n ≡ checked size m → (s ≡ size) × (n ≡ m)
same_sizes s n size m e =
    let both = some-injective (s, n) (size, m) (ap size_of e) in
    (ap (λ t. t.0) both, ap (λ t. t.1) both)

not_failed : {A : Type 0} (e : ℤ) (f : Option ℤ) (size n : ℕ) → failed e f ≡ checked size n → A
not_failed e f size n h = absurd (none-ne-some (size, n) (ap size_of h))

outcome_inv :
    (r : ℤ × ℤ) (s size n : ℕ) → outcome r s ≡ checked size n → (s ≡ size) × (r ≡ (pos n, cda_ok))
outcome_inv (negsuc k, e) s size n run = not_failed e (some (negsuc k)) size n run
outcome_inv (pos k, e) s size n run = elim (Bool-cases (eqb_ℤ e cda_ok)) [
  | inl ok ↦
      let run' = rw ok at run in
      let (size_same, same) = same_sizes s k size n run' in
      (size_same, ap₂ (λ x y. (pos x, y)) same (eqb_ℤ→≡ e cda_ok ok))
  | inr bad ↦ let run' = rw bad at run in not_failed e (some (pos k)) size n run'
]

pub check_id-Checked :
    (a : PosAttribute) (i size n : ℕ) → check_id a (pos i) ≡ checked size n → Checked a i size n
unfolding check_id check_freq
check_id-Checked a i size n run = elim (Option-cases (positive (cl_max_cpos (some a)))) [
  | inl no_size ↦
      let run' = rw (check_id, no_size) at run in
      not_failed (cl_max_cpos (some a)).1 none size n run'
  | inr (s, sized) ↦ elim (Option-cases (positive (cl_max_id (some a)))) [
    | inl no_range ↦
        let run' = rw (check_id, sized, no_range) at run in
        not_failed (cl_max_id (some a)).1 none size n run'
    | inr (m, ranged) ↦ elim (Bool-cases (ltb i m)) [
      | inr out ↦
          let run' = rw (check_id, sized, ranged, out) at run in
          not_failed cda_eidorng (some (pos 0)) size n run'
      | inl below ↦
          let run' = rw (check_id, sized, ranged, below) at run in
          let (same, freq) = outcome_inv (cl_id2freq (some a) (pos i)) s size n run' in
          record { corpus_size = sized ∙ ap some same; freq = freq }
    ]
  ]
]

abbrev verdict : ℤ × ℤ → ℤ × ℤ → ℤ × ℤ → ℕ → IdCheck
verdict size range freq i = elim (positive size) [
  | none ↦ failed size.1 none
  | some n ↦ elim (positive range) [
    | none ↦ failed range.1 none
    | some m ↦ if ltb i m then outcome freq n else failed cda_eidorng (some (pos 0))
  ]
]

-- The checks depend on no more than the sizes and the frequency.
pub check_id-same :
    (a a' : PosAttribute) (i : ℕ)
    → cl_max_cpos (some a) ≡ cl_max_cpos (some a')
    → cl_max_id (some a) ≡ cl_max_id (some a')
    → cl_id2freq (some a) (pos i) ≡ cl_id2freq (some a') (pos i)
    → check_id a (pos i) ≡ check_id a' (pos i)
unfolding check_id check_freq
check_id-same a a' i sizes ranges freqs = λ j. verdict (sizes j) (ranges j) (freqs j) i
