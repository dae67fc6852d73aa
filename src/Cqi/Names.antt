-- ===== src/Cqi/Names.antt =====
-- CQi/server.c: names of corpora, attributes and subcorpora, and their combinations. A string is the
-- list of its bytes before the null byte. The functions give `cqi_errno` (which is also the result of
-- the checks: true if it is CQI_STATUS_OK) and the new strings; `none` is a read past the end of a string.
use cwb.Base.{
  ℕ, zero, suc, Bool, true, false, ◌&&◌, Option, none, some, List, [], ◌∷◌, ◌++◌, if◌then◌else◌,
  ◌==◌,
}

abbrev pub status_ok : ℕ
status_ok = 0x0101

abbrev pub syntax_error : ℕ
syntax_error = 0x0204

-- Consecutive characters.
abbrev pub run : ℕ → ℕ → List ℕ
run first zero = []
run first (suc n) = first ∷ run (suc first) n

abbrev pub upper : List ℕ
upper = run 65 26

abbrev pub lower : List ℕ
lower = run 97 26

-- "_-0123456789"
abbrev pub others : List ℕ
others = 95 ∷ 45 ∷ run 48 10

abbrev pub cqi_id_uc_first : List ℕ
cqi_id_uc_first = upper ++ 95 ∷ []

abbrev pub cqi_id_uc : List ℕ
cqi_id_uc = upper ++ others

abbrev pub cqi_id_lc_first : List ℕ
cqi_id_lc_first = lower ++ 95 ∷ []

abbrev pub cqi_id_lc : List ℕ
cqi_id_lc = lower ++ others

abbrev pub cqi_id_all : List ℕ
cqi_id_all = upper ++ (lower ++ others)

-- `strchr(chars, c) != NULL` for a c that is not the null byte.
unfoldable pub contains : List ℕ → ℕ → Bool
contains [] c = false
contains (x ∷ chars) c = if x == c then true else contains chars c

-- `strspn(str, chars) == strlen(str)`
unfoldable pub spans : List ℕ → List ℕ → Bool
unfolding contains
spans chars [] = true
spans chars (c ∷ str) = contains chars c && spans chars str

-- The first character is one of `first`, the others are of `chars`. In the empty string `strchr` finds
-- the null byte, and `name + 1` is past the end.
unfoldable pub check_name : List ℕ → List ℕ → List ℕ → Option ℕ
unfolding contains spans
check_name first chars [] = none
check_name first chars (c ∷ name) =
    some (if contains first c && spans chars name then status_ok else syntax_error)

abbrev pub check_corpus_name : List ℕ → Option ℕ
check_corpus_name = check_name cqi_id_uc_first cqi_id_uc

abbrev pub check_attribute_name : List ℕ → Option ℕ
check_attribute_name = check_name cqi_id_lc_first cqi_id_lc

abbrev pub check_subcorpus_name : List ℕ → Option ℕ
check_subcorpus_name = check_name cqi_id_uc_first cqi_id_all

-- `split = strchr(spec, c)`, with `strdupto(spec, split)` and the string after it.
unfoldable pub split_at : ℕ → List ℕ → Option (List ℕ × List ℕ)
split_at c [] = none
split_at c (x ∷ spec) =
    let rest : Option (List ℕ × List ℕ) = elim (split_at c spec) [
      | none ↦ none
      | some r ↦ some (x ∷ r.0, r.1)
    ] in
    if x == c then some ([], spec) else rest

-- `!check(a) || !check(b)`: the status of the first check that fails, with no strings.
unfoldable pub both_checked {ℓ} : {A : Type ℓ} → Option ℕ → Option ℕ → A → Option (ℕ × Option A)
both_checked none second strings = none
both_checked {A = A} (some e) second strings =
    let after_second : Option (ℕ × Option A) = elim second [
      | none ↦ none
      | some e' ↦ if e' == status_ok then some (status_ok, some strings) else some (e', none)
    ] in
    if e == status_ok then after_second else some (e, none)

unfoldable pub split_attribute_spec : List ℕ → Option (ℕ × Option (List ℕ × List ℕ))
unfolding split_at both_checked
split_attribute_spec spec = elim (split_at 46 spec) [
  | none ↦ some (syntax_error, none)
  | some r ↦ both_checked (check_corpus_name r.0) (check_attribute_name r.1) (r.0, r.1)
]

-- The check of a subcorpus that may be NULL.
abbrev pub check_optional : Option (List ℕ) → Option ℕ
check_optional none = some status_ok
check_optional (some name) = check_subcorpus_name name

unfoldable pub split_subcorpus_spec : List ℕ → Option (ℕ × Option (List ℕ × Option (List ℕ)))
unfolding split_at both_checked
split_subcorpus_spec spec = elim (split_at 58 spec) [
  | none ↦ both_checked (check_corpus_name spec) (check_optional none) (spec, none)
  | some r ↦ both_checked (check_corpus_name r.0) (check_optional (some r.1)) (r.0, some r.1)
]

unfoldable pub combine_subcorpus_spec : List ℕ → Option (List ℕ) → List ℕ
combine_subcorpus_spec corpus none = corpus
combine_subcorpus_spec corpus (some subcorpus) = corpus ++ 58 ∷ subcorpus
