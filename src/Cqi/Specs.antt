-- ===== src/Cqi/Specs.antt =====
-- Splitting and combining the names of corpora and subcorpora are inverse to each other.
use native.Mathlib.Decide.{ℕ_discrete}
use cwb.Base.{
  ℕ, ◌≡◌, refl, sym, ap, ◌∙◌, true, false, Option, none, some, List, [], ◌∷◌, ◌++◌, arith, ◌==◌,
  Bool-cases, Option-cases, inl, inr,
}
use cwb.Cqi.Names.{
  status_ok, syntax_error, cqi_id_uc_first, cqi_id_uc, contains, spans, check_name,
  check_corpus_name, check_attribute_name, split_at, both_checked, check_optional,
  split_attribute_spec, split_subcorpus_spec, combine_subcorpus_spec,
}

-- A character of a set is not one that is out of it.
members_differ :
    (chars : List ℕ) (x c : ℕ)
    → contains chars x ≡ true
    → contains chars c ≡ false
    → (x == c) ≡ false
members_differ chars x c member out = elim (ℕ_discrete x c) [
  | yes p ↦ cc (ap (contains chars) p ∙ out, member)
  | no p ↦ ground arith
]

split_at_cons :
    (c x : ℕ) (spec : List ℕ)
    → (x == c) ≡ false
    → ((a b : List ℕ) → split_at c spec ≡ some (a, b) → split_at c (x ∷ spec) ≡ some (x ∷ a, b))
      × (split_at c spec ≡ none → split_at c (x ∷ spec) ≡ none)
unfolding split_at
split_at_cons c x spec differ = (λ a b e. rw (differ, e) refl, λ e. rw (differ, e) refl)

-- A string without the character is split behind it.
split_at-append :
    (c : ℕ) (chars name rest : List ℕ)
    → contains chars c ≡ false
    → spans chars name ≡ true
    → (split_at c (name ++ c ∷ rest) ≡ some (name, rest)) × (split_at c name ≡ none)
unfolding split_at spans
split_at-append c chars [] rest out in_chars = (ground arith, refl)
split_at-append c chars (x ∷ name) rest out in_chars =
    let member : contains chars x ≡ true = ground arith in
    let others_in : spans chars name ≡ true = ground arith in
    let differ = members_differ chars x c member out in
    let (whole, alone) = split_at-append c chars name rest out others_in in
    (
      (split_at_cons c x (name ++ c ∷ rest) differ).0 name rest whole,
      (split_at_cons c x name differ).1 alone,
    )

-- What is split off are the strings before and behind the character.
split_at-some : (c : ℕ) (spec a b : List ℕ) → split_at c spec ≡ some (a, b) → spec ≡ a ++ c ∷ b
unfolding split_at
split_at-some c [] a b e = cc
split_at-some c (x ∷ spec) a b e = elim (ℕ_discrete x c) [
  | yes p ↦
      let here : (x == c) ≡ true = ground arith in
      let e' : ◌≡◌ {A = Option (List ℕ × List ℕ)} (some ([], spec)) (some (a, b)) = rw here at e in
      let ea : [] ≡ a = cc in let eb : spec ≡ b = cc in rw (← ea, ← eb, p) refl
  | no p ↦
      let on : (x == c) ≡ false = ground arith in
      elim (Option-cases (split_at c spec)) [
        | inl nowhere ↦ cc (rw (on, nowhere) at e)
        | inr ((a', b'), found) ↦
            let e' : ◌≡◌ {A = Option (List ℕ × List ℕ)} (some (x ∷ a', b')) (some (a, b)) =
              rw (on, found) at e in
            let ea : x ∷ a' ≡ a = cc in
            let eb : b' ≡ b = cc in
            rw (← ea, ← eb) (ap (λ l. x ∷ l) (split_at-some c spec a' b' found))
      ]
]

both_checked_ok {ℓ} :
    {A : Type ℓ} (first second : Option ℕ) (strings out : A)
    → both_checked first second strings ≡ some (status_ok, some out)
    → (first ≡ some status_ok) × (second ≡ some status_ok) × (strings ≡ out)
unfolding both_checked
both_checked_ok none second strings out e = cc
both_checked_ok (some e1) none strings out e = elim (Bool-cases (e1 == status_ok)) [
  | inl p ↦ cc (rw p at e)
  | inr p ↦ cc (rw p at e)
]
both_checked_ok (some e1) (some e2) strings out e = elim (Bool-cases (e1 == status_ok)) [
  | inr p ↦ cc (rw p at e)
  | inl p ↦ elim (Bool-cases (e2 == status_ok)) [
    | inr q ↦ cc (rw (p, q) at e)
    | inl q ↦
        let e1' : e1 ≡ status_ok = ground arith in
        let e2' : e2 ≡ status_ok = ground arith in (ap some e1', ap some e2', cc (rw (p, q) at e))
  ]
]

-- What a check that succeeds says of the name.
check_name_ok :
    (first chars name : List ℕ)
    → check_name first chars name ≡ some status_ok
    → (c : ℕ) × (rest : List ℕ) × (name ≡ c ∷ rest)
      × (contains first c ≡ true)
      × (spans chars rest ≡ true)
unfolding check_name
check_name_ok first chars [] e = cc
check_name_ok first chars (c ∷ rest) e = elim (Bool-cases (contains first c)) [
  | inr p ↦
      let e' : some syntax_error ≡ some status_ok = rw p at e in
      let bad : syntax_error ≡ status_ok = cc in absurd (omega (arith, bad))
  | inl p ↦ elim (Bool-cases (spans chars rest)) [
    | inl q ↦ (c, rest, refl, p, q)
    | inr q ↦
        let e' : some syntax_error ≡ some status_ok = rw (p, q) at e in
        let bad : syntax_error ≡ status_ok = cc in absurd (omega (arith, bad))
  ]
]

-- The name of a corpus has neither ':' nor '.'.
corpus_split :
    (c : ℕ) (corpus rest : List ℕ)
    → contains cqi_id_uc_first c ≡ false
    → contains cqi_id_uc c ≡ false
    → check_corpus_name corpus ≡ some status_ok
    → (split_at c (corpus ++ c ∷ rest) ≡ some (corpus, rest)) × (split_at c corpus ≡ none)
corpus_split c corpus rest out_first out valid =
    let (x, name, e, member, in_chars) = check_name_ok cqi_id_uc_first cqi_id_uc corpus valid in
    let differ = members_differ cqi_id_uc_first x c member out_first in
    let (whole, alone) = split_at-append c cqi_id_uc name rest out in_chars in
    rw e (
      (split_at_cons c x (name ++ c ∷ rest) differ).0 name rest whole,
      (split_at_cons c x name differ).1 alone,
    )

both_checked_all {ℓ} :
    {A : Type ℓ} (first second : Option ℕ) (strings : A)
    → first ≡ some status_ok
    → second ≡ some status_ok
    → both_checked first second strings ≡ some (status_ok, some strings)
unfolding both_checked
both_checked_all first second strings e1 e2 = rw (e1, e2) refl

abbrev Pair : Type 0
Pair = List ℕ × Option (List ℕ)

colon_splits :
    (corpus rest : List ℕ)
    → check_corpus_name corpus ≡ some status_ok
    → (split_at 58 (corpus ++ 58 ∷ rest) ≡ some (corpus, rest)) × (split_at 58 corpus ≡ none)
unfolding contains
colon_splits corpus rest v = corpus_split 58 corpus rest refl refl v

-- Combining a valid name of a corpus and a valid name of a subcorpus, or NULL, and splitting the result
-- gives the two back.
pub split_subcorpus_spec-combine :
    (corpus : List ℕ) (subcorpus : Option (List ℕ))
    → check_corpus_name corpus ≡ some status_ok
    → check_optional subcorpus ≡ some status_ok
    → split_subcorpus_spec (combine_subcorpus_spec corpus subcorpus)
      ≡ some (status_ok, some (corpus, subcorpus))
unfolding split_subcorpus_spec combine_subcorpus_spec
split_subcorpus_spec-combine corpus none v w =
    rw (split_subcorpus_spec, (colon_splits corpus [] v).1)
      (both_checked_all (check_corpus_name corpus) (check_optional none) (corpus, none) v w)
split_subcorpus_spec-combine corpus (some sub) v w =
    rw (split_subcorpus_spec, (colon_splits corpus sub v).0)
      (both_checked_all (check_corpus_name corpus) (check_optional (some sub)) (corpus, some sub) v
        w)

-- Where a name is split without an error, the two parts are valid names and combine to it.
pub combine_subcorpus_spec-split :
    (spec corpus : List ℕ) (subcorpus : Option (List ℕ))
    → split_subcorpus_spec spec ≡ some (status_ok, some (corpus, subcorpus))
    → (combine_subcorpus_spec corpus subcorpus ≡ spec)
      × (check_corpus_name corpus ≡ some status_ok)
      × (check_optional subcorpus ≡ some status_ok)
unfolding split_subcorpus_spec combine_subcorpus_spec
combine_subcorpus_spec-split spec corpus subcorpus e = elim (Option-cases (split_at 58 spec)) [
  | inl nowhere ↦
      let strings : Pair = (spec, none) in
      let (v, w, s) =
        both_checked_ok (check_corpus_name spec) (check_optional none) strings (corpus, subcorpus)
          (rw (split_subcorpus_spec, nowhere) at e) in
      let es : spec ≡ corpus = cc in let en : none ≡ subcorpus = cc in rw (← es, ← en) (refl, v, w)
  | inr ((a, b), found) ↦
      let strings : Pair = (a, some b) in
      let (v, w, s) =
        both_checked_ok (check_corpus_name a) (check_optional (some b)) strings (corpus, subcorpus)
          (rw (split_subcorpus_spec, found) at e) in
      let es : a ≡ corpus = cc in
      let en : some b ≡ subcorpus = cc in
      rw (← es, ← en) (sym (split_at-some 58 spec a b found), v, w)
]

-- Joining a valid name of a corpus and a valid name of an attribute by a dot and splitting the result
-- gives the two back.
pub split_attribute_spec_lem :
    (corpus attribute : List ℕ)
    → check_corpus_name corpus ≡ some status_ok
    → check_attribute_name attribute ≡ some status_ok
    → split_attribute_spec (corpus ++ 46 ∷ attribute) ≡ some (status_ok, some (corpus, attribute))
unfolding split_attribute_spec contains
split_attribute_spec_lem corpus attribute v w =
    let e = (corpus_split 46 corpus attribute refl refl v).0 in
    rw (split_attribute_spec, e)
      (both_checked_all (check_corpus_name corpus) (check_attribute_name attribute)
        (corpus, attribute) v w)
