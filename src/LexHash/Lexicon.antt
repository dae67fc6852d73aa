-- ===== src/LexHash/Lexicon.antt =====
-- A lexicon built by adding the tokens of a corpus one by one: frequencies and numbers.
use mathlib.Core.Option
use cwb.Base.{
  ℕ, ◌+◌, ◌%◌, ◌^◌, ◌<◌, ◌≡◌, refl, sym, ◌∙◌, ◌⊎◌, inl, inr, Option, none, some, List, [], ◌∷◌,
  arith, if◌then◌else◌, Bool-cases, Option-cases,
}
use cwb.LexHash.Hashing.{str_eq}
use cwb.LexHash.Chain.{Entry}
use cwb.LexHash.Ops.{Double, LexHash, cl_lexhash_add}
use cwb.LexHash.Prime.{str_eq_iff}
use cwb.LexHash.Methods.{IsLawful, IsValid, lookup}
use cwb.LexHash.Add.{added, fresh_entries, cl_lexhash_add-Models}

-- How often a token occurs.
pub occurrences : List ℕ → List (List ℕ) → ℕ
occurrences q [] = 0
occurrences q (t ∷ ts) = (if str_eq t q then 1 else 0) + occurrences q ts

module _ (D : Double) where
  -- The tokens of a corpus, added in order.
  unfoldable pub add_all : LexHash D → List (List ℕ) → Option (LexHash D)
  add_all h [] = some h
  add_all h (t ∷ ts) = Option.bind (cl_lexhash_add D h t) (λ r. add_all r.0 ts)

module _ {D : Double} where
  -- Numbers are below the next one, and different entries have different ones.
  pub record IsNumbered (h : LexHash D) : Type 0 where
    pub below : (q : List ℕ) (e : Entry) → lookup h q ≡ some e → e.id < h.next_id
    pub distinct :
        (p q : List ℕ) (d e : Entry)
        → lookup h p ≡ some d
        → lookup h q ≡ some e
        → d.id ≡ e.id
        → p ≡ q

module _ {D : Double} where
  -- The unsigned frequency of the entry that a search finds, 0 if there is none.
  unfoldable pub freq_of : LexHash D → List ℕ → ℕ
  freq_of h q = elim (lookup h q) [ some e ↦ e.freq | none ↦ 0 ]

  freq-added :
      (h r : LexHash D) (t q : List ℕ)
      → lookup r q ≡ (if str_eq t q then some (added h t) else lookup h q)
      → freq_of r q ≡ (if str_eq t q then (freq_of h t + 1) % 2 ^ 32 else freq_of h q)
  unfolding freq_of
  freq-added h r t q e = ground arith

  -- An entry found after an addition has the number of the entry found before, or it is new.
  numbers :
      (h r : LexHash D) (t : List ℕ)
      → ((q : List ℕ) → lookup r q ≡ (if str_eq t q then some (added h t) else lookup h q))
      → (q : List ℕ) (e : Entry) → lookup r q ≡ some e
      → ((d : Entry) × (lookup h q ≡ some d) × (d.id ≡ e.id))
        ⊎ ((t ≡ q) × (lookup h t ≡ none) × (e.id ≡ h.next_id))
  numbers h r t reads q e hit = elim (Bool-cases (str_eq t q)) [
    | inr other ↦ inl (e, rw (reads q, other) at hit, refl)
    | inl same ↦
        let path = (str_eq_iff t q).0 same in
        let now : some (added h t) ≡ some e = rw (reads q, same) at hit in
        elim (Option-cases (lookup h t)) [
          | inr (d, old) ↦ inl (d, rw path at old, ground arith)
          | inl new ↦ inr (path, new, ground arith)
        ]
  ]

  step-IsNumbered :
      (h r : LexHash D) (t : List ℕ)
      → IsNumbered h
      → r.next_id ≡ h.next_id + fresh_entries h t
      → ((q : List ℕ) → lookup r q ≡ (if str_eq t q then some (added h t) else lookup h q))
      → IsNumbered r
  step-IsNumbered h r t num next reads = record {
    below = λ q e hit. elim (numbers h r t reads q e hit) [
      | inl (d, old, same) ↦ omega (arith, num.below q d old, next)
      | inr (path, new, same) ↦ ground (arith, next, new, same)
    ];
    distinct = λ p q d e hp hq same. elim (numbers h r t reads p d hp) [
      | inl (d', dp, ds) ↦ elim (numbers h r t reads q e hq) [
        | inl (e', ep, es) ↦ num.distinct p q d' e' dp ep (omega arith)
        | inr (_, _, es) ↦ absurd (omega (arith, num.below p d' dp))
      ]
      | inr (tp, _, ds) ↦ elim (numbers h r t reads q e hq) [
        | inl (e', ep, es) ↦ absurd (omega (arith, num.below q e' ep))
        | inr (tq, _, es) ↦ sym tp ∙ tq
      ]
    ];
  }

  -- One addition to a well-formed table: the frequency of the string is one higher modulo 2^32 and
  -- the others are as before; a numbered table stays numbered, with as many entries as numbers if
  -- that was so.
  pub cl_lexhash_add-freq :
      (lawful : IsLawful D) (h : LexHash D) (t : List ℕ)
      → IsValid D h
      → (r : LexHash D) × (e : Entry) × (cl_lexhash_add D h t ≡ some (r, e))
        × IsValid D r
        × ((q : List ℕ)
            → freq_of r q ≡ (if str_eq t q then (freq_of h t + 1) % 2 ^ 32 else freq_of h q))
        × (IsNumbered h → IsNumbered r)
        × (h.entries ≡ h.next_id → r.entries ≡ r.next_id)
  cl_lexhash_add-freq lawful h t v =
      let (r, run, m) = cl_lexhash_add-Models lawful h t v in
      (
        r,
        added h t,
        run,
        m.valid,
        λ q. freq-added h r t q (m.reads q),
        λ num. step-IsNumbered h r t num m.next_id m.reads,
        λ e. omega (arith, m.entries, m.next_id, e),
      )
