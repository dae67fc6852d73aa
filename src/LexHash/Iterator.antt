-- ===== src/LexHash/Iterator.antt =====
-- The iterator visits every entry of the table once, bucket by bucket.
use mathlib.Core.List.{flatten}
use cwb.Base.{
  ℕ, zero, suc, ◌+◌, ◌-◌, ◌≤◌, ◌<◌, ◌≡◌, ◌≢◌, ◌⊎◌, refl, sym, ap, ◌∙◌, inl, inr, Option, none, some,
  List, [], ◌∷◌, ◌++◌, arith, length, get_or, drop,
}
use cwb.Base.Int.{pos}
use cwb.LexHash.Chain.{Entry, Table, next_bucket, seek_bucket}
use cwb.LexHash.Ops.{Double, LexHash, cl_lexhash_iterator_reset, cl_lexhash_iterator_next}
use cwb.LexHash.Table.{count_entries-flatten}
use cwb.LexHash.Methods.{IsValid}

drop_next : (t : Table) (i : ℕ) → flatten (drop i t) ≡ get_or t i [] ++ flatten (drop (suc i) t)
unfolding flatten
drop_next [] zero = refl
drop_next [] (suc i) = refl
drop_next (c ∷ t) zero = refl
drop_next (c ∷ t) (suc i) = drop_next t i

drop_past : (t : Table) (i : ℕ) → length t ≤ i → flatten (drop i t) ≡ []
unfolding flatten
drop_past [] zero h = refl
drop_past [] (suc i) h = refl
drop_past (c ∷ t) zero h = absurd (omega arith)
drop_past (c ∷ t) (suc i) h = drop_past t i (omega arith)

-- The part of the table from the bucket after `j` on.
abbrev after : Table → ℕ × List Entry → List Entry
after t (j, c) = c ++ flatten (drop (suc j) t)

seek_here :
    (i : ℕ) (t : Table) (rest : ℕ × List Entry) (c : List Entry)
    → flatten (drop i t) ≡ c ++ flatten (drop (suc i) t)
    → flatten (drop (i + 1) t) ≡ after t rest
    → flatten (drop i t) ≡ after t (elim c [ [] ↦ rest | e ∷ r ↦ (i, e ∷ r) ])
seek_here i t rest [] e later = let s : suc i ≡ i + 1 = omega arith in rw (e, s) later
seek_here i t rest (x ∷ c) e later = e

-- The search for the next bucket skips empty ones alone.
seek_bucket-flatten :
    (fuel i : ℕ) (t : Table)
    → length t ≤ i + fuel
    → flatten (drop i t) ≡ after t (seek_bucket fuel i t)
unfolding seek_bucket
seek_bucket-flatten zero i t h =
    drop_past t i (omega arith) ∙ sym (drop_past t (suc i) (omega arith))
seek_bucket-flatten (suc fuel) i t h =
    seek_here i t (seek_bucket fuel (i + 1) t) (get_or t i []) (drop_next t i)
      (seek_bucket-flatten fuel (i + 1) t (omega arith))

seek_bucket-past :
    (fuel i : ℕ) (t : Table)
    → length t ≤ i + fuel
    → (seek_bucket fuel i t).1 ≡ []
    → length t ≤ (seek_bucket fuel i t).0
unfolding seek_bucket
seek_bucket-past zero i t h e = omega arith
seek_bucket-past (suc fuel) i t h e = ground (arith, seek_bucket-past fuel (i + 1) t (omega arith))

null_or_entry : (p : List Entry) → (p ≡ []) ⊎ (p ≢ [])
null_or_entry [] = inl refl
null_or_entry (x ∷ p) = inr (λ e. cc)

module _ {D : Double} where
  -- The entries that the iterator has still to return.
  abbrev pub remaining : LexHash D → List Entry
  remaining h = h.iter_point ++ flatten (drop (next_bucket h.iter_bucket) h.table)

  -- What a call returns, and what remains after it.
  abbrev Visits : LexHash D → LexHash D × Option Entry → Type 0
  Visits h (r, none) = (remaining h ≡ []) × (r.table ≡ h.table) × (r.buckets ≡ h.buckets)
  Visits h (r, some e) =
      (remaining h ≡ e ∷ remaining r) × (r.table ≡ h.table) × (r.buckets ≡ h.buckets)

  abbrev found_step : LexHash D → ℕ × List Entry → LexHash D × Option Entry
  found_step h (j, []) = (record h { iter_bucket = pos j }, none)
  found_step h (j, e ∷ r) = (record h { iter_bucket = pos j; iter_point = r }, some e)

  found-Visits :
      (h : LexHash D) (found : ℕ × List Entry)
      → h.iter_point ≡ []
      → flatten (drop (next_bucket h.iter_bucket) h.table) ≡ after h.table found
      → (found.1 ≡ [] → length h.table ≤ found.0)
      → Visits h (found_step h found)
  found-Visits h (j, []) empty e past =
      (rw (empty, e) (drop_past h.table (suc j) (omega (arith, past refl))), refl, refl)
  found-Visits h (j, x ∷ c) empty e past =
      let s : suc j ≡ j + 1 = omega arith in (rw (empty, e, s), refl, refl)

  step-Visits :
      (h : LexHash D) (p : List Entry) (found : ℕ × List Entry)
      → h.iter_point ≡ p
      → Visits h (found_step h found) ⊎ (p ≢ [])
      → Visits h
          (elim p [ e ∷ r ↦ (record h { iter_point = r }, some e) | [] ↦ found_step h found ])
  step-Visits h [] found e (inl v) = v
  step-Visits h [] found e (inr n) = absurd (n refl)
  step-Visits h (x ∷ p) found e v = (rw e, refl, refl)

  iterator_next-Visits :
      (h : LexHash D) → length h.table ≡ h.buckets → Visits h (cl_lexhash_iterator_next D h)
  unfolding cl_lexhash_iterator_next
  iterator_next-Visits h size =
      let b = next_bucket h.iter_bucket in
      let found = seek_bucket (h.buckets - b) b h.table in
      let enough : length h.table ≤ b + (h.buckets - b) = omega arith in
      step-Visits h h.iter_point found refl (elim (null_or_entry h.iter_point) [
        | inr n ↦ inr n
        | inl e ↦ inl (
            found-Visits h found e (seek_bucket-flatten (h.buckets - b) b h.table enough)
              (seek_bucket-past (h.buckets - b) b h.table enough))
      ])

module _ (D : Double) where
  -- The entries that repeated calls return, up to the first NULL and at most `fuel` of them.
  pub visit_all : ℕ → LexHash D → List Entry
  visit_all zero h = []
  visit_all (suc fuel) h = elim (cl_lexhash_iterator_next D h).1 [
    | none ↦ []
    | some e ↦ e ∷ visit_all fuel (cl_lexhash_iterator_next D h).0
  ]

module _ {D : Double} where
  visit_all-remaining :
      (fuel : ℕ) (h : LexHash D)
      → length h.table ≡ h.buckets
      → length (remaining h) < fuel
      → visit_all D fuel h ≡ remaining h
  unfolding visit_all
  visit_all-remaining zero h size more = absurd (omega arith)
  visit_all-remaining (suc fuel) h size more =
      go (cl_lexhash_iterator_next D h) (iterator_next-Visits h size)
        (λ s f. visit_all-remaining fuel (cl_lexhash_iterator_next D h).0 s f)
    where
      go :
          (r : LexHash D × Option Entry)
          → Visits h r
          → (length r.0.table ≡ r.0.buckets
              → length (remaining r.0) < fuel
              → visit_all D fuel r.0 ≡ remaining r.0)
          → (elim r.1 [ none ↦ [] | some e ↦ e ∷ visit_all D fuel r.0 ]) ≡ remaining h
      go (r, none) v ih = sym v.0
      go (r, some e) v ih =
          ap (λ l. e ∷ l) (ih (rw (v.1, v.2) size) (omega (arith, ap length v.0))) ∙ sym v.0

  -- After a reset of the iterator of a well-formed table, repeated calls return each entry of the
  -- table once, bucket by bucket, and then NULL.
  pub iterator-flatten :
      (h : LexHash D)
      → IsValid D h
      → visit_all D (h.entries + 1) (cl_lexhash_iterator_reset D h) ≡ flatten h.table
  unfolding cl_lexhash_iterator_reset
  iterator-flatten h v =
      visit_all-remaining (h.entries + 1) (cl_lexhash_iterator_reset D h) v.sized
        (omega (arith, v.counted, count_entries-flatten h.table))
