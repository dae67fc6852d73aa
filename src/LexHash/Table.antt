-- ===== src/LexHash/Table.antt =====
-- Where entries stand in the table, what the table means as a map from keys to entries, and what
-- replacing one chain does to that.
use mathlib.Core.List.{flatten}
use native.Mathlib.Decide.{ℕ_discrete, dec_lt}
use cwb.Base.{
  ℕ, zero, suc, ◌+◌, ◌%◌, ◌≤◌, ◌<◌, ◌≡◌, ◌≢◌, refl, ap, Option, none, List, [], ◌∷◌, arith,
  if◌then◌else◌, ◌==◌, length, length-append, get_or, set, get_or-set_self, get_or-set_ne,
  get_or-replicate, get_or-replicate_out, replicate,
}
use cwb.LexHash.Hashing.{hash_string, str_eq}
use cwb.LexHash.Chain.{Entry, Table, find_entry, count_entries}
use cwb.LexHash.Prime.{str_eq_iff}
use cwb.LexHash.Bucket.{count_key, find_entry-append, count_key-append, find_entry_absent}

-- The bucket of a key among n buckets.
abbrev pub home : ℕ → List ℕ → ℕ
home n q = hash_string q % n

-- A key is in its home bucket alone, and there at most once.
abbrev pub IsPlaced : ℕ → Table → Type 0
IsPlaced n t = (q : List ℕ) (i : ℕ) → count_key q (get_or t i []) ≤ (if home n q == i then 1 else 0)

-- The table as a map.
abbrev pub view : ℕ → Table → List ℕ → Option Entry
view n t q = find_entry (get_or t (home n q) []) q

pub count_entries-flatten : (t : Table) → count_entries t ≡ length (flatten t)
unfolding count_entries flatten
count_entries-flatten [] = refl
count_entries-flatten (c ∷ t) = omega (arith, count_entries-flatten t, length-append c (flatten t))

pub count_entries-set :
    (t : Table) (i : ℕ) (c : List Entry)
    → i < length t
    → count_entries (set t i c) + length (get_or t i []) ≡ count_entries t + length c
unfolding count_entries
count_entries-set [] i c h = absurd (omega arith)
count_entries-set (d ∷ t) zero c h = omega arith
count_entries-set (d ∷ t) (suc i) c h = omega (arith, count_entries-set t i c (omega arith))

flatten_nowhere :
    (q : List ℕ) (t : Table)
    → ((i : ℕ) → count_key q (get_or t i []) ≡ 0)
    → count_key q (flatten t) ≡ 0
unfolding flatten count_key
flatten_nowhere q [] h = refl
flatten_nowhere q (c ∷ t) h =
    omega (arith, count_key-append q c (flatten t), h 0, flatten_nowhere q t (λ i. h (suc i)))

-- A key that stands in the bucket j alone is found in the whole table as it is found there.
flatten_only :
    (q : List ℕ) (t : Table) (j : ℕ)
    → ((i : ℕ) → i ≢ j → count_key q (get_or t i []) ≡ 0)
    → (find_entry (flatten t) q ≡ find_entry (get_or t j []) q)
      × (count_key q (flatten t) ≡ count_key q (get_or t j []))
unfolding flatten
flatten_only q [] j h = (refl, refl)
flatten_only q (c ∷ t) zero h =
    let away = flatten_nowhere q t (λ i. h (suc i) (omega arith)) in
    (
      ground (arith, find_entry-append q c (flatten t), find_entry_absent q (flatten t) away),
      omega (arith, count_key-append q c (flatten t), away),
    )
flatten_only q (c ∷ t) (suc j) h =
    let (found, counted) = flatten_only q t j (λ i ne. h (suc i) (omega arith)) in
    let here = h 0 (omega arith) in
    (
      ground (arith, find_entry-append q c (flatten t), find_entry_absent q c here, found),
      omega (arith, count_key-append q c (flatten t), here, counted),
    )

pub flatten-view :
    (n : ℕ) (t : Table)
    → IsPlaced n t
    → (q : List ℕ) → (find_entry (flatten t) q ≡ view n t q) × (count_key q (flatten t) ≤ 1)
flatten-view n t placed q =
    let (found, counted) = flatten_only q t (home n q) (λ i ne. ground (arith, placed q i)) in
    (found, ground (arith, counted, placed q (home n q)))

pub replicate-IsPlaced :
    (n m : ℕ) → IsPlaced n (replicate m []) × ((q : List ℕ) → view n (replicate m []) q ≡ none)
unfolding count_key find_entry
replicate-IsPlaced n m = (λ q i. rw (blank i) (omega arith), λ q. rw (blank (home n q)))
  where
    blank : (i : ℕ) → get_or {A = List Entry} (replicate m []) i [] ≡ []
    blank i = elim (dec_lt i m) [
      | yes p ↦ get_or-replicate m i [] [] p
      | no p ↦ get_or-replicate_out m i [] [] (omega arith)
    ]

-- Replacing the home chain of `k`: the map changes at `k` alone if the new chain differs from the
-- old for `k` alone.
pub set-IsPlaced :
    (n : ℕ) (t : Table) (k : List ℕ) (c : List Entry) (v : Option Entry)
    → IsPlaced n t
    → home n k < length t
    → ((q : List ℕ) → count_key q c ≤ (if home n q == home n k then 1 else 0))
    → ((q : List ℕ)
        → find_entry c q ≡ (if str_eq k q then v else find_entry (get_or t (home n k) []) q))
    → IsPlaced n (set t (home n k) c)
      × ((q : List ℕ) → view n (set t (home n k) c) q ≡ (if str_eq k q then v else view n t q))
set-IsPlaced n t k c v placed lt few reads = (
  λ q i. elim (ℕ_discrete (home n k) i) [
    | yes p ↦ rw (← p, get_or-set_self t (home n k) c [] lt) (few q)
    | no p ↦ rw (get_or-set_ne t (home n k) i c [] p) (placed q i)
  ],
  λ q. elim (ℕ_discrete (home n k) (home n q)) [
    | yes p ↦ rw (← p, get_or-set_self t (home n k) c [] lt) (reads q)
    | no p ↦
        rw (get_or-set_ne t (home n k) (home n q) c [] p)
          (ground (arith, str_eq_iff k q, λ (e : k ≡ q). ap (home n) e))
  ],
)
