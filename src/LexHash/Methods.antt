-- ===== src/LexHash/Methods.antt =====
-- The operations on a well-formed table, read as operations on a map from keys to entries.
use mathlib.Core.Option
use cwb.Base.{
  ℕ, zero, suc, ◌≤◌, ◌<◌, ◌≡◌, refl, ◌∙◌, inl, inr, false, ◌&&◌, Option, none, some, List, [],
  arith, ==_iff, length, length-replicate, replicate, Bool-cases,
}
use cwb.Base.Int.{ℤ, pos, negsuc}
use cwb.LexHash.Chain.{Entry, count_entries, move_table}
use cwb.LexHash.Ops.{
  Double, LexHash, max_buckets, requested_buckets, empty_lexhash, cl_new_lexhash, expand,
  cl_lexhash_check_grow,
}
use cwb.LexHash.Prime.{find_prime-some}
use cwb.LexHash.Table.{IsPlaced, view, replicate-IsPlaced}
use cwb.LexHash.Grow.{count_entries-replicate, move_table-Holds}

-- What the code relies on of `double`: an integer converts to itself and back, and a number that is
-- not greater than an integer converts to one that is not.
pub record IsLawful (D : Double) : Type 0 where
  pub to_ℕ-of_ℕ : (n : ℕ) → D.to_ℕ (D.of_ℕ n) ≡ n
  pub to_ℕ-le : (x : D.Num) (n : ℕ) → D.gt x (D.of_ℕ n) ≡ false → D.to_ℕ x ≤ n

-- There are buckets, each key stands at most once and in its home bucket, and `entries` counts them.
pub record IsValid (D : Double) (h : LexHash D) : Type 0 where
  pub some_buckets : 0 < h.buckets
  pub sized : length h.table ≡ h.buckets
  pub placed : IsPlaced h.buckets h.table
  pub counted : count_entries h.table ≡ h.entries

module _ {D : Double} where
  -- The map.
  abbrev pub lookup : LexHash D → List ℕ → Option Entry
  lookup h q = view h.buckets h.table q

  -- `h'` is well-formed and holds `total` entries, the map is `f`, and `next` is the next number.
  pub record Models (total next : ℕ) (f : List ℕ → Option Entry) (h' : LexHash D) : Type 0 where
    pub valid : IsValid D h'
    pub entries : h'.entries ≡ total
    pub next_id : h'.next_id ≡ next
    pub reads : (q : List ℕ) → lookup h' q ≡ f q

requested_bounds :
    (b : ℤ) (n : ℕ)
    → requested_buckets b ≡ n
    → ((m : ℕ) → b ≡ pos m → m ≤ max_buckets)
    → (1 ≤ n) × (n ≤ max_buckets)
unfolding requested_buckets
requested_bounds (negsuc m) n e h = omega arith
requested_bounds (pos zero) n e h = omega arith
requested_bounds (pos (suc m)) n e h = omega (arith, h (suc m) refl)

module _ {D : Double} where
  -- `cl_new_lexhash` succeeds for every request up to MAX_BUCKETS, and gives an empty map whose
  -- number of buckets is prime to the code's test and not below a positive request.
  pub cl_new_lexhash-Models :
      (b : ℤ)
      → ((m : ℕ) → b ≡ pos m → m ≤ max_buckets)
      → (h : LexHash D) × (cl_new_lexhash D b ≡ some h)
        × Models 0 0 (λ q. none) h
        × (requested_buckets b ≤ h.buckets)
        × (h.table ≡ replicate h.buckets [])
  unfolding cl_new_lexhash empty_lexhash
  cl_new_lexhash-Models b small =
      let (lo, hi) = requested_bounds b (requested_buckets b) refl small in
      let (q, run, ge, le, prime, least) = find_prime-some (requested_buckets b) lo hi in
      let (placed, reads) = replicate-IsPlaced q q in
      (
        empty_lexhash D q,
        rw run,
        record {
          valid = record {
            some_buckets = omega arith;
            sized = length-replicate q [];
            placed = placed;
            counted = count_entries-replicate q;
          };
          entries = refl;
          next_id = refl;
          reads = reads;
        },
        ge,
        refl,
      )

  expand-Models :
      (h : LexHash D) (x : D.Num)
      → IsValid D h
      → D.to_ℕ x ≤ max_buckets
      → (r : LexHash D) × (expand D h x ≡ some r) × Models h.entries h.next_id (lookup h) r
  unfolding expand Option.bind
  expand-Models h x v small =
      let bound : (k : ℕ) → pos (D.to_ℕ x) ≡ pos k → k ≤ max_buckets = λ k e. ground arith in
      let (temp, run, m, _, shape) = cl_new_lexhash-Models (pos (D.to_ℕ x)) bound in
      let all = move_table-Holds h.buckets temp.buckets h.table m.valid.some_buckets v.placed in
      (
        record h {
          table = move_table temp.buckets h.table (replicate temp.buckets []);
          buckets = temp.buckets;
        },
        rw (run, (==_iff (count_entries h.table) h.entries).1 v.counted, shape),
        record {
          valid = record {
            some_buckets = m.valid.some_buckets;
            sized = all.sized;
            placed = all.placed;
            counted = all.counted ∙ v.counted;
          };
          entries = refl;
          next_id = refl;
          reads = all.reads;
        },
      )

module _ {D : Double} (lawful : IsLawful D) where
  -- `cl_lexhash_check_grow` never fails on a well-formed table: neither the assertion nor the search
  -- for a prime. The table stays well-formed with the same entries, numbers and lookups, whether it
  -- is expanded or not.
  pub cl_lexhash_check_grow-Models :
      (h : LexHash D)
      → IsValid D h
      → (r : LexHash D) × (n : ℕ) × (cl_lexhash_check_grow D h ≡ some (r, n))
        × Models h.entries h.next_id (lookup h) r
  unfolding cl_lexhash_check_grow
  cl_lexhash_check_grow-Models h v =
      let target = D.floor (D.div (D.of_ℕ h.entries) h.fillrate_target) in
      let capped = record h { auto_grow = false } in
      let w : IsValid D capped = record {
        some_buckets = v.some_buckets;
        sized = v.sized;
        placed = v.placed;
        counted = v.counted;
      } in
      let same : Models h.entries h.next_id (lookup h) h = record {
        valid = v;
        entries = refl;
        next_id = refl;
        reads = λ q. refl;
      } in
      let (c, run_c, mc) =
        expand-Models capped (D.of_ℕ max_buckets) w
          (rw (lawful.to_ℕ-of_ℕ max_buckets) (omega arith)) in
      elim (Bool-cases
        (h.auto_grow && D.gt (D.div (D.of_ℕ h.entries) (D.of_ℕ h.buckets)) h.fillrate_limit)) [
          | inr idle ↦ (h, 0, rw idle, same)
          | inl full ↦ elim (Bool-cases (D.gt target (D.of_ℕ max_buckets))) [
            | inr fits ↦
                let (r, run, m) =
                  expand-Models h target v (lawful.to_ℕ-le target max_buckets fits) in
                (r, 1, rw (full, fits, run), m)
            | inl over ↦ elim (Bool-cases (D.gt (D.of_ℕ h.buckets) (D.div target (D.of_ℕ 2)))) [
              | inl close ↦ (
                capped,
                0,
                rw (full, over, close),
                record { valid = w; entries = refl; next_id = refl; reads = λ q. refl },
              )
              | inr far ↦ (c, 1, rw (full, over, far, run_c), mc)
            ]
          ]
        ]
