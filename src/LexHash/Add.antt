-- ===== src/LexHash/Add.antt =====
-- `cl_lexhash_add` on a well-formed table: it counts the string and numbers the new ones.

use cwb.Base.{
  ℕ, ◌+◌, ◌<◌, ◌≡◌, refl, ap, ◌∙◌, inl, inr, ◌&&◌, none, some, List, [], ◌∷◌, ◌++◌, arith,
  if◌then◌else◌, length, length-append, length-set, get_or, set, Bool-cases, Option-cases,
}
use cwb.LexHash.Hashing.{str_eq}
use cwb.LexHash.Chain.{Entry, bump_entry}
use cwb.LexHash.Ops.{
  Double, LexHash, cl_lexhash_check_grow, cl_lexhash_find_i, insert_entry, cl_lexhash_add,
}
use cwb.LexHash.Prime.{str_eq_iff}
use cwb.LexHash.Bucket.{
  count_key, bumped, find_entry-snoc, count_key-snoc, count_key_absent, find_entry-bump,
  count_key-bump, length-bump,
}
use cwb.LexHash.Table.{home, count_entries-set, set-IsPlaced}
use cwb.LexHash.Methods.{IsLawful, IsValid, lookup, Models, cl_lexhash_check_grow-Models}

module _ {D : Double} where
  -- The entry that an addition leaves for the string.
  abbrev pub added : LexHash D → List ℕ → Entry
  added h token = elim (lookup h token) [
    | some e ↦ bumped e
    | none ↦ record { key = token; freq = 1; id = h.next_id }
  ]

  -- How many entries it makes.
  abbrev pub fresh_entries : LexHash D → List ℕ → ℕ
  fresh_entries h token = elim (lookup h token) [ some e ↦ 0 | none ↦ 1 ]

  bump-Models :
      (h : LexHash D) (k : List ℕ) (e : Entry)
      → IsValid D h
      → lookup h k ≡ some e
      → Models h.entries h.next_id
          (λ q. if str_eq k q then some (bumped e) else lookup h q)
          (record h {
            table =
                set h.table
                  (home h.buckets k)
                  (bump_entry (get_or h.table (home h.buckets k) []) k);
          })
  bump-Models h k e v hit =
      let c = get_or h.table (home h.buckets k) [] in
      let lt : home h.buckets k < length h.table = omega (arith, v.sized, v.some_buckets) in
      let (placed, reads) =
        set-IsPlaced h.buckets h.table k (bump_entry c k) (some (bumped e)) v.placed lt
          (λ q. rw (count_key-bump k q c) (v.placed q (home h.buckets k)))
          (λ q. find_entry-bump k q c e hit) in
      record {
        valid = record {
          some_buckets = v.some_buckets;
          sized = length-set h.table (home h.buckets k) (bump_entry c k) ∙ v.sized;
          placed = placed;
          counted = omega (
            arith,
            v.counted,
            length-bump k c,
            count_entries-set h.table (home h.buckets k) (bump_entry c k) lt,
          );
        };
        entries = refl;
        next_id = refl;
        reads = reads;
      }

  insert-Models :
      (h : LexHash D) (e : Entry)
      → IsValid D h
      → lookup h e.key ≡ none
      → Models
          (h.entries + 1)
          (h.next_id + 1)
          (λ q. if str_eq e.key q then some e else lookup h q)
          (insert_entry D h (home h.buckets e.key) e)
  unfolding insert_entry
  insert-Models h e v miss =
      let i = home h.buckets e.key in
      let c = get_or h.table i [] in
      let lt : i < length h.table = omega (arith, v.sized, v.some_buckets) in
      let none_yet = count_key_absent e.key c miss in
      let (placed, reads) =
        set-IsPlaced h.buckets h.table e.key (c ++ e ∷ []) (some e) v.placed lt
          (λ q. ground (
            arith,
            count_key-snoc c e q,
            v.placed q i,
            none_yet,
            str_eq_iff e.key q,
            λ (s : e.key ≡ q). ap (λ k. count_key k c) s,
            λ (s : e.key ≡ q). ap (home h.buckets) s,
          ))
          (λ q. find_entry-snoc c e q miss) in
      record {
        valid = record {
          some_buckets = v.some_buckets;
          sized = length-set h.table i (c ++ e ∷ []) ∙ v.sized;
          placed = placed;
          counted = omega (
            arith,
            v.counted,
            length-append c (e ∷ []),
            count_entries-set h.table i (c ++ e ∷ []) lt,
          );
        };
        entries = refl;
        next_id = refl;
        reads = reads;
      }

  -- A new string: the table after the insertion is kept, or grown to `r`.
  add_new :
      (h : LexHash D) (token : List ℕ)
      → lookup h token ≡ none
      → let fresh : Entry = record { key = token; freq = 1; id = h.next_id } in
        let g = insert_entry D h (home h.buckets token) fresh in
        IsValid D g
        → (r : LexHash D) (n : ℕ) → cl_lexhash_check_grow D g ≡ some (r, n)
        → Models g.entries g.next_id (lookup g) r
        → (r : LexHash D) × (cl_lexhash_add D h token ≡ some (r, fresh))
          × Models g.entries g.next_id (lookup g) r
  unfolding cl_lexhash_add cl_lexhash_find_i
  add_new h token miss v r n run m =
      let fresh : Entry = record { key = token; freq = 1; id = h.next_id } in
      let g = insert_entry D h (home h.buckets token) fresh in
      elim (Bool-cases
        (g.auto_grow && D.gt (D.of_ℕ g.entries) (D.mul g.fillrate_limit (D.of_ℕ g.buckets)))) [
          | inl grows ↦ (r, rw (miss, cl_lexhash_add, grows, run), m)
          | inr stays ↦ (
            g,
            rw (miss, cl_lexhash_add, stays),
            record { valid = v; entries = refl; next_id = refl; reads = λ q. refl },
          )
        ]

  new_Models :
      (h : LexHash D) (token : List ℕ)
      → lookup h token ≡ none
      → let fresh : Entry = record { key = token; freq = 1; id = h.next_id } in
        (g : LexHash D)
        → Models
            (h.entries + 1)
            (h.next_id + 1)
            (λ q. if str_eq token q then some fresh else lookup h q)
            g
        → (r : LexHash D) × (cl_lexhash_add D h token ≡ some (r, fresh))
          × Models g.entries g.next_id (lookup g) r
        → (r : LexHash D) × (cl_lexhash_add D h token ≡ some (r, added h token))
          × Models
              (h.entries + fresh_entries h token)
              (h.next_id + fresh_entries h token)
              (λ q. if str_eq token q then some (added h token) else lookup h q)
              r
  new_Models h token miss g m (r, run, mr) = (
    r,
    rw (miss, added) run,
    rw (miss, added, fresh_entries)
        (record {
          valid = mr.valid;
          entries = mr.entries ∙ m.entries;
          next_id = mr.next_id ∙ m.next_id;
          reads = λ q. mr.reads q ∙ m.reads q;
        }),
  )

  pub cl_lexhash_add-Models :
      (lawful : IsLawful D) (h : LexHash D) (token : List ℕ)
      → IsValid D h
      → (r : LexHash D) × (cl_lexhash_add D h token ≡ some (r, added h token))
        × Models
            (h.entries + fresh_entries h token)
            (h.next_id + fresh_entries h token)
            (λ q. if str_eq token q then some (added h token) else lookup h q)
            r
  unfolding cl_lexhash_add cl_lexhash_find_i
  cl_lexhash_add-Models lawful h token v = elim (Option-cases (lookup h token)) [
    | inr (e, hit) ↦
        let m = bump-Models h token e v hit in
        (
          record h {
            table =
                set h.table (home h.buckets token)
                  (bump_entry (get_or h.table (home h.buckets token) []) token);
          },
          rw (hit, cl_lexhash_add, added),
          rw (hit, added, fresh_entries)
              (record {
                valid = m.valid;
                entries = omega arith;
                next_id = omega arith;
                reads = m.reads;
              }),
        )
    | inl miss ↦
        let fresh : Entry = record { key = token; freq = 1; id = h.next_id } in
        let m = insert-Models h fresh v miss in
        let g = insert_entry D h (home h.buckets token) fresh in
        let (r, n, run, mr) = cl_lexhash_check_grow-Models lawful g m.valid in
        new_Models h token miss g m (add_new h token miss m.valid r n run mr)
  ]
