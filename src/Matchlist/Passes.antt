-- ===== src/Matchlist/Passes.antt =====
-- The loops of Complement, Uniq and Reduce.
use cwb.Base.{
  ℕ, zero, suc, ◌+◌, ◌≤◌, ◌≡◌, refl, ap, ◌&&◌, ◌||◌, Bool, true, false, not, some, List, [], ◌∷◌,
  arith, length, Bool-cases, inl, inr,
}
use cwb.Base.Int.{ℤ, pos, ltb_ℤ, eqb_ℤ}
use cwb.Matchlist.Rows.{
  Row, is_deleted, same_match, complement_rows, uniq_after, uniq_rows, reduce_rows,
}
use cwb.Matchlist.Sets.{has, before, all_after, is_sorted, both, all_after_trans}

-- The position stands from `lo` up to below `hi`.
abbrev pub between : ℕ → ℕ → ℤ → Bool
between lo hi z = not (ltb_ℤ z (pos lo)) && ltb_ℤ z (pos hi)

-- All matches start there.
unfoldable pub in_range : ℕ → ℕ → List Row → Bool
in_range lo hi [] = true
in_range lo hi (r ∷ rows) = between lo hi r.start && in_range lo hi rows

in_range-later :
    (lo hi : ℕ) (r : Row) (rows : List Row)
    → ltb_ℤ r.start (pos lo) ≡ false
    → all_after false r rows ≡ true
    → in_range lo hi rows ≡ true
    → in_range (lo + 1) hi rows ≡ true
unfolding in_range all_after
in_range-later lo hi r [] h after range = refl
in_range-later lo hi r (s ∷ rows) h after range =
    let (first, later) = both (before false r s) (all_after false r rows) after in
    let (here, there) = both (between lo hi s.start) (in_range lo hi rows) range in
    let rest = in_range-later lo hi r rows h later there in
    let moved : between (lo + 1) hi s.start ≡ true = ground arith in rw (moved, rest) refl

-- The row that Complement makes for a position.
abbrev pub at_position : ℕ → Row
at_position k = record { start = pos k; end_pos = pos 0; target = pos 0; keyword = pos 0 }

-- The positions from k to k + left that are in the table or not.
pub record Complements (left k : ℕ) (rows res : List Row) : Type 0 where
  pub contents :
      (q : Row) → has false q res ≡ (between k (k + left) q.start && not (has false q rows))
  pub size : length res + length rows ≡ left

absent_below :
    (left k : ℕ) (rows : List Row) (q : Row)
    → in_range (k + 1) (k + suc left) rows ≡ true
    → eqb_ℤ q.start (pos k) ≡ true
    → has false q rows ≡ false
unfolding in_range has
absent_below left k [] q range e = refl
absent_below left k (r ∷ rows) q range e =
    let (here, there) =
      both (between (k + 1) (k + suc left) r.start) (in_range (k + 1) (k + suc left) rows) range in
    let rest = absent_below left k rows q there e in ground (arith, rest)

take_position :
    (left k : ℕ) (rows res : List Row)
    → in_range (k + 1) (k + suc left) rows ≡ true
    → Complements left (k + 1) rows res
    → Complements (suc left) k rows (at_position k ∷ res)
unfolding has
take_position left k rows res range c = record {
  contents = λ q.
      let e : k + 1 + left ≡ k + suc left = omega arith in
      let rest : has false q res
          ≡ (between (k + 1) (k + suc left) q.start && not (has false q rows)) =
        rw e at (c.contents q) in
      let absent = absent_below left k rows q range in rw rest (ground (arith, absent));
  size = omega (arith, c.size);
}

next_range :
    (left k : ℕ) (rows : List Row)
    → in_range (k + 1) (k + suc left) rows ≡ true
    → in_range (k + 1) (k + 1 + left) rows ≡ true
next_range left k rows h = let e : k + 1 + left ≡ k + suc left = omega arith in rw e h

-- The loop of Complement on a sorted table of positions in its range: the assertion does not fail,
-- the result has the positions in the range that the table has not, and the sizes add up.
pub complement_rows-Complements :
    (left k : ℕ) (rows : List Row)
    → is_sorted false rows ≡ true
    → in_range k (k + left) rows ≡ true
    → (res : List Row) × (complement_rows left k rows ≡ some res) × Complements left k rows res
unfolding complement_rows is_sorted has in_range
complement_rows-Complements zero k [] sorted range =
    ([], refl, record { contents = λ q. ground arith; size = refl })
complement_rows-Complements zero k (r ∷ rows) sorted range = absurd (ground arith)
complement_rows-Complements (suc left) k [] sorted range =
    let (res, run, c) = complement_rows-Complements left (k + 1) [] refl refl in
    (at_position k ∷ res, rw run refl, take_position left k [] res refl c)
complement_rows-Complements (suc left) k (r ∷ rows) sorted range =
    let (after, later) = both (all_after false r rows) (is_sorted false rows) sorted in
    let (here, there) =
      both (between k (k + suc left) r.start) (in_range k (k + suc left) rows) range in
    let low : ltb_ℤ r.start (pos k) ≡ false = ground arith in
    let moved = in_range-later k (k + suc left) r rows low after there in
    elim (Bool-cases (ltb_ℤ (pos k) r.start)) [
      | inl lt ↦
          let first : between (k + 1) (k + suc left) r.start ≡ true = ground arith in
          let range' : in_range (k + 1) (k + suc left) (r ∷ rows) ≡ true =
            rw (in_range, first, moved) refl in
          let (res, run, c) =
            complement_rows-Complements left (k + 1) (r ∷ rows) sorted
              (next_range left k (r ∷ rows) range') in
          (at_position k ∷ res, rw (lt, run) refl, take_position left k (r ∷ rows) res range' c)
      | inr ge ↦
          let equal : eqb_ℤ (pos k) r.start ≡ true = ground arith in
          let (res, run, c) =
            complement_rows-Complements left (k + 1) rows later (next_range left k rows moved) in
          (
            res,
            rw (ge, equal) run,
            record {
              contents = λ q. skip_position left k r rows res q moved equal c;
              size = omega (arith, c.size);
            },
          )
    ]
  where
    skip_position :
        (left k : ℕ) (r : Row) (rows res : List Row) (q : Row)
        → in_range (k + 1) (k + suc left) rows ≡ true
        → eqb_ℤ (pos k) r.start ≡ true
        → Complements left (k + 1) rows res
        → has false q res
          ≡ (between k (k + suc left) q.start && not (same_match false q r || has false q rows))
    skip_position left k r rows res q range equal c =
        let e : k + 1 + left ≡ k + suc left = omega arith in
        let rest : has false q res
            ≡ (between (k + 1) (k + suc left) q.start && not (has false q rows)) =
          rw e at (c.contents q) in
        rw rest (ground arith)

-- No match comes before the one in front of it.
unfoldable pub ascends : Bool → Row → List Row → Bool
ascends ends last [] = true
ascends ends last (r ∷ rows) = not (before ends r last) && ascends ends r rows

-- Uniq drops only rows whose match is there before.
uniq_after-has :
    (ends : Bool) (k last : Row) (rows : List Row)
    → (same_match ends k last || has ends k (uniq_after ends last rows))
      ≡ (same_match ends k last || has ends k rows)
unfolding uniq_after has
uniq_after-has ends k last [] = refl
uniq_after-has ends k last (r ∷ rows) = elim (Bool-cases (same_match ends r last)) [
  | inl e ↦
      let equal : same_match ends k r ≡ same_match ends k last = ground arith in
      rw (e, uniq_after-has ends k last rows, equal) (ground arith)
  | inr e ↦ rw (e, has, uniq_after-has ends k r rows) refl
]

pub uniq_rows-has :
    (ends : Bool) (k : Row) (rows : List Row) → has ends k (uniq_rows ends rows) ≡ has ends k rows
unfolding uniq_rows has
uniq_rows-has ends k [] = refl
uniq_rows-has ends k (r ∷ rows) = uniq_after-has ends k r rows

ascends-equal :
    (ends : Bool) (r last : Row) (rows : List Row)
    → same_match ends r last ≡ true
    → ascends ends r rows ≡ true
    → ascends ends last rows ≡ true
unfolding ascends
ascends-equal ends r last [] e h = refl
ascends-equal ends r last (s ∷ rows) e h =
    let (first, later) = both (not (before ends s r)) (ascends ends s rows) h in
    let moved : not (before ends s last) ≡ true = ground arith in rw (moved, later) refl

-- Uniq makes an ascending table strictly ascending.
uniq_after-sorted :
    (ends : Bool) (last : Row) (rows : List Row)
    → ascends ends last rows ≡ true
    → (all_after ends last (uniq_after ends last rows) ≡ true)
      × (is_sorted ends (uniq_after ends last rows) ≡ true)
unfolding uniq_after ascends all_after is_sorted
uniq_after-sorted ends last [] h = (refl, refl)
uniq_after-sorted ends last (r ∷ rows) h =
    let (first, later) = both (not (before ends r last)) (ascends ends r rows) h in
    elim (Bool-cases (same_match ends r last)) [
      | inl e ↦ rw e (uniq_after-sorted ends last rows (ascends-equal ends r last rows e later))
      | inr e ↦
          let (after, sorted) = uniq_after-sorted ends r rows later in
          let next : before ends last r ≡ true = ground arith in
          rw e (
            rw (all_after, next, all_after_trans ends last r (uniq_after ends r rows) next after)
                refl,
            rw (is_sorted, after, sorted) refl,
          )
    ]

pub uniq_rows-sorted :
    (ends : Bool) (r : Row) (rows : List Row)
    → ascends ends r rows ≡ true
    → is_sorted ends (uniq_rows ends (r ∷ rows)) ≡ true
unfolding uniq_rows is_sorted
uniq_rows-sorted ends r rows h =
    let (after, sorted) = uniq_after-sorted ends r rows h in rw (after, sorted) refl

-- Reduce drops the deleted rows and no others.
pub reduce_rows-has :
    (ends : Bool) (k : Row) (rows : List Row)
    → has ends k (reduce_rows rows) ≡ (not (is_deleted k) && has ends k rows)
unfolding reduce_rows has
reduce_rows-has ends k [] = ground arith
reduce_rows-has ends k (r ∷ rows) =
    let rest = reduce_rows-has ends k rows in
    elim (Bool-cases (is_deleted r)) [
      | inl e ↦ rw (e, rest) (ground arith)
      | inr e ↦ rw (e, has, rest) (ground arith)
    ]

pub length-reduce : (rows : List Row) → length (reduce_rows rows) ≤ length rows
unfolding reduce_rows
length-reduce [] = omega arith
length-reduce (r ∷ rows) = ground (arith, length-reduce rows)

length-uniq_after :
    (ends : Bool) (last : Row) (rows : List Row) → length (uniq_after ends last rows) ≤ length rows
unfolding uniq_after
length-uniq_after ends last [] = omega arith
length-uniq_after ends last (r ∷ rows) =
    let skipped = length-uniq_after ends last rows in
    let inserted = length-uniq_after ends r rows in
    elim (Bool-cases (same_match ends r last)) [
      | inl e ↦ rw e (omega (arith, skipped))
      | inr e ↦ rw e (omega (arith, inserted))
    ]

-- If Uniq drops no row, it changes nothing.
pub uniq_after_full :
    (ends : Bool) (last : Row) (rows : List Row)
    → length (uniq_after ends last rows) ≡ length rows
    → uniq_after ends last rows ≡ rows
unfolding uniq_after
uniq_after_full ends last [] h = refl
uniq_after_full ends last (r ∷ rows) h = elim (Bool-cases (same_match ends r last)) [
  | inl e ↦
      let full : length (uniq_after ends last rows) ≡ suc (length rows) = rw e at h in
      absurd (omega (arith, full, length-uniq_after ends last rows))
  | inr e ↦
      let full : suc (length (uniq_after ends r rows)) ≡ suc (length rows) = rw e at h in
      rw e (ap (λ t. r ∷ t) (uniq_after_full ends r rows (omega (arith, full))))
]

-- If Reduce drops no row, it changes nothing.
pub reduce_full :
    (rows : List Row) → length (reduce_rows rows) ≡ length rows → reduce_rows rows ≡ rows
unfolding reduce_rows
reduce_full [] h = refl
reduce_full (r ∷ rows) h = elim (Bool-cases (is_deleted r)) [
  | inl e ↦
      let full : length (reduce_rows rows) ≡ suc (length rows) = rw e at h in
      absurd (omega (arith, full, length-reduce rows))
  | inr e ↦
      let full : suc (length (reduce_rows rows)) ≡ suc (length rows) = rw e at h in
      rw e (ap (λ t. r ∷ t) (reduce_full rows (omega (arith, full))))
]
