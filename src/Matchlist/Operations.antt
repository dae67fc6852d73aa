-- ===== src/Matchlist/Operations.antt =====
-- `Setop` as operations on sets of matches.
use native.Mathlib.Nat.{zero-add}
use cwb.Base.{
  ℕ, suc, ◌+◌, ◌<◌, ◌≡◌, refl, sym, ap, ◌∙◌, ◌&&◌, ◌||◌, Bool, true, false, not, Option, some, List,
  [], ◌∷◌, arith, ◌==◌, length, Bool-cases, inl, inr,
}
use cwb.Matchlist.Rows.{
  reduce_rows, Row, is_deleted, intersection_rows, complement_rows, uniq_rows, uniq_after,
}
use cwb.Matchlist.Setop.{
  Matchlist, union, intersection, complement, uniq, reduce, table, tabsize, is_null, init_matchlist,
  free_matchlist, intersection_merge, intersection_result, complement_initial, set_complement,
  set_uniq, set_reduce, set_union, set_intersection, setop,
}
use cwb.Matchlist.Sets.{has, is_sorted, intersection_rows-has}
use cwb.Matchlist.Passes.{
  reduce_full, reduce_rows-has, between, in_range, complement_rows-Complements, ascends,
  uniq_rows-has, uniq_rows-sorted, uniq_after_full,
}

-- Both lists have end positions.
abbrev pub ends_of : Matchlist → Matchlist → Bool
ends_of a b = a.with_end && b.with_end

intersection_result-table :
    (rows : List Row) (a b : Matchlist)
    → (table (intersection_result rows a b) ≡ rows)
      × ((intersection_result rows a b).is_inverted ≡ false)
unfolding intersection_result free_matchlist
intersection_result-table [] a b = (refl, refl)
intersection_result-table (r ∷ rows) a b = (refl, refl)

-- On two non-empty lists that are not inverted and whose tables are sorted Intersection returns 1
-- and leaves the second list as it is; the first becomes a list, not inverted, that has a match
-- exactly when both had it.
pub setop-intersection :
    (depth : ℕ) (size : Option ℕ) (a b : Matchlist)
    → 0 < tabsize a
    → 0 < tabsize b
    → a.is_inverted ≡ false
    → b.is_inverted ≡ false
    → is_sorted (ends_of a b) (table a) ≡ true
    → is_sorted (ends_of a b) (table b) ≡ true
    → (r : Matchlist) × (setop (suc depth) size intersection a b ≡ some (r, b, 1))
      × (r.is_inverted ≡ false)
      × ((k : Row)
          → has (ends_of a b) k (table r)
            ≡ (has (ends_of a b) k (table a) && has (ends_of a b) k (table b)))
unfolding setop set_intersection intersection_merge
setop-intersection depth size a b ta tb ia ib sa sb =
    let na : (tabsize a == 0) ≡ false = ground arith in
    let nb : (tabsize b == 0) ≡ false = ground arith in
    let rows = intersection_rows (ends_of a b) (table a) (table b) in
    let (contents, upright) = intersection_result-table rows a b in
    (
      intersection_result rows a b,
      rw (na, nb, ia, ib) refl,
      upright,
      λ k.
          ap (has (ends_of a b) k) contents
          ∙ intersection_rows-has (ends_of a b) k (table a) (table b) sa sb,
    )

-- For two inverted lists, non-empty and sorted, whose matches are the positions not in their tables,
-- Union intersects the tables and gives an inverted list: a match is out of the table of the result
-- exactly when it is out of one of the two. The second list is left not inverted.
pub setop-union_inverted :
    (depth : ℕ) (size : Option ℕ) (a b : Matchlist)
    → is_null a ≡ false
    → is_null b ≡ false
    → 0 < tabsize a
    → 0 < tabsize b
    → a.is_inverted ≡ true
    → b.is_inverted ≡ true
    → is_sorted (ends_of a b) (table a) ≡ true
    → is_sorted (ends_of a b) (table b) ≡ true
    → (r : Matchlist) × (setop (suc (suc depth)) size union a b
        ≡ some (r, record b { is_inverted = false }, 1))
      × (r.is_inverted ≡ true)
      × ((k : Row)
          → not (has (ends_of a b) k (table r))
            ≡ (not (has (ends_of a b) k (table a)) || not (has (ends_of a b) k (table b))))
unfolding setop set_union
setop-union_inverted depth size a b na nb ta tb ia ib sa sb =
    let a' = record a { is_inverted = false } in
    let b' = record b { is_inverted = false } in
    let (r, run, upright, contents) = setop-intersection depth size a' b' ta tb refl refl sa sb in
    (
      record r { is_inverted = true },
      rw (na, nb, ia, ib, run) refl,
      refl,
      λ k.
          rw (contents k)
            (de_morgan (has (ends_of a b) k (table a)) (has (ends_of a b) k (table b))),
    )
  where
    de_morgan : (p q : Bool) → not (p && q) ≡ (not p || not q)
    de_morgan p q = ground arith

set_complement-initial :
    (size : ℕ) (a : Matchlist) (res : List Row)
    → a.with_end ≡ false
    → a.is_inverted ≡ false
    → (tabsize a == size) ≡ false
    → (tabsize a == 0) ≡ false
    → complement_rows size 0 (table a) ≡ some res
    → (length res + tabsize a == size) ≡ true
    → set_complement (some size) a ≡ some (record init_matchlist { rows = some res }, 1)
unfolding set_complement complement_initial free_matchlist
set_complement-initial size a res we ia full empty run sizes =
    simp (we, ia, full, empty, run, sizes)

-- A list of positions, sorted and within the corpus, that is neither empty nor the whole corpus, has
-- no end positions and is not inverted: Complement fails no assertion and returns 1; the list then
-- has the positions of the corpus that it had not, and no others, and is not inverted.
pub setop-complement :
    (depth size : ℕ) (a b : Matchlist)
    → a.with_end ≡ false
    → a.is_inverted ≡ false
    → 0 < tabsize a
    → tabsize a < size
    → is_sorted false (table a) ≡ true
    → in_range 0 size (table a) ≡ true
    → (r : Matchlist) × (setop (suc depth) (some size) complement a b ≡ some (r, b, 1))
      × (r.is_inverted ≡ false)
      × (tabsize r + tabsize a ≡ size)
      × ((k : Row)
          → has false k (table r) ≡ (between 0 size k.start && not (has false k (table a))))
unfolding setop
setop-complement depth size a b we ia some_rows less sorted range =
    let (res, run, c) =
      complement_rows-Complements size 0 (table a) sorted (rw (zero-add size) range) in
    let full : (tabsize a == size) ≡ false = ground arith in
    let empty : (tabsize a == 0) ≡ false = ground arith in
    let sizes : (length res + tabsize a == size) ≡ true = ground (arith, c.size) in
    let done = set_complement-initial size a res we ia full empty run sizes in
    (
      record init_matchlist { rows = some res },
      rw (setop, done) refl,
      refl,
      c.size,
      λ k. rw (zero-add size) at (c.contents k),
    )

abbrev pub with_rows : Matchlist → Row → List Row → Matchlist
with_rows a first rows = record a { rows = some (first ∷ rows) }

set_uniq-table :
    (a : Matchlist) (first : Row) (rows : List Row)
    → table (set_uniq (with_rows a first rows)) ≡ uniq_rows a.with_end (first ∷ rows)
unfolding set_uniq uniq_rows
set_uniq-table a first rows =
    let kept = uniq_after a.with_end first rows in
    let n : (suc (length rows) == 0) ≡ false = ground arith in
    elim (Bool-cases (suc (length kept) == suc (length rows))) [
      | inl same ↦
          rw (n, same)
            (ap (λ t. first ∷ t) (sym (uniq_after_full a.with_end first rows (ground arith))))
      | inr less ↦ rw (n, less) refl
    ]

-- Uniq on a list with rows returns 1. The list has the same matches as before, and if no match in it
-- came before the one in front of it, its table is sorted afterwards, so that no match stands in it
-- twice.
pub setop-uniq :
    (depth : ℕ) (size : Option ℕ) (a b : Matchlist) (first : Row) (rows : List Row)
    → (r : Matchlist) × (setop (suc depth) size uniq (with_rows a first rows) b ≡ some (r, b, 1))
      × ((k : Row) → has a.with_end k (table r) ≡ has a.with_end k (first ∷ rows))
      × (ascends a.with_end first rows ≡ true → is_sorted a.with_end (table r) ≡ true)
unfolding setop
setop-uniq depth size a b first rows =
    let contents = set_uniq-table a first rows in
    (
      set_uniq (with_rows a first rows),
      refl,
      λ k. ap (has a.with_end k) contents ∙ uniq_rows-has a.with_end k (first ∷ rows),
      λ h. ap (is_sorted a.with_end) contents ∙ uniq_rows-sorted a.with_end first rows h,
    )

empty-table : (rows : List Row) → (length rows == 0) ≡ true → [] ≡ rows
empty-table [] h = refl
empty-table (r ∷ rows) h = absurd (ground arith)

set_reduce-table :
    (a : Matchlist) (first : Row) (rows : List Row)
    → table (set_reduce (with_rows a first rows)) ≡ reduce_rows (first ∷ rows)
unfolding set_reduce free_matchlist
set_reduce-table a first rows =
    let kept = reduce_rows (first ∷ rows) in
    let n : (suc (length rows) == 0) ≡ false = ground arith in
    elim (Bool-cases (length kept == 0)) [
      | inl z ↦ rw (n, z) (empty-table kept z)
      | inr nz ↦ elim (Bool-cases (length kept == suc (length rows))) [
        | inl same ↦ rw (n, nz, same) (sym (reduce_full (first ∷ rows) (ground arith)))
        | inr less ↦ rw (n, nz, less) refl
      ]
    ]

-- Reduce on a list with rows returns 1, and the list then has exactly the matches that it had and that
-- are not marked as deleted.
pub setop-reduce :
    (depth : ℕ) (size : Option ℕ) (a b : Matchlist) (first : Row) (rows : List Row)
    → (r : Matchlist) × (setop (suc depth) size reduce (with_rows a first rows) b ≡ some (r, b, 1))
      × ((ends : Bool) (k : Row)
          → has ends k (table r) ≡ (not (is_deleted k) && has ends k (first ∷ rows)))
unfolding setop
setop-reduce depth size a b first rows = (
  set_reduce (with_rows a first rows),
  refl,
  λ ends k. ap (has ends k) (set_reduce-table a first rows) ∙ reduce_rows-has ends k (first ∷ rows),
)
