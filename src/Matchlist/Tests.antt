-- ===== src/Matchlist/Tests.antt =====
-- cqp/matchlist.c at concrete inputs.
use cwb.Base.{Bool, ℕ, ◌+◌, ◌≡◌, refl, ◌&&◌, ◌||◌, true, false, not, none, some, [], ◌∷◌, arith}
use cwb.Base.Int.{pos, negsuc}
use cwb.Matchlist.Rows.{Row, is_deleted, union_rows}
use cwb.Matchlist.Setop.{
  Matchlist, union, intersection, complement, uniq, reduce, table, tabsize, init_matchlist, setop,
}
use cwb.Matchlist.Sets.{has, is_sorted, all_after}
use cwb.Matchlist.Passes.{between, in_range, ascends}
use cwb.Matchlist.Operations.{
  with_rows, setop-intersection, setop-union_inverted, setop-complement, setop-uniq, setop-reduce,
}

abbrev match_at : ℕ → ℕ → Row
match_at s e = record { start = pos s; end_pos = pos e; target = negsuc 0; keyword = negsuc 0 }

abbrev first : Matchlist
first = record init_matchlist { rows = some (match_at 2 3 ∷ match_at 5 5 ∷ []); with_end = true }

abbrev second : Matchlist
second = record init_matchlist { rows = some (match_at 2 4 ∷ match_at 5 5 ∷ []); with_end = true }

union_test :
    union_rows true (match_at 2 3 ∷ match_at 5 5 ∷ []) (match_at 2 4 ∷ match_at 5 5 ∷ [])
    ≡ match_at 2 3 ∷ match_at 2 4 ∷ match_at 5 5 ∷ []
unfolding union_rows
union_test = refl

first-sorted : is_sorted true (table first) ≡ true
unfolding is_sorted all_after
first-sorted = refl

second-sorted : is_sorted true (table second) ≡ true
unfolding is_sorted all_after
second-sorted = refl

setop-intersection_example :
    (r : Matchlist) × (setop 2 none intersection first second ≡ some (r, second, 1))
    × (r.is_inverted ≡ false)
    × ((k : Row) → has true k (table r) ≡ (has true k (table first) && has true k (table second)))
setop-intersection_example =
    setop-intersection 1 none first second (omega arith) (omega arith) refl refl first-sorted
      second-sorted

abbrev not_first : Matchlist
not_first = record first { is_inverted = true }

abbrev not_second : Matchlist
not_second = record second { is_inverted = true }

setop-union_inverted_example :
    (r : Matchlist) × (setop 2 none union not_first not_second ≡ some (r, second, 1))
    × (r.is_inverted ≡ true)
    × ((k : Row)
        → not (has true k (table r))
          ≡ (not (has true k (table first)) || not (has true k (table second))))
setop-union_inverted_example =
    setop-union_inverted 0 none not_first not_second refl refl (omega arith) (omega arith) refl refl
      first-sorted second-sorted

abbrev positions : Matchlist
positions = record init_matchlist { rows = some (match_at 2 0 ∷ match_at 5 0 ∷ []) }

positions-sorted : is_sorted false (table positions) ≡ true
unfolding is_sorted all_after
positions-sorted = refl

positions-in_range : in_range 0 9 (table positions) ≡ true
unfolding in_range
positions-in_range = refl

setop-complement_example :
    (r : Matchlist) × (setop 1 (some 9) complement positions init_matchlist
      ≡ some (r, init_matchlist, 1))
    × (r.is_inverted ≡ false)
    × (tabsize r + 2 ≡ 9)
    × ((k : Row)
        → has false k (table r) ≡ (between 0 9 k.start && not (has false k (table positions))))
setop-complement_example =
    setop-complement 0 9 positions init_matchlist refl refl (omega arith) (omega arith)
      positions-sorted positions-in_range

setop-uniq_example :
    (r : Matchlist) × (setop 1 none uniq
        (with_rows first (match_at 2 3) (match_at 2 3 ∷ []))
        init_matchlist
      ≡ some (r, init_matchlist, 1))
    × ((k : Row) → has true k (table r) ≡ has true k (match_at 2 3 ∷ match_at 2 3 ∷ []))
    × (ascends true (match_at 2 3) (match_at 2 3 ∷ []) ≡ true → is_sorted true (table r) ≡ true)
setop-uniq_example = setop-uniq 0 none first init_matchlist (match_at 2 3) (match_at 2 3 ∷ [])

abbrev deleted : Row
deleted = record (match_at 0 0) { start = negsuc 0 }

setop-reduce_example :
    (r : Matchlist) × (setop 1 none reduce
        (with_rows first deleted (match_at 2 3 ∷ []))
        init_matchlist
      ≡ some (r, init_matchlist, 1))
    × ((ends : Bool) (k : Row)
        → has ends k (table r) ≡ (not (is_deleted k) && has ends k (deleted ∷ match_at 2 3 ∷ [])))
setop-reduce_example = setop-reduce 0 none first init_matchlist deleted (match_at 2 3 ∷ [])
