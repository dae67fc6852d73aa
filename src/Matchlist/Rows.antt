-- ===== src/Matchlist/Rows.antt =====
-- cqp/matchlist.c: the loops over the tables of matches. A row stands for the cells at one index of
-- the four parallel arrays; `ends` says that the tables compared have end positions.
use cwb.Base.{
  ℕ, zero, suc, ◌+◌, ◌&&◌, ◌||◌, Bool, not, Option, none, some, List, [], ◌∷◌, if◌then◌else◌,
}
use cwb.Base.Int.{ℤ, pos, negsuc, ltb_ℤ, eqb_ℤ}

pub record Row : Type 0 where
  pub start : ℤ
  pub end_pos : ℤ
  pub target : ℤ
  pub keyword : ℤ

-- `start[i] == -1`: a deleted match.
abbrev pub is_deleted : Row → Bool
is_deleted r = eqb_ℤ r.start (negsuc 0)

-- The loop of Union.
unfoldable pub union_rows : Bool → List Row → List Row → List Row
union_rows ends [] [] = []
union_rows ends (x ∷ xs) [] =
    let rest = union_rows ends xs [] in if is_deleted x then rest else x ∷ rest
union_rows ends [] (y ∷ ys) =
    let rest = union_rows ends [] ys in if is_deleted y then rest else y ∷ rest
union_rows ends (x ∷ xs) (y ∷ ys) =
    let next_left = union_rows ends xs (y ∷ ys) in
    let next_right = union_rows ends (x ∷ xs) ys in
    let next_both = union_rows ends xs ys in
    if is_deleted x
    then next_left
    else (if is_deleted y
        then next_right
        else (if ltb_ℤ x.start y.start
            then x ∷ next_left
            else (if ltb_ℤ y.start x.start
                then y ∷ next_right
                else (if not ends || eqb_ℤ x.end_pos y.end_pos
                    then x ∷ next_both
                    else (if ltb_ℤ x.end_pos y.end_pos then x ∷ next_left else y ∷ next_right)))))

-- The loop of Intersection.
unfoldable pub intersection_rows : Bool → List Row → List Row → List Row
intersection_rows ends [] ys = []
intersection_rows ends (x ∷ xs) [] = []
intersection_rows ends (x ∷ xs) (y ∷ ys) =
    let next_left = intersection_rows ends xs (y ∷ ys) in
    let next_right = intersection_rows ends (x ∷ xs) ys in
    let next_both = intersection_rows ends xs ys in
    if ltb_ℤ x.start y.start
    then next_left
    else (if ltb_ℤ y.start x.start
        then next_right
        else (if not ends || eqb_ℤ x.end_pos y.end_pos
            then x ∷ next_both
            else (if ltb_ℤ x.end_pos y.end_pos then next_left else next_right)))

-- `for (k = 0; k < i; k++)` of Complement, with the rounds left; `none` is the failed assertion.
-- The arrays but `start` are NULL in the result.
unfoldable pub complement_rows : ℕ → ℕ → List Row → Option (List Row)
complement_rows zero k rows = some []
complement_rows (suc left) k [] = elim (complement_rows left (k + 1) []) [
  | none ↦ none
  | some rest ↦
      some (record { start = pos k; end_pos = pos 0; target = pos 0; keyword = pos 0 } ∷ rest)
]
complement_rows (suc left) k (r ∷ rows) =
    let outside = complement_rows left (k + 1) (r ∷ rows) in
    let inside = complement_rows left (k + 1) rows in
    let taken : Option (List Row) = elim outside [
      | none ↦ none
      | some rest ↦
          some (record { start = pos k; end_pos = pos 0; target = pos 0; keyword = pos 0 } ∷ rest)
    ] in
    if ltb_ℤ (pos k) r.start then taken else if eqb_ℤ (pos k) r.start then inside else none

-- The test of Uniq: the row differs from the one inserted last.
abbrev pub same_match : Bool → Row → Row → Bool
same_match ends a b = eqb_ℤ a.start b.start && (not ends || eqb_ℤ a.end_pos b.end_pos)

-- The loops of Uniq after the first round, which inserts its row.
unfoldable pub uniq_after : Bool → Row → List Row → List Row
uniq_after ends last [] = []
uniq_after ends last (r ∷ rows) =
    let skipped = uniq_after ends last rows in
    let inserted = r ∷ uniq_after ends r rows in
    if same_match ends r last then skipped else inserted

unfoldable pub uniq_rows : Bool → List Row → List Row
unfolding uniq_after
uniq_rows ends [] = []
uniq_rows ends (r ∷ rows) = r ∷ uniq_after ends r rows

-- The loops of Reduce.
unfoldable pub reduce_rows : List Row → List Row
reduce_rows [] = []
reduce_rows (r ∷ rows) = let rest = reduce_rows rows in if is_deleted r then rest else r ∷ rest
