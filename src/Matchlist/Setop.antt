-- ===== src/Matchlist/Setop.antt =====
-- cqp/matchlist.c: `Matchlist` and `Setop`. The two lists are different objects. `corpus_size` is
-- what `cl_max_cpos` says of the corpus that the query runs on, `none` if there is no such corpus
-- or it cannot be read.
use cwb.Base.{
  ℕ, zero, suc, ◌+◌, ◌&&◌, ◌||◌, Bool, true, false, Option, none, some, List, [], ◌∷◌,
  if◌then◌else◌, ◌==◌, length,
}
use cwb.Matchlist.Rows.{Row, union_rows, intersection_rows, complement_rows, uniq_rows, reduce_rows}

-- `Matchlist`. `rows` is `none` for start == NULL, otherwise it holds tabsize rows; the flags say
-- which of the other arrays are not NULL.
pub record Matchlist : Type 0 where
  pub rows : Option (List Row)
  pub with_end : Bool
  pub with_target : Bool
  pub with_keyword : Bool
  pub matches_whole_corpus : Bool
  pub is_inverted : Bool

-- `MLSetOp`
pub data MlSetOp : Type 0 where
  union : MlSetOp
  intersection : MlSetOp
  complement : MlSetOp
  identity : MlSetOp
  uniq : MlSetOp
  reduce : MlSetOp

abbrev pub table : Matchlist → List Row
table l = elim l.rows [ none ↦ [] | some rows ↦ rows ]

abbrev pub tabsize : Matchlist → ℕ
tabsize l = length (table l)

abbrev pub is_null : Matchlist → Bool
is_null l = elim l.rows [ none ↦ true | some rows ↦ false ]

abbrev pub init_matchlist : Matchlist
init_matchlist = record {
  rows = none;
  with_end = false;
  with_target = false;
  with_keyword = false;
  matches_whole_corpus = false;
  is_inverted = false;
}

unfoldable pub free_matchlist : Matchlist → Matchlist
free_matchlist l = init_matchlist

-- Both lists, with the C result.
abbrev pub Outcome : Type 0
Outcome = Option (Matchlist × Matchlist × ℕ)

-- The array `tmp` that Union and Intersection make has the columns that both lists have.
abbrev pub merged : Option (List Row) → Matchlist → Matchlist → Matchlist
merged rows a b = record {
  rows = rows;
  with_end = a.with_end && b.with_end;
  with_target = a.with_target && b.with_target;
  with_keyword = a.with_keyword && b.with_keyword;
  matches_whole_corpus = false;
  is_inverted = false;
}

-- `cl_realloc` to no rows returns a pointer.
unfoldable pub union_merge : Matchlist → Matchlist → Matchlist
union_merge a b = merged (some (union_rows (a.with_end && b.with_end) (table a) (table b))) a b

-- Without a common row all arrays are freed.
unfoldable pub intersection_result : List Row → Matchlist → Matchlist → Matchlist
unfolding free_matchlist
intersection_result [] a b = free_matchlist a
intersection_result (r ∷ rows) a b = merged (some (r ∷ rows)) a b

unfoldable pub intersection_merge : Matchlist → Matchlist → Matchlist
unfolding intersection_result
intersection_merge a b =
    intersection_result (intersection_rows (a.with_end && b.with_end) (table a) (table b)) a b

-- The list that Complement makes, for a list that is neither inverted nor has end positions; the
-- result of the call is 1. `whole` is the table of all positions.
unfoldable pub complement_initial : ℕ → Matchlist → Option Matchlist
unfolding free_matchlist
complement_initial size l =
    let whole = complement_rows size 0 [] in
    let between = complement_rows size 0 (table l) in
    let freed = free_matchlist l in
    if tabsize l == size
    then some freed
    else (if tabsize l == 0
        then elim whole [
          | none ↦ none
          | some rows ↦ some (record freed { rows = some rows; matches_whole_corpus = true })
        ]
        else elim between [
          | none ↦ none
          | some rows ↦
              if length rows + tabsize l == size
              then some (record freed { rows = some rows })
              else none
        ])

unfoldable pub set_complement : Option ℕ → Matchlist → Option (Matchlist × ℕ)
unfolding complement_initial
set_complement corpus_size l =
    if l.with_end
    then some (l, 0)
    else (if l.is_inverted then some (record l { is_inverted = false }, 1) else elim corpus_size [
      | none ↦ some (l, 0)
      | some size ↦ elim (complement_initial size l) [ none ↦ none | some r ↦ some (r, 1) ]
    ])

unfoldable pub set_identity : Matchlist → Matchlist → Matchlist
unfolding free_matchlist
set_identity a b =
    let freed = free_matchlist a in
    record freed {
      rows = b.rows;
      with_end = b.with_end;
      with_target = b.with_target;
      with_keyword = b.with_keyword;
      matches_whole_corpus = b.matches_whole_corpus;
      is_inverted = b.is_inverted;
    }

-- The flags are reset only if rows were dropped.
unfoldable pub set_uniq : Matchlist → Matchlist
set_uniq l =
    let kept = uniq_rows l.with_end (table l) in
    if tabsize l == 0
    then l
    else (if length kept == tabsize l
        then l
        else record l { rows = some kept; matches_whole_corpus = false; is_inverted = false })

unfoldable pub set_reduce : Matchlist → Matchlist
unfolding free_matchlist
set_reduce l =
    let kept = reduce_rows (table l) in
    if tabsize l == 0
    then l
    else (if length kept == 0
        then free_matchlist l
        else (if length kept == tabsize l
            then l
            else record l { rows = some kept; matches_whole_corpus = false; is_inverted = false }))

-- The last branch of Union: an inverted list is replaced by its complement, where there is one.
abbrev pub upright : Option ℕ → Matchlist → Option Matchlist
upright corpus_size l =
    if l.is_inverted
    then elim (set_complement corpus_size (record l { is_inverted = false })) [
      | none ↦ none
      | some r ↦ some r.0
    ]
    else some l

unfoldable pub set_union :
    (Matchlist → Matchlist → Outcome) → Option ℕ → Matchlist → Matchlist → Outcome
unfolding set_complement
set_union both_inverted corpus_size a b =
    if is_null b
    then (if b.is_inverted then some (set_identity a b, b, 1) else some (a, b, 1))
    else (if is_null a
        then (if a.is_inverted then some (a, b, 1) else some (set_identity a b, b, 1))
        else (if a.is_inverted && b.is_inverted
            then elim (both_inverted (record a { is_inverted = false })
                (record b { is_inverted = false })) [
                  | none ↦ none
                  | some r ↦ some (record (r.0) { is_inverted = true }, r.1, 1)
                ]
            else elim (upright corpus_size a) [
              | none ↦ none
              | some a' ↦ elim (upright corpus_size b) [
                | none ↦ none
                | some b' ↦ some (union_merge a' b', b', 1)
              ]
            ]))

unfoldable pub set_intersection :
    (Matchlist → Matchlist → Outcome) → Matchlist → Matchlist → Outcome
unfolding free_matchlist
set_intersection both_inverted a b =
    if (tabsize a == 0) && a.is_inverted
    then some (set_identity a b, b, 1)
    else (if (tabsize b == 0) && b.is_inverted
        then some (a, b, 1)
        else (if (tabsize a == 0) || (tabsize b == 0)
            then some (free_matchlist a, b, 1)
            else (if a.is_inverted && b.is_inverted
                then elim (both_inverted (record a { is_inverted = false })
                    (record b { is_inverted = false })) [
                      | none ↦ none
                      | some r ↦ some (record (r.0) { is_inverted = true }, r.1, 1)
                    ]
                else some (intersection_merge a b, b, 1))))

-- `Setop`, with the depth of its calls of itself as fuel.
unfoldable pub setop : ℕ → Option ℕ → MlSetOp → Matchlist → Matchlist → Outcome
unfolding set_union set_intersection
setop zero corpus_size op a b = none
setop (suc depth) corpus_size union a b =
    set_union (λ x y. setop depth corpus_size intersection x y) corpus_size a b
setop (suc depth) corpus_size intersection a b =
    set_intersection (λ x y. setop depth corpus_size union x y) a b
setop (suc depth) corpus_size complement a b = elim (set_complement corpus_size a) [
  | none ↦ none
  | some r ↦ some (r.0, b, r.1)
]
setop (suc depth) corpus_size identity a b = some (set_identity a b, b, 1)
setop (suc depth) corpus_size uniq a b = some (set_uniq a, b, 1)
setop (suc depth) corpus_size reduce a b = some (set_reduce a, b, 1)
