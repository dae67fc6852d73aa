-- ===== src/Matchlist/Sets.antt =====
-- The tables of match lists as sets of matches.
use cwb.Base.{
  ◌≡◌, refl, ◌∙◌, ◌&&◌, ◌||◌, Bool, true, false, not, List, [], ◌∷◌, arith, if◌then◌else◌,
  Bool-cases, inl, inr,
}
use cwb.Base.Int.{ltb_ℤ, eqb_ℤ}
use cwb.Matchlist.Rows.{Row, is_deleted, same_match, union_rows, intersection_rows}

-- The match is in the table; `ends` says whether its end counts.
unfoldable pub has : Bool → Row → List Row → Bool
has ends k [] = false
has ends k (r ∷ rows) = same_match ends k r || has ends k rows

-- The order of matches.
abbrev pub before : Bool → Row → Row → Bool
before ends a b =
    ltb_ℤ a.start b.start || (eqb_ℤ a.start b.start && ends && ltb_ℤ a.end_pos b.end_pos)

-- All rows come after the match.
unfoldable pub all_after : Bool → Row → List Row → Bool
all_after ends k [] = true
all_after ends k (r ∷ rows) = before ends k r && all_after ends k rows

-- Each row comes before all later ones.
unfoldable pub is_sorted : Bool → List Row → Bool
unfolding all_after
is_sorted ends [] = true
is_sorted ends (r ∷ rows) = all_after ends r rows && is_sorted ends rows

-- The tests of one round of the loops, in their order.
abbrev pub choose {ℓ} :
    {A : Type ℓ} → Bool → Bool → Bool → Bool → Bool → Bool → A → A → A → A → A → A → A → A
choose dx dy lt gt same lt_end l1 r1 l2 r2 b l3 r3 =
    if dx
    then l1
    else (if dy
        then r1
        else (if lt
            then l2
            else (if gt then r2 else (if same then b else (if lt_end then l3 else r3)))))

pub apply-choose {ℓ} :
    {B : Type ℓ} (f : List Row → B) (dx dy lt gt same lt_end : Bool)
    (l1 r1 l2 r2 b l3 r3 : List Row)
    → f (choose dx dy lt gt same lt_end l1 r1 l2 r2 b l3 r3)
      ≡ choose dx dy lt gt same lt_end (f l1) (f r1) (f l2) (f r2) (f b) (f l3) (f r3)
apply-choose f true dy lt gt same lt_end l1 r1 l2 r2 b l3 r3 = refl
apply-choose f false true lt gt same lt_end l1 r1 l2 r2 b l3 r3 = refl
apply-choose f false false true gt same lt_end l1 r1 l2 r2 b l3 r3 = refl
apply-choose f false false false true same lt_end l1 r1 l2 r2 b l3 r3 = refl
apply-choose f false false false false true lt_end l1 r1 l2 r2 b l3 r3 = refl
apply-choose f false false false false false true l1 r1 l2 r2 b l3 r3 = refl
apply-choose f false false false false false false l1 r1 l2 r2 b l3 r3 = refl

-- A round of the union, on what the rest of it has.
choose-or :
    (dx dy lt gt same lt_end sx sy p q l r b : Bool)
    → (dx ≡ true → sx ≡ false)
    → (dy ≡ true → sy ≡ false)
    → (lt ≡ false → gt ≡ false → same ≡ true → sx ≡ sy)
    → l ≡ (p || (sy || q))
    → r ≡ ((sx || p) || q)
    → b ≡ (p || q)
    → choose dx dy lt gt same lt_end l r (sx || l) (sy || r) (sx || b) (sx || l) (sy || r)
      ≡ ((sx || p) || (sy || q))
choose-or dx dy lt gt same lt_end sx sy p q l r b ex ey es el er eb =
    ground (arith, ex, ey, es, el, er, eb)

pub deleted-same :
    (ends : Bool) (k x : Row)
    → is_deleted k ≡ false
    → is_deleted x ≡ true
    → same_match ends k x ≡ false
deleted-same ends k x live e = ground arith

equal-same :
    (ends : Bool) (k x y : Row)
    → ltb_ℤ x.start y.start ≡ false
    → ltb_ℤ y.start x.start ≡ false
    → (not ends || eqb_ℤ x.end_pos y.end_pos) ≡ true
    → same_match ends k x ≡ same_match ends k y
equal-same ends k x y h1 h2 h3 = ground arith

-- A match is in the union of two tables exactly when it is in one of them.
pub union_rows-has :
    (ends : Bool) (k : Row) (xs ys : List Row)
    → is_deleted k ≡ false
    → has ends k (union_rows ends xs ys) ≡ (has ends k xs || has ends k ys)
unfolding union_rows has
union_rows-has ends k [] [] live = refl
union_rows-has ends k (x ∷ xs) [] live =
    let rest = union_rows-has ends k xs [] live in
    elim (Bool-cases (is_deleted x)) [
      | inl e ↦ rw (e, deleted-same ends k x live e) rest
      | inr e ↦ rw (e, rest, has) (ground arith)
    ]
union_rows-has ends k [] (y ∷ ys) live =
    let rest = union_rows-has ends k [] ys live in
    elim (Bool-cases (is_deleted y)) [
      | inl e ↦ rw (e, deleted-same ends k y live e) rest
      | inr e ↦ rw (e, rest, has) refl
    ]
union_rows-has ends k (x ∷ xs) (y ∷ ys) live =
    let l = union_rows ends xs (y ∷ ys) in
    let r = union_rows ends (x ∷ xs) ys in
    let b = union_rows ends xs ys in
    let dx = is_deleted x in
    let dy = is_deleted y in
    let lt = ltb_ℤ x.start y.start in
    let gt = ltb_ℤ y.start x.start in
    let same = not ends || eqb_ℤ x.end_pos y.end_pos in
    let lt_end = ltb_ℤ x.end_pos y.end_pos in
    apply-choose (has ends k) dx dy lt gt same lt_end l r (x ∷ l) (y ∷ r) (x ∷ b) (x ∷ l) (y ∷ r)
    ∙ choose-or dx dy lt gt same lt_end (same_match ends k x) (same_match ends k y) (has ends k xs)
        (has ends k ys) (has ends k l) (has ends k r) (has ends k b) (deleted-same ends k x live)
        (deleted-same ends k y live) (equal-same ends k x y)
        (union_rows-has ends k xs (y ∷ ys) live) (union_rows-has ends k (x ∷ xs) ys live)
        (union_rows-has ends k xs ys live)

pub before_trans :
    (ends : Bool) (a b c : Row)
    → before ends a b ≡ true
    → before ends b c ≡ true
    → before ends a c ≡ true
before_trans ends a b c h k = ground arith

pub all_after_trans :
    (ends : Bool) (a b : Row) (rows : List Row)
    → before ends a b ≡ true
    → all_after ends b rows ≡ true
    → all_after ends a rows ≡ true
unfolding all_after
all_after_trans ends a b [] h k = refl
all_after_trans ends a b (c ∷ rows) h k =
    ground (arith, before_trans ends a b c h, all_after_trans ends a b rows h)

after-has :
    (ends : Bool) (k : Row) (rows : List Row)
    → all_after ends k rows ≡ true
    → has ends k rows ≡ false
unfolding all_after has
after-has ends k [] h = refl
after-has ends k (r ∷ rows) h = ground (arith, after-has ends k rows)

pub both : (s t : Bool) → (s && t) ≡ true → (s ≡ true) × (t ≡ true)
both s t h = ground arith

-- A match that comes before a sorted table, or is equal to one that does, is not in it.
before-absent :
    (ends : Bool) (k x y : Row) (ys : List Row)
    → before ends x y ≡ true
    → all_after ends y ys ≡ true
    → same_match ends k x ≡ true
    → (same_match ends k y || has ends k ys) ≡ false
before-absent ends k x y ys h after same =
    let first : before ends k y ≡ true = ground arith in
    let other : same_match ends k y ≡ false = ground arith in
    let rest = after-has ends k ys (all_after_trans ends k y ys first after) in rw (other, rest)

-- The tests of a round, as the order of the two matches.
pub tests-before :
    (ends : Bool) (x y : Row)
    → (ltb_ℤ x.start y.start ≡ true → before ends x y ≡ true)
      × (ltb_ℤ x.start y.start ≡ false
          → ltb_ℤ y.start x.start ≡ false
          → (not ends || eqb_ℤ x.end_pos y.end_pos) ≡ false
          → (ltb_ℤ x.end_pos y.end_pos ≡ true → before ends x y ≡ true)
            × (ltb_ℤ x.end_pos y.end_pos ≡ false → before ends y x ≡ true))
tests-before ends x y = (λ h. ground arith, λ h1 h2 h3. (λ h. ground arith, λ h. ground arith))

-- A round of the intersection, on what the rest of it has.
choose-and :
    (lt gt same lt_end sx sy p q l r b before_xy before_yx : Bool)
    → (lt ≡ true → before_xy ≡ true)
    → (gt ≡ true → before_yx ≡ true)
    → (lt ≡ false
        → gt ≡ false
        → same ≡ false
        → (lt_end ≡ true → before_xy ≡ true) × (lt_end ≡ false → before_yx ≡ true))
    → (before_xy ≡ true → sx ≡ true → (sy || q) ≡ false)
    → (before_yx ≡ true → sy ≡ true → (sx || p) ≡ false)
    → (lt ≡ false → gt ≡ false → same ≡ true → sx ≡ sy)
    → l ≡ (p && (sy || q))
    → r ≡ ((sx || p) && q)
    → b ≡ (p && q)
    → choose false false lt gt same lt_end l r l r (sx || b) l r ≡ ((sx || p) && (sy || q))
choose-and lt gt same lt_end sx sy p q l r b bxy byx h1 h2 h3 ax ay es el er eb =
    ground (arith, h1, h2, h3, ax, ay, es, el, er, eb)

-- A match is in the intersection of two sorted tables exactly when it is in both.
pub intersection_rows-has :
    (ends : Bool) (k : Row) (xs ys : List Row)
    → is_sorted ends xs ≡ true
    → is_sorted ends ys ≡ true
    → has ends k (intersection_rows ends xs ys) ≡ (has ends k xs && has ends k ys)
unfolding intersection_rows has is_sorted
intersection_rows-has ends k [] ys sx sy = refl
intersection_rows-has ends k (x ∷ xs) [] sx sy = ground arith
intersection_rows-has ends k (x ∷ xs) (y ∷ ys) sx sy =
    let l = intersection_rows ends xs (y ∷ ys) in
    let r = intersection_rows ends (x ∷ xs) ys in
    let b = intersection_rows ends xs ys in
    let lt = ltb_ℤ x.start y.start in
    let gt = ltb_ℤ y.start x.start in
    let same = not ends || eqb_ℤ x.end_pos y.end_pos in
    let lt_end = ltb_ℤ x.end_pos y.end_pos in
    let (ax, tx) = both (all_after ends x xs) (is_sorted ends xs) sx in
    let (ay, ty) = both (all_after ends y ys) (is_sorted ends ys) sy in
    apply-choose (has ends k) false false lt gt same lt_end l r l r (x ∷ b) l r
    ∙ choose-and lt gt same lt_end (same_match ends k x) (same_match ends k y) (has ends k xs)
        (has ends k ys) (has ends k l) (has ends k r) (has ends k b) (before ends x y)
        (before ends y x) (tests-before ends x y).0 (tests-before ends y x).0
        (tests-before ends x y).1 (λ h. before-absent ends k x y ys h ay)
        (λ h. before-absent ends k y x xs h ax) (equal-same ends k x y)
        (intersection_rows-has ends k xs (y ∷ ys) tx sy)
        (intersection_rows-has ends k (x ∷ xs) ys sx ty) (intersection_rows-has ends k xs ys tx ty)
