-- ===== src/Matchlist/Order.antt =====
-- The loops of Union, Complement, Uniq and Reduce keep tables sorted.
use cwb.Base.{
  ◌≡◌, refl, ◌∙◌, ◌&&◌, ◌||◌, Bool, true, false, not, List, [], ◌∷◌, arith, Bool-cases, inl, inr,
}
use cwb.Base.Int.{ltb_ℤ, eqb_ℤ}
use cwb.Matchlist.Rows.{Row, is_deleted, union_rows}
use cwb.Matchlist.Sets.{
  before, all_after, is_sorted, choose, apply-choose, both, tests-before, all_after_trans,
}

choose-all :
    (dx dy lt gt same lt_end ax ay l r b : Bool)
    → ax ≡ true
    → ay ≡ true
    → l ≡ true
    → r ≡ true
    → b ≡ true
    → choose dx dy lt gt same lt_end l r (ax && l) (ay && r) (ax && b) (ax && l) (ay && r) ≡ true
choose-all dx dy lt gt same lt_end ax ay l r b hx hy hl hr hb = ground (arith, hx, hy, hl, hr, hb)

-- What comes before both tables comes before their union.
all_after-union :
    (ends : Bool) (k : Row) (xs ys : List Row)
    → all_after ends k xs ≡ true
    → all_after ends k ys ≡ true
    → all_after ends k (union_rows ends xs ys) ≡ true
unfolding union_rows all_after
all_after-union ends k [] [] hx hy = refl
all_after-union ends k (x ∷ xs) [] hx hy =
    let (first, later) = both (before ends k x) (all_after ends k xs) hx in
    let rest = all_after-union ends k xs [] later hy in
    elim (Bool-cases (is_deleted x)) [
      | inl e ↦ rw e rest
      | inr e ↦ rw (e, all_after, first, rest) refl
    ]
all_after-union ends k [] (y ∷ ys) hx hy =
    let (first, later) = both (before ends k y) (all_after ends k ys) hy in
    let rest = all_after-union ends k [] ys hx later in
    elim (Bool-cases (is_deleted y)) [
      | inl e ↦ rw e rest
      | inr e ↦ rw (e, all_after, first, rest) refl
    ]
all_after-union ends k (x ∷ xs) (y ∷ ys) hx hy =
    let l = union_rows ends xs (y ∷ ys) in
    let r = union_rows ends (x ∷ xs) ys in
    let b = union_rows ends xs ys in
    let dx = is_deleted x in
    let dy = is_deleted y in
    let lt = ltb_ℤ x.start y.start in
    let gt = ltb_ℤ y.start x.start in
    let same = not ends || eqb_ℤ x.end_pos y.end_pos in
    let lt_end = ltb_ℤ x.end_pos y.end_pos in
    let (fx, tx) = both (before ends k x) (all_after ends k xs) hx in
    let (fy, ty) = both (before ends k y) (all_after ends k ys) hy in
    apply-choose (all_after ends k) dx dy lt gt same lt_end l r (x ∷ l) (y ∷ r) (x ∷ b) (x ∷ l)
      (y ∷ r)
    ∙ choose-all dx dy lt gt same lt_end (before ends k x) (before ends k y) (all_after ends k l)
        (all_after ends k r) (all_after ends k b) fx fy (all_after-union ends k xs (y ∷ ys) tx hy)
        (all_after-union ends k (x ∷ xs) ys hx ty) (all_after-union ends k xs ys tx ty)

-- A round of the union, on the order of what follows.
choose-sorted :
    (dx dy lt gt same lt_end bxy byx al ar ab l r b : Bool)
    → (lt ≡ true → bxy ≡ true)
    → (gt ≡ true → byx ≡ true)
    → (lt ≡ false
        → gt ≡ false
        → same ≡ false
        → (lt_end ≡ true → bxy ≡ true) × (lt_end ≡ false → byx ≡ true))
    → (bxy ≡ true → al ≡ true)
    → (byx ≡ true → ar ≡ true)
    → (lt ≡ false → gt ≡ false → same ≡ true → ab ≡ true)
    → l ≡ true
    → r ≡ true
    → b ≡ true
    → choose dx dy lt gt same lt_end l r (al && l) (ar && r) (ab && b) (al && l) (ar && r) ≡ true
choose-sorted dx dy lt gt same lt_end bxy byx al ar ab l r b h1 h2 h3 hl hr hb el er eb =
    ground (arith, h1, h2, h3, hl, hr, hb, el, er, eb)

all_after-equal :
    (ends : Bool) (x y : Row) (rows : List Row)
    → ltb_ℤ x.start y.start ≡ false
    → ltb_ℤ y.start x.start ≡ false
    → (not ends || eqb_ℤ x.end_pos y.end_pos) ≡ true
    → all_after ends y rows ≡ true
    → all_after ends x rows ≡ true
unfolding all_after
all_after-equal ends x y [] h1 h2 h3 h = refl
all_after-equal ends x y (z ∷ rows) h1 h2 h3 h =
    let (first, later) = both (before ends y z) (all_after ends y rows) h in
    let first' : before ends x z ≡ true = ground arith in
    rw (first', all_after-equal ends x y rows h1 h2 h3 later) refl

one_side :
    (ends : Bool) (x : Row) (rows : List Row)
    → all_after ends x rows ≡ true
    → all_after ends x [] ≡ true
unfolding all_after
one_side ends x rows h = refl

after_cons :
    (ends : Bool) (x y : Row) (ys : List Row)
    → before ends x y ≡ true
    → all_after ends y ys ≡ true
    → all_after ends x (y ∷ ys) ≡ true
unfolding all_after
after_cons ends x y ys h after = rw (h, all_after_trans ends x y ys h after) refl

-- The union of two sorted tables is sorted, so that no match stands in it twice.
pub union_rows-sorted :
    (ends : Bool) (xs ys : List Row)
    → is_sorted ends xs ≡ true
    → is_sorted ends ys ≡ true
    → is_sorted ends (union_rows ends xs ys) ≡ true
unfolding union_rows is_sorted
union_rows-sorted ends [] [] hx hy = refl
union_rows-sorted ends (x ∷ xs) [] hx hy =
    let (first, later) = both (all_after ends x xs) (is_sorted ends xs) hx in
    let rest = union_rows-sorted ends xs [] later hy in
    let after = all_after-union ends x xs [] first (one_side ends x xs first) in
    elim (Bool-cases (is_deleted x)) [
      | inl e ↦ rw e rest
      | inr e ↦ rw (e, is_sorted, after, rest) refl
    ]
union_rows-sorted ends [] (y ∷ ys) hx hy =
    let (first, later) = both (all_after ends y ys) (is_sorted ends ys) hy in
    let rest = union_rows-sorted ends [] ys hx later in
    let after = all_after-union ends y [] ys (one_side ends y ys first) first in
    elim (Bool-cases (is_deleted y)) [
      | inl e ↦ rw e rest
      | inr e ↦ rw (e, is_sorted, after, rest) refl
    ]
union_rows-sorted ends (x ∷ xs) (y ∷ ys) hx hy =
    let l = union_rows ends xs (y ∷ ys) in
    let r = union_rows ends (x ∷ xs) ys in
    let b = union_rows ends xs ys in
    let dx = is_deleted x in
    let dy = is_deleted y in
    let lt = ltb_ℤ x.start y.start in
    let gt = ltb_ℤ y.start x.start in
    let same = not ends || eqb_ℤ x.end_pos y.end_pos in
    let lt_end = ltb_ℤ x.end_pos y.end_pos in
    let (ax, tx) = both (all_after ends x xs) (is_sorted ends xs) hx in
    let (ay, ty) = both (all_after ends y ys) (is_sorted ends ys) hy in
    apply-choose (is_sorted ends) dx dy lt gt same lt_end l r (x ∷ l) (y ∷ r) (x ∷ b) (x ∷ l)
      (y ∷ r)
    ∙ choose-sorted dx dy lt gt same lt_end (before ends x y) (before ends y x) (all_after ends x l)
        (all_after ends y r) (all_after ends x b) (is_sorted ends l) (is_sorted ends r)
        (is_sorted ends b) (tests-before ends x y).0 (tests-before ends y x).0
        (tests-before ends x y).1
        (λ h. all_after-union ends x xs (y ∷ ys) ax (after_cons ends x y ys h ay))
        (λ h. all_after-union ends y (x ∷ xs) ys (after_cons ends y x xs h ax) ay)
        (λ h1 h2 h3. all_after-union ends x xs ys ax (all_after-equal ends x y ys h1 h2 h3 ay))
        (union_rows-sorted ends xs (y ∷ ys) tx hy) (union_rows-sorted ends (x ∷ xs) ys hx ty)
        (union_rows-sorted ends xs ys tx ty)
