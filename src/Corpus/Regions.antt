-- ===== src/Corpus/Regions.antt =====
-- The searches find the region of a position.
use Prim.Native.Nat.{compare, Ordering}
use native.Mathlib.Omega.{compare-lt, compare-eq, compare-gt}
use native.Mathlib.Decide.{ℕ_discrete}
use native.Mathlib.Nat.{pow-suc}
use cwb.Base.{
  ℕ, zero, suc, ◌+◌, ◌-◌, ◌*◌, ◌/◌, ◌^◌, ◌≤◌, ◌<◌, ◌≡◌, ◌⊎◌, refl, ap, Option, none, some, List, [],
  ◌∷◌, arith, ltb, get_elem?, get_or, length, Bool-cases, inl, inr,
}

-- Where region i of data with `width` ints for a region starts and ends.
abbrev pub start_of : ℕ → List ℕ → ℕ → ℕ
start_of width contents i = get_or contents (i * width) 0

abbrev pub last_of : ℕ → List ℕ → ℕ → ℕ
last_of width contents i = get_or contents (i * width + 1) 0

-- The n regions lie within the data, one behind the other.
pub record IsRegions (width : ℕ) (contents : List ℕ) (n : ℕ) : Type 0 where
  pub inside : (i : ℕ) → i < n → i * width + 1 < length contents
  pub ordered : (i : ℕ) → i < n → start_of width contents i ≤ last_of width contents i
  pub apart : (i : ℕ) → suc i < n → last_of width contents i < start_of width contents (suc i)

-- The region of a position, or none if it is in no region.
abbrev pub Answers : ℕ → List ℕ → ℕ → ℕ → Option ℕ → Type 0
Answers width contents n position none =
    (i : ℕ) → i < n → (position < start_of width contents i) ⊎ (last_of width contents i < position)
Answers width contents n position (some i) =
    (i < n) × (start_of width contents i ≤ position) × (position ≤ last_of width contents i)

pub get_elem?-get_or : (xs : List ℕ) (i : ℕ) → i < length xs → get_elem? xs i ≡ some (get_or xs i 0)
get_elem?-get_or [] i h = absurd (omega arith)
get_elem?-get_or (x ∷ xs) zero h = refl
get_elem?-get_or (x ∷ xs) (suc i) h = get_elem?-get_or xs i (omega arith)

pub compare-cases :
    (a b : ℕ)
    → ((compare a b ≡ Ordering.lt) × (a < b))
      ⊎ (((compare a b ≡ Ordering.eq) × (a ≡ b)) ⊎ ((compare a b ≡ Ordering.gt) × (b < a)))
compare-cases a b = split (compare a b) refl
  where
    split :
        (o : Ordering)
        → compare a b ≡ o
        → ((compare a b ≡ Ordering.lt) × (a < b))
          ⊎ (((compare a b ≡ Ordering.eq) × (a ≡ b)) ⊎ ((compare a b ≡ Ordering.gt) × (b < a)))
    split Ordering.lt e = inl (e, compare-lt a b e)
    split Ordering.eq e = inr (inl (e, compare-eq a b e))
    split Ordering.gt e = inr (inr (e, compare-gt a b e))

module _ {width n : ℕ} {contents : List ℕ} (v : IsRegions width contents n) where
  pub apart_all : (i j : ℕ) → i < j → j < n → last_of width contents i < start_of width contents j
  apart_all i zero h lt = absurd (omega arith)
  apart_all i (suc j) h lt = elim (ℕ_discrete i j) [
    | yes e ↦
        let a = v.apart i (omega (arith, e, lt)) in
        let same = ap (λ k. start_of width contents (suc k)) e in omega (arith, a, same)
    | no ne ↦
        let before = apart_all i j (omega (arith, ne, h)) (omega (arith, lt)) in
        let o = v.ordered j (omega (arith, lt)) in
        let a = v.apart j lt in omega (arith, before, o, a)
  ]

  pub start_mono : (i j : ℕ) → i ≤ j → j < n → start_of width contents i ≤ start_of width contents j
  start_mono i j h lt = elim (ℕ_discrete i j) [
    | yes e ↦ let same = ap (start_of width contents) e in omega (arith, same)
    | no ne ↦
        let o = v.ordered i (omega (arith, h, lt)) in
        let a = apart_all i j (omega (arith, h, ne)) lt in omega (arith, o, a)
  ]

  last_mono : (i j : ℕ) → i ≤ j → j < n → last_of width contents i ≤ last_of width contents j
  last_mono i j h lt = elim (ℕ_discrete i j) [
    | yes e ↦ let same = ap (last_of width contents) e in omega (arith, same)
    | no ne ↦
        let a = apart_all i j (omega (arith, h, ne)) lt in
        let o = v.ordered j lt in omega (arith, o, a)
  ]

  -- The regions outside of the interval that is still searched do not have the position.
  pub record Bounds (position low high : ℕ) : Type 0 where
    pub within : high ≤ n
    pub below : (i : ℕ) → i < low → i < n → last_of width contents i < position
    pub above : (i : ℕ) → high ≤ i → i < n → position < start_of width contents i

  pub empty-Answers :
      (position low high : ℕ)
      → Bounds position low high
      → high ≤ low
      → Answers width contents n position none
  empty-Answers position low high b h i lt = elim (Bool-cases (ltb i low)) [
    | inl left ↦ inr (b.below i (ground arith) lt)
    | inr right ↦ inl (b.above i (ground (arith, h)) lt)
  ]

  pub right-Bounds :
      (position low high mid : ℕ)
      → Bounds position low high
      → mid < high
      → last_of width contents mid < position
      → Bounds position (mid + 1) high
  right-Bounds position low high mid b h past = record {
    within = b.within;
    below = λ i l lt.
        let m = last_mono i mid (omega (arith, l)) (omega (arith, h, b.within)) in
        omega (arith, m, past);
    above = b.above;
  }

  pub left-Bounds :
      (position low high mid : ℕ)
      → Bounds position low high
      → mid < high
      → position < start_of width contents mid
      → Bounds position low mid
  left-Bounds position low high mid b h before = record {
    within = omega (arith, b.within, h);
    below = b.below;
    above = λ i l lt. let m = start_mono mid i l lt in omega (arith, m, before);
  }

pub halves :
    (nr low high : ℕ)
    → low < high
    → high - low < 2 ^ suc nr
    → let mid = (low + high - 1) / 2 in
      (low ≤ mid) × (mid < high) × (mid - low < 2 ^ nr) × (high - (mid + 1) < 2 ^ nr)
halves nr low high h size =
    let p = pow-suc 2 nr in
    (omega arith, omega arith, omega (arith, p, size, h), omega (arith, p, size, h))
