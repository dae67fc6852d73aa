-- ===== src/Bitfield/Count.antt =====
-- Sums of bits, for the running count in a bit field.
use cwb.Base.{ℕ, zero, suc, ◌+◌, ◌*◌, ◌≤◌, ◌<◌, ◌≡◌, ◌≢◌, refl, arith}
use native.Mathlib.Decide.{ℕ_discrete}

-- f 0 + ... + f (n - 1)
pub count : ℕ → (ℕ → ℕ) → ℕ
count zero f = 0
count (suc n) f = f n + count n f

pub count_congr : (n : ℕ) (f g : ℕ → ℕ) → ((j : ℕ) → j < n → g j ≡ f j) → count n g ≡ count n f
unfolding count
count_congr zero f g h = refl
count_congr (suc n) f g h =
    omega (arith, h n (omega arith), count_congr n f g (λ j lt. h j (omega arith)))

-- A change at one place changes the sum by as much.
pub count_update :
    (n e : ℕ) (f g : ℕ → ℕ)
    → e < n
    → ((j : ℕ) → j < n → j ≢ e → g j ≡ f j)
    → count n g + f e ≡ count n f + g e
unfolding count
count_update zero e f g h same = absurd (omega arith)
count_update (suc n) e f g h same = elim (ℕ_discrete n e) [
  | yes p ↦
      (rw (← p) (omega (arith, count_congr n f g (λ j lt. same j (omega arith) (omega arith)))))
  | no p ↦ omega (
    arith,
    same n (omega arith) p,
    count_update n e f g (omega arith) (λ j lt. same j (omega arith)),
  )
]

pub count_const : (n : ℕ) (f : ℕ → ℕ) (b : ℕ) → ((j : ℕ) → j < n → f j ≡ b) → count n f ≡ n * b
unfolding count
count_const zero f b h = omega arith
count_const (suc n) f b h =
    omega (arith, h n (omega arith), count_const n f b (λ j lt. h j (omega arith)))

-- A bit that is set is counted.
pub count-pos : (n e : ℕ) (f : ℕ → ℕ) → e < n → f e ≤ count n f
unfolding count
count-pos zero e f h = absurd (omega arith)
count-pos (suc n) e f h = elim (ℕ_discrete n e) [
  | yes p ↦ rw p (omega arith)
  | no p ↦ omega (arith, count-pos n e f (omega arith))
]
