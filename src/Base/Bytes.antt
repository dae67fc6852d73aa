-- ===== src/Base/Bytes.antt =====
-- Facts about the bit operations on bytes, checked over all 256 values by evaluation.
use Prim.Native.Nat.{ℕ, zero, suc, ◌<◌, compare, Ordering}
use mathlib.Core.Path.{◌≡◌}
use mathlib.Core.Bool.{Bool, true, false, ◌&&◌}
use native.Mathlib.Omega.{arith}

infix 50 ◌==◌
abbrev ◌==◌ : ℕ → ℕ → Bool
a == b = elim (compare a b) [ Ordering.eq ↦ true | _ ↦ false ]

-- The test holds for all numbers below the bound.
unfoldable pub holds_below : ℕ → (ℕ → Bool) → Bool
holds_below zero test = true
holds_below (suc bound) test = holds_below bound test && test bound

pub holds_below-lt :
    (bound : ℕ) (test : ℕ → Bool) (i : ℕ)
    → holds_below bound test ≡ true
    → i < bound
    → test i ≡ true
unfolding holds_below
holds_below-lt zero test i all lt = absurd (omega arith)
holds_below-lt (suc bound) test i all lt = ground (arith, holds_below-lt bound test i)

-- Check a test on a byte, and on a byte with one bit number or with two.
abbrev pub OnBytes : (ℕ → Bool) → Type 0
OnBytes p = holds_below 256 p ≡ true

pub bytes_one :
    (p : ℕ → ℕ → Bool)
    → OnBytes (λ x. holds_below 8 (p x))
    → (x k : ℕ) → x < 256
    → k < 8
    → p x k ≡ true
bytes_one p t x k hx hk = holds_below-lt 8 (p x) k (holds_below-lt 256 _ x t hx) hk

pub bytes_two :
    (p : ℕ → ℕ → ℕ → Bool)
    → OnBytes (λ x. holds_below 8 (λ k. holds_below 8 (p x k)))
    → (x k j : ℕ) → x < 256
    → k < 8
    → j < 8
    → p x k j ≡ true
bytes_two p t x k j hx hk hj =
    holds_below-lt 8 (p x k) j (bytes_one (λ x k. holds_below 8 (p x k)) t x k hx hk) hj
