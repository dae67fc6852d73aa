-- ===== src/BitIo/Bits.antt =====
-- Bit strings, most significant bit first.
use mathlib.Core.List.{append_assoc}
use native.Mathlib.Nat.{pow-suc, div-div-eq-div-mul}
use cwb.Base.{
  ℕ, zero, suc, ◌+◌, ◌*◌, ◌/◌, ◌%◌, ◌^◌, ◌≤◌, ◌<◌, ◌≡◌, refl, ap, ◌∙◌, List, [], ◌∷◌, ◌++◌, arith,
  length,
}
use cwb.Base.Bits.{bit_of, bit_of-suc, mod-bit_of}
use cwb.BitIo.Buffer.{shift_out}

-- The n low bits of a number.
unfoldable pub low_bits : ℕ → ℕ → List ℕ
low_bits zero x = []
low_bits (suc n) x = bit_of x n ∷ low_bits n x

-- The bits of a file's bytes.
unfoldable pub all_bits : List ℕ → List ℕ
all_bits [] = []
all_bits (b ∷ bs) = low_bits 8 b ++ all_bits bs

-- The k high bits of a byte, as shifting left hands them out.
unfoldable pub top_bits : ℕ → ℕ → List ℕ
top_bits zero x = []
top_bits (suc k) x = bit_of x 7 ∷ top_bits k (shift_out x)

pub length-low_bits : (n x : ℕ) → length (low_bits n x) ≡ n
unfolding low_bits
length-low_bits zero x = refl
length-low_bits (suc n) x = ap suc (length-low_bits n x)

pub all_bits-append : (a b : List ℕ) → all_bits (a ++ b) ≡ all_bits a ++ all_bits b
unfolding all_bits
all_bits-append [] b = refl
all_bits-append (x ∷ a) b = simp (all_bits-append a b, append_assoc)

bit_of-double : (x b k : ℕ) → b < 2 → bit_of (x * 2 + b) (suc k) ≡ bit_of x k
bit_of-double x b k h =
    let half : (x * 2 + b) / 2 ≡ x = omega arith in
    bit_of-suc (x * 2 + b) k ∙ ap (λ t. bit_of t k) half

-- A digit shifted in stands at the end.
pub low_bits-double : (n x b : ℕ) → b < 2 → low_bits (suc n) (x * 2 + b) ≡ low_bits n x ++ b ∷ []
unfolding low_bits
low_bits-double zero x b h = let e : (x * 2 + b) / 2 ^ 0 % 2 ≡ b = omega arith in ap (λ t. t ∷ []) e
low_bits-double (suc n) x b h = rw (low_bits-double n x b h, bit_of-double x b n h)

-- Only the n low digits matter.
pub low_bits-mod : (n m x : ℕ) → n ≤ m → low_bits n (x % 2 ^ m) ≡ low_bits n x
unfolding low_bits
low_bits-mod zero m x h = refl
low_bits-mod (suc n) m x h =
    let same : x % 2 ^ m % 2 ^ m ≡ x % 2 ^ m = grind arith in
    rw (low_bits-mod n m x (omega arith), (mod-bit_of m (x % 2 ^ m) x).0 same n h)

pow-add : (a b : ℕ) → 2 ^ (a + b) ≡ 2 ^ b * 2 ^ a
pow-add zero b = let e : 0 + b ≡ b = omega arith in rw e (omega arith)
pow-add (suc a) b =
    let e : suc a + b ≡ suc (a + b) = omega arith in
    rw (e, pow-suc 2 (a + b), pow-suc 2 a, pow-add a b) (omega arith)

-- High bits, then low bits.
pub low_bits-append : (a b x : ℕ) → low_bits (a + b) x ≡ low_bits a (x / 2 ^ b) ++ low_bits b x
unfolding low_bits
low_bits-append zero b x = let e : 0 + b ≡ b = omega arith in rw e
low_bits-append (suc a) b x =
    let e : suc a + b ≡ suc (a + b) = omega arith in
    rw (e, low_bits-append a b x, div-div-eq-div-mul x (2 ^ b) (2 ^ a), pow-add a b)

-- All bits of a byte, either way.
pub top_bits-low_bits : (x : ℕ) → x < 256 → top_bits 8 x ≡ low_bits 8 x
unfolding top_bits low_bits
top_bits-low_bits x h = ground arith
