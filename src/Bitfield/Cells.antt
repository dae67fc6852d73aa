-- ===== src/Bitfield/Cells.antt =====
-- The bits of one cell, and what the expressions of cl/bitfields.c do to them.
use cwb.Base.{
  ℕ, ◌-◌, ◌%◌, ◌^◌, ◌<◌, ◌≡◌, refl, bit_and, bit_or, bit_xor, true, if◌then◌else◌, ◌==◌, ==_iff,
  arith,
}
use cwb.Base.Bits.{bit_of}
use cwb.Base.Bytes.{holds_below, bytes_one, bytes_two}
use cwb.Bitfield.{complement32}

==→≡ : (a b : ℕ) → (a == b) ≡ true → a ≡ b
==→≡ a b = (==_iff a b).0

-- `|= (1 << k)` sets bit `k`,
pub set-bit_of :
    (v k j : ℕ)
    → v < 256
    → k < 8
    → j < 8
    → bit_of (bit_or v (2 ^ k) % 256) j ≡ (if j == k then 1 else bit_of v j)
unfolding holds_below
set-bit_of v k j hv hk hj = ==→≡ _ _ (
    bytes_two (λ v k j. bit_of (bit_or v (2 ^ k) % 256) j == (if j == k then 1 else bit_of v j))
      refl v k j hv hk hj)

-- `&= ~(1 << k)` clears it,
pub clear-bit_of :
    (v k j : ℕ)
    → v < 256
    → k < 8
    → j < 8
    → bit_of (bit_and v (complement32 (2 ^ k)) % 256) j ≡ (if j == k then 0 else bit_of v j)
unfolding holds_below
clear-bit_of v k j hv hk hj = ==→≡ _ _ (
    bytes_two
      (λ v k j.
        bit_of (bit_and v (complement32 (2 ^ k)) % 256) j == (if j == k then 0 else bit_of v j))
      refl v k j hv hk hj)

-- and `^= (1 << k)` flips it.
pub toggle-bit_of :
    (v k j : ℕ)
    → v < 256
    → k < 8
    → j < 8
    → bit_of (bit_xor v (2 ^ k) % 256) j ≡ (if j == k then 1 - bit_of v j else bit_of v j)
unfolding holds_below
toggle-bit_of v k j hv hk hj = ==→≡ _ _ (
    bytes_two
      (λ v k j.
        bit_of (bit_xor v (2 ^ k) % 256) j == (if j == k then 1 - bit_of v j else bit_of v j))
      refl v k j hv hk hj)

-- The count is adjusted exactly when the bit changed.
pub set_changes :
    (v k : ℕ) → v < 256 → k < 8 → (if bit_or v (2 ^ k) % 256 == v then 1 else 0) ≡ bit_of v k
unfolding holds_below
set_changes v k hv hk =
    ==→≡ _ _ (
      bytes_one (λ v k. (if bit_or v (2 ^ k) % 256 == v then 1 else 0) == bit_of v k) refl v k hv
        hk)

pub clear_changes :
    (v k : ℕ)
    → v < 256
    → k < 8
    → (if bit_and v (complement32 (2 ^ k)) % 256 == v then 0 else 1) ≡ bit_of v k
unfolding holds_below
clear_changes v k hv hk = ==→≡ _ _ (
    bytes_one (λ v k. (if bit_and v (complement32 (2 ^ k)) % 256 == v then 0 else 1) == bit_of v k)
      refl v k hv hk)

pub test-bit_of :
    (v k : ℕ) → v < 256 → k < 8 → (if bit_and v (2 ^ k) == 0 then 0 else 1) ≡ bit_of v k
unfolding holds_below
test-bit_of v k hv hk =
    ==→≡ _ _
      (bytes_one (λ v k. (if bit_and v (2 ^ k) == 0 then 0 else 1) == bit_of v k) refl v k hv hk)

pub ones-bit_of : (k : ℕ) → k < 8 → bit_of 0xff k ≡ 1
unfolding holds_below
ones-bit_of k hk = ==→≡ _ _ (bytes_one (λ v k. bit_of 0xff k == 1) refl 0 k (omega arith) hk)

pub zero-bit_of : (k : ℕ) → k < 8 → bit_of 0 k ≡ 0
unfolding holds_below
zero-bit_of k hk = ==→≡ _ _ (bytes_one (λ v k. bit_of 0 k == 0) refl 0 k (omega arith) hk)
