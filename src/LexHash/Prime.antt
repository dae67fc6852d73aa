-- ===== src/LexHash/Prime.antt =====
-- `is_prime` decides primality (but for 0 and 1), and `find_prime` finds the least prime from n on,
-- without overflow up to the largest table size.
use native.Mathlib.Decide.{ℕ_discrete, dec_le}
use native.Mathlib.Nat.{div-add-mod, mul-mod_left}
use cwb.Base.{
  ℕ, zero, suc, ◌+◌, ◌-◌, ◌*◌, ◌/◌, ◌%◌, ◌^◌, ◌≤◌, ◌<◌, ◌≡◌, ◌≢◌, ◌↔◌, refl, sym, ap, ◌∙◌, true,
  false, some, List, [], ◌∷◌, arith, leb, ◌==◌, Bool-cases, inl, inr,
}
use cwb.LexHash.Hashing.{is_prime_from, is_prime, find_prime_from, find_prime, str_eq}

-- `strcmp` is 0 exactly on equal strings.
pub str_eq_iff : (a b : List ℕ) → (str_eq a b ≡ true) ↔ (a ≡ b)
unfolding str_eq
str_eq_iff [] [] = (λ e. refl, λ e. refl)
str_eq_iff [] (y ∷ b) = (λ e. cc, λ e. cc)
str_eq_iff (x ∷ a) [] = (λ e. cc, λ e. cc)
str_eq_iff (x ∷ a) (y ∷ b) =
    let ih = str_eq_iff a b in (λ e. ground (arith, ih.0), λ e. ground (arith, ih.1))

is_prime_from_iff :
    (fuel i n : ℕ)
    → n < fuel + i
    → 1 ≤ i
    → (is_prime_from fuel i n ≡ true) ↔ ((d : ℕ) → i ≤ d → d * d ≤ n → n % d ≢ 0)
unfolding is_prime_from
is_prime_from_iff zero i n h one = (λ e d lo sq. absurd (grind arith), λ h. refl)
is_prime_from_iff (suc fuel) i n h one = elim (Bool-cases (leb (i * i) n)) [
  | inr past ↦ rw past (λ e d lo sq. absurd (grind arith), λ h. refl)
  | inl more ↦ elim (Bool-cases (n % i == 0)) [
    | inl hit ↦
        rw (more, hit)
          (λ e. absurd (cc e), λ h. absurd (h i (omega arith) (ground arith) (ground arith)))
    | inr miss ↦
        let ih = is_prime_from_iff fuel (i + 1) n (omega arith) (omega arith) in
        rw (more, miss)
          (
            λ e d lo sq. elim (ℕ_discrete i d) [
              | yes p ↦ rw (← p) (ground arith)
              | no p ↦ ih.0 e d (omega arith) sq
            ],
            λ h. ih.1 (λ d lo. h d (omega arith)),
          )
  ]
]

-- Of a divisor and its codivisor one is small.
small_divisor :
    (n d : ℕ) → 2 ≤ d → d < n → n % d ≡ 0 → (c : ℕ) × (2 ≤ c) × (c * c ≤ n) × (n % c ≡ 0)
small_divisor n d two lt e =
    let q = n / d in
    let parts : d * q ≡ n = omega (arith, div-add-mod n d) in
    let two_q : 2 ≤ q = grind arith in
    elim (dec_le d q) [
      | yes p ↦ (d, two, grind arith, e)
      | no p ↦ (q, two_q, grind arith, ap (λ t. t % q) (sym parts) ∙ mul-mod_left d q)
    ]

-- For n ≥ 2 `is_prime` returns true exactly when no number from 2 up to n - 1 divides n.
pub is_prime_iff : (n : ℕ) → 2 ≤ n → (is_prime n ≡ true) ↔ ((d : ℕ) → 2 ≤ d → d < n → n % d ≢ 0)
unfolding is_prime
is_prime_iff n two =
    let loop = is_prime_from_iff n 2 n (omega arith) (omega arith) in
    (
      λ e d lo hi z. let (c, c2, sq, cz) = small_divisor n d lo hi z in loop.0 e c c2 sq cz,
      λ h. loop.1 (λ d lo sq. h d lo (grind arith)),
    )

-- The search reaches a prime that lies ahead within its fuel, and stops at the first.
find_prime_from-some :
    (fuel n p : ℕ)
    → is_prime p ≡ true
    → 1 ≤ n
    → n ≤ p
    → p < n + fuel
    → (q : ℕ) × (find_prime_from fuel n ≡ some q)
      × (n ≤ q)
      × (q ≤ p)
      × (is_prime q ≡ true)
      × ((m : ℕ) → n ≤ m → m < q → is_prime m ≡ false)
unfolding find_prime_from
find_prime_from-some zero n p e one lo hi = absurd (omega arith)
find_prime_from-some (suc fuel) n p e one lo hi =
    let positive : (n == 0) ≡ false = ground arith in
    elim (Bool-cases (is_prime n)) [
      | inl here ↦ (n, rw (positive, here), omega arith, lo, here, λ m a b. absurd (omega arith))
      | inr no_prime ↦
          let ahead : n + 1 ≤ p = ground (arith, λ (q : n ≡ p). ap is_prime q) in
          let (q, run, a, b, c, least) =
            find_prime_from-some fuel (n + 1) p e (omega arith) ahead (omega arith) in
          (
            q,
            rw (positive, no_prime) run,
            omega arith,
            b,
            c,
            λ m l h. elim (ℕ_discrete n m) [
              | yes s ↦ rw (← s) no_prime
              | no s ↦ least m (omega arith) h
            ],
          )
    ]

-- MAX_BUCKETS is a prime, as its comment says.
max_buckets_prime : is_prime 1_000_000_007 ≡ true
unfolding is_prime
max_buckets_prime = refl

-- For 1 ≤ n ≤ MAX_BUCKETS the search of `find_prime` ends without overflow, at the least number
-- from n on that `is_prime` accepts, which is at most MAX_BUCKETS.
pub find_prime-some :
    (n : ℕ)
    → 1 ≤ n
    → n ≤ 1_000_000_007
    → (q : ℕ) × (find_prime n ≡ some q)
      × (n ≤ q)
      × (q ≤ 1_000_000_007)
      × (is_prime q ≡ true)
      × ((m : ℕ) → n ≤ m → m < q → is_prime m ≡ false)
unfolding find_prime
find_prime-some n one h =
    find_prime_from-some (2 ^ 31 - n) n 1_000_000_007 max_buckets_prime one h (omega arith)
