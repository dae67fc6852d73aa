-- ===== src/LexHash/Hashing.antt =====
-- cl/lexhash.c: the primes that serve as table sizes, the hash function, and the comparison of keys.
use cwb.Base.{
  ℕ, zero, suc, ◌+◌, ◌-◌, ◌*◌, ◌/◌, ◌%◌, ◌^◌, bit_xor, Bool, true, false, ◌&&◌, Option, none, some,
  List, [], ◌∷◌, if◌then◌else◌, leb, ◌==◌,
}

-- `for (i = 2; i*i <= n; i++) if ((n % i) == 0) return 0; return 1;` on fuel.
unfoldable pub is_prime_from : ℕ → ℕ → ℕ → Bool
is_prime_from zero i n = true
is_prime_from (suc fuel) i n =
    let rest = is_prime_from fuel (i + 1) n in
    let found : Bool = if n % i == 0 then false else rest in if leb (i * i) n then found else true

-- The loop ends before i passes n.
unfoldable pub is_prime : ℕ → Bool
unfolding is_prime_from
is_prime n = is_prime_from n 2 n

-- `for ( ; n > 0; n++) if (is_prime(n)) return n; return 0;` on fuel; `none` is a loop that does
-- not end within it. The source leaves the loop at a signed overflow.
unfoldable pub find_prime_from : ℕ → ℕ → Option ℕ
find_prime_from zero n = none
find_prime_from (suc fuel) n =
    let rest = find_prime_from fuel (n + 1) in
    let found : Option ℕ = if is_prime n then some n else rest in if n == 0 then some 0 else found

-- The ints from n on.
unfoldable pub find_prime : ℕ → Option ℕ
unfolding find_prime_from
find_prime n = find_prime_from (2 ^ 31 - n) n

-- `unsigned int` arithmetic.
unfoldable pub hash_from : ℕ → List ℕ → ℕ
hash_from result [] = result
hash_from result (c ∷ s) =
    hash_from (bit_xor (bit_xor (result * 33 % 2 ^ 32) (result / 2 ^ 27)) c) s

unfoldable pub hash_string : List ℕ → ℕ
unfolding hash_from
hash_string s = hash_from 0 s

-- `strcmp(a, b) == 0`
unfoldable pub str_eq : List ℕ → List ℕ → Bool
str_eq [] [] = true
str_eq [] (b ∷ bs) = false
str_eq (a ∷ as') [] = false
str_eq (a ∷ as') (b ∷ bs) = (a == b) && str_eq as' bs
