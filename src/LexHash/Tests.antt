-- ===== src/LexHash/Tests.antt =====
-- cl/lexhash.c at concrete inputs: fractions stand for `double`; a table of three buckets that grows
-- when more than a fifth of its buckets' number of entries stand in it.
use mathlib.Core.List.{flatten}
use cwb.Base.{
  if◌then◌else◌, ℕ, ◌+◌, ◌-◌, ◌*◌, ◌/◌, ◌≡◌, refl, sym, ◌∙◌, true, false, some, none, List, [], ◌∷◌,
  arith, ltb, ◌≤◌, ◌<◌, ◌%◌,
}
use cwb.Base.Int.{pos, negsuc, signed32}
use cwb.LexHash.Hashing.{is_prime, find_prime, str_eq, hash_string}
use cwb.LexHash.Chain.{Entry, count_entries, find_entry}
use cwb.LexHash.Ops.{
  Double, LexHash, cl_lexhash_check_grow, cl_lexhash_add, cl_lexhash_find_i, insert_entry,
  cl_lexhash_del, cl_lexhash_iterator_reset,
}
use cwb.LexHash.Prime.{find_prime-some}
use cwb.LexHash.Table.{replicate-IsPlaced}
use cwb.LexHash.Methods.{IsLawful, IsValid, Models, lookup, cl_lexhash_check_grow-Models}
use cwb.LexHash.Add.{cl_lexhash_add-Models}
use cwb.LexHash.Remove.{cl_lexhash_del-Models}
use cwb.LexHash.Iterator.{visit_all, iterator-flatten}

-- A numerator and a denominator less one.
abbrev fraction : Double
fraction = record {
  Num = ℕ × ℕ;
  of_ℕ = λ n. (n, 0);
  literal = λ a b. (a, b - 1);
  mul = λ x y. (x.0 * y.0, (x.1 + 1) * (y.1 + 1) - 1);
  div = λ x y. (x.0 * (y.1 + 1), (x.1 + 1) * y.0 - 1);
  gt = λ x y. ltb (y.0 * (x.1 + 1)) (x.0 * (y.1 + 1));
  floor = λ x. (x.0 / (x.1 + 1), 0);
  to_ℕ = λ x. x.0 / (x.1 + 1);
}

fraction-IsLawful : IsLawful fraction
fraction-IsLawful = record { to_ℕ-of_ℕ = λ n. omega arith; to_ℕ-le = λ x n e. grind arith }

-- "a", "b"
abbrev a_token : List ℕ
a_token = 97 ∷ []

abbrev b_token : List ℕ
b_token = 98 ∷ []

abbrev no_entries : LexHash fraction
no_entries = record {
  table = [] ∷ [] ∷ [] ∷ [];
  buckets = 3;
  next_id = 0;
  entries = 0;
  auto_grow = true;
  fillrate_limit = (2, 4);
  fillrate_target = (1, 4);
  iter_bucket = negsuc 0;
  iter_point = [];
}

abbrev one_entry : LexHash fraction
one_entry = record no_entries {
  table = [] ∷ (record { key = a_token; freq = 1; id = 0 } ∷ []) ∷ [] ∷ [];
  entries = 1;
  next_id = 1;
}

hash_test : hash_string a_token % 3 ≡ 1
unfolding hash_string
hash_test = refl

prime_test : is_prime 11 ≡ true
unfolding is_prime
prime_test = refl

no_entries-IsValid : IsValid fraction no_entries
unfolding count_entries
no_entries-IsValid = record {
  some_buckets = omega arith;
  sized = refl;
  placed = (replicate-IsPlaced 3 3).0;
  counted = refl;
}

add_test :
    cl_lexhash_add fraction no_entries a_token
    ≡ some (one_entry, record { key = a_token; freq = 1; id = 0 })
unfolding cl_lexhash_add cl_lexhash_find_i find_entry hash_string insert_entry
add_test = refl

one_entry-IsValid : IsValid fraction one_entry
one_entry-IsValid =
    let (r, run, m) =
      cl_lexhash_add-Models fraction-IsLawful no_entries a_token no_entries-IsValid in
    let e : r ≡ one_entry = cc (sym run ∙ add_test) in rw e at m.valid

find_prime-some_example :
    (q : ℕ) × (find_prime 24 ≡ some q)
    × (24 ≤ q)
    × (q ≤ 1_000_000_007)
    × (is_prime q ≡ true)
    × ((m : ℕ) → 24 ≤ m → m < q → is_prime m ≡ false)
find_prime-some_example = find_prime-some 24 (omega arith) (omega arith)

request : (m : ℕ) → pos 24 ≡ pos m → m ≤ 1_000_000_007
request m e = let s : 24 ≡ m = cc in omega arith

cl_lexhash_check_grow-Models_example :
    (r : LexHash fraction) × (n : ℕ) × (cl_lexhash_check_grow fraction one_entry ≡ some (r, n))
    × Models one_entry.entries one_entry.next_id (lookup one_entry) r
cl_lexhash_check_grow-Models_example =
    cl_lexhash_check_grow-Models fraction-IsLawful one_entry one_entry-IsValid

cl_lexhash_del-Models_example :
    ((e : Entry)
      → lookup one_entry a_token ≡ some e
      → ((cl_lexhash_del fraction one_entry a_token).1 ≡ signed32 e.freq)
        × (1 ≤ one_entry.entries)
        × Models
            (one_entry.entries - 1)
            one_entry.next_id
            (λ q. if str_eq a_token q then none else lookup one_entry q)
            (cl_lexhash_del fraction one_entry a_token).0)
    × (lookup one_entry a_token ≡ none
        → cl_lexhash_del fraction one_entry a_token ≡ (one_entry, pos 0))
cl_lexhash_del-Models_example = cl_lexhash_del-Models one_entry a_token one_entry-IsValid

abbrev corpus : List (List ℕ)
corpus = a_token ∷ b_token ∷ a_token ∷ []

iterator-flatten_example :
    visit_all fraction (one_entry.entries + 1) (cl_lexhash_iterator_reset fraction one_entry)
    ≡ flatten one_entry.table
iterator-flatten_example = iterator-flatten one_entry one_entry-IsValid
