-- ===== src/LexHash/Bucket.antt =====
-- Facts about one chain: what a search finds after an entry is bumped, appended or unlinked.
use cwb.Base.{
  ℕ, ◌+◌, ◌%◌, ◌^◌, ◌≤◌, ◌≡◌, refl, ap, Option, none, some, List, [], ◌∷◌, ◌++◌, arith,
  if◌then◌else◌, length,
}
use cwb.LexHash.Hashing.{str_eq}
use cwb.LexHash.Chain.{Entry, find_entry, bump_entry, unlink_entry}
use cwb.LexHash.Prime.{str_eq_iff}

-- How many entries of a chain have the key.
unfoldable pub count_key : List ℕ → List Entry → ℕ
count_key q [] = 0
count_key q (e ∷ chain) = (if str_eq e.key q then 1 else 0) + count_key q chain

-- The first of two results.
abbrev pub or_find : Option Entry → Option Entry → Option Entry
or_find (some e) b = some e
or_find none b = b

pub find_entry-append :
    (q : List ℕ) (a b : List Entry)
    → find_entry (a ++ b) q ≡ or_find (find_entry a q) (find_entry b q)
unfolding find_entry
find_entry-append q [] b = refl
find_entry-append q (e ∷ a) b = ground (arith, find_entry-append q a b)

pub count_key-append :
    (q : List ℕ) (a b : List Entry) → count_key q (a ++ b) ≡ count_key q a + count_key q b
unfolding count_key
count_key-append q [] b = omega arith
count_key-append q (e ∷ a) b = omega (arith, count_key-append q a b)

pub find_entry_absent : (q : List ℕ) (c : List Entry) → count_key q c ≡ 0 → find_entry c q ≡ none
unfolding find_entry count_key
find_entry_absent q [] h = refl
find_entry_absent q (e ∷ c) h = ground (arith, find_entry_absent q c)

pub count_key_absent : (q : List ℕ) (c : List Entry) → find_entry c q ≡ none → count_key q c ≡ 0
unfolding find_entry count_key
count_key_absent q [] h = refl
count_key_absent q (e ∷ c) h = ground (arith, count_key_absent q c)

-- The entry found has the key.
pub find_entry-key : (q : List ℕ) (c : List Entry) (e : Entry) → find_entry c q ≡ some e → e.key ≡ q
unfolding find_entry
find_entry-key q [] e h = cc
find_entry-key q (d ∷ c) e h = ground (arith, find_entry-key q c e, str_eq_iff d.key q)

abbrev pub bumped : Entry → Entry
bumped e = record e { freq = (e.freq + 1) % 2 ^ 32 }

module _ (k q : List ℕ) where
  pub find_entry-bump :
      (c : List Entry) (e : Entry)
      → find_entry c k ≡ some e
      → find_entry (bump_entry c k) q ≡ (if str_eq k q then some (bumped e) else find_entry c q)
  unfolding find_entry bump_entry
  find_entry-bump [] e h = cc
  find_entry-bump (d ∷ c) e h =
      ground (arith, find_entry-bump c e, str_eq_iff d.key k, str_eq_iff d.key q, str_eq_iff k q)

  pub count_key-bump : (c : List Entry) → count_key q (bump_entry c k) ≡ count_key q c
  unfolding count_key bump_entry
  count_key-bump [] = refl
  count_key-bump (d ∷ c) = ground (arith, count_key-bump c)

  pub find_entry-unlink :
      (c : List Entry)
      → count_key q c ≤ 1
      → find_entry (unlink_entry c k) q ≡ (if str_eq k q then none else find_entry c q)
  unfolding find_entry unlink_entry count_key
  find_entry-unlink [] h = ground arith
  find_entry-unlink (d ∷ c) h = ground (
    arith,
    find_entry-unlink c,
    find_entry_absent q c,
    str_eq_iff d.key k,
    str_eq_iff d.key q,
    str_eq_iff k q,
  )

  pub count_key-unlink : (c : List Entry) → count_key q (unlink_entry c k) ≤ count_key q c
  unfolding count_key unlink_entry
  count_key-unlink [] = omega arith
  count_key-unlink (d ∷ c) = ground (arith, count_key-unlink c)

pub length-bump : (k : List ℕ) (c : List Entry) → length (bump_entry c k) ≡ length c
unfolding bump_entry
length-bump k [] = refl
length-bump k (d ∷ c) = ground (arith, length-bump k c)

pub length-unlink :
    (k : List ℕ) (c : List Entry) (e : Entry)
    → find_entry c k ≡ some e
    → length (unlink_entry c k) + 1 ≡ length c
unfolding find_entry unlink_entry
length-unlink k [] e h = cc
length-unlink k (d ∷ c) e h = ground (arith, length-unlink k c e)

-- An entry with a new key at the end of the chain.
pub find_entry-snoc :
    (c : List Entry) (e : Entry) (q : List ℕ)
    → find_entry c e.key ≡ none
    → find_entry (c ++ e ∷ []) q ≡ (if str_eq e.key q then some e else find_entry c q)
unfolding find_entry
find_entry-snoc c e q miss = ground (
  arith,
  find_entry-append q c (e ∷ []),
  str_eq_iff e.key q,
  λ (s : e.key ≡ q). ap (find_entry c) s,
)

pub count_key-snoc :
    (c : List Entry) (e : Entry) (q : List ℕ)
    → count_key q (c ++ e ∷ []) ≡ count_key q c + (if str_eq e.key q then 1 else 0)
unfolding count_key
count_key-snoc c e q = omega (arith, count_key-append q c (e ∷ []))
