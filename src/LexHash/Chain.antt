-- ===== src/LexHash/Chain.antt =====
-- cl/lexhash.c: entries, the walks along the chain of a bucket, and the loops over all buckets.
use cwb.Base.{
  ℕ, zero, suc, ◌+◌, ◌%◌, ◌^◌, Option, none, some, List, [], ◌∷◌, if◌then◌else◌, get_or, set,
  length,
}
use cwb.Base.Int.{ℤ, pos, negsuc}
use cwb.LexHash.Hashing.{hash_string, str_eq}

-- `cl_lexhash_entry`
pub record Entry : Type 0 where
  pub key : List ℕ
  pub freq : ℕ
  pub id : ℕ

abbrev pub Table : Type 0
Table = List (List Entry)

-- The chain of a bucket. `while (entry != NULL && strcmp(entry->key, token) != 0)`
unfoldable pub find_entry : List Entry → List ℕ → Option Entry
find_entry [] token = none
find_entry (e ∷ chain) token = if str_eq e.key token then some e else find_entry chain token

-- `entry->freq++` on the entry that the search finds; `freq` is unsigned.
unfoldable pub bump_entry : List Entry → List ℕ → List Entry
bump_entry [] token = []
bump_entry (e ∷ chain) token =
    if str_eq e.key token
    then record e { freq = (e.freq + 1) % 2 ^ 32 } ∷ chain
    else e ∷ bump_entry chain token

-- Unlinks the entry that the search finds.
unfoldable pub unlink_entry : List Entry → List ℕ → List Entry
unlink_entry [] token = []
unlink_entry (e ∷ chain) token = if str_eq e.key token then chain else e ∷ unlink_entry chain token

-- The inner loop of the expansion, over one chain: each entry becomes the first of its new bucket.
unfoldable pub move_chain : ℕ → List Entry → Table → Table
move_chain new_buckets [] temp = temp
move_chain new_buckets (e ∷ chain) temp =
    let offset = hash_string e.key % new_buckets in
    move_chain new_buckets chain (set temp offset (e ∷ get_or temp offset []))

-- The outer loop, `for (idx = 0; idx < old_buckets; idx++)`, over the table.
unfoldable pub move_table : ℕ → Table → Table → Table
unfolding move_chain
move_table new_buckets [] temp = temp
move_table new_buckets (chain ∷ table) temp =
    move_table new_buckets table (move_chain new_buckets chain temp)

unfoldable pub count_entries : Table → ℕ
count_entries [] = 0
count_entries (chain ∷ table) = length chain + count_entries table

-- The bucket after the iterator's.
abbrev pub next_bucket : ℤ → ℕ
next_bucket (pos n) = n + 1
next_bucket (negsuc n) = 0

-- `while (point == NULL)`, with the buckets left as fuel: the bucket where it stops, and the chain
-- found there, [] past the last bucket.
unfoldable pub seek_bucket : ℕ → ℕ → Table → ℕ × List Entry
seek_bucket zero i table = (i, [])
seek_bucket (suc fuel) i table = elim (get_or table i []) [
  | [] ↦ seek_bucket fuel (i + 1) table
  | e ∷ r ↦ (i, e ∷ r)
]
