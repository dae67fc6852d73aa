-- ===== src/LexHash/Remove.antt =====
-- `cl_lexhash_del` on a well-formed table.

use cwb.Base.{
  ℕ, ◌+◌, ◌-◌, ◌≤◌, ◌<◌, ◌≡◌, refl, ◌∙◌, none, some, List, [], arith, if◌then◌else◌, length,
  length-set, get_or, set,
}
use cwb.Base.Int.{pos, signed32}
use cwb.LexHash.Hashing.{str_eq}
use cwb.LexHash.Chain.{Entry, Table, unlink_entry, count_entries}
use cwb.LexHash.Ops.{Double, LexHash, cl_lexhash_find_i, cl_lexhash_del}
use cwb.LexHash.Bucket.{find_entry-unlink, count_key-unlink, length-unlink}
use cwb.LexHash.Table.{home, count_entries-set, set-IsPlaced}
use cwb.LexHash.Methods.{IsValid, lookup, Models}

module _ {D : Double} where
  -- On a well-formed table a string that is there is removed: its frequency, an unsigned int, is returned
  -- as the int with the same 32 bits, which is negative from 2^31 on; the table is well-formed with one
  -- entry less, and a search finds nothing under the string and under any other what it found before. For
  -- a string that is not there nothing changes and 0 is returned.
  pub cl_lexhash_del-Models :
      (h : LexHash D) (token : List ℕ)
      → IsValid D h
      → ((e : Entry)
          → lookup h token ≡ some e
          → ((cl_lexhash_del D h token).1 ≡ signed32 e.freq)
            × (1 ≤ h.entries)
            × Models
                (h.entries - 1)
                h.next_id
                (λ q. if str_eq token q then none else lookup h q)
                (cl_lexhash_del D h token).0)
        × (lookup h token ≡ none → cl_lexhash_del D h token ≡ (h, pos 0))
  unfolding cl_lexhash_del cl_lexhash_find_i
  cl_lexhash_del-Models h token v = (
    λ e hit. rw (hit, cl_lexhash_del) (refl, positive e hit, unlinked e hit),
    λ miss. rw (miss, cl_lexhash_del),
  )
    where
      i : ℕ
      i = home h.buckets token

      c : List Entry
      c = get_or h.table i []

      lt : i < length h.table
      lt = omega (arith, v.sized, v.some_buckets)

      removed : Table
      removed = set h.table i (unlink_entry c token)

      total : (e : Entry) → lookup h token ≡ some e → count_entries removed + 1 ≡ h.entries
      total e hit = omega (
        arith,
        v.counted,
        length-unlink token c e hit,
        count_entries-set h.table i (unlink_entry c token) lt,
      )

      positive : (e : Entry) → lookup h token ≡ some e → 1 ≤ h.entries
      positive e hit = omega (arith, total e hit)

      unlinked :
          (e : Entry)
          → lookup h token ≡ some e
          → Models
              (h.entries - 1)
              h.next_id
              (λ q. if str_eq token q then none else lookup h q)
              (record h { table = removed; entries = h.entries - 1 })
      unlinked e hit =
          let (placed, reads) =
            set-IsPlaced h.buckets h.table token (unlink_entry c token) none v.placed lt
              (λ q. omega (arith, count_key-unlink token q c, v.placed q i))
              (λ q. find_entry-unlink token q c (ground (arith, v.placed q i))) in
          record {
            valid = record {
              some_buckets = v.some_buckets;
              sized = length-set h.table i (unlink_entry c token) ∙ v.sized;
              placed = placed;
              counted = omega (arith, total e hit);
            };
            entries = refl;
            next_id = refl;
            reads = reads;
          }
