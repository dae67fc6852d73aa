-- ===== src/LexHash/Ops.antt =====
-- cl/lexhash.c: the table and the exported operations. `double`, in which the fill rates are
-- computed, is the parameter `Double`.
use mathlib.Core.Option
use cwb.Base.{
  ℕ, zero, suc, ◌+◌, ◌-◌, ◌%◌, ◌^◌, Bool, true, false, ◌&&◌, Option, none, some, List, [], ◌∷◌,
  ◌++◌, if◌then◌else◌, ◌==◌, get_or, set, replicate,
}
use cwb.Base.Int.{ℤ, pos, negsuc, signed32}
use cwb.LexHash.Hashing.{find_prime, hash_string}
use cwb.LexHash.Chain.{
  Entry, Table, find_entry, bump_entry, unlink_entry, move_table, count_entries, next_bucket,
  seek_bucket,
}

-- `MAX_BUCKETS`
abbrev pub max_buckets : ℕ
max_buckets = 1_000_000_007

abbrev pub default_nr_of_buckets : ℕ
default_nr_of_buckets = 250_000

-- The operations on `double` that the fill rates use. `literal a b` is the double for the decimal
-- that equals a / b; `to_ℕ` is the conversion to an integer.
pub record Double : Type 1 where
  pub Num : Type 0
  pub of_ℕ : ℕ → Num
  pub literal : ℕ → ℕ → Num
  pub mul : Num → Num → Num
  pub div : Num → Num → Num
  pub gt : Num → Num → Bool
  pub floor : Num → Num
  pub to_ℕ : Num → ℕ

unfoldable pub requested_buckets : ℤ → ℕ
requested_buckets (negsuc n) = default_nr_of_buckets
requested_buckets (pos zero) = default_nr_of_buckets
requested_buckets (pos (suc n)) = suc n

module _ (D : Double) where
  open D use {Num, of_ℕ, literal, mul, div, gt, floor, to_ℕ}

  -- `struct _cl_lexhash`. `iter_point` is the chain from the iterator's next entry on, [] for NULL.
  pub record LexHash : Type 0 where
    pub table : Table
    pub buckets : ℕ
    pub next_id : ℕ
    pub entries : ℕ
    pub auto_grow : Bool
    pub fillrate_limit : Num
    pub fillrate_target : Num
    pub iter_bucket : ℤ
    pub iter_point : List Entry

module _ (D : Double) where
  open D use {Num, of_ℕ, literal, mul, div, gt, floor, to_ℕ}

  -- The hash with `n` buckets, all empty.
  unfoldable pub empty_lexhash : ℕ → LexHash D
  empty_lexhash n = record {
    table = replicate n [];
    buckets = n;
    next_id = 0;
    entries = 0;
    auto_grow = true;
    fillrate_limit = literal 2 1;
    fillrate_target = literal 2 5;
    iter_bucket = negsuc 0;
    iter_point = [];
  }

  unfoldable pub cl_new_lexhash : ℤ → Option (LexHash D)
  cl_new_lexhash buckets = Option.map empty_lexhash (find_prime (requested_buckets buckets))

  unfoldable pub cl_lexhash_auto_grow : LexHash D → Bool → LexHash D
  cl_lexhash_auto_grow hash flag = record hash { auto_grow = flag }

  unfoldable pub cl_lexhash_auto_grow_fillrate : LexHash D → Num → Num → LexHash D
  cl_lexhash_auto_grow_fillrate hash limit target =
      let t = if gt target (literal 1 100) then target else literal 1 100 in
      let l = if gt limit (mul (of_ℕ 2) t) then limit else mul (of_ℕ 2) t in
      record hash { fillrate_target = t; fillrate_limit = l }

  -- The expansion to (the next prime after) `target_size` buckets. `none` is a failed assertion, or
  -- a search for a prime that overflows.
  unfoldable pub expand : LexHash D → Num → Option (LexHash D)
  expand hash target_size = Option.bind (cl_new_lexhash (pos (to_ℕ target_size))) λ temp.
      let table = move_table temp.buckets hash.table temp.table in
      let moved = count_entries hash.table in
      if moved == hash.entries
      then some (record hash { table = table; buckets = temp.buckets })
      else none

  unfoldable pub cl_lexhash_check_grow : LexHash D → Option (LexHash D × ℕ)
  cl_lexhash_check_grow hash =
      let fill_rate = div (of_ℕ hash.entries) (of_ℕ hash.buckets) in
      let target_size = floor (div (of_ℕ hash.entries) hash.fillrate_target) in
      let capped = record hash { auto_grow = false } in
      if hash.auto_grow && gt fill_rate hash.fillrate_limit
      then (if gt target_size (of_ℕ max_buckets)
          then (if gt (of_ℕ hash.buckets) (div target_size (of_ℕ 2))
              then some (capped, 0)
              else Option.map (λ h. (h, 1)) (expand capped (of_ℕ max_buckets)))
          else Option.map (λ h. (h, 1)) (expand hash target_size))
      else some (hash, 0)

  -- The bucket's offset, and the entry.
  unfoldable pub cl_lexhash_find_i : LexHash D → List ℕ → ℕ × Option Entry
  cl_lexhash_find_i hash token =
      let offset = hash_string token % hash.buckets in
      (offset, find_entry (get_or hash.table offset []) token)

  unfoldable pub cl_lexhash_find : LexHash D → List ℕ → Option Entry
  unfolding cl_lexhash_find_i
  cl_lexhash_find hash token = (cl_lexhash_find_i hash token).1

  -- A new entry goes to the end of its chain.
  unfoldable pub insert_entry : LexHash D → ℕ → Entry → LexHash D
  insert_entry hash offset e = record hash {
    table = set hash.table offset (get_or hash.table offset [] ++ e ∷ []);
    entries = hash.entries + 1;
    next_id = hash.next_id + 1;
  }

  unfoldable pub cl_lexhash_add : LexHash D → List ℕ → Option (LexHash D × Entry)
  cl_lexhash_add hash token =
      let (offset, entry) = cl_lexhash_find_i hash token in
      let fresh : Entry = record { key = token; freq = 1; id = hash.next_id } in
      let grown = insert_entry hash offset fresh in
      elim entry [
        | some e ↦ some (
          record hash {
            table = set hash.table offset (bump_entry (get_or hash.table offset []) token);
          },
          record e { freq = (e.freq + 1) % 2 ^ 32 },
        )
        | none ↦
            if grown.auto_grow
              && gt (of_ℕ grown.entries) (mul grown.fillrate_limit (of_ℕ grown.buckets))
            then Option.map (λ r. (r.0, fresh)) (cl_lexhash_check_grow grown)
            else some (grown, fresh)
      ]

  unfoldable pub cl_lexhash_id : LexHash D → List ℕ → ℤ
  cl_lexhash_id hash token = elim (cl_lexhash_find_i hash token).1 [
    | some e ↦ pos e.id
    | none ↦ negsuc 0
  ]

  -- `unsigned freq`, returned as an int.
  unfoldable pub cl_lexhash_freq : LexHash D → List ℕ → ℤ
  cl_lexhash_freq hash token = elim (cl_lexhash_find_i hash token).1 [
    | some e ↦ signed32 e.freq
    | none ↦ pos 0
  ]

  -- `unsigned f`, returned as an int.
  unfoldable pub cl_lexhash_del : LexHash D → List ℕ → LexHash D × ℤ
  cl_lexhash_del hash token =
      let (offset, entry) = cl_lexhash_find_i hash token in
      elim entry [
        | none ↦ (hash, pos 0)
        | some e ↦ (
          record hash {
            table = set hash.table offset (unlink_entry (get_or hash.table offset []) token);
            entries = hash.entries - 1;
          },
          signed32 e.freq,
        )
      ]

  unfoldable pub cl_lexhash_size : LexHash D → ℕ
  cl_lexhash_size hash = hash.entries

  unfoldable pub cl_lexhash_iterator_reset : LexHash D → LexHash D
  cl_lexhash_iterator_reset hash = record hash { iter_bucket = negsuc 0; iter_point = [] }

  unfoldable pub cl_lexhash_iterator_next : LexHash D → LexHash D × Option Entry
  cl_lexhash_iterator_next hash = elim hash.iter_point [
    | e ∷ r ↦ (record hash { iter_point = r }, some e)
    | [] ↦
        let b = next_bucket hash.iter_bucket in
        let found = seek_bucket (hash.buckets - b) b hash.table in
        elim found.1 [
          | [] ↦ (record hash { iter_bucket = pos found.0 }, none)
          | e ∷ r ↦ (record hash { iter_bucket = pos found.0; iter_point = r }, some e)
        ]
  ]
