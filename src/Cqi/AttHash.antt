-- ===== src/Cqi/AttHash.antt =====
-- CQi/server.c: the hash table of attributes. A slot of a string `none` is empty. The corpora and
-- attributes themselves, which other parts of the program make and delete, are parameters.
use cwb.Base.{
  ℕ, zero, suc, ◌+◌, ◌/◌, ◌%◌, Bool, Option, none, some, List, if◌then◌else◌, ◌==◌, leb, get_or,
  set, replicate,
}
use cwb.LexHash.Hashing.{hash_string, str_eq, find_prime}
use cwb.Cqi.Names.{status_ok, split_attribute_spec}

abbrev pub att_none : ℕ
att_none = 0

-- `CQI_CQP_ERROR_NO_SUCH_CORPUS`, `CQI_CL_ERROR_NO_SUCH_ATTRIBUTE`, `CQI_CL_ERROR_WRONG_ATTRIBUTE_TYPE`
abbrev pub no_such_corpus : ℕ
no_such_corpus = 0x0502

abbrev pub no_such_attribute : ℕ
no_such_attribute = 0x0401

abbrev pub wrong_attribute_type : ℕ
wrong_attribute_type = 0x0402

-- `AttBucket`; an `attribute` of `none` is NULL.
pub record AttBucket (Attribute : Type 0) : Type 0 where
  pub string : Option (List ℕ)
  pub attribute : Option Attribute
  pub kind : ℕ

-- `struct att_hashtable`
pub record AttHashTable (Attribute : Type 0) : Type 0 where
  pub space : List (AttBucket Attribute)
  pub size : ℕ

-- A slot past the end is the first one.
abbrev pub wrapped : ℕ → ℕ → ℕ
wrapped size p = if leb size p then 0 else p

module _ {Attribute : Type 0} where
  -- A slot after `memset`, and one that was just taken.
  abbrev pub empty_bucket : AttBucket Attribute
  empty_bucket = record { string = none; attribute = none; kind = att_none }

  abbrev pub new_bucket : List ℕ → AttBucket Attribute
  new_bucket str = record { string = some str; attribute = none; kind = att_none }

  abbrev pub bucket : AttHashTable Attribute → ℕ → AttBucket Attribute
  bucket hash p = get_or hash.space p empty_bucket

  -- `none` is a search for a prime that overflows.
  unfoldable pub make_attribute_hash : ℕ → Option (AttHashTable Attribute)
  make_attribute_hash size = elim (find_prime size) [
    | none ↦ none
    | some n ↦ some (record { space = replicate n empty_bucket; size = n })
  ]

  -- What a round does at slot `q`, with the outcome of the next rounds.
  unfoldable pub visit :
      AttHashTable Attribute
      → ℕ
      → List ℕ
      → Option (AttHashTable Attribute × ℕ)
      → Option (AttHashTable Attribute × ℕ)
  visit hash q str further = elim (bucket hash q).string [
    | none ↦ some (record hash { space = set hash.space q (new_bucket str) }, q)
    | some key ↦ if str_eq key str then some (hash, q) else further
  ]

  -- `for (i = size / 5; i > 0; p++, i--)`; `none` is the exit after too many collisions.
  unfoldable pub probe :
      ℕ → ℕ → AttHashTable Attribute → List ℕ → Option (AttHashTable Attribute × ℕ)
  unfolding visit
  probe zero p hash str = none
  probe (suc i) p hash str =
      let q = wrapped hash.size p in visit hash q str (probe i (q + 1) hash str)

  unfoldable pub att_hash_lookup :
      AttHashTable Attribute → List ℕ → Option (AttHashTable Attribute × ℕ)
  unfolding probe
  att_hash_lookup hash str = probe (hash.size / 5) (hash_string str % hash.size) hash str

  -- The attribute that was opened is kept in its slot.
  abbrev pub keep :
      AttHashTable Attribute
      → ℕ
      → ℕ
      → ℕ × Option Attribute
      → AttHashTable Attribute × ℕ × Option Attribute
  keep hash p kind (e, none) = (hash, e, none)
  keep hash p kind (e, some a) = (
    record hash {
      space = set hash.space p (record (bucket hash p) { attribute = some a; kind = kind });
    },
    e,
    some a,
  )

-- `findcorpus` and `access_corpus` as one operation, and `cl_new_attribute`.
module _ {Corpus Attribute : Type 0} (open_corpus : List ℕ → Option Corpus)
    (new_attribute : Corpus → List ℕ → ℕ → Option Attribute) where
  -- `none` in place of the attribute is an error of this number.
  unfoldable pub open_attribute : List ℕ → ℕ → Option (ℕ × Option Attribute)
  open_attribute name kind = elim (split_attribute_spec name) [
    | none ↦ none
    | some (e, none) ↦ some (e, none)
    | some (e, some (corpus, attribute)) ↦ elim (open_corpus corpus) [
      | none ↦ some (no_such_corpus, none)
      | some cl ↦ elim (new_attribute cl attribute kind) [
        | none ↦ some (no_such_attribute, none)
        | some a ↦ some (status_ok, some a)
      ]
    ]
  ]

  -- The table, `cqi_errno` and the attribute.
  unfoldable pub cqi_lookup_attribute :
      AttHashTable Attribute → List ℕ → ℕ → Option (AttHashTable Attribute × ℕ × Option Attribute)
  unfolding open_attribute
  cqi_lookup_attribute hash name kind = elim (att_hash_lookup hash name) [
    | none ↦ none
    | some (h, p) ↦ elim (bucket h p).attribute [
      | some a ↦ some (
          if (bucket h p).kind == kind
          then (h, status_ok, some a)
          else (h, wrong_attribute_type, none))
      | none ↦ elim (open_attribute name kind) [ none ↦ none | some r ↦ some (keep h p kind r) ]
    ]
  ]

-- `cl_delete_attribute` is a parameter.
module _ {Attribute : Type 0} where
  unfoldable pub cqi_drop_attribute :
      (Attribute → Bool) → AttHashTable Attribute → List ℕ → Option (AttHashTable Attribute × ℕ)
  cqi_drop_attribute delete_attribute hash name = elim (att_hash_lookup hash name) [
    | none ↦ none
    | some (h, p) ↦ elim (bucket h p).attribute [
      | none ↦ some (h, 0)
      | some a ↦ some (
          if delete_attribute a
          then (
            record h {
              space = set h.space p (record (bucket h p) { attribute = none; kind = att_none });
            },
            1,
          )
          else (h, 0))
    ]
  ]
