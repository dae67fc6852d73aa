-- ===== src/Sequence/Decode.antt =====
-- cl/cdaccess.c: `cl_cpos2id`. A coded sequence is read in blocks, of which the attribute keeps one. `none`
-- is an access outside of an array or of a component.
use cwb.Base.{
  ℕ, zero, suc, ◌+◌, ◌-◌, ◌*◌, ◌/◌, ◌%◌, ◌^◌, Bool, true, false, Option, none, some, List, [], ◌∷◌,
  ◌++◌, if◌then◌else◌, ltb, ◌==◌, get_elem?, length, drop,
}
use cwb.Base.Int.{ℤ, pos, negsuc, eqb_ℤ}
use cwb.BitIo.Stream.{BStream, bs_read}
use cwb.Corpus.Struc.{cda_ok, cda_enodata}
use cwb.Corpus.Align.{cda_eposorng}
use cwb.Index.Positional.{
  PosAttribute, Hcd, accepted, refused, pos_arg, codes_of, cl_sequence_compressed,
}
use cwb.Index.Lookup.{stream_at}

-- SYNCHRONIZATION
abbrev pub block_size : ℕ
block_size = 128

-- The fields of POS_Attribute that `cl_cpos2id` writes; the number of the block is -1 at first.
pub record Block : Type 0 where
  pub this_block_nr : ℤ
  pub this_block : List ℕ

-- The end of the loop over the bits of a code, or of `BSread`.
pub data Code : Type 0 where
  read_error : Code
  found : BStream → ℕ → ℕ → ℕ → Code

-- `while (v < min_code[l])`, with the codes from `min_code[l]` on; the stream, l, v and `min_code[l]`.
unfoldable pub read_code : List ℕ → ℕ → ℕ → BStream → Option Code
read_code [] l v bs = none
read_code (m ∷ min_code) l v bs = elim (ltb v m) [
  | false ↦ some (found bs l v m)
  | true ↦ elim (bs_read 1 bs) [
    | none ↦ none
    | some (r, bit, ok) ↦ elim ok [
      | zero ↦ some read_error
      | suc k ↦ read_code min_code (l + 1) (v * 2 % 2 ^ 32 + (if bit == 0 then 0 else 1)) r
    ]
  ]
]

-- The first bit, and the others.
unfoldable pub start_code : Hcd → BStream → Option Code
unfolding read_code
start_code hc bs = elim (bs_read 1 bs) [
  | none ↦ none
  | some (r, bit, ok) ↦ elim ok [
    | zero ↦ some read_error
    | suc k ↦ read_code (drop 1 hc.min_code) 1 (if bit == 0 then 0 else 1) r
  ]
]

-- `symbols[symindex[l] + v - min_code[l]]`
unfoldable pub symbol : Hcd → ℕ → ℕ → ℕ → Option ℕ
symbol hc l v m = elim (get_elem? hc.symindex l) [
  | none ↦ none
  | some first ↦ get_elem? hc.symbols (first + v - m)
]

-- `for (i = 0; i < max; i++)`: the items up to the end or to an error, and whether there was none.
unfoldable pub read_items : Hcd → ℕ → BStream → Option (List ℕ × Bool)
unfolding start_code symbol
read_items hc zero bs = some ([], true)
read_items hc (suc n) bs = elim (start_code hc bs) [
  | none ↦ none
  | some read_error ↦ some ([], false)
  | some (found r l v m) ↦ elim (symbol hc l v m) [
    | none ↦ none
    | some item ↦ elim (read_items hc n r) [
      | none ↦ none
      | some (items, ok) ↦ some (item ∷ items, ok)
    ]
  ]
]

-- `max`: the items that are left from a block on, up to the size of one.
unfoldable pub items_in_block : ℕ → ℕ → ℕ
items_in_block items block =
    let left = items - block * block_size in if ltb block_size left then block_size else left

-- On a block miss: the block, and whether all its items could be read.
unfoldable pub load_block : List ℕ → Hcd → List ℕ → ℕ → Block → Option (Block × Bool)
unfolding read_items items_in_block stream_at
load_block cis hc cis_sync block held = elim (get_elem? cis_sync block) [
  | none ↦ none
  | some offset ↦ elim (stream_at cis offset) [
    | none ↦ none
    | some bs ↦ elim (read_items hc (items_in_block hc.items block) bs) [
      | none ↦ none
      | some (items, ok) ↦ some (
        record {
          this_block_nr = pos block;
          this_block = items ++ drop (length items) held.this_block;
        },
        ok,
      )
    ]
  ]
]

-- The block and `this_block[rest]`.
unfoldable pub item_of_block : ℕ → Block × Bool → Option (Block × ℤ × ℤ)
item_of_block rest (held, true) = elim (get_elem? held.this_block rest) [
  | none ↦ none
  | some item ↦ some (held, pos item, cda_ok)
]
item_of_block rest (held, false) = some (held, cda_enodata, cda_enodata)

unfoldable pub coded_item : List ℕ → Hcd → List ℕ → Block → ℤ → Option (Block × ℤ × ℤ)
unfolding load_block item_of_block
coded_item cis hc cis_sync held (negsuc k) = some (held, cda_eposorng, cda_eposorng)
coded_item cis hc cis_sync held (pos position) =
    let block = position / block_size in
    let rest = position % block_size in
    let hit : Option (Block × Bool) = some (held, true) in
    let current =
      if eqb_ℤ held.this_block_nr (pos block) then hit else load_block cis hc cis_sync block held in
    if ltb position hc.items
    then elim current [ none ↦ none | some b ↦ item_of_block rest b ]
    else some (held, cda_eposorng, cda_eposorng)

unfoldable pub plain_item : List ℕ → Block → ℤ → Option (Block × ℤ × ℤ)
plain_item contents held (negsuc k) = some (held, cda_eposorng, cda_eposorng)
plain_item contents held (pos position) = elim (get_elem? contents position) [
  | none ↦ some (held, cda_eposorng, cda_eposorng)
  | some item ↦ some (held, pos item, cda_ok)
]

-- The block that is kept, the id or an error, and `cl_errno`.
unfoldable pub cl_cpos2id : Option PosAttribute → Block → ℤ → Option (Block × ℤ × ℤ)
unfolding pos_arg coded_item plain_item
cl_cpos2id attribute held position = elim (pos_arg attribute) [
  | refused e ↦ some (held, e, e)
  | accepted a ↦
      let no_data : Option (Block × ℤ × ℤ) = some (held, cda_enodata, cda_enodata) in
      if eqb_ℤ (cl_sequence_compressed (some a)) (pos 1)
      then elim a.huff_seq [
        | none ↦ no_data
        | some cis ↦ elim (codes_of a) [
          | none ↦ no_data
          | some hc ↦ elim a.huff_sync [
            | none ↦ no_data
            | some cis_sync ↦ coded_item cis hc cis_sync held position
          ]
        ]
      ]
      else elim a.corpus [ none ↦ no_data | some contents ↦ plain_item contents held position ]
]
