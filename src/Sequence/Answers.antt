-- ===== src/Sequence/Answers.antt =====
-- `cl_cpos2id` gives the same answers on the plain and the coded sequence, whatever block is kept.
use cwb.Base.{
  ℕ, ◌+◌, ◌*◌, ◌/◌, ◌%◌, ◌<◌, ◌≡◌, refl, sym, ap, ◌∙◌, true, false, Option, none, some, List, [],
  ◌∷◌, arith, if◌then◌else◌, ltb, length, drop, get_elem?, get_elem?-take, get_elem?-drop,
  get_elem?-append_left, get_elem?-lt, get_elem?-ge, map, Bool-cases, inl, inr,
}
use cwb.Base.Int.{ℤ, pos, negsuc, eqb_ℤ}
use cwb.Corpus.Struc.{cda_ok}
use cwb.Corpus.Align.{cda_eposorng}
use cwb.Index.Positional.{PosAttribute, Hcd, accepted, pos_arg, codes_of, cl_sequence_compressed}
use cwb.Sequence.Decode.{
  block_size, Block, items_in_block, load_block, item_of_block, coded_item, plain_item, cl_cpos2id,
}
use cwb.Sequence.Items.{Table}
use cwb.Sequence.Blocks.{
  block_items, length-block_items, IsSequence, IsBlock, IsCurrent, current-IsBlock,
}

-- The item at a position, and `cl_errno`.
abbrev pub item_or_error : Option ℕ → ℤ × ℤ
item_or_error none = (cda_eposorng, cda_eposorng)
item_or_error (some item) = (pos item, cda_ok)

abbrev pub answer : List ℕ → ℤ → ℤ × ℤ
answer ids (negsuc k) = (cda_eposorng, cda_eposorng)
answer ids (pos position) = item_or_error (get_elem? ids position)

abbrev answered : Block → ℤ × ℤ → Option (Block × ℤ × ℤ)
answered held r = some (held, r.0, r.1)

-- An item within its block.
block-get_elem? :
    (ids : List ℕ) (position : ℕ) (held : Block)
    → position < length ids
    → IsBlock ids (position / block_size) held
    → get_elem? held.this_block (position % block_size) ≡ get_elem? ids position
unfolding items_in_block
block-get_elem? ids position held h (nr, (others, contents)) =
    let block = position / block_size in
    let rest = position % block_size in
    let inside : rest < length (block_items ids block) =
      rw (length-block_items ids block) (ground (arith, h)) in
    let whole : block * block_size + rest ≡ position = omega arith in
    ap (λ l. get_elem? l rest) contents
    ∙ get_elem?-append_left (block_items ids block) others rest inside
    ∙ get_elem?-take block_size rest (drop (block * block_size) ids) (omega arith)
    ∙ get_elem?-drop (block * block_size) rest ids
    ∙ ap (get_elem? ids) whole

coded_step :
    (cis : List ℕ) (hc : Hcd) (cis_sync : List ℕ) (held held' : Block) (position item : ℕ)
    → ltb position hc.items ≡ true
    → (if eqb_ℤ held.this_block_nr (pos (position / block_size))
        then some (held, true)
        else load_block cis hc cis_sync (position / block_size) held)
      ≡ some (held', true)
    → get_elem? held'.this_block (position % block_size) ≡ some item
    → coded_item cis hc cis_sync held (pos position) ≡ some (held', pos item, cda_ok)
unfolding coded_item item_of_block
coded_step cis hc cis_sync held held' position item inside run here =
    rw (coded_item, inside, run, item_of_block, here) refl

coded_out :
    (cis : List ℕ) (hc : Hcd) (cis_sync : List ℕ) (held : Block) (position : ℕ)
    → ltb position hc.items ≡ false
    → coded_item cis hc cis_sync held (pos position) ≡ some (held, cda_eposorng, cda_eposorng)
unfolding coded_item
coded_out cis hc cis_sync held position out = rw (coded_item, out) refl

coded_item-answer :
    (table : Table) (cis : List ℕ) (hc : Hcd) (cis_sync ids : List ℕ) (held : Block) (position : ℤ)
    → IsSequence table cis hc cis_sync ids
    → IsCurrent ids held
    → (held' : Block) × (coded_item cis hc cis_sync held position
        ≡ answered held' (answer ids position))
      × IsCurrent ids held'
unfolding coded_item
coded_item-answer table cis hc cis_sync ids held (negsuc k) s current = (held, refl, current)
coded_item-answer table cis hc cis_sync ids held (pos position) s current =
    elim (Bool-cases (ltb position (length ids))) [
      | inr out ↦
          let past = get_elem?-ge ids position (ground (arith, out)) in
          let out' = ap (ltb position) s.count ∙ out in
          (
            held,
            coded_out cis hc cis_sync held position out'
                ∙ ap (λ o. answered held (item_or_error o)) (sym past),
            current,
          )
      | inl inside ↦
          let below : position < length ids = ground (arith, inside) in
          let block = position / block_size in
          let (held', run, is) =
            current-IsBlock table cis hc cis_sync ids block held s current (omega (arith, below)) in
          let (item, there) = get_elem?-lt ids position below in
          let here = block-get_elem? ids position held' below is ∙ there in
          let inside' = ap (ltb position) s.count ∙ inside in
          (
            held',
            coded_step cis hc cis_sync held held' position item inside' run here
                ∙ ap (λ o. answered held' (item_or_error o)) (sym there),
            inr (block, is),
          )
    ]

found_item :
    (o : Option ℕ) (held : Block)
    → elim o [
      | none ↦ some (held, cda_eposorng, cda_eposorng)
      | some item ↦ some (held, pos item, cda_ok)
    ]
      ≡ answered held (item_or_error o)
found_item none held = refl
found_item (some item) held = refl

plain_item-answer :
    (contents : List ℕ) (held : Block) (position : ℤ)
    → plain_item contents held position ≡ answered held (answer contents position)
unfolding plain_item
plain_item-answer contents held (negsuc k) = refl
plain_item-answer contents held (pos position) = found_item (get_elem? contents position) held

-- The attribute is read from these codes, or from these items.
pub record IsCodedAttribute (table : Table) (a : PosAttribute) (ids : List ℕ) : Type 0 where
  pub cis : List ℕ
  pub hc : Hcd
  pub cis_sync : List ℕ
  pub arg : pos_arg (some a) ≡ accepted a
  pub uses : eqb_ℤ (cl_sequence_compressed (some a)) (pos 1) ≡ true
  pub huff_seq : a.huff_seq ≡ some cis
  pub huff_codes : codes_of a ≡ some hc
  pub huff_sync : a.huff_sync ≡ some cis_sync
  pub sequence : IsSequence table cis hc cis_sync ids

pub record IsPlainAttribute (a : PosAttribute) (ids : List ℕ) : Type 0 where
  pub arg : pos_arg (some a) ≡ accepted a
  pub uses : eqb_ℤ (cl_sequence_compressed (some a)) (pos 1) ≡ false
  pub corpus : a.corpus ≡ some ids

coded-answer :
    (table : Table) (a : PosAttribute) (ids : List ℕ) (held : Block) (position : ℤ)
    → IsCodedAttribute table a ids
    → IsCurrent ids held
    → (held' : Block) × (cl_cpos2id (some a) held position ≡ answered held' (answer ids position))
      × IsCurrent ids held'
unfolding cl_cpos2id
coded-answer table a ids held position c current =
    let (held', run, current') =
      coded_item-answer table c.cis c.hc c.cis_sync ids held position c.sequence current in
    (held', rw (cl_cpos2id, c.arg, c.uses, c.huff_seq, c.huff_codes, c.huff_sync) run, current')

plain-answer :
    (a : PosAttribute) (ids : List ℕ) (held : Block) (position : ℤ)
    → IsPlainAttribute a ids
    → cl_cpos2id (some a) held position ≡ answered held (answer ids position)
unfolding cl_cpos2id
plain-answer a ids held position p =
    rw (cl_cpos2id, p.arg, p.uses, p.corpus) (plain_item-answer ids held position)

-- What `cl_cpos2id` returns for some positions, one after the other.
unfoldable pub read_positions : Option PosAttribute → List ℤ → Block → Option (List (ℤ × ℤ))
read_positions attribute [] held = some []
read_positions attribute (position ∷ positions) held = elim (cl_cpos2id attribute held position) [
  | none ↦ none
  | some (held', id, e) ↦ elim (read_positions attribute positions held') [
    | none ↦ none
    | some answers ↦ some ((id, e) ∷ answers)
  ]
]

coded_positions :
    (table : Table) (a : PosAttribute) (ids : List ℕ) (positions : List ℤ) (held : Block)
    → IsCodedAttribute table a ids
    → IsCurrent ids held
    → read_positions (some a) positions held ≡ some (map (answer ids) positions)
unfolding read_positions
coded_positions table a ids [] held c current = refl
coded_positions table a ids (position ∷ positions) held c current =
    let (held', run, current') = coded-answer table a ids held position c current in
    rw (read_positions, run, coded_positions table a ids positions held' c current') refl

plain_positions :
    (a : PosAttribute) (ids : List ℕ) (positions : List ℤ) (held : Block)
    → IsPlainAttribute a ids
    → read_positions (some a) positions held ≡ some (map (answer ids) positions)
unfolding read_positions
plain_positions a ids [] held p = refl
plain_positions a ids (position ∷ positions) held p =
    rw (read_positions, plain-answer a ids held position p, plain_positions a ids positions held p)
      refl

-- For an attribute with the Huffman codes of some items, of which each has a code in the table and every
-- block begins at its offset, and an attribute with the items themselves: with no block kept at first,
-- calls of `cl_cpos2id` at any positions in any order, those out of range included, return the same of
-- both, the items at the positions or CDA_EPOSORNG.
pub cl_cpos2id-same :
    (table : Table) (coded plain : PosAttribute) (ids : List ℕ) (positions : List ℤ)
    (held held' : Block)
    → IsCodedAttribute table coded ids
    → IsPlainAttribute plain ids
    → held.this_block_nr ≡ negsuc 0
    → (read_positions (some coded) positions held ≡ read_positions (some plain) positions held')
      × (read_positions (some coded) positions held ≡ some (map (answer ids) positions))
cl_cpos2id-same table coded plain ids positions held held' c p start =
    let from_codes = coded_positions table coded ids positions held c (inl start) in
    (from_codes ∙ sym (plain_positions plain ids positions held' p), from_codes)
