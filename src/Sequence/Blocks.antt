-- ===== src/Sequence/Blocks.antt =====
-- The block that `cl_cpos2id` keeps is always one of the sequence.
use mathlib.Core.Path.{subst}
use cwb.Base.{
  ℕ, zero, suc, ◌-◌, ◌*◌, ◌<◌, ◌≡◌, refl, sym, ap, ◌∙◌, true, some, List, [], ◌∷◌, ◌++◌, arith,
  if◌then◌else◌, ltb, length, length-take, length-drop, take, take_all, drop, get_elem?, Bool-cases,
  ◌⊎◌, inl, inr,
}
use cwb.Base.Int.{pos, negsuc, eqb_ℤ}
use cwb.Index.Positional.{Hcd}
use cwb.Index.Elements.{Coded}
use cwb.Index.WriteRead.{stream_at-Coded}
use cwb.Sequence.Decode.{block_size, Block, items_in_block, load_block}
use cwb.Sequence.Items.{Table, code_bits, AllCodes, read_items-AllCodes}

abbrev pub block_items : List ℕ → ℕ → List ℕ
block_items ids block = take block_size (drop (block * block_size) ids)

AllCodes-drop :
    (hc : Hcd) (table : Table) (n : ℕ) (ids : List ℕ)
    → AllCodes hc table ids
    → AllCodes hc table (drop n ids)
AllCodes-drop hc table zero ids codes = codes
AllCodes-drop hc table (suc n) [] codes = tt
AllCodes-drop hc table (suc n) (id ∷ ids) (code, codes) = AllCodes-drop hc table n ids codes

AllCodes-take :
    (hc : Hcd) (table : Table) (n : ℕ) (ids : List ℕ)
    → AllCodes hc table ids
    → AllCodes hc table (take n ids)
AllCodes-take hc table zero ids codes = tt
AllCodes-take hc table (suc n) [] codes = tt
AllCodes-take hc table (suc n) (id ∷ ids) (code, codes) = (code, AllCodes-take hc table n ids codes)

pub length-block_items :
    (ids : List ℕ) (block : ℕ) → length (block_items ids block) ≡ items_in_block (length ids) block
unfolding items_in_block
length-block_items ids block =
    let rest = drop (block * block_size) ids in
    let size = length-drop (block * block_size) ids in
    elim (Bool-cases (ltb block_size (length ids - block * block_size))) [
      | inl many ↦ rw many (length-take block_size rest (ground (arith, size, many)))
      | inr few ↦
          let all = take_all block_size rest (ground (arith, size, few)) in
          rw few (ap length all ∙ size)
    ]

-- The coded sequence has these items: every block begins at its offset.
pub record IsSequence (table : Table) (cis : List ℕ) (hc : Hcd) (cis_sync ids : List ℕ)
    : Type 0 where
  pub count : hc.items ≡ length ids
  pub codes : AllCodes hc table ids
  pub blocks :
      (block : ℕ)
      → block * block_size < length ids
      → (offset : ℕ) × (get_elem? cis_sync block ≡ some offset)
        × Coded cis offset (code_bits table (block_items ids block))

-- No block is kept, or one of the sequence.
abbrev pub IsBlock : List ℕ → ℕ → Block → Type 0
IsBlock ids block held =
    (held.this_block_nr ≡ pos block)
    × ((others : List ℕ) × (held.this_block ≡ block_items ids block ++ others))

abbrev pub IsCurrent : List ℕ → Block → Type 0
IsCurrent ids held = (held.this_block_nr ≡ negsuc 0) ⊎ ((block : ℕ) × IsBlock ids block held)

load_block-IsBlock :
    (table : Table) (cis : List ℕ) (hc : Hcd) (cis_sync ids : List ℕ) (block : ℕ) (held : Block)
    → IsSequence table cis hc cis_sync ids
    → block * block_size < length ids
    → (held' : Block) × (load_block cis hc cis_sync block held ≡ some (held', true))
      × IsBlock ids block held'
unfolding load_block
load_block-IsBlock table cis hc cis_sync ids block held s h =
    let items = block_items ids block in
    let (offset, sync, coded) = s.blocks block h in
    let (bs, stream, left) = stream_at-Coded cis (code_bits table items) offset coded in
    let codes =
      AllCodes-take hc table block_size _
        (AllCodes-drop hc table (block * block_size) ids s.codes) in
    let run = read_items-AllCodes hc table items bs coded.others codes left in
    let count : items_in_block hc.items block ≡ length items =
      ap (λ n. items_in_block n block) s.count ∙ sym (length-block_items ids block) in
    let others = drop (length items) held.this_block in
    (
      record { this_block_nr = pos block; this_block = items ++ others },
      rw (load_block, sync, stream, count, run) refl,
      (refl, (others, refl)),
    )

-- The block of a position, from the one that is kept or from the sequence.
pub current-IsBlock :
    (table : Table) (cis : List ℕ) (hc : Hcd) (cis_sync ids : List ℕ) (block : ℕ) (held : Block)
    → IsSequence table cis hc cis_sync ids
    → IsCurrent ids held
    → block * block_size < length ids
    → (held' : Block) × ((if eqb_ℤ held.this_block_nr (pos block)
          then some (held, true)
          else load_block cis hc cis_sync block held)
        ≡ some (held', true))
      × IsBlock ids block held'
current-IsBlock table cis hc cis_sync ids block held s current h =
    elim (Bool-cases (eqb_ℤ held.this_block_nr (pos block))) [
      | inr miss ↦
          let (held', run, is) = load_block-IsBlock table cis hc cis_sync ids block held s h in
          (held', rw miss run, is)
      | inl hit ↦ elim current [
        | inl none_kept ↦ absurd (ground (arith, hit, none_kept))
        | inr (kept, (nr, rest)) ↦
            let same : kept ≡ block = ground (arith, hit, nr) in
            (held, rw hit refl, subst (λ b. IsBlock ids b held) same (nr, rest))
      ]
    ]
