-- ===== src/Sequence/Tests.antt =====
-- `cl_cpos2id` at concrete inputs.
use cwb.Base.{
  ℕ, zero, suc, ◌+◌, ◌-◌, ◌*◌, ◌/◌, ◌^◌, ◌<◌, ◌≡◌, refl, false, none, some, List, [], ◌∷◌, arith,
  get_elem?, get_or,
}
use cwb.Base.Int.{pos, negsuc}
use cwb.BitIo.Bits.{low_bits, all_bits}
use cwb.Corpus.Struc.{cda_ok}
use cwb.Corpus.Align.{cda_eposorng}
use cwb.Index.Positional.{PosAttribute, Hcd, att_pos, pos_arg, cl_sequence_compressed}
use cwb.Index.Elements.{Coded}
use cwb.Sequence.Decode.{Block, block_size}
use cwb.Sequence.Codes.{IsCode}
use cwb.Sequence.Items.{Table, code_bits}
use cwb.Sequence.Blocks.{block_items, IsSequence}
use cwb.Sequence.Answers.{read_positions, cl_cpos2id-same}

-- The codes 1, 00 and 01.
abbrev three_codes : Hcd
three_codes = record {
  items = 4;
  min_code = 0 ∷ 1 ∷ 0 ∷ [];
  symindex = 0 ∷ 0 ∷ 1 ∷ [];
  symbols = 0 ∷ 1 ∷ 2 ∷ [];
}

abbrev table : Table
table zero = (1, 1)
table (suc item) = (2, item)

abbrev ids : List ℕ
ids = 0 ∷ 2 ∷ 1 ∷ 0 ∷ []

abbrev coded : PosAttribute
coded = record {
  kind = att_pos;
  corpus = none;
  corpus_loaded = false;
  huff_seq = some (0xa4 ∷ []);
  huff_codes = some three_codes;
  huff_sync = some (0 ∷ []);
  hc = none;
  lexicon_idx = some (0 ∷ 4 ∷ 8 ∷ []);
  freqs = some (2 ∷ 1 ∷ 1 ∷ []);
  rev_corpus = none;
  rev_corpus_idx = none;
  rev_loaded = false;
  comp_rf = none;
  comp_rfx = none;
}

abbrev plain : PosAttribute
plain = record coded { corpus = some ids; huff_seq = none }

one_bit : IsCode three_codes 0 1 1
one_bit = record {
  m = 1;
  first = 0;
  positive = omega arith;
  short = omega arith;
  fits = omega arith;
  least = refl;
  above = omega arith;
  index = refl;
  at = refl;
  below = λ k d h e. absurd (omega (arith, h, e));
}

longer :
    (v : ℕ)
    → v < 2
    → (k d : ℕ) → 0 < k
    → k + suc d ≡ 2
    → (m : ℕ) × (get_elem? three_codes.min_code k ≡ some m) × (v / 2 ^ suc d < m)
longer v small zero d h e = absurd (omega (arith, h))
longer v small (suc zero) zero h e = (1, refl, omega (arith, small))
longer v small (suc zero) (suc d) h e = absurd (omega (arith, e))
longer v small (suc (suc k)) d h e = absurd (omega (arith, e))

two_bits :
    (v : ℕ)
    → v < 2
    → get_elem? three_codes.symbols (1 + v - 0) ≡ some (suc v)
    → IsCode three_codes (suc v) 2 v
two_bits v small at = record {
  m = 0;
  first = 1;
  positive = omega arith;
  short = omega arith;
  fits = omega (arith, small);
  least = refl;
  above = omega arith;
  index = refl;
  at = at;
  below = longer v small;
}

bytes : (i : ℕ) → get_or (0xa4 ∷ []) i 0 < 256
bytes zero = omega arith
bytes (suc i) = omega arith

blocks :
    (block : ℕ)
    → block * block_size < 4
    → (offset : ℕ) × (get_elem? (0 ∷ []) block ≡ some offset)
      × Coded (0xa4 ∷ []) offset (code_bits table (block_items ids block))
unfolding all_bits low_bits code_bits
blocks zero h = (
  0,
  refl,
  record {
    before = [];
    after = 0xa4 ∷ [];
    others = 0 ∷ 0 ∷ [];
    whole = refl;
    at = refl;
    bytes = bytes;
    begins = refl;
  },
)
blocks (suc block) h = absurd (omega (arith, h))

sequence : IsSequence table (0xa4 ∷ []) three_codes (0 ∷ []) ids
sequence = record {
  count = refl;
  codes =
      (one_bit, (two_bits 1 (omega arith) refl, (two_bits 0 (omega arith) refl, (one_bit, tt))));
  blocks = blocks;
}

abbrev no_block : Block
no_block = record { this_block_nr = negsuc 0; this_block = [] }

cl_cpos2id-same_example :
    (read_positions (some coded) (pos 2 ∷ pos 4 ∷ pos 1 ∷ []) no_block
      ≡ read_positions (some plain) (pos 2 ∷ pos 4 ∷ pos 1 ∷ []) no_block)
    × (read_positions (some coded) (pos 2 ∷ pos 4 ∷ pos 1 ∷ []) no_block
        ≡ some ((pos 1, cda_ok) ∷ (cda_eposorng, cda_eposorng) ∷ (pos 2, cda_ok) ∷ []))
unfolding pos_arg cl_sequence_compressed
cl_cpos2id-same_example =
    cl_cpos2id-same table coded plain ids (pos 2 ∷ pos 4 ∷ pos 1 ∷ []) no_block no_block
      (record {
        cis = 0xa4 ∷ [];
        hc = three_codes;
        cis_sync = 0 ∷ [];
        arg = refl;
        uses = refl;
        huff_seq = refl;
        huff_codes = refl;
        huff_sync = refl;
        sequence = sequence;
      })
      (record { arg = refl; uses = refl; corpus = refl }) refl
