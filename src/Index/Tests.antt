-- ===== src/Index/Tests.antt =====
-- The index of a positional attribute at concrete inputs.
use mathlib.Core.Option
use cwb.Base.{ℕ, zero, suc, ◌≡◌, refl, true, false, none, some, List, [], ◌∷◌, arith}
use cwb.Base.Int.{ℤ, pos}
use cwb.Compression.Tests.{least_exponent}
use cwb.Corpus.Struc.{cda_ok}
use cwb.Index.Positional.{
  PosAttribute, PosArg, accepted, refused, att_pos, pos_arg, cl_index_compressed,
  cl_sequence_compressed, cl_max_cpos, cl_max_id, cl_id2freq, cl_idlist2freq, sum_freqs,
}
use cwb.Index.Restrict.{in_ranges, kept}
use cwb.Index.Lookup.{check_freq, check_id, ints_at, reduce, plain_positions, cl_id2cpos_oldstyle}
use cwb.Index.Ranges.{cl_id2cpos_oldstyle-kept}
use cwb.Index.WriteRead.{with_compressed}

-- The words 0 1 0 0 1.
abbrev words : PosAttribute
words = record {
  kind = att_pos;
  corpus = some (0 ∷ 1 ∷ 0 ∷ 0 ∷ 1 ∷ []);
  corpus_loaded = true;
  huff_seq = none;
  huff_codes = none;
  huff_sync = none;
  hc = none;
  lexicon_idx = some (0 ∷ 4 ∷ []);
  freqs = some (3 ∷ 2 ∷ []);
  rev_corpus = some (0 ∷ 2 ∷ 3 ∷ 1 ∷ 4 ∷ []);
  rev_corpus_idx = some (0 ∷ 3 ∷ []);
  rev_loaded = false;
  comp_rf = none;
  comp_rfx = none;
}

abbrev ratio : ℕ → ℕ → ℤ
ratio ft corpus_size = pos 3

abbrev positions : ℕ → List ℕ
positions zero = 0 ∷ 2 ∷ 3 ∷ []
positions (suc id) = 1 ∷ 4 ∷ []

plain_test :
    cl_id2cpos_oldstyle least_exponent ratio (some words) (pos 0) (pos 0) []
    ≡ some (some (0 ∷ 2 ∷ 3 ∷ []), cda_ok, pos 3)
unfolding cl_id2cpos_oldstyle pos_arg check_id check_freq cl_max_cpos cl_max_id cl_id2freq
    cl_sequence_compressed cl_index_compressed plain_positions ints_at reduce
plain_test = refl

cl_id2cpos_oldstyle-kept_example :
    cl_id2cpos_oldstyle least_exponent ratio (some words) (pos 0) (pos 0) ((1, 2) ∷ [])
    ≡ some (some (2 ∷ []), cda_ok, pos 1)
unfolding reduce kept in_ranges
cl_id2cpos_oldstyle-kept_example =
    cl_id2cpos_oldstyle-kept least_exponent ratio (some words) (pos 0) (pos 0) cda_ok (pos 3)
      (0 ∷ 2 ∷ 3 ∷ []) (1, 2) [] plain_test (omega arith, (omega arith, (omega arith, tt)))
      (omega arith, tt)

-- With the index as `compress_reversed_index` writes it.
abbrev coded : PosAttribute
coded = with_compressed words (26 ∷ 80 ∷ []) (0 ∷ 1 ∷ [])

abbrev attribute_of : PosArg → PosAttribute
attribute_of (refused e) = words
attribute_of (accepted a) = a

frequencies_test : cl_idlist2freq (some words) (some (pos 0 ∷ pos 1 ∷ [])) ≡ (pos 5, cda_ok)
unfolding cl_idlist2freq sum_freqs cl_id2freq pos_arg
frequencies_test = refl
