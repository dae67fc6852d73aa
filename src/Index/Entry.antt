-- ===== src/Index/Entry.antt =====
-- The entry of a type in the index, plain or compressed: where `cl_id2cpos_oldstyle` without ranges finds
-- its positions.
use mathlib.Core.Option.{some-injective}
use cwb.Base.{
  ℕ, zero, suc, ◌+◌, ◌%◌, ◌^◌, ◌≤◌, ◌≡◌, refl, sym, ap, ◌∙◌, true, false, Option, none, some, List,
  [], ◌∷◌, arith, ltb, leb, get_elem?, length, length-take, length-drop, take, drop, chained,
  guarded, leb→le, ◌⊎◌, inl, inr,
}
use cwb.Base.Int.{ℤ, pos, eqb_ℤ, unsigned32}
use cwb.BitIo.Stream.{BStream}
use cwb.Compression.Golomb.{compute_ba, read_golomb_code_bs}
use cwb.Corpus.Struc.{cda_ok}
use cwb.Index.Positional.{PosAttribute, accepted, pos_arg, cl_index_compressed}
use cwb.Index.Lookup.{
  checked, check_id, stream_at, ints_at, reduce, positions_loop, plain_positions,
  compressed_positions, cl_id2cpos_oldstyle,
}

module _ (ceil_log2 : ℕ → ℕ) (ratio : ℕ → ℕ → ℤ) where
  pub record PlainEntry (a : PosAttribute) (i n : ℕ) (buffer : List ℕ) : Type 0 where
    pub rev : List ℕ
    pub idx : List ℕ
    pub offset : ℕ
    pub uses : eqb_ℤ (cl_index_compressed (some a)) (pos 0) ≡ true
    pub rev_corpus : a.rev_corpus ≡ some rev
    pub rev_corpus_idx : a.rev_corpus_idx ≡ some idx
    pub at : get_elem? idx i ≡ some offset
    pub ints : ints_at rev offset n ≡ some buffer

  pub record CodedEntry (a : PosAttribute) (i size n : ℕ) (buffer : List ℕ) : Type 0 where
    pub rf : List ℕ
    pub rfx : List ℕ
    pub offset : ℕ
    pub bs : BStream
    pub uses : eqb_ℤ (cl_index_compressed (some a)) (pos 0) ≡ false
    pub comp_rf : a.comp_rf ≡ some rf
    pub comp_rfx : a.comp_rfx ≡ some rfx
    pub at : get_elem? rfx i ≡ some offset
    pub stream : stream_at rf offset ≡ some bs
    pub loop :
        positions_loop ceil_log2 ratio n (compute_ba ratio n size) false [] 0 bs ≡ some buffer

  pub record Entry (attribute : Option PosAttribute) (id : ℤ) (buffer : List ℕ) : Type 0 where
    pub a : PosAttribute
    pub size : ℕ
    pub n : ℕ
    pub arg : pos_arg attribute ≡ accepted a
    pub check : check_id a id ≡ checked size n
    pub kind : PlainEntry a (unsigned32 id) n buffer ⊎ CodedEntry a (unsigned32 id) size n buffer

  pub ints_at_inv :
      (contents buffer : List ℕ) (offset n : ℕ)
      → ints_at contents offset n ≡ some buffer
      → (offset + n ≤ length contents) × (take n (drop offset contents) ≡ buffer)
  unfolding ints_at
  ints_at_inv contents buffer offset n e =
      let items = take n (drop offset contents) in
      let (within, found) = guarded (leb (offset + n) (length contents)) (some items) buffer e in
      (leb→le (offset + n) (length contents) within, some-injective items buffer found)

  pub length-ints_at :
      (contents buffer : List ℕ) (offset n : ℕ)
      → ints_at contents offset n ≡ some buffer
      → length buffer ≡ n
  length-ints_at contents buffer offset n e =
      let (fits, same) = ints_at_inv contents buffer offset n e in
      let rest = length-drop offset contents in
      ap length (sym same) ∙ length-take n (drop offset contents) (omega (arith, fits, rest))

  -- A round of the loop without ranges.
  pub record Round (n b last : ℕ) (bs : BStream) (buffer : List ℕ) : Type 0 where
    pub r : BStream
    pub gap : ℤ
    pub rest : List ℕ
    pub read : read_golomb_code_bs ceil_log2 b bs ≡ some (r, gap)
    pub more :
        positions_loop ceil_log2 ratio n b false [] ((last + unsigned32 gap) % 2 ^ 32) r ≡ some rest
    pub whole : buffer ≡ (last + unsigned32 gap) % 2 ^ 32 ∷ rest

  pub positions_loop-Round :
      (n b last : ℕ) (bs : BStream) (buffer : List ℕ)
      → positions_loop ceil_log2 ratio (suc n) b false [] last bs ≡ some buffer
      → Round n b last bs buffer
  unfolding positions_loop
  positions_loop-Round n b last bs buffer e =
      let next = λ (r : BStream × ℤ). (last + unsigned32 r.1) % 2 ^ 32 in
      let loop = λ (r : BStream × ℤ). positions_loop ceil_log2 ratio n b false [] (next r) r.0 in
      let (r, read, e') =
        chained (read_golomb_code_bs ceil_log2 b bs)
          (λ r. elim (loop r) [ none ↦ none | some rest ↦ some (next r ∷ rest) ]) buffer e in
      let (rest, more, found) = chained (loop r) (λ rest. some (next r ∷ rest)) buffer e' in
      record {
        r = r.0;
        gap = r.1;
        rest = rest;
        read = read;
        more = more;
        whole = sym (some-injective (next r ∷ rest) buffer found);
      }

  pub length-positions_loop :
      (n b last : ℕ) (bs : BStream) (buffer : List ℕ)
      → positions_loop ceil_log2 ratio n b false [] last bs ≡ some buffer
      → length buffer ≡ n
  unfolding positions_loop
  length-positions_loop zero b last bs buffer e = sym (ap length (some-injective [] buffer e))
  length-positions_loop (suc n) b last bs buffer e =
      let r = positions_loop-Round n b last bs buffer e in
      ap length r.whole ∙ ap suc (length-positions_loop n b _ r.r r.rest r.more)

  pub reduce_all :
      (n : ℕ) (buffer : List ℕ) → length buffer ≡ n → reduce n buffer ≡ (some buffer, cda_ok, pos n)
  unfolding reduce
  reduce_all n buffer e =
      let same : ltb (length buffer) n ≡ false = ground (arith, e) in rw same refl

  pub cl_id2cpos-Entry :
      (attribute : Option PosAttribute) (id freq : ℤ) (buffer : List ℕ)
      (found : Entry attribute id buffer)
      → cl_id2cpos_oldstyle ceil_log2 ratio attribute id freq []
        ≡ some (some buffer, cda_ok, pos found.n)
  unfolding cl_id2cpos_oldstyle plain_positions compressed_positions
  cl_id2cpos-Entry attribute id freq buffer found = elim found.kind [
    | inl p ↦
        let all = reduce_all found.n buffer (length-ints_at p.rev buffer p.offset found.n p.ints) in
        rw
          (
            cl_id2cpos_oldstyle, plain_positions, found.arg, found.check, p.uses, p.rev_corpus,
            p.rev_corpus_idx, p.at, p.ints,
          )
          refl
    | inr c ↦
        let all =
          reduce_all found.n buffer (length-positions_loop found.n _ 0 c.bs buffer c.loop) in
        rw
          (
            cl_id2cpos_oldstyle, compressed_positions, found.arg, found.check, c.uses, c.comp_rf,
            c.comp_rfx, c.at, c.stream, c.loop, all,
          )
          refl
  ]

  pub length-Entry :
      {attribute : Option PosAttribute} {id : ℤ} {buffer : List ℕ} (x : Entry attribute id buffer)
      → length buffer ≡ x.n
  length-Entry {buffer} x = elim x.kind [
    | inl p ↦ length-ints_at p.rev buffer p.offset x.n p.ints
    | inr c ↦ length-positions_loop x.n _ 0 c.bs buffer c.loop
  ]
