-- ===== src/Index/WriteRead.antt =====
-- The compressed index that `compress_reversed_index` writes, read by `cl_id2cpos_oldstyle`.
use mathlib.Core.Option.{some-injective, none-ne-some}
use mathlib.Core.Path.{subst, ap₂}
use cwb.Base.{
  ℕ, ◌^◌, ◌≤◌, ◌<◌, ◌≡◌, refl, sym, ap, ◌∙◌, true, false, Option, none, some, List, [], ◌++◌, arith,
  length, get_elem?, drop, drop-append, drop_all, ◌==◌, if◌then◌else◌, Bool-cases, inl, inr,
}
use cwb.Base.Int.{ℤ, pos, negsuc, eqb_ℤ}
use cwb.BitIo.Buffer.{reading}
use cwb.BitIo.File.{BFile, bf_flush, bf_close}
use cwb.BitIo.Stream.{BStream, bs_open, bs_seek}
use cwb.Compression.Golomb.{compute_ba}
use cwb.Compression.Code.{IsCeilLog2}
use cwb.Compression.Sources.{StreamLeft}
use cwb.Compression.ThroughFile.{AllInts, close_writing, opened, opened-Left}
use cwb.Corpus.Struc.{cda_ok}
use cwb.Index.Positional.{
  PosAttribute, PosArg, att_pos, accepted, refused, pos_arg, cl_max_cpos, cl_max_id, cl_id2freq,
  cl_index_compressed, cl_sequence_compressed,
}
use cwb.Index.Restrict.{Ascends}
use cwb.Index.Lookup.{positive, checked, check_id, stream_at, cl_id2cpos_oldstyle}
use cwb.Index.Chunks.{OffsetOf, cl_new_stream-Delivers}
use cwb.Index.CheckId.{check_id-Checked, check_id-same}
use cwb.Index.Entry.{Entry, length-Entry}
use cwb.Index.Found.{cl_id2cpos_oldstyle-Entry}
use cwb.Index.Gaps.{positions_loop-gaps}
use cwb.Index.Compress.{element_freq, open_stream}
use cwb.Index.Elements.{Coded, IsIdle, code_of, compute_ba-le}
use cwb.Index.Rounds.{Row}

drop_left : (before after : List ℕ) → drop (length before) (before ++ after) ≡ after
drop_left before after =
    drop-append (length before) before after (omega arith)
    ∙ ap (λ l. l ++ after) (drop_all (length before) before (omega arith))

-- A stream at the offset of a code reads it.
pub stream_at-Coded :
    (output code : List ℕ) (offset : ℕ) (c : Coded output offset code)
    → (bs : BStream) × (stream_at output offset ≡ some bs) × StreamLeft bs (code ++ c.others)
unfolding stream_at bs_open bs_seek
stream_at-Coded output code offset c =
    let (ready, left) = opened-Left c.after c.bytes in
    (
      record { base = some output; mode = reading; buf = 0; bits_in_buf = 0; position = offset },
      refl,
      (
        opened c.after 0 reading,
        record {
          bytes = output;
          base = refl;
          input =
              sym (drop_left c.before c.after)
              ∙ ap (λ n. drop n (c.before ++ c.after)) c.at
              ∙ ap (drop offset) (sym c.whole);
          buf = refl;
          bits_in_buf = refl;
        },
        (ready, left ∙ c.begins),
      ),
    )

pub close_idle : (s : BFile) → IsIdle s → bf_close s ≡ some (s, 1)
unfolding bf_flush
close_idle s idle =
    let m = idle.mode in
    let e = idle.empty in
    let flushed : bf_flush s ≡ some (s, 0) = ground arith in close_writing s s 0 m flushed

-- The attribute while its index is compressed, and with the compressed index in place of the plain one.
abbrev pub loaded : PosAttribute → PosAttribute
loaded a = record a { rev_loaded = true }

abbrev pub with_compressed : PosAttribute → List ℕ → List ℕ → PosAttribute
with_compressed a rf rfx = record a { rev_loaded = false; comp_rf = some rf; comp_rfx = some rfx }

abbrev attribute_of : PosArg → Option PosAttribute
attribute_of (refused e) = none
attribute_of (accepted a) = some a

pos_arg_inv :
    (a a' : PosAttribute) → pos_arg (some a) ≡ accepted a' → (a ≡ a') × ((a.kind == att_pos) ≡ true)
unfolding pos_arg
pos_arg_inv a a' e = elim (Bool-cases (a.kind == att_pos)) [
  | inl is_pos ↦
      let e' = rw (pos_arg, is_pos) at e in (some-injective a a' (ap attribute_of e'), is_pos)
  | inr other_kind ↦
      let e' = rw (pos_arg, other_kind) at e in absurd (none-ne-some a' (ap attribute_of e'))
]

element_freq-pos :
    (a : PosAttribute) (i n : ℕ)
    → 0 < n
    → cl_id2freq (some a) (pos i) ≡ (pos n, cda_ok)
    → element_freq a i ≡ some n
unfolding element_freq
element_freq-pos a i n h freq =
    let nonzero : (n == 0) ≡ false = ground (arith, h) in
    let usable : ℤ × ℤ → Option ℕ = λ r. elim r.0 [
      | negsuc k ↦ none
      | pos m ↦ if m == 0 then none else if eqb_ℤ r.1 cda_ok then some m else none
    ] in
    let found : element_freq a i ≡ usable (pos n, cda_ok) = ap usable freq in
    found ∙ rw nonzero refl

-- The checks do not depend on which index is there.
check_id-with_compressed :
    (a : PosAttribute) (i : ℕ) (rf rfx : List ℕ)
    → (a.kind == att_pos) ≡ true
    → check_id (with_compressed a rf rfx) (pos i) ≡ check_id (loaded a) (pos i)
unfolding pos_arg cl_max_cpos cl_max_id cl_id2freq cl_sequence_compressed
check_id-with_compressed a i rf rfx is_pos =
    let C = with_compressed a rf rfx in
    let L = loaded a in
    let sequences : cl_sequence_compressed (some C) ≡ cl_sequence_compressed (some L) =
      rw (cl_sequence_compressed, pos_arg, is_pos) refl in
    let sizes : cl_max_cpos (some C) ≡ cl_max_cpos (some L) =
      rw (cl_max_cpos, pos_arg, is_pos, sequences) refl in
    let ranges : cl_max_id (some C) ≡ cl_max_id (some L) = rw (cl_max_id, pos_arg, is_pos) refl in
    let freqs : cl_id2freq (some C) (pos i) ≡ cl_id2freq (some L) (pos i) =
      rw (cl_id2freq, pos_arg, is_pos) refl in
    check_id-same C L i sizes ranges freqs

-- With the plain index loaded, no offset of the compressed one is used.
loaded-plain : (a : PosAttribute) (id : ℤ) (offset : ℕ) → ¬ OffsetOf (some (loaded a)) id offset
unfolding pos_arg cl_index_compressed
loaded-plain a id offset (a', rfx, arg, uses, found, at) =
    let (same, is_pos) = pos_arg_inv (loaded a) a' arg in
    let plain : eqb_ℤ (cl_index_compressed (some (loaded a))) (pos 0) ≡ true =
      rw (cl_index_compressed, pos_arg, is_pos) refl in
    let compressed : eqb_ℤ (cl_index_compressed (some (loaded a))) (pos 0) ≡ false =
      subst (λ b. eqb_ℤ (cl_index_compressed (some b)) (pos 0) ≡ false) (sym same) uses in
    absurd (ground (arith, plain, compressed))

module _ (ceil_log2 : ℕ → ℕ) (ratio : ℕ → ℕ → ℤ) where
  -- The positions of a type in the plain index.
  pub record PlainRow (a : PosAttribute) (i : ℕ) (buffer : List ℕ) : Type 0 where
    pub divisor : (size : ℕ) → compute_ba ratio (length buffer) size ≤ 2 ^ 30
    pub positions :
        cl_id2cpos_oldstyle ceil_log2 ratio (some (loaded a)) (pos i) (pos 0) []
        ≡ some (some buffer, cda_ok, pos (length buffer))
    pub occurs : 0 < length buffer
    pub ascends : Ascends 0 buffer
    pub ints : AllInts buffer

  pub record Known (a : PosAttribute) (size i : ℕ) (buffer : List ℕ) : Type 0 where
    pub row : Row ceil_log2 ratio (loaded a) size i buffer
    pub is_pos : (a.kind == att_pos) ≡ true
    pub check : check_id (loaded a) (pos i) ≡ checked size (length buffer)

  pub PlainRow-Known :
      (a : PosAttribute) (size i : ℕ) (buffer : List ℕ)
      → positive (cl_max_cpos (some (loaded a))) ≡ some size
      → PlainRow a i buffer
      → Known a size i buffer
  unfolding open_stream
  PlainRow-Known a size i buffer sized p =
      let L = loaded a in
      let x =
        cl_id2cpos_oldstyle-Entry ceil_log2 ratio (some L) (pos i) (pos 0) cda_ok
          (pos (length buffer)) buffer p.positions in
      let (same, is_pos) = pos_arg_inv L x.a x.arg in
      let count = length-Entry ceil_log2 ratio x in
      let check : check_id L (pos i) ≡ checked x.size x.n =
        subst (λ a'. check_id a' (pos i) ≡ checked x.size x.n) (sym same) x.check in
      let known = check_id-Checked L i x.size x.n check in
      let size_same : x.size ≡ size = some-injective x.size size (sym known.corpus_size ∙ sized) in
      let check' : check_id L (pos i) ≡ checked size (length buffer) =
        check ∙ ap₂ checked size_same (sym count) in
      let freq : cl_id2freq (some L) (pos i) ≡ (pos (length buffer), cda_ok) =
        known.freq ∙ ap (λ n. (pos n, cda_ok)) (sym count) in
      let (ps, run, d) =
        cl_new_stream-Delivers ceil_log2 ratio (some L) (pos i) buffer x
          (λ offset o. absurd (loaded-plain a (pos i) offset o)) in
      record {
        row = record {
          ps = ps;
          divisor = p.divisor size;
          freq = element_freq-pos L i (length buffer) p.occurs freq;
          stream = rw (open_stream, run) refl;
          delivers = d;
          ascends = p.ascends;
        };
        is_pos = is_pos;
        check = check';
      }

  -- The compressed entry at an offset where the code of the element begins.
  pub compressed-Entry :
      (a : PosAttribute) (size i offset : ℕ) (buffer rf rfx : List ℕ)
      → IsCeilLog2 ceil_log2
      → Known a size i buffer
      → AllInts buffer
      → get_elem? rfx i ≡ some offset
      → Coded rf offset (code_of ceil_log2 ratio size buffer)
      → Entry ceil_log2 ratio (some (with_compressed a rf rfx)) (pos i) buffer
  unfolding pos_arg cl_index_compressed
  compressed-Entry a size i offset buffer rf rfx c known ints at coded =
      let C = with_compressed a rf rfx in
      let n = length buffer in
      let b = compute_ba ratio n size in
      let (bs, stream, left) =
        stream_at-Coded rf (code_of ceil_log2 ratio size buffer) offset coded in
      let lo = compute_ba-le ratio n size in
      let is_pos = known.is_pos in
      record {
        a = C;
        size = size;
        n = n;
        arg = rw (pos_arg, is_pos) refl;
        check = check_id-with_compressed a i rf rfx is_pos ∙ known.check;
        kind = inr (record {
          rf = rf;
          rfx = rfx;
          offset = offset;
          bs = bs;
          uses = rw (cl_index_compressed, pos_arg, is_pos) refl;
          comp_rf = refl;
          comp_rfx = refl;
          at = at;
          stream = stream;
          loop =
              positions_loop-gaps ceil_log2 ratio b c lo known.row.divisor 0 buffer bs coded.others
                known.row.ascends ints left;
        });
      }
