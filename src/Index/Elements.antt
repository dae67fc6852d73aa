-- ===== src/Index/Elements.antt =====
-- What one round of `compress_reversed_index` appends to the data file.
use mathlib.Core.List.{append_assoc, append-nil, append_cancel_left}
use cwb.Base.{
  ℕ, ◌+◌, ◌-◌, ◌*◌, ◌%◌, ◌^◌, ◌≤◌, ◌<◌, ◌≡◌, refl, sym, ap, ◌∙◌, some, List, ◌++◌, arith, length,
  length-append, length-replicate, replicate,
}
use cwb.Base.Int.{ℤ, signed32, unsigned32}
use cwb.BitIo.Buffer.{writing}
use cwb.BitIo.File.{BFile, bf_position}
use cwb.BitIo.Bits.{low_bits, all_bits, all_bits-append}
use cwb.BitIo.Write.{IsReady, written, Wrote}
use cwb.BitIo.Extends.{HasBytes, HasBytes-both, Extends, Extends-trans}
use cwb.BitIo.Flush.{Flushed, bf_flush-Flushed}
use cwb.Compression.Golomb.{compute_ba}
use cwb.Compression.Code.{IsCeilLog2}
use cwb.Compression.Sources.{length-all_bits}
use cwb.Compression.ThroughFile.{codes}
use cwb.Index.Positional.{PosAttribute}
use cwb.Index.Restrict.{Ascends}
use cwb.Index.Streams.{PositionStream}
use cwb.Index.Reading.{Delivers}
use cwb.Index.Compress.{element_freq, open_stream, write_element}
use cwb.Index.Gaps.{gaps, write_gaps-Wrote}

-- At this offset of a file a code begins.
pub record Coded (output : List ℕ) (offset : ℕ) (code : List ℕ) : Type 0 where
  pub before : List ℕ
  pub after : List ℕ
  pub others : List ℕ
  pub whole : output ≡ before ++ after
  pub at : length before ≡ offset
  pub bytes : HasBytes after
  pub begins : all_bits after ≡ code ++ others

-- More bytes change nothing.
pub Coded-Extends :
    {s r : BFile} (offset : ℕ) (code : List ℕ)
    → Extends s r
    → Coded s.output offset code
    → Coded r.output offset code
Coded-Extends {s} {r} offset code more c = record {
  before = c.before;
  after = c.after ++ more.tail;
  others = c.others ++ all_bits more.tail;
  whole =
      more.appended ∙ ap (λ l. l ++ more.tail) c.whole ∙ append_assoc c.before c.after more.tail;
  at = c.at;
  bytes = HasBytes-both c.after more.tail c.bytes more.sound;
  begins =
      all_bits-append c.after more.tail
      ∙ ap (λ l. l ++ all_bits more.tail) c.begins
      ∙ append_assoc code c.others (all_bits more.tail);
}

-- A data file between two rounds: nothing is in the buffer.
pub record IsIdle (s : BFile) : Type 0 where
  pub ready : IsReady s
  pub empty : s.bits_in_buf ≡ 0
  pub mode : s.mode ≡ writing
  pub position : s.position ≡ length s.output

pub record Added (s : BFile) (code : List ℕ) (r : BFile) : Type 0 where
  pub idle : IsIdle r
  pub extends : Extends s r
  pub coded : Coded r.output (length s.output) code
  pub space : s.room * 8 ≤ r.room * 8 + length code + 7
  pub near : r.position * 8 ≤ s.position * 8 + length code + 7

-- A code that is written and flushed.
append_code-Added :
    (s w r : BFile) (code : List ℕ) → IsIdle s → Wrote s code w → Flushed w r → Added s code r
unfolding low_bits
append_code-Added s w r code idle wrote flushed =
    let more = Extends-trans wrote.extends flushed.extends in
    let zeros = (8 - w.bits_in_buf) % 8 in
    let pad : List ℕ = replicate zeros 0 in
    let start : written s ≡ all_bits s.output =
      ap (λ n. all_bits s.output ++ low_bits n s.buf) idle.empty ∙ append-nil (all_bits s.output) in
    let bits : all_bits s.output ++ all_bits more.tail ≡ all_bits s.output ++ (code ++ pad) =
      sym (all_bits-append s.output more.tail)
      ∙ ap all_bits (sym more.appended)
      ∙ flushed.contents
      ∙ ap (λ l. l ++ pad) (wrote.contents ∙ ap (λ l. l ++ code) start)
      ∙ append_assoc (all_bits s.output) code pad in
    let begins = append_cancel_left (all_bits s.output) (all_bits more.tail) (code ++ pad) bits in
    let tail_bits : length more.tail * 8 ≤ length code + 7 = omega (
      arith,
      ap length begins,
      length-all_bits more.tail,
      length-append code pad,
      length-replicate {A = ℕ} zeros 0,
    ) in
    record {
      idle = record {
        ready = flushed.ready;
        empty = flushed.empty;
        mode = flushed.mode ∙ wrote.mode ∙ idle.mode;
        position = omega (
          arith,
          more.counted,
          idle.position,
          ap length more.appended,
          length-append s.output more.tail,
        );
      };
      extends = more;
      coded = record {
        before = s.output;
        after = more.tail;
        others = pad;
        whole = more.appended;
        at = refl;
        bytes = more.sound;
        begins = begins;
      };
      space = omega (arith, more.taken, tail_bits);
      near = omega (arith, more.counted, tail_bits);
    }

pub compute_ba-le : (ratio : ℕ → ℕ → ℤ) (f size : ℕ) → 2 ≤ compute_ba ratio f size
unfolding compute_ba
compute_ba-le ratio f size = ground arith

-- The code of the positions of a type.
abbrev pub code_of : (ℕ → ℕ) → (ℕ → ℕ → ℤ) → ℕ → List ℕ → List ℕ
code_of ceil_log2 ratio size buffer =
    codes ceil_log2 (compute_ba ratio (length buffer) size) (gaps 0 buffer)

-- Below 2^32 the 32 bits that are written are the offset.
offset_written : (n : ℕ) → n < 2 ^ 32 → unsigned32 (signed32 (n % 2 ^ 32)) ≡ n
offset_written n h = ground arith

module _ (ceil_log2 : ℕ → ℕ) (ratio : ℕ → ℕ → ℤ) (c : IsCeilLog2 ceil_log2) where
  -- One round of the loop.
  pub write_element-Added :
      (a : PosAttribute) (size i : ℕ) (buffer : List ℕ) (ps : PositionStream) (s : BFile)
      → compute_ba ratio (length buffer) size ≤ 2 ^ 30
      → element_freq a i ≡ some (length buffer)
      → open_stream ceil_log2 ratio a i ≡ some ps
      → Delivers ceil_log2 ratio ps buffer
      → Ascends 0 buffer
      → IsIdle s
      → s.position < 2 ^ 32
      → length (code_of ceil_log2 ratio size buffer) ≤ s.room * 8
      → (r : BFile) × (write_element ceil_log2 ratio a size i s ≡ some (r, length s.output))
        × Added s (code_of ceil_log2 ratio size buffer) r
  unfolding write_element bf_position
  write_element-Added a size i buffer ps s hi freq stream d up idle near space =
      let b = compute_ba ratio (length buffer) size in
      let (w, gaps_run, wrote) =
        write_gaps-Wrote ceil_log2 ratio b c (compute_ba-le ratio (length buffer) size) hi 0 buffer
          ps s up d idle.ready (omega (arith, space, idle.empty)) in
      let (r, flush_run, flushed) =
        bf_flush-Flushed w wrote.ready (wrote.mode ∙ idle.mode)
          (λ h. omega (arith, h, wrote.space, space, idle.empty)) in
      (
        r,
        rw (write_element, freq, stream, gaps_run, flush_run)
            (ap (λ o. some (r, o)) (offset_written s.position near ∙ idle.position)),
        append_code-Added s w r (code_of ceil_log2 ratio size buffer) idle wrote flushed,
      )
