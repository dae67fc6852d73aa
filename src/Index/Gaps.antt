-- ===== src/Index/Gaps.antt =====
-- The gaps between the positions of a type, as they are written and read.
use mathlib.Core.List.{append_assoc}
use mathlib.Core.Path.{subst}
use cwb.Base.{
  ℕ, ◌+◌, ◌-◌, ◌%◌, ◌^◌, ◌≤◌, ◌≡◌, refl, sym, ap, false, some, List, [], ◌∷◌, ◌++◌, arith, length,
  length-append, ltb,
}
use cwb.Base.Int.{ℤ}
use cwb.BitIo.File.{BFile}
use cwb.BitIo.Stream.{BStream}
use cwb.BitIo.Write.{IsReady, free, Wrote, Wrote-nil, Wrote-append}
use cwb.Compression.Golomb.{stream_source}
use cwb.Compression.Code.{IsCeilLog2, golomb_bits}
use cwb.Compression.RoundTrip.{read_golomb_code_lem}
use cwb.Compression.Sources.{StreamLeft, stream_source-IsBitSource}
use cwb.Compression.ThroughFile.{codes, AllInts}
use cwb.Compression.Write.{write_golomb_code-Wrote}
use cwb.Index.Lookup.{positions_loop}
use cwb.Index.Restrict.{Ascends}
use cwb.Index.Streams.{PositionStream}
use cwb.Index.Reading.{Delivers, cl_read_stream-Delivers}
use cwb.Index.Compress.{next_position, write_gaps}

abbrev pub gaps : ℕ → List ℕ → List ℕ
gaps last_pos [] = []
gaps last_pos (p ∷ buffer) = (p - last_pos) ∷ gaps p buffer

module _ (ceil_log2 : ℕ → ℕ) (ratio : ℕ → ℕ → ℤ) (b : ℕ) (c : IsCeilLog2 ceil_log2) (lo : 2 ≤ b)
    (hi : b ≤ 2 ^ 30) where
  -- The loop of the reader restores the positions.
  pub positions_loop-gaps :
      (last : ℕ) (buffer : List ℕ) (bs : BStream) (bits : List ℕ)
      → Ascends last buffer
      → AllInts buffer
      → StreamLeft bs (codes ceil_log2 b (gaps last buffer) ++ bits)
      → positions_loop ceil_log2 ratio (length buffer) b false [] last bs ≡ some buffer
  unfolding positions_loop codes
  positions_loop-gaps last [] bs bits up small left = refl
  positions_loop-gaps last (p ∷ buffer) bs bits (le, up) (h, small) left =
      let rest = codes ceil_log2 b (gaps p buffer) in
      let code = golomb_bits ceil_log2 (p - last) b in
      let (r, read, left') =
        read_golomb_code_lem stream_source StreamLeft stream_source-IsBitSource ceil_log2 (p - last)
          b bs (rest ++ bits) c lo hi (omega (arith, h))
          (subst (StreamLeft bs) (append_assoc code rest bits) left) in
      let here : (last + (p - last)) % 2 ^ 32 ≡ p = omega (arith, le, h) in
      let more =
        subst (λ q. positions_loop ceil_log2 ratio (length buffer) b false [] q r ≡ some buffer)
          (sym here) (positions_loop-gaps p buffer r bits up small left') in
      rw (positions_loop, read, more) (ap (λ q. some (q ∷ buffer)) here)

  next_step :
      (p : ℕ) (buffer : List ℕ) (ps : PositionStream)
      → Delivers ceil_log2 ratio ps (p ∷ buffer)
      → (t : PositionStream) × (next_position ceil_log2 ratio ps ≡ some (t, p))
        × Delivers ceil_log2 ratio t buffer
  unfolding next_position
  next_step p buffer ps d =
      let (t, run, d') = cl_read_stream-Delivers ceil_log2 ratio 1 ps (p ∷ buffer) d in
      (t, rw (next_position, run) refl, d')

  -- The loop of the writer appends the codes of the gaps.
  pub write_gaps-Wrote :
      (last : ℕ) (buffer : List ℕ) (ps : PositionStream) (s : BFile)
      → Ascends last buffer
      → Delivers ceil_log2 ratio ps buffer
      → IsReady s
      → length (codes ceil_log2 b (gaps last buffer)) ≤ free s
      → (r : BFile) × (write_gaps ceil_log2 ratio (length buffer) b last ps s ≡ some r)
        × Wrote s (codes ceil_log2 b (gaps last buffer)) r
  unfolding write_gaps codes
  write_gaps-Wrote last [] ps s up d ready space = (s, refl, Wrote-nil s ready)
  write_gaps-Wrote last (p ∷ buffer) ps s (le, up) d ready space =
      let code = golomb_bits ceil_log2 (p - last) b in
      let rest = codes ceil_log2 b (gaps p buffer) in
      let size = length-append code rest in
      let (t, next, d') = next_step p buffer ps d in
      let (u, wrote, w) =
        write_golomb_code-Wrote ceil_log2 (p - last) b s c lo hi ready
          (omega (arith, space, size)) in
      let (r, more, w') =
        write_gaps-Wrote p buffer t u up d' w.ready (omega (arith, space, size, w.space)) in
      let ascending : ltb p last ≡ false = ground (arith, le) in
      (r, rw (write_gaps, next, ascending, wrote) more, Wrote-append code rest w w')
