-- ===== src/Index/Chunks.antt =====
-- A position stream delivers the list of `cl_id2cpos_oldstyle`, in pieces of any sizes.
use cwb.Base.{
  ℕ, ◌+◌, ◌^◌, ◌<◌, ◌≡◌, refl, sym, ap, ◌∙◌, true, false, get_elem?, Option, some, List, [], ◌∷◌,
  ◌++◌, arith, length, length-drop, drop, take-drop, leb, inl, inr,
}
use cwb.Base.Int.{ℤ, pos, eqb_ℤ, unsigned32}
use cwb.Corpus.Struc.{cda_ok}
use cwb.Index.Positional.{PosAttribute, accepted, pos_arg, cl_index_compressed}
use cwb.Index.Lookup.{stream_at}
use cwb.Index.Entry.{
  Entry, PlainEntry, CodedEntry, ints_at_inv, length-ints_at, length-positions_loop,
}
use cwb.Index.Streams.{PositionStream, fresh, stream_base, seek_offset, stream_code, cl_new_stream}
use cwb.Index.Reading.{Delivers}
use cwb.Compression.Golomb.{compute_ba}

abbrev total : List ℕ → ℕ
total [] = 0
total (n ∷ sizes) = n + total sizes

-- Below 2^31 the position is the offset.
seek_offset-pos : (offset : ℕ) → offset < 2 ^ 31 → seek_offset offset ≡ offset
unfolding seek_offset
seek_offset-pos offset h = ground arith

-- The offset in the compressed index, where it is the one that is used.
abbrev pub OffsetOf : Option PosAttribute → ℤ → ℕ → Type 0
OffsetOf attribute id offset =
    (a : PosAttribute) × (rfx : List ℕ) × (pos_arg attribute ≡ accepted a)
    × (eqb_ℤ (cl_index_compressed (some a)) (pos 0) ≡ false)
    × (a.comp_rfx ≡ some rfx)
    × (get_elem? rfx (unsigned32 id) ≡ some offset)

module _ (ceil_log2 : ℕ → ℕ) (ratio : ℕ → ℕ → ℤ) where
  pub plain-Delivers :
      (a : PosAttribute) (id : ℤ) (n : ℕ) (buffer : List ℕ)
      (p : PlainEntry ceil_log2 ratio a (unsigned32 id) n buffer)
      → (ps : PositionStream) × (stream_base p.rev p.idx (unsigned32 id) (fresh id n) ≡ some ps)
        × Delivers ceil_log2 ratio ps buffer
  unfolding stream_base fresh
  plain-Delivers a id n buffer p =
      let (fits, same) = ints_at_inv ceil_log2 ratio p.rev buffer p.offset n p.ints in
      let size = length-ints_at ceil_log2 ratio p.rev buffer p.offset n p.ints in
      let ints = drop p.offset p.rev in
      let inside : leb p.offset (length p.rev) ≡ true = ground (arith, fits) in
      (
        record (fresh id n) { base = some ints },
        rw (stream_base, p.at, inside) refl,
        record {
          count = omega (arith, size);
          kind = inl (record {
            ints = ints;
            others = drop n ints;
            plain = refl;
            base = refl;
            ahead = sym (take-drop n ints) ∙ ap (λ l. l ++ drop n ints) same;
            fits = omega (arith, size, fits, length-drop p.offset p.rev);
          });
        },
      )

  coded-Delivers :
      (a : PosAttribute) (id : ℤ) (size n : ℕ) (buffer : List ℕ)
      (c : CodedEntry ceil_log2 ratio a (unsigned32 id) size n buffer)
      → c.offset < 2 ^ 31
      → (ps : PositionStream) × (stream_code ceil_log2 ratio c.rf c.rfx
            (unsigned32 id)
            size
            (fresh id n)
          ≡ some ps)
        × Delivers ceil_log2 ratio ps buffer
  unfolding stream_code fresh
  coded-Delivers a id size n buffer c near =
      let length = length-positions_loop ceil_log2 ratio n _ 0 c.bs buffer c.loop in
      let stream = ap (stream_at c.rf) (seek_offset-pos c.offset near) ∙ c.stream in
      (
        record (fresh id n) {
          is_compressed = 1;
          b = compute_ba ratio n size;
          bs = c.bs;
          last_pos = 0;
        },
        rw (stream_code, c.at, stream) refl,
        record {
          count = omega (arith, length);
          kind = inr (record { coded = refl; loop = rw length c.loop });
        },
      )

  pub cl_new_stream-Delivers :
      (attribute : Option PosAttribute) (id : ℤ) (buffer : List ℕ)
      → Entry ceil_log2 ratio attribute id buffer
      → ((offset : ℕ) → OffsetOf attribute id offset → offset < 2 ^ 31)
      → (ps : PositionStream) × (cl_new_stream ceil_log2 ratio attribute id
          ≡ some (some ps, cda_ok))
        × Delivers ceil_log2 ratio ps buffer
  unfolding cl_new_stream
  cl_new_stream-Delivers attribute id buffer x ints = elim x.kind [
    | inl p ↦
        let (ps, run, d) = plain-Delivers x.a id x.n buffer p in
        (
          ps,
          rw (cl_new_stream, x.arg, x.check, p.uses, p.rev_corpus, p.rev_corpus_idx, run) refl,
          d,
        )
    | inr c ↦
        let (ps, run, d) =
          coded-Delivers x.a id x.size x.n buffer c
            (ints c.offset (x.a, c.rfx, x.arg, c.uses, c.comp_rfx, c.at)) in
        (ps, rw (cl_new_stream, x.arg, x.check, c.uses, c.comp_rf, c.comp_rfx, run) refl, d)
  ]
