-- ===== src/Index/Ranges.antt =====
-- What a restrictor list does to the result of `cl_id2cpos_oldstyle`.
use mathlib.Core.Path.{subst}
use cwb.Base.{
  ℕ, zero, suc, ◌+◌, ◌%◌, ◌^◌, ◌≡◌, refl, sym, ap, true, false, Option, some, List, [], ◌∷◌, length,
  inl, inr,
}
use mathlib.Core.Option.{some-injective}
use cwb.Base.Int.{ℤ, unsigned32}
use cwb.BitIo.Stream.{BStream}
use cwb.Index.Positional.{PosAttribute}
use cwb.Index.Lookup.{
  reduce, positions_loop, plain_positions, compressed_positions, cl_id2cpos_oldstyle,
}
use cwb.Index.Restrict.{
  skip_ranges, kept, Ascends, StartsAscend, restrict_buffer-kept, skip_ranges-kept,
}
use cwb.Index.Entry.{positions_loop-Round, length-ints_at, length-positions_loop}
use cwb.Index.Found.{cl_id2cpos_oldstyle-Entry}

module _ (ceil_log2 : ℕ → ℕ) (ratio : ℕ → ℕ → ℤ) where
  positions_loop-kept :
      (n b last low k : ℕ) (bs : BStream) (buffer : List ℕ) (ranges : List (ℕ × ℕ))
      → positions_loop ceil_log2 ratio n b false [] last bs ≡ some buffer
      → Ascends low buffer
      → StartsAscend k ranges
      → positions_loop ceil_log2 ratio n b true ranges last bs ≡ some (kept ranges buffer)
  unfolding positions_loop kept
  positions_loop-kept zero b last low k bs buffer ranges run up starts =
      ap (λ l. some (kept ranges l)) (some-injective [] buffer run)
  positions_loop-kept (suc n) b last low k bs buffer ranges run up starts =
      let r = positions_loop-Round ceil_log2 ratio n b last bs buffer run in
      let p = (last + unsigned32 r.gap) % 2 ^ 32 in
      let (le, up') = subst (Ascends low) r.whole up in
      let (first, same, starts') = skip_ranges-kept k p r.rest ranges up' starts in
      let more =
        positions_loop-kept n b p p k r.r r.rest (skip_ranges p ranges) r.more up' starts' in
      rw (positions_loop, r.read, more, first, same) (sym (ap (λ l. some (kept ranges l)) r.whole))

  -- With a list of ranges whose starts ascend: where `cl_id2cpos_oldstyle` without ranges returns an
  -- ascending list of positions, from the plain index or the compressed one, it returns with the
  -- ranges those of the positions that are in any of them, in their order, and their number; NULL for
  -- an empty list.
  pub cl_id2cpos_oldstyle-kept :
      (attribute : Option PosAttribute) (id freq e f : ℤ) (buffer : List ℕ) (range : ℕ × ℕ)
      (ranges : List (ℕ × ℕ))
      → cl_id2cpos_oldstyle ceil_log2 ratio attribute id freq [] ≡ some (some buffer, e, f)
      → Ascends 0 buffer
      → StartsAscend 0 (range ∷ ranges)
      → cl_id2cpos_oldstyle ceil_log2 ratio attribute id freq (range ∷ ranges)
        ≡ some (reduce (length buffer) (kept (range ∷ ranges) buffer))
  unfolding cl_id2cpos_oldstyle plain_positions compressed_positions
  cl_id2cpos_oldstyle-kept attribute id freq e f buffer range ranges run up starts =
      let x = cl_id2cpos_oldstyle-Entry ceil_log2 ratio attribute id freq e f buffer run in
      let within = range ∷ ranges in
      elim x.kind [
        | inl p ↦
            let size = length-ints_at ceil_log2 ratio p.rev buffer p.offset x.n p.ints in
            let keep = restrict_buffer-kept 0 0 buffer within up starts in
            rw
              (
                cl_id2cpos_oldstyle, plain_positions, x.arg, x.check, p.uses, p.rev_corpus,
                p.rev_corpus_idx, p.at, p.ints, keep, size,
              )
              refl
        | inr c ↦
            let size = length-positions_loop ceil_log2 ratio x.n _ 0 c.bs buffer c.loop in
            let keep = positions_loop-kept x.n _ 0 0 0 c.bs buffer within c.loop up starts in
            rw
              (
                cl_id2cpos_oldstyle, compressed_positions, x.arg, x.check, c.uses, c.comp_rf,
                c.comp_rfx, c.at, c.stream, keep, size,
              )
              refl
      ]
