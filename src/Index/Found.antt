-- ===== src/Index/Found.antt =====
-- A list that `cl_id2cpos_oldstyle` returns without ranges is that of an entry of the index.
use mathlib.Core.Option.{some-injective, none-ne-some}
use cwb.Base.{
  ℕ, ◌≡◌, refl, sym, ap, ◌∙◌, false, Option, none, some, List, [], get_elem?, Bool-cases, chained,
  ◌⊎◌, inl, inr,
}
use cwb.Base.Int.{ℤ, pos, eqb_ℤ, unsigned32}
use cwb.BitIo.Stream.{BStream}
use cwb.Compression.Golomb.{compute_ba}
use cwb.Corpus.Struc.{cda_ok, cda_enodata}
use cwb.Index.Positional.{PosAttribute, PosArg, accepted, refused, pos_arg, cl_index_compressed}
use cwb.Index.Lookup.{
  IdCheck, failed, checked, check_id, stream_at, ints_at, reduce, positions_loop, plain_positions,
  compressed_positions, cl_id2cpos_oldstyle,
}
use cwb.Index.Entry.{PlainEntry, CodedEntry, Entry, length-positions_loop, reduce_all}

PosArg-cases : (x : PosArg) → ((e : ℤ) × (x ≡ refused e)) ⊎ ((a : PosAttribute) × (x ≡ accepted a))
PosArg-cases (refused e) = inl (e, refl)
PosArg-cases (accepted a) = inr (a, refl)

IdCheck-cases :
    (x : IdCheck)
    → ((e : ℤ) × (f : Option ℤ) × (x ≡ failed e f)) ⊎ ((size : ℕ) × (n : ℕ) × (x ≡ checked size n))
IdCheck-cases (failed e f) = inl (e, f, refl)
IdCheck-cases (checked size n) = inr (size, n, refl)

abbrev Answer : Type 0
Answer = Option (Option (List ℕ) × ℤ × ℤ)

-- NULL is no list.
null_list :
    (e e' f f' : ℤ) (buffer : List ℕ) (x : Answer)
    → x ≡ some (none, e, f)
    → x ≡ some (some buffer, e', f')
    → ⊥
null_list e e' f f' buffer x fails run =
    none-ne-some buffer
      (ap (λ t. t.0) (some-injective (none, e, f) (some buffer, e', f') (sym fails ∙ run)))

module _ (ceil_log2 : ℕ → ℕ) (ratio : ℕ → ℕ → ℤ) where
  plain_inv :
      (rev idx : List ℕ) (i n : ℕ) (buffer : List ℕ) (e f : ℤ)
      → plain_positions ceil_log2 ratio rev idx i n [] ≡ some (some buffer, e, f)
      → (offset : ℕ) × (get_elem? idx i ≡ some offset) × (ints_at rev offset n ≡ some buffer)
  unfolding plain_positions
  plain_inv rev idx i n buffer e f run =
      let answer = λ (items : List ℕ). some (some items, cda_ok, pos n) in
      let (offset, at, run') =
        chained (get_elem? idx i)
          (λ offset. elim (ints_at rev offset n) [ none ↦ none | some items ↦ answer items ])
          (some buffer, e, f) run in
      let (items, found, last) = chained (ints_at rev offset n) answer (some buffer, e, f) run' in
      let same =
        some-injective items buffer
          (ap (λ t. t.0) (some-injective (some items, cda_ok, pos n) (some buffer, e, f) last)) in
      (offset, at, found ∙ ap some same)

  coded_inv :
      (rf rfx : List ℕ) (i size n : ℕ) (buffer : List ℕ) (e f : ℤ)
      → compressed_positions ceil_log2 ratio rf rfx i size n [] ≡ some (some buffer, e, f)
      → (offset : ℕ) × (bs : BStream) × (get_elem? rfx i ≡ some offset)
        × (stream_at rf offset ≡ some bs)
        × (positions_loop ceil_log2 ratio n (compute_ba ratio n size) false [] 0 bs ≡ some buffer)
  unfolding compressed_positions
  coded_inv rf rfx i size n buffer e f run =
      let b = compute_ba ratio n size in
      let loop = λ (bs : BStream). positions_loop ceil_log2 ratio n b false [] 0 bs in
      let last : BStream → Answer =
        λ bs. elim (loop bs) [ none ↦ none | some items ↦ some (reduce n items) ] in
      let (offset, at, run1) =
        chained (get_elem? rfx i)
          (λ offset. elim (stream_at rf offset) [ none ↦ none | some bs ↦ last bs ])
          (some buffer, e, f) run in
      let (bs, opened, run2) = chained (stream_at rf offset) last (some buffer, e, f) run1 in
      let (items, found, run3) =
        chained (loop bs) (λ items. some (reduce n items)) (some buffer, e, f) run2 in
      let all =
        reduce_all ceil_log2 ratio n items
          (length-positions_loop ceil_log2 ratio n b 0 bs items found) in
      let answer = sym all ∙ some-injective (reduce n items) (some buffer, e, f) run3 in
      let same = some-injective items buffer (ap (λ t. t.0) answer) in
      (offset, bs, at, opened, found ∙ ap some same)

  -- A component and its index that are looked up in turn.
  abbrev with_both : Option (List ℕ) → Option (List ℕ) → (List ℕ → List ℕ → Answer) → Answer
  with_both x y f =
      let no_data : Answer = some (none, cda_enodata, pos 0) in
      elim x [ none ↦ no_data | some u ↦ elim y [ none ↦ no_data | some v ↦ f u v ] ]

  both :
      (x y : Option (List ℕ)) (f : List ℕ → List ℕ → Answer) (buffer : List ℕ) (e g : ℤ)
      → with_both x y f ≡ some (some buffer, e, g)
      → (u : List ℕ) × (v : List ℕ) × (x ≡ some u)
        × (y ≡ some v)
        × (f u v ≡ some (some buffer, e, g))
  both none y f buffer e g run = absurd (null_list cda_enodata e (pos 0) g buffer _ refl run)
  both (some u) none f buffer e g run = absurd (null_list cda_enodata e (pos 0) g buffer _ refl run)
  both (some u) (some v) f buffer e g run = (u, v, refl, refl, run)

  kind_inv :
      (attribute : Option PosAttribute) (a : PosAttribute) (id freq : ℤ) (size n : ℕ)
      (buffer : List ℕ) (e f : ℤ)
      → pos_arg attribute ≡ accepted a
      → check_id a id ≡ checked size n
      → cl_id2cpos_oldstyle ceil_log2 ratio attribute id freq [] ≡ some (some buffer, e, f)
      → PlainEntry ceil_log2 ratio a (unsigned32 id) n buffer
        ⊎ CodedEntry ceil_log2 ratio a (unsigned32 id) size n buffer
  unfolding cl_id2cpos_oldstyle
  kind_inv attribute a id freq size n buffer e f arg check run =
      let i = unsigned32 id in
      elim (Bool-cases (eqb_ℤ (cl_index_compressed (some a)) (pos 0))) [
        | inl uses ↦
            let run' = rw (cl_id2cpos_oldstyle, arg, check, uses) at run in
            let (rev, idx, held, held_idx, last) =
              both a.rev_corpus a.rev_corpus_idx
                (λ rev idx. plain_positions ceil_log2 ratio rev idx i n []) buffer e f run' in
            let (offset, at, ints) = plain_inv rev idx i n buffer e f last in
            inl (record {
              rev = rev;
              idx = idx;
              offset = offset;
              uses = uses;
              rev_corpus = held;
              rev_corpus_idx = held_idx;
              at = at;
              ints = ints;
            })
        | inr uses ↦
            let run' = rw (cl_id2cpos_oldstyle, arg, check, uses) at run in
            let (rf, rfx, held, held_idx, last) =
              both a.comp_rf a.comp_rfx
                (λ rf rfx. compressed_positions ceil_log2 ratio rf rfx i size n []) buffer e f
                run' in
            let (offset, bs, at, opened, loop) = coded_inv rf rfx i size n buffer e f last in
            inr (record {
              rf = rf;
              rfx = rfx;
              offset = offset;
              bs = bs;
              uses = uses;
              comp_rf = held;
              comp_rfx = held_idx;
              at = at;
              stream = opened;
              loop = loop;
            })
      ]

  -- `cl_id2cpos_oldstyle` without ranges: a list is that of an entry.
  pub cl_id2cpos_oldstyle-Entry :
      (attribute : Option PosAttribute) (id freq e f : ℤ) (buffer : List ℕ)
      → cl_id2cpos_oldstyle ceil_log2 ratio attribute id freq [] ≡ some (some buffer, e, f)
      → Entry ceil_log2 ratio attribute id buffer
  unfolding cl_id2cpos_oldstyle
  cl_id2cpos_oldstyle-Entry attribute id freq e f buffer run =
      elim (PosArg-cases (pos_arg attribute)) [
        | inl (e', arg) ↦
            absurd (null_list e' e freq f buffer _ (rw (cl_id2cpos_oldstyle, arg) refl) run)
        | inr (a, arg) ↦ elim (IdCheck-cases (check_id a id)) [
          | inl (e', none, check) ↦
              absurd
                (null_list e' e freq f buffer _ (rw (cl_id2cpos_oldstyle, arg, check) refl) run)
          | inl (e', some f', check) ↦
              absurd (null_list e' e f' f buffer _ (rw (cl_id2cpos_oldstyle, arg, check) refl) run)
          | inr (size, n, check) ↦ record {
            a = a;
            size = size;
            n = n;
            arg = arg;
            check = check;
            kind = kind_inv attribute a id freq size n buffer e f arg check run;
          }
        ]
      ]
